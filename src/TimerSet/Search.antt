-- ===== src/TimerSet/Search.antt =====
-- What insert, find and erase of the set of timers do when the set is in order.
use synergy_lib.Prelude.{
  ℕ, ◌≡◌, refl, true, false, not, ◌&&◌, ◌||◌, Option, none, some, List, [], ◌∷◌, arith, ◌==◌,
  if◌then◌else◌, contains, remove, drop, IsDistinct, suc, zero, Bool, filter,
}
use mathlib.Core.Option
use synergy_lib.TimerSet.{less, insert, find, erase, erase_at, shift}
use synergy_lib.TimerSet.Order.{less_trans, less-asymm, less-total, less_irrefl}

-- `x` comes before every element.
abbrev pub Above : (ℕ → ℕ) → ℕ → List ℕ → Type 0
Above next x [] = Unit {0}
Above next x (y ∷ ys) = (less next x y ≡ true) × Above next x ys

abbrev pub IsSorted : (ℕ → ℕ) → List ℕ → Type 0
IsSorted next [] = Unit {0}
IsSorted next (x ∷ xs) = Above next x xs × IsSorted next xs

module _ (next : ℕ → ℕ) where
  Above-trans : (a b : ℕ) (xs : List ℕ) → less next a b ≡ true → Above next b xs → Above next a xs
  Above-trans a b [] h k = tt
  Above-trans a b (x ∷ xs) h k = (less_trans next a b x h k.0, Above-trans a b xs h k.1)

  pub less-Above :
      (x q : ℕ) (xs : List ℕ) → Above next x xs → contains q xs ≡ true → less next x q ≡ true
  less-Above x q [] h k = cc
  less-Above x q (y ∷ ys) h k = ground (arith, less-Above x q ys)

  pub Above-not_contains : (x : ℕ) (xs : List ℕ) → Above next x xs → contains x xs ≡ false
  Above-not_contains x [] h = refl
  Above-not_contains x (y ∷ ys) h = ground (arith, Above-not_contains x ys h.1, less_irrefl next x)

  pub contains-remove :
      (p q : ℕ) (xs : List ℕ)
      → IsSorted next xs
      → contains q (remove p xs) ≡ (contains q xs && not (p == q))
  contains-remove p q [] s = refl
  contains-remove p q (x ∷ xs) s =
      ground (arith, contains-remove p q xs s.1, Above-not_contains x xs s.0)

  remove-Above : (a p : ℕ) (xs : List ℕ) → Above next a xs → Above next a (remove p xs)
  remove-Above a p [] h = tt
  remove-Above a p (x ∷ xs) h = ground (arith, remove-Above a p xs h.1)

  pub remove-IsSorted : (p : ℕ) (xs : List ℕ) → IsSorted next xs → IsSorted next (remove p xs)
  remove-IsSorted p [] s = tt
  remove-IsSorted p (x ∷ xs) s = ground (arith, remove-IsSorted p xs s.1, remove-Above x p xs s.0)

  insert-Above :
      (a x : ℕ) (xs : List ℕ)
      → less next a x ≡ true
      → Above next a xs
      → Above next a (insert next x xs).0
  unfolding insert
  insert-Above a x [] h k = (h, tt)
  insert-Above a x (y ∷ ys) h k = ground (arith, insert-Above a x ys h k.1)

  pub insert-IsSorted :
      (x : ℕ) (xs : List ℕ) → IsSorted next xs → IsSorted next (insert next x xs).0
  unfolding insert
  insert-IsSorted x [] s = (tt, tt)
  insert-IsSorted x (y ∷ ys) s =
      ground (arith, insert-IsSorted x ys s.1, insert-Above y x ys, Above-trans x y ys)

  pub contains-insert :
      (x q : ℕ) (xs : List ℕ) → contains q (insert next x xs).0 ≡ (x == q || contains q xs)
  unfolding insert
  contains-insert x q [] = refl
  contains-insert x q (y ∷ ys) = ground (arith, contains-insert x q ys, less-total next x y)

  erase_at-shift :
      (x : ℕ) (xs : List ℕ) (o : Option ℕ)
      → erase_at (shift o) (x ∷ xs) ≡ Option.map (λ ys. x ∷ ys) (erase_at o xs)
  unfolding erase
  erase_at-shift x xs none = refl
  erase_at-shift x xs (some i) = refl

  -- In an ordered set find(p) shows p itself if it is there, and end() if it is not; erasing what it
  -- shows removes p and nothing else.
  pub erase_at-find :
      (p : ℕ) (xs : List ℕ)
      → IsSorted next xs
      → erase_at (find next p xs) xs ≡ (if contains p xs then some (remove p xs) else none)
  unfolding find erase
  erase_at-find p [] s = refl
  erase_at-find p (x ∷ xs) s = ground (
    arith,
    erase_at-shift x xs (find next p xs),
    erase_at-find p xs s.1,
    less_irrefl next p,
    less-total next p x,
    less-Above x p xs s.0,
    less-asymm next p x,
  )

Above-ext :
    (f g : ℕ → ℕ) (x : ℕ) (xs : List ℕ)
    → f x ≡ g x
    → ((q : ℕ) → contains q xs ≡ true → f q ≡ g q)
    → Above f x xs
    → Above g x xs
unfolding less
Above-ext f g x [] h e a = tt
Above-ext f g x (y ∷ ys) h e a =
    (ground (arith, e y), Above-ext f g x ys h (λ q k. e q (ground arith)) a.1)

-- The order of a set depends on the times of its own elements only.
pub IsSorted-ext :
    (f g : ℕ → ℕ) (xs : List ℕ)
    → ((q : ℕ) → contains q xs ≡ true → f q ≡ g q)
    → IsSorted f xs
    → IsSorted g xs
IsSorted-ext f g [] e s = tt
IsSorted-ext f g (x ∷ xs) e s = (
  Above-ext f g x xs (e x (ground arith)) (λ q k. e q (ground arith)) s.0,
  IsSorted-ext f g xs (λ q k. e q (ground arith)) s.1,
)

pub drop-IsSorted : (f : ℕ → ℕ) (n : ℕ) (xs : List ℕ) → IsSorted f xs → IsSorted f (drop n xs)
drop-IsSorted f zero xs s = s
drop-IsSorted f (suc n) [] s = tt
drop-IsSorted f (suc n) (x ∷ xs) s = drop-IsSorted f n xs s.1

pub IsSorted-IsDistinct : (f : ℕ → ℕ) (xs : List ℕ) → IsSorted f xs → IsDistinct xs
IsSorted-IsDistinct f [] s = tt
IsSorted-IsDistinct f (x ∷ xs) s = (Above-not_contains f x xs s.0, IsSorted-IsDistinct f xs s.1)

filter-Above :
    (next : ℕ → ℕ) (f : ℕ → Bool) (a : ℕ) (xs : List ℕ)
    → Above next a xs
    → Above next a (filter f xs)
filter-Above next f a [] h = tt
filter-Above next f a (x ∷ xs) h = ground (arith, filter-Above next f a xs h.1)

pub filter-IsSorted :
    (next : ℕ → ℕ) (f : ℕ → Bool) (xs : List ℕ) → IsSorted next xs → IsSorted next (filter f xs)
filter-IsSorted next f [] s = tt
filter-IsSorted next f (x ∷ xs) s =
    ground (arith, filter-IsSorted next f xs s.1, filter-Above next f x xs s.0)
