-- ===== src/Prelude/Lists.antt =====
-- Lists with native indices, and a function changed at one point.
use Prim.Native.Nat.{ℕ, zero, suc, ◌+◌}
use mathlib.Core.Path.{◌≡◌, refl, ap}
use mathlib.Core.Bool.{Bool, true, false, ◌&&◌, ◌||◌}
use mathlib.Core.Option.{Option, none, some}
use mathlib.Core.List.{List, [], ◌∷◌, ◌++◌}
use native.Mathlib.Omega.{arith}
use synergy_lib.Prelude.Tests.{◌==◌, if◌then◌else◌}

module _ {ℓ} {A : Type ℓ} where
  abbrev pub length : List A → ℕ
  length [] = 0
  length (_ ∷ xs) = suc (length xs)

  abbrev pub take : ℕ → List A → List A
  take zero _ = []
  take (suc n) [] = []
  take (suc n) (x ∷ xs) = x ∷ take n xs

  abbrev pub drop : ℕ → List A → List A
  drop zero xs = xs
  drop (suc n) [] = []
  drop (suc n) (x ∷ xs) = drop n xs

  abbrev pub get_elem? : List A → ℕ → Option A
  get_elem? [] i = none
  get_elem? (x ∷ xs) zero = some x
  get_elem? (x ∷ xs) (suc i) = get_elem? xs i

  -- A write out of bounds changes nothing.
  abbrev pub set : List A → ℕ → A → List A
  set [] i v = []
  set (x ∷ xs) zero v = v ∷ xs
  set (x ∷ xs) (suc i) v = x ∷ set xs i v

  abbrev pub is_empty : List A → Bool
  is_empty [] = true
  is_empty (_ ∷ _) = false

  abbrev pub filter : (A → Bool) → List A → List A
  filter f [] = []
  filter f (x ∷ xs) = if f x then x ∷ filter f xs else filter f xs

  abbrev pub any : (A → Bool) → List A → Bool
  any f [] = false
  any f (x ∷ xs) = f x || any f xs

  abbrev pub all : (A → Bool) → List A → Bool
  all f [] = true
  all f (x ∷ xs) = f x && all f xs

  -- A map with every key, changed at one.
  abbrev pub update : (ℕ → A) → ℕ → A → ℕ → A
  update f p v q = if q == p then v else f q

  pub length-append : (xs ys : List A) → length (xs ++ ys) ≡ length xs + length ys
  length-append [] ys = omega arith
  length-append (x ∷ xs) ys = omega (arith, length-append xs ys)

module _ {ℓ} {A : Type ℓ} (f : A → Bool) where
  pub any-middle :
      (before : List A) (t : A) (after : List A) → f t ≡ true → any f (before ++ t ∷ after) ≡ true
  any-middle [] t after h = ground arith
  any-middle (x ∷ before) t after h = ground (arith, any-middle before t after h)

  pub all-append : (ts us : List A) → all f (ts ++ us) ≡ (all f ts && all f us)
  all-append [] us = refl
  all-append (t ∷ ts) us = ground (arith, all-append ts us)

  pub all-middle :
      (before : List A) (t : A) (after : List A)
      → all f (before ++ t ∷ after) ≡ true
      → (f t ≡ true) × (all f (before ++ after) ≡ true)
  all-middle before t after h =
      ground (arith, all-append before (t ∷ after), all-append before after)

-- `p` is one of the numbers of the list.
abbrev pub contains : ℕ → List ℕ → Bool
contains p [] = false
contains p (x ∷ xs) = x == p || contains p xs

-- The list without the first `p`.
abbrev pub remove : ℕ → List ℕ → List ℕ
remove p [] = []
remove p (x ∷ xs) = if x == p then xs else x ∷ remove p xs

-- No number stands in the list twice.
abbrev pub IsDistinct : List ℕ → Type 0
IsDistinct [] = Unit {0}
IsDistinct (x ∷ xs) = (contains x xs ≡ false) × IsDistinct xs

pub contains-take-drop :
    (n q : ℕ) (xs : List ℕ) → contains q xs ≡ (contains q (take n xs) || contains q (drop n xs))
contains-take-drop zero q xs = refl
contains-take-drop (suc n) q [] = refl
contains-take-drop (suc n) q (x ∷ xs) = ground (arith, contains-take-drop n q xs)

pub take-length {ℓ} : {A : Type ℓ} (xs : List A) → take (length xs) xs ≡ xs
take-length [] = refl
take-length (x ∷ xs) = ap (λ ys. x ∷ ys) (take-length xs)

pub drop-length {ℓ} : {A : Type ℓ} (xs : List A) → drop (length xs) xs ≡ []
drop-length [] = refl
drop-length (x ∷ xs) = drop-length xs

-- In a list without repetition no number stands on both sides of a cut.
pub take-drop-disjoint :
    (n q : ℕ) (xs : List ℕ)
    → IsDistinct xs
    → contains q (take n xs) ≡ true
    → contains q (drop n xs) ≡ false
take-drop-disjoint zero q xs d h = cc
take-drop-disjoint (suc n) q [] d h = refl
take-drop-disjoint (suc n) q (x ∷ xs) d h =
    ground (arith, take-drop-disjoint n q xs d.1, contains-take-drop n q xs)

pub take-IsDistinct : (n : ℕ) (xs : List ℕ) → IsDistinct xs → IsDistinct (take n xs)
take-IsDistinct zero xs d = tt
take-IsDistinct (suc n) [] d = tt
take-IsDistinct (suc n) (x ∷ xs) d =
    (ground (arith, contains-take-drop n x xs), take-IsDistinct n xs d.1)

pub contains-filter :
    (f : ℕ → Bool) (q : ℕ) (xs : List ℕ) → contains q (filter f xs) ≡ (contains q xs && f q)
contains-filter f q [] = refl
contains-filter f q (x ∷ xs) = ground (arith, contains-filter f q xs)

pub filter-IsDistinct : (f : ℕ → Bool) (xs : List ℕ) → IsDistinct xs → IsDistinct (filter f xs)
filter-IsDistinct f [] d = tt
filter-IsDistinct f (x ∷ xs) d =
    ground (arith, filter-IsDistinct f xs d.1, contains-filter f x xs, d.0)
