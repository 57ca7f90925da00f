-- ===== src/Timer/Expiry.antt =====
-- Which timers TimerManager::listExpiredCb (common/Timer.cc) takes from the front of the set.
use synergy_lib.Prelude.{
  ℕ, Bool, List, leb, not, take, contains, length, true, ◌≡◌, filter, false, drop, arith, ◌∷◌, ◌<◌,
  ◌≤◌, [], ap, suc, refl,
}
use synergy_lib.TimerSet.{less, lower_bound}
use synergy_lib.TimerSet.Search.{Above, IsSorted}
use synergy_lib.Timer.{Timer, next_at}
use synergy_lib.Timer.Listing.{expired_end, skip_equal}

abbrev pub is_due : (ℕ → ℕ) → ℕ → ℕ → Bool
is_due next now_ms p = leb (next p) now_ms

abbrev pub is_later : (ℕ → ℕ) → ℕ → ℕ → Bool
is_later next now_ms p = not (is_due next now_ms p)

-- The first `n` elements are the due ones, and the rest are the others.
abbrev pub Cuts : (ℕ → ℕ) → ℕ → List ℕ → ℕ → Type 0
Cuts next now_ms xs n =
    (take n xs ≡ filter (is_due next now_ms) xs) × (drop n xs ≡ filter (is_later next now_ms) xs)

module _ (next : ℕ → ℕ) (now_ms : ℕ) where
  pub Cuts-none : (x : ℕ) (xs : List ℕ) → now_ms < next x → Above next x xs → Cuts next now_ms xs 0
  unfolding less
  Cuts-none x [] lt a = (refl, refl)
  Cuts-none x (y ∷ ys) lt a = ground (arith, Cuts-none x ys lt a.1)

  Cuts-skip_equal :
      (x : ℕ) (xs : List ℕ)
      → now_ms ≤ next x
      → Above next x xs
      → IsSorted next xs
      → Cuts next now_ms xs (skip_equal next now_ms 0 xs)
  unfolding skip_equal less
  Cuts-skip_equal x [] le a s = (refl, refl)
  Cuts-skip_equal x (y ∷ ys) le a s =
      ground (arith, Cuts-skip_equal x ys le a.1 s.1, Cuts-none y ys)

  Cuts-lower_bound :
      (next' : ℕ → ℕ) (q : ℕ) (xs : List ℕ)
      → ((p : ℕ) → contains p xs ≡ true → next' p ≡ next p)
      → next' q ≡ now_ms
      → IsSorted next xs
      → Cuts next now_ms xs (skip_equal next now_ms (lower_bound next' q xs) xs)
  unfolding skip_equal less lower_bound
  Cuts-lower_bound next' q [] e h s = (refl, refl)
  Cuts-lower_bound next' q (y ∷ ys) e h s = ground (
    arith,
    e y,
    Cuts-lower_bound next' q ys (λ p k. e p (ground arith)) h s.1,
    Cuts-none y ys,
    Cuts-skip_equal y ys,
  )

-- Without a rollover the expired timers are those that are due, wherever the timer for the search
-- is allocated.
pub expired_end-Cuts :
    (now_timer now_ms : ℕ) (heap : ℕ → Timer) (timers : List ℕ)
    → contains now_timer timers ≡ false
    → IsSorted (next_at heap) timers
    → Cuts (next_at heap) now_ms timers (expired_end false now_timer now_ms heap timers)
unfolding expired_end
expired_end-Cuts now_timer now_ms heap timers n s =
    Cuts-lower_bound (next_at heap) now_ms _ now_timer timers (λ p k. ground arith) (ground arith) s

skip_equal_end :
    (next : ℕ → ℕ) (now_ms : ℕ) (xs : List ℕ) → skip_equal next now_ms (length xs) xs ≡ length xs
unfolding skip_equal
skip_equal_end next now_ms [] = refl
skip_equal_end next now_ms (x ∷ xs) = ap suc (skip_equal_end next now_ms xs)

-- After a rollover all timers expire.
pub expired_end-rollover :
    (now_timer now_ms : ℕ) (heap : ℕ → Timer) (timers : List ℕ)
    → expired_end true now_timer now_ms heap timers ≡ length timers
unfolding expired_end
expired_end-rollover now_timer now_ms heap timers = skip_equal_end (next_at heap) now_ms timers
