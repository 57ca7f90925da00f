-- ===== src/TimerSet/Order.antt =====
-- Timer::Comparator orders the pointers strictly and totally, so the set keeps one order.
use synergy_lib.Prelude.{ℕ, ◌≡◌, true, false, Option, arith}
use synergy_lib.TimerSet.{less, comparator}

pub less_irrefl : (next : ℕ → ℕ) (a : ℕ) → less next a a ≡ false
unfolding less
less_irrefl next a = ground arith

pub less_trans :
    (next : ℕ → ℕ) (a b c : ℕ) → less next a b ≡ true → less next b c ≡ true → less next a c ≡ true
unfolding less
less_trans next a b c h k = ground arith

pub less-asymm : (next : ℕ → ℕ) (a b : ℕ) → less next a b ≡ true → less next b a ≡ false
unfolding less
less-asymm next a b h = ground arith

pub less-total : (next : ℕ → ℕ) (a b : ℕ) → less next a b ≡ false → less next b a ≡ false → a ≡ b
unfolding less
less-total next a b h k = ground arith

-- The comparator is a strict total order on all pointers, null included: irreflexive, transitive,
-- and two pointers that it orders neither way are the same pointer.
comparator-IsStrict :
    (next : ℕ → ℕ) (a b c : Option ℕ)
    → (comparator next a a ≡ false)
      × (comparator next a b ≡ true → comparator next b c ≡ true → comparator next a c ≡ true)
      × (comparator next a b ≡ false → comparator next b a ≡ false → a ≡ b)
unfolding comparator
comparator-IsStrict next a b c = ground arith
