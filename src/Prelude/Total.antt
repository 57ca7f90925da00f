-- ===== src/Prelude/Total.antt =====
-- The sum of a number for each member of a numbered family.
use Prim.Native.Nat.{ℕ, zero, suc, ◌+◌, ◌*◌, ◌≤◌, ◌<◌}
use mathlib.Core.Logic.{◌⊎◌, inl, inr}
use mathlib.Core.Path.{◌≡◌, refl}
use native.Mathlib.Nat.{zero-add, suc-add}
use native.Mathlib.Omega.{arith}
use synergy_lib.Prelude.Lists.{update}

zero_or_pos : (k : ℕ) → (k ≡ 0) ⊎ (0 < k)
zero_or_pos zero = inl refl
zero_or_pos (suc k) = inr (omega arith)

module _ {ℓ} {P : Type ℓ} (f : P → ℕ) where
  unfoldable pub total : ℕ → (ℕ → P) → ℕ
  total zero pc = 0
  total (suc n) pc = f (pc n) + total n pc

  total-above : (n i : ℕ) (p : P) (pc : ℕ → P) → n ≤ i → total n (update pc i p) ≡ total n pc
  unfolding total
  total-above zero i p pc h = omega arith
  total-above (suc n) i p pc h = ground (arith, total-above n i p pc)

  -- One member goes from what it was to `p`.
  pub total-update :
      (n i : ℕ) (p : P) (pc : ℕ → P) → i < n → total n (update pc i p) + f (pc i) ≡ total n pc + f p
  unfolding total
  total-update zero i p pc h = elim h [ ]
  total-update (suc n) i p pc h = ground (arith, total-update n i p pc, total-above n i p pc)

  pub le-total : (n i : ℕ) (pc : ℕ → P) → i < n → f (pc i) ≤ total n pc
  unfolding total
  le-total zero i pc h = elim h [ ]
  le-total (suc n) i pc h = ground (arith, le-total n i pc)

  pub total-le : (n b : ℕ) (pc : ℕ → P) → ((p : P) → f p ≤ b) → total n pc ≤ b * n
  unfolding total
  total-le zero b pc h = omega arith
  total-le (suc n) b pc h = grind (arith, total-le n b pc h, h (pc n))

  pub total-ext :
      (n : ℕ) (pc qc : ℕ → P) → ((i : ℕ) → i < n → f (pc i) ≡ f (qc i)) → total n pc ≡ total n qc
  unfolding total
  total-ext zero pc qc h = refl
  total-ext (suc n) pc qc h =
      omega (arith, h n (omega arith), total-ext n pc qc (λ i k. h i (omega arith)))

  -- Members that count nothing do not change the sum.
  pub total-more :
      (n k : ℕ) (pc : ℕ → P) → ((i : ℕ) → n ≤ i → f (pc i) ≡ 0) → total (k + n) pc ≡ total n pc
  unfolding total
  total-more n zero pc h = rw zero-add
  total-more n (suc k) pc h =
      rw suc-add (omega (arith, h (k + n) (omega arith), total-more n k pc h))

  -- Some member counts something, or the sum is 0.
  pub total-cases : (n : ℕ) (pc : ℕ → P) → ((i : ℕ) × (i < n) × (0 < f (pc i))) ⊎ (total n pc ≡ 0)
  unfolding total
  total-cases zero pc = inr refl
  total-cases (suc n) pc = elim (total-cases n pc) [
    | inl (i, lt, h) ↦ inl (i, omega arith, h)
    | inr none_below ↦ elim (zero_or_pos (f (pc n))) [
      | inl z ↦ inr (omega arith)
      | inr h ↦ inl (n, omega arith, h)
    ]
  ]
