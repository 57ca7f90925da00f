-- ===== src/Piber/Life.antt =====
-- The constructors of Piber and Piber::GetThis (synergy/Piber.cc).
use synergy_lib.Prelude.{
  List, [], ◌∷◌, true, false, if◌then◌else◌, ℕ, refl, arith, Bool, some, ◌≡◌, ◌↔◌, ◌%◌, ◌^◌, ◌≢◌,
  u64, ◌+◌, is_some, inl, inr, if◌then◌else◌, Option-cases,
}
use synergy_lib.Piber.{Machine, new_piber, new_main, get_this, destroy}

get_this_again :
    (fresh : ℕ) (garbage : Bool) (p : ℕ) (m : Machine)
    → m.t_piber ≡ some p
    → get_this fresh garbage m ≡ (m, p)
unfolding get_this
get_this_again fresh garbage p m h = simp (h, get_this) refl

-- GetThis returns what t_piber names from then on, and a second call returns the same and changes
-- nothing; it adds one to s_piber_count if t_piber named nothing, and else leaves it.
pub get_this_lem :
    (fresh again : ℕ) (garbage garbage' : Bool) (m : Machine)
    → let (m', p) = get_this fresh garbage m in
      (m'.t_piber ≡ some p)
      × (get_this again garbage' m' ≡ (m', p))
      × (m'.piber_count ≡ (if is_some m.t_piber then m.piber_count else u64 (m.piber_count + 1)))
unfolding get_this new_main
get_this_lem fresh again garbage garbage' m = elim (Option-cases m.t_piber) [
  | inl n ↦ rw (n, get_this) (refl, rw (n, get_this) refl, refl)
  | inr (p, h) ↦
      rw (get_this_again fresh garbage p m h) (h, get_this_again again garbage' p m h, rw h refl)
]

-- A coroutine gets no stack exactly when a size is asked for that is a multiple of 2^32, since
-- m_stacksize has 32 bits and the parameter 64.
pub stack_lost_iff :
    (p stack cb stacksize : ℕ) (run_in_scheduler : Bool) (m : Machine)
    → (((new_piber p stack cb stacksize run_in_scheduler m).heap p).stacksize ≡ 0)
      ↔ ((stacksize ≢ 0) × (stacksize % 2 ^ 32 ≡ 0))
unfolding new_piber
stack_lost_iff p stack cb stacksize run_in_scheduler m =
    (λ h. ground (arith, h), λ h. ground (arith, h.0, h.1))

-- What happens to the coroutines of a program: constructors and destructors.
pub data Change : Type 0 where
  made : ℕ → ℕ → ℕ → ℕ → Bool → Change
  made_main : ℕ → Bool → Change
  gone : ℕ → Change

pub change : Change → Machine → Machine
unfolding new_piber new_main destroy
change (made p stack cb stacksize run_in_scheduler) m =
    new_piber p stack cb stacksize run_in_scheduler m
change (made_main p garbage) m = new_main p garbage m
change (gone p) m = destroy p m

pub changes : List Change → Machine → Machine
unfolding change
changes [] m = m
changes (c ∷ cs) m = changes cs (change c m)

abbrev pub is_made : Change → Bool
is_made (made _ _ _ _ _) = true
is_made (made_main _ _) = true
is_made (gone _) = false

pub how_many : Bool → List Change → ℕ
how_many b [] = 0
how_many true (c ∷ cs) = (if is_made c then 1 else 0) + how_many true cs
how_many false (c ∷ cs) = (if is_made c then 0 else 1) + how_many false cs

-- Through any sequence of constructors and destructors, s_piber_count counts the coroutines made less
-- those destroyed, and s_piber_id those made, both modulo 2^64.
pub counts_lem :
    (cs : List Change) (m : Machine)
    → (u64 ((changes cs m).piber_count + how_many false cs)
        ≡ u64 (m.piber_count + how_many true cs))
      × (u64 (changes cs m).piber_id ≡ u64 (m.piber_id + how_many true cs))
unfolding changes how_many change new_piber new_main destroy
counts_lem [] m = (refl, omega arith)
counts_lem (made p stack cb size b ∷ cs) m =
    let rest = counts_lem cs (new_piber p stack cb size b m) in
    (omega (arith, rest.0), omega (arith, rest.1))
counts_lem (made_main p g ∷ cs) m =
    let rest = counts_lem cs (new_main p g m) in (omega (arith, rest.0), omega (arith, rest.1))
counts_lem (gone p ∷ cs) m =
    let rest = counts_lem cs (destroy p m) in (omega (arith, rest.0), omega (arith, rest.1))
