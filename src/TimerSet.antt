-- ===== src/TimerSet.antt =====
-- std::set<Timer::ptr, Timer::Comparator> (common/Timer.h), as the ordered list of its elements.
-- A pointer is a number and the null pointer is `none`; `next` reads the m_next of the timer at an
-- address. An iterator is the number of elements before it, so end() is the length.
pub mod Order
pub mod Search
use synergy_lib.Prelude.{
  ℕ, zero, suc, Bool, true, false, Option, none, some, List, [], ◌∷◌, ltb, ◌==◌, if◌then◌else◌,
}

-- Timer::Comparator::operator() between two pointers that are not null.
unfoldable pub less : (ℕ → ℕ) → ℕ → ℕ → Bool
less next lhs rhs =
    if ltb (next lhs) (next rhs)
    then true
    else if ltb (next rhs) (next lhs)
    then false
    else ltb lhs rhs

-- Timer::Comparator::operator()
pub comparator : (ℕ → ℕ) → Option ℕ → Option ℕ → Bool
unfolding less
comparator next none none = false
comparator next none (some r) = true
comparator next (some l) none = false
comparator next (some l) (some r) = less next l r

-- insert(x): the set and the position of the element that the returned iterator shows.
unfoldable pub insert : (ℕ → ℕ) → ℕ → List ℕ → List ℕ × ℕ
insert next x [] = (x ∷ [], 0)
insert next x (y ∷ ys) =
    let rest = insert next x ys in
    if less next y x
    then (y ∷ rest.0, suc rest.1)
    else if less next x y
    then (x ∷ y ∷ ys, 0)
    else (y ∷ ys, 0)

-- lower_bound(x): the first element that is not less than x.
unfoldable pub lower_bound : (ℕ → ℕ) → ℕ → List ℕ → ℕ
lower_bound next x [] = 0
lower_bound next x (y ∷ ys) = if less next y x then suc (lower_bound next x ys) else 0

abbrev pub shift : Option ℕ → Option ℕ
shift none = none
shift (some i) = some (suc i)

-- find(x): the element equivalent to x; `none` is end().
unfoldable pub find : (ℕ → ℕ) → ℕ → List ℕ → Option ℕ
find next x [] = none
find next x (y ∷ ys) =
    if less next y x then shift (find next x ys) else if less next x y then none else some 0

-- erase(it)
unfoldable pub erase : ℕ → List ℕ → List ℕ
erase i [] = []
erase zero (y ∷ ys) = ys
erase (suc i) (y ∷ ys) = y ∷ erase i ys

-- erase(it); erasing at end() is undefined, shown as `none`.
abbrev pub erase_at : Option ℕ → List ℕ → Option (List ℕ)
erase_at none xs = none
erase_at (some i) xs = some (erase i xs)
