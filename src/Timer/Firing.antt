-- ===== src/Timer/Firing.antt =====
-- The loop of TimerManager::listExpiredCb (common/Timer.cc) over the expired timers.
use synergy_lib.Prelude.{
  ℕ, refl, arith, List, ◌∷◌, IsDistinct, contains, ◌≡◌, update, if◌then◌else◌, [], true, ◌||◌,
  false, map, ◌==◌, ◌&&◌, ap, ◌∙◌, Bool,
}
use synergy_lib.TimerSet.{insert}
use synergy_lib.TimerSet.Search.{IsSorted, insert-IsSorted, contains-insert}
use synergy_lib.Timer.{Timer, next_at}
use synergy_lib.Timer.Listing.{fire_all, after_firing}
use synergy_lib.Timer.Invariant.{IsSorted-update}

-- The expired timers, in a state in which they are out of the set.
pub record Firing (es : List ℕ) (heap : ℕ → Timer) (timers : List ℕ) : Type 0 where
  pub distinct : IsDistinct es
  pub disjoint : (q : ℕ) → contains q es ≡ true → contains q timers ≡ false
  pub sorted : IsSorted (next_at heap) timers

insert_if-IsSorted :
    (next : ℕ → ℕ) (p : ℕ) (xs : List ℕ) (b : Bool)
    → IsSorted next xs
    → IsSorted next (if b then (insert next p xs).0 else xs)
insert_if-IsSorted next p xs true s = insert-IsSorted next p xs s
insert_if-IsSorted next p xs false s = s

module _ (now_ms p : ℕ) (ps : List ℕ) (heap : ℕ → Timer) (timers : List ℕ)
    (f : Firing (p ∷ ps) heap timers) where
  abbrev heap_after : ℕ → Timer
  heap_after = update heap p (after_firing now_ms (heap p))

  abbrev timers_after : List ℕ
  timers_after = if (heap p).recurring then (insert (next_at heap_after) p timers).0 else timers

  IsSorted-heap_after : IsSorted (next_at heap_after) timers
  IsSorted-heap_after = IsSorted-update heap p _ timers (f.disjoint p (ground arith)) f.sorted

  contains-timers_after :
      (q : ℕ) → contains q timers_after ≡ (contains q timers || (p == q && (heap p).recurring))
  contains-timers_after q = ground (arith, contains-insert (next_at heap_after) p q timers)

  Firing-step : Firing ps heap_after timers_after
  Firing-step = record {
    distinct = f.distinct.1;
    disjoint = λ q k. ground (arith, contains-timers_after q, f.disjoint q, f.distinct.0);
    sorted =
        insert_if-IsSorted (next_at heap_after) p timers (heap p).recurring IsSorted-heap_after;
  }

-- The objects: those of the expired timers change, and no other.
pub heap-fire_all :
    (now_ms : ℕ) (es : List ℕ) (heap : ℕ → Timer) (timers : List ℕ) (q : ℕ)
    → IsDistinct es
    → (fire_all now_ms es heap timers).0 q
      ≡ (if contains q es then after_firing now_ms (heap q) else heap q)
unfolding fire_all
heap-fire_all now_ms [] heap timers q d = refl
heap-fire_all now_ms (p ∷ ps) heap timers q d =
    heap-fire_all now_ms ps _ _ q d.1 ∙ ground (arith, d.0)

-- The set: the recurring ones among the expired timers come back.
pub contains-fire_all :
    (now_ms : ℕ) (es : List ℕ) (heap : ℕ → Timer) (timers : List ℕ) (q : ℕ)
    → Firing es heap timers
    → contains q (fire_all now_ms es heap timers).1
      ≡ (contains q timers || (contains q es && (heap q).recurring))
unfolding fire_all
contains-fire_all now_ms [] heap timers q f = ground arith
contains-fire_all now_ms (p ∷ ps) heap timers q f =
    contains-fire_all now_ms ps _ _ q (Firing-step now_ms p ps heap timers f)
    ∙ ground (arith, contains-timers_after now_ms p ps heap timers f q, f.distinct.0)

pub fire_all-IsSorted :
    (now_ms : ℕ) (es : List ℕ) (heap : ℕ → Timer) (timers : List ℕ)
    → Firing es heap timers
    → IsSorted (next_at (fire_all now_ms es heap timers).0) (fire_all now_ms es heap timers).1
unfolding fire_all
fire_all-IsSorted now_ms [] heap timers f = f.sorted
fire_all-IsSorted now_ms (p ∷ ps) heap timers f =
    fire_all-IsSorted now_ms ps _ _ (Firing-step now_ms p ps heap timers f)

map-update :
    (ps : List ℕ) (p : ℕ) (heap : ℕ → Timer) (t : Timer)
    → contains p ps ≡ false
    → map (λ q. (update heap p t q).cb) ps ≡ map (λ q. (heap q).cb) ps
map-update [] p heap t n = refl
map-update (x ∷ ps) p heap t n = ground (arith, map-update ps p heap t)

-- The callbacks handed out are those that the expired timers had, in their order.
pub callbacks-fire_all :
    (now_ms : ℕ) (es : List ℕ) (heap : ℕ → Timer) (timers : List ℕ)
    → IsDistinct es
    → (fire_all now_ms es heap timers).2 ≡ map (λ p. (heap p).cb) es
unfolding fire_all
callbacks-fire_all now_ms [] heap timers d = refl
callbacks-fire_all now_ms (p ∷ ps) heap timers d =
    ap (λ cs. (heap p).cb ∷ cs) (callbacks-fire_all now_ms ps _ _ d.1 ∙ map-update ps p heap _ d.0)
