-- ===== src/Timer/Lifetime.antt =====
-- One timer among others, from when it is set to when it fires (common/Timer.cc).
use mathlib.Core.List.{Memᴰ, ◌∷◌}
use synergy_lib.Prelude.{
  refl, ℕ, arith, true, false, none, ◌≡◌, contains, subst, contains-filter, Bool-cases, List, ◌||◌,
  inl, ◌==◌, map, leb, inr, ap, [], sym,
}
use synergy_lib.Timer.{TimerManager, next_at}
use synergy_lib.Timer.Listing.{clock_rollover, list_expired_cb, after_firing}
use synergy_lib.Timer.Invariant.{IsValid}
use synergy_lib.Timer.Expired.{list_expired_lem, expired_timers}
use synergy_lib.Timer.Expiry.{is_due}
use synergy_lib.Timer.Sparing.{Meanwhile, Meanwhile-Holds}

pub map-Memᴰ {ℓ} :
    {A : Type ℓ} (f : ℕ → A) (p : ℕ) (xs : List ℕ) → contains p xs ≡ true → Memᴰ (f p) (map f xs)
map-Memᴰ f p [] h = absurd (ground (arith, h))
map-Memᴰ f p (x ∷ xs) h = elim (Bool-cases (p == x)) [
  | inl k ↦ Memᴰ.head (ap f (ground (arith, k)))
  | inr k ↦ Memᴰ.tail (map-Memᴰ f p xs (ground (arith, h, k)))
]

-- A one-shot timer is in the set of a valid manager. Other timers are then added, cancelled,
-- refreshed, reset and fired in any order, with no call of listExpiredCb at which this one is due or
-- the clock has rolled over. At the next call of listExpiredCb, if the clock has rolled over or the
-- timer is due, its callback is handed out, and the timer leaves the set and has none any more; if
-- not, it stays in the set as it was.
pub fires_when_due :
    (p now_timer now_ms : ℕ) {s m : TimerManager}
    → IsValid s
    → contains p s.timers ≡ true
    → (s.heap p).recurring ≡ false
    → Meanwhile p s m
    → contains now_timer m.timers ≡ false
    → let t = s.heap p in
      let r = list_expired_cb now_timer now_ms m in
      let is_time = clock_rollover m.previouse_time now_ms || leb t.next now_ms in
      (is_time ≡ true → Memᴰ t.cb r.1 × (contains p r.0.timers ≡ false) × ((r.0.heap p).cb ≡ none))
      × (is_time ≡ false → (contains p r.0.timers ≡ true) × (r.0.heap p ≡ t))
unfolding after_firing
fires_when_due p now_timer now_ms {s} {m} v in_set once w n =
    let (v', h) = Meanwhile-Holds p (s.heap p) w (v, record { queued = in_set; set_to = refl }) in
    let r = list_expired_lem now_ms m v' now_timer n in
    let due = contains-filter (is_due (next_at m.heap) now_ms) p m.timers in
    (
      λ e. (
        subst (λ cs. Memᴰ (s.heap p).cb cs) (sym r.0)
            (subst (λ c. Memᴰ c (map (λ q. (m.heap q).cb) (expired_timers now_ms m)))
              (ap (λ x. x.cb) h.set_to)
              (map-Memᴰ (λ q. (m.heap q).cb) p (expired_timers now_ms m)
                (ground (arith, e, due, h.queued, h.set_to)))),
        ground (arith, e, r.2 p, due, h.queued, h.set_to, once),
        ground (arith, e, r.1 p, due, h.queued, h.set_to, once),
      ),
      λ e. (
        ground (arith, e, r.2 p, due, h.queued, h.set_to, once),
        ground (arith, e, r.1 p, due, h.queued, h.set_to),
      ),
    )
