-- ===== src/Thread/Handshake.antt =====
-- The constructor of Thread and Thread::run (common/thread.cc), in every interleaving.
use synergy_lib.Prelude.{
  ℕ, refl, arith, Bool, true, false, Option, none, some, List, [], ◌∷◌, ◌+◌, ◌≡◌, ◌≤◌,
  if◌then◌else◌, leb,
}
use synergy_lib.Prelude.Int.{ℤ}
use synergy_lib.Thread.{
  Creator, creating, constructed, Runner, absent, begun, identified, swapped, notified, returned,
  Session, new_session, new_thread, set_name, identify, swap_cb, notify, wait, Step, creates,
  create_fails, waits, wait_fails, identifies, swaps, notifies, calls, renames, Reach, here, next,
}

-- How far the new thread is.
abbrev pub rank : Runner → ℕ
rank absent = 0
rank begun = 1
rank identified = 2
rank swapped = 3
rank notified = 4
rank returned = 5

abbrev is_constructed : Creator → ℕ
is_constructed constructed = 1
is_constructed _ = 0

abbrev is_creating : Creator → Bool
is_creating creating = true
is_creating _ = false

-- What holds between two steps, for the callback `cb` and the new thread's id `tid`.
pub record Inv (self : ℕ) (tid : ℤ) (cb : Option ℕ) (s : Session) : Type 0 where
  pub unstarted : is_creating s.creator ≡ true → s.runner ≡ absent
  pub tokens :
      s.object.semaphore + is_constructed s.creator ≡ (if leb 4 (rank s.runner) then 1 else 0)
  pub known : 2 ≤ rank s.runner → s.object.id ≡ tid
  pub named : 2 ≤ rank s.runner → (s.t_thread ≡ some self) × (s.t_thread_name ≡ s.object.name)
  pub given : s.object.cb ≡ (if leb 3 (rank s.runner) then none else cb)
  pub held : s.local_cb ≡ (if leb 3 (rank s.runner) then cb else none)
  pub once : s.called ≡ (if leb 5 (rank s.runner) then cb ∷ [] else [])

pub Step-Inv :
    {self : ℕ} {tid : ℤ} {s s' : Session} (cb : Option ℕ)
    → Step self tid s s'
    → Inv self tid cb s
    → Inv self tid cb s'
unfolding wait identify swap_cb notify set_name
Step-Inv cb (creates handle e) v = ground (arith, v.unstarted)
Step-Inv cb (create_fails e) v = ground (arith, v.unstarted)
Step-Inv cb (waits e lt) v = ground (arith, v.known, v.named)
Step-Inv cb (wait_fails e) v = ground (arith, v.known, v.named)
Step-Inv cb (identifies e) v = ground (arith, v.known, v.named)
Step-Inv cb (swaps e) v = ground (arith, v.known, v.named)
Step-Inv cb (notifies e) v = ground (arith, v.known, v.named)
Step-Inv cb (calls e) v = ground (arith, v.known, v.named)
Step-Inv cb (renames name e) v = ground (arith, v.known, v.named)

Reach-Inv :
    {self : ℕ} {tid : ℤ} {s s' : Session} (cb : Option ℕ)
    → Reach self tid s s'
    → Inv self tid cb s
    → Inv self tid cb s'
Reach-Inv cb here v = v
Reach-Inv cb (next r st) v = Step-Inv cb st (Reach-Inv cb r v)

pub new_session-Inv :
    (self : ℕ) (tid : ℤ) (cb : Option ℕ) (name : List ℕ) → Inv self tid cb (new_session cb name)
unfolding new_session new_thread
new_session-Inv self tid cb name = record {
  unstarted = λ _. refl;
  tokens = refl;
  known = λ h. absurd (omega arith);
  named = λ h. absurd (omega arith);
  given = refl;
  held = refl;
  once = refl;
}

-- When the constructor returns, in every interleaving with the new thread, m_id is the id of that
-- thread, which has taken the callback out of the object and knows its Thread by its name; and it
-- has called that callback once and nothing else, or nothing yet.
pub constructor_waits :
    (self : ℕ) (tid : ℤ) (cb : Option ℕ) (name : List ℕ) {s : Session}
    → Reach self tid (new_session cb name) s
    → s.creator ≡ constructed
    → (s.object.id ≡ tid)
      × (s.object.cb ≡ none)
      × (s.local_cb ≡ cb)
      × (s.t_thread ≡ some self)
      × (s.t_thread_name ≡ s.object.name)
      × (s.called ≡ (if leb 5 (rank s.runner) then cb ∷ [] else []))
unfolding new_session new_thread
constructor_waits self tid cb name {s} r e =
    let v = Reach-Inv cb r (new_session-Inv self tid cb name) in
    ground (arith, v.tokens, v.known, v.named, v.given, v.held, v.once)
