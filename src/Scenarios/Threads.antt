-- ===== src/Scenarios/Threads.antt =====
-- A thread at the address 40 with the id 12, and one that is joined at the second attempt.
use synergy_lib.Prelude.{
  ℕ, refl, arith, ◌≡◌, none, some, [], ◌∷◌, List, true, false, if◌then◌else◌, length, ◌+◌, leb,
}
use synergy_lib.Prelude.Int.{pos}
use synergy_lib.Thread.{
  Session, new_session, new_thread, identify, swap_cb, notify, wait, creates, waits, identifies,
  swaps, notifies, Reach, here, next, joins_and_destructor, begun, waiting,
}
use synergy_lib.Thread.Handshake.{constructor_waits, rank}
use synergy_lib.Thread.Joining.{released_once, releases, failures}

abbrev name : List ℕ
name = 119 ∷ 48 ∷ []

abbrev created : Session
created = record {
  object = record (new_session (some 6) name).object { thread = some 900 };
  creator = waiting;
  runner = begun;
  t_thread = none;
  t_thread_name = (new_session (some 6) name).t_thread_name;
  system_name = [];
  local_cb = none;
  called = [];
}

abbrev told : Session
told = wait (notify (swap_cb (identify 40 (pos 12) created)))

told-Reach : Reach 40 (pos 12) (new_session (some 6) name) told
unfolding new_session new_thread identify swap_cb notify wait
told-Reach =
    next
      (next (next (next (next here (creates 900 refl)) (identifies refl)) (swaps refl))
        (notifies refl))
      (waits refl (omega arith))

constructor_waits_example :
    (told.object.id ≡ pos 12)
    × (told.object.cb ≡ none)
    × (told.local_cb ≡ some 6)
    × (told.t_thread ≡ some 40)
    × (told.t_thread_name ≡ told.object.name)
    × (told.called ≡ (if leb 5 (rank told.runner) then some 6 ∷ [] else []))
unfolding wait
constructor_waits_example = constructor_waits 40 (pos 12) (some 6) name told-Reach refl

released_once_example :
    let rs = joins_and_destructor (true ∷ false ∷ []) created.object in
    (releases rs ≡ 1) × (length rs ≡ failures (true ∷ false ∷ []) + 1)
released_once_example = released_once (true ∷ false ∷ []) created.object
