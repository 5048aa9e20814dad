-- ===== src/Tests/Affinity.antt =====
-- Tests of the model of uni_api/routing/search_affinity.py.
use uni_api.Prelude.{
  ◌+◌, ◌≤◌, ◌<◌, ◌≡◌, refl, ◌↔◌, none, some, List, [], ◌∷◌, arith, length, update, ok, err,
}
use uni_api.Routing.Affinity.{
  SearchAffinityBinding, StoredBinding, SearchAffinityStore, ttl_not_positive, init, lookup, remove,
  move_to_end, purge_expired, evict, get, insert, bind_if_absent, snapshot, Call, gets, binds, step,
  run,
}
use uni_api.Routing.Affinity.Keys.{Distinct}
use uni_api.Routing.Affinity.Bounds.{IsStore, get_count, run-init_bounded}
use uni_api.Routing.Affinity.Sessions.{time_of, Before, bind_if_absent-get}
use uni_api.Routing.Affinity.Locks.{
  set_users, enter_session, is_entry, release_session_entry, waiting, holding, task, State, start,
  holder_count, enter, enters, acquired, Reach, started, then_step,
}
use uni_api.Routing.Affinity.Locks.Counts.{session_count, working_count}
use uni_api.Routing.Affinity.Locks.Exclusion.{Reach-working_count, Reach-session_count}

program : Unit {0}
unfolding init lookup remove move_to_end purge_expired evict get insert bind_if_absent snapshot step
    run Distinct get_count time_of Before set_users enter_session is_entry release_session_entry
    start holder_count enter session_count working_count update
program = tt

abbrev fresh : SearchAffinityStore
fresh = record { ttl = 10; max_entries = 2; bindings = []; hits = 0; misses = 0; evictions = 0 }

abbrev binding : SearchAffinityBinding
binding = record {
  provider_fingerprint = "p1";
  request_model = "gpt";
  original_model = "gpt-4o";
  credential_fingerprint = some "c1";
}

fresh-IsStore : IsStore fresh
unfolding program
fresh-IsStore = record { keys = tt; size = omega arith; room = omega arith }

made : init 10 2 ≡ ok fresh
unfolding program
made = refl

no_time : init 0 2 ≡ err ttl_not_positive
unfolding program
no_time = refl

-- The third session takes the place of the one that was used least recently.
abbrev three_sessions : List Call
three_sessions = binds 1 "a" binding ∷ binds 2 "b" binding ∷ gets 3 "a" ∷ binds 4 "c" binding ∷ []

least_recent :
    (lookup "b" (run fresh three_sessions).bindings ≡ none)
    × ((run fresh three_sessions).evictions ≡ 1)
unfolding program
least_recent = (refl, refl)

expired : (get 11 "a" (run fresh (binds 1 "a" binding ∷ []))).1 ≡ none
unfolding program
expired = refl

run-init_bounded_example :
    (length (run fresh three_sessions).bindings ≤ 2)
    × Distinct (run fresh three_sessions).bindings
    × ((run fresh three_sessions).hits + (run fresh three_sessions).misses
        ≡ get_count three_sessions)
run-init_bounded_example = run-init_bounded 10 2 fresh three_sessions made

abbrev stored : StoredBinding
stored = record { binding = binding; expires_at = 11 }

abbrev other_session : List Call
other_session = binds 4 "c" binding ∷ []

found : lookup "a" (bind_if_absent 1 "a" binding fresh).0.bindings ≡ some stored
unfolding program
found = refl

early : Before stored.expires_at other_session
unfolding program
early = (omega arith, tt)

few : length other_session < fresh.max_entries
few = omega arith

in_time : 9 < stored.expires_at
in_time = omega arith

bind_if_absent-get_example :
    (get 9 "a" (run (bind_if_absent 1 "a" binding fresh).0 other_session)).1
    ≡ some (bind_if_absent 1 "a" binding fresh).1
bind_if_absent-get_example =
    bind_if_absent-get fresh 1 9 "a" binding stored other_session fresh-IsStore found early in_time
      few

-- One task works on a session while another waits for it.
abbrev entered : State
entered = enter "a" (enter "a" start)

abbrev working : State
working = record { locks = entered.locks; tasks = task "a" 0 waiting ∷ task "a" 0 holding ∷ [] }

entered-Reach : Reach entered
entered-Reach =
    then_step (enter "a" start) entered
      (then_step start (enter "a" start) started (enters start "a")) (enters (enter "a" start) "a")

working-Reach : Reach working
unfolding program
working-Reach =
    then_step entered working entered-Reach
      (acquired entered.locks "a" 0 (task "a" 0 waiting ∷ []) [] refl)

one_works : (working_count "a" working.tasks ≡ 1) × (session_count "a" working.tasks ≡ 2)
unfolding program
one_works = (refl, refl)

Reach-working_count_example : working_count "a" working.tasks ≤ 1
Reach-working_count_example = Reach-working_count working "a" working-Reach

Reach-session_count_example :
    (working.locks.session_locks "a" ≡ none) ↔ (session_count "a" working.tasks ≡ 0)
Reach-session_count_example = Reach-session_count working "a" working-Reach
