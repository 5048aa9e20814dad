-- ===== src/Tests/FairQueue.antt =====
-- Tests of the model of `_FairBodyMemoryWaitQueue` of uni_api/admission/core.py.
use uni_api.Prelude.{◌+◌, ◌≡◌, refl, true, false, none, some, List, [], ◌∷◌, ◌++◌, err}
use uni_api.Admission.Gate.{abandoned, set_state, remove_waiter}
use uni_api.Admission.FairQueue.{
  turn_underflow, queue_of, put_queue, pop_queue, count_for_lane, take_first, grant_turn,
  promote_loop, promote, enqueue, is_at_limit, wait_in_lane, finish_in_lane, block_lane,
  release_lane, has_waiter, remove_queued, remove_in_lane,
}
use uni_api.Admission.FairQueue.Lanes.{
  init, lane_of, focus, put_back, wait_turn, finish_turn, block_until_release,
  notify_memory_released, remove, give_up,
}
use uni_api.Admission.FairQueue.Promotion.{IsSettled}
use uni_api.Admission.FairQueue.Calls.{
  Call, waits, finishes, blocks, memory_released, gives_up, step, run, run-init_counted,
  run-init-IsSettled,
}

program : Unit {0}
unfolding set_state remove_waiter queue_of put_queue pop_queue count_for_lane take_first grant_turn
    promote_loop promote enqueue is_at_limit wait_in_lane finish_in_lane block_lane release_lane
    has_waiter remove_queued remove_in_lane init lane_of focus put_back wait_turn finish_turn
    block_until_release notify_memory_released remove give_up step run
program = tt

no_turn : (finish_turn true (init none)).1 ≡ err turn_underflow
unfolding program
no_turn = refl

-- Two tenants take turns in the small lane, while another one has the turn of the large lane.
abbrev two_tenants : List Call
two_tenants =
    waits true "a" 5
    ∷ waits true "a" 5
    ∷ waits true "a" 5
    ∷ waits true "b" 5
    ∷ waits false "c" 5
    ∷ waits false "a" 5
    ∷ finishes true
    ∷ finishes true
    ∷ []

in_turns :
    let q = run (init (some 10)) two_tenants in
    (queue_of "b" q.small.queues ≡ none)
    × (queue_of "a" q.small.queues ≡ some (2 ∷ []))
    × (queue_of "a" q.large.queues ≡ some (5 ∷ []))
    × (q.count ≡ 2)
    × (q.grants ≡ 4)
unfolding program
in_turns = (refl, refl, refl, refl, refl)

-- A waiter that gives up a turn that somebody has ended is left as abandoned.
given_up_late :
    (remove true "a" 0 (run (init none) (waits true "a" 5 ∷ finishes true ∷ []))).0.waiter_state 0
    ≡ abandoned
unfolding program
given_up_late = refl

-- A tenant that timed out in a blocked lane and waits again has two turns, and is served twice before
-- another one.
abbrev waits_again : List Call
waits_again =
    blocks true
    ∷ waits true "a" 5
    ∷ gives_up true "a" 0 true
    ∷ waits true "a" 5
    ∷ waits true "a" 5
    ∷ waits true "b" 5
    ∷ []

two_turns : (run (init none) waits_again).small.tenant_round_robin ≡ "a" ∷ "a" ∷ "b" ∷ []
unfolding program
two_turns = refl

served_twice :
    let q = run (init none) (waits_again ++ memory_released ∷ finishes true ∷ []) in
    (queue_of "a" q.small.queues ≡ none) × (queue_of "b" q.small.queues ≡ some (3 ∷ []))
unfolding program
served_twice = (refl, refl)

run-init_counted_example :
    let q = run (init (some 10)) two_tenants in
    q.count ≡ count_for_lane q.small.queues + count_for_lane q.large.queues
run-init_counted_example = run-init_counted (some 10) two_tenants

run-init-IsSettled_example : IsSettled (focus false (run (init (some 10)) two_tenants))
run-init-IsSettled_example = run-init-IsSettled (some 10) two_tenants false
