-- ===== src/Admission/FairQueue/Calls.antt =====
-- The queue with both lanes, under any calls.
use uni_api.Prelude.{
  ℕ, ◌+◌, String, ◌≡◌, refl, inl, inr, Bool, true, false, not, Option, List, [], ◌∷◌, arith,
  if◌then◌else◌,
}
use uni_api.Admission.FairQueue.{
  LaneView, count_for_lane, finish_in_lane, block_lane, release_lane, wait_in_lane, remove_in_lane,
}
use uni_api.Admission.FairQueue.Lanes.{
  FairQueue, init, lane_of, focus, put_back, wait_turn, finish_turn, block_until_release,
  notify_memory_released, remove, give_up,
}
use uni_api.Admission.FairQueue.Turns.{Tenants, Covered}
use uni_api.Admission.FairQueue.Promotion.{IsSettled, promote-IsSettled}
use uni_api.Admission.FairQueue.Waits.{
  IsCalm, wait_in_lane-IsCalm, finish_in_lane-IsCalm, remove_in_lane-IsCalm, answer_cases,
}

-- A call on a lane. `gives_up` is the timeout of a waiter, or its cancellation.
pub data Call : Type 0 where
  waits : Bool → String → ℕ → Call
  finishes : Bool → Call
  blocks : Bool → Call
  memory_released : Call
  gives_up : Bool → String → ℕ → Bool → Call

unfoldable pub step : FairQueue → Call → FairQueue
step q (waits lane tenant timeout_seconds) = (wait_turn lane tenant timeout_seconds q).0
step q (finishes lane) = (finish_turn lane q).0
step q (blocks lane) = block_until_release lane q
step q memory_released = (notify_memory_released q).0
step q (gives_up lane tenant w timed_out) = (give_up lane tenant w timed_out q).0

unfoldable pub run : FairQueue → List Call → FairQueue
run q [] = q
run q (c ∷ cs) = run (step q c) cs

-- The number of waiters in the queues of the other lane.
abbrev waiters_beside : Bool → FairQueue → ℕ
waiters_beside lane q = count_for_lane (lane_of (not lane) q).queues

-- Both lanes, each with the other's waiters beside it.
abbrev AreCalm : FairQueue → Type 0
AreCalm q = (lane : Bool) → IsCalm (waiters_beside lane q) (focus lane q)

-- A method of one lane leaves the other lane calm.
put_back-AreCalm :
    (lane : Bool) (view : LaneView) (q : FairQueue)
    → AreCalm q
    → IsCalm (waiters_beside lane q) view
    → AreCalm (put_back lane view q)
unfolding put_back focus lane_of
put_back-AreCalm true view q i (j, settled) true = (j, settled)
put_back-AreCalm true view q i (j, settled) false = (
  record {
    keys = (i false).0.keys;
    covered = (i false).0.covered;
    counted = omega (arith, j.counted);
  },
  (i false).1,
)
put_back-AreCalm false view q i (j, settled) true = (
  record {
    keys = (i true).0.keys;
    covered = (i true).0.covered;
    counted = omega (arith, j.counted);
  },
  (i true).1,
)
put_back-AreCalm false view q i (j, settled) false = (j, settled)

finish_turn-AreCalm : (lane : Bool) (q : FairQueue) → AreCalm q → AreCalm (finish_turn lane q).0
unfolding finish_turn
finish_turn-AreCalm lane q i = elim (answer_cases (finish_in_lane (focus lane q))) [
  | inl ((view, who), h) ↦
      rw (finish_turn, h)
        (put_back-AreCalm lane view q i
          (finish_in_lane-IsCalm (waiters_beside lane q) (focus lane q) view who (i lane) h))
  | inr (e, h) ↦ rw (finish_turn, h) i
]

block-AreCalm : (lane : Bool) (q : FairQueue) → AreCalm q → AreCalm (block_until_release lane q)
unfolding block_until_release block_lane
block-AreCalm lane q i =
    put_back-AreCalm lane (block_lane (focus lane q)) q i ((i lane).0, inr (inl refl))

-- Enabling and promoting one lane.
release-AreCalm :
    (lane : Bool) (q : FairQueue)
    → AreCalm q
    → AreCalm (put_back lane (release_lane (focus lane q)).0 q)
unfolding release_lane
release-AreCalm lane q i =
    let view = focus lane q in
    put_back-AreCalm lane (release_lane view).0 q i (
      promote-IsSettled (waiters_beside lane q)
        (record view { lane = record view.lane { promotion_enabled = true } }) (i lane).0)

remove-AreCalm :
    (lane : Bool) (tenant : String) (w : ℕ) (q : FairQueue)
    → AreCalm q
    → AreCalm (remove lane tenant w q).0
unfolding remove
remove-AreCalm lane tenant w q i =
    put_back-AreCalm lane (remove_in_lane tenant w (focus lane q)).0 q i
      (remove_in_lane-IsCalm (waiters_beside lane q) tenant w (focus lane q) (i lane))

timeout-AreCalm : (q : FairQueue) (n : ℕ) → AreCalm q → AreCalm (record q { timeouts = n })
unfolding focus lane_of
timeout-AreCalm q n i true = i true
timeout-AreCalm q n i false = i false

step-AreCalm : (q : FairQueue) (c : Call) → AreCalm q → AreCalm (step q c)
unfolding step wait_turn notify_memory_released give_up
step-AreCalm q (waits lane tenant timeout_seconds) i =
    put_back-AreCalm lane (wait_in_lane tenant timeout_seconds (focus lane q)).0 q i
      (wait_in_lane-IsCalm (waiters_beside lane q) tenant timeout_seconds (focus lane q) (i lane))
step-AreCalm q (finishes lane) i = finish_turn-AreCalm lane q i
step-AreCalm q (blocks lane) i = block-AreCalm lane q i
step-AreCalm q memory_released i =
    let small = put_back true (release_lane (focus true q)).0 q in
    release-AreCalm false small (release-AreCalm true q i)
step-AreCalm q (gives_up lane tenant w timed_out) i =
    let timeouts = if timed_out then q.timeouts + 1 else q.timeouts in
    remove-AreCalm lane tenant w (record q { timeouts = timeouts }) (timeout-AreCalm q timeouts i)

run-AreCalm : (q : FairQueue) (cs : List Call) → AreCalm q → AreCalm (run q cs)
unfolding run
run-AreCalm q [] i = i
run-AreCalm q (c ∷ cs) i = run-AreCalm (step q c) cs (step-AreCalm q c i)

init-AreCalm : (limit : Option ℕ) → AreCalm (init limit)
unfolding Tenants Covered count_for_lane init focus lane_of
init-AreCalm limit true = (record { keys = tt; covered = tt; counted = refl }, inr (inr refl))
init-AreCalm limit false = (record { keys = tt; covered = tt; counted = refl }, inr (inr refl))

-- After any calls on both lanes, `_count` is the number of the waiters in the queues of the two lanes.
pub run-init_counted :
    (limit : Option ℕ) (cs : List Call)
    → let q = run (init limit) cs in
      q.count ≡ count_for_lane q.small.queues + count_for_lane q.large.queues
unfolding focus lane_of
run-init_counted limit cs = (run-AreCalm (init limit) cs (init-AreCalm limit) true).0.counted

-- After any calls on both lanes, nobody waits in the queues of a lane unless a task has the lane's turn or the lane
-- is blocked until memory is released.
pub run-init-IsSettled :
    (limit : Option ℕ) (cs : List Call) (lane : Bool) → IsSettled (focus lane (run (init limit) cs))
run-init-IsSettled limit cs lane = (run-AreCalm (init limit) cs (init-AreCalm limit) lane).1
