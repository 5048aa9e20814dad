-- ===== src/Admission/FairQueue/Lanes.antt =====
-- uni_api/admission/core.py: `_FairBodyMemoryWaitQueue` with its two lanes, the small one (`True`) and the large
-- one (`False`). A method of the source that names a lane is that of the lane's view.
use uni_api.Prelude.{ℕ, ◌+◌, String, Bool, true, false, Option, [], if◌then◌else◌, Result, ok, err}
use uni_api.Admission.Gate.{WaiterState, abandoned}
use uni_api.Admission.FairQueue.{
  Lane, LaneView, FairError, lane_has_waiters, wait_in_lane, finish_in_lane, block_lane,
  release_lane, remove_in_lane,
}

pub record FairQueue : Type 0 where
  pub limit : Option ℕ
  pub small : Lane
  pub large : Lane
  pub waiter_state : ℕ → WaiterState
  pub created : ℕ
  pub count : ℕ
  pub peak : ℕ
  pub grants : ℕ
  pub timeouts : ℕ
  pub queue_full : ℕ

abbrev pub empty_lane : Lane
empty_lane = record {
  queues = [];
  tenant_round_robin = [];
  active_turn = false;
  promotion_enabled = true;
}

unfoldable pub init : Option ℕ → FairQueue
init limit = record {
  limit = limit;
  small = empty_lane;
  large = empty_lane;
  waiter_state = λ id. abandoned;
  created = 0;
  count = 0;
  peak = 0;
  grants = 0;
  timeouts = 0;
  queue_full = 0;
}

unfoldable pub lane_of : Bool → FairQueue → Lane
lane_of true q = q.small
lane_of false q = q.large

-- What a method sees of the queue.
unfoldable pub focus : Bool → FairQueue → LaneView
focus small_lane q = record {
  limit = q.limit;
  lane = lane_of small_lane q;
  waiter_state = q.waiter_state;
  created = q.created;
  count = q.count;
  peak = q.peak;
  grants = q.grants;
  timeouts = q.timeouts;
  queue_full = q.queue_full;
}

-- The queue after a method has changed what it sees.
unfoldable pub put_back : Bool → LaneView → FairQueue → FairQueue
put_back small_lane view q = record {
  limit = view.limit;
  small = if small_lane then view.lane else q.small;
  large = if small_lane then q.large else view.lane;
  waiter_state = view.waiter_state;
  created = view.created;
  count = view.count;
  peak = view.peak;
  grants = view.grants;
  timeouts = view.timeouts;
  queue_full = view.queue_full;
}

unfoldable pub has_waiters : Bool → FairQueue → Bool
has_waiters small_lane q = lane_has_waiters (focus small_lane q)

unfoldable pub wait_turn :
    Bool → String → ℕ → FairQueue → FairQueue × Result FairError (ℕ × Option ℕ)
wait_turn small_lane tenant timeout_seconds q =
    let (view, answer) = wait_in_lane tenant timeout_seconds (focus small_lane q) in
    (put_back small_lane view q, answer)

unfoldable pub finish_turn : Bool → FairQueue → FairQueue × Result FairError (Option ℕ)
finish_turn small_lane q = elim (finish_in_lane (focus small_lane q)) [
  | ok (view, who) ↦ (put_back small_lane view q, ok who)
  | err e ↦ (q, err e)
]

unfoldable pub block_until_release : Bool → FairQueue → FairQueue
block_until_release small_lane q = put_back small_lane (block_lane (focus small_lane q)) q

-- `for lane in (True, False)`, and who is granted in each.
unfoldable pub notify_memory_released : FairQueue → FairQueue × Option ℕ × Option ℕ
notify_memory_released q =
    let (small, first) = release_lane (focus true q) in
    let next = put_back true small q in
    let (large, second) = release_lane (focus false next) in
    (put_back false large next, first, second)

unfoldable pub remove : Bool → String → ℕ → FairQueue → FairQueue × Result FairError (Option ℕ)
remove small_lane tenant w q =
    let (view, answer) = remove_in_lane tenant w (focus small_lane q) in
    (put_back small_lane view q, answer)

-- The end of `wait_turn` for a waiter that timed out, or was cancelled.
unfoldable pub give_up :
    Bool → String → ℕ → Bool → FairQueue → FairQueue × Result FairError (Option ℕ)
give_up small_lane tenant w timed_out q =
    remove small_lane tenant w
      (record q { timeouts = if timed_out then q.timeouts + 1 else q.timeouts })
