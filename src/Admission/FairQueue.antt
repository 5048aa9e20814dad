-- ===== src/Admission/FairQueue.antt =====
-- uni_api/admission/core.py: `_FairBodyMemoryWaitQueue`. Each method works on one lane at a time and on what
-- the two lanes share, which is a `LaneView`; Lanes has the queue with both lanes. The queues of a
-- lane are an association list in the order of insertion. A waiter is an identity; its future is done
-- exactly when its state is not `queued`. A tenant is the normalized `tenant_key`.
pub mod Turns
pub mod Counts
pub mod Promotion
pub mod Waits
pub mod Lanes
pub mod Calls
use uni_api.Prelude.{
  ℕ, zero, suc, ◌+◌, ◌-◌, ◌*◌, max, String, Bool, true, false, not, ◌||◌, Option, none, some, List,
  [], ◌∷◌, ◌++◌, ltb, leb, ◌==◌, if◌then◌else◌, length, str_eq, Result, ok, err,
}
use uni_api.Admission.Gate.{
  WaiterState, queued, granted, abandoned, is_queued, set_state, remove_waiter, is_empty,
}

abbrev pub Queues : Type 0
Queues = List (String × List ℕ)

pub record Lane : Type 0 where
  pub queues : Queues
  pub tenant_round_robin : List String
  pub active_turn : Bool
  pub promotion_enabled : Bool

pub record LaneView : Type 0 where
  pub limit : Option ℕ
  pub lane : Lane
  pub waiter_state : ℕ → WaiterState
  pub created : ℕ
  pub count : ℕ
  pub peak : ℕ
  pub grants : ℕ
  pub timeouts : ℕ
  pub queue_full : ℕ

pub data FairError : Type 0 where
  timeout_error turn_underflow : FairError

-- `tenant_queues.get(tenant)`
unfoldable pub queue_of : String → Queues → Option (List ℕ)
queue_of tenant [] = none
queue_of tenant ((t, ws) ∷ qs) = if str_eq t tenant then some ws else queue_of tenant qs

-- `tenant_queues[tenant] = ws` for a tenant that is there.
unfoldable pub put_queue : String → List ℕ → Queues → Queues
put_queue tenant ws [] = []
put_queue tenant ws ((t, vs) ∷ qs) =
    if str_eq t tenant then (t, ws) ∷ qs else (t, vs) ∷ put_queue tenant ws qs

-- `tenant_queues.pop(tenant, None)`
unfoldable pub pop_queue : String → Queues → Queues
pop_queue tenant [] = []
pop_queue tenant ((t, vs) ∷ qs) = if str_eq t tenant then qs else (t, vs) ∷ pop_queue tenant qs

-- `sum(len(queue) for queue in queues.values())`
unfoldable pub count_for_lane : Queues → ℕ
count_for_lane [] = 0
count_for_lane ((t, ws) ∷ qs) = length ws + count_for_lane qs

-- The queues and the turns after the first waiter of a tenant is taken, `ws` being the others.
unfoldable pub take_first : String → List ℕ → List String → Lane → Lane
take_first tenant ws turns lane =
    if is_empty ws
    then record lane { queues = pop_queue tenant lane.queues; tenant_round_robin = turns }
    else record lane {
      queues = put_queue tenant ws lane.queues;
      tenant_round_robin = turns ++ tenant ∷ [];
    }

unfoldable pub grant_turn : ℕ → LaneView → LaneView
grant_turn w q = record q {
  waiter_state = set_state w granted q.waiter_state;
  lane = record q.lane { active_turn = true };
  grants = q.grants + 1;
}

-- The rounds of `_promote`, as many as the fuel; the identity that is granted, if one is.
unfoldable pub promote_loop : ℕ → LaneView → LaneView × Option ℕ
promote_loop zero q = (q, none)
promote_loop (suc fuel) q = elim q.lane.tenant_round_robin [
  | [] ↦ (q, none)
  | tenant ∷ turns ↦ elim (queue_of tenant q.lane.queues) [
    | none ↦ promote_loop fuel (record q { lane = record q.lane { tenant_round_robin = turns } })
    | some [] ↦ promote_loop fuel (record q {
      lane = record q.lane { queues = pop_queue tenant q.lane.queues; tenant_round_robin = turns };
    })
    | some (w ∷ ws) ↦
        let taken = record q { count = q.count - 1; lane = take_first tenant ws turns q.lane } in
        elim (is_queued (q.waiter_state w)) [
          | true ↦ (grant_turn w taken, some w)
          | false ↦ promote_loop fuel taken
        ]
  ]
]

-- Each round takes a turn off, or a waiter out of its queue, for which a turn may be added.
unfoldable pub promote : LaneView → LaneView × Option ℕ
promote q =
    let fuel = length q.lane.tenant_round_robin + count_for_lane q.lane.queues * 2 + 1 in
    if q.lane.active_turn || not q.lane.promotion_enabled then (q, none) else promote_loop fuel q

unfoldable pub lane_has_waiters : LaneView → Bool
lane_has_waiters q = q.lane.active_turn || ltb 0 (count_for_lane q.lane.queues)

-- The queue of a tenant with a new waiter at its end.
unfoldable pub enqueue : String → ℕ → Lane → Lane
enqueue tenant w lane = elim (queue_of tenant lane.queues) [
  | none ↦ record lane {
    queues = lane.queues ++ (tenant, w ∷ []) ∷ [];
    tenant_round_robin = lane.tenant_round_robin ++ tenant ∷ [];
  }
  | some ws ↦ record lane { queues = put_queue tenant (ws ++ w ∷ []) lane.queues }
]

unfoldable pub is_at_limit : Option ℕ → ℕ → Bool
is_at_limit none n = false
is_at_limit (some limit) n = leb limit n

-- `wait_in_lane` up to its await: the place in the queue, and who is granted by the promotion.
unfoldable pub wait_in_lane : String → ℕ → LaneView → LaneView × Result FairError (ℕ × Option ℕ)
wait_in_lane tenant timeout_seconds q =
    if timeout_seconds == 0
    then (q, err timeout_error)
    else if is_at_limit q.limit q.count
    then (record q { queue_full = q.queue_full + 1 }, err timeout_error)
    else let waits = record q {
      lane = enqueue tenant q.created q.lane;
      waiter_state = set_state q.created queued q.waiter_state;
      created = q.created + 1;
      count = q.count + 1;
      peak = max q.peak (q.count + 1);
    } in
      let (next, who) = promote waits in (next, ok (q.created, who))

unfoldable pub finish_in_lane : LaneView → Result FairError (LaneView × Option ℕ)
finish_in_lane q =
    if not q.lane.active_turn
    then err turn_underflow
    else ok (promote (record q { lane = record q.lane { active_turn = false } }))

unfoldable pub block_lane : LaneView → LaneView
block_lane q = record q { lane = record q.lane { promotion_enabled = false } }

unfoldable pub release_lane : LaneView → LaneView × Option ℕ
release_lane q = promote (record q { lane = record q.lane { promotion_enabled = true } })

-- `queue.remove(waiter)`, and whether it was there.
unfoldable pub has_waiter : ℕ → List ℕ → Bool
has_waiter w [] = false
has_waiter w (v ∷ vs) = (v == w) || has_waiter w vs

unfoldable pub remove_queued : String → ℕ → LaneView → LaneView
remove_queued tenant w q =
    let left = record q { waiter_state = set_state w abandoned q.waiter_state } in
    elim (queue_of tenant q.lane.queues) [
      | none ↦ left
      | some ws ↦
          let others = remove_waiter w ws in
          let counted = if has_waiter w ws then q.count - 1 else q.count in
          let queues =
            if is_empty others
            then pop_queue tenant q.lane.queues
            else put_queue tenant others q.lane.queues in
          record left { count = counted; lane = record q.lane { queues = queues } }
    ]

-- `_remove`. The state of a waiter that was granted is `abandoned` even where `finish_turn` raises.
unfoldable pub remove_in_lane : String → ℕ → LaneView → LaneView × Result FairError (Option ℕ)
remove_in_lane tenant w q =
    let left = record q { waiter_state = set_state w abandoned q.waiter_state } in
    elim (q.waiter_state w) [
      | queued ↦ (remove_queued tenant w q, ok none)
      | granted ↦ elim (finish_in_lane left) [
        | ok (next, who) ↦ (next, ok who)
        | err e ↦ (left, err e)
      ]
      | abandoned ↦ (q, ok none)
    ]
