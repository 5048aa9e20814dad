-- ===== src/Admission/FairQueue/Waits.antt =====
-- Each method keeps the waiters of its lane counted, and none waits while the turn is free.
use mathlib.Core.Path.{subst}
use uni_api.Prelude.{
  ℕ, ◌+◌, max, String, ◌≡◌, refl, ap, ◌⊎◌, inl, inr, true, false, not, Option, some, List, [], ◌∷◌,
  ◌++◌, arith, ◌==◌, if◌then◌else◌, Bool-cases, Option-cases, length, length-append, Result, ok,
  err,
}
use uni_api.Admission.Gate.{queued, abandoned, set_state, remove_waiter, is_empty}
use uni_api.Admission.FairQueue.{
  Queues, Lane, LaneView, FairError, queue_of, put_queue, pop_queue, count_for_lane, promote,
  enqueue, is_at_limit, wait_in_lane, finish_in_lane, has_waiter, remove_queued, remove_in_lane,
}
use uni_api.Admission.FairQueue.Turns.{
  Tenants, Covered, Covered-append, Covered-fewer, Covered-put_queue, Covered-last, has_turn_last,
}
use uni_api.Admission.FairQueue.Counts.{
  Tenants-pop_queue, Tenants-put_queue, Tenants-last, count-put_queue, count-pop_queue, count_last,
  length-remove_waiter,
}
use uni_api.Admission.Gate.Fixed.{state-cases}
use uni_api.Admission.FairQueue.Promotion.{IsFair, IsQueue, IsSettled, promote-IsSettled}

-- A lane between two calls.
abbrev pub IsCalm : ℕ → LaneView → Type 0
IsCalm other q = IsQueue other q × IsSettled q

enqueue-IsFair :
    (other count : ℕ) (tenant : String) (w : ℕ) (lane : Lane)
    → IsFair other count lane.queues lane.tenant_round_robin
    → IsFair other
        (count + 1)
        (enqueue tenant w lane).queues
        (enqueue tenant w lane).tenant_round_robin
unfolding enqueue
enqueue-IsFair other count tenant w lane i = elim (Option-cases (queue_of tenant lane.queues)) [
  | inl e ↦
      let turns = lane.tenant_round_robin ++ tenant ∷ [] in
      rw (enqueue, e)
        (record {
          keys = Tenants-last tenant (w ∷ []) lane.queues i.keys e;
          covered =
              Covered-last tenant (w ∷ []) turns lane.queues
                (Covered-append tenant lane.tenant_round_robin lane.queues i.covered)
                (has_turn_last tenant lane.tenant_round_robin);
          counted = omega (arith, i.counted, count_last tenant (w ∷ []) lane.queues);
        })
  | inr (ws, e) ↦
      rw (enqueue, e)
        (record {
          keys = Tenants-put_queue tenant (ws ++ w ∷ []) lane.queues i.keys;
          covered =
              Covered-put_queue tenant (ws ++ w ∷ []) lane.tenant_round_robin lane.queues i.covered;
          counted = omega (
            arith,
            i.counted,
            count-put_queue tenant ws (ws ++ w ∷ []) lane.queues e,
            length-append ws (w ∷ []),
          );
        })
]

pub wait_in_lane-IsCalm :
    (other : ℕ) (tenant : String) (timeout_seconds : ℕ) (q : LaneView)
    → IsCalm other q
    → IsCalm other (wait_in_lane tenant timeout_seconds q).0
unfolding wait_in_lane
wait_in_lane-IsCalm other tenant timeout_seconds q i = elim (Bool-cases (timeout_seconds == 0)) [
  | inl e ↦ rw (wait_in_lane, e) i
  | inr e ↦ elim (Bool-cases (is_at_limit q.limit q.count)) [
    | inl full ↦ rw (wait_in_lane, e, full) i
    | inr room ↦
        rw (wait_in_lane, e, room)
          (promote-IsSettled other
            (record q {
              lane = enqueue tenant q.created q.lane;
              waiter_state = set_state q.created queued q.waiter_state;
              created = q.created + 1;
              count = q.count + 1;
              peak = max q.peak (q.count + 1);
            })
            (enqueue-IsFair other q.count tenant q.created q.lane i.0))
  ]
]

-- The queues after a waiter is removed from one.
empty-length : (ws : List ℕ) → is_empty ws ≡ true → length ws ≡ 0
empty-length [] h = refl
empty-length (w ∷ ws) h = absurd (cc h)

abbrev others_of : String → ℕ → List ℕ → Queues → Queues
others_of tenant w ws qs =
    if is_empty (remove_waiter w ws)
    then pop_queue tenant qs
    else put_queue tenant (remove_waiter w ws) qs

record Fewer (tenant : String) (w : ℕ) (ws : List ℕ) (turns : List String) (qs : Queues)
    : Type 0 where
  keys : Tenants (others_of tenant w ws qs)
  covered : Covered turns (others_of tenant w ws qs)
  counted :
      count_for_lane (others_of tenant w ws qs) + (if has_waiter w ws then 1 else 0)
      ≡ count_for_lane qs

fewer_lem :
    (tenant : String) (w : ℕ) (ws : List ℕ) (turns : List String) (qs : Queues)
    → Tenants qs
    → Covered turns qs
    → queue_of tenant qs ≡ some ws
    → Fewer tenant w ws turns qs
fewer_lem tenant w ws turns qs d c e =
    let others = remove_waiter w ws in
    let size = length-remove_waiter w ws in
    elim (Bool-cases (is_empty others)) [
      | inl none_left ↦ record {
        keys = rw (none_left) (Tenants-pop_queue tenant qs d);
        covered = rw (none_left) (Covered-fewer tenant turns qs c);
        counted =
            rw (none_left)
              (omega (arith, size, count-pop_queue tenant ws qs e, empty-length others none_left));
      }
      | inr more ↦ record {
        keys = rw (more) (Tenants-put_queue tenant others qs d);
        covered = rw (more) (Covered-put_queue tenant others turns qs c);
        counted = rw (more) (omega (arith, size, count-put_queue tenant ws others qs e));
      }
    ]

remove_queued-IsCalm :
    (other : ℕ) (tenant : String) (w : ℕ) (q : LaneView)
    → IsCalm other q
    → IsCalm other (remove_queued tenant w q)
unfolding remove_queued
remove_queued-IsCalm other tenant w q (i, settled) =
    elim (Option-cases (queue_of tenant q.lane.queues)) [
      | inl e ↦ rw (remove_queued, e) (i, settled)
      | inr (ws, e) ↦
          let f =
            fewer_lem tenant w ws q.lane.tenant_round_robin q.lane.queues i.keys i.covered e in
          let fewer = f.counted in
          rw (remove_queued, e)
            (
              record {
                keys = f.keys;
                covered = f.covered;
                counted = ground (arith, i.counted, fewer);
              },
              elim settled [
                | inl h ↦ inl h
                | inr (inl h) ↦ inr (inl h)
                | inr (inr h) ↦ inr (inr (omega (arith, h, fewer)))
              ],
            )
    ]

pub finish_in_lane-IsCalm :
    (other : ℕ) (q next : LaneView) (who : Option ℕ)
    → IsCalm other q
    → finish_in_lane q ≡ ok (next, who)
    → IsCalm other next
unfolding finish_in_lane
finish_in_lane-IsCalm other q next who (i, settled) h =
    let free : LaneView = record q { lane = record q.lane { active_turn = false } } in
    elim (Bool-cases (not q.lane.active_turn)) [
      | inl e ↦ absurd (cc (e, h))
      | inr e ↦
          let answer : ok (promote free) ≡ ok (next, who) = rw (e) at h in
          let same : promote free ≡ (next, who) =
            ap (λ x. elim x [ ok y ↦ y | err y ↦ promote free ]) answer in
          subst (λ x. IsCalm other x.0) same (promote-IsSettled other free i)
    ]

pub answer_cases :
    (r : Result FairError (LaneView × Option ℕ))
    → ((next : LaneView × Option ℕ) × (r ≡ ok next)) ⊎ ((e : FairError) × (r ≡ err e))
answer_cases (ok next) = inl (next, refl)
answer_cases (err e) = inr (e, refl)

pub remove_in_lane-IsCalm :
    (other : ℕ) (tenant : String) (w : ℕ) (q : LaneView)
    → IsCalm other q
    → IsCalm other (remove_in_lane tenant w q).0
unfolding remove_in_lane
remove_in_lane-IsCalm other tenant w q i = elim (state-cases (q.waiter_state w)) [
  | inl e ↦ rw (remove_in_lane, e) (remove_queued-IsCalm other tenant w q i)
  | inr (inl e) ↦
      let left : LaneView = record q { waiter_state = set_state w abandoned q.waiter_state } in
      elim (answer_cases (finish_in_lane left)) [
        | inl ((next, who), h) ↦
            rw (remove_in_lane, e, h) (finish_in_lane-IsCalm other left next who i h)
        | inr (x, h) ↦ rw (remove_in_lane, e, h) i
      ]
  | inr (inr e) ↦ rw (remove_in_lane, e) i
]
