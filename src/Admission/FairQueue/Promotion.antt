-- ===== src/Admission/FairQueue/Promotion.antt =====
-- `_promote` keeps the queues, their count and their turns together, and grants a turn if it can.
use mathlib.Core.Path.{subst}
use uni_api.Prelude.{
  ℕ, zero, suc, ◌+◌, ◌-◌, ◌*◌, ◌<◌, String, ◌≡◌, refl, ap, ◌⊎◌, inl, inr, Bool, true, false, not,
  ◌||◌, some, List, [], ◌∷◌, ◌++◌, arith, Bool-cases, Option-cases, List-cases, length,
  length-append,
}
use uni_api.Admission.Gate.{is_queued}
use uni_api.Admission.FairQueue.{
  Queues, Lane, LaneView, queue_of, pop_queue, count_for_lane, take_first, grant_turn, promote_loop,
  promote,
}
use uni_api.Admission.FairQueue.Turns.{
  Tenants, Covered, has_no_turn, Covered-rotate, Covered-without, Covered-pop_queue,
  Covered-put_queue,
}
use uni_api.Admission.FairQueue.Counts.{
  Tenants-pop_queue, Tenants-put_queue, count-put_queue, count-pop_queue,
}

-- `other` is the number of waiters in the other lane.
pub record IsFair (other count : ℕ) (queues : Queues) (turns : List String) : Type 0 where
  pub keys : Tenants queues
  pub covered : Covered turns queues
  pub counted : count ≡ count_for_lane queues + other

abbrev pub IsQueue : ℕ → LaneView → Type 0
IsQueue other q = IsFair other q.count q.lane.queues q.lane.tenant_round_robin

-- Nobody waits, a task has the turn, or the lane is blocked until memory is released.
abbrev pub IsSettled : LaneView → Type 0
IsSettled q =
    (q.lane.active_turn ≡ true)
    ⊎ ((q.lane.promotion_enabled ≡ false) ⊎ (count_for_lane q.lane.queues ≡ 0))

no_turns : (qs : Queues) → Covered [] qs → count_for_lane qs ≡ 0
unfolding Covered count_for_lane
no_turns [] h = refl
no_turns ((t, ws) ∷ qs) h = absurd (has_no_turn t h.0)

-- The lane after a waiter is taken.
take-IsFair :
    (other count : ℕ) (tenant : String) (w : ℕ) (ws : List ℕ) (turns : List String) (lane : Lane)
    → IsFair other count lane.queues (tenant ∷ turns)
    → queue_of tenant lane.queues ≡ some (w ∷ ws)
    → IsFair other
        (count - 1)
        (take_first tenant ws turns lane).queues
        (take_first tenant ws turns lane).tenant_round_robin
unfolding take_first
take-IsFair other count tenant w [] turns lane i e =
    let less = count-pop_queue tenant (w ∷ []) lane.queues e in
    record {
      keys = Tenants-pop_queue tenant lane.queues i.keys;
      covered = Covered-pop_queue tenant turns lane.queues i.keys i.covered;
      counted = omega (arith, less, i.counted);
    }
take-IsFair other count tenant w (v ∷ ws) turns lane i e =
    let less = count-put_queue tenant (w ∷ v ∷ ws) (v ∷ ws) lane.queues e in
    record {
      keys = Tenants-put_queue tenant (v ∷ ws) lane.queues i.keys;
      covered =
          Covered-put_queue tenant (v ∷ ws) (turns ++ tenant ∷ []) lane.queues
            (Covered-rotate tenant turns lane.queues i.covered);
      counted = omega (arith, less, i.counted);
    }

-- What is left for the loop to do.
left : Lane → ℕ
left lane = length lane.tenant_round_robin + count_for_lane lane.queues * 2

take-left :
    (tenant : String) (w : ℕ) (ws : List ℕ) (turns : List String) (lane : Lane)
    → queue_of tenant lane.queues ≡ some (w ∷ ws)
    → left (take_first tenant ws turns lane) < suc (length turns) + count_for_lane lane.queues * 2
unfolding take_first left
take-left tenant w [] turns lane e = omega (arith, count-pop_queue tenant (w ∷ []) lane.queues e)
take-left tenant w (v ∷ ws) turns lane e = omega (
  arith,
  count-put_queue tenant (w ∷ v ∷ ws) (v ∷ ws) lane.queues e,
  length-append turns (tenant ∷ []),
)

-- What the loop leaves, when it has the rounds that it needs.
pub record Promoted (other : ℕ) (next : LaneView) : Type 0 where
  pub fair : IsQueue other next
  pub settled : (next.lane.active_turn ≡ true) ⊎ (count_for_lane next.lane.queues ≡ 0)

abbrev Loop : ℕ → ℕ → Type 0
Loop other fuel =
    (q : LaneView) → IsQueue other q → left q.lane < fuel → Promoted other (promote_loop fuel q).0

-- The round of a tenant whose queue is empty, or gone.
idle :
    (other fuel : ℕ) (q : LaneView) (tenant : String) (turns : List String)
    → q.lane.tenant_round_robin ≡ tenant ∷ turns
    → IsFair other q.count q.lane.queues (tenant ∷ turns)
    → suc (length turns) + count_for_lane q.lane.queues * 2 < suc fuel
    → Loop other fuel
    → queue_of tenant q.lane.queues ≡ some []
    → Promoted other (promote_loop (suc fuel) q).0
unfolding promote_loop left
idle other fuel q tenant turns e i h loop found =
    let less = count-pop_queue tenant [] q.lane.queues found in
    rw (promote_loop, e, found)
      (loop
        (record q {
          lane = record q.lane {
            queues = pop_queue tenant q.lane.queues;
            tenant_round_robin = turns;
          };
        })
        (record {
          keys = Tenants-pop_queue tenant q.lane.queues i.keys;
          covered = Covered-pop_queue tenant turns q.lane.queues i.keys i.covered;
          counted = omega (arith, less, i.counted);
        })
        (omega (arith, less, h)))

-- The round of a tenant with a waiter.
serve :
    (other fuel : ℕ) (q : LaneView) (tenant : String) (turns : List String) (w : ℕ) (ws : List ℕ)
    → q.lane.tenant_round_robin ≡ tenant ∷ turns
    → IsFair other q.count q.lane.queues (tenant ∷ turns)
    → suc (length turns) + count_for_lane q.lane.queues * 2 < suc fuel
    → Loop other fuel
    → queue_of tenant q.lane.queues ≡ some (w ∷ ws)
    → Promoted other (promote_loop (suc fuel) q).0
unfolding promote_loop grant_turn
serve other fuel q tenant turns w ws e i h loop found =
    let fair = take-IsFair other q.count tenant w ws turns q.lane i found in
    let fewer = take-left tenant w ws turns q.lane found in
    elim (Bool-cases (is_queued (q.waiter_state w))) [
      | inl granted_now ↦
          rw (promote_loop, e, found, granted_now) (record { fair = fair; settled = inl refl })
      | inr skipped ↦
          rw (promote_loop, e, found, skipped)
            (loop (record q { count = q.count - 1; lane = take_first tenant ws turns q.lane }) fair
              (omega (arith, fewer, h)))
    ]

round :
    (other fuel : ℕ) (q : LaneView) (tenant : String) (turns : List String)
    → q.lane.tenant_round_robin ≡ tenant ∷ turns
    → IsFair other q.count q.lane.queues (tenant ∷ turns)
    → suc (length turns) + count_for_lane q.lane.queues * 2 < suc fuel
    → Loop other fuel
    → Promoted other (promote_loop (suc fuel) q).0
unfolding promote_loop left
round other fuel q tenant turns e i h loop = elim (Option-cases (queue_of tenant q.lane.queues)) [
  | inl found ↦
      rw (promote_loop, e, found)
        (loop (record q { lane = record q.lane { tenant_round_robin = turns } })
          (record {
            keys = i.keys;
            covered = Covered-without tenant turns q.lane.queues found i.covered;
            counted = i.counted;
          })
          (omega (arith, h)))
  | inr ([], found) ↦ idle other fuel q tenant turns e i h loop found
  | inr (w ∷ ws, found) ↦ serve other fuel q tenant turns w ws e i h loop found
]

loop-Promoted :
    (other fuel : ℕ) (q : LaneView)
    → IsQueue other q
    → left q.lane < fuel
    → Promoted other (promote_loop fuel q).0
unfolding promote_loop left grant_turn
loop-Promoted other zero q i h = absurd (omega (arith, h))
loop-Promoted other (suc fuel) q i h = elim (List-cases q.lane.tenant_round_robin) [
  | inl e ↦
      let uncovered : Covered [] q.lane.queues =
        subst (λ ts. Covered ts q.lane.queues) e i.covered in
      rw (promote_loop, e) (record { fair = i; settled = inr (no_turns q.lane.queues uncovered) })
  | inr (tenant, turns, e) ↦
      let here : IsFair other q.count q.lane.queues (tenant ∷ turns) =
        subst (λ ts. IsFair other q.count q.lane.queues ts) e i in
      let size : length q.lane.tenant_round_robin ≡ suc (length turns) = ap (λ ts. length ts) e in
      round other fuel q tenant turns e here (omega (arith, h, size)) (loop-Promoted other fuel)
]

stopped : (turn enabled : Bool) → (turn || not enabled) ≡ true → (turn ≡ true) ⊎ (enabled ≡ false)
stopped true enabled h = inl refl
stopped false true h = absurd (cc h)
stopped false false h = inr refl

-- After a promotion no waiter stays while the turn is free and the lane is not blocked.
pub promote-IsSettled :
    (other : ℕ) (q : LaneView)
    → IsQueue other q
    → IsQueue other (promote q).0 × IsSettled (promote q).0
unfolding promote left
promote-IsSettled other q i =
    elim (Bool-cases (q.lane.active_turn || not q.lane.promotion_enabled)) [
      | inl e ↦
          let why = stopped q.lane.active_turn q.lane.promotion_enabled e in
          rw (promote, e) (i, elim why [ inl h ↦ inl h | inr h ↦ inr (inl h) ])
      | inr e ↦
          let fuel = length q.lane.tenant_round_robin + count_for_lane q.lane.queues * 2 + 1 in
          let p = loop-Promoted other fuel q i (omega arith) in
          rw (promote, e) (p.fair, elim p.settled [ inl h ↦ inl h | inr h ↦ inr (inr h) ])
    ]
