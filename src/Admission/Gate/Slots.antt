-- ===== src/Admission/Gate/Slots.antt =====
-- A slot of the gate is never lost, given twice, or free while a task waits for one.
use uni_api.Prelude.{
  ℕ, ◌+◌, ◌≤◌, ◌<◌, ◌≡◌, ap, inl, inr, Bool, true, false, not, ◌&&◌, ◌||◌, List, [], ◌∷◌, ◌++◌,
  arith, ltb, leb, if◌then◌else◌, ltb→lt, Bool-cases, &&-eq-true, length, length-append,
}
use uni_api.Admission.Gate.{
  queued, granted, Gate, set_state, is_empty, claim, try_acquire, count_rejection,
}
use uni_api.Admission.Gate.Queue.{
  IsAbsent, AllDistinct, AllIn, AllBelow, set_state_self, AllIn-set, AllIn-append, AllBelow-append,
  AllBelow-more, AllApart, below-IsAbsent, distinct_last,
}
use uni_api.Admission.Gate.Steps.{add_lease, live_count}
use uni_api.Admission.Gate.Invariant.{IsGate, IsBusy}

-- A gate between two calls.
abbrev pub IsOpen : Gate → ℕ → List ℕ → Type 0
IsOpen g live pending = IsGate g live pending × IsBusy g

lease-IsOpen :
    (g : Gate) (live : ℕ) (pending : List ℕ)
    → IsOpen g live pending
    → g.active < g.capacity
    → is_empty g.waiters ≡ true
    → IsOpen
        (record g { active = g.active + 1; acquired_total = g.acquired_total + 1 })
        (live + 1)
        pending
lease-IsOpen g live pending (i, busy) room e = (
  record {
    waiting = i.waiting;
    distinct = i.distinct;
    old = i.old;
    given = i.given;
    given_distinct = i.given_distinct;
    given_old = i.given_old;
    balance = omega (arith, i.balance);
    within = omega (arith, room);
    bound = i.bound;
  },
  elim busy [ inl h ↦ inl h | inr h ↦ absurd (omega (arith, h, room)) ],
)

wait-IsOpen :
    (g : Gate) (live : ℕ) (pending : List ℕ)
    → IsOpen g live pending
    → g.capacity ≤ g.active
    → length g.waiters < g.waiter_limit
    → IsOpen
        (record g {
          waiters = g.waiters ++ g.created ∷ [];
          waiter_state = set_state g.created queued g.waiter_state;
          created = g.created + 1;
        })
        live
        pending
unfolding AllIn AllDistinct AllBelow IsAbsent AllApart
wait-IsOpen g live pending (i, busy) full few =
    let absent = below-IsAbsent g.created g.waiters i.old in
    let unpicked = below-IsAbsent g.created pending i.given_old in
    (
      record {
        waiting =
            AllIn-append queued (set_state g.created queued g.waiter_state) g.waiters
              (g.created ∷ [])
              (AllIn-set queued queued g.waiter_state g.created g.waiters absent i.waiting)
              (set_state_self g.created queued g.waiter_state, tt);
        distinct = distinct_last g.created g.waiters i.distinct absent;
        old =
            AllBelow-append (g.created + 1) g.waiters (g.created ∷ [])
              (AllBelow-more g.created g.waiters i.old) (omega arith, tt);
        given = AllIn-set granted queued g.waiter_state g.created pending unpicked i.given;
        given_distinct = i.given_distinct;
        given_old = AllBelow-more g.created pending i.given_old;
        balance = i.balance;
        within = i.within;
        bound = omega (arith, few, length-append g.waiters (g.created ∷ []));
      },
      inr full,
    )

full_or_waiting :
    (g : Gate)
    → IsBusy g
    → (ltb g.active g.capacity && is_empty g.waiters) ≡ false
    → g.capacity ≤ g.active
full_or_waiting g (inl h) e =
    let empty : is_empty g.waiters ≡ true = ap is_empty h in ground (arith, empty, e)
full_or_waiting g (inr h) e = h

pub claim-IsOpen :
    (g : Gate) (leases : List Bool) (pending : List ℕ)
    → IsOpen g (live_count leases) pending
    → IsOpen (claim g).0 (live_count (add_lease (claim g).1 leases)) pending
unfolding claim add_lease live_count count_rejection
claim-IsOpen g leases pending i =
    elim (Bool-cases (ltb g.active g.capacity && is_empty g.waiters)) [
      | inl e ↦
          let (room, empty) = &&-eq-true (ltb g.active g.capacity) (is_empty g.waiters) e in
          rw (claim, e)
            (lease-IsOpen g (live_count leases) pending i (ltb→lt g.active g.capacity room) empty)
      | inr e ↦ elim (Bool-cases (leb g.waiter_limit (length g.waiters))) [
        | inl full ↦ rw (claim, e, full) i
        | inr room ↦
            rw (claim, e, room)
              (wait-IsOpen g (live_count leases) pending i (full_or_waiting g i.1 e)
                (ground (arith, room)))
      ]
    ]

pub try_acquire-IsOpen :
    (g : Gate) (leases : List Bool) (pending : List ℕ)
    → IsOpen g (live_count leases) pending
    → IsOpen
        (try_acquire g).0
        (live_count (if (try_acquire g).1 then false ∷ leases else leases))
        pending
unfolding try_acquire live_count
try_acquire-IsOpen g leases pending i =
    elim (Bool-cases (leb g.capacity g.active || not (is_empty g.waiters))) [
      | inl e ↦ rw (try_acquire, e) i
      | inr e ↦
          rw (try_acquire, e)
            (lease-IsOpen g (live_count leases) pending i (ground (arith, e)) (ground (arith, e)))
    ]
