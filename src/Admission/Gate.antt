-- ===== src/Admission/Gate.antt =====
-- uni_api/admission/core.py: `BoundedAdmissionGate` and the release of `AdmissionLease`. A
-- waiter is an identity; its future is done exactly when its state is not `queued`. Where the source
-- resolves a future, the operations answer the identities that were granted, in order. The locks of
-- the source make each operation one step; clocks and waiting times are metrics, and left out.

pub mod Queue
pub mod Promotion
pub mod Steps
pub mod Invariant
pub mod Slots
pub mod Leaving
pub mod Releases
pub mod Fixed
pub mod Safety
use uni_api.Prelude.{
  ℕ, ◌+◌, ◌-◌, String, Bool, true, false, not, ◌&&◌, ◌||◌, Option, none, some, List, [], ◌∷◌, ◌++◌,
  ltb, leb, ◌==◌, if◌then◌else◌, length, update, Result, ok, err,
}

pub data WaiterState : Type 0 where
  queued granted abandoned : WaiterState

pub record Gate : Type 0 where
  pub capacity : ℕ
  pub waiter_limit : ℕ
  pub wait_timeout_seconds : ℕ
  pub active : ℕ
  pub waiters : List ℕ
  pub waiter_state : ℕ → WaiterState
  pub created : ℕ
  pub acquired_total : ℕ
  pub cancelled_total : ℕ
  pub rejected : String → ℕ

pub data GateError : Type 0 where
  capacity_not_positive timeout_not_positive active_underflow : GateError

unfoldable pub init : ℕ → ℕ → ℕ → Result GateError Gate
init capacity waiter_limit wait_timeout_seconds =
    if capacity == 0
    then err capacity_not_positive
    else if wait_timeout_seconds == 0
    then err timeout_not_positive
    else ok (record {
      capacity = capacity;
      waiter_limit = waiter_limit;
      wait_timeout_seconds = wait_timeout_seconds;
      active = 0;
      waiters = [];
      waiter_state = λ id. abandoned;
      created = 0;
      acquired_total = 0;
      cancelled_total = 0;
      rejected = λ reason. 0;
    })

abbrev pub is_queued : WaiterState → Bool
is_queued queued = true
is_queued granted = false
is_queued abandoned = false

unfoldable pub set_state : ℕ → WaiterState → (ℕ → WaiterState) → ℕ → WaiterState
set_state id state states j = if id == j then state else states j

unfoldable pub grant : ℕ → Gate → Gate
grant id g = record g {
  waiter_state = set_state id granted g.waiter_state;
  active = g.active + 1;
  acquired_total = g.acquired_total + 1;
}

-- The loop of `_promote_waiters_locked` over the waiters, from the first on.
unfoldable pub promote : List ℕ → Gate → Gate × List ℕ
promote [] g = (record g { waiters = [] }, [])
promote (w ∷ ws) g =
    let is_next = is_queued (g.waiter_state w) in
    let (next, grants) = promote ws (if is_next then grant w g else g) in
    if ltb g.active g.capacity
    then (next, if is_next then w ∷ grants else grants)
    else (record g { waiters = w ∷ ws }, [])

unfoldable pub promote_waiters_locked : Gate → Gate × List ℕ
promote_waiters_locked g = promote g.waiters g

-- What the claim of `begin_acquire` comes to: a lease at once, a place in the queue, or `queue_full`.
pub data Acquisition : Type 0 where
  leased : Acquisition
  waits : ℕ → Acquisition
  queue_full : Acquisition

abbrev pub is_empty : List ℕ → Bool
is_empty [] = true
is_empty (w ∷ ws) = false

unfoldable pub count_rejection : String → Gate → Gate
count_rejection reason g = record g { rejected = update reason (g.rejected reason + 1) g.rejected }

unfoldable pub claim : Gate → Gate × Acquisition
claim g =
    if ltb g.active g.capacity && is_empty g.waiters
    then (record g { active = g.active + 1; acquired_total = g.acquired_total + 1 }, leased)
    else if leb g.waiter_limit (length g.waiters)
    then (count_rejection "queue_full" g, queue_full)
    else (
      record g {
        waiters = g.waiters ++ g.created ∷ [];
        waiter_state = set_state g.created queued g.waiter_state;
        created = g.created + 1;
      },
      waits g.created,
    )

unfoldable pub begin_acquire : Option ℕ → Gate → Result GateError (Gate × Acquisition)
begin_acquire timeout_seconds g =
    let timeout : ℕ = elim timeout_seconds [ none ↦ g.wait_timeout_seconds | some t ↦ t ] in
    if timeout == 0 then err timeout_not_positive else ok (claim g)

-- Whether the caller has a lease.
unfoldable pub try_acquire : Gate → Gate × Bool
try_acquire g =
    if leb g.capacity g.active || not (is_empty g.waiters)
    then (g, false)
    else (record g { active = g.active + 1; acquired_total = g.acquired_total + 1 }, true)

-- `deque.remove`
unfoldable pub remove_waiter : ℕ → List ℕ → List ℕ
remove_waiter id [] = []
remove_waiter id (w ∷ ws) = if w == id then ws else w ∷ remove_waiter id ws

unfoldable pub count_abandoned : Option String → Bool → Gate → Gate
count_abandoned reason cancelled g =
    let counted : Gate = elim reason [ none ↦ g | some text ↦ count_rejection text g ] in
    if cancelled then record counted { cancelled_total = counted.cancelled_total + 1 } else counted

unfoldable pub abandon_waiter : ℕ → Option String → Bool → Gate → Gate × List ℕ
abandon_waiter id reason cancelled g =
    let left = record g { waiter_state = set_state id abandoned g.waiter_state } in
    elim (g.waiter_state id) [
      | queued ↦
          promote_waiters_locked (
            count_abandoned reason cancelled (record left { waiters = remove_waiter id g.waiters }))
      | granted ↦
          promote_waiters_locked
            (count_abandoned reason cancelled (record left { active = g.active - 1 }))
      | abandoned ↦ (g, [])
    ]

unfoldable pub release_slot : Gate → Result GateError (Gate × List ℕ)
release_slot g =
    if g.active == 0
    then err active_underflow
    else ok (promote_waiters_locked (record g { active = g.active - 1 }))

-- A lease is its `_released` flag.
unfoldable pub release_once : Bool → Gate → Result GateError ((Gate × List ℕ) × Bool)
release_once true g = ok ((g, []), true)
release_once false g = elim (release_slot g) [ ok next ↦ ok (next, true) | err e ↦ err e ]
