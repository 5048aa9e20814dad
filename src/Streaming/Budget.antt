-- ===== src/Streaming/Budget.antt =====
-- uni_api/streaming/bounded_queue.py: `RetainedByteBudget` and `RetainedByteLease`. A coroutine is cut at its
-- awaits: `reserve` starts, waits for room (`Waiting`), may ask the parent governor (`Asking`) and
-- ends with a lease or an error. A task is named by its place in a list, a lease too. What the
-- governor answers is an argument; `parent_used` is what it holds for this budget. The
-- wait in milliseconds is a measurement and is left out.
pub mod Conserve
use uni_api.Prelude.Sums.{set}
use uni_api.Prelude.{
  ℕ, ◌+◌, ◌-◌, max, Bool, true, false, ◌&&◌, Option, none, some, List, [], ◌∷◌, ◌++◌, ltb, ◌==◌,
  if◌then◌else◌, length, get_elem?, Result, ok, err,
}

pub record Lease : Type 0 where
  pub size : ℕ
  pub released : Bool

-- A reservation under way: it waits for room, asks the parent with its bytes taken, or has ended.
pub data Task : Type 0 where
  waiting_for_room : ℕ → Task
  asking_parent : ℕ → Task
  ended : Task

pub record Budget : Type 0 where
  pub capacity_bytes : ℕ
  pub has_governor : Bool
  pub used_bytes : ℕ
  pub peak_bytes : ℕ
  pub waiting_reservations : ℕ
  pub blocked_reservations : ℕ
  pub timeouts : ℕ
  pub parent_used : ℕ
  pub tasks : List Task
  pub leases : List Lease

pub data BudgetError : Type 0 where
  capacity_not_positive item_too_large buffer_budget_timeout underflow : BudgetError
  split_exceeds_lease split_of_released no_such_task no_such_lease cancelled : BudgetError

unfoldable pub init : ℕ → Bool → Result BudgetError Budget
init capacity has_governor =
    if capacity == 0
    then err capacity_not_positive
    else ok (record {
      capacity_bytes = capacity;
      has_governor = has_governor;
      used_bytes = 0;
      peak_bytes = 0;
      waiting_reservations = 0;
      blocked_reservations = 0;
      timeouts = 0;
      parent_used = 0;
      tasks = [];
      leases = [];
    })

-- The bytes are taken. Without a governor the lease is made at once; with one, it is asked.
unfoldable pub take_bytes : ℕ → Budget → Budget
take_bytes size b = record b {
  used_bytes = b.used_bytes + size;
  peak_bytes = max b.peak_bytes (b.used_bytes + size);
}

abbrev pub new_lease : ℕ → Lease
new_lease size = record { size = size; released = false }

-- What follows in `reserve` for the i-th task once it has its bytes.
unfoldable pub after_local : ℕ → ℕ → Budget → Budget
after_local i size b =
    let taken = take_bytes size b in
    if b.has_governor
    then record taken { tasks = set i (asking_parent size) taken.tasks }
    else record taken {
      tasks = set i ended taken.tasks;
      leases = taken.leases ++ new_lease size ∷ [];
    }

-- The start of `reserve`, up to its first wait. The task is put at the end of the list.
unfoldable pub reserve : ℕ → Budget → Budget × Option BudgetError
reserve size b =
    let started = record b { tasks = b.tasks ++ waiting_for_room size ∷ [] } in
    if ltb b.capacity_bytes size
    then (b, some item_too_large)
    else if ltb b.capacity_bytes (b.used_bytes + size)
    then (
      record started {
        blocked_reservations = b.blocked_reservations + 1;
        waiting_reservations = b.waiting_reservations + 1;
      },
      none,
    )
    else (after_local (length b.tasks) size started, none)

-- A waiting task looks at the budget again: it goes on only if its bytes fit.
unfoldable pub wake : ℕ → Budget → Budget
wake i b = elim (get_elem? b.tasks i) [
  | some (waiting_for_room size) ↦
      if ltb b.capacity_bytes (b.used_bytes + size)
      then b
      else after_local i size (record b { waiting_reservations = b.waiting_reservations - 1 })
  | _ ↦ b
]

-- The governor answers. Where it refuses, the local bytes are given back, and it counts as a timeout.
unfoldable pub parent_answers : Bool → ℕ → Budget → Budget × Option BudgetError
parent_answers reserved i b = elim (get_elem? b.tasks i) [
  | some (asking_parent size) ↦
      if reserved
      then (
        record b {
          parent_used = b.parent_used + size;
          tasks = set i ended b.tasks;
          leases = b.leases ++ new_lease size ∷ [];
        },
        none,
      )
      else if ltb b.used_bytes size
      then (b, some underflow)
      else (
        record b {
          used_bytes = b.used_bytes - size;
          timeouts = b.timeouts + 1;
          tasks = set i ended b.tasks;
        },
        some buffer_budget_timeout,
      )
  | _ ↦ (b, some no_such_task)
]

-- The time-out or the cancellation of a task: `reason` is the error, and only a time-out is counted.
unfoldable pub interrupt : Bool → ℕ → Budget → Budget × Option BudgetError
interrupt timed_out i b =
    let reason = if timed_out then buffer_budget_timeout else cancelled in
    let timeouts = if timed_out then b.timeouts + 1 else b.timeouts in
    elim (get_elem? b.tasks i) [
      | some (waiting_for_room size) ↦ (
        record b {
          waiting_reservations = b.waiting_reservations - 1;
          timeouts = timeouts;
          tasks = set i ended b.tasks;
        },
        some reason,
      )
      | some (asking_parent size) ↦ if ltb b.used_bytes size then (b, some underflow) else (
        record b {
          used_bytes = b.used_bytes - size;
          timeouts = timeouts;
          tasks = set i ended b.tasks;
        },
        some reason,
      )
      | _ ↦ (b, some no_such_task)
    ]

-- `RetainedByteLease.release`, whose work is done once however often it is called.
unfoldable pub release : ℕ → Budget → Budget × Option BudgetError
release k b = elim (get_elem? b.leases k) [
  | none ↦ (b, some no_such_lease)
  | some lease ↦
      if lease.released
      then (b, none)
      else if ltb b.used_bytes lease.size
      then (b, some underflow)
      else if b.has_governor && ltb b.parent_used lease.size
      then (record b { used_bytes = b.used_bytes - lease.size }, some underflow)
      else (
        record b {
          used_bytes = b.used_bytes - lease.size;
          parent_used = if b.has_governor then b.parent_used - lease.size else b.parent_used;
          leases = set k (record lease { released = true }) b.leases;
        },
        none,
      )
]

-- `RetainedByteLease.split`: the child stands at the end of the list.
unfoldable pub split : ℕ → ℕ → Budget → Budget × Option BudgetError
split k size b = elim (get_elem? b.leases k) [
  | none ↦ (b, some no_such_lease)
  | some lease ↦
      if ltb lease.size size
      then (b, some split_exceeds_lease)
      else if lease.released
      then (b, some split_of_released)
      else (
        record b {
          leases =
              set k (record lease { size = lease.size - size }) b.leases ++ new_lease size ∷ [];
        },
        none,
      )
]
