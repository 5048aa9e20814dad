-- ===== src/Admission/Cpu.antt =====
-- uni_api/admission/cpu.py: `CPUPhaseLimiter`. A call of `acquire` is cut at its wait for the semaphore: it
-- starts, and later the semaphore admits it or it is cancelled. The semaphore is its number of permits, which it
-- has once a loop is set: it admits a task, in an order that the steps give, only while a permit is
-- left. A task is named by its place in a list, an event loop by a number.
pub mod Tally
pub mod Tokens
use uni_api.Prelude.{
  ℕ, ◌+◌, ◌-◌, String, Bool, false, not, ◌||◌, Option, none, some, List, [], ◌∷◌, ◌++◌, ◌==◌,
  if◌then◌else◌, get_elem?, str_eq, Result, ok, err,
}
use uni_api.Prelude.Sums.{set}
use uni_api.Admission.Counter.{count, add, take_off}

-- A submitted callback: it waits for the semaphore, holds a token, or is over.
pub data Phase : Type 0 where
  waiting_in holding_in : String → Phase
  over : Phase

pub record CpuPhaseLimiter : Type 0 where
  pub capacity : ℕ
  pub loop : Option ℕ
  pub permits : ℕ
  pub active : ℕ
  pub waiters : ℕ
  pub acquired_total : ℕ
  pub completed_total : ℕ
  pub cancelled_total : ℕ
  pub failed_total : ℕ
  pub active_by_phase : List (String × ℕ)
  pub waiters_by_phase : List (String × ℕ)
  pub phases : List Phase

pub data CpuError : Type 0 where
  capacity_not_positive spans_event_loops underflow semaphore_unavailable cancelled : CpuError
  no_such_task no_permit : CpuError

abbrev pub fresh : ℕ → CpuPhaseLimiter
fresh capacity = record {
  capacity = capacity;
  loop = none;
  permits = 0;
  active = 0;
  waiters = 0;
  acquired_total = 0;
  completed_total = 0;
  cancelled_total = 0;
  failed_total = 0;
  active_by_phase = [];
  waiters_by_phase = [];
  phases = [];
}

unfoldable pub init : ℕ → Result CpuError CpuPhaseLimiter
init capacity = if capacity == 0 then err capacity_not_positive else ok (fresh capacity)

-- `str(phase or "other")`
unfoldable pub normalized : String → String
normalized phase = if str_eq phase "" then "other" else phase

-- Whether the semaphore is that of the running loop.
unfoldable pub is_loop : ℕ → Option ℕ → Bool
is_loop running none = false
is_loop running (some loop) = loop == running

-- `_semaphore_for_running_loop`
unfoldable pub semaphore_for_running_loop : ℕ → CpuPhaseLimiter → Result CpuError CpuPhaseLimiter
semaphore_for_running_loop running l =
    if is_loop running l.loop
    then ok l
    else if not (l.active == 0) || not (l.waiters == 0)
    then err spans_event_loops
    else ok (record l { loop = some running; permits = l.capacity })

-- `acquire` up to its wait. The task is put at the end of the list.
unfoldable pub acquire : ℕ → String → CpuPhaseLimiter → CpuPhaseLimiter × Option CpuError
acquire running phase l = elim (semaphore_for_running_loop running l) [
  | err e ↦ (l, some e)
  | ok l' ↦ (
    record l' {
      waiters = l'.waiters + 1;
      waiters_by_phase = add (normalized phase) 1 l'.waiters_by_phase;
      phases = l'.phases ++ waiting_in (normalized phase) ∷ [];
    },
    none,
  )
]

-- The `finally` of the wait.
unfoldable pub stop_waiting : String → CpuPhaseLimiter → CpuPhaseLimiter
stop_waiting name l = record l {
  waiters = l.waiters - 1;
  waiters_by_phase = take_off name 1 l.waiters_by_phase;
}

-- The semaphore admits the i-th task, if it has a permit.
unfoldable pub admit : ℕ → CpuPhaseLimiter → CpuPhaseLimiter × Option CpuError
admit i l = elim (get_elem? l.phases i) [
  | some (waiting_in name) ↦
      let l' = stop_waiting name l in
      if l.permits == 0 then (l, some no_permit) else (
        record l' {
          permits = l'.permits - 1;
          active = l'.active + 1;
          active_by_phase = add name 1 l'.active_by_phase;
          acquired_total = l'.acquired_total + 1;
          phases = set i (holding_in name) l'.phases;
        },
        none,
      )
  | _ ↦ (l, some no_such_task)
]

-- The i-th task is cancelled while it waits.
unfoldable pub cancel : ℕ → CpuPhaseLimiter → CpuPhaseLimiter × Option CpuError
cancel i l = elim (get_elem? l.phases i) [
  | some (waiting_in name) ↦
      (record (stop_waiting name l) { phases = set i over l.phases }, some cancelled)
  | _ ↦ (l, some no_such_task)
]

-- The counters of `release`.
unfoldable pub complete : String → Bool → Bool → CpuPhaseLimiter → CpuPhaseLimiter
complete name was_cancelled failed l = record l {
  active = l.active - 1;
  active_by_phase = take_off name 1 l.active_by_phase;
  completed_total = l.completed_total + 1;
  cancelled_total = if was_cancelled then l.cancelled_total + 1 else l.cancelled_total;
  failed_total = if failed then l.failed_total + 1 else l.failed_total;
}

-- `semaphore.release()`, where there is a semaphore.
unfoldable pub give_permit : CpuPhaseLimiter → CpuPhaseLimiter
give_permit l = elim l.loop [ none ↦ l | some loop ↦ record l { permits = l.permits + 1 } ]

unfoldable pub release : String → Bool → Bool → CpuPhaseLimiter → CpuPhaseLimiter × Option CpuError
release phase was_cancelled failed l =
    let name = normalized phase in
    if l.active == 0 || count name l.active_by_phase == 0 then (l, some underflow) else (
      give_permit (complete name was_cancelled failed l),
      elim l.loop [ none ↦ some semaphore_unavailable | some loop ↦ none ],
    )

-- The `finally` of `run_cpu_phase` for the i-th task, which holds a token.
unfoldable pub finish : ℕ → Bool → Bool → CpuPhaseLimiter → CpuPhaseLimiter × Option CpuError
finish i was_cancelled failed l = elim (get_elem? l.phases i) [
  | some (holding_in name) ↦
      release name was_cancelled failed (record l { phases = set i over l.phases })
  | _ ↦ (l, some no_such_task)
]
