-- ===== src/Admission/Memory.antt =====
-- uni_api/admission/memory.py: `AdaptiveMemoryGovernor`. The clock and what the source of samples answers are
-- arguments; a source that raises is `none`. The product `int(limit * guard_ratio)` is the function `guard_share`
-- of the configuration. `sampled_at` and `sample_attempted_at` are `none` for minus infinity. Waiters
-- are named by their places in a list. The test for a negative size, and the constructor's checks of
-- its numbers, are left out: they are natural numbers here.
pub mod Calls
pub mod Safety
pub mod Sound
pub mod Ledger
use uni_api.Prelude.{
  ℕ, ◌+◌, ◌-◌, ◌/◌, min, max, String, Bool, true, false, not, ◌&&◌, Option, none, some, List, [],
  ◌∷◌, ◌++◌, ltb, leb, ◌==◌, if◌then◌else◌, get_elem?, str_eq, strip, Result, ok, err,
}
use uni_api.Prelude.Sums.{set}
use uni_api.Admission.Counter.{count, add, take_off, sum}

pub record Config : Type 0 where
  pub soft_limit_bytes : Option ℕ
  pub guard_bytes : ℕ
  pub guard_share : ℕ → ℕ
  pub fallback_budget_bytes : ℕ
  pub sample_cache : ℕ

-- The fields of `ProcessMemorySample` that a decision reads.
pub record Sample : Type 0 where
  pub current_bytes : Option ℕ
  pub limit_bytes : Option ℕ
  pub high_bytes : Option ℕ

pub data Waiter : Type 0 where
  waiting_for : String → ℕ → Waiter
  ended : Waiter

pub record MemoryGovernor : Type 0 where
  pub config : Config
  pub sample : Option Sample
  pub sampled_at : Option ℕ
  pub sample_attempted_at : Option ℕ
  pub sample_sequence : ℕ
  pub sample_error : Bool
  pub reserved : List (String × ℕ)
  pub rejected : List (String × ℕ)
  pub peak_reserved_bytes : ℕ
  pub blocked_reservations : ℕ
  pub waiting_reservations : ℕ
  pub wait_timeouts : ℕ
  pub waiters : List Waiter

pub data MemoryError : Type 0 where
  timeout_not_positive underflow no_such_waiter : MemoryError

-- What a call of `reserve`, or a turn of its loop, ends with.
pub data Turn : Type 0 where
  granted timed_out waits : Turn

unfoldable pub init : Config → MemoryGovernor
init config = record {
  config = config;
  sample = none;
  sampled_at = none;
  sample_attempted_at = none;
  sample_sequence = 0;
  sample_error = false;
  reserved = [];
  rejected = [];
  peak_reserved_bytes = 0;
  blocked_reservations = 0;
  waiting_reservations = 0;
  wait_timeouts = 0;
  waiters = [];
}

abbrev pub unavailable : Sample
unavailable = record { current_bytes = none; limit_bytes = none; high_bytes = none }

-- `self._sample or ProcessMemorySample(None, None)`
unfoldable pub last_sample : MemoryGovernor → Sample
last_sample g = elim g.sample [ none ↦ unavailable | some sample ↦ sample ]

unfoldable pub is_cached : ℕ → MemoryGovernor → Bool
is_cached now g = elim g.sample [
  | none ↦ false
  | some sample ↦ elim g.sample_attempted_at [
    | none ↦ false
    | some t ↦ ltb now (t + g.config.sample_cache)
  ]
]

-- The sample that the source's function returns is `last_sample` of the result.
unfoldable pub refresh_sample_locked : Bool → ℕ → Option Sample → MemoryGovernor → MemoryGovernor
refresh_sample_locked force now answer g = if not force && is_cached now g then g else elim answer [
  | none ↦ record g {
    sample = some (last_sample g);
    sample_attempted_at = some now;
    sample_error = true;
  }
  | some sample ↦ record g {
    sample = some sample;
    sample_attempted_at = some now;
    sampled_at = some now;
    sample_sequence = g.sample_sequence + 1;
    sample_error = false;
  }
]

-- The limit of a sample, with `memory.high` where it is lower.
unfoldable pub effective_limit : Sample → Option ℕ
effective_limit sample = elim sample.high_bytes [
  | none ↦ sample.limit_bytes
  | some high ↦ elim sample.limit_bytes [ none ↦ some high | some limit ↦ some (min limit high) ]
]

pub record Limits : Type 0 where
  pub soft_limit : Option ℕ
  pub guard : ℕ
  pub capacity : ℕ
  pub available : ℕ

-- The soft limit and the guard.
unfoldable pub soft_limit_and_guard : Config → Option ℕ → Option ℕ × ℕ
soft_limit_and_guard c limit = elim c.soft_limit_bytes [
  | some configured ↦ elim limit [
    | none ↦ (some configured, 0)
    | some l ↦ let soft = min configured l in (some soft, (if l == 0 then soft else l) - soft)
  ]
  | none ↦ elim limit [
    | none ↦ (none, c.guard_bytes)
    | some l ↦
        let guard = max (min c.guard_bytes (l / 2)) (c.guard_share l) in
        (some (max 1 (l - min guard (l - 1))), guard)
  ]
]

-- The bytes that the limit leaves, or else the fallback.
unfoldable pub room : Option ℕ → Sample → MemoryGovernor → ℕ
room soft sample g = elim soft [
  | none ↦ g.config.fallback_budget_bytes
  | some limit ↦ elim sample.current_bytes [
    | none ↦ g.config.fallback_budget_bytes
    | some current ↦ limit - current
  ]
]

unfoldable pub limits_locked : Sample → MemoryGovernor → Limits
limits_locked sample g =
    let (soft, guard) = soft_limit_and_guard g.config (effective_limit sample) in
    let reserved = sum g.reserved in
    let known = max reserved (room soft sample g) in
    let capacity =
      if g.sample_error then max reserved (min known g.config.fallback_budget_bytes) else known in
    record {
      soft_limit = soft;
      guard = guard;
      capacity = capacity;
      available = capacity - reserved;
    }

unfoldable pub maximum_capacity_bytes : ℕ → Option Sample → MemoryGovernor → MemoryGovernor × ℕ
maximum_capacity_bytes now answer g =
    let g' = refresh_sample_locked true now answer g in
    (
      g',
      elim (limits_locked (last_sample g') g').soft_limit [
        | none ↦ g'.config.fallback_budget_bytes
        | some soft ↦ if soft == 0 then g'.config.fallback_budget_bytes else soft
      ],
    )

-- `str(category or "unknown").strip() or "unknown"`
unfoldable pub normalized : String → String
normalized category =
    let stripped = strip category in if str_eq stripped "" then "unknown" else stripped

-- The fields of the decision that are computed, beside the sample's own.
pub record Decision : Type 0 where
  pub allowed : Bool
  pub category : String
  pub requested_bytes : ℕ
  pub reserved_before_bytes : ℕ
  pub projected_reserved_bytes : ℕ
  pub reserved_after_bytes : ℕ
  pub limits : Limits
  pub available_after_bytes : ℕ

unfoldable pub take : String → ℕ → MemoryGovernor → MemoryGovernor
take category size g = record g {
  reserved = add category size g.reserved;
  peak_reserved_bytes = max g.peak_reserved_bytes (sum g.reserved + size);
}

unfoldable pub reserve_nowait_decision :
    String → ℕ → ℕ → Option Sample → MemoryGovernor → MemoryGovernor × Decision
reserve_nowait_decision category size now answer g =
    let name = normalized category in
    let g' = refresh_sample_locked false now answer g in
    let limits = limits_locked (last_sample g') g' in
    let reserved_before = sum g'.reserved in
    let allowed = leb size limits.available in
    (
      if allowed
          then (if size == 0 then g' else take name size g')
          else record g' { rejected = add name 1 g'.rejected },
      record {
        allowed = allowed;
        category = name;
        requested_bytes = size;
        reserved_before_bytes = reserved_before;
        projected_reserved_bytes = reserved_before + size;
        reserved_after_bytes = if allowed then reserved_before + size else reserved_before;
        limits = limits;
        available_after_bytes = if allowed then limits.available - size else limits.available;
      },
    )

unfoldable pub try_reserve_locked :
    Bool → String → ℕ → ℕ → Option Sample → MemoryGovernor → MemoryGovernor × Bool
try_reserve_locked record_rejection category size now answer g =
    let g' = refresh_sample_locked false now answer g in
    if ltb (limits_locked (last_sample g') g').available size
    then (
      if record_rejection then record g' { rejected = add category 1 g'.rejected } else g',
      false,
    )
    else (take category size g', true)

-- `reserve` up to its first wait; a waiter is put at the end of the list.
unfoldable pub reserve :
    String → ℕ → ℕ → ℕ → Option Sample → MemoryGovernor → MemoryGovernor × Result MemoryError Turn
reserve category size timeout now answer g =
    let name = normalized category in
    let (g', reserved) = try_reserve_locked false name size now answer g in
    if timeout == 0
    then (g, err timeout_not_positive)
    else if size == 0
    then (g, ok granted)
    else if reserved
    then (g', ok granted)
    else (
      record g' {
        blocked_reservations = g'.blocked_reservations + 1;
        waiting_reservations = g'.waiting_reservations + 1;
        waiters = g'.waiters ++ waiting_for name size ∷ [];
      },
      ok waits,
    )

-- The `finally` of a waiter.
unfoldable pub stop_waiting : ℕ → MemoryGovernor → MemoryGovernor
stop_waiting i g = record g {
  waiting_reservations = g.waiting_reservations - 1;
  waiters = set i ended g.waiters;
}

-- One round of a waiter's loop: `expired` is `remaining <= 0`.
unfoldable pub retry :
    Bool → ℕ → ℕ → Option Sample → MemoryGovernor → MemoryGovernor × Result MemoryError Turn
retry expired i now answer g = elim (get_elem? g.waiters i) [
  | some (waiting_for name size) ↦
      let (g', reserved) = try_reserve_locked false name size now answer g in
      if expired
      then (stop_waiting i (record g { wait_timeouts = g.wait_timeouts + 1 }), ok timed_out)
      else if reserved
      then (stop_waiting i g', ok granted)
      else (g', ok waits)
  | _ ↦ (g, err no_such_waiter)
]

unfoldable pub cancel : ℕ → MemoryGovernor → MemoryGovernor
cancel i g = elim (get_elem? g.waiters i) [
  | some (waiting_for name size) ↦ stop_waiting i g
  | _ ↦ g
]

unfoldable pub release : String → ℕ → MemoryGovernor → MemoryGovernor × Option MemoryError
release category size g =
    let name = normalized category in
    if size == 0
    then (g, none)
    else if ltb (count name g.reserved) size
    then (g, some underflow)
    else (record g { reserved = take_off name size g.reserved }, none)
