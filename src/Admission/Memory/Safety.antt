-- ===== src/Admission/Memory/Safety.antt =====
-- What a granted reservation leaves free.
use uni_api.Prelude.{
  ℕ, ◌+◌, ◌≤◌, String, ◌≡◌, refl, ◌≢◌, inl, inr, Bool, true, false, Option, none, some, arith, ltb,
  ◌==◌, if◌then◌else◌, Bool-cases, get_elem?, Result, ok, err,
}
use uni_api.Admission.Memory.{
  Sample, MemoryGovernor, MemoryError, Turn, granted, timed_out, waits, last_sample,
  refresh_sample_locked, effective_limit, soft_limit_and_guard, room, limits_locked, normalized,
  take, reserve_nowait_decision, try_reserve_locked, reserve, stop_waiting, retry, release,
}
use uni_api.Admission.Counter.{sum, sum-add}
use uni_api.Admission.Memory.Calls.{
  Call, nowaits, reserves, retries, cancels, releases, maxima, grants, nothing, effect_of, held_by,
  release_effect, step, none_here, over_here, waits_here, found,
}

-- The reserved bytes fit beside what the last sample counts, and keep the fallback where it is not known or
-- where the last try to sample failed.
pub record Safe (g : MemoryGovernor) : Type 0 where
  pub known :
      (limit current : ℕ)
      → (soft_limit_and_guard g.config (effective_limit (last_sample g))).0 ≡ some limit
      → (last_sample g).current_bytes ≡ some current
      → current + sum g.reserved ≤ limit
  pub no_limit :
      (soft_limit_and_guard g.config (effective_limit (last_sample g))).0 ≡ none
      → sum g.reserved ≤ g.config.fallback_budget_bytes
  pub no_current :
      (last_sample g).current_bytes ≡ none → sum g.reserved ≤ g.config.fallback_budget_bytes
  pub stale : g.sample_error ≡ true → sum g.reserved ≤ g.config.fallback_budget_bytes

-- What fits in the limits fits in the room and, if the sample failed, in the fallback.
available-room :
    (size : ℕ) (g : MemoryGovernor)
    → 1 ≤ size
    → size ≤ (limits_locked (last_sample g) g).available
    → let soft = (soft_limit_and_guard g.config (effective_limit (last_sample g))).0 in
      (sum g.reserved + size ≤ room soft (last_sample g) g)
      × (g.sample_error ≡ true → sum g.reserved + size ≤ g.config.fallback_budget_bytes)
unfolding limits_locked
available-room size g h fits = ground arith

take-Safe :
    (name : String) (size : ℕ) (g : MemoryGovernor)
    → 1 ≤ size
    → size ≤ (limits_locked (last_sample g) g).available
    → Safe (take name size g)
unfolding take room last_sample
take-Safe name size g h fits =
    let (within, stale) = available-room size g h fits in
    let added = sum-add name size g.reserved in
    record {
      known = λ limit current l c. ground (arith, within, added, l, c);
      no_limit = λ l. ground (arith, within, added, l);
      no_current = λ c. ground (arith, within, added, c);
      stale = λ e. ground (arith, stale e, added);
    }

try_reserve-Safe :
    (record_rejection : Bool) (name : String) (size now : ℕ) (answer : Option Sample)
    (g : MemoryGovernor)
    → 1 ≤ size
    → (try_reserve_locked record_rejection name size now answer g).1 ≡ true
    → Safe (try_reserve_locked record_rejection name size now answer g).0
unfolding try_reserve_locked
try_reserve-Safe record_rejection name size now answer g h reserved =
    let g' = refresh_sample_locked false now answer g in
    elim (Bool-cases (ltb (limits_locked (last_sample g') g').available size)) [
      | inl e ↦ absurd (ground (arith, e))
      | inr e ↦ rw e (take-Safe name size g' h (ground (arith, e)))
    ]

stop_waiting-Safe : (i : ℕ) (g : MemoryGovernor) → Safe g → Safe (stop_waiting i g)
unfolding stop_waiting last_sample
stop_waiting-Safe i g s = record {
  known = s.known;
  no_limit = s.no_limit;
  no_current = s.no_current;
  stale = s.stale;
}

nowait-Safe :
    (category : String) (size now : ℕ) (answer : Option Sample) (g : MemoryGovernor)
    → 1 ≤ size
    → (reserve_nowait_decision category size now answer g).1.allowed ≡ true
    → Safe (reserve_nowait_decision category size now answer g).0
unfolding reserve_nowait_decision
nowait-Safe category size now answer g h allowed =
    let g' = refresh_sample_locked false now answer g in
    let safe = take-Safe (normalized category) size g' h (ground arith) in
    let positive : (size == 0) ≡ false = ground arith in rw (allowed, positive) safe

granted_of :
    (name j : String) (size n : ℕ) (r : Result MemoryError Turn)
    → effect_of name size r ≡ grants j n
    → (r ≡ ok granted) × (n ≡ size)
unfolding effect_of
granted_of name j size n (ok granted) e = (refl, cc)
granted_of name j size n (ok timed_out) e = cc
granted_of name j size n (ok waits) e = cc
granted_of name j size n (err x) e = cc

granted_if :
    (allowed : Bool) (k j : String) (n size : ℕ)
    → (if allowed then grants k n else nothing) ≡ grants j size
    → (allowed ≡ true) × (size ≡ n)
granted_if true k j n size e = (refl, cc)
granted_if false k j n size e = absurd cc

release_grants :
    (k j : String) (n size : ℕ) (o : Option MemoryError) → release_effect k n o ≢ grants j size
release_grants k j n size none = λ e. cc
release_grants k j n size (some x) = λ e. cc

reserve-Safe :
    (category : String) (size timeout now : ℕ) (answer : Option Sample) (g : MemoryGovernor)
    → 1 ≤ size
    → (reserve category size timeout now answer g).1 ≡ ok granted
    → Safe (reserve category size timeout now answer g).0
unfolding reserve
reserve-Safe category size timeout now answer g h e =
    let safe = try_reserve-Safe false (normalized category) size now answer g h in
    let started : (timeout == 0) ≡ false = ground arith in
    let positive : (size == 0) ≡ false = ground arith in
    let reserved : (try_reserve_locked false (normalized category) size now answer g).1 ≡ true =
      ground arith in
    rw (started, positive, reserved) (safe reserved)

retry-Safe :
    (expired : Bool) (i now : ℕ) (answer : Option Sample) (g : MemoryGovernor)
    → 1 ≤ (held_by (get_elem? g.waiters i)).1
    → (retry expired i now answer g).1 ≡ ok granted
    → Safe (retry expired i now answer g).0
unfolding retry
retry-Safe expired i now answer g h e = elim (found (get_elem? g.waiters i)) [
  | none_here at ↦ absurd (ground (arith, at))
  | over_here at ↦ absurd (ground (arith, at))
  | waits_here name size at ↦
      let p = try_reserve_locked false name size now answer g in
      let positive : 1 ≤ size = ground (arith, at) in
      let safe = try_reserve-Safe false name size now answer g positive in
      let live : expired ≡ false = ground (arith, at) in
      let reserved : p.1 ≡ true = ground (arith, at, live) in
      let all : (retry expired i now answer g).0 ≡ stop_waiting i p.0 =
        ground (arith, at, live, reserved) in
      rw all (stop_waiting-Safe i p.0 (safe reserved))
]

-- Whenever a call of a governor, or a turn of one of its waiters, grants a byte or more: what is reserved then fits beside
-- the bytes in use under the soft limit, if both are known, and keeps the fallback budget where one of
-- them is not known or the last try to sample failed.
pub step-Safe :
    (g : MemoryGovernor) (c : Call) (name : String) (size : ℕ)
    → 1 ≤ size
    → (step g c).1 ≡ grants name size
    → Safe (step g c).0
unfolding step
step-Safe g (nowaits category n now answer) name size h e =
    let p = reserve_nowait_decision category n now answer g in
    let (allowed, same) = granted_if p.1.allowed p.1.category name n size e in
    nowait-Safe category n now answer g (omega (arith, h, same)) allowed
step-Safe g (reserves category n timeout now answer) name size h e =
    let (turn, same) =
      granted_of (normalized category) name n size (reserve category n timeout now answer g).1 e in
    reserve-Safe category n timeout now answer g (omega arith) turn
step-Safe g (retries expired i now answer) name size h e =
    let (k, n) = held_by (get_elem? g.waiters i) in
    let (turn, same) = granted_of k name n size (retry expired i now answer g).1 e in
    retry-Safe expired i now answer g (omega arith) turn
step-Safe g (cancels i) name size h e = absurd cc
step-Safe g (releases category n) name size h e =
    absurd (release_grants (normalized category) name n size (release category n g).1 e)
step-Safe g (maxima now answer) name size h e = absurd cc
