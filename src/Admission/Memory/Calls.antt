-- ===== src/Admission/Memory/Calls.antt =====
-- Calls of the memory governor in sequence, and the bytes they grant or give back.
use uni_api.Prelude.{
  ℕ, String, ◌≡◌, refl, Bool, Option, none, some, List, [], ◌∷◌, if◌then◌else◌, get_elem?, Result,
  ok, err,
}
use uni_api.Admission.Memory.{
  Sample, Waiter, waiting_for, ended, MemoryGovernor, MemoryError, Turn, granted, timed_out, waits,
  maximum_capacity_bytes, normalized, reserve_nowait_decision, reserve, retry, cancel, release,
}

pub data Call : Type 0 where
  nowaits : String → ℕ → ℕ → Option Sample → Call
  reserves : String → ℕ → ℕ → ℕ → Option Sample → Call
  retries : Bool → ℕ → ℕ → Option Sample → Call
  cancels : ℕ → Call
  releases : String → ℕ → Call
  maxima : ℕ → Option Sample → Call

pub data Effect : Type 0 where
  grants returns : String → ℕ → Effect
  nothing : Effect
  raises : MemoryError → Effect

unfoldable pub effect_of : String → ℕ → Result MemoryError Turn → Effect
effect_of name size (ok granted) = grants name size
effect_of name size (ok timed_out) = nothing
effect_of name size (ok waits) = nothing
effect_of name size (err e) = raises e

-- The category and the size of a waiter.
abbrev pub held_by : Option Waiter → String × ℕ
held_by (some (waiting_for name size)) = (name, size)
held_by _ = ("", 0)

abbrev pub release_effect : String → ℕ → Option MemoryError → Effect
release_effect name size none = returns name size
release_effect name size (some e) = raises e

unfoldable pub step : MemoryGovernor → Call → MemoryGovernor × Effect
step g (nowaits category size now answer) =
    let (g', decision) = reserve_nowait_decision category size now answer g in
    (g', if decision.allowed then grants decision.category size else nothing)
step g (reserves category size timeout now answer) =
    let (g', turn) = reserve category size timeout now answer g in
    (g', effect_of (normalized category) size turn)
step g (retries expired i now answer) =
    let (g', turn) = retry expired i now answer g in
    let (name, size) = held_by (get_elem? g.waiters i) in (g', effect_of name size turn)
step g (cancels i) = (cancel i g, nothing)
step g (releases category size) =
    let (g', error) = release category size g in
    (g', release_effect (normalized category) size error)
step g (maxima now answer) = ((maximum_capacity_bytes now answer g).0, nothing)

unfoldable pub run : MemoryGovernor → List Call → MemoryGovernor
run g [] = g
run g (c ∷ cs) = run (step g c).0 cs

-- A place in the list of waiters.
pub data Found (o : Option Waiter) : Type 0 where
  none_here : o ≡ none → Found o
  over_here : o ≡ some ended → Found o
  waits_here : (name : String) (size : ℕ) → o ≡ some (waiting_for name size) → Found o

pub found : (o : Option Waiter) → Found o
found none = none_here refl
found (some ended) = over_here refl
found (some (waiting_for name size)) = waits_here name size refl
