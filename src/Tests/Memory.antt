-- ===== src/Tests/Memory.antt =====
-- Tests of the model of uni_api/admission/memory.py.
use uni_api.Prelude.{◌+◌, ◌/◌, ◌≡◌, refl, false, none, some, List, [], ◌∷◌, arith, strip}
use uni_api.Prelude.Sums.{set}
use uni_api.Admission.Memory.{
  Config, Sample, init, last_sample, is_cached, refresh_sample_locked, effective_limit,
  soft_limit_and_guard, room, limits_locked, maximum_capacity_bytes, normalized, take,
  reserve_nowait_decision, try_reserve_locked, reserve, stop_waiting, retry, cancel, release,
}
use uni_api.Admission.Counter.{count, add, take_off, sum}
use uni_api.Admission.Memory.Calls.{
  Call, nowaits, reserves, retries, releases, grants, effect_of, step, run,
}
use uni_api.Admission.Memory.Safety.{Safe, step-Safe}
use uni_api.Admission.Memory.Sound.{Sound}
use uni_api.Admission.Memory.Ledger.{granted_part, returned_part, posted, run-init-balance}

program : Unit {0}
unfolding init last_sample is_cached refresh_sample_locked effective_limit soft_limit_and_guard room
    limits_locked maximum_capacity_bytes normalized take reserve_nowait_decision try_reserve_locked
    reserve stop_waiting retry cancel release count add take_off sum effect_of step run posted set
    strip
program = tt

-- A container of 1000 bytes of which a quarter is kept free.
abbrev config : Config
config = record {
  soft_limit_bytes = none;
  guard_bytes = 200;
  guard_share = λ limit. limit / 4;
  fallback_budget_bytes = 100;
  sample_cache = 50;
}

abbrev sample : Sample
sample = record { current_bytes = some 500; limit_bytes = some 1000; high_bytes = none }

-- Two hundred bytes, a hundred more that wait until some are given back, and a failed sample.
abbrev traffic : List Call
traffic =
    nowaits "body" 200 10 (some sample)
    ∷ reserves "json " 100 5 20 (some sample)
    ∷ releases "body" 60
    ∷ retries false 0 100 (some sample)
    ∷ nowaits "body" 10 200 none
    ∷ []

traffic_ends :
    let g = run (init config) traffic in
    (count "body" g.reserved ≡ 140)
    × (count "json" g.reserved ≡ 100)
    × (g.waiting_reservations ≡ 0)
    × (count "body" g.rejected ≡ 1)
unfolding program
traffic_ends = (refl, refl, refl, refl)

soft_limit : (soft_limit_and_guard config (effective_limit sample)).0 ≡ some 750
unfolding program
soft_limit = refl

body_granted : (step (init config) (nowaits "body" 200 10 (some sample))).1 ≡ grants "body" 200
unfolding program
body_granted = refl

step-Safe_example : Safe (step (init config) (nowaits "body" 200 10 (some sample))).0
step-Safe_example =
    step-Safe (init config) (nowaits "body" 200 10 (some sample)) "body" 200 (omega arith)
      body_granted

run-init-balance_example :
    let g = run (init config) traffic in
    Sound g
    × (count "body" g.reserved + posted (returned_part "body") (init config) traffic
        ≡ posted (granted_part "body") (init config) traffic)
run-init-balance_example = run-init-balance config traffic "body"
