-- ===== src/Tests/Health.antt =====
-- Tests of the model of uni_api/routing/health.py.
use uni_api.Prelude.{◌+◌, ◌≤◌, ◌≡◌, refl, true, false, none, List, [], ◌∷◌, arith, strip}
use uni_api.Routing.Health.{
  Config, CircuitBreaker, init, key, is_complete, drop_old, prune_locked, lookup, set, remove,
  fail_route, record_failure, record_success, is_open, sweep, snapshot, or_fresh,
}
use uni_api.Routing.Health.Routes.{
  Call, fails, asks, step, run, local, local_run, prune_route, lookup-run,
}
use uni_api.Routing.Health.Opening.{is_open-run-opened}
use uni_api.Routing.Health.Evidence.{failure_log, record_failure-recent}
use uni_api.Routing.Health.Recent.{recent}
use uni_api.Routing.Health.Accounting.{
  Bounded, opens, resets, counted, tally, run-Bounded, run-totals,
}

program : Unit {0}
unfolding init key is_complete drop_old prune_locked lookup set remove fail_route record_failure
    record_success is_open sweep snapshot step run local local_run prune_route recent failure_log
    tally strip
program = tt

abbrev config : Config
config = record { failure_threshold = 2; failure_window = 100; open_time = 50 }

abbrev new : CircuitBreaker
new = record {
  config = config;
  states = [];
  failure_total = λ status. 0;
  opened_total = 0;
  success_reset_total = 0;
}

-- A failure with status 500 does not count, and one of another route is kept apart.
abbrev calls : List Call
calls = fails 10 "p" "m" 500 ∷ fails 11 "p" "m" 404 ∷ fails 12 "q" "m" 403 ∷ asks 13 "p" "m" ∷ []

second_failure_opens :
    ((record_failure 20 "p" "m" 403 (run new calls)).1 ≡ true)
    × ((is_open 69 " p" "m" (record_failure 20 "p" "m" 403 (run new calls)).0).1 ≡ true)
    × ((is_open 70 "p" "m" (record_failure 20 "p" "m" 403 (run new calls)).0).1 ≡ false)
unfolding program
second_failure_opens = (refl, refl, refl)

lookup-run_example :
    lookup ("p", "m") (run new calls).states ≡ local_run config ("p", "m") calls none
unfolding program
lookup-run_example = lookup-run new calls ("p", "m") tt

is_open-run-opened_example :
    (is_open 69 "p" "m"
      (run (record_failure 20 "p" "m" 403 (run new calls)).0 (asks 30 "p" "m" ∷ []))).1
    ≡ true
unfolding program
is_open-run-opened_example =
    is_open-run-opened 20 403 69 "p" "m" (run new calls) (asks 30 "p" "m" ∷ []) (refl, (refl, tt))
      refl (omega arith) (refl, tt)

record_failure-recent_example : 2 ≤ recent 100 20 (11 ∷ 20 ∷ [])
unfolding program
record_failure-recent_example =
    record_failure-recent config calls 20 403 "p" "m" new refl (omega arith) refl

run-Bounded_example : Bounded config 20 (or_fresh (lookup ("p", "m") (run new calls).states))
unfolding program
run-Bounded_example = run-Bounded config calls 20 ("p", "m") new refl (omega arith)

run-totals_example :
    ((run new calls).opened_total ≡ new.opened_total + tally opens new calls)
    × ((run new calls).success_reset_total ≡ new.success_reset_total + tally resets new calls)
    × ((run new calls).failure_total 404
        ≡ new.failure_total 404 + tally (λ _ c. counted 404 c) new calls)
run-totals_example = run-totals new calls 404
