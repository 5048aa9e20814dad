-- ===== src/Routing/Health/Accounting.antt =====
-- Bounds on what a route keeps, and the counters of the breaker.
use uni_api.Prelude.{
  ℕ, suc, ◌+◌, ◌≤◌, ◌<◌, ◌≡◌, Bool, false, ◌&&◌, Option, none, some, List, [], ◌∷◌, arith, ◌==◌,
  if◌then◌else◌, length, ok,
}
use uni_api.Routing.Health.{
  RouteState, Route, Config, CircuitBreaker, key, is_complete, counts, or_fresh, prune_locked,
  drop_old, lookup, fail_route, record_failure, record_success, is_open, snapshot, init,
}
use uni_api.Routing.Health.Routes.{
  Call, fails, succeeds, asks, snapshots, step, run, prune_route, local, local_run,
}
use uni_api.Routing.Health.Evidence.{Ordered, clock, lookup-run-init}

-- A closed route keeps fewer failures than the threshold, and no route is due to close later than
-- `open_time` from the clock.
pub record Bounded (c : Config) (last : ℕ) (state : RouteState) : Type 0 where
  pub below : state.open_until ≡ 0 → length state.failures < c.failure_threshold
  pub due : state.open_until ≤ last + c.open_time

drop_old-length : (window now : ℕ) (fs : List (ℕ × ℕ)) → length (drop_old window now fs) ≤ length fs
unfolding drop_old
drop_old-length window now [] = omega arith
drop_old-length window now ((t, s) ∷ fs) = ground (arith, drop_old-length window now fs)

module _ (c : Config) (positive : 0 < c.failure_threshold) where
  prune_locked-Bounded :
      (now last : ℕ) (state : RouteState)
      → last ≤ now
      → Bounded c last state
      → Bounded c now (prune_locked c.failure_window now state)
  unfolding prune_locked
  prune_locked-Bounded now last state le v =
      ground (arith, drop_old-length c.failure_window now state.failures)

  fail_route-Bounded :
      (now status last : ℕ) (state : RouteState)
      → last ≤ now
      → 0 < c.open_time
      → Bounded c last state
      → Bounded c now (fail_route c now status state).0
  unfolding fail_route
  fail_route-Bounded now status last state le open_positive v =
      ground (arith, prune_locked-Bounded now last state le v)

  prune_route-Bounded :
      (now last : ℕ) (o : Option RouteState)
      → last ≤ now
      → Bounded c last (or_fresh o)
      → Bounded c now (or_fresh (prune_route c.failure_window now o))
  unfolding prune_route
  prune_route-Bounded now last none le v = ground arith
  prune_route-Bounded now last (some state) le v =
      ground (arith, prune_locked-Bounded now last state le v)

  local-Bounded :
      (route : Route) (call : Call) (last : ℕ) (o : Option RouteState)
      → 0 < c.open_time
      → last ≤ clock last call
      → Bounded c last (or_fresh o)
      → Bounded c (clock last call) (or_fresh (local c route call o))
  unfolding local
  local-Bounded route (fails now provider model status) last o pos le v =
      ground (arith, fail_route-Bounded now status last (or_fresh o) le pos v)
  local-Bounded route (succeeds provider model) last o pos le v = ground arith
  local-Bounded route (asks now provider model) last o pos le v =
      ground (arith, prune_route-Bounded now last o le v)
  local-Bounded route (snapshots f now) last o pos le v = prune_route-Bounded now last o le v

  local_run-Bounded :
      (route : Route) (cs : List Call) (last until : ℕ) (o : Option RouteState)
      → 0 < c.open_time
      → Ordered last cs until
      → Bounded c last (or_fresh o)
      → Bounded c until (or_fresh (local_run c route cs o))
  unfolding local_run
  local_run-Bounded route [] last until o pos ordered v = ground arith
  local_run-Bounded route (call ∷ cs) last until o pos ordered v =
      local_run-Bounded route cs (clock last call) until (local c route call o) pos ordered.1
        (local-Bounded route call last o pos ordered.0 v)

init-positive :
    (c : Config) (b : CircuitBreaker)
    → init c.failure_threshold c.failure_window c.open_time ≡ ok b
    → (0 < c.failure_threshold) × (0 < c.open_time)
unfolding init
init-positive c b h = ground arith

-- After any calls on a new breaker, while the clock does not fall and last showed at most `now`, each
-- route that is closed keeps fewer failures than the threshold, and each route is due to close at
-- most `open_time` after `now`.
pub run-Bounded :
    (c : Config) (cs : List Call) (now : ℕ) (route : Route) (b : CircuitBreaker)
    → init c.failure_threshold c.failure_window c.open_time ≡ ok b
    → Ordered 0 cs now
    → Bounded c now (or_fresh (lookup route (run b cs).states))
run-Bounded c cs now route b new ordered =
    let (positive, open_positive) = init-positive c b new in
    rw (lookup-run-init c cs route b new).1
      (local_run-Bounded c positive route cs 0 now none open_positive ordered (omega arith))

-- Whether a call opens a circuit, resets a route, or is a failure that is counted under a status.
abbrev pub opens : CircuitBreaker → Call → Bool
opens b (fails now provider model status) = (record_failure now provider model status b).1
opens b _ = false

abbrev pub resets : CircuitBreaker → Call → Bool
resets b (succeeds provider model) = (record_success provider model b).1
resets b _ = false

abbrev pub counted : ℕ → Call → Bool
counted s (fails now provider model status) =
    status == s && (counts s && is_complete (key provider model))
counted s _ = false

-- How many calls of a run pass a test, each in the state in which it is made.
unfoldable pub tally : (CircuitBreaker → Call → Bool) → CircuitBreaker → List Call → ℕ
tally test b [] = 0
tally test b (c ∷ cs) = let rest = tally test (step b c) cs in if test b c then suc rest else rest

step-totals :
    (b : CircuitBreaker) (c : Call) (s : ℕ)
    → ((step b c).opened_total ≡ (if opens b c then suc b.opened_total else b.opened_total))
      × ((step b c).success_reset_total
          ≡ (if resets b c then suc b.success_reset_total else b.success_reset_total))
      × ((step b c).failure_total s
          ≡ (if counted s c then suc (b.failure_total s) else b.failure_total s))
unfolding step record_failure record_success is_open snapshot
step-totals b (fails now provider model status) s = ground arith
step-totals b (succeeds provider model) s = ground arith
step-totals b (asks now provider model) s = ground arith
step-totals b (snapshots f now) s = ground arith

-- Over any run the three counters grow by the number of calls that opened a circuit, of successes that
-- reset a route, and, for each status code, of the failures with that code that were counted.
pub run-totals :
    (b : CircuitBreaker) (cs : List Call) (s : ℕ)
    → ((run b cs).opened_total ≡ b.opened_total + tally opens b cs)
      × ((run b cs).success_reset_total ≡ b.success_reset_total + tally resets b cs)
      × ((run b cs).failure_total s ≡ b.failure_total s + tally (λ _ c. counted s c) b cs)
unfolding run tally
run-totals b [] s = omega arith
run-totals b (c ∷ cs) s = ground (arith, run-totals (step b c) cs s, step-totals b c s)
