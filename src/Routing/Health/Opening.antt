-- ===== src/Routing/Health/Opening.antt =====
-- When a circuit opens, and how long it stays open.
use uni_api.Prelude.{
  ℕ, ◌+◌, ◌<◌, String, ◌≡◌, true, false, ◌&&◌, Option, none, some, List, [], ◌∷◌, arith, ltb, All,
}
use uni_api.Routing.Health.{
  RouteState, Route, Config, CircuitBreaker, key, is_complete, or_fresh, prune_locked, lookup,
  fail_route, record_failure, is_open,
}
use uni_api.Routing.Health.Routes.{
  Call, fails, succeeds, asks, snapshots, step, run, succeeds_here, prune_route, local, local_run,
  lookup-run, Unique, lookup-set, step-Unique, step-config, route_eq_refl,
}

-- The time until which a route is open; 0 for a route that is not held.
abbrev pub deadline : Option RouteState → ℕ
deadline none = 0
deadline (some state) = state.open_until

-- `is_open` answers by the deadline alone.
pub is_open-deadline :
    (now : ℕ) (provider model : String) (b : CircuitBreaker)
    → (is_open now provider model b).1 ≡ (
        is_complete (key provider model)
        && ltb now (deadline (lookup (key provider model) b.states)))
unfolding is_open prune_locked
is_open-deadline now provider model b = ground arith

-- The clock of a call, where it reads one, shows a time before `u`.
abbrev pub Before : ℕ → Call → Type 0
Before u (fails now provider model status) = now < u
Before u (succeeds provider model) = Unit {0}
Before u (asks now provider model) = now < u
Before u (snapshots f now) = now < u

prune_route-deadline :
    (window now u : ℕ) (o : Option RouteState)
    → now < u
    → deadline o ≡ u
    → deadline (prune_route window now o) ≡ u
unfolding prune_route prune_locked
prune_route-deadline window now u none lt e = e
prune_route-deadline window now u (some state) lt e = ground arith

fail_route-deadline :
    (c : Config) (now status u : ℕ) (o : Option RouteState)
    → now < u
    → deadline o ≡ u
    → (fail_route c now status (or_fresh o)).0.open_until ≡ u
unfolding fail_route prune_locked
fail_route-deadline c now status u none lt e = absurd (omega arith)
fail_route-deadline c now status u (some state) lt e = ground arith

local-deadline :
    (c : Config) (route : Route) (call : Call) (u : ℕ) (o : Option RouteState)
    → Before u call
    → succeeds_here route call ≡ false
    → deadline o ≡ u
    → deadline (local c route call o) ≡ u
unfolding local
local-deadline c route (fails now provider model status) u o lt no_success e =
    ground (arith, fail_route-deadline c now status u o lt e)
local-deadline c route (succeeds provider model) u o lt no_success e = ground arith
local-deadline c route (asks now provider model) u o lt no_success e =
    ground (arith, prune_route-deadline c.failure_window now u o lt e)
local-deadline c route (snapshots f now) u o lt no_success e =
    prune_route-deadline c.failure_window now u o lt e

local_run-deadline :
    (c : Config) (route : Route) (cs : List Call) (u : ℕ) (o : Option RouteState)
    → All (Before u) cs
    → All (λ call. succeeds_here route call ≡ false) cs
    → deadline o ≡ u
    → deadline (local_run c route cs o) ≡ u
unfolding local_run
local_run-deadline c route [] u o lt no_success e = e
local_run-deadline c route (call ∷ cs) u o lt no_success e =
    local_run-deadline c route cs u (local c route call o) lt.1 no_success.1
      (local-deadline c route call u o lt.0 no_success.0 e)

-- What a failure that opens the circuit leaves.
record_failure-opened :
    (t status : ℕ) (provider model : String) (b : CircuitBreaker)
    → (record_failure t provider model status b).1 ≡ true
    → (is_complete (key provider model) ≡ true)
      × (deadline (lookup (key provider model) (record_failure t provider model status b).0.states)
          ≡ t + b.open_time)
unfolding record_failure fail_route
record_failure-opened t status provider model b h =
    let r = key provider model in
    let failed = (fail_route b.config t status (or_fresh (lookup r b.states))).0 in
    ground (arith, lookup-set r r failed b.states, route_eq_refl r)

record_failure-config :
    (t status : ℕ) (provider model : String) (b : CircuitBreaker)
    → (record_failure t provider model status b).0.config ≡ b.config
unfolding step
record_failure-config t status provider model b = step-config b (fails t provider model status)

record_failure-Unique :
    (t status : ℕ) (provider model : String) (b : CircuitBreaker)
    → Unique b.states
    → Unique (record_failure t provider model status b).0.states
unfolding step
record_failure-Unique t status provider model b u = step-Unique b (fails t provider model status) u

-- If a failure at `t` opens a circuit, then after any calls whose clock shows less than
-- `t + open_time` and without a success of the route, `is_open` says yes at exactly the times before
-- `t + open_time`, and no from then on.
pub is_open-run-opened :
    (t status now : ℕ) (provider model : String) (b : CircuitBreaker) (cs : List Call)
    → Unique b.states
    → (record_failure t provider model status b).1 ≡ true
    → All (Before (t + b.open_time)) cs
    → All (λ call. succeeds_here (key provider model) call ≡ false) cs
    → (is_open now provider model (run (record_failure t provider model status b).0 cs)).1
      ≡ ltb now (t + b.open_time)
is_open-run-opened t status now provider model b cs u opened early no_success =
    let b' = (record_failure t provider model status b).0 in
    let route = key provider model in
    let (complete, due) = record_failure-opened t status provider model b opened in
    let kept =
      local_run-deadline b'.config route cs (t + b.open_time) (lookup route b'.states) early
        no_success due in
    rw (
      is_open-deadline now provider model (run b' cs),
      complete,
      lookup-run b' cs route (record_failure-Unique t status provider model b u),
      kept,
    )
