-- ===== src/Routing/Health/Routes.antt =====
-- The breaker seen route by route: each call changes the state of its own route only.
use mathlib.Core.Path.{subst, ap₂}
use uni_api.Prelude.{
  ℕ, String, ◌≡◌, refl, ap, ◌∙◌, ◌↔◌, Bool, true, false, ◌&&◌, Option, none, some, List, [], ◌∷◌,
  arith, if◌then◌else◌, &&-eq-true, str_eq_iff,
}
use uni_api.Routing.Health.{
  RouteState, Route, Routes, Config, CircuitBreaker, route_eq, key, is_complete, counts, or_fresh,
  is_idle, prune_locked, lookup, set, remove, fail_route, record_failure, record_success, is_open,
  sweep, snapshot,
}

pub route_eq_refl : (r : Route) → route_eq r r ≡ true
route_eq_refl (p, m) = ground (arith, str_eq_iff p p, str_eq_iff m m)

pub route_eq_iff : (a b : Route) → (route_eq a b ≡ true) ↔ (a ≡ b)
route_eq_iff (p, m) (q, n) = (
  λ h.
      let (x, y) = &&-eq-true _ _ h in
      ap₂ (λ a b. (a, b)) ((str_eq_iff p q).0 x) ((str_eq_iff m n).0 y),
  λ e. subst (λ r. route_eq (p, m) r ≡ true) e (route_eq_refl (p, m)),
)

pub lookup-set :
    (r q : Route) (state : RouteState) (rs : Routes)
    → lookup q (set r state rs) ≡ (if route_eq r q then some state else lookup q rs)
unfolding lookup set
lookup-set r q state [] = refl
lookup-set r q state ((i, old) ∷ rs) =
    ground (arith, route_eq_iff r q, route_eq_iff i r, route_eq_iff i q, lookup-set r q state rs)

lookup-remove :
    (r q : Route) (rs : Routes)
    → lookup q (remove r rs) ≡ (if route_eq r q then none else lookup q rs)
unfolding lookup remove
lookup-remove r q [] = ground arith
lookup-remove r q ((i, old) ∷ rs) =
    ground (arith, route_eq_iff r q, route_eq_iff i r, route_eq_iff i q, lookup-remove r q rs)

-- No route twice.
abbrev pub Unique : Routes → Type 0
Unique [] = Unit {0}
Unique ((r, state) ∷ rs) = (lookup r rs ≡ none) × Unique rs

pub set-Unique :
    (r : Route) (state : RouteState) (rs : Routes) → Unique rs → Unique (set r state rs)
unfolding set lookup
set-Unique r state [] u = (refl, tt)
set-Unique r state ((i, old) ∷ rs) u =
    ground (
      arith,
      set-Unique r state rs u.1,
      lookup-set r i state rs,
      route_eq_iff r i,
      route_eq_iff i r,
    )

remove-Unique : (r : Route) (rs : Routes) → Unique rs → Unique (remove r rs)
unfolding remove
remove-Unique r [] u = tt
remove-Unique r ((i, old) ∷ rs) u = ground (arith, remove-Unique r rs u.1, lookup-remove r i rs)

-- What pruning leaves of a route.
unfoldable pub prune_route : ℕ → ℕ → Option RouteState → Option RouteState
prune_route window now none = none
prune_route window now (some state) =
    let pruned = prune_locked window now state in if is_idle pruned then none else some pruned

lookup-sweep :
    (f : Route → String) (window now : ℕ) (q : Route) (rs : Routes)
    → Unique rs
    → lookup q (sweep f window now rs).0 ≡ prune_route window now (lookup q rs)
unfolding lookup sweep prune_route
lookup-sweep f window now q [] u = refl
lookup-sweep f window now q ((r, state) ∷ rs) u = ground (
  arith,
  lookup-sweep f window now q rs u.1,
  route_eq_iff r q,
  ap (λ i. lookup i rs) {x = r} {y = q},
)

sweep-Unique :
    (f : Route → String) (window now : ℕ) (rs : Routes)
    → Unique rs
    → Unique (sweep f window now rs).0
unfolding sweep prune_route
sweep-Unique f window now [] u = tt
sweep-Unique f window now ((r, state) ∷ rs) u =
    ground (arith, sweep-Unique f window now rs u.1, lookup-sweep f window now r rs u.1)

-- A call with its time, provider, model and status; `succeeds` reads no clock.
pub data Call : Type 0 where
  fails : ℕ → String → String → ℕ → Call
  succeeds : String → String → Call
  asks : ℕ → String → String → Call
  snapshots : (Route → String) → ℕ → Call

unfoldable pub step : CircuitBreaker → Call → CircuitBreaker
step b (fails now provider model status) = (record_failure now provider model status b).0
step b (succeeds provider model) = (record_success provider model b).0
step b (asks now provider model) = (is_open now provider model b).0
step b (snapshots f now) = (snapshot f now b).0

unfoldable pub run : CircuitBreaker → List Call → CircuitBreaker
run b [] = b
run b (c ∷ cs) = run (step b c) cs

-- Whether a call is about a route: the provider and the model name it, and neither is blank.
abbrev pub names : Route → String → String → Bool
names route provider model = is_complete (key provider model) && route_eq (key provider model) route

abbrev pub fails_here : Route → Call → Bool
fails_here route (fails now provider model status) = counts status && names route provider model
fails_here route _ = false

abbrev pub succeeds_here : Route → Call → Bool
succeeds_here route (succeeds provider model) = names route provider model
succeeds_here route _ = false

-- What a call does to the state of one route.
unfoldable pub local : Config → Route → Call → Option RouteState → Option RouteState
local c route (fails now provider model status) o =
    if counts status && names route provider model
    then some (fail_route c now status (or_fresh o)).0
    else o
local c route (succeeds provider model) o = if names route provider model then none else o
local c route (asks now provider model) o =
    if names route provider model then prune_route c.failure_window now o else o
local c route (snapshots f now) o = prune_route c.failure_window now o

pub step-config : (b : CircuitBreaker) (c : Call) → (step b c).config ≡ b.config
unfolding step record_failure record_success is_open snapshot
step-config b (fails now provider model status) = ground arith
step-config b (succeeds provider model) = ground arith
step-config b (asks now provider model) = ground arith
step-config b (snapshots f now) = refl

pub step-Unique : (b : CircuitBreaker) (c : Call) → Unique b.states → Unique (step b c).states
unfolding step record_failure record_success is_open snapshot
step-Unique b (fails now provider model status) u = grind (arith, set-Unique)
step-Unique b (succeeds provider model) u = grind (arith, remove-Unique)
step-Unique b (asks now provider model) u = grind (arith, remove-Unique, set-Unique)
step-Unique b (snapshots f now) u = sweep-Unique f b.failure_window now b.states u

lookup_same : (r q : Route) (rs : Routes) → route_eq r q ≡ true → lookup r rs ≡ lookup q rs
lookup_same r q rs h = ap (λ i. lookup i rs) ((route_eq_iff r q).0 h)

-- Each call acts on each route by itself, as `local` says: the breaker is one machine for each route.
lookup-step :
    (b : CircuitBreaker) (c : Call) (route : Route)
    → Unique b.states
    → lookup route (step b c).states ≡ local b.config route c (lookup route b.states)
unfolding step local record_failure record_success is_open snapshot prune_route
lookup-step b (fails now provider model status) route u =
    let r = key provider model in
    let failed = (fail_route b.config now status (or_fresh (lookup r b.states))).0 in
    ground (arith, lookup-set r route failed b.states, lookup_same r route b.states)
lookup-step b (succeeds provider model) route u =
    let r = key provider model in
    ground (arith, lookup-remove r route b.states, lookup_same r route b.states)
lookup-step b (asks now provider model) route u =
    let r = key provider model in
    grind (arith, lookup-set r route, lookup-remove r route b.states, lookup_same r route b.states)
lookup-step b (snapshots f now) route u = lookup-sweep f b.failure_window now route b.states u

-- Under any calls, each route runs through its own states.
unfoldable pub local_run : Config → Route → List Call → Option RouteState → Option RouteState
local_run c route [] o = o
local_run c route (call ∷ calls) o = local_run c route calls (local c route call o)

-- The breaker refines one small machine for each route: after any sequence of calls, with each route held
-- once, the state of a route is what its own machine makes of the same calls.
pub lookup-run :
    (b : CircuitBreaker) (cs : List Call) (route : Route)
    → Unique b.states
    → lookup route (run b cs).states ≡ local_run b.config route cs (lookup route b.states)
unfolding run local_run
lookup-run b [] route u = refl
lookup-run b (c ∷ cs) route u =
    rw
      (lookup-run (step b c) cs route (step-Unique b c u), step-config b c, lookup-step b c route u)

pub run-config : (b : CircuitBreaker) (cs : List Call) → (run b cs).config ≡ b.config
unfolding run
run-config b [] = refl
run-config b (c ∷ cs) = run-config (step b c) cs ∙ step-config b c
