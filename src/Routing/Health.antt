-- ===== src/Routing/Health.antt =====
-- uni_api/routing/health.py: `ProviderModelCircuitBreaker`. A reading of the clock is an argument, in
-- whole microseconds; an `open_until` of 0 means closed, as in the source. The dictionary of
-- routes is an association list in the order of insertion; `fingerprint` is the hash of a route.
pub mod Routes
pub mod Opening
pub mod Recent
pub mod Evidence
pub mod Accounting
use uni_api.Prelude.{
  ℕ, ◌+◌, ◌-◌, ◌*◌, ◌/◌, String, Bool, true, false, not, ◌&&◌, ◌||◌, Option, none, some, List, [],
  ◌∷◌, ◌++◌, ltb, leb, ◌==◌, if◌then◌else◌, length, str_eq, strip, Result, ok, err,
}

pub record RouteState : Type 0 where
  pub failures : List (ℕ × ℕ)
  pub open_until : ℕ
  pub opened_total : ℕ
  pub last_status_code : Option ℕ

abbrev pub fresh : RouteState
fresh = record { failures = []; open_until = 0; opened_total = 0; last_status_code = none }

abbrev pub Route : Type 0
Route = String × String

abbrev pub route_eq : Route → Route → Bool
route_eq a b = str_eq a.0 b.0 && str_eq a.1 b.1

abbrev pub Routes : Type 0
Routes = List (Route × RouteState)

pub record Config : Type 0 where
  pub failure_threshold : ℕ
  pub failure_window : ℕ
  pub open_time : ℕ

pub record CircuitBreaker : Type 0 where
  pub config : Config
  pub open config use *
  pub states : Routes
  pub failure_total : ℕ → ℕ
  pub opened_total : ℕ
  pub success_reset_total : ℕ

pub data ConfigError : Type 0 where
  threshold_not_positive duration_not_positive : ConfigError

unfoldable pub init : ℕ → ℕ → ℕ → Result ConfigError CircuitBreaker
init failure_threshold failure_window open_time =
    if failure_threshold == 0
    then err threshold_not_positive
    else if failure_window == 0 || open_time == 0
    then err duration_not_positive
    else ok (record {
      config = record {
        failure_threshold = failure_threshold;
        failure_window = failure_window;
        open_time = open_time;
      };
      states = [];
      failure_total = λ status. 0;
      opened_total = 0;
      success_reset_total = 0;
    })

unfoldable pub key : String → String → Route
key provider model = (strip provider, strip model)

-- `all(key)`
unfoldable pub is_complete : Route → Bool
is_complete route = not (str_eq route.0 "") && not (str_eq route.1 "")

-- `while state.failures and state.failures[0][0] < now - window: popleft()`
unfoldable pub drop_old : ℕ → ℕ → List (ℕ × ℕ) → List (ℕ × ℕ)
drop_old window now [] = []
drop_old window now ((t, status) ∷ failures) =
    if ltb (t + window) now then drop_old window now failures else (t, status) ∷ failures

unfoldable pub prune_locked : ℕ → ℕ → RouteState → RouteState
prune_locked window now state =
    if not (state.open_until == 0) && leb state.open_until now
    then record state { open_until = 0; failures = [] }
    else record state { failures = drop_old window now state.failures }

unfoldable pub lookup : Route → Routes → Option RouteState
lookup route [] = none
lookup route ((r, state) ∷ rs) = if route_eq r route then some state else lookup route rs

unfoldable pub set : Route → RouteState → Routes → Routes
set route state [] = (route, state) ∷ []
set route state ((r, old) ∷ rs) =
    if route_eq r route then (r, state) ∷ rs else (r, old) ∷ set route state rs

-- `pop(key, None)`; a dictionary holds a key once.
unfoldable pub remove : Route → Routes → Routes
remove route [] = []
remove route ((r, state) ∷ rs) =
    let rest = remove route rs in if route_eq r route then rest else (r, state) ∷ rest

-- The locked part of `record_failure`, on the state of the route.
unfoldable pub fail_route : Config → ℕ → ℕ → RouteState → RouteState × Bool
fail_route c now status state =
    let pruned = prune_locked c.failure_window now state in
    let noted = record pruned {
      last_status_code = some status;
      failures = pruned.failures ++ (now, status) ∷ [];
    } in
    if ltb now noted.open_until
    then (noted, false)
    else if ltb (length noted.failures) c.failure_threshold
    then (noted, false)
    else (
      record noted { open_until = now + c.open_time; opened_total = noted.opened_total + 1 },
      true,
    )

-- `Counter[status] += 1`
abbrev pub count_status : ℕ → (ℕ → ℕ) → ℕ → ℕ
count_status status total s = if status == s then total s + 1 else total s

abbrev pub or_fresh : Option RouteState → RouteState
or_fresh none = fresh
or_fresh (some state) = state

abbrev pub counts : ℕ → Bool
counts status = status == 403 || status == 404

unfoldable pub record_failure : ℕ → String → String → ℕ → CircuitBreaker → CircuitBreaker × Bool
record_failure now provider model status b =
    let route = key provider model in
    let (state, opened) = fail_route b.config now status (or_fresh (lookup route b.states)) in
    if not (counts status) then (b, false) else if not (is_complete route) then (b, false) else (
      record b {
        states = set route state b.states;
        failure_total = count_status status b.failure_total;
        opened_total = if opened then b.opened_total + 1 else b.opened_total;
      },
      opened,
    )

unfoldable pub record_success : String → String → CircuitBreaker → CircuitBreaker × Bool
record_success provider model b =
    let route = key provider model in
    if not (is_complete route) then (b, false) else elim (lookup route b.states) [
      | none ↦ (b, false)
      | some state ↦ (
        record b {
          states = remove route b.states;
          success_reset_total = b.success_reset_total + 1;
        },
        true,
      )
    ]

-- `not state.failures and not state.open_until`
abbrev pub is_idle : RouteState → Bool
is_idle state = elim state.failures [ [] ↦ state.open_until == 0 | _ ∷ _ ↦ false ]

unfoldable pub is_open : ℕ → String → String → CircuitBreaker → CircuitBreaker × Bool
is_open now provider model b =
    let route = key provider model in
    if not (is_complete route) then (b, false) else elim (lookup route b.states) [
      | none ↦ (b, false)
      | some state ↦
          let pruned = prune_locked b.failure_window now state in
          if is_idle pruned
          then (record b { states = remove route b.states }, false)
          else (record b { states = set route pruned b.states }, ltb now pruned.open_until)
    ]

pub record OpenRoute : Type 0 where
  pub route_fingerprint : String
  pub remaining_open_ms : ℕ
  pub last_status_code : Option ℕ
  pub failures_in_window : ℕ
  pub opened_total : ℕ

unfoldable pub describe : (Route → String) → ℕ → Route → RouteState → OpenRoute
describe fingerprint now route state = record {
  route_fingerprint = fingerprint route;
  remaining_open_ms = (state.open_until - now) / 1000;
  last_status_code = state.last_status_code;
  failures_in_window = length state.failures;
  opened_total = state.opened_total;
}

-- The loop of `snapshot`: the routes that stay, and the open ones.
unfoldable pub sweep : (Route → String) → ℕ → ℕ → Routes → Routes × List OpenRoute
sweep fingerprint window now [] = ([], [])
sweep fingerprint window now ((route, state) ∷ rs) =
    let (kept, open_routes) = sweep fingerprint window now rs in
    let pruned = prune_locked window now state in
    if is_idle pruned then (kept, open_routes) else (
      (route, pruned) ∷ kept,
      if ltb now pruned.open_until
          then describe fingerprint now route pruned ∷ open_routes
          else open_routes,
    )

-- `snapshot`: the breaker after it, and the list behind "open_routes" and "open_route_count".
unfoldable pub snapshot : (Route → String) → ℕ → CircuitBreaker → CircuitBreaker × List OpenRoute
snapshot fingerprint now b =
    let (kept, open_routes) = sweep fingerprint b.failure_window now b.states in
    (record b { states = kept }, open_routes)
