-- ===== src/Routing/Health/Evidence.antt =====
-- A circuit opens only after enough recent failures, against the list of all failures of its route.
use mathlib.Core.List.{append-nil}
use mathlib.Core.Path.{subst, subst₂, ap₂}
use uni_api.Prelude.{
  ℕ, ◌≤◌, String, ◌≡◌, refl, sym, ap, ◌∙◌, inl, inr, Bool, true, false, not, ◌&&◌, Option, none,
  some, List, [], ◌∷◌, ◌++◌, arith, leb, ◌==◌, if◌then◌else◌, Bool-cases, length, length-append, ok,
}
use uni_api.Routing.Health.{
  RouteState, Route, Config, CircuitBreaker, key, counts, or_fresh, is_idle, prune_locked, lookup,
  fail_route, record_failure, init,
}
use uni_api.Routing.Health.Routes.{
  Call, fails, succeeds, asks, snapshots, run, names, fails_here, succeeds_here, prune_route, local,
  local_run, lookup-run, run-config, Unique,
}
use uni_api.Routing.Health.Recent.{
  times, failures_of, recent, recent-append, Ascending, Ascending-later, Ascending-append,
  drop_old-Ascending, recent-drop_old, IsEnd, IsEnd-drop_old, IsEnd-append,
}

-- The failures that a route keeps end its log, and their times rise.
abbrev Kept : ℕ → List (ℕ × ℕ) → List ℕ → Type 0
Kept last fs log = IsEnd log (times fs) × Ascending 0 last fs

prune_locked-Kept :
    (window now last : ℕ) (state : RouteState) (log : List ℕ)
    → Kept last state.failures log
    → Kept last (prune_locked window now state).failures log
unfolding prune_locked
prune_locked-Kept window now last state log k =
    elim (Bool-cases (not (state.open_until == 0) && leb state.open_until now)) [
      | inl over ↦ rw over ((log, sym (append-nil log)), omega arith)
      | inr going ↦ rw going (
        IsEnd-drop_old window now log state.failures k.0,
        drop_old-Ascending window now 0 last state.failures k.1,
      )
    ]

Kept-later :
    (last now : ℕ) (fs : List (ℕ × ℕ)) (log : List ℕ)
    → last ≤ now
    → Kept last fs log
    → Kept now fs log
Kept-later last now fs log le k = (k.0, Ascending-later 0 last now fs le k.1)

prune_route-Kept :
    (window now last : ℕ) (o : Option RouteState) (log : List ℕ)
    → last ≤ now
    → Kept last (failures_of o) log
    → Kept now (failures_of (prune_route window now o)) log
unfolding prune_route
prune_route-Kept window now last none log le k = Kept-later last now [] log le k
prune_route-Kept window now last (some state) log le k =
    let pruned = prune_locked window now state in
    elim (Bool-cases (is_idle pruned)) [
      | inl idle ↦ rw idle ((log, sym (append-nil log)), omega arith)
      | inr busy ↦ rw busy (
          Kept-later last now pruned.failures log le
            (prune_locked-Kept window now last state log k))
    ]

-- What `fail_route` keeps, and what it shows when it opens the circuit.
fail_route-failures :
    (c : Config) (now status : ℕ) (state : RouteState)
    → (fail_route c now status state).0.failures
      ≡ (prune_locked c.failure_window now state).failures ++ (now, status) ∷ []
unfolding fail_route
fail_route-failures c now status state = ground arith

fail_route-Kept :
    (c : Config) (now status last : ℕ) (state : RouteState) (log : List ℕ)
    → last ≤ now
    → Kept last state.failures log
    → Kept now (fail_route c now status state).0.failures (log ++ now ∷ [])
fail_route-Kept c now status last state log le k =
    let pruned = prune_locked-Kept c.failure_window now last state log k in
    rw (fail_route-failures c now status state)
      (IsEnd-append now status log _ pruned.0, Ascending-append 0 last now status _ le pruned.1)

-- The log of a route: the times of its failures since its last success.
abbrev pub note : Route → Call → List ℕ → List ℕ
note route (fails now provider model status) log =
    if fails_here route (fails now provider model status) then log ++ now ∷ [] else log
note route (succeeds provider model) log =
    if succeeds_here route (succeeds provider model) then [] else log
note route (asks now provider model) log = log
note route (snapshots f now) log = log

unfoldable pub failure_log : Route → List Call → List ℕ → List ℕ
failure_log route [] log = log
failure_log route (call ∷ cs) log = failure_log route cs (note route call log)

-- The clock of a call; `succeeds` reads none.
abbrev pub clock : ℕ → Call → ℕ
clock last (fails now provider model status) = now
clock last (succeeds provider model) = last
clock last (asks now provider model) = now
clock last (snapshots f now) = now

-- The clock never falls, and shows at most `until` at the end.
abbrev pub Ordered : ℕ → List Call → ℕ → Type 0
Ordered last [] until = last ≤ until
Ordered last (call ∷ cs) until = (last ≤ clock last call) × Ordered (clock last call) cs until

Kept-if :
    (b : Bool) (last : ℕ) (o o' : Option RouteState) (log log' : List ℕ)
    → Kept last (failures_of o) log
    → Kept last (failures_of o') log'
    → Kept last (failures_of (if b then o else o')) (if b then log else log')
Kept-if true last o o' log log' k k' = k
Kept-if false last o o' log log' k k' = k'

local-Kept :
    (c : Config) (route : Route) (call : Call) (last : ℕ) (o : Option RouteState) (log : List ℕ)
    → last ≤ clock last call
    → Kept last (failures_of o) log
    → Kept (clock last call) (failures_of (local c route call o)) (note route call log)
unfolding local
local-Kept c route (fails now provider model status) last o log le k =
    Kept-if (counts status && names route provider model) now _ o _ log
      (fail_route-Kept c now status last (or_fresh o) log le k) (Kept-later last now _ log le k)
local-Kept c route (succeeds provider model) last o log le k =
    Kept-if (names route provider model) last none o [] log (([], refl), omega arith) k
local-Kept c route (asks now provider model) last o log le k =
    elim (Bool-cases (names route provider model)) [
      | inl hit ↦ rw hit (prune_route-Kept c.failure_window now last o log le k)
      | inr miss ↦ rw miss (Kept-later last now _ log le k)
    ]
local-Kept c route (snapshots f now) last o log le k =
    prune_route-Kept c.failure_window now last o log le k

local_run-Kept :
    (c : Config) (route : Route) (cs : List Call) (last until : ℕ) (o : Option RouteState)
    (log : List ℕ)
    → Ordered last cs until
    → Kept last (failures_of o) log
    → Kept until (failures_of (local_run c route cs o)) (failure_log route cs log)
unfolding local_run failure_log
local_run-Kept c route [] last until o log ordered k = Kept-later last until _ log ordered k
local_run-Kept c route (call ∷ cs) last until o log ordered k =
    local_run-Kept c route cs (clock last call) until _ _ ordered.1
      (local-Kept c route call last o log ordered.0 k)

-- The failures that are kept at `now` all lie in the window.
prune_locked-recent :
    (window now last : ℕ) (state : RouteState)
    → Ascending 0 last state.failures
    → recent window now (times (prune_locked window now state).failures)
      ≡ length (prune_locked window now state).failures
unfolding prune_locked recent
prune_locked-recent window now last state a =
    ground (arith, recent-drop_old window now 0 last state.failures a)

recent-now : (window now : ℕ) → recent window now (now ∷ []) ≡ 1
unfolding recent
recent-now window now = ground arith

fail_route-threshold :
    (c : Config) (now status : ℕ) (state : RouteState)
    → (fail_route c now status state).1 ≡ true
    → c.failure_threshold
      ≤ length ((prune_locked c.failure_window now state).failures ++ (now, status) ∷ [])
unfolding fail_route
fail_route-threshold c now status state opened = ground arith

fail_route-recent :
    (c : Config) (now status last : ℕ) (state : RouteState) (log : List ℕ)
    → Kept last state.failures log
    → (fail_route c now status state).1 ≡ true
    → c.failure_threshold ≤ recent c.failure_window now (log ++ now ∷ [])
fail_route-recent c now status last state log k opened =
    let pruned = prune_locked c.failure_window now state in
    let (older, e) = (prune_locked-Kept c.failure_window now last state log k).0 in
    let w = c.failure_window in
    omega (
      arith,
      fail_route-threshold c now status state opened,
      length-append pruned.failures ((now, status) ∷ []),
      prune_locked-recent w now last state k.1,
      recent-append w now log (now ∷ []),
      recent-now w now,
      ap (recent w now) e,
      recent-append w now older (times pruned.failures),
    )

record_failure-opened_local :
    (now status : ℕ) (provider model : String) (b : CircuitBreaker)
    → (record_failure now provider model status b).1 ≡ true
    → (fail_route b.config now status (or_fresh (lookup (key provider model) b.states))).1 ≡ true
unfolding record_failure
record_failure-opened_local now status provider model b h = ground arith

init-empty :
    (c : Config) (b : CircuitBreaker)
    → init c.failure_threshold c.failure_window c.open_time ≡ ok b
    → (b.config ≡ c) × (b.states ≡ [])
unfolding init
init-empty c b h = ground arith

-- The state of a route after any calls on a new breaker.
pub lookup-run-init :
    (c : Config) (cs : List Call) (route : Route) (b : CircuitBreaker)
    → init c.failure_threshold c.failure_window c.open_time ≡ ok b
    → ((run b cs).config ≡ c) × (lookup route (run b cs).states ≡ local_run c route cs none)
unfolding lookup
lookup-run-init c cs route b new =
    let (same, empty) = init-empty c b new in
    (
      run-config b cs ∙ same,
      lookup-run b cs route (subst Unique (sym empty) tt)
          ∙ ap₂ (λ c rs. local_run c route cs (lookup route rs)) same empty,
    )

-- A circuit never opens without evidence: after any calls on a new breaker, while the clock
-- does not fall, if a failure at `now` opens the circuit of a route, then at least
-- `failure_threshold` failures of that route, this one among them, were recorded since its last success and
-- within the window that ends at `now`.
pub record_failure-recent :
    (c : Config) (cs : List Call) (now status : ℕ) (provider model : String) (b : CircuitBreaker)
    → init c.failure_threshold c.failure_window c.open_time ≡ ok b
    → Ordered 0 cs now
    → (record_failure now provider model status (run b cs)).1 ≡ true
    → c.failure_threshold
      ≤ recent c.failure_window now (failure_log (key provider model) cs [] ++ now ∷ [])
record_failure-recent c cs now status provider model b new ordered opened =
    let route = key provider model in
    let (same, at) = lookup-run-init c cs route b new in
    let state = or_fresh (local_run c route cs none) in
    let here =
      subst₂ (λ c o. (fail_route c now status (or_fresh o)).1 ≡ true) same at
        (record_failure-opened_local now status provider model (run b cs) opened) in
    fail_route-recent c now status now state (failure_log route cs [])
      (local_run-Kept c route cs 0 now none [] ordered (([], refl), omega arith)) here
