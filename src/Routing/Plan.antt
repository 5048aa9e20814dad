-- ===== src/Routing/Plan.antt =====
-- uni_api/routing/core.py: `RoutingPlan` from its creation on, and the functions that choose where a request
-- starts and how often it is retried. What the key pool of a provider answers is an argument:
-- `items_count` for the number of its keys, and `limited k name model` for whether all keys are limited
-- when the slot `k` is looked at. The resolver's providers are an argument of the creation and of a
-- refresh. Each use of `next_provider` recurs on the number of slots that are left.
pub mod Slots
pub mod Offers
pub mod Passes
use uni_api.Prelude.{
  ℕ, zero, suc, ◌+◌, ◌-◌, ◌*◌, ◌%◌, String, Bool, true, false, not, ◌&&◌, ◌||◌, Option, none, some,
  List, [], ◌∷◌, ltb, ◌==◌, if◌then◌else◌, length, get_elem?, All, str_eq, Result, ok, err,
}

-- The parts of a provider that a plan reads: its name and its `_model_dict_cache`.
pub record Provider : Type 0 where
  pub name : String
  pub models : List (String × String)

pub record RoutingPlan : Type 0 where
  pub request_model : String
  pub start_index : ℕ
  pub matching_providers : List Provider
  pub retry_count : ℕ
  pub available : List String
  pub index : ℕ
  pub status_code : ℕ
  pub error_message : Option String

pub record ProviderAttempt : Type 0 where
  pub provider : Provider
  pub original_model : String

pub data PlanError : Type 0 where
  key_error index_error : PlanError

-- `d[key]`
unfoldable pub model_of : String → List (String × String) → Option String
model_of key [] = none
model_of key ((k, v) ∷ models) = if str_eq k key then some v else model_of key models

unfoldable pub contains : String → List String → Bool
contains name [] = false
contains name (n ∷ names) = str_eq n name || contains name names

unfoldable pub names_of : List Provider → List String
names_of [] = []
names_of (p ∷ ps) = p.name ∷ names_of ps

-- `last` is `last_provider_indices[model]`, which starts at -1, here `none`. The answer is the new value and
-- the start.
unfoldable pub compute_start_index : Bool → ℕ → Option ℕ → Option ℕ × ℕ
compute_start_index fixed_priority n last =
    let next : ℕ = elim last [ none ↦ 0 | some i ↦ i + 1 ] in
    if not fixed_priority && ltb 1 n then (some (next % n), next % n) else (last, 0)

unfoldable pub sum_items : (String → ℕ) → List Provider → ℕ
sum_items items_count [] = 0
sum_items items_count (p ∷ ps) = items_count p.name + sum_items items_count ps

unfoldable pub double_count : (String → ℕ) → List Provider → ℕ
double_count items_count ps =
    let retries = sum_items items_count ps * 2 in if ltb retries 10 then retries else 10

unfoldable pub compute_retry_count : (String → ℕ) → List Provider → ℕ
compute_retry_count items_count [] = 0
compute_retry_count items_count (p ∷ []) =
    if not (str_eq p.name "") && ltb 1 (items_count p.name)
    then items_count p.name
    else double_count items_count (p ∷ [])
compute_retry_count items_count (p ∷ q ∷ ps) = double_count items_count (p ∷ q ∷ ps)

-- The end of `create`, with the providers that the resolver gave.
unfoldable pub create : String → ℕ → (String → ℕ) → List Provider → RoutingPlan
create request_model start_index items_count providers = record {
  request_model = request_model;
  start_index = start_index;
  matching_providers = providers;
  retry_count = compute_retry_count items_count providers;
  available = names_of providers;
  index = 0;
  status_code = 500;
  error_message = none;
}

unfoldable pub record_failure : ℕ → String → RoutingPlan → RoutingPlan
record_failure status message plan = record plan {
  status_code = status;
  error_message = some message;
}

abbrev pub all_limited_message : String
all_limited_message = "All API keys are rate limited and stop auto retry!"

-- The number of slots of a plan.
abbrev pub slot_count : RoutingPlan → ℕ
slot_count plan = length plan.matching_providers + plan.retry_count

-- `self._state.matching_providers[(self.start_index + index) % n]`
abbrev pub slot : RoutingPlan → ℕ → Option Provider
slot plan k =
    get_elem? plan.matching_providers ((plan.start_index + k) % length plan.matching_providers)

-- The loop of `next_provider`; `none` where no slot is left or the only provider is limited.
unfoldable pub next_loop :
    (ℕ → String → String → Bool)
    → ℕ
    → RoutingPlan
    → RoutingPlan × Result PlanError (Option ProviderAttempt)
next_loop limited zero plan = (plan, ok none)
next_loop limited (suc left) plan =
    let taken = record plan { index = plan.index + 1 } in
    let skipped = next_loop limited left taken in
    let failed = record_failure 429 all_limited_message taken in
    let after_failure = next_loop limited left failed in
    if not (ltb plan.index (slot_count plan))
    then (plan, ok none)
    else elim (slot plan plan.index) [
      | none ↦ (plan, err index_error)
      | some provider ↦
          if not (contains provider.name plan.available)
          then skipped
          else elim (model_of plan.request_model provider.models) [
            | none ↦ (taken, err key_error)
            | some original ↦
                if limited plan.index provider.name original
                then (if length plan.matching_providers == 1
                    then (failed, ok none)
                    else after_failure)
                else (taken, ok (some (record { provider = provider; original_model = original })))
          ]
    ]

unfoldable pub next_provider :
    (ℕ → String → String → Bool)
    → RoutingPlan
    → RoutingPlan × Result PlanError (Option ProviderAttempt)
next_provider limited plan = next_loop limited (slot_count plan - plan.index) plan

unfoldable pub named : String → List Provider → List Provider
named name [] = []
named name (p ∷ ps) = if str_eq p.name name then p ∷ named name ps else named name ps

unfoldable pub restrict_to_provider : String → RoutingPlan → RoutingPlan × Bool
restrict_to_provider name plan = elim (named name plan.matching_providers) [
  | [] ↦ (plan, false)
  | p ∷ ps ↦ (
    record plan { matching_providers = p ∷ ps; retry_count = 0; available = name ∷ []; index = 0 },
    true,
  )
]

-- `planned & refreshed`
unfoldable pub intersect : List String → List String → List String
intersect [] names = []
intersect (n ∷ ns) names = if contains n names then n ∷ intersect ns names else intersect ns names

-- A refresh with the providers that the resolver gives now.
unfoldable pub refresh_matching_providers : List Provider → RoutingPlan → RoutingPlan
refresh_matching_providers providers plan = record plan {
  available = intersect (names_of plan.matching_providers) (names_of providers);
}
