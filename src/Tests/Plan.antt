-- ===== src/Tests/Plan.antt =====
-- Tests of the model of `RoutingPlan` of uni_api/routing/core.py.
use uni_api.Prelude.{
  ℕ, ◌-◌, ◌≤◌, ◌<◌, String, ◌≡◌, refl, Bool, false, some, [], ◌∷◌, arith, length, str_eq, err,
}
use uni_api.Routing.Plan.{
  Provider, RoutingPlan, key_error, model_of, contains, names_of, compute_start_index, sum_items,
  double_count, compute_retry_count, create, record_failure, slot_count, next_loop, next_provider,
  named, restrict_to_provider, intersect, refresh_matching_providers,
}
use uni_api.Routing.Plan.Slots.{Serve, IsReady, is_eligible}
use uni_api.Routing.Plan.Passes.{offer_at, planned, drain, drain-planned}

program : Unit {0}
unfolding model_of contains names_of compute_start_index sum_items double_count compute_retry_count
    create record_failure next_loop next_provider named restrict_to_provider intersect
    refresh_matching_providers is_eligible offer_at planned drain Serve
program = tt

abbrev azure : Provider
azure = record { name = "azure"; models = ("gpt", "gpt-4o-azure") ∷ [] }

abbrev openai : Provider
openai = record { name = "openai"; models = ("gpt", "gpt-4o") ∷ [] }

-- One key for each provider.
abbrev plan : RoutingPlan
plan = create "gpt" 1 (λ name. 1) (azure ∷ openai ∷ [])

-- The keys of one provider are limited.
abbrev azure_limited : ℕ → String → String → Bool
azure_limited k name model = str_eq name "azure"

plan-IsReady : IsReady plan
unfolding program
plan-IsReady = record {
  some_provider = omega arith;
  serve = (("gpt-4o-azure", refl), (("gpt-4o", refl), tt));
}

retries : plan.retry_count ≡ 4
unfolding program
retries = refl

next_start : compute_start_index false 2 (some 1) ≡ (some 0, 0)
unfolding program
next_start = refl

offers :
    drain azure_limited 9 plan
    ≡ record { provider = openai; original_model = "gpt-4o" }
      ∷ record { provider = openai; original_model = "gpt-4o" }
      ∷ record { provider = openai; original_model = "gpt-4o" }
      ∷ []
unfolding program
offers = refl

-- A provider that does not list the requested name
unlisted :
    (next_provider azure_limited (create "gpt*" 0 (λ name. 1) (openai ∷ []))).1 ≡ err key_error
unfolding program
unlisted = refl

restricted : (restrict_to_provider "openai" plan).0.retry_count ≡ 0
unfolding program
restricted = refl

refreshed : (refresh_matching_providers (openai ∷ []) plan).available ≡ "openai" ∷ []
unfolding program
refreshed = refl

enough_calls : slot_count plan - plan.index < 7
unfolding program
enough_calls = omega arith

two_providers : 2 ≤ length plan.matching_providers
unfolding program
two_providers = omega arith

drain-planned_example :
    (drain azure_limited 7 plan
      ≡ planned azure_limited plan plan.index (slot_count plan - plan.index))
    × (length (drain azure_limited 7 plan) ≤ slot_count plan - plan.index)
drain-planned_example = drain-planned azure_limited 7 plan plan-IsReady two_providers enough_calls
