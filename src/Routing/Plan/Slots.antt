-- ===== src/Routing/Plan/Slots.antt =====
-- What one call of `next_provider` gives.
use uni_api.Prelude.{
  ℕ, zero, suc, ◌+◌, ◌%◌, ◌≤◌, ◌<◌, String, ◌≡◌, refl, ◌∙◌, inl, inr, Bool, true, false, not, ◌&&◌,
  Option, none, some, List, [], ◌∷◌, arith, ltb, ◌==◌, Bool-cases, length, get_elem?,
  get_elem?_total, Result, ok,
}
use uni_api.Routing.Plan.{
  Provider, RoutingPlan, ProviderAttempt, PlanError, model_of, contains, record_failure,
  all_limited_message, slot_count, slot, next_loop,
}

-- The models of a list of providers include the requested one, so that its look-up does not fail.
unfoldable pub Serve : String → List Provider → Type 0
Serve model [] = Unit
Serve model (p ∷ ps) =
    ((original : String) × (model_of model p.models ≡ some original)) × Serve model ps

pub record IsReady (plan : RoutingPlan) : Type 0 where
  pub some_provider : 1 ≤ length plan.matching_providers
  pub serve : Serve plan.request_model plan.matching_providers

-- A slot whose provider is available and has a key that is not limited.
unfoldable pub is_eligible : (ℕ → String → String → Bool) → RoutingPlan → ℕ → Bool
is_eligible limited plan k = elim (slot plan k) [
  | none ↦ false
  | some p ↦ elim (model_of plan.request_model p.models) [
    | none ↦ false
    | some original ↦ contains p.name plan.available && not (limited k p.name original)
  ]
]

-- What a call does not change.
pub record Same (p q : RoutingPlan) : Type 0 where
  pub model : q.request_model ≡ p.request_model
  pub start : q.start_index ≡ p.start_index
  pub providers : q.matching_providers ≡ p.matching_providers
  pub retries : q.retry_count ≡ p.retry_count
  pub names : q.available ≡ p.available

pub Same-refl : (p : RoutingPlan) → Same p p
Same-refl p = record { model = refl; start = refl; providers = refl; retries = refl; names = refl }

pub Same-trans : (p q r : RoutingPlan) → Same p q → Same q r → Same p r
Same-trans p q r s t = record {
  model = t.model ∙ s.model;
  start = t.start ∙ s.start;
  providers = t.providers ∙ s.providers;
  retries = t.retries ∙ s.retries;
  names = t.names ∙ s.names;
}

pub is_eligible-Same :
    (limited : ℕ → String → String → Bool) (p q : RoutingPlan) (k : ℕ)
    → Same p q
    → is_eligible limited q k ≡ is_eligible limited p k
unfolding is_eligible
is_eligible-Same limited p q k s = rw (s.model, s.start, s.providers, s.names)

pub IsReady-Same : (p q : RoutingPlan) → Same p q → IsReady p → IsReady q
IsReady-Same p q s v = record {
  some_provider = rw s.providers v.some_provider;
  serve = rw (s.model, s.providers) v.serve;
}

Serve-get_elem? :
    (model : String) (ps : List Provider) (i : ℕ) (p : Provider)
    → Serve model ps
    → get_elem? ps i ≡ some p
    → (original : String) × (model_of model p.models ≡ some original)
unfolding Serve
Serve-get_elem? model [] i p v e = absurd cc
Serve-get_elem? model (q ∷ ps) zero p (v, vs) e = let same : p ≡ q = cc in rw same v
Serve-get_elem? model (q ∷ ps) (suc i) p (v, vs) e = Serve-get_elem? model ps i p vs e

-- In a plan that is ready each slot has a provider, which serves the requested model.
pub slot_total :
    (plan : RoutingPlan) (k : ℕ)
    → IsReady plan
    → (p : Provider) × (original : String) × (slot plan k ≡ some p)
      × (model_of plan.request_model p.models ≡ some original)
slot_total plan k v =
    let i = (plan.start_index + k) % length plan.matching_providers in
    let some_provider = v.some_provider in
    let (p, e) = get_elem?_total plan.matching_providers i (omega (arith, some_provider)) in
    let (original, m) = Serve-get_elem? plan.request_model plan.matching_providers i p v.serve e in
    (p, original, e, m)

-- One round of the loop: the slot at the cursor is offered, or passed over, or ends the loop of a plan
-- with one provider.
pub data Round (limited : ℕ → String → String → Bool) (left : ℕ) (plan : RoutingPlan) : Type 0 where
  offers :
      (p : Provider) (original : String)
      → slot plan plan.index ≡ some p
      → model_of plan.request_model p.models ≡ some original
      → is_eligible limited plan plan.index ≡ true
      → next_loop limited (suc left) plan ≡ (
        record plan { index = plan.index + 1 },
        ok (some (record { provider = p; original_model = original })),
      )
      → Round limited left plan
  passes :
      (q : RoutingPlan)
      → is_eligible limited plan plan.index ≡ false
      → Same plan q
      → q.index ≡ plan.index + 1
      → next_loop limited (suc left) plan ≡ next_loop limited left q
      → Round limited left plan
  stops :
      (q : RoutingPlan)
      → length plan.matching_providers ≡ 1
      → is_eligible limited plan plan.index ≡ false
      → Same plan q
      → q.index ≡ plan.index + 1
      → next_loop limited (suc left) plan ≡ (q, ok none)
      → Round limited left plan

pub round_lem :
    (limited : ℕ → String → String → Bool) (left : ℕ) (plan : RoutingPlan)
    → IsReady plan
    → plan.index < slot_count plan
    → Round limited left plan
unfolding next_loop is_eligible record_failure
round_lem limited left plan v inside =
    let (p, original, at, model) = slot_total plan plan.index v in
    let more : ltb plan.index (slot_count plan) ≡ true = ground arith in
    let taken = record plan { index = plan.index + 1 } in
    let failed = record_failure 429 all_limited_message taken in
    let same : Same plan taken = record {
      model = refl;
      start = refl;
      providers = refl;
      retries = refl;
      names = refl;
    } in
    let same' : Same plan failed = record {
      model = refl;
      start = refl;
      providers = refl;
      retries = refl;
      names = refl;
    } in
    elim (Bool-cases (contains p.name plan.available)) [
      | inr gone ↦
          passes taken (ground (arith, at, model, gone)) same refl (ground (arith, more, at, gone))
      | inl here ↦ elim (Bool-cases (limited plan.index p.name original)) [
        | inr free ↦
            offers p original at model (ground (arith, at, model, here, free))
              (ground (arith, more, at, model, here, free))
        | inl full ↦ elim (Bool-cases (length plan.matching_providers == 1)) [
          | inl one ↦
              stops failed (ground (arith, one)) (ground (arith, at, model, full)) same' refl
                (ground (arith, more, at, model, here, full, one))
          | inr many ↦
              passes failed (ground (arith, at, model, full)) same' refl
                (ground (arith, more, at, model, here, full, many))
        ]
      ]
    ]

-- No slot from the cursor up to `k` is eligible.
abbrev pub NoneBefore : (ℕ → String → String → Bool) → RoutingPlan → ℕ → Type 0
NoneBefore limited plan k = (j : ℕ) → plan.index ≤ j → j < k → is_eligible limited plan j ≡ false

-- What a call does: it offers the next eligible slot; or there is none up to the end; or the plan's only
-- provider is limited and the slots after are not looked at.
pub data Outcome (limited : ℕ → String → String → Bool) (plan : RoutingPlan)
    (r : RoutingPlan × Result PlanError (Option ProviderAttempt)) : Type 0 where
  offered :
      (k : ℕ) (p : Provider) (original : String)
      → plan.index ≤ k
      → k < slot_count plan
      → NoneBefore limited plan k
      → is_eligible limited plan k ≡ true
      → slot plan k ≡ some p
      → model_of plan.request_model p.models ≡ some original
      → Same plan r.0
      → r.0.index ≡ k + 1
      → r.1 ≡ ok (some (record { provider = p; original_model = original }))
      → Outcome limited plan r
  spent :
      NoneBefore limited plan (slot_count plan)
      → Same plan r.0
      → slot_count plan ≤ r.0.index
      → r.1 ≡ ok none
      → Outcome limited plan r
  stopped :
      length plan.matching_providers ≡ 1
      → (k : ℕ) → plan.index ≤ k
      → k < slot_count plan
      → NoneBefore limited plan (k + 1)
      → Same plan r.0
      → r.0.index ≡ k + 1
      → r.1 ≡ ok none
      → Outcome limited plan r
