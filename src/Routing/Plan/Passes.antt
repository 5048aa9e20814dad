-- ===== src/Routing/Plan/Passes.antt =====
-- Consecutive calls of `next_provider` pass once over the planned slots.
use uni_api.Prelude.{
  ℕ, zero, suc, ◌+◌, ◌-◌, ◌≤◌, ◌<◌, String, ◌≡◌, refl, sym, ap, ◌∙◌, inl, inr, Bool, true, false,
  not, none, some, List, [], ◌∷◌, ◌++◌, arith, if◌then◌else◌, Option-cases, length, length-append,
  ok,
}
use uni_api.Routing.Plan.{
  Provider, RoutingPlan, ProviderAttempt, model_of, slot_count, slot, next_provider,
}
use uni_api.Routing.Plan.Slots.{
  IsReady, is_eligible, Same, is_eligible-Same, IsReady-Same, NoneBefore, offered, spent, stopped,
}
use uni_api.Routing.Plan.Offers.{slot-Same, next_provider-Outcome}

-- What is offered for a slot.
unfoldable pub offer_at : (ℕ → String → String → Bool) → RoutingPlan → ℕ → List ProviderAttempt
offer_at limited plan k = if not (is_eligible limited plan k) then [] else elim (slot plan k) [
  | none ↦ []
  | some p ↦ elim (model_of plan.request_model p.models) [
    | none ↦ []
    | some original ↦ record { provider = p; original_model = original } ∷ []
  ]
]

-- The offers of the slots from `k` on, in order.
unfoldable pub planned : (ℕ → String → String → Bool) → RoutingPlan → ℕ → ℕ → List ProviderAttempt
planned limited plan k zero = []
planned limited plan k (suc left) = offer_at limited plan k ++ planned limited plan (k + 1) left

-- Calls until one offers nothing, at most as many as the fuel.
unfoldable pub drain : (ℕ → String → String → Bool) → ℕ → RoutingPlan → List ProviderAttempt
drain limited zero plan = []
drain limited (suc fuel) plan =
    let (next, result) = next_provider limited plan in
    let rest = drain limited fuel next in
    elim result [ ok (some attempt) ↦ attempt ∷ rest | _ ↦ [] ]

module _ (limited : ℕ → String → String → Bool) where
  offer_at-Same :
      (p q : RoutingPlan) (k : ℕ) → Same p q → offer_at limited q k ≡ offer_at limited p k
  unfolding offer_at
  offer_at-Same p q k s =
      let eligible = is_eligible-Same limited p q k s in
      let at : slot q k ≡ slot p k = slot-Same p q k s in
      elim (Option-cases (slot p k)) [
        | inl e ↦ ground (arith, eligible, at, e)
        | inr (provider, e) ↦ ground (arith, eligible, at, e, s.model)
      ]

  planned-Same :
      (p q : RoutingPlan) (k left : ℕ)
      → Same p q
      → planned limited q k left ≡ planned limited p k left
  unfolding planned
  planned-Same p q k zero s = refl
  planned-Same p q k (suc left) s = rw (offer_at-Same p q k s, planned-Same p q (k + 1) left s)

  -- Slots that are not eligible are left out.
  planned_skip :
      (plan : RoutingPlan) (k d left : ℕ)
      → ((j : ℕ) → k ≤ j → j < k + d → is_eligible limited plan j ≡ false)
      → planned limited plan k (d + left) ≡ planned limited plan (k + d) left
  unfolding planned offer_at
  planned_skip plan k zero left h = ground arith
  planned_skip plan k (suc d) left h =
      let here : is_eligible limited plan k ≡ false = h k (omega arith) (omega arith) in
      let size : suc d + left ≡ suc (d + left) = omega arith in
      let place : k + 1 + d ≡ k + suc d = omega arith in
      let rest =
        planned_skip plan (k + 1) d left
          (λ j low high. h j (omega (arith, low)) (omega (arith, high))) in
      rw (size, here) (rest ∙ ap (λ i. planned limited plan i left) place)

  offer_at_lem :
      (plan : RoutingPlan) (k : ℕ) (p : Provider) (original : String)
      → is_eligible limited plan k ≡ true
      → slot plan k ≡ some p
      → model_of plan.request_model p.models ≡ some original
      → offer_at limited plan k ≡ record { provider = p; original_model = original } ∷ []
  unfolding offer_at
  offer_at_lem plan k p original eligible at model = ground (arith, eligible, at, model)

  -- The offers from the cursor on, where `k` is the first eligible slot.
  planned_first :
      (plan : RoutingPlan) (k : ℕ) (p : Provider) (original : String)
      → plan.index ≤ k
      → k < slot_count plan
      → NoneBefore limited plan k
      → is_eligible limited plan k ≡ true
      → slot plan k ≡ some p
      → model_of plan.request_model p.models ≡ some original
      → planned limited plan plan.index (slot_count plan - plan.index)
        ≡ record { provider = p; original_model = original }
          ∷ planned limited plan (k + 1) (slot_count plan - (k + 1))
  unfolding planned
  planned_first plan k p original low high none_before eligible at model =
      let left = slot_count plan - (k + 1) in
      let size : slot_count plan - plan.index ≡ k - plan.index + suc left = omega arith in
      let place : plan.index + (k - plan.index) ≡ k = omega arith in
      let skip =
        planned_skip plan plan.index (k - plan.index) (suc left)
          (λ j from to. none_before j from (omega (arith, to, place))) in
      rw size (skip ∙ rw place (rw (offer_at_lem plan k p original eligible at model) refl))

  planned_none :
      (plan : RoutingPlan)
      → NoneBefore limited plan (slot_count plan)
      → planned limited plan plan.index (slot_count plan - plan.index) ≡ []
  unfolding planned
  planned_none plan none_before =
      let left = slot_count plan - plan.index in
      let size : left ≡ left + 0 = omega arith in
      rw size (
        planned_skip plan plan.index left 0
          (λ j from to. none_before j from (omega (arith, from, to))))

  drain-some :
      (fuel : ℕ) (plan : RoutingPlan) (attempt : ProviderAttempt)
      → (next_provider limited plan).1 ≡ ok (some attempt)
      → drain limited (suc fuel) plan ≡ attempt ∷ drain limited fuel (next_provider limited plan).0
  unfolding drain
  drain-some fuel plan attempt e = ground (arith, e)

  drain-none :
      (fuel : ℕ) (plan : RoutingPlan)
      → (next_provider limited plan).1 ≡ ok none
      → drain limited (suc fuel) plan ≡ []
  unfolding drain
  drain-none fuel plan e = ground (arith, e)

  drain-planned_only :
      (fuel : ℕ) (plan : RoutingPlan)
      → IsReady plan
      → 2 ≤ length plan.matching_providers
      → slot_count plan - plan.index < fuel
      → drain limited fuel plan ≡ planned limited plan plan.index (slot_count plan - plan.index)
  drain-planned_only zero plan v many enough = absurd (omega (arith, enough))
  drain-planned_only (suc fuel) plan v many enough = elim (next_provider-Outcome limited plan v) [
    | offered k p original low high none_before eligible at model same index result ↦
        let next = (next_provider limited plan).0 in
        let total : slot_count next ≡ slot_count plan = rw (same.providers, same.retries) in
        let ih =
          drain-planned_only fuel next (IsReady-Same plan next same v) (rw same.providers many)
            (rw (total, index) (omega (arith, enough, low, high))) in
        let rest : drain limited fuel next
            ≡ planned limited plan (k + 1) (slot_count plan - (k + 1)) =
          ih
          ∙ rw (total, index) (planned-Same plan next (k + 1) (slot_count plan - (k + 1)) same) in
        drain-some fuel plan (record { provider = p; original_model = original }) result
        ∙ ap (◌∷◌ (record { provider = p; original_model = original })) rest
        ∙ sym (planned_first plan k p original low high none_before eligible at model)
    | spent none_before same index result ↦
        drain-none fuel plan result ∙ sym (planned_none plan none_before)
    | stopped one k low high none_before same index result ↦ absurd (omega (arith, one, many))
  ]

  length-planned : (plan : RoutingPlan) (k left : ℕ) → length (planned limited plan k left) ≤ left
  unfolding planned offer_at
  length-planned plan k zero = omega arith
  length-planned plan k (suc left) =
      let rest = length-planned plan (k + 1) left in
      let sum = length-append (offer_at limited plan k) (planned limited plan (k + 1) left) in
      ground (arith, rest, sum)

  -- In a plan of two providers or more, which all serve the requested model, consecutive calls with no
  -- refresh and no restriction between them, as many as there are slots left and one more, offer
  -- exactly the eligible slots from the cursor to the end of the plan, each once and in the order of the
  -- ring; so there are at most as many offers as slots left.
  pub drain-planned :
      (fuel : ℕ) (plan : RoutingPlan)
      → IsReady plan
      → 2 ≤ length plan.matching_providers
      → slot_count plan - plan.index < fuel
      → (drain limited fuel plan ≡ planned limited plan plan.index (slot_count plan - plan.index))
        × (length (drain limited fuel plan) ≤ slot_count plan - plan.index)
  drain-planned fuel plan v many enough =
      let all = drain-planned_only fuel plan v many enough in
      (all, rw all (length-planned plan plan.index (slot_count plan - plan.index)))
