-- ===== src/Routing/Plan/Offers.antt =====
-- `next_provider` offers the next eligible slot of the ring, and ends.
use uni_api.Prelude.{
  ℕ, zero, suc, ◌+◌, ◌-◌, ◌≤◌, ◌<◌, String, ◌≡◌, refl, sym, ◌∙◌, inl, inr, Bool, false, Option,
  arith, ◌==◌, Bool-cases, Result,
}
use uni_api.Routing.Plan.{
  RoutingPlan, ProviderAttempt, PlanError, slot_count, slot, next_loop, next_provider,
}
use uni_api.Routing.Plan.Slots.{
  IsReady, is_eligible, Same, Same-refl, Same-trans, is_eligible-Same, IsReady-Same, offers, passes,
  stops, round_lem, NoneBefore, Outcome, offered, spent, stopped,
}

pub slot-Same : (p q : RoutingPlan) (k : ℕ) → Same p q → slot q k ≡ slot p k
slot-Same p q k s = rw (s.start, s.providers)

slot_count-Same : (p q : RoutingPlan) → Same p q → slot_count q ≡ slot_count p
slot_count-Same p q s = rw (s.providers, s.retries)

-- A slot that is passed over, before those that the rest of the loop passes over.
NoneBefore-pass :
    (limited : ℕ → String → String → Bool) (p q : RoutingPlan) (k : ℕ)
    → Same p q
    → q.index ≡ p.index + 1
    → is_eligible limited p p.index ≡ false
    → NoneBefore limited q k
    → NoneBefore limited p k
NoneBefore-pass limited p q k s next here rest j low high = elim (Bool-cases (j == p.index)) [
  | inl e ↦ let at : j ≡ p.index = ground (arith, e) in rw at here
  | inr e ↦
      let past : q.index ≤ j = ground (arith, e, low, next) in
      sym (is_eligible-Same limited p q j s) ∙ rest j past high
]

Outcome-pass :
    (limited : ℕ → String → String → Bool) (p q : RoutingPlan)
    (r : RoutingPlan × Result PlanError (Option ProviderAttempt))
    → Same p q
    → q.index ≡ p.index + 1
    → is_eligible limited p p.index ≡ false
    → Outcome limited q r
    → Outcome limited p r
Outcome-pass limited p q r s next here
      (offered k provider original low high none_before eligible at model same index result) =
    offered k provider original (omega (arith, low, next)) (rw (← (slot_count-Same p q s)) high)
      (NoneBefore-pass limited p q k s next here none_before)
      (sym (is_eligible-Same limited p q k s) ∙ eligible) (sym (slot-Same p q k s) ∙ at)
      (rw (← s.model) model) (Same-trans p q r.0 s same) index result
Outcome-pass limited p q r s next here (spent none_before same index result) =
    spent
      (NoneBefore-pass limited p q (slot_count p) s next here
        (rw (← (slot_count-Same p q s)) none_before))
      (Same-trans p q r.0 s same) (rw (← (slot_count-Same p q s)) index) result
Outcome-pass limited p q r s next here (stopped one k low high none_before same index result) =
    stopped (rw (← s.providers) one) k (omega (arith, low, next))
      (rw (← (slot_count-Same p q s)) high)
      (NoneBefore-pass limited p q (k + 1) s next here none_before) (Same-trans p q r.0 s same)
      index result

nothing_left :
    (limited : ℕ → String → String → Bool) (plan : RoutingPlan)
    → slot_count plan ≤ plan.index
    → NoneBefore limited plan (slot_count plan)
nothing_left limited plan h j low high = absurd (omega (arith, low, high, h))

none_but_here :
    (limited : ℕ → String → String → Bool) (plan : RoutingPlan)
    → is_eligible limited plan plan.index ≡ false
    → NoneBefore limited plan (plan.index + 1)
none_but_here limited plan here j low high =
    let at : j ≡ plan.index = omega (arith, low, high) in rw at here

next_loop-Outcome :
    (limited : ℕ → String → String → Bool) (left : ℕ) (plan : RoutingPlan)
    → IsReady plan
    → left ≡ slot_count plan - plan.index
    → Outcome limited plan (next_loop limited left plan)
unfolding next_loop
next_loop-Outcome limited zero plan v size =
    let all : slot_count plan ≤ plan.index = omega (arith, size) in
    spent (nothing_left limited plan all) (Same-refl plan) all refl
next_loop-Outcome limited (suc left) plan v size =
    let inside : plan.index < slot_count plan = omega (arith, size) in
    elim (round_lem limited left plan v inside) [
      | offers p original at model eligible e ↦ rw e (
          offered plan.index p original (omega arith) inside
            (λ j low high. absurd (omega (arith, low, high))) eligible at model
            (record { model = refl; start = refl; providers = refl; retries = refl; names = refl })
            refl refl)
      | passes q here same next e ↦
          let size' : left ≡ slot_count q - q.index =
            rw (slot_count-Same plan q same, next) (omega (arith, size)) in
          rw e (
            Outcome-pass limited plan q (next_loop limited left q) same next here
              (next_loop-Outcome limited left q (IsReady-Same plan q same v) size'))
      | stops q one here same next e ↦ rw e (
          stopped one plan.index (omega arith) inside (none_but_here limited plan here) same next
            refl)
    ]

pub next_provider-Outcome :
    (limited : ℕ → String → String → Bool) (plan : RoutingPlan)
    → IsReady plan
    → Outcome limited plan (next_provider limited plan)
unfolding next_provider
next_provider-Outcome limited plan v =
    next_loop-Outcome limited (slot_count plan - plan.index) plan v refl
