-- ===== src/Tests/Weights.antt =====
-- Tests of the model of the provider schedules of uni_api/routing/core.py.
use uni_api.Prelude.{
  ℕ, zero, suc, ◌*◌, ◌≤◌, String, ◌≡◌, refl, true, false, none, some, List, [], ◌∷◌, ltb, length,
}
use uni_api.Prelude.Int.{ℤ, pos, negsuc, ◌+ℤ◌, ◌-ℤ◌, ◌≤ℤ◌, int_laws}
use uni_api.Routing.Weights.{
  Greater, weight_items, total_weight, start, raise_all, charge, select, rounds,
  weighted_round_robin, draw, draw_all, lottery_scheduling,
}
use uni_api.Routing.Weights.Counts.{count, has_key, Keys, share}
use uni_api.Routing.Weights.Rounds.{IsSigned}
use uni_api.Routing.Weights.RoundRobin.{weighted_round_robin-share}
use uni_api.Routing.Weights.Lottery.{tickets, lottery_scheduling-share}

program : Unit {0}
unfolding weight_items total_weight start raise_all charge select rounds weighted_round_robin draw
    draw_all lottery_scheduling count has_key Keys share tickets ◌+ℤ◌ ◌-ℤ◌
program = tt

-- The comparison of the quotients without rounding.
exact : Greater
exact (pos zero) b (pos c) d = false
exact (pos (suc a)) b (pos zero) d = true
exact (pos (suc a)) b (pos (suc c)) d = ltb (suc c * b) (suc a * d)
exact (pos a) b (negsuc c) d = true
exact (negsuc a) b (pos c) d = false
exact (negsuc a) b (negsuc c) d = ltb (suc a * d) (suc c * b)

exact_above : (a c : ℤ) (b d : ℕ) → pos 1 ≤ℤ a → 1 ≤ b → c ≤ℤ pos 0 → exact a b c d ≡ true
unfolding exact
exact_above (pos zero) c b d ha hb hc = absurd (omega (int_laws, ha))
exact_above (pos (suc a)) (pos zero) b d ha hb hc = refl
exact_above (pos (suc a)) (pos (suc c)) b d ha hb hc = absurd (omega (int_laws, hc))
exact_above (pos (suc a)) (negsuc c) b d ha hb hc = refl
exact_above (negsuc a) c b d ha hb hc = absurd (omega (int_laws, ha))

exact_below : (a c : ℤ) (b d : ℕ) → a ≤ℤ pos 0 → pos 1 ≤ℤ c → 1 ≤ d → exact a b c d ≡ false
unfolding exact
exact_below a (pos zero) b d ha hc hd = absurd (omega (int_laws, hc))
exact_below (pos zero) (pos (suc c)) b d ha hc hd = refl
exact_below (pos (suc a)) (pos (suc c)) b d ha hc hd = absurd (omega (int_laws, ha))
exact_below (negsuc a) (pos (suc c)) b d ha hc hd = refl
exact_below a (negsuc c) b d ha hc hd = absurd (omega (int_laws, hc))

exact-IsSigned : IsSigned exact
exact-IsSigned = record { above = exact_above; below = exact_below }

abbrev weights : List (String × ℤ)
weights = ("azure", pos 3) ∷ ("openai", pos 2) ∷ ("down", pos 0) ∷ []

weights-Keys : Keys weights
unfolding program
weights-Keys = (refl, (refl, (refl, tt)))

interleaved :
    weighted_round_robin exact weights
    ≡ some ("azure" ∷ "openai" ∷ "azure" ∷ "openai" ∷ "azure" ∷ [])
unfolding program exact
interleaved = refl

drawn : lottery_scheduling weights (3 ∷ 4 ∷ 6 ∷ []) ≡ none
unfolding program
drawn = refl

weighted_round_robin-share_example :
    (names : List String) × (weighted_round_robin exact weights ≡ some names)
    × (length names ≡ total_weight (weight_items weights))
    × ((a : String) → count a names ≡ share a weights)
weighted_round_robin-share_example =
    weighted_round_robin-share exact weights exact-IsSigned weights-Keys

lottery_scheduling-share_example :
    (names : List String) × (lottery_scheduling weights
        (tickets 0 (total_weight (weight_items weights)))
      ≡ some names)
    × ((a : String) → count a names ≡ share a weights)
lottery_scheduling-share_example = lottery_scheduling-share weights weights-Keys
