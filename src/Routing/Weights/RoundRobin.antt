-- ===== src/Routing/Weights/RoundRobin.antt =====
-- The weighted round robin gives each name exactly its weight.
use uni_api.Prelude.{
  ℕ, zero, suc, ◌+◌, ◌*◌, ◌≤◌, ◌<◌, String, ◌≡◌, refl, sym, ◌∙◌, inl, inr, some, List, [], ◌∷◌,
  arith, ltb, Bool-cases, length,
}
use uni_api.Prelude.Int.{ℤ, pos, negsuc, pos_part, neg_part, int_laws}
use uni_api.Routing.Weights.{
  Greater, Slot, weight_items, total_weight, start, rounds, weighted_round_robin,
}
use uni_api.Routing.Weights.Counts.{
  count, has_key, Keys, weight_in, share, weight_items-Keys, weight_in-weight_items, count-share,
}
use uni_api.Routing.Weights.Rounds.{
  IsSigned, has, Distinct, Positive, current_of, weight_of, sum_current, sum_weight,
}
use uni_api.Routing.Weights.Shares.{Balanced, Above, rounds-Balanced}

has-start : (name : String) (ws : List (String × ℕ)) → has name (start ws) ≡ has_key name ws
unfolding has start has_key
has-start name [] = refl
has-start name ((n, w) ∷ ws) = rw (has-start name ws)

start-Distinct : (ws : List (String × ℕ)) → Keys ws → Distinct (start ws)
unfolding Distinct Keys start
start-Distinct [] v = tt
start-Distinct ((n, w) ∷ ws) (new, v) = (rw (has-start n ws) new, start-Distinct ws v)

weight-start :
    (name : String) (ws : List (String × ℕ)) → weight_of name (start ws) ≡ weight_in name ws
unfolding weight_of weight_in start
weight-start name [] = refl
weight-start name ((n, w) ∷ ws) = rw (weight-start name ws)

current-start : (name : String) (ws : List (String × ℕ)) → current_of name (start ws) ≡ pos 0
unfolding current_of start
current-start name [] = refl
current-start name ((n, w) ∷ ws) = ground (arith, current-start name ws)

sum_current-start : (ws : List (String × ℕ)) → sum_current (start ws) ≡ pos 0
unfolding sum_current start
sum_current-start [] = refl
sum_current-start ((n, w) ∷ ws) = rw (sum_current-start ws) (omega int_laws)

sum_weight-start : (ws : List (String × ℕ)) → sum_weight (start ws) ≡ total_weight ws
unfolding sum_weight total_weight start
sum_weight-start [] = refl
sum_weight-start ((n, w) ∷ ws) = rw (sum_weight-start ws)

start-Positive : (ws : List (String × ℤ)) → Positive (start (weight_items ws))
unfolding Positive start weight_items
start-Positive [] = tt
start-Positive ((n, pos zero) ∷ ws) = start-Positive ws
start-Positive ((n, pos (suc w)) ∷ ws) = (omega arith, start-Positive ws)
start-Positive ((n, negsuc w) ∷ ws) = start-Positive ws

start-Balanced :
    (ws : List (String × ℤ))
    → Keys ws
    → Balanced (total_weight (weight_items ws)) (start (weight_items ws))
start-Balanced ws v =
    let items = weight_items ws in
    record {
      names = start-Distinct items (weight_items-Keys ws v);
      weights = start-Positive ws;
      sum = sum_current-start items;
      total_is = sum_weight-start items;
    }

start-Above : (total : ℕ) (ws : List (String × ℕ)) → 1 ≤ total → Above total (start ws)
start-Above total ws h name = rw (current-start name ws) (omega (arith, h))

rounds_none :
    (greater : Greater) (total : ℕ) (ss : List Slot)
    → total ≡ 0
    → rounds greater total total ss ≡ some []
unfolding rounds
rounds_none greater zero ss e = refl
rounds_none greater (suc total) ss e = absurd (omega arith)

count_nil : (a : String) (ws : List (String × ℕ)) → count a [] ≤ weight_in a ws
unfolding count
count_nil a ws = omega arith

below_next : (c w t : ℕ) → c * t < t * w + t → c ≤ w
below_next c w t h = grind arith

-- The bound on a name after all rounds, from the start.
share_below :
    (a : String) (names : List String) (ws : List (String × ℕ))
    → let total = total_weight ws in
      count a names * total + neg_part (current_of a (start ws))
        < pos_part (current_of a (start ws)) + total * weight_of a (start ws) + total
      → count a names ≤ weight_in a ws
share_below a names ws h =
    below_next (count a names) (weight_in a ws) (total_weight ws)
      (ground (arith, h, current-start a ws, weight-start a ws))

-- The schedule exists, however the quotients are rounded, as long as a positive one is greater than one that
-- is not; it has one entry for each unit of weight, and each name stands in it exactly as often as its
-- weight, a name without a positive weight never.
pub weighted_round_robin-share :
    (greater : Greater) (weights : List (String × ℤ))
    → IsSigned greater
    → Keys weights
    → (names : List String) × (weighted_round_robin greater weights ≡ some names)
      × (length names ≡ total_weight (weight_items weights))
      × ((a : String) → count a names ≡ share a weights)
unfolding weighted_round_robin
weighted_round_robin-share greater weights signed v =
    let items = weight_items weights in
    let total = total_weight items in
    let keys = weight_items-Keys weights v in
    elim (Bool-cases (ltb 0 total)) [
      | inr none_at_all ↦
          let e : total ≡ 0 = ground (arith, none_at_all) in
          (
            [],
            rounds_none greater total (start items) e,
            sym e,
            λ a.
                count-share [] items keys (λ b. count_nil b items) (sym e) a
                ∙ weight_in-weight_items a weights v,
          )
      | inl more ↦
          let some_weight : 1 ≤ total = ground (arith, more) in
          let (names, made, size, bound) =
            rounds-Balanced greater total total (start items) signed (start-Balanced weights v)
              (start-Above total items some_weight) some_weight in
          let below = λ (a : String). share_below a names items (bound a) in
          (
            names,
            made,
            size,
            λ a. count-share names items keys below size a ∙ weight_in-weight_items a weights v,
          )
    ]
