-- ===== src/Routing/Weights/Shares.antt =====
-- How much a name gets in some rounds of the weighted round robin.
use uni_api.Prelude.{
  ℕ, zero, suc, ◌+◌, ◌*◌, ◌≤◌, ◌<◌, String, ◌≡◌, refl, ◌∙◌, inl, inr, true, some, List, [], ◌∷◌,
  arith, if◌then◌else◌, Bool-cases, length, str_eq, str_eq_iff,
}
use uni_api.Prelude.Int.{pos, pos_part, neg_part, ◌+ℤ◌, ◌-ℤ◌, ◌≤ℤ◌, int_laws, +ℤ_parts, -ℤ_parts}
use uni_api.Routing.Weights.{Greater, Slot, raise_all, charge, rounds}
use uni_api.Routing.Weights.Counts.{count}
use uni_api.Routing.Weights.Rounds.{
  IsSigned, has, Distinct, Positive, current_of, weight_of, sum_current, sum_weight, sum-raise_all,
  raise_all-Distinct, raise_all-Positive, current-raise_all, weight-raise_all, sum_weight-raise_all,
  charge-Distinct, charge-Positive, weight-charge, sum_weight-charge, current-charge_other,
  current-charge, sum-charge, select-raised,
}

-- What holds between two rounds: the current weights sum to 0.
pub record Balanced (total : ℕ) (ss : List Slot) : Type 0 where
  pub names : Distinct ss
  pub weights : Positive ss
  pub sum : sum_current ss ≡ pos 0
  pub total_is : sum_weight ss ≡ total

-- No name is so far behind that it has taken a whole total too much.
abbrev pub Above : ℕ → List Slot → Type 0
Above total ss =
    (name : String) → neg_part (current_of name ss) < pos_part (current_of name ss) + total

round-Balanced :
    (total : ℕ) (name : String) (ss : List Slot)
    → Balanced total ss
    → has name (raise_all ss) ≡ true
    → Balanced total (charge name total (raise_all ss))
round-Balanced total name ss v found =
    let raised = raise_all ss in
    record {
      names = charge-Distinct name total raised (raise_all-Distinct ss v.names);
      weights = charge-Positive name total raised (raise_all-Positive ss v.weights);
      sum =
          rw
            (
              sum-charge name total raised found (raise_all-Distinct ss v.names),
              sum-raise_all ss,
              v.sum,
              v.total_is,
            )
            (omega int_laws);
      total_is = rw (sum_weight-charge name total raised, sum_weight-raise_all ss) v.total_is;
    }

round-Above :
    (total : ℕ) (name : String) (ss : List Slot)
    → has name (raise_all ss) ≡ true
    → pos 1 ≤ℤ current_of name (raise_all ss)
    → Above total ss
    → Above total (charge name total (raise_all ss))
round-Above total name ss found positive v k =
    let raised = raise_all ss in
    let before = v k in
    let more : current_of k raised ≡ current_of k ss +ℤ pos (weight_of k ss) =
      current-raise_all k ss in
    let sum = +ℤ_parts (current_of k ss) (pos (weight_of k ss)) in
    elim (Bool-cases (str_eq name k)) [
      | inr apart ↦
          rw (current-charge_other name total k raised apart, more) (omega (arith, before, sum))
      | inl same ↦
          let less = current-charge name total raised found in
          let difference = -ℤ_parts (current_of name raised) (pos total) in
          rw (← ((str_eq_iff name k).0 same), less) (omega (arith, positive, difference))
    ]

-- What one more round changes in the bound on a name's share `c`.
share_step :
    (total : ℕ) (name a : String) (k c : ℕ) (ss : List Slot)
    → has name (raise_all ss) ≡ true
    → let next = charge name total (raise_all ss) in
      c * total + neg_part (current_of a next)
        < pos_part (current_of a next) + k * weight_of a next + total
      → ((if str_eq name a then 1 else 0) + c) * total + neg_part (current_of a ss)
        < pos_part (current_of a ss) + suc k * weight_of a ss + total
share_step total name a k c ss found h =
    let raised = raise_all ss in
    let next = charge name total raised in
    let w : weight_of a next ≡ weight_of a ss =
      rw (weight-charge name total a raised) (weight-raise_all a ss) in
    let more = current-raise_all a ss in
    let sum = +ℤ_parts (current_of a ss) (pos (weight_of a ss)) in
    let g : c * total + neg_part (current_of a next)
        < pos_part (current_of a next) + k * weight_of a ss + total =
      rw (← w) h in
    elim (Bool-cases (str_eq name a)) [
      | inr apart ↦
          let same : current_of a next ≡ current_of a ss +ℤ pos (weight_of a ss) =
            current-charge_other name total a raised apart ∙ more in
          let g' = rw same at g in rw apart (omega (arith, g', sum))
      | inl e ↦
          let less : current_of a next ≡ current_of a ss +ℤ pos (weight_of a ss) -ℤ pos total =
            rw (← more)
              (rw (← ((str_eq_iff name a).0 e)) (current-charge name total raised found)) in
          let difference = -ℤ_parts (current_of a ss +ℤ pos (weight_of a ss)) (pos total) in
          let g' = rw less at g in rw e (omega (arith, g', sum, difference))
    ]

-- The shares of `k` rounds: a name takes at most what its weight and its current weight allow.
pub rounds-Balanced :
    (greater : Greater) (k total : ℕ) (ss : List Slot)
    → IsSigned greater
    → Balanced total ss
    → Above total ss
    → 1 ≤ total
    → (names : List String) × (rounds greater k total ss ≡ some names)
      × (length names ≡ k)
      × ((a : String)
          → count a names * total + neg_part (current_of a ss)
            < pos_part (current_of a ss) + k * weight_of a ss + total)
unfolding rounds count
rounds-Balanced greater zero total ss signed v above some_weight =
    ([], refl, refl, λ a. omega (arith, above a))
rounds-Balanced greater (suc k) total ss signed v above some_weight =
    let raised = raise_all ss in
    let (name, selected, found, positive) =
      select-raised greater ss signed v.names v.weights v.sum (rw v.total_is some_weight) in
    let next = charge name total raised in
    let (names, rest, size, shares) =
      rounds-Balanced greater k total next signed (round-Balanced total name ss v found)
        (round-Above total name ss found positive above) some_weight in
    (
      name ∷ names,
      rw (selected, rest, rounds) refl,
      omega (arith, size),
      λ a. share_step total name a k (count a names) ss found (shares a),
    )
