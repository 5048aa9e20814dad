-- ===== src/Routing/Weights.antt =====
-- uni_api/routing/core.py: `weighted_round_robin` and `lottery_scheduling`. The dictionary of weights is an
-- association list in the order of insertion. A round-robin round adds to each name before it looks at
-- it, and to no other name, so the additions stand first here. Whether one float quotient is greater than
-- another is the parameter `greater`; the random numbers are a list.
pub mod Counts
pub mod Rounds
pub mod Shares
pub mod RoundRobin
pub mod Lottery
use uni_api.Prelude.{
  ℕ, zero, suc, ◌+◌, String, Bool, true, false, Option, none, some, List, [], ◌∷◌, ltb,
  if◌then◌else◌, str_eq,
}
use uni_api.Prelude.Int.{ℤ, pos, negsuc, ◌+ℤ◌, ◌-ℤ◌}

-- `greater a b c d` is the float comparison `a / b > c / d`.
abbrev pub Greater : Type 0
Greater = ℤ → ℕ → ℤ → ℕ → Bool

-- A name with its weight and its current weight.
pub record Slot : Type 0 where
  pub name : String
  pub weight : ℕ
  pub current : ℤ

-- `_weight_items`: the names whose weight is positive.
unfoldable pub weight_items : List (String × ℤ) → List (String × ℕ)
weight_items [] = []
weight_items ((name, pos zero) ∷ ws) = weight_items ws
weight_items ((name, pos (suc w)) ∷ ws) = (name, suc w) ∷ weight_items ws
weight_items ((name, negsuc w) ∷ ws) = weight_items ws

unfoldable pub total_weight : List (String × ℕ) → ℕ
total_weight [] = 0
total_weight ((name, w) ∷ ws) = w + total_weight ws

unfoldable pub start : List (String × ℕ) → List Slot
start [] = []
start ((name, w) ∷ ws) = record { name = name; weight = w; current = pos 0 } ∷ start ws

-- `current_weights[name] += weights[name]`
unfoldable pub raise_all : List Slot → List Slot
raise_all [] = []
raise_all (s ∷ ss) = record s { current = s.current +ℤ pos s.weight } ∷ raise_all ss

-- `current_weights[selected_provider] -= total_weight`
unfoldable pub charge : String → ℕ → List Slot → List Slot
charge name total [] = []
charge name total (s ∷ ss) =
    (if str_eq s.name name then record s { current = s.current -ℤ pos total } else s)
    ∷ charge name total ss

module _ (greater : Greater) where
  -- The loop over the names, with the greatest quotient so far and its name.
  unfoldable pub select : ℤ → ℕ → Option String → List Slot → Option String
  select c d selected [] = selected
  select c d selected (s ∷ ss) = elim (greater s.current s.weight c d) [
    | true ↦ select s.current s.weight (some s.name) ss
    | false ↦ select c d selected ss
  ]

  -- The rounds; `none` is the `KeyError` of a round that selects nothing.
  unfoldable pub rounds : ℕ → ℕ → List Slot → Option (List String)
  rounds zero total ss = some []
  rounds (suc k) total ss =
      let raised = raise_all ss in
      elim (select (negsuc 0) 1 none raised) [
        | none ↦ none
        | some name ↦ elim (rounds k total (charge name total raised)) [
          | none ↦ none
          | some names ↦ some (name ∷ names)
        ]
      ]

  unfoldable pub weighted_round_robin : List (String × ℤ) → Option (List String)
  weighted_round_robin weights =
      let items = weight_items weights in
      rounds (total_weight items) (total_weight items) (start items)

-- `bisect_left` on the running totals: the first name whose running total is not below the ticket.
unfoldable pub draw : ℕ → ℕ → List (String × ℕ) → Option String
draw running ticket [] = none
draw running ticket ((name, w) ∷ ws) =
    let rest = draw (running + w) ticket ws in if ltb (running + w) ticket then rest else some name

-- One name for each ticket; `none` is the `IndexError` of a ticket beyond the last total.
unfoldable pub draw_all : List (String × ℕ) → List ℕ → Option (List String)
draw_all items [] = some []
draw_all items (t ∷ ts) = elim (draw 0 t items) [
  | none ↦ none
  | some name ↦ elim (draw_all items ts) [ none ↦ none | some names ↦ some (name ∷ names) ]
]

-- `tickets` are the numbers that `randint(1, running_total)` gives.
unfoldable pub lottery_scheduling : List (String × ℤ) → List ℕ → Option (List String)
lottery_scheduling weights tickets = draw_all (weight_items weights) tickets
