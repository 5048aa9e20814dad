-- ===== src/Routing/Weights/Lottery.antt =====
-- The lottery gives each name as many tickets as its weight.
use uni_api.Prelude.{
  ℕ, zero, suc, ◌+◌, ◌≤◌, String, ◌≡◌, refl, ◌∙◌, inl, inr, true, false, Option, none, some, List,
  [], ◌∷◌, arith, ltb, if◌then◌else◌, Bool-cases, str_eq, str_eq_iff,
}
use uni_api.Prelude.Int.{ℤ}
use uni_api.Routing.Weights.{weight_items, total_weight, draw, draw_all, lottery_scheduling}
use uni_api.Routing.Weights.Counts.{
  count, has_key, Keys, weight_in, share, weight_items-Keys, weight_in-weight_items,
}

-- The tickets after `s`, in order.
unfoldable pub tickets : ℕ → ℕ → List ℕ
tickets s zero = []
tickets s (suc j) = suc s ∷ tickets (suc s) j

-- `draw_all` from a running total.
draws : ℕ → List (String × ℕ) → List ℕ → Option (List String)
draws r items [] = some []
draws r items (t ∷ ts) = elim (draw r t items) [
  | none ↦ none
  | some name ↦ elim (draws r items ts) [ none ↦ none | some names ↦ some (name ∷ names) ]
]

draw_all-eq-draws : (items : List (String × ℕ)) (ts : List ℕ) → draw_all items ts ≡ draws 0 items ts
unfolding draw_all draws
draw_all-eq-draws items [] = refl
draw_all-eq-draws items (t ∷ ts) = ground (arith, draw_all-eq-draws items ts)

fill : ℕ → String → List String → List String
fill zero n ns = ns
fill (suc j) n ns = n ∷ fill j n ns

-- The names of all tickets: each as often as its weight.
expand : List (String × ℕ) → List String
expand [] = []
expand ((n, w) ∷ ws) = fill w n (expand ws)

draws_beyond :
    (r s j : ℕ) (n : String) (w : ℕ) (ws : List (String × ℕ))
    → r + w ≤ s
    → draws r ((n, w) ∷ ws) (tickets s j) ≡ draws (r + w) ws (tickets s j)
unfolding draws tickets draw
draws_beyond r s zero n w ws h = refl
draws_beyond r s (suc j) n w ws h =
    let over : ltb (r + w) (suc s) ≡ true = ground arith in
    ground (arith, over, draws_beyond r (suc s) j n w ws (omega arith))

draws_within :
    (r s j m : ℕ) (n : String) (w : ℕ) (ws : List (String × ℕ)) (rest : List String)
    → s + j ≡ r + w
    → draws (r + w) ws (tickets (r + w) m) ≡ some rest
    → draws r ((n, w) ∷ ws) (tickets s (j + m)) ≡ some (fill j n rest)
unfolding draws tickets draw fill
draws_within r s zero m n w ws rest h e =
    let here : s ≡ r + w = omega arith in
    let none_here : zero + m ≡ m = omega arith in
    rw (none_here, here) (draws_beyond r (r + w) m n w ws (omega arith) ∙ e)
draws_within r s (suc j) m n w ws rest h e =
    let next : suc j + m ≡ suc (j + m) = omega arith in
    let under : ltb (r + w) (suc s) ≡ false = ground arith in
    let ih = draws_within r (suc s) j m n w ws rest (omega arith) e in
    ground (arith, next, under, ih)

draws-expand :
    (r : ℕ) (items : List (String × ℕ))
    → draws r items (tickets r (total_weight items)) ≡ some (expand items)
unfolding total_weight expand draws tickets
draws-expand r [] = refl
draws-expand r ((n, w) ∷ ws) =
    draws_within r r w (total_weight ws) n w ws (expand ws) refl (draws-expand (r + w) ws)

count-fill :
    (a n : String) (j : ℕ) (ns : List String)
    → count a (fill j n ns) ≡ (if str_eq n a then j else 0) + count a ns
unfolding count fill
count-fill a n zero ns = ground arith
count-fill a n (suc j) ns = ground (arith, count-fill a n j ns)

count_absent :
    (a : String) (items : List (String × ℕ)) → has_key a items ≡ false → count a (expand items) ≡ 0
unfolding count expand has_key
count_absent a [] h = refl
count_absent a ((n, w) ∷ ws) h = ground (arith, count-fill a n w (expand ws), count_absent a ws)

count-expand :
    (a : String) (items : List (String × ℕ))
    → Keys items
    → count a (expand items) ≡ weight_in a items
unfolding expand weight_in Keys count
count-expand a [] v = refl
count-expand a ((n, w) ∷ ws) (new, v) = elim (Bool-cases (str_eq n a)) [
  | inl e ↦
      let gone : has_key a ws ≡ false = rw (← ((str_eq_iff n a).0 e)) new in
      ground (arith, e, count-fill a n w (expand ws), count_absent a ws gone)
  | inr e ↦ ground (arith, e, count-fill a n w (expand ws), count-expand a ws v)
]

-- Each ticket from 1 to the sum of the weights draws a name, and each name is drawn by exactly as many of
-- them as its weight, a name without a positive weight by none.
pub lottery_scheduling-share :
    (weights : List (String × ℤ))
    → Keys weights
    → (names : List String) × (lottery_scheduling weights
          (tickets 0 (total_weight (weight_items weights)))
        ≡ some names)
      × ((a : String) → count a names ≡ share a weights)
unfolding lottery_scheduling
lottery_scheduling-share weights v =
    let items = weight_items weights in
    (
      expand items,
      draw_all-eq-draws items (tickets 0 (total_weight items)) ∙ draws-expand 0 items,
      λ a. count-expand a items (weight_items-Keys weights v) ∙ weight_in-weight_items a weights v,
    )
