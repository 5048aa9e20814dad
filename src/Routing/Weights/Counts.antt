-- ===== src/Routing/Weights/Counts.antt =====
-- How often each name of a dictionary of weights stands in a list.
use uni_api.Prelude.{
  ℕ, zero, suc, ◌+◌, ◌≤◌, String, ◌≡◌, refl, ◌∙◌, inl, inr, Bool, true, false, ◌||◌, List, [], ◌∷◌,
  arith, if◌then◌else◌, Bool-cases, length, str_eq, str_eq_iff, str_eq_refl,
}
use uni_api.Prelude.Int.{ℤ, pos, negsuc, pos_part}
use uni_api.Routing.Weights.{weight_items, total_weight}

unfoldable pub count : String → List String → ℕ
count name [] = 0
count name (n ∷ ns) = (if str_eq n name then 1 else 0) + count name ns

unfoldable pub has_key {ℓ} : {W : Type ℓ} → String → List (String × W) → Bool
has_key name [] = false
has_key name ((n, w) ∷ ws) = str_eq n name || has_key name ws

-- The keys of a dictionary are distinct.
unfoldable pub Keys {ℓ} : {W : Type ℓ} → List (String × W) → Type 0
Keys [] = Unit
Keys ((n, w) ∷ ws) = (has_key n ws ≡ false) × Keys ws

unfoldable pub weight_in : String → List (String × ℕ) → ℕ
weight_in name [] = 0
weight_in name ((n, w) ∷ ws) = if str_eq n name then w else weight_in name ws

-- The weight of a name, or 0 if it has none or a negative one.
unfoldable pub share : String → List (String × ℤ) → ℕ
share name [] = 0
share name ((n, w) ∷ ws) = if str_eq n name then pos_part w else share name ws

absent_weight :
    (name : String) (ws : List (String × ℤ))
    → has_key name ws ≡ false
    → has_key name (weight_items ws) ≡ false
unfolding has_key weight_items
absent_weight name [] h = refl
absent_weight name ((n, pos zero) ∷ ws) h = absent_weight name ws (ground arith)
absent_weight name ((n, pos (suc w)) ∷ ws) h = ground (arith, absent_weight name ws)
absent_weight name ((n, negsuc w) ∷ ws) h = absent_weight name ws (ground arith)

pub weight_items-Keys : (ws : List (String × ℤ)) → Keys ws → Keys (weight_items ws)
unfolding Keys weight_items
weight_items-Keys [] v = tt
weight_items-Keys ((n, pos zero) ∷ ws) (new, v) = weight_items-Keys ws v
weight_items-Keys ((n, pos (suc w)) ∷ ws) (new, v) =
    (absent_weight n ws new, weight_items-Keys ws v)
weight_items-Keys ((n, negsuc w) ∷ ws) (new, v) = weight_items-Keys ws v

pub weight_in_absent :
    (name : String) (ws : List (String × ℕ)) → has_key name ws ≡ false → weight_in name ws ≡ 0
unfolding has_key weight_in
weight_in_absent name [] h = refl
weight_in_absent name ((n, w) ∷ ws) h = ground (arith, weight_in_absent name ws)

pub weight_in-weight_items :
    (name : String) (ws : List (String × ℤ))
    → Keys ws
    → weight_in name (weight_items ws) ≡ share name ws
unfolding Keys weight_in weight_items share
weight_in-weight_items name [] v = refl
weight_in-weight_items name ((n, pos (suc w)) ∷ ws) (new, v) = rw (weight_in-weight_items name ws v)
weight_in-weight_items name ((n, pos zero) ∷ ws) (new, v) = elim (Bool-cases (str_eq n name)) [
  | inl e ↦ rw e (
      weight_in_absent name (weight_items ws)
        (absent_weight name ws (rw (← ((str_eq_iff n name).0 e)) new)))
  | inr e ↦ rw e (weight_in-weight_items name ws v)
]
weight_in-weight_items name ((n, negsuc w) ∷ ws) (new, v) = elim (Bool-cases (str_eq n name)) [
  | inl e ↦ rw e (
      weight_in_absent name (weight_items ws)
        (absent_weight name ws (rw (← ((str_eq_iff n name).0 e)) new)))
  | inr e ↦ rw e (weight_in-weight_items name ws v)
]

-- The names of a list that stand under a key.
unfoldable pub count_keys : List (String × ℕ) → List String → ℕ
count_keys [] ns = 0
count_keys ((n, w) ∷ ws) ns = count n ns + count_keys ws ns

count_keys_nil : (ws : List (String × ℕ)) → count_keys ws [] ≡ 0
unfolding count_keys count
count_keys_nil [] = refl
count_keys_nil ((n, w) ∷ ws) = omega (arith, count_keys_nil ws)

count_keys_absent :
    (n : String) (ns : List String) (ws : List (String × ℕ))
    → has_key n ws ≡ false
    → count_keys ws (n ∷ ns) ≡ count_keys ws ns
unfolding count_keys count has_key
count_keys_absent n ns [] h = refl
count_keys_absent n ns ((m, w) ∷ ws) h =
    ground (arith, count_keys_absent n ns ws, str_eq_iff m n, str_eq_iff n m)

count_keys_cons :
    (n : String) (ns : List String) (ws : List (String × ℕ))
    → has_key n ws ≡ true
    → Keys ws
    → count_keys ws (n ∷ ns) ≡ suc (count_keys ws ns)
unfolding count_keys count has_key Keys
count_keys_cons n ns [] h v = cc
count_keys_cons n ns ((m, w) ∷ ws) h (new, v) = elim (Bool-cases (str_eq m n)) [
  | inl e ↦
      let same = (str_eq_iff m n).0 e in
      let gone : has_key n ws ≡ false = rw (← same) new in
      let here : str_eq n m ≡ true = rw same (str_eq_refl n) in
      rw (here, count_keys_absent n ns ws gone) (omega arith)
  | inr e ↦ ground (arith, e, str_eq_iff m n, str_eq_iff n m, count_keys_cons n ns ws)
]

-- A list in which no name stands more often than its weight is counted by the keys.
count_keys-length :
    (ns : List String) (ws : List (String × ℕ))
    → Keys ws
    → ((a : String) → count a ns ≤ weight_in a ws)
    → count_keys ws ns ≡ length ns
unfolding count
count_keys-length [] ws v h = count_keys_nil ws
count_keys-length (n ∷ ns) ws v h =
    let rest = count_keys-length ns ws v (λ a. omega (arith, h a)) in
    let bound = h n in
    let one : 1 ≤ weight_in n ws = ground (arith, bound, str_eq_refl n) in
    elim (Bool-cases (has_key n ws)) [
      | inl found ↦ rw (count_keys_cons n ns ws found v) (omega (arith, rest))
      | inr gone ↦ absurd (omega (arith, one, weight_in_absent n ws gone))
    ]

-- Two ways to list the keys' shares, where the first nowhere exceeds the second.
share_bounds :
    (ns : List String) (ws : List (String × ℕ))
    → Keys ws
    → ((a : String) → has_key a ws ≡ true → count a ns ≤ weight_in a ws)
    → (count_keys ws ns ≤ total_weight ws)
      × (count_keys ws ns ≡ total_weight ws
          → (a : String) → has_key a ws ≡ true
          → count a ns ≡ weight_in a ws)
unfolding Keys has_key weight_in count_keys total_weight
share_bounds ns [] v h = (omega arith, λ e a found. absurd cc)
share_bounds ns ((n, w) ∷ ws) (new, v) h =
    let first : count n ns ≤ w = ground (arith, h n, str_eq_refl n) in
    let (below, exact) = share_bounds ns ws v (λ a found. elim (Bool-cases (str_eq n a)) [
      | inl e ↦ absurd (cc (found, new, (str_eq_iff n a).0 e))
      | inr e ↦ ground (arith, h a, found, e)
    ]) in
    (
      omega (arith, first, below),
      λ e a found. elim (Bool-cases (str_eq n a)) [
        | inl same ↦ rw same (rw (← ((str_eq_iff n a).0 same)) (omega (arith, e, first, below)))
        | inr apart ↦
            rw apart (exact (omega (arith, e, first, below)) a (ground (arith, found, apart)))
      ],
    )

-- If besides there are as many names as the weights sum to, each stands as often as its weight.
pub count-share :
    (ns : List String) (ws : List (String × ℕ))
    → Keys ws
    → ((a : String) → count a ns ≤ weight_in a ws)
    → length ns ≡ total_weight ws
    → (a : String) → count a ns ≡ weight_in a ws
count-share ns ws v h size a =
    let (below, exact) = share_bounds ns ws v (λ b found. h b) in
    elim (Bool-cases (has_key a ws)) [
      | inl found ↦ exact (count_keys-length ns ws v h ∙ size) a found
      | inr gone ↦ omega (arith, h a, weight_in_absent a ws gone)
    ]
