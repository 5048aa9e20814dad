-- ===== src/Routing/Weights/Rounds.antt =====
-- What one round of the weighted round robin selects and charges.
use uni_api.Prelude.{
  ℕ, ◌+◌, ◌≤◌, String, ◌≡◌, refl, ◌⊎◌, inl, inr, Bool, true, false, ◌||◌, Option, none, some, List,
  [], ◌∷◌, arith, ltb, if◌then◌else◌, Bool-cases, str_eq, str_eq_iff, str_eq_refl,
}
use uni_api.Prelude.Int.{ℤ, pos, negsuc, pos_part, ◌+ℤ◌, ◌-ℤ◌, ◌≤ℤ◌, int_laws, +ℤ_parts}
use uni_api.Routing.Weights.{Greater, Slot, raise_all, charge, select}

-- All that is used of the comparison of quotients: a positive one is greater than one that is not.
pub record IsSigned (greater : Greater) : Type 0 where
  pub above : (a c : ℤ) (b d : ℕ) → pos 1 ≤ℤ a → 1 ≤ b → c ≤ℤ pos 0 → greater a b c d ≡ true
  pub below : (a c : ℤ) (b d : ℕ) → a ≤ℤ pos 0 → pos 1 ≤ℤ c → 1 ≤ d → greater a b c d ≡ false

unfoldable pub has : String → List Slot → Bool
has name [] = false
has name (s ∷ ss) = str_eq s.name name || has name ss

-- The keys of a dictionary.
unfoldable pub Distinct : List Slot → Type 0
Distinct [] = Unit
Distinct (s ∷ ss) = (has s.name ss ≡ false) × Distinct ss

unfoldable pub Positive : List Slot → Type 0
Positive [] = Unit
Positive (s ∷ ss) = (1 ≤ s.weight) × Positive ss

unfoldable pub current_of : String → List Slot → ℤ
current_of name [] = pos 0
current_of name (s ∷ ss) = if str_eq s.name name then s.current else current_of name ss

unfoldable pub weight_of : String → List Slot → ℕ
weight_of name [] = 0
weight_of name (s ∷ ss) = if str_eq s.name name then s.weight else weight_of name ss

unfoldable pub sum_current : List Slot → ℤ
sum_current [] = pos 0
sum_current (s ∷ ss) = s.current +ℤ sum_current ss

unfoldable pub sum_weight : List Slot → ℕ
sum_weight [] = 0
sum_weight (s ∷ ss) = s.weight + sum_weight ss

unfoldable pub any_positive : List Slot → Bool
any_positive [] = false
any_positive (s ∷ ss) = ltb 0 (pos_part s.current) || any_positive ss

pub sum-raise_all :
    (ss : List Slot) → sum_current (raise_all ss) ≡ sum_current ss +ℤ pos (sum_weight ss)
unfolding sum_current sum_weight raise_all
sum-raise_all [] = omega int_laws
sum-raise_all (s ∷ ss) = rw (sum-raise_all ss) (omega int_laws)

pub any_positive_lem : (ss : List Slot) → pos 1 ≤ℤ sum_current ss → any_positive ss ≡ true
unfolding any_positive sum_current
any_positive_lem [] h = absurd (omega arith)
any_positive_lem (s ∷ ss) h =
    ground (arith, any_positive_lem ss, +ℤ_parts s.current (sum_current ss))

pub has-raise_all : (name : String) (ss : List Slot) → has name (raise_all ss) ≡ has name ss
unfolding has raise_all
has-raise_all name [] = refl
has-raise_all name (s ∷ ss) = rw (has-raise_all name ss)

pub raise_all-Distinct : (ss : List Slot) → Distinct ss → Distinct (raise_all ss)
unfolding Distinct raise_all
raise_all-Distinct [] v = tt
raise_all-Distinct (s ∷ ss) (new, v) = (rw (has-raise_all s.name ss) new, raise_all-Distinct ss v)

pub raise_all-Positive : (ss : List Slot) → Positive ss → Positive (raise_all ss)
unfolding Positive raise_all
raise_all-Positive [] v = tt
raise_all-Positive (s ∷ ss) (p, v) = (p, raise_all-Positive ss v)

pub current-raise_all :
    (name : String) (ss : List Slot)
    → current_of name (raise_all ss) ≡ current_of name ss +ℤ pos (weight_of name ss)
unfolding current_of weight_of raise_all
current-raise_all name [] = omega int_laws
current-raise_all name (s ∷ ss) = elim (Bool-cases (str_eq s.name name)) [
  | inl e ↦ rw e refl
  | inr e ↦ rw e (current-raise_all name ss)
]

pub weight-raise_all :
    (name : String) (ss : List Slot) → weight_of name (raise_all ss) ≡ weight_of name ss
unfolding weight_of raise_all
weight-raise_all name [] = refl
weight-raise_all name (s ∷ ss) = rw (weight-raise_all name ss)

pub sum_weight-raise_all : (ss : List Slot) → sum_weight (raise_all ss) ≡ sum_weight ss
unfolding sum_weight raise_all
sum_weight-raise_all [] = refl
sum_weight-raise_all (s ∷ ss) = rw (sum_weight-raise_all ss)

-- What a charge keeps, and what it takes.
module _ (name : String) (total : ℕ) where
  pub has-charge : (k : String) (ss : List Slot) → has k (charge name total ss) ≡ has k ss
  unfolding has charge
  has-charge k [] = refl
  has-charge k (s ∷ ss) = elim (Bool-cases (str_eq s.name name)) [
    | inl e ↦ rw (e, has-charge k ss)
    | inr e ↦ rw (e, has-charge k ss)
  ]

  pub charge-Distinct : (ss : List Slot) → Distinct ss → Distinct (charge name total ss)
  unfolding Distinct charge
  charge-Distinct [] v = tt
  charge-Distinct (s ∷ ss) (new, v) = elim (Bool-cases (str_eq s.name name)) [
    | inl e ↦ rw (e, has-charge s.name ss) (new, charge-Distinct ss v)
    | inr e ↦ rw (e, has-charge s.name ss) (new, charge-Distinct ss v)
  ]

  pub charge-Positive : (ss : List Slot) → Positive ss → Positive (charge name total ss)
  unfolding Positive charge
  charge-Positive [] v = tt
  charge-Positive (s ∷ ss) (p, v) = elim (Bool-cases (str_eq s.name name)) [
    | inl e ↦ rw e (p, charge-Positive ss v)
    | inr e ↦ rw e (p, charge-Positive ss v)
  ]

  pub weight-charge :
      (k : String) (ss : List Slot) → weight_of k (charge name total ss) ≡ weight_of k ss
  unfolding weight_of charge
  weight-charge k [] = refl
  weight-charge k (s ∷ ss) = elim (Bool-cases (str_eq s.name name)) [
    | inl e ↦ rw (e, weight-charge k ss)
    | inr e ↦ rw (e, weight-charge k ss)
  ]

  pub sum_weight-charge : (ss : List Slot) → sum_weight (charge name total ss) ≡ sum_weight ss
  unfolding sum_weight charge
  sum_weight-charge [] = refl
  sum_weight-charge (s ∷ ss) = elim (Bool-cases (str_eq s.name name)) [
    | inl e ↦ rw (e, sum_weight-charge ss)
    | inr e ↦ rw (e, sum_weight-charge ss)
  ]

  -- Each name but the charged one keeps its current weight.
  pub current-charge_other :
      (k : String) (ss : List Slot)
      → str_eq name k ≡ false
      → current_of k (charge name total ss) ≡ current_of k ss
  unfolding current_of charge
  current-charge_other k [] ne = refl
  current-charge_other k (s ∷ ss) ne = elim (Bool-cases (str_eq s.name name)) [
    | inl e ↦
        let apart : str_eq s.name k ≡ false = rw ((str_eq_iff s.name name).0 e) ne in
        rw (e, apart) (current-charge_other k ss ne)
    | inr e ↦ rw (e, current-charge_other k ss ne)
  ]

  charge_absent : (ss : List Slot) → has name ss ≡ false → charge name total ss ≡ ss
  unfolding has charge
  charge_absent [] h = refl
  charge_absent (s ∷ ss) h = ground (arith, charge_absent ss)

  pub current-charge :
      (ss : List Slot)
      → has name ss ≡ true
      → current_of name (charge name total ss) ≡ current_of name ss -ℤ pos total
  unfolding has current_of charge
  current-charge [] h = cc
  current-charge (s ∷ ss) h = elim (Bool-cases (str_eq s.name name)) [
    | inl e ↦ rw (e, e)
    | inr e ↦ rw (e, e) (current-charge ss (ground (arith, e)))
  ]

  pub sum-charge :
      (ss : List Slot)
      → has name ss ≡ true
      → Distinct ss
      → sum_current (charge name total ss) ≡ sum_current ss -ℤ pos total
  unfolding has sum_current charge Distinct
  sum-charge [] h v = cc
  sum-charge (s ∷ ss) h (new, v) = elim (Bool-cases (str_eq s.name name)) [
    | inl e ↦
        let gone : has name ss ≡ false = rw (← ((str_eq_iff s.name name).0 e)) new in
        rw (e, charge_absent ss gone) (omega int_laws)
    | inr e ↦ rw (e, sum-charge ss (ground (arith, e)) v) (omega int_laws)
  ]

-- A name that the selection takes, with a positive current weight.
Taken : Option String → List Slot → Type 0
Taken selected ss =
    (name : String) × (selected ≡ some name) × (has name ss ≡ true) × (pos 1 ≤ℤ current_of name ss)

Taken-tail :
    (o : Option String) (s : Slot) (ss : List Slot)
    → has s.name ss ≡ false
    → Taken o ss
    → Taken o (s ∷ ss)
unfolding Taken has current_of
Taken-tail o s ss new (name, same, found, positive) = elim (Bool-cases (str_eq s.name name)) [
  | inl e ↦ absurd (cc (found, new, (str_eq_iff s.name name).0 e))
  | inr e ↦ (name, same, ground (arith, found, e), rw e positive)
]

Taken-head :
    (o : Option String) (s : Slot) (ss : List Slot)
    → o ≡ some s.name
    → pos 1 ≤ℤ s.current
    → Taken o (s ∷ ss)
unfolding Taken has current_of
Taken-head o s ss same positive =
    let here = str_eq_refl s.name in (s.name, same, rw here refl, rw here positive)

sign_cases : (c : ℤ) → (pos 1 ≤ℤ c) ⊎ (c ≤ℤ pos 0)
sign_cases c = omega arith

-- The selection takes a name whose current weight is positive, if there is one.
select-Taken :
    (greater : Greater) (c : ℤ) (d : ℕ) (selected : Option String) (ss : List Slot)
    → IsSigned greater
    → Distinct ss
    → Positive ss
    → 1 ≤ d
    → (pos 1 ≤ℤ c) ⊎ ((c ≤ℤ pos 0) × (any_positive ss ≡ true))
    → ((pos 1 ≤ℤ c) × (select greater c d selected ss ≡ selected))
      ⊎ Taken (select greater c d selected ss) ss
unfolding select Distinct Positive any_positive
select-Taken greater c d selected [] signed v p hd (inl h) = inl (h, refl)
select-Taken greater c d selected [] signed v p hd (inr (h, some_positive)) = absurd cc
select-Taken greater c d selected (s ∷ ss) signed (new, v) (one, p) hd h =
    elim (Bool-cases (greater s.current s.weight c d)) [
      | inl e ↦ elim (sign_cases s.current) [
        | inl positive ↦
            elim (select-Taken greater s.current s.weight (some s.name) ss signed v p one
              (inl positive)) [
                | inl (_, same) ↦ inr (rw (e, select) (Taken-head _ s ss same positive))
                | inr taken ↦ inr (rw (e, select) (Taken-tail _ s ss new taken))
              ]
        | inr negative ↦ elim h [
          | inl high ↦ absurd (cc (e, signed.below s.current c s.weight d negative high hd))
          | inr (low, some_positive) ↦
              elim (select-Taken greater s.current s.weight (some s.name) ss signed v p one
                (inr (negative, ground (arith, some_positive, negative)))) [
                  | inl (positive, same) ↦ absurd (omega (arith, positive, negative))
                  | inr taken ↦ inr (rw (e, select) (Taken-tail _ s ss new taken))
                ]
        ]
      ]
      | inr e ↦ elim h [
        | inl high ↦ elim (select-Taken greater c d selected ss signed v p hd (inl high)) [
          | inl (_, same) ↦ inl (high, rw (e, select) same)
          | inr taken ↦ inr (rw (e, select) (Taken-tail _ s ss new taken))
        ]
        | inr (low, some_positive) ↦ elim (sign_cases s.current) [
          | inl positive ↦ absurd (cc (e, signed.above s.current c s.weight d positive one low))
          | inr negative ↦
              elim (select-Taken greater c d selected ss signed v p hd
                (inr (low, ground (arith, some_positive, negative)))) [
                  | inl (high, same) ↦ absurd (omega (arith, high, low))
                  | inr taken ↦ inr (rw (e, select) (Taken-tail _ s ss new taken))
                ]
        ]
      ]
    ]

-- A round on names whose current weights sum to 0 selects one that is positive after the additions.
pub select-raised :
    (greater : Greater) (ss : List Slot)
    → IsSigned greater
    → Distinct ss
    → Positive ss
    → sum_current ss ≡ pos 0
    → 1 ≤ sum_weight ss
    → (name : String) × (select greater (negsuc 0) 1 none (raise_all ss) ≡ some name)
      × (has name (raise_all ss) ≡ true)
      × (pos 1 ≤ℤ current_of name (raise_all ss))
unfolding Taken
select-raised greater ss signed v p zero_sum some_weight =
    let raised = raise_all ss in
    let sum : pos 1 ≤ℤ sum_current raised =
      rw (sum-raise_all ss, zero_sum) (omega (arith, +ℤ_parts (pos 0) (pos (sum_weight ss)))) in
    elim (select-Taken greater (negsuc 0) 1 none raised signed (raise_all-Distinct ss v)
      (raise_all-Positive ss p) (omega arith) (inr (omega arith, any_positive_lem raised sum))) [
        | inl (absent, _) ↦ absurd (omega (arith, absent))
        | inr taken ↦ taken
      ]
