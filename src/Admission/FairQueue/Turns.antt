-- ===== src/Admission/FairQueue/Turns.antt =====
-- The tenants with a queue, and the turns of the round robin.
use uni_api.Prelude.{
  ℕ, String, ◌≡◌, ◌≢◌, inl, inr, Bool, true, false, ◌||◌, none, List, [], ◌∷◌, ◌++◌, arith,
  Bool-cases, str_eq, str_eq_iff, str_eq_refl,
}
use uni_api.Admission.FairQueue.{Queues, queue_of, put_queue, pop_queue}

unfoldable pub has_turn : String → List String → Bool
has_turn tenant [] = false
has_turn tenant (t ∷ ts) = str_eq t tenant || has_turn tenant ts

-- The keys of the dictionary are distinct.
unfoldable pub Tenants : Queues → Type 0
Tenants [] = Unit
Tenants ((t, ws) ∷ qs) = (queue_of t qs ≡ none) × Tenants qs

-- Every tenant with a queue has a turn.
unfoldable pub Covered : List String → Queues → Type 0
Covered turns [] = Unit
Covered turns ((t, ws) ∷ qs) = (has_turn t turns ≡ true) × Covered turns qs

has_turn-append :
    (tenant t : String) (ts : List String)
    → has_turn tenant (ts ++ t ∷ []) ≡ (has_turn tenant ts || str_eq t tenant)
unfolding has_turn
has_turn-append tenant t [] = ground arith
has_turn-append tenant t (u ∷ ts) = ground (arith, has_turn-append tenant t ts)

-- A turn moves to the end of the round robin.
pub Covered-rotate :
    (tenant : String) (turns : List String) (qs : Queues)
    → Covered (tenant ∷ turns) qs
    → Covered (turns ++ tenant ∷ []) qs
unfolding Covered has_turn
Covered-rotate tenant turns [] h = tt
Covered-rotate tenant turns ((t, ws) ∷ qs) h =
    (ground (arith, h.0, has_turn-append t tenant turns), Covered-rotate tenant turns qs h.1)

-- A turn is added.
pub Covered-append :
    (tenant : String) (turns : List String) (qs : Queues)
    → Covered turns qs
    → Covered (turns ++ tenant ∷ []) qs
unfolding Covered
Covered-append tenant turns [] h = tt
Covered-append tenant turns ((t, ws) ∷ qs) h =
    (ground (arith, h.0, has_turn-append t tenant turns), Covered-append tenant turns qs h.1)

-- The turn of a tenant without a queue is dropped.
pub Covered-without :
    (tenant : String) (turns : List String) (qs : Queues)
    → queue_of tenant qs ≡ none
    → Covered (tenant ∷ turns) qs
    → Covered turns qs
unfolding Covered has_turn queue_of
Covered-without tenant turns [] e h = tt
Covered-without tenant turns ((t, ws) ∷ qs) e h =
    let other : str_eq t tenant ≡ false = ground (arith, e) in
    let rest : queue_of tenant qs ≡ none = ground (arith, e) in
    let apart : str_eq tenant t ≡ false =
      ground (arith, other, str_eq_iff t tenant, str_eq_iff tenant t, str_eq_refl t) in
    (ground (arith, apart, h.0), Covered-without tenant turns qs rest h.1)

pub Covered-pop_queue :
    (tenant : String) (turns : List String) (qs : Queues)
    → Tenants qs
    → Covered (tenant ∷ turns) qs
    → Covered turns (pop_queue tenant qs)
unfolding Covered has_turn pop_queue Tenants
Covered-pop_queue tenant turns [] d h = tt
Covered-pop_queue tenant turns ((t, ws) ∷ qs) d h = elim (Bool-cases (str_eq t tenant)) [
  | inl e ↦
      let same : t ≡ tenant = (str_eq_iff t tenant).0 e in
      let gone : queue_of tenant qs ≡ none = cc (d.0, same) in
      rw (e) (Covered-without tenant turns qs gone h.1)
  | inr e ↦
      let apart : str_eq tenant t ≡ false =
        ground (arith, e, str_eq_iff t tenant, str_eq_iff tenant t, str_eq_refl t) in
      rw (e) (ground (arith, apart, h.0), Covered-pop_queue tenant turns qs d.1 h.1)
]

-- Taking a queue away leaves the others covered.
pub Covered-fewer :
    (tenant : String) (turns : List String) (qs : Queues)
    → Covered turns qs
    → Covered turns (pop_queue tenant qs)
unfolding Covered pop_queue
Covered-fewer tenant turns [] h = tt
Covered-fewer tenant turns ((t, ws) ∷ qs) h = elim (Bool-cases (str_eq t tenant)) [
  | inl e ↦ rw (e) h.1
  | inr e ↦ rw (e) (h.0, Covered-fewer tenant turns qs h.1)
]

pub Covered-put_queue :
    (tenant : String) (vs : List ℕ) (turns : List String) (qs : Queues)
    → Covered turns qs
    → Covered turns (put_queue tenant vs qs)
unfolding Covered put_queue
Covered-put_queue tenant vs turns [] h = tt
Covered-put_queue tenant vs turns ((t, ws) ∷ qs) h = elim (Bool-cases (str_eq t tenant)) [
  | inl e ↦ rw (e) h
  | inr e ↦ rw (e) (h.0, Covered-put_queue tenant vs turns qs h.1)
]

pub Covered-last :
    (tenant : String) (vs : List ℕ) (turns : List String) (qs : Queues)
    → Covered turns qs
    → has_turn tenant turns ≡ true
    → Covered turns (qs ++ (tenant, vs) ∷ [])
unfolding Covered
Covered-last tenant vs turns [] h e = (e, tt)
Covered-last tenant vs turns ((t, ws) ∷ qs) h e = (h.0, Covered-last tenant vs turns qs h.1 e)

pub has_turn_last :
    (tenant : String) (ts : List String) → has_turn tenant (ts ++ tenant ∷ []) ≡ true
has_turn_last tenant ts = ground (arith, has_turn-append tenant tenant ts, str_eq_refl tenant)

pub has_no_turn : (tenant : String) → has_turn tenant [] ≢ true
unfolding has_turn
has_no_turn tenant h = absurd (cc h)
