-- ===== src/Admission/Gate/Queue.antt =====
-- Lists of waiters: distinct identities, older than the next one, in one state.
use uni_api.Prelude.{
  ℕ, ◌+◌, ◌<◌, ◌≡◌, ap, ◌≢◌, inl, inr, false, List, [], ◌∷◌, ◌++◌, arith, ◌==◌, ==_iff, Bool-cases,
}
use uni_api.Admission.Gate.{WaiterState, queued, granted, set_state, remove_waiter}

unfoldable pub IsAbsent : ℕ → List ℕ → Type 0
IsAbsent id [] = Unit
IsAbsent id (w ∷ ws) = ((w == id) ≡ false) × IsAbsent id ws

unfoldable pub AllDistinct : List ℕ → Type 0
AllDistinct [] = Unit
AllDistinct (w ∷ ws) = IsAbsent w ws × AllDistinct ws

-- All identities have one state.
unfoldable pub AllIn : WaiterState → (ℕ → WaiterState) → List ℕ → Type 0
AllIn state states [] = Unit
AllIn state states (w ∷ ws) = (states w ≡ state) × AllIn state states ws

pub set_state_self :
    (id : ℕ) (state : WaiterState) (states : ℕ → WaiterState) → set_state id state states id ≡ state
unfolding set_state
set_state_self id state states = ground arith

pub set_state_other :
    (id j : ℕ) (state : WaiterState) (states : ℕ → WaiterState)
    → (id == j) ≡ false
    → set_state id state states j ≡ states j
unfolding set_state
set_state_other id j state states h = rw (h)

-- Setting another identity
pub AllIn-set :
    (state new : WaiterState) (states : ℕ → WaiterState) (id : ℕ) (ws : List ℕ)
    → IsAbsent id ws
    → AllIn state states ws
    → AllIn state (set_state id new states) ws
unfolding AllIn IsAbsent set_state
AllIn-set state new states id [] a h = tt
AllIn-set state new states id (w ∷ ws) a h =
    let other : (id == w) ≡ false = ground (arith, a.0) in
    (rw (other) h.0, AllIn-set state new states id ws a.1 h.1)

unfoldable pub AllBelow : ℕ → List ℕ → Type 0
AllBelow n [] = Unit
AllBelow n (w ∷ ws) = (w < n) × AllBelow n ws

pub AllBelow-more : (n : ℕ) (ws : List ℕ) → AllBelow n ws → AllBelow (n + 1) ws
unfolding AllBelow
AllBelow-more n [] h = tt
AllBelow-more n (w ∷ ws) h = (omega (arith, h.0), AllBelow-more n ws h.1)

pub below-IsAbsent : (n : ℕ) (ws : List ℕ) → AllBelow n ws → IsAbsent n ws
unfolding AllBelow IsAbsent
below-IsAbsent n [] h = tt
below-IsAbsent n (w ∷ ws) h = (ground (arith, h.0), below-IsAbsent n ws h.1)

-- An identity in another state
pub state-IsAbsent :
    (state : WaiterState) (states : ℕ → WaiterState) (id : ℕ) (ws : List ℕ)
    → states id ≢ state
    → AllIn state states ws
    → IsAbsent id ws
unfolding AllIn IsAbsent
state-IsAbsent state states id [] ne h = tt
state-IsAbsent state states id (w ∷ ws) ne h =
    let other : (w == id) ≡ false = elim (Bool-cases (w == id)) [
      | inl e ↦ let same : w ≡ id = (==_iff w id).0 e in absurd (ne (cc (same, h.0)))
      | inr e ↦ e
    ] in
    (other, state-IsAbsent state states id ws ne h.1)

-- Joining lists
pub IsAbsent-append :
    (id : ℕ) (xs ys : List ℕ) → IsAbsent id xs → IsAbsent id ys → IsAbsent id (xs ++ ys)
unfolding IsAbsent
IsAbsent-append id [] ys h g = g
IsAbsent-append id (x ∷ xs) ys h g = (h.0, IsAbsent-append id xs ys h.1 g)

pub AllIn-append :
    (state : WaiterState) (states : ℕ → WaiterState) (xs ys : List ℕ)
    → AllIn state states xs
    → AllIn state states ys
    → AllIn state states (xs ++ ys)
unfolding AllIn
AllIn-append state states [] ys h g = g
AllIn-append state states (x ∷ xs) ys h g = (h.0, AllIn-append state states xs ys h.1 g)

pub AllBelow-append :
    (n : ℕ) (xs ys : List ℕ) → AllBelow n xs → AllBelow n ys → AllBelow n (xs ++ ys)
unfolding AllBelow
AllBelow-append n [] ys h g = g
AllBelow-append n (x ∷ xs) ys h g = (h.0, AllBelow-append n xs ys h.1 g)

-- Taking lists apart
pub IsAbsent-split :
    (id : ℕ) (xs ys : List ℕ) → IsAbsent id (xs ++ ys) → IsAbsent id xs × IsAbsent id ys
unfolding IsAbsent
IsAbsent-split id [] ys h = (tt, h)
IsAbsent-split id (x ∷ xs) ys h = let rest = IsAbsent-split id xs ys h.1 in ((h.0, rest.0), rest.1)

pub AllBelow-split :
    (n : ℕ) (xs ys : List ℕ) → AllBelow n (xs ++ ys) → AllBelow n xs × AllBelow n ys
unfolding AllBelow
AllBelow-split n [] ys h = (tt, h)
AllBelow-split n (x ∷ xs) ys h = let rest = AllBelow-split n xs ys h.1 in ((h.0, rest.0), rest.1)

pub AllIn-split :
    (state : WaiterState) (states : ℕ → WaiterState) (xs ys : List ℕ)
    → AllIn state states (xs ++ ys)
    → AllIn state states xs × AllIn state states ys
unfolding AllIn
AllIn-split state states [] ys h = (tt, h)
AllIn-split state states (x ∷ xs) ys h =
    let rest = AllIn-split state states xs ys h.1 in ((h.0, rest.0), rest.1)

-- No identity of one list is in the other.
unfoldable pub AllApart : List ℕ → List ℕ → Type 0
AllApart [] ys = Unit
AllApart (x ∷ xs) ys = IsAbsent x ys × AllApart xs ys

pub AllDistinct-append :
    (xs ys : List ℕ) → AllDistinct xs → AllDistinct ys → AllApart xs ys → AllDistinct (xs ++ ys)
unfolding AllDistinct AllApart
AllDistinct-append [] ys h g a = g
AllDistinct-append (x ∷ xs) ys h g a =
    (IsAbsent-append x xs ys h.0 a.0, AllDistinct-append xs ys h.1 g a.1)

pub AllDistinct-split : (xs ys : List ℕ) → AllDistinct (xs ++ ys) → AllDistinct xs × AllDistinct ys
unfolding AllDistinct
AllDistinct-split [] ys h = (tt, h)
AllDistinct-split (x ∷ xs) ys h =
    let rest = AllDistinct-split xs ys h.1 in (((IsAbsent-split x xs ys h.0).0, rest.0), rest.1)

-- Identities in different states are apart.
pub states_apart :
    (states : ℕ → WaiterState) (xs ys : List ℕ)
    → AllIn granted states xs
    → AllIn queued states ys
    → AllApart xs ys
unfolding AllApart AllIn
states_apart states [] ys h g = tt
states_apart states (x ∷ xs) ys h g = (
  state-IsAbsent queued states x ys (λ e. absurd (cc (e, h.0))) g,
  states_apart states xs ys h.1 g,
)

pub AllApart-split : (xs ys zs : List ℕ) → AllApart xs (ys ++ zs) → AllApart xs ys × AllApart xs zs
unfolding AllApart
AllApart-split [] ys zs h = (tt, tt)
AllApart-split (x ∷ xs) ys zs h =
    let here = IsAbsent-split x ys zs h.0 in
    let rest = AllApart-split xs ys zs h.1 in ((here.0, rest.0), (here.1, rest.1))

-- The other elements around one
pub without :
    (id : ℕ) (xs ys : List ℕ)
    → AllDistinct (xs ++ id ∷ ys)
    → AllDistinct (xs ++ ys) × IsAbsent id (xs ++ ys)
unfolding AllDistinct IsAbsent
without id [] ys d = (d.1, d.0)
without id (x ∷ xs) ys d =
    let (rest, absent) = without id xs ys d.1 in
    let (before, after) = IsAbsent-split x xs (id ∷ ys) d.0 in
    ((IsAbsent-append x xs ys before after.1, rest), (ground (arith, after.0), absent))

pub remove_waiter_lem :
    (id : ℕ) (xs ys : List ℕ)
    → AllDistinct (xs ++ id ∷ ys)
    → remove_waiter id (xs ++ id ∷ ys) ≡ xs ++ ys
unfolding remove_waiter AllDistinct IsAbsent
remove_waiter_lem id [] ys d = ground arith
remove_waiter_lem id (x ∷ xs) ys d =
    let here : (x == id) ≡ false = ground (arith, (IsAbsent-split x xs (id ∷ ys) d.0).1.0) in
    rw (here) (ap (λ zs. x ∷ zs) (remove_waiter_lem id xs ys d.1))

pub distinct_last :
    (id : ℕ) (ws : List ℕ) → AllDistinct ws → IsAbsent id ws → AllDistinct (ws ++ id ∷ [])
unfolding AllDistinct IsAbsent
distinct_last id [] d a = (tt, tt)
distinct_last id (w ∷ ws) d a =
    (IsAbsent-append w ws (id ∷ []) d.0 (ground (arith, a.0), tt), distinct_last id ws d.1 a.1)
