-- ===== src/Routing/Affinity/Keys.antt =====
-- The entries of an ordered dictionary: distinct keys, and how many there are.
use uni_api.Prelude.{
  ℕ, ◌+◌, ◌≤◌, ◌<◌, String, ◌≡◌, refl, inl, inr, false, none, some, [], ◌∷◌, ◌++◌, arith, leb,
  Bool-cases, length, str_eq, str_eq_iff, str_eq_refl,
}
use uni_api.Routing.Affinity.{StoredBinding, Bindings, lookup, remove, purge_expired, evict}

-- The keys of an ordered dictionary are distinct.
unfoldable pub Distinct : Bindings → Type 0
Distinct [] = Unit
Distinct ((k, stored) ∷ bs) = (lookup k bs ≡ none) × Distinct bs

-- A key that is absent stays absent.
pub absent-remove :
    (k j : String) (bs : Bindings) → lookup k bs ≡ none → lookup k (remove j bs) ≡ none
unfolding lookup remove
absent-remove k j [] h = refl
absent-remove k j ((i, s) ∷ bs) h = ground (arith, absent-remove k j bs)

pub absent-purge :
    (k : String) (now : ℕ) (bs : Bindings)
    → lookup k bs ≡ none
    → lookup k (purge_expired now bs) ≡ none
unfolding lookup purge_expired
absent-purge k now [] h = refl
absent-purge k now ((i, s) ∷ bs) h = ground (arith, absent-purge k now bs)

pub absent-evict :
    (k : String) (n : ℕ) (bs : Bindings) → lookup k bs ≡ none → lookup k (evict n bs).0 ≡ none
unfolding lookup evict
absent-evict k n [] h = refl
absent-evict k n ((i, s) ∷ bs) h = ground (arith, absent-evict k n bs)

pub absent-append :
    (k j : String) (s : StoredBinding) (bs : Bindings)
    → lookup k bs ≡ none
    → str_eq j k ≡ false
    → lookup k (bs ++ (j, s) ∷ []) ≡ none
unfolding lookup
absent-append k j s [] h ne = rw (ne)
absent-append k j s ((i, t) ∷ bs) h ne = ground (arith, absent-append k j s bs)

pub Distinct-remove : (j : String) (bs : Bindings) → Distinct bs → Distinct (remove j bs)
unfolding Distinct remove
Distinct-remove j [] d = d
Distinct-remove j ((k, s) ∷ bs) d = elim (Bool-cases (str_eq k j)) [
  | inl e ↦ rw (e) d.1
  | inr e ↦ rw (e) (absent-remove k j bs d.0, Distinct-remove j bs d.1)
]

pub Distinct-purge : (now : ℕ) (bs : Bindings) → Distinct bs → Distinct (purge_expired now bs)
unfolding Distinct purge_expired
Distinct-purge now [] d = d
Distinct-purge now ((k, s) ∷ bs) d = elim (Bool-cases (leb s.expires_at now)) [
  | inl e ↦ rw (e) (Distinct-purge now bs d.1)
  | inr e ↦ rw (e) (absent-purge k now bs d.0, Distinct-purge now bs d.1)
]

pub Distinct-evict : (n : ℕ) (bs : Bindings) → Distinct bs → Distinct (evict n bs).0
unfolding Distinct evict
Distinct-evict n [] d = d
Distinct-evict n ((k, s) ∷ bs) d = elim (Bool-cases (leb n (length bs + 1))) [
  | inl e ↦ rw (e) (Distinct-evict n bs d.1)
  | inr e ↦ rw (e) d
]

pub Distinct-append :
    (j : String) (s : StoredBinding) (bs : Bindings)
    → Distinct bs
    → lookup j bs ≡ none
    → Distinct (bs ++ (j, s) ∷ [])
unfolding Distinct lookup
Distinct-append j s [] d h = (refl, d)
Distinct-append j s ((k, t) ∷ bs) d h =
    let other : str_eq k j ≡ false = ground (arith, h) in
    let swapped : str_eq j k ≡ false =
      ground (arith, other, str_eq_iff k j, str_eq_iff j k, str_eq_refl k) in
    let tail : lookup j bs ≡ none = ground (arith, h) in
    (absent-append k j s bs d.0 swapped, Distinct-append j s bs d.1 tail)

-- Removing the only entry of a key.
pub gone : (key : String) (bs : Bindings) → Distinct bs → lookup key (remove key bs) ≡ none
unfolding Distinct lookup remove
gone key [] d = refl
gone key ((k, s) ∷ bs) d = ground (arith, gone key bs d.1, d.0, str_eq_iff k key)

pub length-remove_le : (key : String) (bs : Bindings) → length (remove key bs) ≤ length bs
unfolding remove
length-remove_le key [] = omega arith
length-remove_le key ((k, s) ∷ bs) = ground (arith, length-remove_le key bs)

pub length-remove_lt :
    (key : String) (bs : Bindings) (stored : StoredBinding)
    → lookup key bs ≡ some stored
    → length (remove key bs) < length bs
unfolding lookup remove
length-remove_lt key [] stored h = cc
length-remove_lt key ((k, s) ∷ bs) stored h = ground (arith, length-remove_lt key bs stored)

pub length-purge_le : (now : ℕ) (bs : Bindings) → length (purge_expired now bs) ≤ length bs
unfolding purge_expired
length-purge_le now [] = omega arith
length-purge_le now ((k, s) ∷ bs) = ground (arith, length-purge_le now bs)

pub length-evict_lt : (n : ℕ) (bs : Bindings) → 0 < n → length (evict n bs).0 < n
unfolding evict
length-evict_lt n [] h = omega (arith, h)
length-evict_lt n ((k, s) ∷ bs) h = ground (arith, length-evict_lt n bs h)
