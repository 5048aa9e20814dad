-- ===== src/Routing/Affinity/Recency.antt =====
-- How far a binding is from eviction: the number of entries after it.
use uni_api.Prelude.{
  ℕ, ◌+◌, ◌≤◌, ◌<◌, String, ◌≡◌, refl, ap, ◌∙◌, inl, inr, Bool, false, none, some, [], ◌∷◌, ◌++◌,
  arith, leb, if◌then◌else◌, Bool-cases, length, length-append, str_eq, str_eq_iff, str_eq_refl,
}
use uni_api.Routing.Affinity.Keys.{length-remove_le, length-purge_le}
use uni_api.Routing.Affinity.{StoredBinding, Bindings, lookup, remove, purge_expired, evict}

-- The number of entries after that of a key.
unfoldable pub after : String → Bindings → ℕ
after key [] = 0
after key ((k, stored) ∷ bs) = if str_eq k key then length bs else after key bs

-- `bs` holds the entry of the key with at most `n` entries after it.
pub record Holds (key : String) (stored : StoredBinding) (n : ℕ) (bs : Bindings) : Type 0 where
  pub there : lookup key bs ≡ some stored
  pub near : after key bs ≤ n

pub after-lt :
    (key : String) (bs : Bindings) (stored : StoredBinding)
    → lookup key bs ≡ some stored
    → after key bs < length bs
unfolding after lookup
after-lt key [] stored h = cc
after-lt key ((k, s) ∷ bs) stored h = ground (arith, after-lt key bs stored)

-- Another key's entry may go.
pub lookup-remove :
    (key j : String) (bs : Bindings)
    → str_eq j key ≡ false
    → lookup key (remove j bs) ≡ lookup key bs
unfolding lookup remove
lookup-remove key j [] ne = refl
lookup-remove key j ((k, s) ∷ bs) ne = ground (arith, lookup-remove key j bs ne, str_eq_iff k j)

pub after-remove_le :
    (key j : String) (bs : Bindings) → str_eq j key ≡ false → after key (remove j bs) ≤ after key bs
unfolding after remove
after-remove_le key j [] ne = omega arith
after-remove_le key j ((k, s) ∷ bs) ne =
    ground (arith, after-remove_le key j bs ne, str_eq_iff k j, length-remove_le j bs)

pub remove-Holds :
    (key j : String) (stored : StoredBinding) (n : ℕ) (bs : Bindings)
    → str_eq j key ≡ false
    → Holds key stored n bs
    → Holds key stored n (remove j bs)
remove-Holds key j stored n bs ne h =
    let less = after-remove_le key j bs ne in
    record { there = lookup-remove key j bs ne ∙ h.there; near = omega (arith, h.near, less) }

-- An entry that is put last is one step further from eviction.
pub lookup-append :
    (key j : String) (stored other : StoredBinding) (bs : Bindings)
    → lookup key bs ≡ some stored
    → lookup key (bs ++ (j, other) ∷ []) ≡ some stored
unfolding lookup
lookup-append key j stored other [] h = cc
lookup-append key j stored other ((k, s) ∷ bs) h =
    ground (arith, lookup-append key j stored other bs)

pub after-append :
    (key j : String) (stored other : StoredBinding) (bs : Bindings)
    → lookup key bs ≡ some stored
    → after key (bs ++ (j, other) ∷ []) ≡ after key bs + 1
unfolding lookup after
after-append key j stored other [] h = cc
after-append key j stored other ((k, s) ∷ bs) h =
    ground (arith, after-append key j stored other bs, length-append bs ((j, other) ∷ []))

pub append-Holds :
    (key j : String) (stored other : StoredBinding) (n : ℕ) (bs : Bindings)
    → Holds key stored n bs
    → Holds key stored (n + 1) (bs ++ (j, other) ∷ [])
append-Holds key j stored other n bs h =
    let more = after-append key j stored other bs h.there in
    record {
      there = lookup-append key j stored other bs h.there;
      near = omega (arith, h.near, more);
    }

-- Whether a stored binding has expired.
abbrev pub is_over : ℕ → StoredBinding → Bool
is_over now stored = leb stored.expires_at now

pub first_alive :
    (now : ℕ) (s stored : StoredBinding)
    → now < stored.expires_at
    → some s ≡ some stored
    → is_over now s ≡ false
first_alive now s stored alive h =
    let time : s.expires_at ≡ stored.expires_at =
      ap (λ o. elim o [ none ↦ 0 | some x ↦ x.expires_at ]) h in
    ground (arith, time)

-- An entry that has not expired stays.
pub lookup-purge :
    (key : String) (now : ℕ) (stored : StoredBinding) (bs : Bindings)
    → now < stored.expires_at
    → lookup key bs ≡ some stored
    → lookup key (purge_expired now bs) ≡ some stored
unfolding lookup purge_expired
lookup-purge key now stored [] alive h = cc
lookup-purge key now stored ((k, s) ∷ bs) alive h =
    let rest = lookup-purge key now stored bs alive in
    elim (Bool-cases (str_eq k key)) [
      | inl e ↦
          let same : some s ≡ some stored = rw (e) at h in
          let stays = first_alive now s stored alive same in rw (stays, e) same
      | inr e ↦ ground (arith, e, h, rest)
    ]

pub after-purge_le :
    (key : String) (now : ℕ) (stored : StoredBinding) (bs : Bindings)
    → now < stored.expires_at
    → lookup key bs ≡ some stored
    → after key (purge_expired now bs) ≤ after key bs
unfolding lookup after purge_expired
after-purge_le key now stored [] alive h = cc
after-purge_le key now stored ((k, s) ∷ bs) alive h =
    let rest = after-purge_le key now stored bs alive in
    elim (Bool-cases (str_eq k key)) [
      | inl e ↦
          let same : some s ≡ some stored = rw (e) at h in
          let stays = first_alive now s stored alive same in
          ground (arith, e, stays, length-purge_le now bs)
      | inr e ↦ ground (arith, e, h, rest)
    ]

pub purge-Holds :
    (key : String) (now : ℕ) (stored : StoredBinding) (n : ℕ) (bs : Bindings)
    → now < stored.expires_at
    → Holds key stored n bs
    → Holds key stored n (purge_expired now bs)
purge-Holds key now stored n bs alive h =
    let less = after-purge_le key now stored bs alive h.there in
    record {
      there = lookup-purge key now stored bs alive h.there;
      near = omega (arith, h.near, less);
    }

-- The oldest entries go first.
pub lookup-evict :
    (key : String) (max_entries : ℕ) (stored : StoredBinding) (bs : Bindings)
    → after key bs + 1 < max_entries
    → lookup key bs ≡ some stored
    → lookup key (evict max_entries bs).0 ≡ some stored
unfolding lookup after evict
lookup-evict key max_entries stored [] small h = cc
lookup-evict key max_entries stored ((k, s) ∷ bs) small h =
    ground (arith, lookup-evict key max_entries stored bs)

pub after-evict_le :
    (key : String) (max_entries : ℕ) (bs : Bindings)
    → after key bs + 1 < max_entries
    → after key (evict max_entries bs).0 ≤ after key bs
unfolding after evict
after-evict_le key max_entries [] small = omega arith
after-evict_le key max_entries ((k, s) ∷ bs) small =
    ground (arith, after-evict_le key max_entries bs)

pub evict-Holds :
    (key : String) (max_entries : ℕ) (stored : StoredBinding) (n : ℕ) (bs : Bindings)
    → n + 1 < max_entries
    → Holds key stored n bs
    → Holds key stored n (evict max_entries bs).0
evict-Holds key max_entries stored n bs small h =
    let less = after-evict_le key max_entries bs (omega (arith, h.near, small)) in
    record {
      there = lookup-evict key max_entries stored bs (omega (arith, h.near, small)) h.there;
      near = omega (arith, h.near, less);
    }

-- The entry that was put last.
pub last-Holds :
    (key : String) (stored : StoredBinding) (bs : Bindings)
    → lookup key bs ≡ none
    → Holds key stored 0 (bs ++ (key, stored) ∷ [])
unfolding lookup after
last-Holds key stored [] absent = record {
  there = ground (arith, str_eq_refl key);
  near = ground (arith, str_eq_refl key);
}
last-Holds key stored ((k, s) ∷ bs) absent =
    let other : str_eq k key ≡ false = ground (arith, absent) in
    let tail : lookup key bs ≡ none = ground (arith, absent) in
    let rest = last-Holds key stored bs tail in
    record { there = ground (arith, other, rest.there); near = ground (arith, other, rest.near) }

pub Holds-more :
    (key : String) (stored : StoredBinding) (m n : ℕ) (bs : Bindings)
    → m ≤ n
    → Holds key stored m bs
    → Holds key stored n bs
Holds-more key stored m n bs le h = record { there = h.there; near = omega (arith, h.near, le) }
