-- ===== src/Routing/Affinity/Sessions.antt =====
-- The binding of a session is kept under the calls of other sessions.
use mathlib.Core.Path.{subst}
use uni_api.Prelude.{
  ℕ, ◌+◌, ◌<◌, String, ◌≡◌, refl, sym, ap, ◌∙◌, inl, inr, true, false, none, some, List, [], ◌∷◌,
  ◌++◌, arith, ltb, leb, Bool-cases, Option-cases, length, str_eq, str_eq_iff,
}
use uni_api.Routing.Affinity.Keys.{gone, Distinct, absent-purge, absent-evict}
use uni_api.Routing.Affinity.Bounds.{
  IsStore, step-IsStore, step-max_entries, bind-IsStore, remove-IsStore,
}
use uni_api.Routing.Affinity.{
  SearchAffinityBinding, StoredBinding, Bindings, SearchAffinityStore, lookup, remove, move_to_end,
  purge_expired, evict, get, insert, bind_if_absent, snapshot, Call, gets, binds, snapshots, step,
  run,
}
use uni_api.Routing.Affinity.Recency.{
  Holds, remove-Holds, append-Holds, is_over, first_alive, purge-Holds, evict-Holds, last-Holds,
  Holds-more,
}

-- The calls of other sessions
unfoldable pub time_of : Call → ℕ
time_of (gets now key) = now
time_of (binds now key binding) = now
time_of (snapshots now) = now

-- Every call is made before a time.
unfoldable pub Before : ℕ → List Call → Type 0
Before time [] = Unit
Before time (c ∷ cs) = (time_of c < time) × Before time cs

-- The entry that is moved is the one that is looked for, or another.
move-Holds :
    (key j : String) (stored other : StoredBinding) (n : ℕ) (bs : Bindings)
    → Distinct bs
    → Holds key stored n bs
    → lookup j bs ≡ some other
    → Holds key stored (n + 1) (move_to_end j other bs)
unfolding move_to_end
move-Holds key j stored other n bs d h e = elim (Bool-cases (str_eq j key)) [
  | inl same ↦
      let here : j ≡ key = (str_eq_iff j key).0 same in
      let both : some other ≡ some stored = cc (e, h.there, here) in
      let one : other ≡ stored = ap (λ o. elim o [ none ↦ other | some x ↦ x ]) both in
      let last = last-Holds key stored (remove key bs) (gone key bs d) in
      subst (λ x. Holds key stored (n + 1) (remove x bs ++ (x, other) ∷ [])) (sym here)
        (subst (λ y. Holds key stored (n + 1) (remove key bs ++ (key, y) ∷ [])) (sym one)
          (Holds-more key stored 0 (n + 1) _ (omega arith) last))
  | inr ne ↦ append-Holds key j stored other n (remove j bs) (remove-Holds key j stored n bs ne h)
]

insert-Holds :
    (key j : String) (stored : StoredBinding) (n now : ℕ) (binding : SearchAffinityBinding)
    (s : SearchAffinityStore)
    → n + 1 < s.max_entries
    → now < stored.expires_at
    → Holds key stored n s.bindings
    → Holds key stored (n + 1) (insert now j binding s).bindings
unfolding insert
insert-Holds key j stored n now binding s small alive h =
    let purged = purge_expired now s.bindings in
    let fresh : StoredBinding = record { binding = binding; expires_at = now + s.ttl } in
    append-Holds key j stored fresh n (evict s.max_entries purged).0 (
      evict-Holds key s.max_entries stored n purged small
        (purge-Holds key now stored n s.bindings alive h))

-- An entry that has expired is another one.
over-other :
    (key j : String) (stored other : StoredBinding) (now : ℕ) (bs : Bindings)
    → now < stored.expires_at
    → lookup key bs ≡ some stored
    → lookup j bs ≡ some other
    → is_over now other ≡ true
    → str_eq j key ≡ false
over-other key j stored other now bs alive h e over = elim (Bool-cases (str_eq j key)) [
  | inl same ↦
      let here : j ≡ key = (str_eq_iff j key).0 same in
      let both : some other ≡ some stored = cc (e, h, here) in
      absurd (cc (over, first_alive now other stored alive both))
  | inr ne ↦ ne
]

get-Holds :
    (key j : String) (stored : StoredBinding) (n now : ℕ) (s : SearchAffinityStore)
    → IsStore s
    → now < stored.expires_at
    → Holds key stored n s.bindings
    → Holds key stored (n + 1) (get now j s).0.bindings
unfolding get
get-Holds key j stored n now s i alive h = elim (Option-cases (lookup j s.bindings)) [
  | inl e ↦ rw (get, e) (Holds-more key stored n (n + 1) s.bindings (omega arith) h)
  | inr (other, e) ↦ elim (Bool-cases (is_over now other)) [
    | inl over ↦
        let ne = over-other key j stored other now s.bindings alive h.there e over in
        rw (get, e, over)
          (Holds-more key stored n (n + 1) (remove j s.bindings) (omega arith)
            (remove-Holds key j stored n s.bindings ne h))
    | inr kept ↦ rw (get, e, kept) (move-Holds key j stored other n s.bindings i.keys h e)
  ]
]

bind-Holds :
    (key j : String) (stored : StoredBinding) (n now : ℕ) (binding : SearchAffinityBinding)
    (s : SearchAffinityStore)
    → IsStore s
    → n + 1 < s.max_entries
    → now < stored.expires_at
    → Holds key stored n s.bindings
    → Holds key stored (n + 1) (bind_if_absent now j binding s).0.bindings
unfolding bind_if_absent
bind-Holds key j stored n now binding s i small alive h =
    elim (Option-cases (lookup j s.bindings)) [
      | inl e ↦ rw (bind_if_absent, e) (insert-Holds key j stored n now binding s small alive h)
      | inr (other, e) ↦ elim (Bool-cases (ltb now other.expires_at)) [
        | inl kept ↦
            rw (bind_if_absent, e, kept) (move-Holds key j stored other n s.bindings i.keys h e)
        | inr late ↦
            let over : is_over now other ≡ true = ground (arith, late) in
            let ne = over-other key j stored other now s.bindings alive h.there e over in
            rw (bind_if_absent, e, late)
              (insert-Holds key j stored n now binding (record s { bindings = remove j s.bindings })
                small alive (remove-Holds key j stored n s.bindings ne h))
      ]
    ]

step-Holds :
    (key : String) (stored : StoredBinding) (n : ℕ) (s : SearchAffinityStore) (c : Call)
    → IsStore s
    → n + 1 < s.max_entries
    → time_of c < stored.expires_at
    → Holds key stored n s.bindings
    → Holds key stored (n + 1) (step s c).bindings
unfolding step time_of snapshot
step-Holds key stored n s (gets now j) i small alive h = get-Holds key j stored n now s i alive h
step-Holds key stored n s (binds now j binding) i small alive h =
    bind-Holds key j stored n now binding s i small alive h
step-Holds key stored n s (snapshots now) i small alive h =
    Holds-more key stored n (n + 1) (purge_expired now s.bindings) (omega arith)
      (purge-Holds key now stored n s.bindings alive h)

run-Holds :
    (key : String) (stored : StoredBinding) (n : ℕ) (s : SearchAffinityStore) (cs : List Call)
    → IsStore s
    → n + length cs < s.max_entries
    → Before stored.expires_at cs
    → Holds key stored n s.bindings
    → lookup key (run s cs).bindings ≡ some stored
unfolding run Before
run-Holds key stored n s [] i small early h = h.there
run-Holds key stored n s (c ∷ cs) i small early h =
    let same = step-max_entries s c in
    run-Holds key stored (n + 1) (step s c) cs (step-IsStore s c i) (omega (arith, same, small))
      early.1 (step-Holds key stored n s c i (omega (arith, small)) early.0 h)

insert-last :
    (now : ℕ) (key : String) (binding : SearchAffinityBinding) (s : SearchAffinityStore)
    → IsStore s
    → lookup key s.bindings ≡ none
    → Holds key
        (record { binding = binding; expires_at = now + s.ttl })
        0
        (insert now key binding s).bindings
unfolding insert
insert-last now key binding s i h =
    let purged = purge_expired now s.bindings in
    last-Holds key (record { binding = binding; expires_at = now + s.ttl })
      (evict s.max_entries purged).0
      (absent-evict key s.max_entries purged (absent-purge key now s.bindings h))

-- What a key is bound to is the last entry.
bind-last :
    (now : ℕ) (key : String) (binding : SearchAffinityBinding) (s : SearchAffinityStore)
    → IsStore s
    → (stored : StoredBinding) × Holds key stored 0 (bind_if_absent now key binding s).0.bindings
      × (stored.binding ≡ (bind_if_absent now key binding s).1)
unfolding bind_if_absent insert move_to_end
bind-last now key binding s i = elim (Option-cases (lookup key s.bindings)) [
  | inl e ↦
      rw (bind_if_absent, e)
        (
          record { binding = binding; expires_at = now + s.ttl },
          insert-last now key binding s i e,
          refl,
        )
  | inr (stored, e) ↦
      let absent = gone key s.bindings i.keys in
      elim (Bool-cases (ltb now stored.expires_at)) [
        | inl kept ↦
            rw (bind_if_absent, e, kept)
              (stored, last-Holds key stored (remove key s.bindings) absent, refl)
        | inr late ↦
            rw (bind_if_absent, e, late)
              (
                record { binding = binding; expires_at = now + s.ttl },
                insert-last now key binding (record s { bindings = remove key s.bindings })
                    (remove-IsStore key s i s.misses) absent,
                refl,
              )
      ]
]

-- A session keeps its provider and credential: what `bind_if_absent` answers for a key, `get` answers
-- after any later calls for other sessions or this one, fewer than `max_entries`, while the binding
-- has not expired.
pub bind_if_absent-get :
    (s : SearchAffinityStore) (now later : ℕ) (key : String) (binding : SearchAffinityBinding)
    (stored : StoredBinding) (cs : List Call)
    → IsStore s
    → lookup key (bind_if_absent now key binding s).0.bindings ≡ some stored
    → Before stored.expires_at cs
    → later < stored.expires_at
    → length cs < s.max_entries
    → (get later key (run (bind_if_absent now key binding s).0 cs)).1
      ≡ some (bind_if_absent now key binding s).1
unfolding get step
bind_if_absent-get s now later key binding stored cs i h early alive few =
    let next = (bind_if_absent now key binding s).0 in
    let (other, held, answer) = bind-last now key binding s i in
    let both : some other ≡ some stored = cc (held.there, h) in
    let one : other ≡ stored = ap (λ o. elim o [ none ↦ other | some x ↦ x ]) both in
    let kept : Holds key stored 0 next.bindings =
      subst (λ y. Holds key y 0 next.bindings) one held in
    let bound = step-max_entries s (binds now key binding) in
    let found =
      run-Holds key stored 0 next cs (bind-IsStore now key binding s i) (omega (arith, bound, few))
        early kept in
    let unexpired : leb stored.expires_at later ≡ false = ground (arith, alive) in
    rw (get, found, unexpired) (ap (λ y. some y.binding) (sym one) ∙ ap some answer)
