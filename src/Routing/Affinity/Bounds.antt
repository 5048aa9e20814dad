-- ===== src/Routing/Affinity/Bounds.antt =====
-- The store keeps at most one binding for a key, and no more bindings than its bound.
use mathlib.Core.Path.{subst}
use uni_api.Prelude.{
  ℕ, ◌+◌, ◌≤◌, ◌<◌, String, ◌≡◌, refl, ap, ◌∙◌, inl, inr, none, some, List, [], ◌∷◌, arith, ltb,
  leb, ◌==◌, Bool-cases, Option-cases, length, length-append, ok, err,
}
use uni_api.Routing.Affinity.{
  SearchAffinityBinding, StoredBinding, SearchAffinityStore, lookup, remove, move_to_end,
  purge_expired, evict, get, insert, bind_if_absent, snapshot, Call, gets, binds, snapshots, step,
  run, init,
}
use uni_api.Routing.Affinity.Keys.{
  Distinct, absent-purge, absent-evict, Distinct-remove, Distinct-purge, Distinct-evict,
  Distinct-append, gone, length-remove_le, length-remove_lt, length-purge_le, length-evict_lt,
}

pub record IsStore (s : SearchAffinityStore) : Type 0 where
  pub keys : Distinct s.bindings
  pub size : length s.bindings ≤ s.max_entries
  pub room : 0 < s.max_entries

move-IsStore :
    (key : String) (stored : StoredBinding) (s : SearchAffinityStore)
    → IsStore s
    → lookup key s.bindings ≡ some stored
    → (n : ℕ) → IsStore (record s { bindings = move_to_end key stored s.bindings; hits = n })
unfolding move_to_end
move-IsStore key stored s i h n =
    let absent = gone key s.bindings i.keys in
    let less = length-remove_lt key s.bindings stored h in
    record {
      keys =
          Distinct-append key stored (remove key s.bindings) (Distinct-remove key s.bindings i.keys)
            absent;
      size =
          omega (arith, i.size, less, length-append (remove key s.bindings) ((key, stored) ∷ []));
      room = i.room;
    }

pub remove-IsStore :
    (key : String) (s : SearchAffinityStore)
    → IsStore s
    → (n : ℕ) → IsStore (record s { bindings = remove key s.bindings; misses = n })
remove-IsStore key s i n = record {
  keys = Distinct-remove key s.bindings i.keys;
  size = omega (arith, i.size, length-remove_le key s.bindings);
  room = i.room;
}

insert-IsStore :
    (now : ℕ) (key : String) (binding : SearchAffinityBinding) (s : SearchAffinityStore)
    → IsStore s
    → lookup key s.bindings ≡ none
    → IsStore (insert now key binding s)
unfolding insert
insert-IsStore now key binding s i h =
    let purged = purge_expired now s.bindings in
    let kept = (evict s.max_entries purged).0 in
    let stored : StoredBinding = record { binding = binding; expires_at = now + s.ttl } in
    let absent = absent-evict key s.max_entries purged (absent-purge key now s.bindings h) in
    let keys = Distinct-evict s.max_entries purged (Distinct-purge now s.bindings i.keys) in
    let less = length-evict_lt s.max_entries purged i.room in
    record {
      keys = Distinct-append key stored kept keys absent;
      size = omega (arith, less, length-append kept ((key, stored) ∷ []));
      room = i.room;
    }

get-IsStore :
    (now : ℕ) (key : String) (s : SearchAffinityStore) → IsStore s → IsStore (get now key s).0
unfolding get
get-IsStore now key s i = elim (Option-cases (lookup key s.bindings)) [
  | inl e ↦ rw (get, e) record { keys = i.keys; size = i.size; room = i.room }
  | inr (stored, e) ↦ elim (Bool-cases (leb stored.expires_at now)) [
    | inl over ↦ rw (get, e, over) (remove-IsStore key s i (s.misses + 1))
    | inr alive ↦ rw (get, e, alive) (move-IsStore key stored s i e (s.hits + 1))
  ]
]

pub bind-IsStore :
    (now : ℕ) (key : String) (binding : SearchAffinityBinding) (s : SearchAffinityStore)
    → IsStore s
    → IsStore (bind_if_absent now key binding s).0
unfolding bind_if_absent
bind-IsStore now key binding s i = elim (Option-cases (lookup key s.bindings)) [
  | inl e ↦ rw (bind_if_absent, e) (insert-IsStore now key binding s i e)
  | inr (stored, e) ↦ elim (Bool-cases (ltb now stored.expires_at)) [
    | inl alive ↦ rw (bind_if_absent, e, alive) (move-IsStore key stored s i e s.hits)
    | inr over ↦
        rw (bind_if_absent, e, over)
          (insert-IsStore now key binding (record s { bindings = remove key s.bindings })
            (remove-IsStore key s i s.misses) (gone key s.bindings i.keys))
  ]
]

pub step-IsStore : (s : SearchAffinityStore) (c : Call) → IsStore s → IsStore (step s c)
unfolding step snapshot
step-IsStore s (gets now key) i = get-IsStore now key s i
step-IsStore s (binds now key binding) i = bind-IsStore now key binding s i
step-IsStore s (snapshots now) i = record {
  keys = Distinct-purge now s.bindings i.keys;
  size = omega (arith, i.size, length-purge_le now s.bindings);
  room = i.room;
}

pub run-IsStore : (s : SearchAffinityStore) (cs : List Call) → IsStore s → IsStore (run s cs)
unfolding run
run-IsStore s [] i = i
run-IsStore s (c ∷ cs) i = run-IsStore (step s c) cs (step-IsStore s c i)

-- How many calls look a key up.
unfoldable pub get_count : List Call → ℕ
get_count [] = 0
get_count (gets now key ∷ cs) = get_count cs + 1
get_count (binds now key binding ∷ cs) = get_count cs
get_count (snapshots now ∷ cs) = get_count cs

pub get_hits :
    (now : ℕ) (key : String) (s : SearchAffinityStore)
    → (get now key s).0.hits + (get now key s).0.misses ≡ s.hits + s.misses + 1
unfolding get
get_hits now key s = ground arith

bind_hits :
    (now : ℕ) (key : String) (binding : SearchAffinityBinding) (s : SearchAffinityStore)
    → (bind_if_absent now key binding s).0.hits + (bind_if_absent now key binding s).0.misses
      ≡ s.hits + s.misses
unfolding bind_if_absent insert
bind_hits now key binding s = ground arith

run-hits :
    (s : SearchAffinityStore) (cs : List Call)
    → (run s cs).hits + (run s cs).misses ≡ s.hits + s.misses + get_count cs
unfolding run step snapshot get_count
run-hits s [] = omega arith
run-hits s (gets now key ∷ cs) = omega (arith, run-hits (get now key s).0 cs, get_hits now key s)
run-hits s (binds now key binding ∷ cs) =
    omega (arith, run-hits (bind_if_absent now key binding s).0 cs, bind_hits now key binding s)
run-hits s (snapshots now ∷ cs) = run-hits (snapshot now s) cs

pub step-max_entries : (s : SearchAffinityStore) (c : Call) → (step s c).max_entries ≡ s.max_entries
unfolding step snapshot get bind_if_absent insert
step-max_entries s (gets now key) = ground arith
step-max_entries s (binds now key binding) = ground arith
step-max_entries s (snapshots now) = refl

run-max_entries :
    (s : SearchAffinityStore) (cs : List Call) → (run s cs).max_entries ≡ s.max_entries
unfolding run
run-max_entries s [] = refl
run-max_entries s (c ∷ cs) = run-max_entries (step s c) cs ∙ step-max_entries s c

record IsFresh (max_entries : ℕ) (s : SearchAffinityStore) : Type 0 where
  store : IsStore s
  bound : s.max_entries ≡ max_entries
  counted : s.hits + s.misses ≡ 0

init-Fresh :
    (ttl max_entries : ℕ) (s : SearchAffinityStore)
    → init ttl max_entries ≡ ok s
    → IsFresh max_entries s
unfolding init Distinct
init-Fresh ttl max_entries s h = elim (Bool-cases (ttl == 0)) [
  | inl e ↦ absurd (cc (e, h))
  | inr e ↦ elim (Bool-cases (max_entries == 0)) [
    | inl z ↦ absurd (cc (e, z, h))
    | inr z ↦
        let fresh : SearchAffinityStore = record {
          ttl = ttl;
          max_entries = max_entries;
          bindings = [];
          hits = 0;
          misses = 0;
          evictions = 0;
        } in
        let made : ok fresh ≡ ok s = rw (e, z) at h in
        let same : fresh ≡ s = ap (λ r. elim r [ ok x ↦ x | err x ↦ fresh ]) made in
        let holds : IsFresh max_entries fresh = record {
          store = record { keys = tt; size = omega arith; room = ground (arith, z) };
          bound = refl;
          counted = refl;
        } in
        subst (IsFresh max_entries) same holds
  ]
]

-- A store that was made for `max_entries` bindings holds at most that many, at most one for a key,
-- after any calls, and has counted a hit or a miss for each lookup.
pub run-init_bounded :
    (ttl max_entries : ℕ) (s : SearchAffinityStore) (cs : List Call)
    → init ttl max_entries ≡ ok s
    → (length (run s cs).bindings ≤ max_entries)
      × Distinct (run s cs).bindings
      × ((run s cs).hits + (run s cs).misses ≡ get_count cs)
run-init_bounded ttl max_entries s cs h =
    let fresh = init-Fresh ttl max_entries s h in
    let after = run-IsStore s cs fresh.store in
    (
      omega (arith, after.size, run-max_entries s cs, fresh.bound),
      after.keys,
      omega (arith, run-hits s cs, fresh.counted),
    )
