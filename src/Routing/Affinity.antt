-- ===== src/Routing/Affinity.antt =====
-- uni_api/routing/search_affinity.py: the bindings of `SearchAffinityStore`, which keep a search session at the
-- provider and credential that it started with. The ordered dictionary is an association list, the
-- least recently used entry first. Keys and fingerprints, which are digests, are texts; the
-- locks of the sessions are in Locks.
pub mod Keys
pub mod Recency
pub mod Bounds
pub mod Sessions
pub mod Locks
use uni_api.Prelude.{
  ℕ, ◌+◌, String, Option, none, some, List, [], ◌∷◌, ◌++◌, ltb, leb, ◌==◌, if◌then◌else◌, length,
  str_eq, Result, ok, err,
}

pub record SearchAffinityBinding : Type 0 where
  pub provider_fingerprint : String
  pub request_model : String
  pub original_model : String
  pub credential_fingerprint : Option String

pub record StoredBinding : Type 0 where
  pub binding : SearchAffinityBinding
  pub expires_at : ℕ

abbrev pub Bindings : Type 0
Bindings = List (String × StoredBinding)

pub record SearchAffinityStore : Type 0 where
  pub ttl : ℕ
  pub max_entries : ℕ
  pub bindings : Bindings
  pub hits : ℕ
  pub misses : ℕ
  pub evictions : ℕ

pub data AffinityError : Type 0 where
  ttl_not_positive max_entries_not_positive : AffinityError

unfoldable pub init : ℕ → ℕ → Result AffinityError SearchAffinityStore
init ttl max_entries =
    if ttl == 0
    then err ttl_not_positive
    else if max_entries == 0
    then err max_entries_not_positive
    else ok (record {
      ttl = ttl;
      max_entries = max_entries;
      bindings = [];
      hits = 0;
      misses = 0;
      evictions = 0;
    })

unfoldable pub lookup : String → Bindings → Option StoredBinding
lookup key [] = none
lookup key ((k, stored) ∷ bs) = if str_eq k key then some stored else lookup key bs

-- `pop(key, None)`
unfoldable pub remove : String → Bindings → Bindings
remove key [] = []
remove key ((k, stored) ∷ bs) = if str_eq k key then bs else (k, stored) ∷ remove key bs

-- `move_to_end` of an entry that is there, and the insertion of one that is not.
unfoldable pub move_to_end : String → StoredBinding → Bindings → Bindings
move_to_end key stored bs = remove key bs ++ (key, stored) ∷ []

unfoldable pub purge_expired : ℕ → Bindings → Bindings
purge_expired now [] = []
purge_expired now ((k, stored) ∷ bs) =
    if leb stored.expires_at now then purge_expired now bs else (k, stored) ∷ purge_expired now bs

-- `while len(bindings) >= max_entries: popitem(last=False)`, and how many are dropped.
unfoldable pub evict : ℕ → Bindings → Bindings × ℕ
evict max_entries [] = ([], 0)
evict max_entries ((k, stored) ∷ bs) =
    let rest = evict max_entries bs in
    if leb max_entries (length bs + 1) then (rest.0, rest.1 + 1) else ((k, stored) ∷ bs, 0)

unfoldable pub get :
    ℕ → String → SearchAffinityStore → SearchAffinityStore × Option SearchAffinityBinding
get now key s = elim (lookup key s.bindings) [
  | none ↦ (record s { misses = s.misses + 1 }, none)
  | some stored ↦
      if leb stored.expires_at now
      then (record s { bindings = remove key s.bindings; misses = s.misses + 1 }, none)
      else (
        record s { bindings = move_to_end key stored s.bindings; hits = s.hits + 1 },
        some stored.binding,
      )
]

-- The insertion of a binding under a key that has none.
unfoldable pub insert :
    ℕ → String → SearchAffinityBinding → SearchAffinityStore → SearchAffinityStore
insert now key binding s =
    let (kept, dropped) = evict s.max_entries (purge_expired now s.bindings) in
    record s {
      bindings = kept ++ (key, record { binding = binding; expires_at = now + s.ttl }) ∷ [];
      evictions = s.evictions + dropped;
    }

unfoldable pub bind_if_absent :
    ℕ
    → String
    → SearchAffinityBinding
    → SearchAffinityStore
    → SearchAffinityStore × SearchAffinityBinding
bind_if_absent now key binding s = elim (lookup key s.bindings) [
  | none ↦ (insert now key binding s, binding)
  | some stored ↦
      if ltb now stored.expires_at
      then (record s { bindings = move_to_end key stored s.bindings }, stored.binding)
      else (insert now key binding (record s { bindings = remove key s.bindings }), binding)
]

-- What a snapshot does to the store.
unfoldable pub snapshot : ℕ → SearchAffinityStore → SearchAffinityStore
snapshot now s = record s { bindings = purge_expired now s.bindings }

-- A call of the store at a time.
pub data Call : Type 0 where
  gets : ℕ → String → Call
  binds : ℕ → String → SearchAffinityBinding → Call
  snapshots : ℕ → Call

unfoldable pub step : SearchAffinityStore → Call → SearchAffinityStore
step s (gets now key) = (get now key s).0
step s (binds now key binding) = (bind_if_absent now key binding s).0
step s (snapshots now) = snapshot now s

unfoldable pub run : SearchAffinityStore → List Call → SearchAffinityStore
run s [] = s
run s (c ∷ cs) = run (step s c) cs
