-- ===== src/RateLimit/KeyPool/Claims.antt =====
-- The index of a pool under every operation, the key last returned, and claims by fingerprint.
use native.Mathlib.Nat.{mod-add-mod, add-mod_right}
use uni_api.Prelude.{
  ℕ, zero, suc, ◌+◌, ◌-◌, ◌%◌, ◌<◌, String, ◌≡◌, refl, ap, ◌∙◌, ◌≢◌, ◌⊎◌, inl, inr, Bool, true,
  false, Option, none, some, List, [], ◌∷◌, arith, if◌then◌else◌, Bool-cases, length, get_elem?,
  str_eq, str_eq_iff, Result, ok, err,
}
use uni_api.RateLimit.Policy.{RateLimitPolicy}
use uni_api.RateLimit.State
use uni_api.RateLimit.State.{RateLimitState}
use uni_api.RateLimit.KeyPool.{
  ProviderKeyPool, PoolError, too_many_requests, bound_credential_unavailable, prepare, next,
  trigger_reorder, after_next_current, reset_items, finish_reorder, find_fingerprint,
  claim_by_fingerprint, is_all_rate_limited, set_cooling, is_rate_limited,
  rollback_rate_limit_record, same_items, init,
}
use uni_api.RateLimit.KeyPool.Rotation.{next-Outcome, prepare-items}

-- The index points at a key, or there are no keys and it is 0.
abbrev pub IsValid : ProviderKeyPool → Type 0
IsValid pool = (pool.index < length pool.items) ⊎ ((pool.items ≡ []) × (pool.index ≡ 0))

reset_items-IsValid :
    (new_items : List String) (pool : ProviderKeyPool)
    → IsValid pool
    → IsValid (reset_items new_items pool)
unfolding reset_items
reset_items-IsValid [] pool v = elim (Bool-cases (same_items pool.items [])) [
  | inl same ↦ rw (same, reset_items) v
  | inr other ↦ rw (other, reset_items) (inr (refl, refl))
]
reset_items-IsValid (x ∷ xs) pool v = elim (Bool-cases (same_items pool.items (x ∷ xs))) [
  | inl same ↦ rw (same, reset_items) v
  | inr other ↦ rw (other, reset_items) (inl (omega arith))
]

finish_reorder-IsValid :
    (keys : Option (List String)) (pool : ProviderKeyPool)
    → IsValid pool
    → IsValid (finish_reorder keys pool)
unfolding finish_reorder
finish_reorder-IsValid none pool v = v
finish_reorder-IsValid (some []) pool v = v
finish_reorder-IsValid (some (x ∷ xs)) pool v = reset_items-IsValid (x ∷ xs) pool v

next-empty :
    (nows : ℕ → ℕ) (model : Option String) (pool : ProviderKeyPool)
    → pool.items ≡ []
    → next nows model pool ≡ (pool, some (err too_many_requests))
unfolding next
next-empty nows model pool e = ground arith

next-IsValid :
    (nows : ℕ → ℕ) (model : Option String) (pool : ProviderKeyPool)
    → IsValid pool
    → IsValid (next nows model pool).0
next-IsValid nows model pool (inr (e, z)) = rw (next-empty nows model pool e) (inr (e, z))
next-IsValid nows model pool (inl lt) =
    let (same, ready_lt) = prepare-items pool.schedule_algorithm pool lt in
    elim (next-Outcome nows model pool lt) [
      | inl (j, item, lj, found, before, fine, e) ↦ rw e (inl (omega (arith, ap length same)))
      | inr (all, e) ↦ rw e (inl (omega (arith, ap length same)))
    ]

-- The calls of the pool that change it.
pub data Call : Type 0 where
  nexts : (ℕ → ℕ) → Option String → Call
  claims : ℕ → String → (String → String) → Option String → Call
  checks_all : (ℕ → ℕ) → Option String → Call
  checks : ℕ → String → Option String → Bool → Call
  cools : ℕ → String → ℕ → Call
  rolls_back : String → Option String → Call
  resets : List String → Call
  ends_reorder : Option (List String) → Call

unfoldable pub step : ProviderKeyPool → Call → ProviderKeyPool
step pool (nexts nows model) = (next nows model pool).0
step pool (claims now fingerprint f model) = (claim_by_fingerprint now fingerprint f model pool).0
step pool (checks_all nows model) = (is_all_rate_limited nows model pool).0
step pool (checks now item model is_check) = (is_rate_limited now item model is_check pool).0
step pool (cools now item seconds) = set_cooling now item seconds pool
step pool (rolls_back item model) = rollback_rate_limit_record item model pool
step pool (resets keys) = reset_items keys pool
step pool (ends_reorder keys) = finish_reorder keys pool

unfoldable pub run : ProviderKeyPool → List Call → ProviderKeyPool
run pool [] = pool
run pool (c ∷ cs) = run (step pool c) cs

IsValid-eq : (p q : ProviderKeyPool) → q.items ≡ p.items → q.index ≡ p.index → IsValid p → IsValid q
IsValid-eq p q e f (inl lt) = inl (omega (arith, ap length e))
IsValid-eq p q e f (inr (g, z)) = inr (e ∙ g, f ∙ z)

step-IsValid : (pool : ProviderKeyPool) (c : Call) → IsValid pool → IsValid (step pool c)
unfolding step claim_by_fingerprint is_all_rate_limited is_rate_limited set_cooling
    rollback_rate_limit_record
step-IsValid pool (nexts nows model) v = next-IsValid nows model pool v
step-IsValid pool (claims now fingerprint f model) v =
    IsValid-eq pool (step pool (claims now fingerprint f model)) (ground arith) (ground arith) v
step-IsValid pool (checks_all nows model) v =
    IsValid-eq pool (step pool (checks_all nows model)) (ground arith) (ground arith) v
step-IsValid pool (checks now item model is_check) v =
    IsValid-eq pool (step pool (checks now item model is_check)) refl refl v
step-IsValid pool (cools now item seconds) v =
    IsValid-eq pool (step pool (cools now item seconds)) refl refl v
step-IsValid pool (rolls_back item model) v =
    IsValid-eq pool (step pool (rolls_back item model)) refl refl v
step-IsValid pool (resets keys) v = reset_items-IsValid keys pool v
step-IsValid pool (ends_reorder keys) v = finish_reorder-IsValid keys pool v

run-IsValid : (pool : ProviderKeyPool) (cs : List Call) → IsValid pool → IsValid (run pool cs)
unfolding run
run-IsValid pool [] v = v
run-IsValid pool (c ∷ cs) v = run-IsValid (step pool c) cs (step-IsValid pool c v)

zero-IsValid :
    (pool : ProviderKeyPool) (items : List String)
    → pool.items ≡ items
    → pool.index ≡ 0
    → IsValid pool
zero-IsValid pool [] e z = inr (e, z)
zero-IsValid pool (x ∷ xs) e z = inl (omega (arith, ap length e))

init-IsValid :
    (sample : List String → List String) (items : List String) (policy : RateLimitPolicy)
    (algorithm : String) (provider_name : Option String)
    → IsValid (init sample items policy algorithm provider_name)
unfolding init trigger_reorder
init-IsValid sample items policy algorithm provider_name =
    zero-IsValid (init sample items policy algorithm provider_name) _ refl (ground arith)

-- Whatever `next` finds, from an index in range or with no keys, it ends with a key or with the
-- error that there were too many requests.
Ends : Option (Result PoolError String) → Type 0
Ends r = ((item : String) × (r ≡ some (ok item))) ⊎ (r ≡ some (err too_many_requests))

next-Ends :
    (nows : ℕ → ℕ) (model : Option String) (pool : ProviderKeyPool)
    → IsValid pool
    → Ends (next nows model pool).1
unfolding Ends
next-Ends nows model pool (inr (e, z)) = rw (next-empty nows model pool e) (inr refl)
next-Ends nows model pool (inl lt) = elim (next-Outcome nows model pool lt) [
  | inl (j, item, lj, found, before, fine, e) ↦ rw e (inl (item, refl))
  | inr (all, e) ↦ rw e (inr refl)
]

-- From construction with any keys and under any sequence of calls of the pool, with reorders ending
-- at any point, the index stays at a key (or is 0 where there is none), and the next call of `next`
-- ends and gives a key or the error 429: it never reads outside the keys and never loops on.
pub next-run-init :
    (sample : List String → List String) (items : List String) (policy : RateLimitPolicy)
    (algorithm : String) (provider_name : Option String) (cs : List Call) (nows : ℕ → ℕ)
    (model : Option String)
    → let pool = run (init sample items policy algorithm provider_name) cs in
      IsValid pool
      × (((item : String) × ((next nows model pool).1 ≡ some (ok item)))
          ⊎ ((next nows model pool).1 ≡ some (err too_many_requests)))
unfolding Ends
next-run-init sample items policy algorithm provider_name cs nows model =
    let v = run-IsValid _ cs (init-IsValid sample items policy algorithm provider_name) in
    (v, next-Ends nows model _ v)

mod_prev : (a j n : ℕ) → 0 < n → ((a + suc j) % n + n - 1) % n ≡ (a + j) % n
mod_prev a j n pos =
    ap (λ (t : ℕ). t % n) (split ((a + suc j) % n))
    ∙ mod-add-mod (a + suc j) n (n - 1)
    ∙ ap (λ (t : ℕ). t % n) regroup
    ∙ add-mod_right (a + j) n
  where
    split : (x : ℕ) → x + n - 1 ≡ x + (n - 1)
    split x = omega arith

    regroup : a + suc j + (n - 1) ≡ a + j + n
    regroup = omega arith

-- After a successful `next`, `after_next_current` names the key that was returned.
pub after_next_current-next :
    (nows : ℕ → ℕ) (model : Option String) (pool : ProviderKeyPool) {item : String}
    → pool.index < length pool.items
    → (next nows model pool).1 ≡ some (ok item)
    → after_next_current (next nows model pool).0 ≡ some item
unfolding after_next_current
after_next_current-next nows model pool {item} lt h = elim (next-Outcome nows model pool lt) [
  | inl (j, found, lj, at, before, fine, e) ↦
      let ready = prepare pool.schedule_algorithm pool in
      let same : found ≡ item =
        cc (ap (λ (r : ProviderKeyPool × Option (Result PoolError String)). r.1) e) in
      let back = mod_prev ready.index j (length ready.items) (omega arith) in rw (e, back, at) (cc)
  | inr (all, e) ↦ cc (ap (λ (r : ProviderKeyPool × Option (Result PoolError String)). r.1) e)
]

-- No key before the i-th has the fingerprint.
abbrev pub NoneBefore : (String → String) → String → List String → ℕ → Type 0
NoneBefore f fingerprint items i =
    (j : ℕ) (key : String) → j < i → get_elem? items j ≡ some key → f key ≢ fingerprint

NoneBefore-suc :
    (f : String → String) (fingerprint item : String) (items : List String) (i : ℕ)
    → str_eq (f item) fingerprint ≡ false
    → NoneBefore f fingerprint items i
    → NoneBefore f fingerprint (item ∷ items) (suc i)
NoneBefore-suc f fingerprint item items i no_match h zero key lt e =
    ground (arith, str_eq_iff (f item) fingerprint)
NoneBefore-suc f fingerprint item items i no_match h (suc j) key lt e = h j key (omega arith) e

find_fingerprint_cases :
    (f : String → String) (fingerprint : String) (items : List String)
    → ((find_fingerprint f fingerprint items ≡ none)
        × NoneBefore f fingerprint items (length items))
      ⊎ ((i : ℕ) × (key : String) × (get_elem? items i ≡ some key)
          × (f key ≡ fingerprint)
          × NoneBefore f fingerprint items i
          × (find_fingerprint f fingerprint items ≡ some key))
unfolding find_fingerprint
find_fingerprint_cases f fingerprint [] = inl (refl, λ j key lt e. elim lt [ ])
find_fingerprint_cases f fingerprint (item ∷ items) =
    elim (Bool-cases (str_eq (f item) fingerprint)) [
      | inl hit ↦ inr (0, item, refl, (str_eq_iff _ _).0 hit, λ j key lt e. elim lt [ ], rw hit)
      | inr miss ↦ elim (find_fingerprint_cases f fingerprint items) [
        | inl (gone, before) ↦
            inl (rw miss gone, NoneBefore-suc f fingerprint item items (length items) miss before)
        | inr (i, key, at, same, before, found) ↦ inr (
          suc i,
          key,
          at,
          same,
          NoneBefore-suc f fingerprint item items i miss before,
          rw miss found,
        )
      ]
    ]

-- No key has the fingerprint; or the first that has it is checked, and recorded if it is not limited.
abbrev pub Claimed :
    ℕ
    → String
    → (String → String)
    → Option String
    → ProviderKeyPool
    → ProviderKeyPool × Result PoolError (Option String)
    → Type 0
Claimed now fingerprint f model pool r =
    ((r ≡ (pool, ok none)) × NoneBefore f fingerprint pool.items (length pool.items))
    ⊎ ((i : ℕ) × (key : String) × (get_elem? pool.items i ≡ some key)
        × (f key ≡ fingerprint)
        × NoneBefore f fingerprint pool.items i
        × (let checked = State.is_rate_limited now key model pool.policy true pool.state in
            r ≡ (
              record pool { state = checked.0 },
              (if checked.1 then err bound_credential_unavailable else ok (some key)),
            )))

-- A claim by fingerprint never rotates: either no key has the fingerprint, and nothing changes; or
-- the first key that has it is checked, and recorded if it is not limited, and is returned, or refused
-- if it is limited. The keys and the index stay as they are.
pub claim_by_fingerprint_cases :
    (now : ℕ) (fingerprint : String) (f : String → String) (model : Option String)
    (pool : ProviderKeyPool)
    → Claimed now fingerprint f model pool (claim_by_fingerprint now fingerprint f model pool)
unfolding claim_by_fingerprint
claim_by_fingerprint_cases now fingerprint f model pool =
    elim (find_fingerprint_cases f fingerprint pool.items) [
      | inl (gone, before) ↦ inl (ground arith, before)
      | inr (i, key, at, same, before, found) ↦ inr (i, key, at, same, before, ground arith)
    ]
