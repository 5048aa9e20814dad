-- ===== src/RateLimit/KeyPool.antt =====
-- uni_api/rate_limit/key_pool.py: `ProviderKeyPool`. `nows k` is the clock at the k-th check of a
-- call. A reorder task is the field `reordering`, true from its start to its end; its end is `finish_reorder`.
pub mod Rotation
pub mod Claims
use uni_api.Prelude.{
  ℕ, zero, suc, ◌+◌, ◌-◌, ◌%◌, String, Bool, true, false, not, ◌&&◌, Option, none, some, List, [],
  ◌∷◌, ◌==◌, if◌then◌else◌, length, get_elem?, str_eq, Result, ok, err,
}
use uni_api.RateLimit.Policy.{RateLimitPolicy}
use uni_api.RateLimit.State.{RateLimitState}
use uni_api.RateLimit.State

pub data ScheduleAlgorithm : Type 0 where
  round_robin random fixed_priority smart_round_robin : ScheduleAlgorithm

-- Any other text means `round_robin`.
unfoldable pub normalize_schedule_algorithm : String → ScheduleAlgorithm
normalize_schedule_algorithm text =
    if str_eq text "random"
    then random
    else if str_eq text "fixed_priority"
    then fixed_priority
    else if str_eq text "smart_round_robin"
    then smart_round_robin
    else round_robin

pub record ProviderKeyPool : Type 0 where
  pub provider_name : Option String
  pub original_items : List String
  pub schedule_algorithm : ScheduleAlgorithm
  pub items : List String
  pub index : ℕ
  pub state : RateLimitState
  pub policy : RateLimitPolicy
  pub reordering : Bool

pub data PoolError : Type 0 where
  too_many_requests bound_credential_unavailable index_error : PoolError

is_named : Option String → Bool
is_named none = false
is_named (some name) = not (str_eq name "")

-- With an event loop running: a task starts for a named pool that has none.
unfoldable pub trigger_reorder : ProviderKeyPool → ProviderKeyPool
unfolding is_named
trigger_reorder pool =
    if is_named pool.provider_name && not pool.reordering
    then record pool { reordering = true }
    else pool

is_smart : ScheduleAlgorithm → Bool
is_smart smart_round_robin = true
is_smart _ = false

shuffled : (List String → List String) → ScheduleAlgorithm → List String → List String
shuffled sample random items = sample items
shuffled sample _ items = items

-- `sample` is `random.sample(items, len(items))`.
unfoldable pub init :
    (List String → List String)
    → List String
    → RateLimitPolicy
    → String
    → Option String
    → ProviderKeyPool
unfolding is_smart shuffled
init sample items policy algorithm provider_name =
    let schedule = normalize_schedule_algorithm algorithm in
    let pool = start schedule in if is_smart schedule then trigger_reorder pool else pool
  where
    start : ScheduleAlgorithm → ProviderKeyPool
    start schedule = record {
      provider_name = provider_name;
      original_items = items;
      schedule_algorithm = schedule;
      items = shuffled sample schedule items;
      index = 0;
      state = State.init;
      policy = policy;
      reordering = false;
    }

abbrev same_items : List String → List String → Bool
same_items [] [] = true
same_items (x ∷ xs) (y ∷ ys) = str_eq x y && same_items xs ys
same_items _ _ = false

unfoldable pub reset_items : List String → ProviderKeyPool → ProviderKeyPool
reset_items new_items pool =
    if same_items pool.items new_items then pool else record pool { items = new_items; index = 0 }

-- The end of `_reorder_keys`: `_load_reordered_items` gave these keys, or nothing.
unfoldable pub finish_reorder : Option (List String) → ProviderKeyPool → ProviderKeyPool
finish_reorder none pool = record pool { reordering = false }
finish_reorder (some []) pool = record pool { reordering = false }
finish_reorder (some (key ∷ keys)) pool = record (reset_items (key ∷ keys) pool) {
  reordering = false;
}

-- The `while True` of `next`, from its k-th round on.
unfoldable pub next_loop :
    ℕ
    → (ℕ → ℕ)
    → ℕ
    → ℕ
    → Option String
    → ProviderKeyPool
    → ProviderKeyPool × Option (Result PoolError String)
next_loop zero nows k start model pool = (pool, none)
next_loop (suc fuel) nows k start model pool = elim (get_elem? pool.items pool.index) [
  | none ↦ (pool, some (err index_error))
  | some item ↦
      let (s, limited) = State.is_rate_limited (nows k) item model pool.policy true pool.state in
      let index = (pool.index + 1) % length pool.items in
      let pool' = record pool { index = index; state = s } in
      let rest = next_loop fuel nows (k + 1) start model pool' in
      if not limited
      then (pool', some (ok item))
      else if index == start
      then (pool', some (err too_many_requests))
      else rest
]

-- Where `next` starts, and the pool then: `fixed_priority` starts at the first item.
unfoldable pub prepare : ScheduleAlgorithm → ProviderKeyPool → ProviderKeyPool
prepare fixed_priority pool = record pool { index = 0 }
prepare smart_round_robin pool =
    if pool.index + 1 == length pool.items then trigger_reorder pool else pool
prepare _ pool = pool

-- As many rounds as there are items are enough.
unfoldable pub next :
    (ℕ → ℕ) → Option String → ProviderKeyPool → ProviderKeyPool × Option (Result PoolError String)
next nows model pool = elim pool.items [
  | [] ↦ (pool, some (err too_many_requests))
  | _ ∷ _ ↦
      let ready = prepare pool.schedule_algorithm pool in
      next_loop (length pool.items) nows 0 ready.index model ready
]

-- `hmac.compare_digest` on two texts is equality.
unfoldable pub find_fingerprint : (String → String) → String → List String → Option String
find_fingerprint fingerprint_item fingerprint [] = none
find_fingerprint fingerprint_item fingerprint (item ∷ items) =
    if str_eq (fingerprint_item item) fingerprint
    then some item
    else find_fingerprint fingerprint_item fingerprint items

unfoldable pub claim_by_fingerprint :
    ℕ
    → String
    → (String → String)
    → Option String
    → ProviderKeyPool
    → ProviderKeyPool × Result PoolError (Option String)
claim_by_fingerprint now fingerprint fingerprint_item model pool =
    elim (find_fingerprint fingerprint_item fingerprint pool.items) [
      | none ↦ (pool, ok none)
      | some item ↦
          let (s, limited) = State.is_rate_limited now item model pool.policy true pool.state in
          let pool' = record pool { state = s } in
          if limited then (pool', err bound_credential_unavailable) else (pool', ok (some item))
    ]

unfoldable pub all_limited :
    (ℕ → ℕ)
    → ℕ
    → Option String
    → RateLimitPolicy
    → List String
    → RateLimitState
    → RateLimitState × Bool
all_limited nows k model policy [] s = (s, true)
all_limited nows k model policy (item ∷ items) s =
    let (s', limited) = State.is_rate_limited (nows k) item model policy false s in
    let rest = all_limited nows (k + 1) model policy items s' in
    if limited then rest else (s', false)

unfoldable pub is_all_rate_limited :
    (ℕ → ℕ) → Option String → ProviderKeyPool → ProviderKeyPool × Bool
is_all_rate_limited nows model pool = elim pool.items [
  | [] ↦ (pool, false)
  | _ ∷ _ ↦
      let (s, limited) = all_limited nows 0 model pool.policy pool.items pool.state in
      (record pool { state = s }, limited)
]

-- `self.items[(self.index - 1) % len(self.items)]`, with Python's `%`
unfoldable pub after_next_current : ProviderKeyPool → Option String
after_next_current pool =
    get_elem? pool.items ((pool.index + length pool.items - 1) % length pool.items)

unfoldable pub set_cooling : ℕ → String → ℕ → ProviderKeyPool → ProviderKeyPool
set_cooling now item cooling_time pool = record pool {
  state = State.set_cooling now (some item) cooling_time pool.state;
}

unfoldable pub is_rate_limited :
    ℕ → String → Option String → Bool → ProviderKeyPool → ProviderKeyPool × Bool
is_rate_limited now item model is_check pool =
    let (s, limited) = State.is_rate_limited now item model pool.policy (not is_check) pool.state in
    (record pool { state = s }, limited)

unfoldable pub rollback_rate_limit_record :
    String → Option String → ProviderKeyPool → ProviderKeyPool
rollback_rate_limit_record item model pool = record pool {
  state = State.rollback_last_record item model pool.state;
}

unfoldable pub is_tpr_exceeded : Option String → ℕ → ProviderKeyPool → Bool
is_tpr_exceeded model tokens pool = State.is_tpr_exceeded model tokens pool.policy
