-- ===== src/RateLimit/KeyPool/Rotation.antt =====
-- What `next` returns: the first key, in rotation order, that is not limited.
use native.Mathlib.Numerals.{add-one}
use mathlib.Core.Path.{subst}
use native.Mathlib.Nat.{add-zero, mod-eq_of_lt, mod-eq-sub-mod, mod-add-mod}
use uni_api.Prelude.{
  ℕ, zero, suc, ◌+◌, ◌-◌, ◌%◌, ◌<◌, String, ◌≡◌, refl, sym, ap, ◌∙◌, ◌⊎◌, inl, inr, Bool, true,
  false, not, Option, none, some, List, arith, ◌==◌, if◌then◌else◌, ==_iff, Bool-cases, length,
  get_elem?, get_elem?_total, Result, ok, err,
}
use uni_api.RateLimit.Policy.{RateLimitPolicy}
use uni_api.RateLimit.State.{RateLimitState, is_rate_limited}
use uni_api.RateLimit.KeyPool.{
  ProviderKeyPool, PoolError, too_many_requests, ScheduleAlgorithm, fixed_priority, round_robin,
  random, smart_round_robin, next_loop, prepare, next, trigger_reorder,
}

mod_step : (a n : ℕ) → (a % n + 1) % n ≡ suc a % n
mod_step a n = mod-add-mod a n 1 ∙ ap (λ (t : ℕ). t % n) (omega arith)

-- Within one round, a step leads back to `start` exactly when the round is complete.
mod_back : (start k n : ℕ) → start < n → k < n → (start + suc k) % n ≡ start → suc k ≡ n
mod_back start k n lt le h = grind (arith, mod-eq_of_lt, mod-eq-sub-mod)

mod_full : (start n : ℕ) → start < n → (start + n) % n ≡ start
mod_full start n lt = grind (arith, mod-eq_of_lt, mod-eq-sub-mod)

module _ (nows : ℕ → ℕ) (model : Option String) (policy : RateLimitPolicy) (items : List String)
    (start : ℕ) where
  -- The key that stands k places after `start`, cyclically.
  abbrev pub candidate : ℕ → Option String
  candidate k = get_elem? items ((start + k) % length items)

  -- The check of the k-th candidate, in the state that the checks before it left.
  abbrev pub check_at : ℕ → RateLimitState → RateLimitState × Bool
  check_at k s = elim (candidate k) [
    | none ↦ (s, false)
    | some item ↦ is_rate_limited (nows k) item model policy true s
  ]

  unfoldable pub state_after : ℕ → RateLimitState → RateLimitState
  state_after zero s = s
  state_after (suc k) s = (check_at k (state_after k s)).0

  -- Whether the k-th candidate is refused, all before it having been checked.
  abbrev pub refused : RateLimitState → ℕ → Bool
  refused s k = (check_at k (state_after k s)).1

  -- Every candidate before the k-th is refused.
  abbrev pub AllRefused : RateLimitState → ℕ → Type 0
  AllRefused s k = (j : ℕ) → j < k → refused s j ≡ true

  AllRefused-suc :
      (s : RateLimitState) (k : ℕ) → AllRefused s k → refused s k ≡ true → AllRefused s (suc k)
  AllRefused-suc s k h r j lt = elim (Bool-cases (j == k)) [
    | inl same ↦ let e : j ≡ k = (==_iff j k).0 same in rw e r
    | inr other ↦ h j (ground arith)
  ]

module _ (nows : ℕ → ℕ) (model : Option String) (pool : ProviderKeyPool) (start : ℕ) where
  abbrev Refused : ℕ → Type 0
  Refused k = AllRefused nows model pool.policy pool.items start pool.state k

  abbrev candidate_at : ℕ → Option String
  candidate_at k = candidate nows model pool.policy pool.items start k

  abbrev is_refused : ℕ → Bool
  is_refused k = refused nows model pool.policy pool.items start pool.state k

  -- The pool after k refusals.
  abbrev pub pool_after : ℕ → ProviderKeyPool
  pool_after k = record pool {
    index = (start + k) % length pool.items;
    state = state_after nows model pool.policy pool.items start k pool.state;
  }

  -- Either some key is the first that is not limited, and it is returned with the index behind
  -- it; or all keys are limited, each was tried once, and the index is back where it was.
  abbrev pub Outcome : ProviderKeyPool × Option (Result PoolError String) → Type 0
  Outcome r =
      ((j : ℕ) × (item : String) × (j < length pool.items)
        × (candidate_at j ≡ some item)
        × Refused j
        × (is_refused j ≡ false)
        × (r ≡ (pool_after (suc j), some (ok item))))
      ⊎ (Refused (length pool.items)
          × (r ≡ (pool_after (length pool.items), some (err too_many_requests))))

  advanced : ℕ → ProviderKeyPool
  advanced k = record pool {
    index = ((start + k) % length pool.items + 1) % length pool.items;
    state =
        (check_at nows model pool.policy pool.items start k
          (state_after nows model pool.policy pool.items start k pool.state)).0;
  }

  advanced-pool_after : (k : ℕ) → advanced k ≡ pool_after (suc k)
  unfolding advanced state_after
  advanced-pool_after k = ground (
    arith,
    mod_step (start + k) (length pool.items),
    ap (λ (t : ℕ). t % length pool.items) (suc_add start k),
  )
    where
      suc_add : (a b : ℕ) → suc (a + b) ≡ a + suc b
      suc_add a b = omega arith

  next_loop_step :
      (fuel k : ℕ) (item : String)
      → candidate_at k ≡ some item
      → next_loop (suc fuel) nows k start model (pool_after k) ≡ (
          if not (is_refused k)
          then (advanced k, some (ok item))
          else if (advanced k).index == start
          then (advanced k, some (err too_many_requests))
          else next_loop fuel nows (k + 1) start model (advanced k))
  unfolding next_loop advanced
  next_loop_step fuel k item found = ground arith

  advanced_index : (k : ℕ) → (advanced k).index ≡ (start + suc k) % length pool.items
  advanced_index k = ap (λ (p : ProviderKeyPool). p.index) (advanced-pool_after k)

  -- One round, seen from outside.
  next_loop_found :
      (fuel k : ℕ) (item : String)
      → candidate_at k ≡ some item
      → is_refused k ≡ false
      → next_loop (suc fuel) nows k start model (pool_after k)
        ≡ (pool_after (suc k), some (ok item))
  next_loop_found fuel k item found fine =
      ground (arith, next_loop_step fuel k item found, advanced-pool_after k)

  next_loop_back :
      (fuel k : ℕ) (item : String)
      → candidate_at k ≡ some item
      → is_refused k ≡ true
      → start < length pool.items
      → suc k ≡ length pool.items
      → next_loop (suc fuel) nows k start model (pool_after k)
        ≡ (pool_after (length pool.items), some (err too_many_requests))
  next_loop_back fuel k item found bad lt e = ground (
    arith,
    next_loop_step fuel k item found,
    advanced-pool_after k,
    advanced_index k,
    mod_full start (length pool.items) lt,
    ap pool_after e,
    ap (λ (t : ℕ). (start + t) % length pool.items) e,
  )

  next_loop_again :
      (fuel k : ℕ) (item : String)
      → candidate_at k ≡ some item
      → is_refused k ≡ true
      → start < length pool.items
      → suc k < length pool.items
      → next_loop (suc fuel) nows k start model (pool_after k)
        ≡ next_loop fuel nows (suc k) start model (pool_after (suc k))
  next_loop_again fuel k item found bad lt le = ground (
    arith,
    next_loop_step fuel k item found,
    advanced-pool_after k,
    advanced_index k,
    mod_back start k (length pool.items) lt,
    add-one k,
  )

  Refused-suc : (k : ℕ) → Refused k → is_refused k ≡ true → Refused (suc k)
  Refused-suc k h bad = AllRefused-suc nows model pool.policy pool.items start pool.state k h bad

  Refused-all :
      (k : ℕ)
      → Refused k
      → is_refused k ≡ true
      → suc k ≡ length pool.items
      → Refused (length pool.items)
  Refused-all k h bad e = subst (λ n. Refused n) e (Refused-suc k h bad)

  in_range :
      start < length pool.items → (k : ℕ) → (start + k) % length pool.items < length pool.items
  in_range lt k = omega arith

  next_loop-Outcome :
      (fuel k : ℕ)
      → start < length pool.items
      → k + suc fuel ≡ length pool.items
      → Refused k
      → Outcome (next_loop (suc fuel) nows k start model (pool_after k))
  next_loop-Outcome zero k lt e h =
      let (item, found) = get_elem?_total pool.items _ (in_range lt k) in
      elim (Bool-cases (is_refused k)) [
        | inl bad ↦ inr (
          Refused-all k h bad (omega arith),
          next_loop_back zero k item found bad lt (omega arith),
        )
        | inr fine ↦
            inl (k, item, omega arith, found, h, fine, next_loop_found zero k item found fine)
      ]
  next_loop-Outcome (suc fuel) k lt e h =
      let (item, found) = get_elem?_total pool.items _ (in_range lt k) in
      elim (Bool-cases (is_refused k)) [
        | inl bad ↦
            rw (next_loop_again (suc fuel) k item found bad lt (omega arith))
              (next_loop-Outcome fuel (suc k) lt (omega arith) (Refused-suc k h bad))
        | inr fine ↦
            inl (k, item, omega arith, found, h, fine, next_loop_found (suc fuel) k item found fine)
      ]

  -- From the index on, with the pool's own state.
  pub next_loop-length :
      pool.index ≡ start
      → start < length pool.items
      → Outcome (next_loop (length pool.items) nows 0 start model pool)
  unfolding state_after
  next_loop-length at lt =
      let same : pool_after 0 ≡ pool = ground (arith, mod-eq_of_lt lt, add-zero start) in
      let count : length pool.items ≡ suc (length pool.items - 1) = omega arith in
      let base : Outcome
          (next_loop (suc (length pool.items - 1)) nows 0 start model (pool_after 0)) =
        next_loop-Outcome (length pool.items - 1) 0 lt (omega arith) (λ j h. elim h [ ]) in
      let counted =
        subst (λ n. Outcome (next_loop n nows 0 start model (pool_after 0))) (sym count) base in
      subst (λ q. Outcome (next_loop (length pool.items) nows 0 start model q)) same counted

pub prepare-items :
    (algorithm : ScheduleAlgorithm) (pool : ProviderKeyPool)
    → pool.index < length pool.items
    → ((prepare algorithm pool).items ≡ pool.items)
      × ((prepare algorithm pool).index < length pool.items)
unfolding prepare trigger_reorder
prepare-items fixed_priority pool lt = (refl, omega arith)
prepare-items smart_round_robin pool lt = ground arith
prepare-items round_robin pool lt = (refl, lt)
prepare-items random pool lt = (refl, lt)

next-loop :
    (nows : ℕ → ℕ) (model : Option String) (pool : ProviderKeyPool)
    → pool.index < length pool.items
    → let ready = prepare pool.schedule_algorithm pool in
      next nows model pool ≡ next_loop (length ready.items) nows 0 ready.index model ready
unfolding next
next-loop nows model pool lt =
    ground (arith, ap length (prepare-items pool.schedule_algorithm pool lt).0)

-- A pool whose index is in range has keys, and `next` ends. It returns the first key in rotation
-- order, from where the pool's algorithm starts, that is not limited when its turn comes, having recorded the
-- request, and moves the index behind that key; or each key was tried once and was limited,
-- and it fails with the index where it started.
pub next-Outcome :
    (nows : ℕ → ℕ) (model : Option String) (pool : ProviderKeyPool)
    → pool.index < length pool.items
    → let ready = prepare pool.schedule_algorithm pool in
      Outcome nows model ready ready.index (next nows model pool)
next-Outcome nows model pool lt =
    let (same, ready_lt) = prepare-items pool.schedule_algorithm pool lt in
    let ready = prepare pool.schedule_algorithm pool in
    rw (next-loop nows model pool lt)
      (next_loop-length nows model ready ready.index refl (rw same ready_lt))
