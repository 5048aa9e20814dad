-- ===== src/Tests/KeyPool.antt =====
-- Tests of the model of uni_api/rate_limit/key_pool.py.
use uni_api.Prelude.{ℕ, String, ◌≡◌, refl, ◌⊎◌, false, none, some, [], ◌∷◌, arith, update, ok, err}
use uni_api.Prelude.Int.{pos}
use uni_api.RateLimit.Policy.{RateLimitPolicy, rules_for, fallback, lookup}
use uni_api.RateLimit.Windows.{
  window, set_window, has_period, add_period, positive_periods, drop_expired, prune, is_full,
  record_request, check_windows, ticks,
}
use uni_api.RateLimit.State.{set_windows, is_rate_limited}
use uni_api.RateLimit.State
use uni_api.RateLimit.KeyPool.{
  ProviderKeyPool, too_many_requests, round_robin, init, normalize_schedule_algorithm,
  trigger_reorder, next, next_loop, prepare, find_fingerprint, claim_by_fingerprint,
  after_next_current,
}
use uni_api.RateLimit.KeyPool.Rotation.{Outcome, next-Outcome}
use uni_api.RateLimit.KeyPool.Claims.{
  nexts, resets, run, step, IsValid, next-run-init, after_next_current-next,
  claim_by_fingerprint_cases, Claimed,
}

program : Unit {0}
unfolding rules_for fallback lookup window set_window has_period add_period positive_periods
    drop_expired prune is_full record_request check_windows ticks set_windows is_rate_limited
    State.init init normalize_schedule_algorithm trigger_reorder next next_loop prepare
    find_fingerprint claim_by_fingerprint after_next_current run step update
program = tt

-- One request a second for each of two keys.
abbrev policy : RateLimitPolicy
policy = ("default", record { count = 1; period_seconds = pos 1 } ∷ []) ∷ []

abbrev pool : ProviderKeyPool
pool = record {
  provider_name = none;
  original_items = "a" ∷ "b" ∷ [];
  schedule_algorithm = round_robin;
  items = "a" ∷ "b" ∷ [];
  index = 1;
  state = record { requests = λ item model. []; cooling_until = λ item. 0 };
  policy = policy;
  reordering = false;
}

abbrev clock : ℕ → ℕ
clock k = 100

-- The second key, then the first, then nothing.
next_twice :
    let p = next clock none pool in
    let q = next clock none p.0 in
    (p.1 ≡ some (ok "b"))
    × (q.1 ≡ some (ok "a"))
    × ((next clock none q.0).1 ≡ some (err too_many_requests))
unfolding program
next_twice = (refl, refl, refl)

next-Outcome_example :
    Outcome clock none
      (prepare round_robin pool)
      (prepare round_robin pool).index
      (next clock none pool)
next-Outcome_example = next-Outcome clock none pool (omega arith)

next-run-init_example :
    let p =
      run
        (init (λ l. l) ("a" ∷ "b" ∷ []) policy "random" none)
        (nexts clock none ∷ resets ("c" ∷ []) ∷ []) in
    IsValid p
    × (((item : String) × ((next clock none p).1 ≡ some (ok item)))
        ⊎ ((next clock none p).1 ≡ some (err too_many_requests)))
next-run-init_example =
    next-run-init (λ l. l) ("a" ∷ "b" ∷ []) policy "random" none
      (nexts clock none ∷ resets ("c" ∷ []) ∷ []) clock none

after_next_current_example : after_next_current (next clock none pool).0 ≡ some "b"
unfolding program
after_next_current_example = after_next_current-next clock none pool (omega arith) refl

claim_by_fingerprint_example :
    Claimed 100 "b" (λ k. k) none pool (claim_by_fingerprint 100 "b" (λ k. k) none pool)
claim_by_fingerprint_example = claim_by_fingerprint_cases 100 "b" (λ k. k) none pool
