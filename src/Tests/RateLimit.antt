-- ===== src/Tests/RateLimit.antt =====
-- Tests of the model of uni_api/rate_limit/policy.py and state.py.
use uni_api.Prelude.{
  ℕ, ◌+◌, ◌<◌, ◌≡◌, refl, ◌↔◌, true, none, some, List, [], ◌∷◌, arith, get_elem?, update,
}
use uni_api.Prelude.Int.{pos, negsuc}
use uni_api.RateLimit.Policy.{
  RateLimitRule, RateLimitPolicy, rules_for, rules_for_named, lookup, partial_match, contains_text,
  fallback, is_tpr,
}
use uni_api.RateLimit.Windows.{
  window, set_window, has_period, add_period, positive_periods, drop_expired, prune, is_full,
  record_request, pop_last, rollback, check_windows, ticks,
}
use uni_api.RateLimit.Windows.Sliding.{Spaced}
use uni_api.RateLimit.State.{
  RateLimitState, init, set_windows, set_cooling, is_rate_limited, rollback_last_record,
  is_tpr_exceeded, tpr_exceeded,
}
use uni_api.RateLimit.State.Traffic.{
  Call, request, cool, roll_back, recorded, note, step, run, recorded-Spaced,
}
use uni_api.RateLimit.State.Rollback.{
  rollback_last_record-is_rate_limited, is_rate_limited-run-set_cooling, is_tpr_exceeded_iff,
}

-- All that a run of the limiter computes with.
program : Unit {0}
unfolding rules_for rules_for_named lookup partial_match contains_text fallback window set_window
    has_period add_period positive_periods drop_expired prune is_full record_request pop_last
    rollback check_windows ticks init set_windows set_cooling is_rate_limited rollback_last_record
    is_tpr_exceeded tpr_exceeded step run recorded note update
program = tt

-- Two requests a minute; for models with "gpt" in their name 1000 tokens a request too.
abbrev policy : RateLimitPolicy
policy =
    ("default", record { count = 2; period_seconds = pos 60 } ∷ [])
    ∷ (
      "gpt",
      record { count = 2; period_seconds = pos 60 }
          ∷ record { count = 1000; period_seconds = negsuc 0 }
          ∷ [],
    )
    ∷ []

abbrev calls : List Call
calls =
    request 0 "k" none true
    ∷ request 10 "k" none true
    ∷ request 20 "k" none true
    ∷ cool 30 (some "k") 1
    ∷ request 60_000_000 "k" none true
    ∷ request 60_000_001 "k" none true
    ∷ roll_back 60_000_002 "k" none
    ∷ []

-- The third request is refused; the fourth comes when the first has left the window, and is taken back.
refused_in_between : recorded policy "k" none init calls [] ≡ 0 ∷ 10 ∷ []
unfolding program
refused_in_between = refl

-- A rollback for the first request takes the record of the second: with the first, two more requests are
-- recorded within a minute after the second.
abbrev wrong_record : List Call
wrong_record =
    request 0 "k" none true
    ∷ request 50_000_000 "k" none true
    ∷ roll_back 55_000_000 "k" none
    ∷ request 60_000_000 "k" none true
    ∷ request 60_000_001 "k" none true
    ∷ []

wrong_record_taken :
    recorded policy "k" none init wrong_record [] ≡ 0 ∷ 60_000_000 ∷ 60_000_001 ∷ []
unfolding program
wrong_record_taken = refl

recorded-Spaced_example : Spaced 60 2 (recorded policy "k" none init calls [])
unfolding program
recorded-Spaced_example =
    recorded-Spaced policy "k" none 0 60 {rule = record { count = 2; period_seconds = pos 60 }} refl
      refl calls (omega arith)
      ((λ e. refl), ((λ e. refl), ((λ e. refl), (tt, ((λ e. refl), ((λ e. refl), (tt, tt)))))))

rollback_example :
    window 60 (
      (rollback_last_record "k" none (is_rate_limited 5 "k" none policy true init).0).requests "k"
        "default")
    ≡ []
unfolding program
rollback_example = rollback_last_record-is_rate_limited 5 60 "k" "k" "default" none policy init refl

-- Another item is cooled, and the item itself checked, before the check.
abbrev while_cooled : List Call
while_cooled = cool 5 (some "j") 1 ∷ request 10 "k" none true ∷ roll_back 20 "k" none ∷ []

abbrev cooled : RateLimitState
cooled = set_cooling 0 (some "k") 1 init

early : 999_999 < 0 + ticks 1
unfolding program
early = omega arith

is_rate_limited-run-set_cooling_example :
    is_rate_limited 999_999 "k" none policy true (run policy cooled while_cooled)
    ≡ (run policy cooled while_cooled, true)
is_rate_limited-run-set_cooling_example =
    is_rate_limited-run-set_cooling 0 999_999 1 "k" none policy true init while_cooled
      (refl, (tt, (tt, tt))) early

tpr_example : (is_tpr_exceeded (some "gpt-4") 1001 policy ≡ true) ↔ (
    (k : ℕ) × (rule : RateLimitRule) × (get_elem? (rules_for policy (some "gpt-4")) k ≡ some rule)
    × (is_tpr rule.period_seconds ≡ true)
    × (rule.count < 1001))
tpr_example = is_tpr_exceeded_iff (some "gpt-4") 1001 policy
