-- ===== src/RateLimit/State.antt =====
-- uni_api/rate_limit/state.py: `RateLimitState`. The nested dictionaries with defaults are
-- functions; a reading of the clock is an argument.
pub mod Traffic
pub mod Rollback
use uni_api.Prelude.{
  ℕ, ◌+◌, String, Bool, true, false, ◌&&◌, Option, none, some, List, [], ◌∷◌, ltb, ◌==◌,
  if◌then◌else◌, update,
}
use uni_api.RateLimit.Policy.{RateLimitRule, RateLimitPolicy, rules_for, model_key, is_tpr}
use uni_api.RateLimit.Windows.{Windows, ticks, check_windows, rollback}

pub record RateLimitState : Type 0 where
  pub requests : String → String → Windows
  pub cooling_until : String → ℕ

unfoldable pub init : RateLimitState
init = record { requests = λ item model. []; cooling_until = λ item. 0 }

-- `requests[item][model] = ws`
unfoldable pub set_windows : String → String → Windows → RateLimitState → RateLimitState
unfolding update
set_windows item model ws s = record s {
  requests = update item (update model ws (s.requests item)) s.requests;
}

unfoldable pub set_cooling : ℕ → Option String → ℕ → RateLimitState → RateLimitState
unfolding update
set_cooling now none cooling_time s = s
set_cooling now (some item) cooling_time s = record s {
  cooling_until = update item (now + ticks cooling_time) s.cooling_until;
}

unfoldable pub is_rate_limited :
    ℕ → String → Option String → RateLimitPolicy → Bool → RateLimitState → RateLimitState × Bool
is_rate_limited now item model policy commit s =
    let (ws, limited) =
      check_windows now (rules_for policy model) commit (s.requests item (model_key model)) in
    if ltb now (s.cooling_until item)
    then (s, true)
    else (set_windows item (model_key model) ws s, limited)

unfoldable pub rollback_last_record : String → Option String → RateLimitState → RateLimitState
rollback_last_record item model s =
    set_windows item (model_key model) (rollback (s.requests item (model_key model))) s

-- The loop of `is_tpr_exceeded`.
unfoldable pub tpr_exceeded : ℕ → List RateLimitRule → Bool
tpr_exceeded tokens [] = false
tpr_exceeded tokens (rule ∷ rules) =
    if is_tpr rule.period_seconds && ltb rule.count tokens then true else tpr_exceeded tokens rules

unfoldable pub is_tpr_exceeded : Option String → ℕ → RateLimitPolicy → Bool
is_tpr_exceeded model tokens policy =
    if tokens == 0 then false else tpr_exceeded tokens (rules_for policy model)
