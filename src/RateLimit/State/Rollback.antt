-- ===== src/RateLimit/State/Rollback.antt =====
-- Taking back a recorded request, and cooling an item.
use uni_api.Prelude.{
  ℕ, zero, suc, ◌+◌, ◌<◌, String, ◌≡◌, refl, ap, ◌∙◌, ◌↔◌, inl, inr, Bool, true, false, ◌&&◌,
  Option, none, some, List, [], ◌∷◌, ◌++◌, arith, ltb, if◌then◌else◌, ltb→lt, lt→ltb, Bool-cases,
  &&-eq-true, get_elem?, All, str_eq, str_eq_iff, update, update_self,
}
use uni_api.RateLimit.Policy.{RateLimitRule, RateLimitPolicy, rules_for, model_key, is_tpr}
use uni_api.RateLimit.Windows.{
  Windows, ticks, window, has_period, positive_periods, prune, record_request, pop_last, rollback,
  check_windows,
}
use uni_api.RateLimit.Windows.Lookup.{
  window-record_request, positive_periods-Distinct, window-prune, window-rollback,
}
use uni_api.RateLimit.State.{
  RateLimitState, set_windows, set_cooling, is_rate_limited, rollback_last_record, tpr_exceeded,
  is_tpr_exceeded,
}
use uni_api.RateLimit.State.Traffic.{
  requests-set_windows, Call, request, cool, roll_back, step, run,
}

pop_last-append : (w : List ℕ) (x : ℕ) → pop_last (w ++ x ∷ []) ≡ w
unfolding pop_last
pop_last-append [] x = refl
pop_last-append (y ∷ []) x = refl
pop_last-append (y ∷ z ∷ w) x = ap (◌∷◌ y) (pop_last-append (z ∷ w) x)

check_windows-rollback :
    (now q : ℕ) (rules : List RateLimitRule) (ws : Windows)
    → (check_windows now rules true ws).1 ≡ false
    → window q (rollback (check_windows now rules true ws).0) ≡ (
        if has_period q (positive_periods rules)
        then window q (check_windows now rules false ws).0
        else pop_last (window q ws))
unfolding check_windows
check_windows-rollback now q rules ws h =
    let ps = positive_periods rules in
    let pruned = prune now ps ws in
    ground (
      arith,
      window-rollback q (record_request now ps pruned),
      window-record_request now q ps pruned (positive_periods-Distinct rules),
      pop_last-append (window q pruned) now,
      window-prune now q ps ws,
    )

-- A request that is admitted, recorded and taken back at once leaves each window of a rule's period as
-- a check without recording does, takes the last entry from each window of another period that
-- the item and model still hold, and leaves the windows of every other item and model as they were.
pub rollback_last_record-is_rate_limited :
    (now q : ℕ) (item item' key' : String) (model : Option String) (policy : RateLimitPolicy)
    (s : RateLimitState)
    → (is_rate_limited now item model policy true s).1 ≡ false
    → window q (
        (rollback_last_record item model (is_rate_limited now item model policy true s).0).requests
          item' key')
      ≡ (if str_eq item item' && str_eq (model_key model) key'
          then if has_period q (positive_periods (rules_for policy model))
            then window q ((is_rate_limited now item model policy false s).0.requests item' key')
            else pop_last (window q (s.requests item' key'))
          else window q (s.requests item' key'))
unfolding is_rate_limited rollback_last_record
rollback_last_record-is_rate_limited now q item item' key' model policy s h =
    let key = model_key model in
    let rules = rules_for policy model in
    let ws = s.requests item key in
    let done = check_windows now rules true ws in
    let after = set_windows item key done.0 s in
    ground (
      arith,
      requests-set_windows item item' key key' (rollback (after.requests item key)) after,
      requests-set_windows item item key key done.0 s,
      requests-set_windows item item' key key' done.0 s,
      requests-set_windows item item' key key' (check_windows now rules false ws).0 s,
      check_windows-rollback now q rules ws,
      str_eq_iff item item',
      str_eq_iff key key',
      str_eq_iff item item,
      str_eq_iff key key,
    )

-- A call that cools another item, or none.
abbrev pub Spares : String → Call → Type 0
Spares item (request now i m commit) = Unit {0}
Spares item (cool now none seconds) = Unit {0}
Spares item (cool now (some i) seconds) = str_eq i item ≡ false
Spares item (roll_back now i m) = Unit {0}

step-cooling_until :
    (policy : RateLimitPolicy) (item : String) (c : Call) (s : RateLimitState)
    → Spares item c
    → (step policy c s).0.cooling_until item ≡ s.cooling_until item
unfolding step is_rate_limited set_cooling rollback_last_record set_windows update
step-cooling_until policy item (request now i m commit) s h = ground arith
step-cooling_until policy item (cool now none seconds) s h = refl
step-cooling_until policy item (cool now (some i) seconds) s h = rw (h) refl
step-cooling_until policy item (roll_back now i m) s h = refl

run-cooling_until :
    (policy : RateLimitPolicy) (item : String) (cs : List Call) (s : RateLimitState)
    → All (Spares item) cs
    → (run policy s cs).cooling_until item ≡ s.cooling_until item
unfolding run
run-cooling_until policy item [] s h = refl
run-cooling_until policy item (c ∷ cs) s h =
    run-cooling_until policy item cs (step policy c s).0 h.1
    ∙ step-cooling_until policy item c s h.0

-- After an item is cooled, and then any checks, rollbacks and coolings of other items, each check of the item before
-- the end of the cooling refuses it, for any model, and changes nothing.
pub is_rate_limited-run-set_cooling :
    (start now seconds : ℕ) (item : String) (model : Option String) (policy : RateLimitPolicy)
    (commit : Bool) (s : RateLimitState) (cs : List Call)
    → All (Spares item) cs
    → now < start + ticks seconds
    → let later = run policy (set_cooling start (some item) seconds s) cs in
      is_rate_limited now item model policy commit later ≡ (later, true)
unfolding is_rate_limited set_cooling update
is_rate_limited-run-set_cooling start now seconds item model policy commit s cs spares early =
    let cooled = set_cooling start (some item) seconds s in
    let kept = run-cooling_until policy item cs cooled spares in
    let set : cooled.cooling_until item ≡ start + ticks seconds =
      update_self item (start + ticks seconds) s.cooling_until in
    let before : ltb now ((run policy cooled cs).cooling_until item) ≡ true =
      lt→ltb _ _ (omega (arith, kept, set, early)) in
    rw (is_rate_limited, before) refl

tpr_exceeded_sound :
    (tokens : ℕ) (rules : List RateLimitRule)
    → tpr_exceeded tokens rules ≡ true
    → (k : ℕ) × (rule : RateLimitRule) × (get_elem? rules k ≡ some rule)
      × (is_tpr rule.period_seconds ≡ true)
      × (rule.count < tokens)
unfolding tpr_exceeded
tpr_exceeded_sound tokens [] h = cc
tpr_exceeded_sound tokens (rule ∷ rules) h =
    elim (Bool-cases (is_tpr rule.period_seconds && ltb rule.count tokens)) [
      | inl hit ↦ let (p, q) = &&-eq-true _ _ hit in (0, rule, refl, p, ltb→lt _ _ q)
      | inr miss ↦
          let (k, r, at, p, q) = tpr_exceeded_sound tokens rules (ground arith) in
          (suc k, r, at, p, q)
    ]

tpr_exceeded_complete :
    (tokens : ℕ) (rules : List RateLimitRule) (k : ℕ) (rule : RateLimitRule)
    → get_elem? rules k ≡ some rule
    → is_tpr rule.period_seconds ≡ true
    → rule.count < tokens
    → tpr_exceeded tokens rules ≡ true
unfolding tpr_exceeded
tpr_exceeded_complete tokens [] k rule e p q = cc
tpr_exceeded_complete tokens (r ∷ rules) zero rule e p q = ground arith
tpr_exceeded_complete tokens (r ∷ rules) (suc k) rule e p q =
    ground (arith, tpr_exceeded_complete tokens rules k rule e p q)

-- A request exceeds the tokens per request exactly when some rule of its model with the
-- period -1 has a count below the tokens.
pub is_tpr_exceeded_iff :
    (model : Option String) (tokens : ℕ) (policy : RateLimitPolicy)
    → (is_tpr_exceeded model tokens policy ≡ true) ↔ (
        (k : ℕ) × (rule : RateLimitRule) × (get_elem? (rules_for policy model) k ≡ some rule)
        × (is_tpr rule.period_seconds ≡ true)
        × (rule.count < tokens))
unfolding is_tpr_exceeded
is_tpr_exceeded_iff model tokens policy = (
  λ h. tpr_exceeded_sound tokens (rules_for policy model) (ground arith),
  λ e.
      let t = tpr_exceeded_complete tokens (rules_for policy model) e.0 e.1 e.2 e.3 e.4 in
      ground (arith, t),
)
