-- ===== src/RateLimit/Policy.antt =====
-- uni_api/rate_limit/policy.py: the rules of a policy, and the choice of the rules for a model.
-- Texts that are only compared are `String`; `limit_model in model` is the library's `find?`.
use text.Mathlib.Text.{find?}
use uni_api.Prelude.Int.{ℤ, pos, negsuc}
use uni_api.Prelude.{
  ℕ, zero, suc, String, Bool, true, false, not, ◌&&◌, Option, none, some, List, [], ◌∷◌,
  if◌then◌else◌, str_eq,
}

-- A period is a Python integer.
abbrev pub tpr_period : ℤ
tpr_period = negsuc 0

pub record RateLimitRule : Type 0 where
  pub count : ℕ
  pub period_seconds : ℤ

-- `rules_by_model`, in the order of insertion.
abbrev pub RateLimitPolicy : Type 0
RateLimitPolicy = List (String × List RateLimitRule)

-- `_parse_rules(DEFAULT_RATE_LIMIT)`.
abbrev pub default_rules : List RateLimitRule
default_rules = record { count = 999999; period_seconds = pos 60 } ∷ []

-- `rule.period_seconds if rule.period_seconds > 0`.
abbrev pub positive : ℤ → Option ℕ
positive (pos zero) = none
positive (pos (suc n)) = some (suc n)
positive (negsuc n) = none

abbrev pub is_tpr : ℤ → Bool
is_tpr (negsuc zero) = true
is_tpr _ = false

abbrev is_some {ℓ} : {A : Type ℓ} → Option A → Bool
is_some none = false
is_some (some _) = true

-- `needle in text`
unfoldable pub contains_text : String → String → Bool
contains_text text needle = is_some (find? text needle)

-- `policy.get(key)`
unfoldable pub lookup : String → RateLimitPolicy → Option (List RateLimitRule)
lookup key [] = none
lookup key ((k, rules) ∷ policy) = if str_eq k key then some rules else lookup key policy

-- The loop over the entries other than "default" whose name occurs in the model's.
unfoldable pub partial_match : String → RateLimitPolicy → Option (List RateLimitRule)
partial_match model [] = none
partial_match model ((k, rules) ∷ policy) =
    if not (str_eq k "default") && contains_text model k
    then some rules
    else partial_match model policy

-- `d.get("default", _parse_rules(DEFAULT_RATE_LIMIT))`
unfoldable pub fallback : RateLimitPolicy → List RateLimitRule
fallback policy = elim (lookup "default" policy) [ some rules ↦ rules | none ↦ default_rules ]

-- `None` and the empty text are both false.
abbrev pub named : Option String → Option String
named none = none
named (some model) = if str_eq model "" then none else some model

-- `model or "default"`
abbrev pub model_key : Option String → String
model_key model = elim (named model) [ none ↦ "default" | some m ↦ m ]

unfoldable pub rules_for_named : RateLimitPolicy → String → List RateLimitRule
rules_for_named policy model = elim (lookup model policy) [
  | some rules ↦ rules
  | none ↦ elim (partial_match model policy) [ some rules ↦ rules | none ↦ fallback policy ]
]

unfoldable pub rules_for : RateLimitPolicy → Option String → List RateLimitRule
rules_for policy model = elim (named model) [
  | none ↦ fallback policy
  | some m ↦ rules_for_named policy m
]
