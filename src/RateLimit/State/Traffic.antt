-- ===== src/RateLimit/State/Traffic.antt =====
-- A limiter under any sequence of calls, for any items and models, at times that do not fall.
use mathlib.Core.Path.{subst₂}
use uni_api.Prelude.{
  ℕ, ◌+◌, ◌≤◌, String, ◌≡◌, refl, sym, ap, ◌∙◌, inl, inr, Bool, true, false, not, ◌&&◌, Option,
  none, some, List, [], ◌∷◌, ◌++◌, arith, ltb, if◌then◌else◌, Bool-cases, &&-eq-true, get_elem?,
  All, str_eq, str_eq_iff,
}
use uni_api.RateLimit.Policy.{RateLimitRule, RateLimitPolicy, rules_for, model_key, positive}
use uni_api.RateLimit.Windows.{Windows, window, check_windows, drop_expired, pop_last, rollback}
use uni_api.RateLimit.Windows.Lookup.{window-rollback, drop_expired-pop_last, get_elem?-pop_last}
use uni_api.RateLimit.Windows.Sliding.{
  Agrees, Spaced, logged, check_windows-Agrees, check_windows-Spaced,
}
use uni_api.RateLimit.State.{
  RateLimitState, init, set_windows, set_cooling, is_rate_limited, rollback_last_record,
}

pub requests-set_windows :
    (i i' m m' : String) (ws : Windows) (s : RateLimitState)
    → (set_windows i m ws s).requests i' m'
      ≡ (if str_eq i i' && str_eq m m' then ws else s.requests i' m')
unfolding set_windows
requests-set_windows i i' m m' ws s = ground (arith, str_eq_iff i i', str_eq_iff m m')

-- A check with its time, item, model and `commit`, a cooling with its time, item and seconds, or a
-- rollback with its time, item and model.
pub data Call : Type 0 where
  request : ℕ → String → Option String → Bool → Call
  cool : ℕ → Option String → ℕ → Call
  roll_back : ℕ → String → Option String → Call

abbrev pub time : Call → ℕ
time (request now i m commit) = now
time (cool now i seconds) = now
time (roll_back now i m) = now

-- The times never fall.
abbrev pub Ordered : ℕ → List Call → Type 0
Ordered last [] = Unit {0}
Ordered last (c ∷ cs) = (last ≤ time c) × Ordered (time c) cs

unfoldable pub step : RateLimitPolicy → Call → RateLimitState → RateLimitState × Bool
step policy (request now i m commit) s = is_rate_limited now i m policy commit s
step policy (cool now i seconds) s = (set_cooling now i seconds s, true)
step policy (roll_back now i m) s = (rollback_last_record i m s, true)

unfoldable pub run : RateLimitPolicy → RateLimitState → List Call → RateLimitState
run policy s [] = s
run policy s (c ∷ cs) = run policy (step policy c s).0 cs

-- Whether a call asks for a request of this item, under this model's key, that is recorded if admitted.
abbrev pub asks : String → Option String → Call → Bool
asks item model (request now i m commit) =
    commit && (str_eq i item && str_eq (model_key m) (model_key model))
asks item model (cool now i seconds) = false
asks item model (roll_back now i m) = false

-- Whether a call takes a record of the item and the model's key back.
abbrev pub takes_back : String → Option String → Call → Bool
takes_back item model (request now i m commit) = false
takes_back item model (cool now i seconds) = false
takes_back item model (roll_back now i m) = str_eq i item && str_eq (model_key m) (model_key model)

-- The list of recorded requests after a call in the state `s`: a request that is admitted and recorded is
-- put at its end, and a rollback takes its last entry off.
unfoldable pub note :
    RateLimitPolicy → String → Option String → RateLimitState → Call → List ℕ → List ℕ
unfolding step
note policy item model s c log =
    if takes_back item model c
    then pop_last log
    else if asks item model c && not (step policy c s).1
    then log ++ time c ∷ []
    else log

-- The times at which requests of the item and the model were admitted and recorded, less those that rollbacks
-- took back, after a list of calls.
unfoldable pub recorded :
    RateLimitPolicy → String → Option String → RateLimitState → List Call → List ℕ → List ℕ
unfolding step note
recorded policy item model s [] log = log
recorded policy item model s (c ∷ cs) log =
    recorded policy item model (step policy c s).0 cs (note policy item model s c log)

-- Models that share the key (`None`, the empty text and "default" do) are given the same rules.
abbrev pub SameRules : RateLimitPolicy → Option String → Call → Type 0
SameRules policy model (request now i m commit) =
    model_key m ≡ model_key model → rules_for policy m ≡ rules_for policy model
SameRules policy model (cool now i seconds) = Unit {0}
SameRules policy model (roll_back now i m) = Unit {0}

module _ (policy : RateLimitPolicy) (item : String) (model : Option String) (k p : ℕ)
    {rule : RateLimitRule} (found : get_elem? (rules_for policy model) k ≡ some rule)
    (period : positive rule.period_seconds ≡ some p) where
  abbrev Tracks : ℕ → Windows → List ℕ → Type 0
  Tracks last ws log = Agrees last p ws log × Spaced p rule.count log

  Tracks-eq :
      {last : ℕ} (ws ws' : Windows) (log log' : List ℕ)
      → ws' ≡ ws
      → log' ≡ log
      → Tracks last ws log
      → Tracks last ws' log'
  Tracks-eq {last} ws ws' log log' e f t =
      subst₂ (λ w l. Agrees last p w l × Spaced p rule.count l) (sym e) (sym f) t

  Tracks-later :
      (last now : ℕ) (ws : Windows) (log : List ℕ)
      → last ≤ now
      → Tracks last ws log
      → Tracks now ws log
  Tracks-later last now ws log later t = (λ u le. t.0 u (omega arith), t.1)

  check-Tracks :
      (now last : ℕ) (rules : List RateLimitRule) (commit : Bool) (ws : Windows) (log : List ℕ)
      → last ≤ now
      → rules ≡ rules_for policy model
      → Tracks last ws log
      → Tracks now
          (check_windows now rules commit ws).0
          (logged now commit (check_windows now rules commit ws).1 log)
  check-Tracks now last rules commit ws log later same t =
      let here = same_at same in
      (
        check_windows-Agrees last now p rules commit ws log k here period later t.0 t.1,
        check_windows-Spaced last now p rules commit ws log k here period later t.0 t.1,
      )
    where
      same_at : rules ≡ rules_for policy model → get_elem? rules k ≡ some rule
      same_at e = rw e found

  request-Tracks :
      (now last : ℕ) (i : String) (m : Option String) (commit : Bool) (s : RateLimitState)
      (log : List ℕ)
      → last ≤ now
      → SameRules policy model (request now i m commit)
      → Tracks last (s.requests item (model_key model)) log
      → Tracks now ((is_rate_limited now i m policy commit s).0.requests item (model_key model)) (
          if asks item model (request now i m commit)
            && not (is_rate_limited now i m policy commit s).1
          then log ++ now ∷ []
          else log)
  unfolding is_rate_limited
  request-Tracks now last i m commit s log later same t =
      elim (Bool-cases (ltb now (s.cooling_until i))) [
        | inl cooling ↦
            Tracks-eq _ _ _ _ (ground arith) (ground arith) (Tracks-later last now _ _ later t)
        | inr warm ↦ elim (Bool-cases (str_eq i item && str_eq (model_key m) (model_key model))) [
          | inl hit ↦
              at_key warm ((str_eq_iff _ _).0 (&&-eq-true _ _ hit).0)
                ((str_eq_iff _ _).0 (&&-eq-true _ _ hit).1)
          | inr other ↦
              Tracks-eq (s.requests item (model_key model)) _ log _
                (ground (
                  arith,
                  requests-set_windows i item (model_key m) (model_key model)
                      (check_windows now (rules_for policy m) commit (s.requests i (model_key m))).0
                      s,
                ))
                (ground arith) (Tracks-later last now _ _ later t)
        ]
      ]
    where
      windows : Windows × Bool
      windows = check_windows now (rules_for policy m) commit (s.requests i (model_key m))

      at_key :
          ltb now (s.cooling_until i) ≡ false
          → i ≡ item
          → model_key m ≡ model_key model
          → Tracks now
              ((is_rate_limited now i m policy commit s).0.requests item (model_key model))
              (if asks item model (request now i m commit)
                  && not (is_rate_limited now i m policy commit s).1
                then log ++ now ∷ []
                else log)
      at_key warm ei em =
          Tracks-eq windows.0 _ (logged now commit windows.1 log) _
            (ground (
              arith,
              requests-set_windows i item (model_key m) (model_key model) windows.0 s,
              str_eq_iff i item,
              str_eq_iff (model_key m) (model_key model),
            ))
            (ground (arith, str_eq_iff i item, str_eq_iff (model_key m) (model_key model)))
            (check-Tracks now last (rules_for policy m) commit (s.requests i (model_key m)) log
              later (same em) (rw (ei, em) t))

  -- A rollback takes the last entry off the window and off the list.
  pop-Tracks :
      (last : ℕ) (ws : Windows) (log : List ℕ)
      → Tracks last ws log
      → Tracks last (rollback ws) (pop_last log)
  pop-Tracks last ws log (agrees, spaced) = (
    λ u le.
        ap (drop_expired u p) (window-rollback p ws)
        ∙ drop_expired-pop_last u p (window p ws)
        ∙ ap pop_last (agrees u le)
        ∙ sym (drop_expired-pop_last u p log),
    λ i a b h g.
        spaced i a b (get_elem?-pop_last log i h) (get_elem?-pop_last log (i + rule.count) g),
  )

  rollback-Tracks :
      (now last : ℕ) (i : String) (m : Option String) (s : RateLimitState) (log : List ℕ)
      → last ≤ now
      → Tracks last (s.requests item (model_key model)) log
      → Tracks now
          ((rollback_last_record i m s).requests item (model_key model))
          (if str_eq i item && str_eq (model_key m) (model_key model) then pop_last log else log)
  unfolding rollback_last_record
  rollback-Tracks now last i m s log later t =
      let ws = s.requests i (model_key m) in
      let after = requests-set_windows i item (model_key m) (model_key model) (rollback ws) s in
      elim (Bool-cases (str_eq i item && str_eq (model_key m) (model_key model))) [
        | inr other ↦
            Tracks-eq (s.requests item (model_key model)) _ log _ (ground (arith, after, other))
              (ground (arith, other)) (Tracks-later last now _ _ later t)
        | inl hit ↦
            let same_item : i ≡ item = (str_eq_iff _ _).0 (&&-eq-true _ _ hit).0 in
            let same_key : model_key m ≡ model_key model =
              (str_eq_iff _ _).0 (&&-eq-true _ _ hit).1 in
            Tracks-eq (rollback ws) _ (pop_last log) _ (ground (arith, after, hit))
              (ground (arith, hit))
              (pop-Tracks now ws log (Tracks-later last now _ _ later (rw (same_item, same_key) t)))
      ]

  step-Tracks :
      (c : Call) (last : ℕ) (s : RateLimitState) (log : List ℕ)
      → last ≤ time c
      → SameRules policy model c
      → Tracks last (s.requests item (model_key model)) log
      → Tracks
          (time c)
          ((step policy c s).0.requests item (model_key model))
          (note policy item model s c log)
  unfolding step set_cooling note
  step-Tracks (request now i m commit) last s log later same t =
      request-Tracks now last i m commit s log later same t
  step-Tracks (cool now none seconds) last s log later same t = Tracks-later last now _ _ later t
  step-Tracks (cool now (some i) seconds) last s log later same t =
      Tracks-later last now _ _ later t
  step-Tracks (roll_back now i m) last s log later same t =
      rollback-Tracks now last i m s log later t

  recorded-Tracks :
      (cs : List Call) (last : ℕ) (s : RateLimitState) (log : List ℕ)
      → Ordered last cs
      → All (SameRules policy model) cs
      → Tracks last (s.requests item (model_key model)) log
      → Spaced p rule.count (recorded policy item model s cs log)
  unfolding recorded
  recorded-Tracks [] last s log later same t = t.1
  recorded-Tracks (c ∷ cs) last s log later same t =
      recorded-Tracks cs (time c) (step policy c s).0 (note policy item model s c log) later.1
        same.1 (step-Tracks c last s log later.0 same.0 t)

  -- From the empty state, under any checks, coolings and rollbacks at times that do not fall, for any
  -- items and models, provided that the model shares its key only with models under the same rules: of
  -- any `count + 1` consecutive requests of this item and model that are recorded and not taken back, where
  -- a rollback takes back the request that was recorded last, the last comes at least `period_seconds`
  -- after the first, for every rule that applies to the model and has a positive period.
  pub recorded-Spaced :
      (cs : List Call)
      → Ordered 0 cs
      → All (SameRules policy model) cs
      → Spaced p rule.count (recorded policy item model init cs [])
  unfolding init window
  recorded-Spaced cs later same =
      recorded-Tracks cs 0 init [] later same ((λ u le. refl), λ i a b h. cc)
