-- ===== src/RateLimit/Windows/Sliding.antt =====
-- The windows of one item and model against the list of all times at which a request was recorded.
use uni_api.Prelude.{
  ℕ, zero, suc, ◌+◌, ◌≤◌, ◌<◌, ◌≡◌, refl, sym, ◌∙◌, ◌⊎◌, inl, inr, Bool, true, false, not, ◌&&◌,
  some, List, [], ◌∷◌, ◌++◌, arith, leb, if◌then◌else◌, Bool-cases, length, get_elem?, get_elem?-lt,
  get_elem?-append_left,
}
use uni_api.RateLimit.Policy.{RateLimitRule, positive}
use uni_api.RateLimit.Windows.{
  Windows, ticks, window, positive_periods, drop_expired, prune, check_windows,
}
use uni_api.RateLimit.Windows.Lookup.{
  drop_expired-drop_expired, window-prune, window-record_request, positive_periods-Distinct,
  has_period-positive_periods, is_full-room,
}

-- What is left of a list with `x` at its end, from what is left of the list.
append_left : ℕ → ℕ → ℕ → List ℕ → List ℕ
append_left now p x [] = drop_expired now p (x ∷ [])
append_left now p x (y ∷ w) = y ∷ (w ++ x ∷ [])

drop_expired-append :
    (now p x : ℕ) (w : List ℕ)
    → drop_expired now p (w ++ x ∷ []) ≡ append_left now p x (drop_expired now p w)
unfolding drop_expired append_left
drop_expired-append now p x [] = refl
drop_expired-append now p x (y ∷ w) = ground (arith, drop_expired-append now p x w)

-- What is dropped is a whole period old.
drop_expired-old :
    (now p i : ℕ) (w : List ℕ) {a : ℕ}
    → i + length (drop_expired now p w) < length w
    → get_elem? w i ≡ some a
    → a + ticks p ≤ now
unfolding drop_expired
drop_expired-old now p i [] h e = cc
drop_expired-old now p zero (x ∷ w) h e = ground arith
drop_expired-old now p (suc i) (x ∷ w) h e = elim (Bool-cases (leb (x + ticks p) now)) [
  | inl old ↦ drop_expired-old now p i w (ground arith) e
  | inr new ↦ absurd (ground arith)
]

-- The window and the log agree, from `now` on, on what is not yet a period old.
abbrev pub Agrees : ℕ → ℕ → Windows → List ℕ → Type 0
Agrees now p ws log = (u : ℕ) → now ≤ u → drop_expired u p (window p ws) ≡ drop_expired u p log

-- Of any `count + 1` consecutive entries the last comes at least a whole period after the first.
abbrev pub Spaced : ℕ → ℕ → List ℕ → Type 0
Spaced p count log =
    (i : ℕ) (a b : ℕ)
    → get_elem? log i ≡ some a
    → get_elem? log (i + count) ≡ some b
    → a + ticks p ≤ b

get_elem?-append_cases :
    (log : List ℕ) (x j b : ℕ)
    → get_elem? (log ++ x ∷ []) j ≡ some b
    → (get_elem? log j ≡ some b) ⊎ ((j ≡ length log) × (x ≡ b))
get_elem?-append_cases [] x zero b h = inr (refl, ground arith)
get_elem?-append_cases [] x (suc j) b h = cc
get_elem?-append_cases (y ∷ log) x zero b h = inl h
get_elem?-append_cases (y ∷ log) x (suc j) b h = ground (arith, get_elem?-append_cases log x j b h)

-- One more entry, at a time when fewer than `count` entries are younger than the period.
Spaced-append :
    (now p count : ℕ) (log : List ℕ)
    → length (drop_expired now p log) < count
    → Spaced p count log
    → Spaced p count (log ++ now ∷ [])
Spaced-append now p count log room s i a b ea eb =
    elim (get_elem?-append_cases log now (i + count) b eb) [
      | inl before ↦ s i a b (at_left (omega (arith, get_elem?-lt log (i + count) before))) before
      | inr (last, same) ↦
          rw (← same) (drop_expired-old now p i log (omega arith) (at_left (omega arith)))
    ]
  where
    at_left : i < length log → get_elem? log i ≡ some a
    at_left h = sym (get_elem?-append_left log (now ∷ []) i h) ∙ ea

Agrees-prune :
    (last now p : ℕ) (ps : List ℕ) (ws : Windows) (log : List ℕ)
    → last ≤ now
    → Agrees last p ws log
    → Agrees now p (prune now ps ws) log
Agrees-prune last now p ps ws log later agrees u le = ground (
  arith,
  window-prune now p ps ws,
  drop_expired-drop_expired now u p (window p ws) le,
  agrees u (omega arith),
)

-- The log after a check at `now`: a request that is admitted and committed is added at the end.
abbrev pub logged : ℕ → Bool → Bool → List ℕ → List ℕ
logged now commit limited log = if commit && not limited then log ++ now ∷ [] else log

Spaced-logged :
    (now p count : ℕ) (commit limited : Bool) (log : List ℕ)
    → (limited ≡ false → length (drop_expired now p log) < count)
    → Spaced p count log
    → Spaced p count (logged now commit limited log)
Spaced-logged now p count false limited log room s = s
Spaced-logged now p count true true log room s = s
Spaced-logged now p count true false log room s = Spaced-append now p count log (room refl) s

module _ (last now p : ℕ) (rules : List RateLimitRule) (commit : Bool) (ws : Windows) (log : List ℕ)
    (k : ℕ) {rule : RateLimitRule} (found : get_elem? rules k ≡ some rule)
    (period : positive rule.period_seconds ≡ some p) (later : last ≤ now)
    (agrees : Agrees last p ws log) (spaced : Spaced p rule.count log) where
  -- A check keeps the windows in step with the log.
  pub check_windows-Agrees :
      Agrees now p
        (check_windows now rules commit ws).0
        (logged now commit (check_windows now rules commit ws).1 log)
  unfolding check_windows
  check_windows-Agrees u le =
      let ps = positive_periods rules in
      let pruned = prune now ps ws in
      ground (
        arith,
        Agrees-prune last now p ps ws log later agrees u le,
        has_period-positive_periods rules k p found period,
        window-record_request now p ps pruned (positive_periods-Distinct rules),
        drop_expired-append u p now (window p pruned),
        drop_expired-append u p now log,
      )

  -- A request is admitted only where fewer than `count` requests were recorded within the period.
  pub check_windows-room :
      (check_windows now rules commit ws).1 ≡ false → length (drop_expired now p log) < rule.count
  unfolding check_windows
  check_windows-room admitted =
      let ps = positive_periods rules in
      let pruned = prune now ps ws in
      let same = agrees now later in
      ground (
        arith,
        is_full-room rules pruned k p (ground arith) found period,
        window-prune now p ps ws,
        has_period-positive_periods rules k p found period,
        same,
      )

  -- A check keeps the log spaced.
  pub check_windows-Spaced :
      Spaced p rule.count (logged now commit (check_windows now rules commit ws).1 log)
  check_windows-Spaced =
      Spaced-logged now p rule.count commit (check_windows now rules commit ws).1 log
        check_windows-room spaced
