-- ===== src/RateLimit/Windows.antt =====
-- uni_api/rate_limit/state.py: the windows of one item and model, a dictionary from a period to a
-- deque of times. Times are whole ticks; `ticks` takes seconds to ticks. A missing key reads as the
-- empty deque. The set of periods is a list without repetition: the order in which a set is walked
-- does not matter here.
pub mod Lookup
pub mod Sliding
use uni_api.Prelude.{
  ℕ, ◌+◌, ◌*◌, Bool, true, false, ◌||◌, Option, none, some, List, [], ◌∷◌, ◌++◌, leb, ◌==◌,
  if◌then◌else◌, length,
}
use uni_api.RateLimit.Policy.{RateLimitRule, positive}

-- A tick is a microsecond.
unfoldable pub ticks : ℕ → ℕ
ticks seconds = seconds * 1000000

abbrev pub Windows : Type 0
Windows = List (ℕ × List ℕ)

unfoldable pub window : ℕ → Windows → List ℕ
window period [] = []
window period ((p, w) ∷ ws) = if p == period then w else window period ws

unfoldable pub set_window : ℕ → List ℕ → Windows → Windows
set_window period v [] = (period, v) ∷ []
set_window period v ((p, w) ∷ ws) =
    if p == period then (p, v) ∷ ws else (p, w) ∷ set_window period v ws

unfoldable pub has_period : ℕ → List ℕ → Bool
has_period period [] = false
has_period period (p ∷ ps) = p == period || has_period period ps

unfoldable pub add_period : Option ℕ → List ℕ → List ℕ
add_period none ps = ps
add_period (some p) ps = if has_period p ps then ps else p ∷ ps

-- `{rule.period_seconds for rule in rules if rule.period_seconds > 0}`
unfoldable pub positive_periods : List RateLimitRule → List ℕ
positive_periods [] = []
positive_periods (rule ∷ rules) = add_period (positive rule.period_seconds) (positive_periods rules)

-- `while window and window[0] <= now - period: window.popleft()`
unfoldable pub drop_expired : ℕ → ℕ → List ℕ → List ℕ
drop_expired now period [] = []
drop_expired now period (t ∷ w) =
    if leb (t + ticks period) now then drop_expired now period w else t ∷ w

unfoldable pub prune : ℕ → List ℕ → Windows → Windows
prune now [] ws = ws
prune now (p ∷ ps) ws = prune now ps (set_window p (drop_expired now p (window p ws)) ws)

-- The loop over the rules that looks for a full window.
unfoldable pub is_full : List RateLimitRule → Windows → Bool
is_full [] ws = false
is_full (rule ∷ rules) ws = elim (positive rule.period_seconds) [
  | none ↦ is_full rules ws
  | some p ↦ leb rule.count (length (window p ws)) || is_full rules ws
]

unfoldable pub record_request : ℕ → List ℕ → Windows → Windows
record_request now [] ws = ws
record_request now (p ∷ ps) ws = record_request now ps (set_window p (window p ws ++ now ∷ []) ws)

-- `window.pop()` where the window is not empty
unfoldable pub pop_last : List ℕ → List ℕ
pop_last [] = []
pop_last (t ∷ []) = []
pop_last (t ∷ u ∷ w) = t ∷ pop_last (u ∷ w)

unfoldable pub rollback : Windows → Windows
rollback [] = []
rollback ((p, w) ∷ ws) = (p, pop_last w) ∷ rollback ws

-- `is_rate_limited` from the choice of the rules on.
unfoldable pub check_windows : ℕ → List RateLimitRule → Bool → Windows → Windows × Bool
check_windows now rules commit ws =
    let periods = positive_periods rules in
    let pruned = prune now periods ws in
    if is_full rules pruned
    then (pruned, true)
    else (if commit then record_request now periods pruned else pruned, false)
