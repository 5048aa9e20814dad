-- ===== src/RateLimit/Windows/Lookup.antt =====
-- What a window holds after each operation on the dictionary of windows.
use uni_api.Prelude.{
  ℕ, zero, suc, ◌≤◌, ◌<◌, ◌≡◌, refl, true, false, some, List, [], ◌∷◌, ◌++◌, arith, ◌==◌,
  if◌then◌else◌, length, get_elem?,
}
use uni_api.RateLimit.Policy.{RateLimitRule, positive}
use uni_api.RateLimit.Windows.{
  rollback, pop_last, Windows, window, set_window, has_period, add_period, positive_periods,
  drop_expired, prune, is_full, record_request,
}

pub window-set_window :
    (p q : ℕ) (v : List ℕ) (ws : Windows)
    → window q (set_window p v ws) ≡ (if p == q then v else window q ws)
unfolding window set_window
window-set_window p q v [] = refl
window-set_window p q v ((r, w) ∷ ws) = ground (arith, window-set_window p q v ws)

-- Pruning again later is the same as pruning later only.
pub drop_expired-drop_expired :
    (t u p : ℕ) (w : List ℕ) → t ≤ u → drop_expired u p (drop_expired t p w) ≡ drop_expired u p w
unfolding drop_expired
drop_expired-drop_expired t u p [] h = refl
drop_expired-drop_expired t u p (x ∷ w) h = ground (arith, drop_expired-drop_expired t u p w h)

pub window-prune :
    (now q : ℕ) (ps : List ℕ) (ws : Windows)
    → window q (prune now ps ws)
      ≡ (if has_period q ps then drop_expired now q (window q ws) else window q ws)
unfolding prune has_period
window-prune now q [] ws = refl
window-prune now q (p ∷ ps) ws = ground (
  arith,
  window-prune now q ps (set_window p (drop_expired now p (window p ws)) ws),
  window-set_window p q (drop_expired now p (window p ws)) ws,
  drop_expired-drop_expired now now q (window q ws),
)

-- No period twice.
abbrev pub Distinct : List ℕ → Type 0
Distinct [] = Unit {0}
Distinct (p ∷ ps) = (has_period p ps ≡ false) × Distinct ps

pub positive_periods-Distinct : (rules : List RateLimitRule) → Distinct (positive_periods rules)
unfolding positive_periods add_period
positive_periods-Distinct [] = tt
positive_periods-Distinct (rule ∷ rules) = ground (arith, positive_periods-Distinct rules)

pub window-record_request :
    (now q : ℕ) (ps : List ℕ) (ws : Windows)
    → Distinct ps
    → window q (record_request now ps ws)
      ≡ (if has_period q ps then window q ws ++ now ∷ [] else window q ws)
unfolding record_request has_period
window-record_request now q [] ws d = refl
window-record_request now q (p ∷ ps) ws d = ground (
  arith,
  window-record_request now q ps (set_window p (window p ws ++ now ∷ []) ws),
  window-set_window p q (window p ws ++ now ∷ []) ws,
)

-- Every rule with a positive period has its period among those pruned and recorded.
pub has_period-positive_periods :
    (rules : List RateLimitRule) (k p : ℕ) {rule : RateLimitRule}
    → get_elem? rules k ≡ some rule
    → positive rule.period_seconds ≡ some p
    → has_period p (positive_periods rules) ≡ true
unfolding positive_periods add_period has_period
has_period-positive_periods [] k p h e = cc
has_period-positive_periods (rule ∷ rules) zero p h e = ground arith
has_period-positive_periods (rule ∷ rules) (suc k) p h e =
    ground (arith, has_period-positive_periods rules k p h e)

-- If no window is full, the window of each rule has room.
pub is_full-room :
    (rules : List RateLimitRule) (ws : Windows) (k p : ℕ) {rule : RateLimitRule}
    → is_full rules ws ≡ false
    → get_elem? rules k ≡ some rule
    → positive rule.period_seconds ≡ some p
    → length (window p ws) < rule.count
unfolding is_full
is_full-room [] ws k p f h e = cc
is_full-room (rule ∷ rules) ws zero p f h e = ground arith
is_full-room (rule ∷ rules) ws (suc k) p f h e =
    ground (arith, is_full-room rules ws k p {rule = _} _ h e)

pub window-rollback : (q : ℕ) (ws : Windows) → window q (rollback ws) ≡ pop_last (window q ws)
unfolding window rollback pop_last
window-rollback q [] = refl
window-rollback q ((p, w) ∷ ws) = ground (arith, window-rollback q ws)

-- Taking the last entry off
pub drop_expired-pop_last :
    (now p : ℕ) (w : List ℕ) → drop_expired now p (pop_last w) ≡ pop_last (drop_expired now p w)
unfolding drop_expired pop_last
drop_expired-pop_last now p [] = refl
drop_expired-pop_last now p (x ∷ []) = ground arith
drop_expired-pop_last now p (x ∷ y ∷ w) = ground (arith, drop_expired-pop_last now p (y ∷ w))

pub get_elem?-pop_last :
    (w : List ℕ) (i : ℕ) {a : ℕ} → get_elem? (pop_last w) i ≡ some a → get_elem? w i ≡ some a
unfolding pop_last
get_elem?-pop_last [] i h = cc
get_elem?-pop_last (x ∷ []) i h = cc
get_elem?-pop_last (x ∷ y ∷ w) zero h = h
get_elem?-pop_last (x ∷ y ∷ w) (suc i) h = get_elem?-pop_last (y ∷ w) i h
