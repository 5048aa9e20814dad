-- ===== src/Routing/Health/Recent.antt =====
-- The times of a route's failures, in ascending order: those that a window keeps and those that it drops.
use mathlib.Core.List.{append_assoc, map-append}
use uni_api.Prelude.{
  ℕ, suc, ◌+◌, ◌≤◌, ◌≡◌, refl, sym, ◌∙◌, inl, inr, Option, List, [], ◌∷◌, ◌++◌, map, arith, ltb,
  leb, if◌then◌else◌, Bool-cases, length,
}
use uni_api.Routing.Health.{RouteState, or_fresh, drop_old}

abbrev pub times : List (ℕ × ℕ) → List ℕ
times = map (λ f. f.0)

abbrev pub failures_of : Option RouteState → List (ℕ × ℕ)
failures_of o = (or_fresh o).failures

-- How many times of a list lie in the window that ends now.
unfoldable pub recent : ℕ → ℕ → List ℕ → ℕ
recent window now [] = 0
recent window now (t ∷ ts) =
    let rest = recent window now ts in if leb now (t + window) then suc rest else rest

pub recent-append :
    (window now : ℕ) (xs ys : List ℕ)
    → recent window now (xs ++ ys) ≡ recent window now xs + recent window now ys
unfolding recent
recent-append window now [] ys = omega arith
recent-append window now (x ∷ xs) ys = ground (arith, recent-append window now xs ys)

-- The times rise from `lo` to at most `hi`.
abbrev pub Ascending : ℕ → ℕ → List (ℕ × ℕ) → Type 0
Ascending lo hi [] = lo ≤ hi
Ascending lo hi ((t, status) ∷ fs) = (lo ≤ t) × Ascending t hi fs

pub Ascending-later :
    (lo hi hi' : ℕ) (fs : List (ℕ × ℕ)) → hi ≤ hi' → Ascending lo hi fs → Ascending lo hi' fs
Ascending-later lo hi hi' [] le a = omega arith
Ascending-later lo hi hi' ((t, status) ∷ fs) le a = (a.0, Ascending-later t hi hi' fs le a.1)

pub Ascending-lower :
    (lo lo' hi : ℕ) (fs : List (ℕ × ℕ)) → lo' ≤ lo → Ascending lo hi fs → Ascending lo' hi fs
Ascending-lower lo lo' hi [] le a = omega arith
Ascending-lower lo lo' hi ((t, status) ∷ fs) le a = (omega arith, a.1)

pub Ascending-append :
    (lo hi now status : ℕ) (fs : List (ℕ × ℕ))
    → hi ≤ now
    → Ascending lo hi fs
    → Ascending lo now (fs ++ (now, status) ∷ [])
Ascending-append lo hi now status [] le a = (omega arith, omega arith)
Ascending-append lo hi now status ((t, s) ∷ fs) le a =
    (a.0, Ascending-append t hi now status fs le a.1)

pub drop_old-Ascending :
    (window now lo hi : ℕ) (fs : List (ℕ × ℕ))
    → Ascending lo hi fs
    → Ascending lo hi (drop_old window now fs)
unfolding drop_old
drop_old-Ascending window now lo hi [] a = a
drop_old-Ascending window now lo hi ((t, s) ∷ fs) a =
    ground (arith, drop_old-Ascending window now lo hi fs (Ascending-lower t lo hi fs a.0 a.1))

-- In a rising list, what stays after pruning lies in the window.
pub recent-all :
    (window now lo hi : ℕ) (fs : List (ℕ × ℕ))
    → now ≤ lo + window
    → Ascending lo hi fs
    → recent window now (times fs) ≡ length fs
unfolding recent
recent-all window now lo hi [] le a = refl
recent-all window now lo hi ((t, s) ∷ fs) le a =
    ground (arith, recent-all window now t hi fs (omega arith) a.1)

pub recent-drop_old :
    (window now lo hi : ℕ) (fs : List (ℕ × ℕ))
    → Ascending lo hi fs
    → recent window now (times (drop_old window now fs)) ≡ length (drop_old window now fs)
unfolding drop_old recent
recent-drop_old window now lo hi [] a = refl
recent-drop_old window now lo hi ((t, s) ∷ fs) a =
    ground (arith, recent-drop_old window now t hi fs a.1, recent-all window now t hi fs)

-- `ts` is the end of `log`.
abbrev pub IsEnd : List ℕ → List ℕ → Type 0
IsEnd log ts = (older : List ℕ) × (log ≡ older ++ ts)

pub IsEnd-drop_old :
    (window now : ℕ) (log : List ℕ) (fs : List (ℕ × ℕ))
    → IsEnd log (times fs)
    → IsEnd log (times (drop_old window now fs))
unfolding drop_old
IsEnd-drop_old window now log [] e = e
IsEnd-drop_old window now log ((t, s) ∷ fs) (older, e) = elim (Bool-cases (ltb (t + window) now)) [
  | inl old ↦ rw old (
      IsEnd-drop_old window now log fs
        (older ++ t ∷ [], e ∙ sym (append_assoc older (t ∷ []) (times fs))))
  | inr new ↦ rw new (older, e)
]

pub IsEnd-append :
    (now status : ℕ) (log : List ℕ) (fs : List (ℕ × ℕ))
    → IsEnd log (times fs)
    → IsEnd (log ++ now ∷ []) (times (fs ++ (now, status) ∷ []))
IsEnd-append now status log fs (older, e) = (
  older,
  rw (e, map-append (λ (f : ℕ × ℕ). f.0) fs ((now, status) ∷ []))
      (append_assoc older (times fs) (now ∷ [])),
)
