-- ===== src/Admission/Gate/Releases.antt =====
-- The release of a lease, and the answers of `begin_acquire`.
use mathlib.Core.Path.{subst}
use uni_api.Prelude.{
  ℕ, ◌+◌, ◌-◌, ◌≡◌, refl, sym, ap, inl, inr, Bool, true, false, Option, none, some, List, [], ◌∷◌,
  ◌++◌, arith, ◌==◌, Bool-cases, ok, err,
}
use uni_api.Admission.Gate.{
  Gate, Acquisition, claim, begin_acquire, promote_waiters_locked, release_slot, release_once,
}
use uni_api.Admission.Gate.Steps.{live_count}
use uni_api.Admission.Gate.Invariant.{IsGate, promote-IsGate}
use uni_api.Admission.Gate.Slots.{IsOpen}
use uni_api.Admission.Gate.Slots.{IsOpen}
use uni_api.Admission.Gate.Leaving.{lease_back}
use mathlib.Core.List.{append-nil}

-- The lease that is released
live_count_flip :
    (before after : List Bool)
    → live_count (before ++ false ∷ after) ≡ live_count (before ++ true ∷ after) + 1
unfolding live_count
live_count_flip [] after = refl
live_count_flip (true ∷ before) after = live_count_flip before after
live_count_flip (false ∷ before) after = omega (arith, live_count_flip before after)

-- What a release answers, and that it leaves the slots right.
abbrev pub Released : Gate → List Bool → List Bool → List ℕ → (Gate × List ℕ) × Bool → Type 0
Released g before after pending r =
    IsOpen r.0.0 (live_count (before ++ r.1 ∷ after)) (pending ++ r.0.1)

pub release_lem :
    (g : Gate) (before after : List Bool) (pending : List ℕ) (released : Bool)
    → IsOpen g (live_count (before ++ released ∷ after)) pending
    → (r : (Gate × List ℕ) × Bool) × (release_once released g ≡ ok r)
      × Released g before after pending r
unfolding release_once release_slot
release_lem g before after pending true i = (
  ((g, []), true),
  refl,
  subst (λ ps. IsOpen g (live_count (before ++ true ∷ after)) ps) (sym (append-nil pending)) i,
)
release_lem g before after pending false (i, busy) =
    let flip = live_count_flip before after in
    let live = live_count (before ++ true ∷ after) in
    let held : IsGate g (live + 1) pending = subst (λ n. IsGate g n pending) flip i in
    let some_active : (g.active == 0) ≡ false = ground (arith, held.balance) in
    (
      (promote_waiters_locked (record g { active = g.active - 1 }), true),
      ground (arith, some_active),
      promote-IsGate (record g { active = g.active - 1 }) live pending
          (lease_back g live pending held),
    )

pub begin_acquire-claim :
    (timeout : Option ℕ) (g next : Gate) (result : Acquisition)
    → begin_acquire timeout g ≡ ok (next, result)
    → claim g ≡ (next, result)
unfolding begin_acquire
begin_acquire-claim none g next result h = elim (Bool-cases (g.wait_timeout_seconds == 0)) [
  | inl e ↦ absurd (cc (e, h))
  | inr e ↦
      let same : ok (claim g) ≡ ok (next, result) = rw (e) at h in
      ap (λ r. elim r [ ok x ↦ x | err x ↦ claim g ]) same
]
begin_acquire-claim (some t) g next result h = elim (Bool-cases (t == 0)) [
  | inl e ↦ absurd (cc (e, h))
  | inr e ↦
      let same : ok (claim g) ≡ ok (next, result) = rw (e) at h in
      ap (λ r. elim r [ ok x ↦ x | err x ↦ claim g ]) same
]
