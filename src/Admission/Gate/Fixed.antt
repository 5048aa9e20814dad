-- ===== src/Admission/Gate/Fixed.antt =====
-- No call changes a gate's capacity or its limit on waiters.
use mathlib.Core.Path.{subst}
use uni_api.Prelude.{
  ℕ, ◌-◌, String, ◌≡◌, refl, ap, ◌∙◌, ◌⊎◌, inl, inr, Bool, true, false, Option, none, some, List,
  [], ◌∷◌, arith, ltb, ◌==◌, Bool-cases, ok, err,
}
use uni_api.Admission.Gate.{
  WaiterState, queued, granted, abandoned, Gate, set_state, is_queued, claim, try_acquire,
  count_rejection, count_abandoned, remove_waiter, promote, grant, promote_waiters_locked,
  abandon_waiter, release_slot, release_once,
}
use uni_api.Admission.Gate.Steps.{
  System, Step, begins, tries, abandons, gives_up, picks_up, releases,
}
use uni_api.Admission.Gate.Releases.{begin_acquire-claim}

-- Two gates with the same bounds
abbrev SameBounds : Gate → Gate → Type 0
SameBounds g next = (next.capacity ≡ g.capacity) × (next.waiter_limit ≡ g.waiter_limit)

pub state-cases : (s : WaiterState) → (s ≡ queued) ⊎ ((s ≡ granted) ⊎ (s ≡ abandoned))
state-cases queued = inl refl
state-cases granted = inr (inl refl)
state-cases abandoned = inr (inr refl)

promote-SameBounds : (ws : List ℕ) (g : Gate) → SameBounds g (promote ws g).0
unfolding promote grant
promote-SameBounds [] g = (refl, refl)
promote-SameBounds (w ∷ ws) g = elim (Bool-cases (ltb g.active g.capacity)) [
  | inl room ↦ elim (Bool-cases (is_queued (g.waiter_state w))) [
    | inl e ↦ rw (promote, room, e) (promote-SameBounds ws (grant w g))
    | inr e ↦ rw (promote, room, e) (promote-SameBounds ws g)
  ]
  | inr full ↦ rw (promote, full) (refl, refl)
]

counted-SameBounds :
    (g counted : Gate) → SameBounds g counted → SameBounds g (promote counted.waiters counted).0
counted-SameBounds g counted p =
    let q = promote-SameBounds counted.waiters counted in (q.0 ∙ p.0, q.1 ∙ p.1)

count_abandoned-SameBounds :
    (reason : Option String) (cancelled : Bool) (g : Gate)
    → SameBounds g (count_abandoned reason cancelled g)
unfolding count_abandoned count_rejection
count_abandoned-SameBounds none true g = (refl, refl)
count_abandoned-SameBounds none false g = (refl, refl)
count_abandoned-SameBounds (some text) true g = (refl, refl)
count_abandoned-SameBounds (some text) false g = (refl, refl)

claim-SameBounds : (g : Gate) → SameBounds g (claim g).0
unfolding claim count_rejection
claim-SameBounds g = ground arith

try-SameBounds : (g : Gate) → SameBounds g (try_acquire g).0
unfolding try_acquire
try-SameBounds g = ground arith

abandon-SameBounds :
    (id : ℕ) (reason : Option String) (cancelled : Bool) (g : Gate)
    → SameBounds g (abandon_waiter id reason cancelled g).0
unfolding abandon_waiter promote_waiters_locked
abandon-SameBounds id reason cancelled g =
    let left : Gate = record g { waiter_state = set_state id abandoned g.waiter_state } in
    let unqueued : Gate = record left { waiters = remove_waiter id g.waiters } in
    let freed : Gate = record left { active = g.active - 1 } in
    elim (state-cases (g.waiter_state id)) [
      | inl e ↦
          rw (abandon_waiter, e)
            (counted-SameBounds g (count_abandoned reason cancelled unqueued)
              (count_abandoned-SameBounds reason cancelled unqueued))
      | inr (inl e) ↦
          rw (abandon_waiter, e)
            (counted-SameBounds g (count_abandoned reason cancelled freed)
              (count_abandoned-SameBounds reason cancelled freed))
      | inr (inr e) ↦ rw (abandon_waiter, e) (refl, refl)
    ]

release-SameBounds :
    (released done : Bool) (g next : Gate) (grants : List ℕ)
    → release_once released g ≡ ok ((next, grants), done)
    → SameBounds g next
unfolding release_once release_slot promote_waiters_locked
release-SameBounds true done g next grants h =
    let same : g ≡ next = ap (λ x. elim x [ ok y ↦ y.0.0 | err y ↦ g ]) h in
    subst (λ n. SameBounds g n) same (refl, refl)
release-SameBounds false done g next grants h =
    let freed : Gate = record g { active = g.active - 1 } in
    let next_gate = (promote g.waiters freed).0 in
    elim (Bool-cases (g.active == 0)) [
      | inl e ↦ absurd (cc (e, h))
      | inr e ↦
          let answer : ok (promote g.waiters freed, true) ≡ ok ((next, grants), done) =
            rw (release_once, release_slot, e) at h in
          let same : next_gate ≡ next =
            ap (λ x. elim x [ ok y ↦ y.0.0 | err y ↦ next_gate ]) answer in
          subst (λ n. SameBounds g n) same (promote-SameBounds g.waiters freed)
    ]

pub Step-Fixed : (s t : System) → Step s t → SameBounds s.gate t.gate
Step-Fixed _ _ (begins gate next leases pending timeout result h) =
    subst (λ r. SameBounds gate r.0) (begin_acquire-claim timeout gate next result h)
      (claim-SameBounds gate)
Step-Fixed _ _ (tries gate leases pending) = try-SameBounds gate
Step-Fixed _ _ (abandons gate leases pending before after id reason cancelled e) =
    abandon-SameBounds id reason cancelled gate
Step-Fixed _ _ (gives_up gate leases before after id reason cancelled) =
    abandon-SameBounds id reason cancelled gate
Step-Fixed _ _ (picks_up gate leases before after id) = (refl, refl)
Step-Fixed _ _ (releases gate next before after pending grants released done h) =
    release-SameBounds released done gate next grants h
