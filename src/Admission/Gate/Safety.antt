-- ===== src/Admission/Gate/Safety.antt =====
-- The steps of the tasks keep a gate's slots; the properties of every state that they reach.
use mathlib.Core.Path.{subst}
use uni_api.Prelude.{
  ℕ, ◌+◌, ◌-◌, ◌≤◌, ◌≡◌, refl, sym, ap, ◌∙◌, ◌⊎◌, inl, inr, Bool, false, List, [], ◌∷◌, ◌++◌, arith,
  ◌==◌, Bool-cases, List-cases, length, ok, err,
}
use uni_api.Admission.Gate.{
  granted, abandoned, Gate, init, promote, promote_waiters_locked, release_slot, release_once,
}
use uni_api.Admission.Gate.Queue.{AllDistinct, AllIn, AllBelow}
use uni_api.Admission.Gate.Steps.{
  System, add_lease, live_count, Step, begins, tries, abandons, gives_up, picks_up, releases, Reach,
  started, then_step,
}
use uni_api.Admission.Gate.Slots.{IsOpen, claim-IsOpen, try_acquire-IsOpen}
use uni_api.Admission.Gate.Leaving.{abandon_waiter_queued, abandon_waiter_unpicked, pick_up}
use uni_api.Admission.Gate.Releases.{Released, release_lem, begin_acquire-claim}
use uni_api.Admission.Gate.Fixed.{Step-Fixed}
use uni_api.Admission.Gate.Promotion.{Promoted, promote-Promoted}

abbrev IsSystem : System → Type 0
IsSystem s = IsOpen s.gate (live_count s.leases) s.pending

Step-IsSystem : (s t : System) → Step s t → IsSystem s → IsSystem t
unfolding live_count
Step-IsSystem _ _ (begins gate next leases pending timeout result h) i =
    subst (λ r. IsOpen r.0 (live_count (add_lease r.1 leases)) pending)
      (begin_acquire-claim timeout gate next result h) (claim-IsOpen gate leases pending i)
Step-IsSystem _ _ (tries gate leases pending) i = try_acquire-IsOpen gate leases pending i
Step-IsSystem _ _ (abandons gate leases pending before after id reason cancelled e) i =
    abandon_waiter_queued gate (live_count leases) pending before after id reason cancelled i e
Step-IsSystem _ _ (gives_up gate leases before after id reason cancelled) i =
    abandon_waiter_unpicked gate (live_count leases) before after id reason cancelled i
Step-IsSystem _ _ (picks_up gate leases before after id) (i, busy) =
    (pick_up gate (live_count leases) before after id i, busy)
Step-IsSystem _ _ (releases gate next before after pending grants released done h) i =
    let (r, answer, slots) = release_lem gate before after pending released i in
    let both : ok r ≡ ok ((next, grants), done) = sym answer ∙ h in
    let same : r ≡ ((next, grants), done) = ap (λ x. elim x [ ok y ↦ y | err y ↦ r ]) both in
    subst (λ x. Released gate before after pending x) same slots

abbrev new_gate : ℕ → ℕ → ℕ → Gate
new_gate capacity limit timeout = record {
  capacity = capacity;
  waiter_limit = limit;
  wait_timeout_seconds = timeout;
  active = 0;
  waiters = [];
  waiter_state = λ id. abandoned;
  created = 0;
  acquired_total = 0;
  cancelled_total = 0;
  rejected = λ reason. 0;
}

init_lem :
    (capacity limit timeout : ℕ) (gate : Gate)
    → init capacity limit timeout ≡ ok gate
    → new_gate capacity limit timeout ≡ gate
unfolding init
init_lem capacity limit timeout gate h =
    let fresh = new_gate capacity limit timeout in
    elim (Bool-cases (capacity == 0)) [
      | inl e ↦ absurd (cc (e, h))
      | inr e ↦ elim (Bool-cases (timeout == 0)) [
        | inl z ↦ absurd (cc (e, z, h))
        | inr z ↦
            let made : ok fresh ≡ ok gate = rw (e, z) at h in
            ap (λ r. elim r [ ok x ↦ x | err x ↦ fresh ]) made
      ]
    ]

started-IsSystem :
    (capacity limit timeout : ℕ) (gate : Gate)
    → init capacity limit timeout ≡ ok gate
    → IsSystem (record { gate = gate; leases = []; pending = [] })
unfolding init AllIn AllDistinct AllBelow live_count
started-IsSystem capacity limit timeout gate h =
    let fresh = init_lem capacity limit timeout gate h in
    subst (λ g. IsOpen g 0 []) fresh
      (
        record {
          waiting = tt;
          distinct = tt;
          old = tt;
          given = tt;
          given_distinct = tt;
          given_old = tt;
          balance = refl;
          within = omega arith;
          bound = omega arith;
        },
        inl refl,
      )

Reach-IsSystem :
    (capacity limit timeout : ℕ) (s : System) → Reach capacity limit timeout s → IsSystem s
Reach-IsSystem capacity limit timeout _ (started gate h) =
    started-IsSystem capacity limit timeout gate h
Reach-IsSystem capacity limit timeout _ (then_step s t r step) =
    Step-IsSystem s t step (Reach-IsSystem capacity limit timeout s r)

Reach-Fixed :
    (capacity limit timeout : ℕ) (s : System)
    → Reach capacity limit timeout s
    → (s.gate.capacity ≡ capacity) × (s.gate.waiter_limit ≡ limit)
Reach-Fixed capacity limit timeout _ (started gate h) =
    let fresh = init_lem capacity limit timeout gate h in
    (sym (ap (λ g. g.capacity) fresh), sym (ap (λ g. g.waiter_limit) fresh))
Reach-Fixed capacity limit timeout _ (then_step s t r step) =
    let before = Reach-Fixed capacity limit timeout s r in
    let same = Step-Fixed s t step in (same.0 ∙ before.0, same.1 ∙ before.1)

-- From its creation on, a gate has one slot in use for each lease that is not released and each grant
-- that is not picked up; never more are in use than its capacity, nor more waiters than its limit.
pub Reach-slots :
    (capacity limit timeout : ℕ) (s : System)
    → Reach capacity limit timeout s
    → (s.gate.active ≡ live_count s.leases + length s.pending)
      × (s.gate.active ≤ capacity)
      × (length s.gate.waiters ≤ limit)
Reach-slots capacity limit timeout s r =
    let (i, busy) = Reach-IsSystem capacity limit timeout s r in
    let fixed = Reach-Fixed capacity limit timeout s r in
    (i.balance, omega (arith, i.within, fixed.0), omega (arith, i.bound, fixed.1))

-- From its creation on, a gate has no waiter in its queue unless all its slots are in use.
pub Reach-IsBusy :
    (capacity limit timeout : ℕ) (s : System)
    → Reach capacity limit timeout s
    → (s.gate.waiters ≡ []) ⊎ (s.gate.active ≡ capacity)
Reach-IsBusy capacity limit timeout s r =
    let (i, busy) = Reach-IsSystem capacity limit timeout s r in
    let fixed = Reach-Fixed capacity limit timeout s r in
    elim busy [ inl h ↦ inl h | inr h ↦ inr (omega (arith, h, i.within, fixed.0)) ]

-- The release of any lease that a gate has given out succeeds.
pub Reach-release_once :
    (capacity limit timeout : ℕ) (s : System) (before after : List Bool) (released : Bool)
    → Reach capacity limit timeout s
    → s.leases ≡ before ++ released ∷ after
    → (r : (Gate × List ℕ) × Bool) × (release_once released s.gate ≡ ok r)
Reach-release_once capacity limit timeout s before after released r e =
    let i = Reach-IsSystem capacity limit timeout s r in
    let held = subst (λ ls. IsOpen s.gate (live_count ls) s.pending) e i in
    let (answer, h, slots) = release_lem s.gate before after s.pending released held in (answer, h)

-- What a release does to the queue: nobody is granted where nobody waits, and otherwise the first waiter and
-- no other is granted the slot.
abbrev pub Served : Gate → Gate → List ℕ → Type 0
Served g next grants =
    ((g.waiters ≡ []) × (grants ≡ []) × (next.waiters ≡ []))
    ⊎ ((w : ℕ) × (ws : List ℕ) × (g.waiters ≡ w ∷ ws)
        × (grants ≡ w ∷ [])
        × (next.waiters ≡ ws)
        × (next.waiter_state w ≡ granted)
        × (next.active ≡ g.active))

-- One slot is free, so one waiter at most is granted; and one is, as the promotion leaves no slot free.
promotion-Served :
    (g next : Gate) (grants : List ℕ) (live : ℕ) (pending : List ℕ)
    → IsOpen g live pending
    → (g.active == 0) ≡ false
    → Promoted (record g { active = g.active - 1 }) next g.waiters grants
    → Served g next grants
unfolding AllIn
promotion-Served g next [] live pending (i, busy) some_active p = elim (List-cases g.waiters) [
  | inl e ↦ inl (e, refl, p.order ∙ e)
  | inr (w, ws, e) ↦ elim p.full [
    | inl h ↦ absurd (cc (sym h ∙ p.order ∙ e))
    | inr h ↦ elim busy [
      | inl b ↦ absurd (cc (sym b ∙ e))
      | inr b ↦ absurd (ground (arith, h, b, p.active, some_active))
    ]
  ]
]
promotion-Served g next (w ∷ []) live pending (i, busy) some_active p =
    inr (w, next.waiters, sym p.order, refl, refl, p.given.0, ground (arith, p.active, some_active))
promotion-Served g next (w ∷ v ∷ grants) live pending (i, busy) some_active p = elim busy [
  | inl b ↦ absurd (cc (p.order ∙ b))
  | inr b ↦ absurd (ground (arith, p.active, p.within (ground (arith, i.within)), b, some_active))
]

-- A slot that is given back goes to the waiter that has waited longest: a release that succeeds in a state that
-- tasks reach grants the first waiter of the queue and no other, with as many slots in use as before,
-- and nobody only where nobody waits.
pub Reach-Served :
    (capacity limit timeout : ℕ) (s : System) (next : Gate) (grants : List ℕ)
    → Reach capacity limit timeout s
    → release_slot s.gate ≡ ok (next, grants)
    → Served s.gate next grants
unfolding release_slot promote_waiters_locked
Reach-Served capacity limit timeout s next grants r h =
    let i = Reach-IsSystem capacity limit timeout s r in
    let g : Gate = record s.gate { active = s.gate.active - 1 } in
    elim (Bool-cases (s.gate.active == 0)) [
      | inl e ↦ absurd (cc (e, h))
      | inr e ↦
          let answer : ok (promote g.waiters g) ≡ ok (next, grants) = rw (e) at h in
          let same : promote g.waiters g ≡ (next, grants) =
            ap (λ x. elim x [ ok y ↦ y | err y ↦ promote g.waiters g ]) answer in
          let p = promote-Promoted g.waiters g i.0.distinct i.0.waiting in
          let q = subst (λ x. Promoted g x.0 g.waiters x.1) same p in
          promotion-Served s.gate next grants (live_count s.leases) s.pending i e q
    ]
