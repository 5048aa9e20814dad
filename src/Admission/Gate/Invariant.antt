-- ===== src/Admission/Gate/Invariant.antt =====
-- The slots of a gate: one for each live lease and each grant that waits to be picked up.
use mathlib.Core.Path.{subst}
use uni_api.Prelude.{
  ℕ, ◌+◌, ◌≤◌, String, ◌≡◌, sym, ap, ◌∙◌, ◌⊎◌, Bool, true, false, Option, none, some, List, [], ◌∷◌,
  ◌++◌, arith, length, length-append,
}
use uni_api.Admission.Gate.{
  WaiterState, queued, granted, Gate, promote, promote_waiters_locked, count_rejection,
  count_abandoned,
}
use uni_api.Admission.Gate.Queue.{
  IsAbsent, AllDistinct, AllIn, AllBelow, AllApart, AllIn-append, AllBelow-append,
  AllDistinct-append, AllBelow-split, AllDistinct-split, AllApart-split, states_apart,
}
use uni_api.Admission.Gate.Promotion.{promote-Promoted}

pub record IsReady (capacity limit active created live : ℕ) (states : ℕ → WaiterState)
    (waiters pending : List ℕ) : Type 0 where
  pub waiting : AllIn queued states waiters
  pub distinct : AllDistinct waiters
  pub old : AllBelow created waiters
  pub given : AllIn granted states pending
  pub given_distinct : AllDistinct pending
  pub given_old : AllBelow created pending
  pub balance : active ≡ live + length pending
  pub within : active ≤ capacity
  pub bound : length waiters ≤ limit

-- A gate whose slots are those of `live` leases and of the grants `pending`.
abbrev pub IsGate : Gate → ℕ → List ℕ → Type 0
IsGate g live pending =
    IsReady g.capacity g.waiter_limit g.active g.created live g.waiter_state g.waiters pending

-- No slot is free while a waiter is in the queue.
abbrev pub IsBusy : Gate → Type 0
IsBusy g = (g.waiters ≡ []) ⊎ (g.capacity ≤ g.active)

pub IsReady-created :
    (capacity limit active created other live : ℕ) (states : ℕ → WaiterState)
    (waiters pending : List ℕ)
    → created ≡ other
    → IsReady capacity limit active created live states waiters pending
    → IsReady capacity limit active other live states waiters pending
IsReady-created capacity limit active created other live states waiters pending e i =
    subst (λ n. IsReady capacity limit active n live states waiters pending) e i

-- The identities that are in no queue keep their state.
AllIn-others :
    (state : WaiterState) (before after : ℕ → WaiterState) (ws xs : List ℕ)
    → ((id : ℕ) → IsAbsent id ws → after id ≡ before id)
    → AllApart xs ws
    → AllIn state before xs
    → AllIn state after xs
unfolding AllIn AllApart
AllIn-others state before after ws [] same a h = tt
AllIn-others state before after ws (x ∷ xs) same a h =
    (same x a.0 ∙ h.0, AllIn-others state before after ws xs same a.1 h.1)

pub promote-IsGate :
    (g : Gate) (live : ℕ) (pending : List ℕ)
    → IsGate g live pending
    → IsGate (promote_waiters_locked g).0 live (pending ++ (promote_waiters_locked g).1)
      × IsBusy (promote_waiters_locked g).0
unfolding promote_waiters_locked
promote-IsGate g live pending i =
    let next = (promote g.waiters g).0 in
    let grants = (promote g.waiters g).1 in
    let p = promote-Promoted g.waiters g i.distinct i.waiting in
    let apart = states_apart g.waiter_state pending g.waiters i.given i.waiting in
    let apart_both : AllApart pending (grants ++ next.waiters) =
      subst (λ ws. AllApart pending ws) (sym p.order) apart in
    let distinct : AllDistinct grants × AllDistinct next.waiters =
      AllDistinct-split grants next.waiters (subst AllDistinct (sym p.order) i.distinct) in
    let old : AllBelow g.created grants × AllBelow g.created next.waiters =
      AllBelow-split g.created grants next.waiters
        (subst (λ ws. AllBelow g.created ws) (sym p.order) i.old) in
    let kept =
      AllIn-others granted g.waiter_state next.waiter_state g.waiters pending p.others apart
        i.given in
    let size : length grants + length next.waiters ≡ length g.waiters =
      sym (length-append grants next.waiters) ∙ ap (λ ws. length ws) p.order in
    let full : IsBusy next = rw (p.capacity) p.full in
    (
      record {
        waiting = p.left;
        distinct = distinct.1;
        old = rw (p.created) old.1;
        given = AllIn-append granted next.waiter_state pending grants kept p.given;
        given_distinct =
            AllDistinct-append pending grants i.given_distinct distinct.0
              (AllApart-split pending grants next.waiters apart_both).0;
        given_old = rw (p.created) (AllBelow-append g.created pending grants i.given_old old.0);
        balance = omega (arith, p.active, i.balance, length-append pending grants);
        within = omega (arith, p.capacity, p.within i.within);
        bound = omega (arith, size, p.waiter_limit, i.bound);
      },
      full,
    )

-- Counting a rejection or a cancellation leaves the slots alone.
pub count_abandoned-IsGate :
    (reason : Option String) (cancelled : Bool) (g : Gate) (live : ℕ) (pending : List ℕ)
    → IsGate g live pending
    → IsGate (count_abandoned reason cancelled g) live pending
unfolding count_abandoned count_rejection
count_abandoned-IsGate none true g live pending i = i
count_abandoned-IsGate none false g live pending i = i
count_abandoned-IsGate (some text) true g live pending i = i
count_abandoned-IsGate (some text) false g live pending i = i
