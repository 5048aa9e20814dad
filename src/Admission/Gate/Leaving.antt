-- ===== src/Admission/Gate/Leaving.antt =====
-- Waiters, grants and leases that leave the gate.
use mathlib.Core.Path.{subst}
use uni_api.Prelude.{
  ℕ, ◌+◌, ◌-◌, String, ◌≡◌, sym, ap, ◌∙◌, Bool, Option, List, ◌∷◌, ◌++◌, arith, length,
  length-append,
}
use uni_api.Admission.Gate.{
  queued, granted, abandoned, Gate, set_state, remove_waiter, abandon_waiter,
}
use uni_api.Admission.Gate.Queue.{
  IsAbsent, AllDistinct, AllIn, AllBelow, AllIn-set, AllIn-append, AllIn-split, AllBelow-append,
  AllBelow-split, state-IsAbsent, without, remove_waiter_lem,
}
use uni_api.Admission.Gate.Invariant.{IsGate, promote-IsGate, count_abandoned-IsGate}
use uni_api.Admission.Gate.Slots.{IsOpen}

-- A waiter leaves the queue.
drop_waiter :
    (g : Gate) (live : ℕ) (pending xs ys : List ℕ) (id : ℕ)
    → IsGate g live pending
    → g.waiters ≡ xs ++ id ∷ ys
    → IsGate
        (record g {
          waiter_state = set_state id abandoned g.waiter_state;
          waiters = remove_waiter id g.waiters;
        })
        live
        pending
unfolding AllIn AllBelow
drop_waiter g live pending xs ys id i e =
    let states = set_state id abandoned g.waiter_state in
    let distinct : AllDistinct (xs ++ id ∷ ys) = subst AllDistinct e i.distinct in
    let waiting : AllIn queued g.waiter_state (xs ++ id ∷ ys) =
      subst (λ ws. AllIn queued g.waiter_state ws) e i.waiting in
    let old : AllBelow g.created (xs ++ id ∷ ys) = subst (λ ws. AllBelow g.created ws) e i.old in
    let size : length g.waiters ≡ length (xs ++ id ∷ ys) = ap (λ ws. length ws) e in
    let removed : remove_waiter id g.waiters ≡ xs ++ ys =
      ap (λ ws. remove_waiter id ws) e ∙ remove_waiter_lem id xs ys distinct in
    let (rest, absent) = without id xs ys distinct in
    let (first, last) = AllIn-split queued g.waiter_state xs (id ∷ ys) waiting in
    let (older, newer) = AllBelow-split g.created xs (id ∷ ys) old in
    let unpicked : IsAbsent id pending =
      state-IsAbsent granted g.waiter_state id pending (λ h. absurd (cc (h, last.0))) i.given in
    record {
      waiting =
          subst (λ ws. AllIn queued states ws) (sym removed)
            (AllIn-set queued abandoned g.waiter_state id (xs ++ ys) absent
              (AllIn-append queued g.waiter_state xs ys first last.1));
      distinct = subst AllDistinct (sym removed) rest;
      old =
          subst (λ ws. AllBelow g.created ws) (sym removed)
            (AllBelow-append g.created xs ys older newer.1);
      given = AllIn-set granted abandoned g.waiter_state id pending unpicked i.given;
      given_distinct = i.given_distinct;
      given_old = i.given_old;
      balance = i.balance;
      within = i.within;
      bound =
          rw (removed)
            (omega (arith, i.bound, size, length-append xs ys, length-append xs (id ∷ ys)));
    }

-- A grant that nobody picks up gives its slot back.
drop_grant :
    (g : Gate) (live : ℕ) (xs ys : List ℕ) (id : ℕ)
    → IsGate g live (xs ++ id ∷ ys)
    → IsGate
        (record g { waiter_state = set_state id abandoned g.waiter_state; active = g.active - 1 })
        live
        (xs ++ ys)
unfolding AllIn AllBelow
drop_grant g live xs ys id i =
    let states = set_state id abandoned g.waiter_state in
    let (rest, absent) = without id xs ys i.given_distinct in
    let (first, last) = AllIn-split granted g.waiter_state xs (id ∷ ys) i.given in
    let (older, newer) = AllBelow-split g.created xs (id ∷ ys) i.given_old in
    let unqueued : IsAbsent id g.waiters =
      state-IsAbsent queued g.waiter_state id g.waiters (λ h. absurd (cc (h, last.0))) i.waiting in
    record {
      waiting = AllIn-set queued abandoned g.waiter_state id g.waiters unqueued i.waiting;
      distinct = i.distinct;
      old = i.old;
      given =
          AllIn-set granted abandoned g.waiter_state id (xs ++ ys) absent
            (AllIn-append granted g.waiter_state xs ys first last.1);
      given_distinct = rest;
      given_old = AllBelow-append g.created xs ys older newer.1;
      balance = omega (arith, i.balance, length-append xs ys, length-append xs (id ∷ ys));
      within = omega (arith, i.within);
      bound = i.bound;
    }

-- A grant becomes a lease.
pub pick_up :
    (g : Gate) (live : ℕ) (xs ys : List ℕ) (id : ℕ)
    → IsGate g live (xs ++ id ∷ ys)
    → IsGate g (live + 1) (xs ++ ys)
unfolding AllIn AllBelow
pick_up g live xs ys id i =
    let (rest, absent) = without id xs ys i.given_distinct in
    let (first, last) = AllIn-split granted g.waiter_state xs (id ∷ ys) i.given in
    let (older, newer) = AllBelow-split g.created xs (id ∷ ys) i.given_old in
    record {
      waiting = i.waiting;
      distinct = i.distinct;
      old = i.old;
      given = AllIn-append granted g.waiter_state xs ys first last.1;
      given_distinct = rest;
      given_old = AllBelow-append g.created xs ys older newer.1;
      balance = omega (arith, i.balance, length-append xs ys, length-append xs (id ∷ ys));
      within = i.within;
      bound = i.bound;
    }

-- A lease's slot is given back.
pub lease_back :
    (g : Gate) (live : ℕ) (pending : List ℕ)
    → IsGate g (live + 1) pending
    → IsGate (record g { active = g.active - 1 }) live pending
lease_back g live pending i = record {
  waiting = i.waiting;
  distinct = i.distinct;
  old = i.old;
  given = i.given;
  given_distinct = i.given_distinct;
  given_old = i.given_old;
  balance = omega (arith, i.balance);
  within = omega (arith, i.within);
  bound = i.bound;
}

pub abandon_waiter_queued :
    (g : Gate) (live : ℕ) (pending xs ys : List ℕ) (id : ℕ) (reason : Option String)
    (cancelled : Bool)
    → IsOpen g live pending
    → g.waiters ≡ xs ++ id ∷ ys
    → IsOpen
        (abandon_waiter id reason cancelled g).0
        live
        (pending ++ (abandon_waiter id reason cancelled g).1)
unfolding abandon_waiter AllIn
abandon_waiter_queued g live pending xs ys id reason cancelled (i, busy) e =
    let waiting : AllIn queued g.waiter_state (xs ++ id ∷ ys) =
      subst (λ ws. AllIn queued g.waiter_state ws) e i.waiting in
    let state : g.waiter_state id ≡ queued =
      (AllIn-split queued g.waiter_state xs (id ∷ ys) waiting).1.0 in
    rw (abandon_waiter, state)
      (promote-IsGate _ live pending (
        count_abandoned-IsGate reason cancelled _ live pending
          (drop_waiter g live pending xs ys id i e)))

pub abandon_waiter_unpicked :
    (g : Gate) (live : ℕ) (xs ys : List ℕ) (id : ℕ) (reason : Option String) (cancelled : Bool)
    → IsOpen g live (xs ++ id ∷ ys)
    → IsOpen
        (abandon_waiter id reason cancelled g).0
        live
        ((xs ++ ys) ++ (abandon_waiter id reason cancelled g).1)
unfolding abandon_waiter AllIn
abandon_waiter_unpicked g live xs ys id reason cancelled (i, busy) =
    let state : g.waiter_state id ≡ granted =
      (AllIn-split granted g.waiter_state xs (id ∷ ys) i.given).1.0 in
    rw (abandon_waiter, state)
      (promote-IsGate _ live (xs ++ ys)
        (count_abandoned-IsGate reason cancelled _ live (xs ++ ys) (drop_grant g live xs ys id i)))
