-- ===== src/Tests/Gate.antt =====
-- Tests of the model of `BoundedAdmissionGate` of uni_api/admission/core.py.
use uni_api.Prelude.{
  ℕ, ◌+◌, ◌≤◌, ◌≡◌, refl, ◌⊎◌, Bool, false, none, some, List, [], ◌∷◌, length, update, ok, err,
}
use uni_api.Admission.Gate.{
  abandoned, Gate, active_underflow, waits, queue_full, init, set_state, grant, promote,
  promote_waiters_locked, count_rejection, claim, begin_acquire, try_acquire, remove_waiter,
  count_abandoned, abandon_waiter, release_slot, release_once,
}
use uni_api.Admission.Gate.Steps.{
  System, add_lease, live_count, begins, tries, Reach, started, then_step,
}
use uni_api.Admission.Gate.Safety.{
  Reach-slots, Reach-IsBusy, Reach-release_once, Served, Reach-Served,
}

program : Unit {0}
unfolding init set_state grant promote promote_waiters_locked count_rejection claim begin_acquire
    try_acquire remove_waiter count_abandoned abandon_waiter release_slot release_once add_lease
    live_count update
program = tt

abbrev fresh : Gate
fresh = record {
  capacity = 1;
  waiter_limit = 2;
  wait_timeout_seconds = 30;
  active = 0;
  waiters = [];
  waiter_state = λ id. abandoned;
  created = 0;
  acquired_total = 0;
  cancelled_total = 0;
  rejected = λ reason. 0;
}

made : init 1 2 30 ≡ ok fresh
unfolding program
made = refl

nothing_to_release : release_slot fresh ≡ err active_underflow
unfolding program
nothing_to_release = refl

-- One request holds the slot, two wait, and a fourth is refused.
abbrev held : Gate
held = (try_acquire fresh).0

abbrev one_waits : Gate
one_waits = (claim held).0

abbrev two_wait : Gate
two_wait = (claim one_waits).0

refused : ((claim two_wait).1 ≡ queue_full) × ((claim two_wait).0.rejected "queue_full" ≡ 1)
unfolding program
refused = (refl, refl)

-- The waiter that times out leaves the queue, the other one is granted the slot that is released.
timed_out : (abandon_waiter 0 (some "wait_timeout") false two_wait).0.waiters ≡ 1 ∷ []
unfolding program
timed_out = refl

abbrev full : System
full = record { gate = two_wait; leases = false ∷ []; pending = [] }

full-Reach : Reach 1 2 30 full
unfolding program
full-Reach =
    then_step (record { gate = one_waits; leases = false ∷ []; pending = [] }) full
      (then_step (record { gate = held; leases = false ∷ []; pending = [] })
        (record { gate = one_waits; leases = false ∷ []; pending = [] })
        (then_step (record { gate = fresh; leases = []; pending = [] })
          (record { gate = held; leases = false ∷ []; pending = [] }) (started fresh made)
          (tries fresh [] []))
        (begins held one_waits (false ∷ []) [] none (waits 0) refl))
      (begins one_waits two_wait (false ∷ []) [] none (waits 1) refl)

Reach-slots_example :
    (two_wait.active ≡ live_count (false ∷ []) + length {A = ℕ} [])
    × (two_wait.active ≤ 1)
    × (length two_wait.waiters ≤ 2)
Reach-slots_example = Reach-slots 1 2 30 full full-Reach

Reach-IsBusy_example : (two_wait.waiters ≡ []) ⊎ (two_wait.active ≡ 1)
Reach-IsBusy_example = Reach-IsBusy 1 2 30 full full-Reach

Reach-release_once_example : (r : (Gate × List ℕ) × Bool) × (release_once false two_wait ≡ ok r)
Reach-release_once_example = Reach-release_once 1 2 30 full [] [] false full-Reach refl

abbrev after_release : Gate × List ℕ
after_release = promote_waiters_locked (record two_wait { active = 0 })

first_granted : after_release.1 ≡ 0 ∷ []
unfolding program
first_granted = refl

given_back : release_slot two_wait ≡ ok (after_release.0, after_release.1)
unfolding program
given_back = refl

Reach-Served_example : Served two_wait after_release.0 after_release.1
Reach-Served_example =
    Reach-Served 1 2 30 full after_release.0 after_release.1 full-Reach given_back
