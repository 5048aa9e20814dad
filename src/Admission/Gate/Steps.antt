-- ===== src/Admission/Gate/Steps.antt =====
-- The tasks that use a gate: leases in their hands, grants that they have not picked up, waiting.
use uni_api.Prelude.{
  ℕ, ◌+◌, String, ◌≡◌, Bool, true, false, Option, List, [], ◌∷◌, ◌++◌, if◌then◌else◌, ok,
}
use uni_api.Admission.Gate.{
  Gate, Acquisition, leased, waits, queue_full, init, begin_acquire, try_acquire, abandon_waiter,
  release_once,
}

-- `leases` are the `_released` flags of the leases that were given out, `pending` the waiters whose
-- future has a result that `_wait_for_waiter` has not yet returned.
pub record System : Type 0 where
  pub gate : Gate
  pub leases : List Bool
  pub pending : List ℕ

unfoldable pub add_lease : Acquisition → List Bool → List Bool
add_lease leased leases = false ∷ leases
add_lease (waits id) leases = leases
add_lease queue_full leases = leases

unfoldable pub live_count : List Bool → ℕ
live_count [] = 0
live_count (true ∷ leases) = live_count leases
live_count (false ∷ leases) = live_count leases + 1

-- `abandons` is the timeout or the cancellation of a waiter in the queue, `gives_up` that of one whose grant
-- it lost the race to.
pub data Step : System → System → Type 0 where
  begins :
      (gate next : Gate) (leases : List Bool) (pending : List ℕ) (timeout : Option ℕ)
      (result : Acquisition)
      → begin_acquire timeout gate ≡ ok (next, result)
      → Step
          (record { gate = gate; leases = leases; pending = pending })
          (record { gate = next; leases = add_lease result leases; pending = pending })
  tries :
      (gate : Gate) (leases : List Bool) (pending : List ℕ)
      → Step
          (record { gate = gate; leases = leases; pending = pending })
          (record {
            gate = (try_acquire gate).0;
            leases = if (try_acquire gate).1 then false ∷ leases else leases;
            pending = pending;
          })
  abandons :
      (gate : Gate) (leases : List Bool) (pending before after : List ℕ) (id : ℕ)
      (reason : Option String) (cancelled : Bool)
      → gate.waiters ≡ before ++ id ∷ after
      → Step
          (record { gate = gate; leases = leases; pending = pending })
          (record {
            gate = (abandon_waiter id reason cancelled gate).0;
            leases = leases;
            pending = pending ++ (abandon_waiter id reason cancelled gate).1;
          })
  gives_up :
      (gate : Gate) (leases : List Bool) (before after : List ℕ) (id : ℕ) (reason : Option String)
      (cancelled : Bool)
      → Step
          (record { gate = gate; leases = leases; pending = before ++ id ∷ after })
          (record {
            gate = (abandon_waiter id reason cancelled gate).0;
            leases = leases;
            pending = (before ++ after) ++ (abandon_waiter id reason cancelled gate).1;
          })
  picks_up :
      (gate : Gate) (leases : List Bool) (before after : List ℕ) (id : ℕ)
      → Step
          (record { gate = gate; leases = leases; pending = before ++ id ∷ after })
          (record { gate = gate; leases = false ∷ leases; pending = before ++ after })
  releases :
      (gate next : Gate) (before after : List Bool) (pending grants : List ℕ) (released done : Bool)
      → release_once released gate ≡ ok ((next, grants), done)
      → Step
          (record { gate = gate; leases = before ++ released ∷ after; pending = pending })
          (record { gate = next; leases = before ++ done ∷ after; pending = pending ++ grants })

pub data Reach (capacity waiter_limit wait_timeout_seconds : ℕ) : System → Type 0 where
  started :
      (gate : Gate)
      → init capacity waiter_limit wait_timeout_seconds ≡ ok gate
      → Reach capacity waiter_limit wait_timeout_seconds
          (record { gate = gate; leases = []; pending = [] })
  then_step :
      (s t : System)
      → Reach capacity waiter_limit wait_timeout_seconds s
      → Step s t
      → Reach capacity waiter_limit wait_timeout_seconds t
