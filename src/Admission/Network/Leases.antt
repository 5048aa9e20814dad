-- ===== src/Admission/Network/Leases.antt =====
-- The counters of the governor count its open leases and its waiters.
use uni_api.Prelude.{
  ℕ, ◌+◌, ◌≡◌, ◌≢◌, Bool, true, false, some, List, [], ◌∷◌, ◌++◌, arith, if◌then◌else◌, get_elem?,
}
use uni_api.Admission.Network.{
  Config, Reading, NetworkGovernor, underflow, init, read_kernel, sample_locked, try_reserve_locked,
  try_acquire, acquire, stop_waiting, retry, cancel, release, allow_inbound_connection,
}
use uni_api.Admission.Network.Calls.{
  Call, tries, acquires, inbounds, retries, cancels, releases, ended, step, run, nothing, over,
  live, found,
}
use uni_api.Prelude.Sums.{total, total-append, total-set, le-total}

abbrev pub live_one : Bool → ℕ
live_one ended = if ended then 0 else 1

pub record Tallied (g : NetworkGovernor) : Type 0 where
  pub pending : g.pending_attempts ≡ total live_one g.leases
  pub waiting : g.waiting_attempts ≡ total live_one g.waiters

-- What a sample and a try leave as it is, and the reservations that a try adds.
record Tried (n : ℕ) (g g' : NetworkGovernor) : Type 0 where
  leases : g'.leases ≡ g.leases
  waiters : g'.waiters ≡ g.waiters
  waiting : g'.waiting_attempts ≡ g.waiting_attempts
  pending : g'.pending_attempts ≡ g.pending_attempts + n

read_kernel-Tried : (r : Reading) (g : NetworkGovernor) → Tried 0 g (read_kernel r g)
unfolding read_kernel
read_kernel-Tried r g = ground arith

sample_locked-Tried :
    (now : ℕ) (r : Reading) (g : NetworkGovernor) → Tried 0 g (sample_locked now false r g)
unfolding sample_locked
sample_locked-Tried now r g = ground (arith, read_kernel-Tried r g)

try_reserve-Tried :
    (now : ℕ) (r : Reading) (g : NetworkGovernor)
    → let p = try_reserve_locked now r g in Tried (if p.1 then 1 else 0) g p.0
unfolding try_reserve_locked
try_reserve-Tried now r g = ground (arith, sample_locked-Tried now r g)

stop_waiting-Tallied :
    (i : ℕ) (g : NetworkGovernor)
    → get_elem? g.waiters i ≡ some false
    → Tallied g
    → Tallied (stop_waiting i g)
unfolding stop_waiting
stop_waiting-Tallied i g at v = ground (arith, v, total-set live_one g.waiters i true false at)

try_acquire-Tallied :
    (now : ℕ) (r : Reading) (g : NetworkGovernor) → Tallied g → Tallied (try_acquire now r g).0
unfolding try_acquire
try_acquire-Tallied now r g v =
    let s = try_reserve-Tried now r g in
    let g' = (try_reserve_locked now r g).0 in
    ground (arith, s, v, total-append live_one g'.leases (false ∷ []))

acquire-Tallied :
    (now : ℕ) (r : Reading) (g : NetworkGovernor) → Tallied g → Tallied (acquire now r g).0
unfolding acquire
acquire-Tallied now r g v =
    let w = try_acquire-Tallied now r g v in
    let g' = (try_acquire now r g).0 in
    ground (arith, w, total-append live_one g'.waiters (false ∷ []))

retry-Tallied :
    (aborted : Bool) (i now : ℕ) (r : Reading) (g : NetworkGovernor)
    → Tallied g
    → Tallied (retry aborted i now r g).0
unfolding retry
retry-Tallied aborted i now r g v = elim (found (get_elem? g.waiters i)) [
  | nothing e ↦ ground (arith, e)
  | over e ↦ ground (arith, e)
  | live e ↦
      let s = try_reserve-Tried now r g in
      let g' = (try_reserve_locked now r g).0 in
      ground (
        arith,
        e,
        s,
        v,
        total-append live_one g'.leases (false ∷ []),
        stop_waiting-Tallied i g e v,
        stop_waiting-Tallied i (record g' { leases = g'.leases ++ false ∷ [] }),
      )
]

cancel-Tallied : (i : ℕ) (g : NetworkGovernor) → Tallied g → Tallied (cancel i g).0
unfolding cancel
cancel-Tallied i g v = elim (found (get_elem? g.waiters i)) [
  | nothing e ↦ ground (arith, e)
  | over e ↦ ground (arith, e)
  | live e ↦
      ground
        (arith, e, stop_waiting-Tallied i (record g { cancelled_total = g.cancelled_total + 1 }) e)
]

release-Tallied :
    (k : ℕ) (g : NetworkGovernor)
    → Tallied g
    → Tallied (release k g).0 × ((release k g).1 ≢ some underflow)
unfolding release
release-Tallied k g v = elim (found (get_elem? g.leases k)) [
  | nothing e ↦ ground (arith, e)
  | over e ↦ ground (arith, e)
  | live e ↦
      ground
        (arith, e, total-set live_one g.leases k true false e, le-total live_one g.leases k false e)
]

inbound-Tallied :
    (now : ℕ) (r : Reading) (g : NetworkGovernor)
    → Tallied g
    → Tallied (allow_inbound_connection now r g).0
unfolding allow_inbound_connection
inbound-Tallied now r g v = ground (arith, v, sample_locked-Tried now r g)

step-Tallied : (g : NetworkGovernor) (c : Call) → Tallied g → Tallied (step g c).0
unfolding step
step-Tallied g (tries now r) v = ground (arith, try_acquire-Tallied now r g v)
step-Tallied g (acquires now r) v = ground (arith, acquire-Tallied now r g v)
step-Tallied g (inbounds now r) v = ground (arith, inbound-Tallied now r g v)
step-Tallied g (retries aborted i now r) v = ground (arith, retry-Tallied aborted i now r g v)
step-Tallied g (cancels i) v = ground (arith, cancel-Tallied i g v)
step-Tallied g (releases k) v = ground (arith, release-Tallied k g v)

init-Tallied : (config : Config) → Tallied (init config)
unfolding init
init-Tallied config = ground arith

run-Tallied : (g : NetworkGovernor) (cs : List Call) → Tallied g → Tallied (run g cs)
unfolding run
run-Tallied g [] v = v
run-Tallied g (c ∷ cs) v = run-Tallied (step g c).0 cs (step-Tallied g c v)

-- In any interleaving of tries, waits, retries, cancellations, releases and inbound sockets on a new
-- governor, with any samples or failures to sample: the pending attempts are the leases that are not
-- released, the waiting attempts are the waiters that have not ended, and no release finds that
-- nothing is reserved.
pub run-init-Tallied :
    (config : Config) (cs : List Call) (k : ℕ)
    → let g = run (init config) cs in Tallied g × ((release k g).1 ≢ some underflow)
run-init-Tallied config cs k =
    let v = run-Tallied (init config) cs (init-Tallied config) in
    (v, (release-Tallied k (run (init config) cs) v).1)
