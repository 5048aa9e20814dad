-- ===== src/Admission/Network.antt =====
-- uni_api/admission/network.py: `AdaptiveNetworkGovernor` and `NetworkResourceLease`. The clock and what
-- the suppliers return are arguments; a supplier that raises is `none`, and what was read before it is kept, as in
-- the source. The products with a float, `ceil(limit * fd_reserve_ratio)` and
-- `floor(ports * utilization)`, are the functions `fd_share` and `usable` of the configuration. Leases and
-- waiters are named by their places in lists. `sampled_at` is `none` for minus infinity. The checks
-- of the constructor's numbers are left out: the functions and ℕ stand for valid ones.
pub mod Calls
pub mod Charges
pub mod Headroom
pub mod Leases
use uni_api.Prelude.{
  ℕ, ◌+◌, ◌-◌, ◌/◌, min, max, Bool, true, false, not, ◌&&◌, Option, none, some, List, [], ◌∷◌, ◌++◌,
  ltb, ◌==◌, if◌then◌else◌, get_elem?, Result, ok, err,
}
use uni_api.Prelude.Sums.{set}

pub record Config : Type 0 where
  pub fd_reserve_min : ℕ
  pub fd_share : ℕ → ℕ
  pub usable : ℕ → ℕ
  pub sample_cache : ℕ

-- What each supplier answers, or `none` if it raises.
pub record Reading : Type 0 where
  pub nofile : Option (Option ℕ)
  pub open_fds : Option (Option ℕ)
  pub ports : Option (Option ℕ)
  pub occupancy : Option (Option ℕ)

pub record NetworkGovernor : Type 0 where
  pub config : Config
  pub sampled_at : Option ℕ
  pub sample_error : Bool
  pub nofile_soft_limit : Option ℕ
  pub open_fds : Option ℕ
  pub ephemeral_ports : Option ℕ
  pub ephemeral_occupancy : Option ℕ
  pub pending_attempts : ℕ
  pub completed_attempts_since_sample : ℕ
  pub inbound_accepts_since_sample : ℕ
  pub waiting_attempts : ℕ
  pub acquired_total : ℕ
  pub blocked_total : ℕ
  pub cancelled_total : ℕ
  -- Whether each lease is released, and each waiter has ended.
  pub leases : List Bool
  pub waiters : List Bool

pub data NetworkError : Type 0 where
  governor_closed cancelled underflow no_such_lease no_such_waiter : NetworkError

unfoldable pub init : Config → NetworkGovernor
init config = record {
  config = config;
  sampled_at = none;
  sample_error = false;
  nofile_soft_limit = none;
  open_fds = none;
  ephemeral_ports = none;
  ephemeral_occupancy = none;
  pending_attempts = 0;
  completed_attempts_since_sample = 0;
  inbound_accepts_since_sample = 0;
  waiting_attempts = 0;
  acquired_total = 0;
  blocked_total = 0;
  cancelled_total = 0;
  leases = [];
  waiters = [];
}

unfoldable pub is_fresh : ℕ → NetworkGovernor → Bool
is_fresh now g = elim g.sampled_at [ none ↦ false | some t ↦ ltb now (t + g.config.sample_cache) ]

abbrev pub failed : NetworkGovernor → NetworkGovernor
failed g = record g { sample_error = true }

-- The four reads of the `try` block, in order.
unfoldable pub read_kernel : Reading → NetworkGovernor → NetworkGovernor
read_kernel r g = elim r.nofile [
  | none ↦ failed g
  | some nofile ↦ elim r.open_fds [
    | none ↦ failed (record g { nofile_soft_limit = nofile })
    | some fds ↦ elim r.ports [
      | none ↦ failed (record g { nofile_soft_limit = nofile; open_fds = fds })
      | some ports ↦ elim r.occupancy [
        | none ↦
            failed
              (record g { nofile_soft_limit = nofile; open_fds = fds; ephemeral_ports = ports })
        | some occupancy ↦ record g {
          nofile_soft_limit = nofile;
          open_fds = fds;
          ephemeral_ports = ports;
          ephemeral_occupancy = occupancy;
          completed_attempts_since_sample = 0;
          inbound_accepts_since_sample = 0;
          sample_error = false;
        }
      ]
    ]
  ]
]

unfoldable pub sample_locked : ℕ → Bool → Reading → NetworkGovernor → NetworkGovernor
sample_locked now force r g =
    if not force && is_fresh now g then g else record (read_kernel r g) { sampled_at = some now }

unfoldable pub fd_reserve : Config → ℕ → ℕ
fd_reserve c limit = max (min c.fd_reserve_min (max 1 (limit / 2))) (c.fd_share limit)

-- The descriptors that stay free, in `-` on ℕ, which stops at 0 as the source's `max(0, …)` does.
unfoldable pub fd_headroom : NetworkGovernor → Option ℕ
fd_headroom g = elim g.nofile_soft_limit [
  | none ↦ none
  | some limit ↦ elim g.open_fds [
    | none ↦ none
    | some fds ↦ some (
        limit
        - (fd_reserve g.config limit
            + fds
            + g.pending_attempts
            + g.completed_attempts_since_sample
            + g.inbound_accepts_since_sample))
  ]
]

unfoldable pub port_headroom : NetworkGovernor → Option ℕ
port_headroom g = elim g.ephemeral_ports [
  | none ↦ none
  | some ports ↦ elim g.ephemeral_occupancy [
    | none ↦ none
    | some occupancy ↦ some (
        g.config.usable ports
        - (occupancy + g.pending_attempts + g.completed_attempts_since_sample))
  ]
]

-- A known headroom that is used up.
abbrev pub exhausted : Option ℕ → Bool
exhausted none = false
exhausted (some n) = n == 0

unfoldable pub try_reserve_locked : ℕ → Reading → NetworkGovernor → NetworkGovernor × Bool
try_reserve_locked now r g =
    let sampled = sample_locked now false r g in
    if exhausted (fd_headroom sampled)
    then (sampled, false)
    else if exhausted (port_headroom sampled)
    then (sampled, false)
    else (
      record sampled {
        pending_attempts = sampled.pending_attempts + 1;
        acquired_total = sampled.acquired_total + 1;
      },
      true,
    )

-- A lease is put at the end of the list.
unfoldable pub try_acquire : ℕ → Reading → NetworkGovernor → NetworkGovernor × Bool
try_acquire now r g =
    let (g', reserved) = try_reserve_locked now r g in
    if reserved then (record g' { leases = g'.leases ++ false ∷ [] }, true) else (g', false)

-- `acquire` up to its first wait: it ends, or a waiter is put at the end of the list.
unfoldable pub acquire : ℕ → Reading → NetworkGovernor → NetworkGovernor × Bool
acquire now r g =
    let (g', acquired) = try_acquire now r g in
    if acquired then (g', true) else (
      record g' {
        blocked_total = g'.blocked_total + 1;
        waiting_attempts = g'.waiting_attempts + 1;
        waiters = g'.waiters ++ false ∷ [];
      },
      false,
    )

-- The `finally` of a waiter.
unfoldable pub stop_waiting : ℕ → NetworkGovernor → NetworkGovernor
stop_waiting i g = record g {
  waiting_attempts = g.waiting_attempts - 1;
  waiters = set i true g.waiters;
}

-- One round of a waiter's loop: `aborted` is what `abort` answers. `true` is a lease, `false` another wait.
unfoldable pub retry :
    Bool → ℕ → ℕ → Reading → NetworkGovernor → NetworkGovernor × Result NetworkError Bool
retry aborted i now r g = elim (get_elem? g.waiters i) [
  | some false ↦
      let (g', reserved) = try_reserve_locked now r g in
      if aborted
      then (stop_waiting i g, err governor_closed)
      else if reserved
      then (stop_waiting i (record g' { leases = g'.leases ++ false ∷ [] }), ok true)
      else (g', ok false)
  | _ ↦ (g, err no_such_waiter)
]

unfoldable pub cancel : ℕ → NetworkGovernor → NetworkGovernor × Option NetworkError
cancel i g = elim (get_elem? g.waiters i) [
  | some false ↦
      (stop_waiting i (record g { cancelled_total = g.cancelled_total + 1 }), some cancelled)
  | _ ↦ (g, some no_such_waiter)
]

-- `NetworkResourceLease.release`, whose work is done once.
unfoldable pub release : ℕ → NetworkGovernor → NetworkGovernor × Option NetworkError
release k g = elim (get_elem? g.leases k) [
  | none ↦ (g, some no_such_lease)
  | some true ↦ (g, none)
  | some false ↦ if g.pending_attempts == 0 then (g, some underflow) else (
    record g {
      pending_attempts = g.pending_attempts - 1;
      completed_attempts_since_sample = g.completed_attempts_since_sample + 1;
      leases = set k true g.leases;
    },
    none,
  )
]

unfoldable pub allow_inbound_connection : ℕ → Reading → NetworkGovernor → NetworkGovernor × Bool
allow_inbound_connection now r g =
    let sampled = sample_locked now false r g in
    if exhausted (fd_headroom sampled) then (sampled, false) else (
      record sampled { inbound_accepts_since_sample = sampled.inbound_accepts_since_sample + 1 },
      true,
    )
