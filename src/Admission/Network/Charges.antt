-- ===== src/Admission/Network/Charges.antt =====
-- What one call charges to the headroom of the governor between two samples.
use uni_api.Prelude.{
  ℕ, ◌+◌, ◌-◌, ◌≡◌, refl, ◌≢◌, ◌⊎◌, inl, inr, true, false, Option, none, some, arith, ltb,
  Bool-cases, Option-cases, get_elem?,
}
use uni_api.Admission.Network.{
  Reading, NetworkGovernor, is_fresh, sample_locked, fd_headroom, port_headroom, exhausted,
  try_reserve_locked, try_acquire, acquire, stop_waiting, retry, cancel, release,
  allow_inbound_connection,
}
use uni_api.Admission.Network.Calls.{
  Call, tries, acquires, inbounds, retries, cancels, releases, Outcome, step, attempts, sockets,
  is_before, nothing, over, live, found,
}

sample_locked-fresh :
    (now t : ℕ) (r : Reading) (g : NetworkGovernor)
    → g.sampled_at ≡ some t
    → ltb now (t + g.config.sample_cache) ≡ true
    → sample_locked now false r g ≡ g
unfolding sample_locked is_fresh
sample_locked-fresh now t r g at soon = ground (arith, at, soon)

pub fd_headroom-charge :
    (g g' : NetworkGovernor) (n : ℕ)
    → g'.config ≡ g.config
    → g'.nofile_soft_limit ≡ g.nofile_soft_limit
    → g'.open_fds ≡ g.open_fds
    → g'.pending_attempts + g'.completed_attempts_since_sample + g'.inbound_accepts_since_sample
      ≡ g.pending_attempts + g.completed_attempts_since_sample + g.inbound_accepts_since_sample + n
    → (h : ℕ) → fd_headroom g ≡ some h
    → fd_headroom g' ≡ some (h - n)
unfolding fd_headroom
fd_headroom-charge g g' n same limit fds charge h known = elim (Option-cases g.nofile_soft_limit) [
  | inl e ↦ ground (arith, e)
  | inr (l, e) ↦ elim (Option-cases g.open_fds) [
    | inl o ↦ ground (arith, e, o)
    | inr (f, o) ↦ ground (arith, e, o, same, limit, fds)
  ]
]

pub port_headroom-charge :
    (g g' : NetworkGovernor) (n : ℕ)
    → g'.config ≡ g.config
    → g'.ephemeral_ports ≡ g.ephemeral_ports
    → g'.ephemeral_occupancy ≡ g.ephemeral_occupancy
    → g'.pending_attempts + g'.completed_attempts_since_sample
      ≡ g.pending_attempts + g.completed_attempts_since_sample + n
    → (h : ℕ) → port_headroom g ≡ some h
    → port_headroom g' ≡ some (h - n)
unfolding port_headroom
port_headroom-charge g g' n same ports occupancy charge h known =
    elim (Option-cases g.ephemeral_ports) [
      | inl e ↦ ground (arith, e)
      | inr (l, e) ↦ elim (Option-cases g.ephemeral_occupancy) [
        | inl o ↦ ground (arith, e, o)
        | inr (f, o) ↦ ground (arith, e, o, same, ports, occupancy)
      ]
    ]

-- What a step between two samples keeps, and what it charges.
pub record Charged (g g' : NetworkGovernor) (o : Outcome) : Type 0 where
  pub sampled : g'.sampled_at ≡ g.sampled_at
  pub config : g'.config ≡ g.config
  pub limit : g'.nofile_soft_limit ≡ g.nofile_soft_limit
  pub fds : g'.open_fds ≡ g.open_fds
  pub ports : g'.ephemeral_ports ≡ g.ephemeral_ports
  pub occupancy : g'.ephemeral_occupancy ≡ g.ephemeral_occupancy
  pub fd_charge :
      g'.pending_attempts + g'.completed_attempts_since_sample + g'.inbound_accepts_since_sample
      ≡ g.pending_attempts
        + g.completed_attempts_since_sample
        + g.inbound_accepts_since_sample
        + sockets o
  pub port_charge :
      g'.pending_attempts + g'.completed_attempts_since_sample
      ≡ g.pending_attempts + g.completed_attempts_since_sample + attempts o
  pub fd_room : sockets o ≡ 1 → fd_headroom g ≢ some 0
  pub port_room : attempts o ≡ 1 → port_headroom g ≢ some 0

abbrev with_one_more : NetworkGovernor → NetworkGovernor
with_one_more g = record g {
  pending_attempts = g.pending_attempts + 1;
  acquired_total = g.acquired_total + 1;
}

-- `exhausted` answers whether a headroom is `some 0`.
exhausted_cases : (o : Option ℕ) → (exhausted o ≡ true) ⊎ ((exhausted o ≡ false) × (o ≢ some 0))
exhausted_cases none = inr (refl, cc)
exhausted_cases (some n) = ground arith

try_reserve_cases :
    (now t : ℕ) (r : Reading) (g : NetworkGovernor)
    → g.sampled_at ≡ some t
    → ltb now (t + g.config.sample_cache) ≡ true
    → (try_reserve_locked now r g ≡ (g, false))
      ⊎ ((try_reserve_locked now r g ≡ (with_one_more g, true))
          × (fd_headroom g ≢ some 0)
          × (port_headroom g ≢ some 0))
unfolding try_reserve_locked
try_reserve_cases now t r g at soon =
    rw (sample_locked-fresh now t r g at soon) (elim (exhausted_cases (fd_headroom g)) [
      | inl e ↦ inl (rw e refl)
      | inr (e, fd) ↦ elim (exhausted_cases (port_headroom g)) [
        | inl p ↦ inl (rw (e, p) refl)
        | inr (p, port) ↦ inr (rw (e, p) refl, fd, port)
      ]
    ])

module _ (g : NetworkGovernor) (t : ℕ) (at : g.sampled_at ≡ some t) where
  pub step-Charged :
      (c : Call)
      → is_before (t + g.config.sample_cache) c ≡ true
      → Charged g (step g c).0 (step g c).1
  unfolding step try_acquire acquire allow_inbound_connection retry cancel release stop_waiting
  step-Charged (tries now r) soon = elim (try_reserve_cases now t r g at soon) [
    | inl e ↦ rw e (ground arith)
    | inr (e, fd, port) ↦ rw e (ground arith)
  ]
  step-Charged (acquires now r) soon = elim (try_reserve_cases now t r g at soon) [
    | inl e ↦ rw e (ground arith)
    | inr (e, fd, port) ↦ rw e (ground arith)
  ]
  step-Charged (inbounds now r) soon =
      rw (sample_locked-fresh now t r g at soon) (elim (exhausted_cases (fd_headroom g)) [
        | inl e ↦ rw e (ground arith)
        | inr (e, fd) ↦ rw e (ground arith)
      ])
  step-Charged (retries aborted i now r) soon = elim (found (get_elem? g.waiters i)) [
    | nothing e ↦ ground (arith, e)
    | over e ↦ ground (arith, e)
    | live e ↦ elim (try_reserve_cases now t r g at soon) [
      | inl f ↦ elim (Bool-cases aborted) [
        | inl x ↦ ground (arith, e)
        | inr x ↦ ground (arith, e, f)
      ]
      | inr (f, fd, port) ↦ ground (arith, e, f)
    ]
  ]
  step-Charged (cancels i) soon = elim (found (get_elem? g.waiters i)) [
    | nothing e ↦ ground (arith, e)
    | over e ↦ ground (arith, e)
    | live e ↦ ground (arith, e)
  ]
  step-Charged (releases k) soon = elim (found (get_elem? g.leases k)) [
    | nothing e ↦ ground (arith, e)
    | over e ↦ ground (arith, e)
    | live e ↦ ground (arith, e)
  ]
