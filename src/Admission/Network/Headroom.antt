-- ===== src/Admission/Network/Headroom.antt =====
-- The headroom of the governor between two samples.
use uni_api.Prelude.{
  ℕ, zero, suc, ◌+◌, ◌-◌, ◌≤◌, ◌≡◌, ◌∙◌, ◌≢◌, true, Option, some, List, [], ◌∷◌, arith,
}
use uni_api.Admission.Network.{NetworkGovernor, fd_headroom, port_headroom}
use uni_api.Admission.Network.Calls.{
  Call, Outcome, opened, accepted, refused, finished, raised, step, run, attempts, sockets, given,
  is_before, all_before,
}
use uni_api.Admission.Network.Charges.{
  Charged, fd_headroom-charge, port_headroom-charge, step-Charged,
}

all_before_parts :
    (t : ℕ) (c : Call) (cs : List Call)
    → all_before t (c ∷ cs) ≡ true
    → (is_before t c ≡ true) × (all_before t cs ≡ true)
unfolding all_before
all_before_parts t c cs h = ground arith

room_for : (o : Option ℕ) (h n : ℕ) → o ≡ some h → n ≤ 1 → (n ≡ 1 → o ≢ some 0) → n ≤ h
room_for o h zero e small room = omega arith
room_for o zero (suc n) e small room = absurd (room (omega arith) e)
room_for o (suc h) (suc n) e small room = omega arith

sockets_le : (o : Outcome) → sockets o ≤ 1
sockets_le opened = omega arith
sockets_le accepted = omega arith
sockets_le refused = omega arith
sockets_le finished = omega arith
sockets_le (raised e) = omega arith

attempts_le : (o : Outcome) → attempts o ≤ 1
attempts_le opened = omega arith
attempts_le accepted = omega arith
attempts_le refused = omega arith
attempts_le finished = omega arith
attempts_le (raised e) = omega arith

-- A headroom that each call before the next sample pays from.
module _ (headroom : NetworkGovernor → Option ℕ) (count : Outcome → ℕ)
    (pays : (g g' : NetworkGovernor) (o : Outcome) (h : ℕ)
      → Charged g g' o
      → headroom g ≡ some h
      → (headroom g' ≡ some (h - count o)) × (count o ≤ h)) where
  headroom-run :
      (g : NetworkGovernor) (t : ℕ) (cs : List Call) (h : ℕ)
      → g.sampled_at ≡ some t
      → all_before (t + g.config.sample_cache) cs ≡ true
      → headroom g ≡ some h
      → (headroom (run g cs) ≡ some (h - given count g cs)) × (given count g cs ≤ h)
  unfolding run given
  headroom-run g t [] h at soon known = (ground (arith, known), omega arith)
  headroom-run g t (c ∷ cs) h at soon known =
      let (first, rest) = all_before_parts (t + g.config.sample_cache) c cs soon in
      let s = step g c in
      let v = step-Charged g t at c first in
      let (known', fits) = pays g s.0 s.1 h v known in
      let soon' : all_before (t + s.0.config.sample_cache) cs ≡ true = rw v.config rest in
      let (after, within) = headroom-run s.0 t cs (h - count s.1) (v.sampled ∙ at) soon' known' in
      ground (arith, after, within, fits)

-- Between two samples, under any calls of the governor and turns of its waiters, a known headroom for
-- descriptors falls by one with each reservation and each inbound socket that is let in, whatever is
-- released or cancelled meanwhile, and no more of them are given than it allows.
pub fd_headroom-run :
    (g : NetworkGovernor) (t : ℕ) (cs : List Call) (h : ℕ)
    → g.sampled_at ≡ some t
    → all_before (t + g.config.sample_cache) cs ≡ true
    → fd_headroom g ≡ some h
    → (fd_headroom (run g cs) ≡ some (h - given sockets g cs)) × (given sockets g cs ≤ h)
fd_headroom-run = headroom-run fd_headroom sockets (λ g g' o h v known. (
  fd_headroom-charge g g' (sockets o) v.config v.limit v.fds v.fd_charge h known,
  room_for (fd_headroom g) h (sockets o) known (sockets_le o) v.fd_room,
))

-- Between two samples, under any calls of the governor and turns of its waiters, a known headroom for
-- ports falls by one with each reservation, whatever is released or cancelled meanwhile, and no more
-- reservations are given than it allows. Inbound sockets do not count.
pub port_headroom-run :
    (g : NetworkGovernor) (t : ℕ) (cs : List Call) (h : ℕ)
    → g.sampled_at ≡ some t
    → all_before (t + g.config.sample_cache) cs ≡ true
    → port_headroom g ≡ some h
    → (port_headroom (run g cs) ≡ some (h - given attempts g cs)) × (given attempts g cs ≤ h)
port_headroom-run = headroom-run port_headroom attempts (λ g g' o h v known. (
  port_headroom-charge g g' (attempts o) v.config v.ports v.occupancy v.port_charge h known,
  room_for (port_headroom g) h (attempts o) known (attempts_le o) v.port_room,
))
