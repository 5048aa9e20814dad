-- ===== src/Tests/Admission.antt =====
-- Tests of the model of uni_api/admission/network.py.
use uni_api.Prelude.{◌+◌, ◌-◌, ◌*◌, ◌/◌, ◌≤◌, ◌≡◌, refl, ◌≢◌, true, false, some, List, [], ◌∷◌}
use uni_api.Prelude.Sums.{set}
use uni_api.Admission.Network.{
  Config, Reading, NetworkGovernor, underflow, init, is_fresh, read_kernel, sample_locked,
  fd_reserve, fd_headroom, port_headroom, try_reserve_locked, try_acquire, acquire, stop_waiting,
  retry, cancel, release, allow_inbound_connection,
}
use uni_api.Admission.Network.Calls.{
  Call, tries, acquires, inbounds, retries, releases, step, run, given, attempts, sockets,
  all_before,
}
use uni_api.Admission.Network.Headroom.{fd_headroom-run, port_headroom-run}
use uni_api.Admission.Network.Leases.{Tallied, run-init-Tallied}

program : Unit {0}
unfolding init is_fresh read_kernel sample_locked fd_reserve fd_headroom port_headroom
    try_reserve_locked try_acquire acquire stop_waiting retry cancel release
    allow_inbound_connection step run given all_before set
program = tt

abbrev config : Config
config = record {
  fd_reserve_min = 8;
  fd_share = λ limit. limit / 20;
  usable = λ ports. ports * 4 / 5;
  sample_cache = 50;
}

abbrev reading : Reading
reading = record {
  nofile = some (some 20);
  open_fds = some (some 10);
  ports = some (some 100);
  occupancy = some (some 77);
}

-- Sampled at 1000: two descriptors are free beside the reserve of eight, and three ports.
abbrev sampled : NetworkGovernor
sampled = sample_locked 1000 false reading (init config)

-- The second reservation uses up the descriptors: the third call waits, and waits on after a release.
abbrev traffic : List Call
traffic =
    tries 1010 reading
    ∷ inbounds 1020 reading
    ∷ acquires 1030 reading
    ∷ releases 0
    ∷ retries false 0 1040 reading
    ∷ []

traffic_waits :
    (given sockets sampled traffic ≡ 2)
    × ((run sampled traffic).waiting_attempts ≡ 1)
    × ((run sampled (tries 1010 reading ∷ releases 0 ∷ tries 1050 reading ∷ [])).pending_attempts
        ≡ 1)
unfolding program
traffic_waits = (refl, refl, refl)

sampled_at : sampled.sampled_at ≡ some 1000
unfolding program
sampled_at = refl

soon : all_before (1000 + sampled.config.sample_cache) traffic ≡ true
unfolding program
soon = refl

fd_room : fd_headroom sampled ≡ some 2
unfolding program
fd_room = refl

port_room : port_headroom sampled ≡ some 3
unfolding program
port_room = refl

fd_headroom-run_example :
    (fd_headroom (run sampled traffic) ≡ some (2 - given sockets sampled traffic))
    × (given sockets sampled traffic ≤ 2)
fd_headroom-run_example = fd_headroom-run sampled 1000 traffic 2 sampled_at soon fd_room

port_headroom-run_example :
    (port_headroom (run sampled traffic) ≡ some (3 - given attempts sampled traffic))
    × (given attempts sampled traffic ≤ 3)
port_headroom-run_example = port_headroom-run sampled 1000 traffic 3 sampled_at soon port_room

run-init-Tallied_example :
    let g = run (init config) traffic in Tallied g × ((release 0 g).1 ≢ some underflow)
run-init-Tallied_example = run-init-Tallied config traffic 0
