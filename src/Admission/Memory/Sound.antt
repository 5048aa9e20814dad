-- ===== src/Admission/Memory/Sound.antt =====
-- What holds of the records of the memory governor, and what its parts keep of it.
use uni_api.Prelude.{
  ℕ, ◌≤◌, String, ◌≡◌, refl, ◌⊎◌, inl, inr, Bool, true, false, Option, some, arith, ltb, ◌==◌,
  if◌then◌else◌, Bool-cases, get_elem?,
}
use uni_api.Admission.Memory.{
  Sample, Waiter, waiting_for, ended, MemoryGovernor, last_sample, refresh_sample_locked,
  limits_locked, take, try_reserve_locked, stop_waiting,
}
use uni_api.Admission.Counter.{sum, Normal, sum-add, add-Normal}
use uni_api.Prelude.Sums.{total, total-set}

abbrev pub live_one : Waiter → ℕ
live_one (waiting_for name size) = 1
live_one ended = 0

-- A waiter that asks for nothing, which never waits.
abbrev pub empty_one : Waiter → ℕ
empty_one (waiting_for name size) = if size == 0 then 1 else 0
empty_one ended = 0

pub record Sound (g : MemoryGovernor) : Type 0 where
  pub normal : Normal g.reserved
  pub peak : sum g.reserved ≤ g.peak_reserved_bytes
  pub waiting : g.waiting_reservations ≡ total live_one g.waiters
  pub asking : total empty_one g.waiters ≡ 0

pub record Kept (g g' : MemoryGovernor) : Type 0 where
  pub reserved : g'.reserved ≡ g.reserved
  pub peak : g'.peak_reserved_bytes ≡ g.peak_reserved_bytes
  pub waiting : g'.waiting_reservations ≡ g.waiting_reservations
  pub waiters : g'.waiters ≡ g.waiters

pub refresh-Kept :
    (force : Bool) (now : ℕ) (answer : Option Sample) (g : MemoryGovernor)
    → Kept g (refresh_sample_locked force now answer g)
unfolding refresh_sample_locked
refresh-Kept force now answer g = ground arith

pub Sound-Kept : (g g' : MemoryGovernor) → Kept g g' → Sound g → Sound g'
Sound-Kept g g' k v = record {
  normal = rw k.reserved v.normal;
  peak = rw (k.reserved, k.peak) v.peak;
  waiting = rw (k.waiting, k.waiters) v.waiting;
  asking = rw k.waiters v.asking;
}

pub take-Sound :
    (name : String) (size : ℕ) (g : MemoryGovernor) → 1 ≤ size → Sound g → Sound (take name size g)
unfolding take
take-Sound name size g h v = record {
  normal = add-Normal name size g.reserved h v.normal;
  peak = ground (arith, sum-add name size g.reserved);
  waiting = v.waiting;
  asking = v.asking;
}

pub try_reserve_cases :
    (name : String) (size now : ℕ) (answer : Option Sample) (g : MemoryGovernor)
    → let g' = refresh_sample_locked false now answer g in
      (try_reserve_locked false name size now answer g ≡ (g', false))
      ⊎ (try_reserve_locked false name size now answer g ≡ (take name size g', true))
unfolding try_reserve_locked
try_reserve_cases name size now answer g =
    let g' = refresh_sample_locked false now answer g in
    elim (Bool-cases (ltb (limits_locked (last_sample g') g').available size)) [
      | inl e ↦ inl (rw e refl)
      | inr e ↦ inr (rw e refl)
    ]

pub stop_waiting-Sound :
    (i : ℕ) (name : String) (size : ℕ) (g : MemoryGovernor)
    → get_elem? g.waiters i ≡ some (waiting_for name size)
    → Sound g
    → Sound (stop_waiting i g)
unfolding stop_waiting
stop_waiting-Sound i name size g at v = record {
  normal = v.normal;
  peak = v.peak;
  waiting = ground (arith, v, total-set live_one g.waiters i ended (waiting_for name size) at);
  asking = ground (arith, v, total-set empty_one g.waiters i ended (waiting_for name size) at);
}
