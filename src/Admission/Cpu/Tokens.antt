-- ===== src/Admission/Cpu/Tokens.antt =====
-- Each token of the limiter is given back by the task that holds it.
use uni_api.Prelude.{
  ℕ, ◌+◌, ◌≤◌, String, ◌≡◌, ◌≢◌, inl, inr, Bool, false, Option, none, some, List, [], ◌∷◌, arith,
  ◌==◌, Option-cases, get_elem?, str_eq_refl, ok,
}
use uni_api.Prelude.Sums.{set}
use uni_api.Prelude.Sums.{total-set, le-total}
use uni_api.Admission.Counter.{count, count-take_off, take_off-Normal}
use uni_api.Admission.Cpu.{
  holding_in, over, CpuPhaseLimiter, CpuError, underflow, semaphore_unavailable, init, normalized,
  acquire, admit, cancel, release, complete, give_permit, finish,
}
use uni_api.Admission.Cpu.Tally.{
  waits_in, holds_in, waits, holds, odd_name, Tally, nothing, ended, waiting, holding, found,
  init-Tally, normalized_same, acquire-Tally, admit-Tally, cancel-Tally,
}

-- The task's own token is there, and so is the semaphore.
finish-Tally :
    (c i : ℕ) (was_cancelled failed : Bool) (l : CpuPhaseLimiter)
    → Tally c l
    → Tally c (finish i was_cancelled failed l).0
      × ((finish i was_cancelled failed l).1 ≢ some underflow)
      × ((finish i was_cancelled failed l).1 ≢ some semaphore_unavailable)
unfolding finish release complete give_permit
finish-Tally c i was_cancelled failed l v = elim (found (get_elem? l.phases i)) [
  | nothing e ↦ rw (e, finish) (v, λ h. cc, λ h. cc)
  | ended e ↦ rw (e, finish) (v, λ h. cc, λ h. cc)
  | waiting name e ↦ rw (e, finish) (v, λ h. cc, λ h. cc)
  | holding name e ↦
      let named : normalized name ≡ name =
        normalized_same name
          (ground (arith, v.names, le-total odd_name l.phases i (holding_in name) e)) in
      let one : 1 ≤ count name l.active_by_phase = ground (
        arith,
        v.active_in name,
        le-total (holds_in name) l.phases i (holding_in name) e,
        str_eq_refl name,
      ) in
      let active : (l.active == 0) ≡ false =
        ground (arith, v.active, le-total holds l.phases i (holding_in name) e) in
      let counted : (count name l.active_by_phase == 0) ≡ false = ground (arith, one) in
      let done = complete name was_cancelled failed (record l { phases = set i over l.phases }) in
      elim (Option-cases l.loop) [
        | inl gone ↦ absurd (ground (arith, v.in_loop gone, active))
        | inr (loop, looped) ↦
            let sound : Tally c (record done { permits = l.permits + 1 }) = record {
              active =
                  ground (arith, v.active, total-set holds l.phases i over (holding_in name) e);
              capacity = v.capacity;
              permits = λ h. ground (arith, v.permits (λ g. absurd (cc (g, looped))), active);
              waiters =
                  ground (arith, v.waiters, total-set waits l.phases i over (holding_in name) e);
              acquired = ground (arith, v.acquired, active);
              active_in = λ k. ground (
                arith,
                v.active_in k,
                count-take_off name k 1 l.active_by_phase one v.active_normal,
                total-set (holds_in k) l.phases i over (holding_in name) e,
              );
              waiters_in = λ k. ground (
                arith,
                v.waiters_in k,
                total-set (waits_in k) l.phases i over (holding_in name) e,
              );
              active_normal = take_off-Normal name 1 l.active_by_phase one v.active_normal;
              waiters_normal = v.waiters_normal;
              names =
                  ground (arith, v.names, total-set odd_name l.phases i over (holding_in name) e);
              in_loop = λ h. ground (arith, v.in_loop h);
            } in
            let ended_so : finish i was_cancelled failed l
                ≡ (record done { permits = l.permits + 1 }, none) =
              ground (arith, e, named, active, counted, looped) in
            rw ended_so (sound, λ h. cc, λ h. cc)
      ]
]

-- A call of `run_cpu_phase`, or what happens to its task.
pub data Call : Type 0 where
  acquires : ℕ → String → Call
  admits cancels : ℕ → Call
  finishes : ℕ → Bool → Bool → Call

unfoldable pub step : CpuPhaseLimiter → Call → CpuPhaseLimiter × Option CpuError
step l (acquires running phase) = acquire running phase l
step l (admits i) = admit i l
step l (cancels i) = cancel i l
step l (finishes i was_cancelled failed) = finish i was_cancelled failed l

unfoldable pub run : CpuPhaseLimiter → List Call → CpuPhaseLimiter
run l [] = l
run l (c ∷ cs) = run (step l c).0 cs

step-Tally : (n : ℕ) (l : CpuPhaseLimiter) (c : Call) → Tally n l → Tally n (step l c).0
unfolding step
step-Tally n l (acquires running phase) v = acquire-Tally n running phase l v
step-Tally n l (admits i) v = admit-Tally n i l v
step-Tally n l (cancels i) v = cancel-Tally n i l v
step-Tally n l (finishes i was_cancelled failed) v = (finish-Tally n i was_cancelled failed l v).0

run-Tally : (n : ℕ) (l : CpuPhaseLimiter) (cs : List Call) → Tally n l → Tally n (run l cs)
unfolding run
run-Tally n l [] v = v
run-Tally n l (c ∷ cs) v = run-Tally n (step l c).0 cs (step-Tally n l c v)

-- In any order of submissions from any event loops, admissions by the semaphore, cancellations and
-- ends of callbacks on a new limiter: the active and the waiting callbacks are counted, for all and for each
-- phase; what was acquired is what is completed or active; once there is a semaphore, its permits and the
-- active callbacks add up to the capacity; and a callback that ends does so without an underflow or a missing semaphore.
pub run-init-Tally :
    (capacity : ℕ) (cs : List Call) (i : ℕ) (was_cancelled failed : Bool) {l : CpuPhaseLimiter}
    → init capacity ≡ ok l
    → Tally capacity (run l cs)
      × ((finish i was_cancelled failed (run l cs)).1 ≢ some underflow)
      × ((finish i was_cancelled failed (run l cs)).1 ≢ some semaphore_unavailable)
run-init-Tally capacity cs i was_cancelled failed {l} new =
    let v = run-Tally capacity l cs (init-Tally capacity new) in
    let (after, no_underflow, available) =
      finish-Tally capacity i was_cancelled failed (run l cs) v in
    (v, no_underflow, available)
