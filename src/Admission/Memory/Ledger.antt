-- ===== src/Admission/Memory/Ledger.antt =====
-- The ledger of the memory governor: what each category holds is what it was granted and has not given back.
use uni_api.Prelude.{
  ℕ, ◌+◌, ◌≤◌, String, ◌≡◌, refl, ◌⊎◌, inl, inr, Bool, true, false, Option, none, some, List, [],
  ◌∷◌, arith, ltb, leb, ◌==◌, if◌then◌else◌, Bool-cases, get_elem?, ok, err,
}
use uni_api.Admission.Memory.{
  Config, Sample, waiting_for, ended, MemoryGovernor, MemoryError, no_such_waiter, granted,
  timed_out, waits, init, last_sample, refresh_sample_locked, limits_locked, maximum_capacity_bytes,
  normalized, take, reserve_nowait_decision, try_reserve_locked, reserve, stop_waiting, retry,
  cancel, release,
}
use uni_api.Admission.Counter.{
  count, sum, at_key, Normal, count-add, count-take_off, sum-take_off, take_off-Normal,
}
use uni_api.Admission.Memory.Calls.{
  Call, nowaits, reserves, retries, cancels, releases, maxima, Effect, grants, returns, nothing,
  raises, effect_of, step, run, none_here, over_here, waits_here, found,
}
use uni_api.Prelude.Sums.{total-append, le-total}
use uni_api.Admission.Memory.Sound.{
  empty_one, live_one, Sound, refresh-Kept, Sound-Kept, take-Sound, try_reserve_cases,
  stop_waiting-Sound,
}

-- What a call that grants or gives back changes in the ledger.
abbrev pub granted_part : String → Effect → ℕ
granted_part k (grants j n) = at_key j k n
granted_part k _ = 0

abbrev pub returned_part : String → Effect → ℕ
returned_part k (returns j n) = at_key j k n
returned_part k _ = 0

record Posted (g g' : MemoryGovernor) (e : Effect) : Type 0 where
  sound : Sound g'
  balance :
      (k : String) → count k g'.reserved + returned_part k e ≡ count k g.reserved + granted_part k e

no_waiter-Posted : (g : MemoryGovernor) (e : MemoryError) → Sound g → Posted g g (raises e)
no_waiter-Posted g e v = record { sound = v; balance = λ k. refl }

take-balance :
    (name k : String) (size : ℕ) (g : MemoryGovernor)
    → count k (take name size g).reserved ≡ count k g.reserved + at_key name k size
unfolding take
take-balance name k size g = count-add name k size g.reserved

nowait-Posted :
    (category : String) (size now : ℕ) (answer : Option Sample) (g : MemoryGovernor)
    → Sound g
    → Posted g
        (step g (nowaits category size now answer)).0
        (step g (nowaits category size now answer)).1
unfolding step reserve_nowait_decision
nowait-Posted category size now answer g v =
    let name = normalized category in
    let g' = refresh_sample_locked false now answer g in
    let kept = refresh-Kept false now answer g in
    let w = Sound-Kept g g' kept v in
    elim (Bool-cases (leb size (limits_locked (last_sample g') g').available)) [
      | inr full ↦ rw full (record {
        sound = record { normal = w.normal; peak = w.peak; waiting = w.waiting; asking = w.asking };
        balance = λ k. rw kept.reserved refl;
      })
      | inl fits ↦ elim (Bool-cases (size == 0)) [
        | inl zero_size ↦
            rw (fits, zero_size)
              (record { sound = w; balance = λ k. ground (arith, kept.reserved, zero_size) })
        | inr some_size ↦
            rw (fits, some_size)
              (record {
                sound = take-Sound name size g' (ground arith) w;
                balance = λ k. ground (arith, take-balance name k size g', kept.reserved);
              })
      ]
    ]

reserve-Posted :
    (category : String) (size timeout now : ℕ) (answer : Option Sample) (g : MemoryGovernor)
    → Sound g
    → Posted g
        (step g (reserves category size timeout now answer)).0
        (step g (reserves category size timeout now answer)).1
unfolding step reserve effect_of
reserve-Posted category size timeout now answer g v =
    let name = normalized category in
    let g' = refresh_sample_locked false now answer g in
    let kept = refresh-Kept false now answer g in
    let w = Sound-Kept g g' kept v in
    elim (Bool-cases (timeout == 0)) [
      | inl none_given ↦ rw none_given (no_waiter-Posted g _ v)
      | inr given ↦ elim (Bool-cases (size == 0)) [
        | inl zero_size ↦
            rw (given, zero_size) (record { sound = v; balance = λ k. ground (arith, zero_size) })
        | inr some_size ↦ elim (try_reserve_cases name size now answer g) [
          | inl full ↦
              rw (given, some_size, full)
                (record {
                  sound = record {
                    normal = w.normal;
                    peak = w.peak;
                    waiting =
                        ground
                          (arith, w, total-append live_one g'.waiters (waiting_for name size ∷ []));
                    asking =
                        ground (
                          arith,
                          w,
                          total-append empty_one g'.waiters (waiting_for name size ∷ []),
                        );
                  };
                  balance = λ k. rw kept.reserved refl;
                })
          | inr fits ↦
              rw (given, some_size, fits)
                (record {
                  sound = take-Sound name size g' (ground arith) w;
                  balance = λ k. ground (arith, take-balance name k size g', kept.reserved);
                })
        ]
      ]
    ]

no_retry :
    (expired : Bool) (i now : ℕ) (answer : Option Sample) (g : MemoryGovernor)
    → (get_elem? g.waiters i ≡ none) ⊎ (get_elem? g.waiters i ≡ some ended)
    → retry expired i now answer g ≡ (g, err no_such_waiter)
unfolding retry
no_retry expired i now answer g (inl e) = ground (arith, e)
no_retry expired i now answer g (inr e) = ground (arith, e)

retry-waiting :
    (expired : Bool) (i now : ℕ) (answer : Option Sample) (g : MemoryGovernor) (name : String)
    (size : ℕ)
    → get_elem? g.waiters i ≡ some (waiting_for name size)
    → let p = try_reserve_locked false name size now answer g in
      retry expired i now answer g ≡ (
        if expired
        then (stop_waiting i (record g { wait_timeouts = g.wait_timeouts + 1 }), ok timed_out)
        else if p.1
        then (stop_waiting i p.0, ok granted)
        else (p.0, ok waits))
unfolding retry
retry-waiting expired i now answer g name size e = ground (arith, e)

retry-Posted :
    (expired : Bool) (i now : ℕ) (answer : Option Sample) (g : MemoryGovernor)
    → Sound g
    → Posted g (step g (retries expired i now answer)).0 (step g (retries expired i now answer)).1
unfolding step effect_of stop_waiting take
retry-Posted expired i now answer g v = elim (found (get_elem? g.waiters i)) [
  | none_here e ↦ rw (no_retry expired i now answer g (inl e)) (no_waiter-Posted g _ v)
  | over_here e ↦ rw (no_retry expired i now answer g (inr e)) (no_waiter-Posted g _ v)
  | waits_here name size e ↦
      let g' = refresh_sample_locked false now answer g in
      let kept = refresh-Kept false now answer g in
      let w = Sound-Kept g g' kept v in
      let at : get_elem? g'.waiters i ≡ some (waiting_for name size) = rw kept.waiters e in
      let turn = retry-waiting expired i now answer g name size e in
      let positive : 1 ≤ size =
        ground (arith, v.asking, le-total empty_one g.waiters i (waiting_for name size) e) in
      elim (Bool-cases expired) [
        | inl late ↦
            rw (turn, late)
              (record {
                sound =
                    stop_waiting-Sound i name size
                      (record g { wait_timeouts = g.wait_timeouts + 1 }) e
                      (record {
                        normal = v.normal;
                        peak = v.peak;
                        waiting = v.waiting;
                        asking = v.asking;
                      });
                balance = λ k. refl;
              })
        | inr early ↦ elim (try_reserve_cases name size now answer g) [
          | inl full ↦
              rw (turn, early, full) (record { sound = w; balance = λ k. rw kept.reserved refl })
          | inr fits ↦
              rw (turn, early, fits, e)
                (record {
                  sound =
                      stop_waiting-Sound i name size (take name size g') at
                        (take-Sound name size g' positive w);
                  balance = λ k. ground (arith, count-add name k size g'.reserved, kept.reserved);
                })
        ]
      ]
]

release-Posted :
    (category : String) (size : ℕ) (g : MemoryGovernor)
    → Sound g
    → Posted g (step g (releases category size)).0 (step g (releases category size)).1
unfolding step release
release-Posted category size g v =
    let name = normalized category in
    elim (Bool-cases (size == 0)) [
      | inl zero_size ↦
          rw zero_size (record { sound = v; balance = λ k. ground (arith, zero_size) })
      | inr some_size ↦ elim (Bool-cases (ltb (count name g.reserved) size)) [
        | inl less ↦ rw (some_size, less) (no_waiter-Posted g _ v)
        | inr enough ↦
            let held : size ≤ count name g.reserved = ground (arith, enough) in
            rw (some_size, enough)
              (record {
                sound = record {
                  normal = take_off-Normal name size g.reserved held v.normal;
                  peak = omega (arith, v.peak, sum-take_off name size g.reserved held);
                  waiting = v.waiting;
                  asking = v.asking;
                };
                balance = λ k. ground (arith, count-take_off name k size g.reserved held v.normal);
              })
      ]
    ]

cancel-Posted : (i : ℕ) (g : MemoryGovernor) → Sound g → Posted g (step g (cancels i)).0 nothing
unfolding step cancel stop_waiting
cancel-Posted i g v = elim (found (get_elem? g.waiters i)) [
  | none_here e ↦ rw (e, cancel) (record { sound = v; balance = λ k. refl })
  | over_here e ↦ rw (e, cancel) (record { sound = v; balance = λ k. refl })
  | waits_here name size e ↦
      rw (e, cancel) (record { sound = stop_waiting-Sound i name size g e v; balance = λ k. refl })
]

step-Posted : (g : MemoryGovernor) (c : Call) → Sound g → Posted g (step g c).0 (step g c).1
unfolding step maximum_capacity_bytes
step-Posted g (nowaits category size now answer) v = nowait-Posted category size now answer g v
step-Posted g (reserves category size timeout now answer) v =
    reserve-Posted category size timeout now answer g v
step-Posted g (retries expired i now answer) v = retry-Posted expired i now answer g v
step-Posted g (cancels i) v = cancel-Posted i g v
step-Posted g (releases category size) v = release-Posted category size g v
step-Posted g (maxima now answer) v =
    let kept = refresh-Kept true now answer g in
    record {
      sound = Sound-Kept g (refresh_sample_locked true now answer g) kept v;
      balance = λ k. rw kept.reserved refl;
    }

-- What a run grants to a category or takes back from it.
unfoldable pub posted : (Effect → ℕ) → MemoryGovernor → List Call → ℕ
posted part g [] = 0
posted part g (c ∷ cs) = part (step g c).1 + posted part (step g c).0 cs

run-Posted :
    (k : String) (g : MemoryGovernor) (cs : List Call)
    → Sound g
    → Sound (run g cs)
      × (count k (run g cs).reserved + posted (returned_part k) g cs
          ≡ count k g.reserved + posted (granted_part k) g cs)
unfolding run posted
run-Posted k g [] v = (v, refl)
run-Posted k g (c ∷ cs) v =
    let p = step-Posted g c v in
    let (sound, balance) = run-Posted k (step g c).0 cs p.sound in
    (sound, omega (arith, balance, p.balance k))

init-Sound : (config : Config) → Sound (init config)
unfolding init Normal sum
init-Sound config = record { normal = tt; peak = omega arith; waiting = refl; asking = refl }

-- In any interleaving of reservations at once, reservations that wait, their turns, time-outs and
-- cancellations, releases and samples on a new governor: for each category, the bytes reserved and those
-- given back are together those granted; each category with bytes has one entry, and none is 0; the
-- peak is at least what is reserved; and the waiting reservations are the waiters that have not ended.
pub run-init-balance :
    (config : Config) (cs : List Call) (category : String)
    → let g = run (init config) cs in
      Sound g
      × (count category g.reserved + posted (returned_part category) (init config) cs
          ≡ posted (granted_part category) (init config) cs)
unfolding init count
run-init-balance config cs category =
    let (sound, balance) = run-Posted category (init config) cs (init-Sound config) in
    (sound, omega (arith, balance))
