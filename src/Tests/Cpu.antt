-- ===== src/Tests/Cpu.antt =====
-- Tests of the model of uni_api/admission/cpu.py.
use uni_api.Prelude.{◌≡◌, refl, ◌≢◌, true, false, some, List, [], ◌∷◌, ok}
use uni_api.Prelude.Sums.{set}
use uni_api.Admission.Counter.{count, add, take_off}
use uni_api.Admission.Cpu.{
  underflow, semaphore_unavailable, spans_event_loops, fresh, init, normalized, is_loop,
  semaphore_for_running_loop, acquire, stop_waiting, admit, cancel, complete, give_permit, release,
  finish,
}
use uni_api.Admission.Cpu.Tally.{Tally}
use uni_api.Admission.Cpu.Tokens.{
  Call, acquires, admits, cancels, finishes, step, run, run-init-Tally,
}

program : Unit {0}
unfolding set count add take_off init normalized is_loop semaphore_for_running_loop acquire
    stop_waiting admit cancel complete give_permit release finish step run
program = tt

-- Two callbacks of one phase and one without a name; the second is cancelled.
abbrev callbacks : List Call
callbacks =
    acquires 1 "json"
    ∷ acquires 1 "json"
    ∷ admits 0
    ∷ acquires 1 ""
    ∷ cancels 1
    ∷ finishes 0 false true
    ∷ []

callbacks_end :
    let l = run (fresh 2) callbacks in
    (l.waiters ≡ 1)
    × (count "other" l.waiters_by_phase ≡ 1)
    × (l.failed_total ≡ 1)
    × (l.permits ≡ 2)
    × ((acquire 2 "json" l).1 ≡ some spans_event_loops)
unfolding program
callbacks_end = (refl, refl, refl, refl, refl)

two_tokens : init 2 ≡ ok (fresh 2)
unfolding program
two_tokens = refl

run-init-Tally_example :
    let l = run (fresh 2) callbacks in
    Tally 2 l
    × ((finish 2 false false l).1 ≢ some underflow)
    × ((finish 2 false false l).1 ≢ some semaphore_unavailable)
run-init-Tally_example = run-init-Tally 2 callbacks 2 false false two_tokens
