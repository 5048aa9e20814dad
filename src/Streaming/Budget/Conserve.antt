-- ===== src/Streaming/Budget/Conserve.antt =====
-- The bytes of a budget: what is used is what the open leases own and the asking tasks hold.
use uni_api.Prelude.{
  ℕ, ◌+◌, ◌-◌, ◌≤◌, ◌≡◌, refl, ◌≢◌, inl, inr, Bool, true, false, Option, none, some, List, [], ◌∷◌,
  ◌++◌, arith, if◌then◌else◌, Bool-cases, Option-cases, length, get_elem?, get_elem?-append_last,
  ok,
}
use uni_api.Prelude.Sums.{set}
use uni_api.Streaming.Budget.{
  Lease, Task, waiting_for_room, asking_parent, ended, Budget, BudgetError, underflow, init,
  take_bytes, new_lease, after_local, reserve, wake, parent_answers, interrupt, release, split,
}
use uni_api.Prelude.Sums.{get_elem?-set, total, total-append, total-set, le-total}

abbrev pub owned : Lease → ℕ
owned lease = if lease.released then 0 else lease.size

abbrev pub held : Task → ℕ
held (asking_parent size) = size
held _ = 0

abbrev pub waits : Task → ℕ
waits (waiting_for_room size) = 1
waits _ = 0

abbrev pub asks : Task → ℕ
asks (asking_parent size) = 1
asks _ = 0

pub record Conserved (b : Budget) : Type 0 where
  pub used : b.used_bytes ≡ total owned b.leases + total held b.tasks
  pub fits : b.used_bytes ≤ b.capacity_bytes
  pub peak_above : b.used_bytes ≤ b.peak_bytes
  pub peak_fits : b.peak_bytes ≤ b.capacity_bytes
  pub waiting : b.waiting_reservations ≡ total waits b.tasks
  pub parent : b.parent_used ≡ (if b.has_governor then total owned b.leases else 0)
  pub no_asking : b.has_governor ≡ false → total asks b.tasks ≡ 0

data Found (o : Option Task) : Type 0 where
  nothing : o ≡ none → Found o
  over : o ≡ some ended → Found o
  waiting : (size : ℕ) → o ≡ some (waiting_for_room size) → Found o
  asking : (size : ℕ) → o ≡ some (asking_parent size) → Found o

found : (o : Option Task) → Found o
found none = nothing refl
found (some ended) = over refl
found (some (waiting_for_room size)) = waiting size refl
found (some (asking_parent size)) = asking size refl

-- A task that ends: what it held and waited for is gone from the sums.
ended-total :
    (f : Task → ℕ) (b : Budget) (i : ℕ) (t : Task)
    → get_elem? b.tasks i ≡ some t
    → total f (set i ended b.tasks) + f t ≡ total f b.tasks + f ended
ended-total f b i t at = total-set f b.tasks i ended t at

init-Conserved :
    (capacity : ℕ) (has_governor : Bool) {b : Budget}
    → init capacity has_governor ≡ ok b
    → Conserved b
unfolding init
init-Conserved capacity has_governor h = ground arith

-- A task that gets its bytes: `waits` counts it still, the counter no more.
after_local-Conserved :
    (i size : ℕ) (b : Budget)
    → get_elem? b.tasks i ≡ some (waiting_for_room size)
    → b.used_bytes + size ≤ b.capacity_bytes
    → Conserved (record b { waiting_reservations = b.waiting_reservations + 1 })
    → Conserved (after_local i size b)
unfolding after_local take_bytes
after_local-Conserved i size b at room v = ground (
  arith,
  v,
  total-append owned b.leases (new_lease size ∷ []),
  total-set held b.tasks i (asking_parent size) (waiting_for_room size) at,
  total-set waits b.tasks i (asking_parent size) (waiting_for_room size) at,
  total-set held b.tasks i ended (waiting_for_room size) at,
  total-set asks b.tasks i ended (waiting_for_room size) at,
  total-set waits b.tasks i ended (waiting_for_room size) at,
)

reserve-Conserved : (size : ℕ) (b : Budget) → Conserved b → Conserved (reserve size b).0
unfolding reserve
reserve-Conserved size b v =
    let started = record b { tasks = b.tasks ++ waiting_for_room size ∷ [] } in
    ground (
      arith,
      total-append held b.tasks (waiting_for_room size ∷ []),
      total-append waits b.tasks (waiting_for_room size ∷ []),
      total-append asks b.tasks (waiting_for_room size ∷ []),
      after_local-Conserved (length b.tasks) size started
          (get_elem?-append_last b.tasks (waiting_for_room size)),
    )

wake-Conserved : (i : ℕ) (b : Budget) → Conserved b → Conserved (wake i b)
unfolding wake
wake-Conserved i b v = elim (found (get_elem? b.tasks i)) [
  | nothing e ↦ ground (arith, e)
  | over e ↦ ground (arith, e)
  | asking size e ↦ ground (arith, e)
  | waiting size e ↦
      let woken = record b { waiting_reservations = b.waiting_reservations - 1 } in
      ground (
        arith,
        e,
        after_local-Conserved i size woken e,
        le-total waits b.tasks i (waiting_for_room size) e,
      )
]

parent_answers-Conserved :
    (reserved : Bool) (i : ℕ) (b : Budget)
    → Conserved b
    → Conserved (parent_answers reserved i b).0 × ((parent_answers reserved i b).1 ≢ some underflow)
unfolding parent_answers
parent_answers-Conserved reserved i b v = elim (found (get_elem? b.tasks i)) [
  | nothing e ↦ ground (arith, e)
  | over e ↦ ground (arith, e)
  | waiting size e ↦ ground (arith, e)
  | asking size e ↦ ground (
    arith,
    e,
    le-total held b.tasks i (asking_parent size) e,
    le-total asks b.tasks i (asking_parent size) e,
    ended-total held b i (asking_parent size) e,
    ended-total waits b i (asking_parent size) e,
    ended-total asks b i (asking_parent size) e,
    total-append owned b.leases (new_lease size ∷ []),
  )
]

interrupt-Conserved :
    (timed_out : Bool) (i : ℕ) (b : Budget)
    → Conserved b
    → Conserved (interrupt timed_out i b).0 × ((interrupt timed_out i b).1 ≢ some underflow)
unfolding interrupt
interrupt-Conserved timed_out i b v = elim (found (get_elem? b.tasks i)) [
  | nothing e ↦ ground (arith, e)
  | over e ↦ ground (arith, e)
  | waiting size e ↦ ground (
    arith,
    e,
    le-total waits b.tasks i (waiting_for_room size) e,
    ended-total held b i (waiting_for_room size) e,
    ended-total waits b i (waiting_for_room size) e,
    ended-total asks b i (waiting_for_room size) e,
  )
  | asking size e ↦ ground (
    arith,
    e,
    le-total held b.tasks i (asking_parent size) e,
    ended-total held b i (asking_parent size) e,
    ended-total waits b i (asking_parent size) e,
    ended-total asks b i (asking_parent size) e,
  )
]

release-Conserved :
    (k : ℕ) (b : Budget)
    → Conserved b
    → Conserved (release k b).0 × ((release k b).1 ≢ some underflow)
unfolding release
release-Conserved k b v = elim (Option-cases (get_elem? b.leases k)) [
  | inl e ↦ ground (arith, e)
  | inr (lease, e) ↦ ground (
    arith,
    e,
    total-set owned b.leases k (record lease { released = true }) lease e,
    le-total owned b.leases k lease e,
  )
]

split-Conserved : (k size : ℕ) (b : Budget) → Conserved b → Conserved (split k size b).0
unfolding split
split-Conserved k size b v = elim (Option-cases (get_elem? b.leases k)) [
  | inl e ↦ ground (arith, e)
  | inr (lease, e) ↦
      let less = record lease { size = lease.size - size } in
      ground (
        arith,
        e,
        total-set owned b.leases k less lease e,
        total-append owned (set k less b.leases) (new_lease size ∷ []),
      )
]

-- A call of the budget or a turn of one of its tasks.
pub data Call : Type 0 where
  reserves wakes releases : ℕ → Call
  answers interrupts : Bool → ℕ → Call
  splits : ℕ → ℕ → Call

unfoldable pub step : Budget → Call → Budget × Option BudgetError
step b (reserves size) = reserve size b
step b (wakes i) = (wake i b, none)
step b (releases k) = release k b
step b (answers reserved i) = parent_answers reserved i b
step b (interrupts timed_out i) = interrupt timed_out i b
step b (splits k size) = split k size b

unfoldable pub run : Budget → List Call → Budget
run b [] = b
run b (c ∷ cs) = run (step b c).0 cs

step-underflow : (b : Budget) (c : Call) → Conserved b → (step b c).1 ≢ some underflow
unfolding step reserve split
step-underflow b (reserves size) v = ground arith
step-underflow b (wakes i) v = ground arith
step-underflow b (releases k) v = (release-Conserved k b v).1
step-underflow b (answers reserved i) v = (parent_answers-Conserved reserved i b v).1
step-underflow b (interrupts timed_out i) v = (interrupt-Conserved timed_out i b v).1
step-underflow b (splits k size) v = ground arith

step-Conserved : (b : Budget) (c : Call) → Conserved b → Conserved (step b c).0
unfolding step
step-Conserved b (reserves size) v = reserve-Conserved size b v
step-Conserved b (wakes i) v = wake-Conserved i b v
step-Conserved b (releases k) v = (release-Conserved k b v).0
step-Conserved b (answers reserved i) v = (parent_answers-Conserved reserved i b v).0
step-Conserved b (interrupts timed_out i) v = (interrupt-Conserved timed_out i b v).0
step-Conserved b (splits k size) v = split-Conserved k size b v

run-Conserved : (b : Budget) (cs : List Call) → Conserved b → Conserved (run b cs)
unfolding run
run-Conserved b [] v = v
run-Conserved b (c ∷ cs) v = run-Conserved (step b c).0 cs (step-Conserved b c v)

-- In any interleaving of reservations, wake-ups, answers of the governor, time-outs, cancellations,
-- releases and splits on a new budget: the bytes in use are what the open leases own and the asking
-- tasks hold, and stay within the capacity, as does their peak; the governor holds what the open
-- leases own, or nothing where there is none; the counter of waiters counts them; no task asks where
-- there is no governor; and no next call finds that more is given back than is in use.
pub run-init-Conserved :
    (capacity : ℕ) (has_governor : Bool) (cs : List Call) (c : Call) {b : Budget}
    → init capacity has_governor ≡ ok b
    → Conserved (run b cs) × ((step (run b cs) c).1 ≢ some underflow)
run-init-Conserved capacity has_governor cs c {b} new =
    let v = run-Conserved b cs (init-Conserved capacity has_governor new) in
    (v, step-underflow (run b cs) c v)

release-released :
    (k : ℕ) (b : Budget) (lease : Lease)
    → get_elem? b.leases k ≡ some lease
    → lease.released ≡ true
    → release k b ≡ (b, none)
unfolding release
release-released k b lease e done = ground arith

-- A release that raises nothing may be repeated: the second one changes nothing and raises nothing.
pub release_twice :
    (k : ℕ) (b : Budget)
    → (release k b).1 ≡ none
    → release k (release k b).0 ≡ ((release k b).0, none)
unfolding release
release_twice k b h = elim (Option-cases (get_elem? b.leases k)) [
  | inl e ↦ absurd (ground arith)
  | inr (lease, e) ↦ elim (Bool-cases lease.released) [
    | inl done ↦ ground (arith, release-released k b lease e done)
    | inr fresh ↦
        ground (arith, e, get_elem?-set b.leases k (record lease { released = true }) lease e)
  ]
]
