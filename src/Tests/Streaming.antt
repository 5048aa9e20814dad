-- ===== src/Tests/Streaming.antt =====
-- Tests of the model of uni_api/streaming/bounded_queue.py.
use uni_api.Prelude.{ℕ, ◌+◌, ◌≡◌, refl, ◌≢◌, true, false, none, some, List, [], ◌∷◌, ◌++◌, ok}
use uni_api.Prelude.Sums.{set}
use uni_api.Streaming.Budget.{
  Budget, underflow, cancelled, take_bytes, after_local, reserve, wake, parent_answers, interrupt,
  split,
}
use uni_api.Streaming.Budget
use uni_api.Streaming.Budget.Conserve.{
  Call, reserves, wakes, releases, answers, interrupts, splits, Conserved, run-init-Conserved,
  release_twice,
}
use uni_api.Streaming.Budget.Conserve
use uni_api.Streaming.Queue.{
  Entry, Queue, can_put, give_back, check_put, append_entry, put, leave, get_lease, discard_items,
  close, raised,
}
use uni_api.Streaming.Queue
use uni_api.Streaming.Queue.Bounds.{puts, gets, closes, Counted, run-init-Counted}
use uni_api.Streaming.Queue.Bounds
use uni_api.Streaming.Queue.Order.{log, accepted_in, delivered_in, discarded_in, run-Order}
use uni_api.Streaming.Queue.Owners.{everywhere, brought_in, run-everywhere}

budget_program : Unit {0}
unfolding set take_bytes after_local reserve wake parent_answers interrupt split Budget.init
    Budget.release Conserve.step Conserve.run
budget_program = tt

-- A budget of ten bytes, without a governor.
abbrev budget : Budget
budget = record {
  capacity_bytes = 10;
  has_governor = false;
  used_bytes = 0;
  peak_bytes = 0;
  waiting_reservations = 0;
  blocked_reservations = 0;
  timeouts = 0;
  parent_used = 0;
  tasks = [];
  leases = [];
}

-- Four bytes, then eight that wait, a split and both releases, and the wait ends.
abbrev traffic : List Call
traffic = reserves 4 ∷ reserves 8 ∷ wakes 1 ∷ splits 0 1 ∷ releases 0 ∷ wakes 1 ∷ []

traffic_waits : (Conserve.run budget traffic).used_bytes ≡ 9
unfolding budget_program
traffic_waits = refl

traffic_ends : (Conserve.run budget (releases 1 ∷ wakes 1 ∷ [])).used_bytes ≡ 0
unfolding budget_program
traffic_ends = refl

new_budget : Budget.init 10 false ≡ ok budget
unfolding budget_program
new_budget = refl

run-init-Conserved_example :
    Conserved (Conserve.run budget traffic)
    × ((Conserve.step (Conserve.run budget traffic) (releases 1)).1 ≢ some underflow)
run-init-Conserved_example = run-init-Conserved 10 false traffic (releases 1) new_budget

one_reserved : (Budget.release 0 (Conserve.run budget (reserves 4 ∷ []))).1 ≡ none
unfolding budget_program
one_reserved = refl

release_twice_example :
    let b = Conserve.run budget (reserves 4 ∷ []) in
    Budget.release 0 (Budget.release 0 b).0 ≡ ((Budget.release 0 b).0, none)
release_twice_example = release_twice 0 (Conserve.run budget (reserves 4 ∷ [])) one_reserved

queue_program : Unit {0}
unfolding set can_put give_back check_put append_entry put leave get_lease discard_items close
    Queue.init Queue.wake Queue.interrupt Queue.release Bounds.step Bounds.run log brought_in
queue_program = tt

-- A queue of two items and ten bytes, of a shared budget.
abbrev queue : Queue ℕ
queue = record {
  max_items = 2;
  max_bytes = 10;
  has_budget = true;
  items = [];
  bytes = 0;
  inflight_items = 0;
  inflight_bytes = 0;
  peak_items = 0;
  peak_bytes = 0;
  closed = false;
  close_error = none;
  waiting_putters = 0;
  blocked_puts = 0;
  put_timeouts = 0;
  putters = [];
  leases = [];
  given_back = [];
}

abbrev entry : ℕ → ℕ → Entry ℕ
entry item size = record { item = item; size = size; budget_lease = some item }

-- The third item waits until the first one is sent; the close discards what is left.
abbrev stream : List (Bounds.Call ℕ)
stream =
    puts (entry 0 4) none
    ∷ puts (entry 1 6) none
    ∷ puts (entry 2 3) none
    ∷ gets
    ∷ Bounds.releases 0
    ∷ Bounds.wakes 0
    ∷ closes none true
    ∷ []

stream_sends :
    (log accepted_in queue stream ≡ entry 0 4 ∷ entry 1 6 ∷ entry 2 3 ∷ [])
    × (log delivered_in queue stream ≡ entry 0 4 ∷ [])
    × (log discarded_in queue stream ≡ entry 1 6 ∷ entry 2 3 ∷ [])
    × ((Bounds.run queue stream).given_back ≡ 2 ∷ 1 ∷ 0 ∷ [])
unfolding queue_program
stream_sends = (refl, refl, refl, refl)

new_queue : Queue.init 2 10 true ≡ ok queue
unfolding queue_program
new_queue = refl

run-init-Counted_example :
    Counted (Bounds.run queue stream)
    × ((Queue.release 0 (Bounds.run queue stream)).1 ≢ raised Queue.underflow)
run-init-Counted_example = run-init-Counted 2 10 true stream 0 new_queue

run-Order_example :
    queue.items ++ log accepted_in queue stream
    ≡ log delivered_in queue stream
      ++ (log discarded_in queue stream ++ (Bounds.run queue stream).items)
run-Order_example = run-Order queue stream

run-everywhere_example :
    everywhere (λ lease. lease + 1) (Bounds.run queue stream)
    ≡ everywhere (λ lease. lease + 1) queue + brought_in (λ lease. lease + 1) queue stream
run-everywhere_example = run-everywhere (λ lease. lease + 1) queue stream
