-- ===== src/Streaming/Queue.antt =====
-- uni_api/streaming/bounded_queue.py: `ByteBoundedQueue` and `StreamQueueItemLease`. A coroutine is cut at its
-- awaits: a `put` that finds no room becomes a waiting putter, which is woken, times out or is
-- cancelled later. Putters and leases are named by their places in lists; a lease of the shared
-- byte budget is named by a number. `given_back` lists the budget leases that the queue has released. The
-- wait in milliseconds is a measurement and is left out.
pub mod Bounds
pub mod Order
pub mod Owners
use uni_api.Prelude.{
  ℕ, ◌+◌, ◌-◌, max, String, Bool, true, false, not, ◌&&◌, ◌||◌, Option, none, some, List, [], ◌∷◌,
  ◌++◌, ltb, leb, ◌==◌, if◌then◌else◌, length, get_elem?, Result, ok, err,
}
use uni_api.Prelude.Sums.{set}

pub record Entry {ℓ} (A : Type ℓ) : Type ℓ where
  pub item : A
  pub size : ℕ
  pub budget_lease : Option ℕ

-- `StreamQueueItemLease`: `release` drops the item.
pub record ItemLease {ℓ} (A : Type ℓ) : Type ℓ where
  pub held : Option A
  pub size : ℕ
  pub budget_lease : Option ℕ
  pub released : Bool

pub data Putter {ℓ} (A : Type ℓ) : Type ℓ where
  waiting : Entry A → Putter A
  finished : Putter A

pub record Queue {ℓ} (A : Type ℓ) : Type ℓ where
  pub max_items : ℕ
  pub max_bytes : ℕ
  pub has_budget : Bool
  pub items : List (Entry A)
  pub bytes : ℕ
  pub inflight_items : ℕ
  pub inflight_bytes : ℕ
  pub peak_items : ℕ
  pub peak_bytes : ℕ
  pub closed : Bool
  pub close_error : Option String
  pub waiting_putters : ℕ
  pub blocked_puts : ℕ
  pub put_timeouts : ℕ
  pub putters : List (Putter A)
  pub leases : List (ItemLease A)
  pub given_back : List ℕ

pub data QueueError : Type 0 where
  limit_not_positive item_too_large size_mismatch no_shared_budget other_budget : QueueError
  queue_closed put_timeout cancelled underflow no_such_task no_such_lease : QueueError
  upstream : String → QueueError

-- A lease that the caller of `put` hands over: its size, and whether it is of the queue's budget.
pub record Transfer : Type 0 where
  pub size : ℕ
  pub same_budget : Bool

-- What a call did, beside the change of the queue.
pub data Event {ℓ} (A : Type ℓ) : Type ℓ where
  accepted : Entry A → Event A
  delivered : Entry A → Event A
  discarded : List (Entry A) → Event A
  blocked : Event A
  nothing : Event A
  raised : QueueError → Event A

unfoldable pub end_of_queue : Option String → QueueError
end_of_queue none = queue_closed
end_of_queue (some error) = upstream error

unfoldable pub or_else : Option String → Option String → Option String
or_else none error = error
or_else (some old) error = some old

module _ {ℓ} {A : Type ℓ} where
  unfoldable pub init : ℕ → ℕ → Bool → Result QueueError (Queue A)
  init max_items max_bytes has_budget =
      if max_items == 0 || max_bytes == 0
      then err limit_not_positive
      else ok (record {
        max_items = max_items;
        max_bytes = max_bytes;
        has_budget = has_budget;
        items = [];
        bytes = 0;
        inflight_items = 0;
        inflight_bytes = 0;
        peak_items = 0;
        peak_bytes = 0;
        closed = false;
        close_error = none;
        waiting_putters = 0;
        blocked_puts = 0;
        put_timeouts = 0;
        putters = [];
        leases = [];
        given_back = [];
      })

  unfoldable pub can_put : ℕ → Queue A → Bool
  can_put size q =
      ltb (length q.items + q.inflight_items) q.max_items && leb (q.bytes + size) q.max_bytes

  unfoldable pub give_back : Option ℕ → Queue A → Queue A
  give_back none q = q
  give_back (some lease) q = record q { given_back = lease ∷ q.given_back }

  -- The checks of `put` before it waits.
  unfoldable pub check_put : ℕ → Option Transfer → Queue A → Option QueueError
  check_put size none q = if ltb q.max_bytes size then some item_too_large else none
  check_put size (some transfer) q =
      if ltb q.max_bytes size
      then some item_too_large
      else if not (transfer.size == size)
      then some size_mismatch
      else if not q.has_budget
      then some no_shared_budget
      else if not transfer.same_budget
      then some other_budget
      else none

  unfoldable pub append_entry : Entry A → Queue A → Queue A
  append_entry entry q = record q {
    items = q.items ++ entry ∷ [];
    bytes = q.bytes + entry.size;
    peak_items = max q.peak_items (length q.items + 1 + q.inflight_items);
    peak_bytes = max q.peak_bytes (q.bytes + entry.size);
  }

  -- `put` with its budget lease in hand, up to its first wait.
  unfoldable pub put : Entry A → Option Transfer → Queue A → Queue A × Event A
  put entry transfer q = elim (check_put entry.size transfer q) [
    | some error ↦ (q, raised error)
    | none ↦
        if q.closed
        then (give_back entry.budget_lease q, raised queue_closed)
        else if can_put entry.size q
        then (append_entry entry q, accepted entry)
        else (
          record q {
            blocked_puts = q.blocked_puts + 1;
            waiting_putters = q.waiting_putters + 1;
            putters = q.putters ++ waiting entry ∷ [];
          },
          blocked,
        )
  ]

  -- The i-th putter leaves the wait.
  unfoldable pub leave : ℕ → Queue A → Queue A
  leave i q = record q {
    waiting_putters = q.waiting_putters - 1;
    putters = set i finished q.putters;
  }

  -- The i-th putter looks at the queue again.
  unfoldable pub wake : ℕ → Queue A → Queue A × Event A
  wake i q = elim (get_elem? q.putters i) [
    | some (waiting entry) ↦
        if q.closed
        then (give_back entry.budget_lease (leave i q), raised queue_closed)
        else if can_put entry.size q
        then (append_entry entry (leave i q), accepted entry)
        else (q, nothing)
    | _ ↦ (q, nothing)
  ]

  -- The time-out or the cancellation of the i-th putter.
  unfoldable pub interrupt : Bool → ℕ → Queue A → Queue A × Event A
  interrupt timed_out i q = elim (get_elem? q.putters i) [
    | some (waiting entry) ↦ (
      give_back entry.budget_lease (record (leave i q) {
        put_timeouts = if timed_out then q.put_timeouts + 1 else q.put_timeouts;
      }),
      raised (if timed_out then put_timeout else cancelled),
    )
    | _ ↦ (q, raised no_such_task)
  ]

  -- `get_lease`: where the queue is open and empty it waits, which is `nothing`.
  unfoldable pub get_lease : Queue A → Queue A × Event A
  get_lease q = elim q.items [
    | entry ∷ rest ↦ (
      record q {
        items = rest;
        inflight_items = q.inflight_items + 1;
        inflight_bytes = q.inflight_bytes + entry.size;
        leases =
            q.leases
            ++ record {
              held = some entry.item;
              size = entry.size;
              budget_lease = entry.budget_lease;
              released = false;
            }
              ∷ [];
      },
      delivered entry,
    )
    | [] ↦ if q.closed then (q, raised (end_of_queue q.close_error)) else (q, nothing)
  ]

  -- `StreamQueueItemLease.release` with `_release_inflight`; its work is done once.
  unfoldable pub release : ℕ → Queue A → Queue A × Event A
  release k q = elim (get_elem? q.leases k) [
    | none ↦ (q, raised no_such_lease)
    | some lease ↦
        if lease.released
        then (q, nothing)
        else if q.inflight_items == 0 || ltb q.inflight_bytes lease.size
        then (record q { leases = set k (record lease { held = none }) q.leases }, raised underflow)
        else (
          give_back lease.budget_lease (record q {
            inflight_items = q.inflight_items - 1;
            inflight_bytes = q.inflight_bytes - lease.size;
            bytes = q.bytes - lease.size;
            leases = set k (record lease { held = none; released = true }) q.leases;
          }),
          nothing,
        )
  ]

  -- `while self._items: popleft()`
  unfoldable pub discard_items : List (Entry A) → Queue A → Queue A
  discard_items [] q = record q { items = [] }
  discard_items (entry ∷ rest) q =
      discard_items rest (give_back entry.budget_lease (record q { bytes = q.bytes - entry.size }))

  unfoldable pub close : Option String → Bool → Queue A → Queue A × Event A
  unfolding or_else
  close error discard q =
      let shut = record q {
        closed = true;
        close_error = if q.closed then or_else q.close_error error else error;
      } in
      if discard then (discard_items q.items shut, discarded q.items) else (shut, nothing)
