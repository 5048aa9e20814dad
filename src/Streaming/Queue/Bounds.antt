-- ===== src/Streaming/Queue/Bounds.antt =====
-- The counters of the queue, and its bounds.
use uni_api.Prelude.{
  ℕ, ◌+◌, ◌-◌, ◌≤◌, String, ◌≡◌, refl, ◌≢◌, ◌⊎◌, inl, inr, Bool, true, false, Option, none, some,
  List, [], ◌∷◌, arith, if◌then◌else◌, Bool-cases, Option-cases, length, get_elem?, length-append,
  ok,
}
use uni_api.Prelude.Sums.{set}
use uni_api.Prelude.Sums.{total, total-append, total-set, le-total}
use uni_api.Streaming.Queue.{
  Entry, ItemLease, Putter, waiting, finished, Queue, underflow, Transfer, Event, raised, init,
  can_put, give_back, append_entry, put, leave, wake, interrupt, get_lease, release, discard_items,
  close,
}

module _ {ℓ} {A : Type ℓ} where
  abbrev pub entry_size : Entry A → ℕ
  entry_size entry = entry.size

  abbrev pub open_size : ItemLease A → ℕ
  open_size lease = if lease.released then 0 else lease.size

  abbrev pub open_one : ItemLease A → ℕ
  open_one lease = if lease.released then 0 else 1

  abbrev pub waits : Putter A → ℕ
  waits (waiting entry) = 1
  waits finished = 0

  -- The counters agree with the contents, and the limits are kept, also by what was sent on and is
  -- not released yet.
  pub record Counted (q : Queue A) : Type 0 where
    pub bytes : q.bytes ≡ total entry_size q.items + q.inflight_bytes
    pub inflight_bytes : q.inflight_bytes ≡ total open_size q.leases
    pub inflight_items : q.inflight_items ≡ total open_one q.leases
    pub items_fit : length q.items + q.inflight_items ≤ q.max_items
    pub bytes_fit : q.bytes ≤ q.max_bytes
    pub peak_items_fit : q.peak_items ≤ q.max_items
    pub peak_bytes_fit : q.peak_bytes ≤ q.max_bytes
    pub putters : q.waiting_putters ≡ total waits q.putters

  give_back-Counted : (lease : Option ℕ) (q : Queue A) → Counted q → Counted (give_back lease q)
  unfolding give_back
  give_back-Counted none q v = v
  give_back-Counted (some lease) q v = omega arith

  append_entry-Counted :
      (entry : Entry A) (q : Queue A)
      → can_put entry.size q ≡ true
      → Counted q
      → Counted (append_entry entry q)
  unfolding append_entry can_put
  append_entry-Counted entry q room v =
      ground
        (arith, total-append entry_size q.items (entry ∷ []), length-append q.items (entry ∷ []))

  put-Counted :
      (entry : Entry A) (transfer : Option Transfer) (q : Queue A)
      → Counted q
      → Counted (put entry transfer q).0
  unfolding put
  put-Counted entry transfer q v = ground (
    arith,
    give_back-Counted entry.budget_lease q v,
    append_entry-Counted entry q,
    total-append waits q.putters (waiting entry ∷ []),
  )

  leave-Counted :
      (i : ℕ) (entry : Entry A) (q : Queue A)
      → get_elem? q.putters i ≡ some (waiting entry)
      → Counted q
      → Counted (leave i q)
  unfolding leave
  leave-Counted i entry q at v = ground (
    arith,
    total-set waits q.putters i finished (waiting entry) at,
    le-total waits q.putters i (waiting entry) at,
  )

  can_put-leave : (i size : ℕ) (q : Queue A) → can_put size (leave i q) ≡ can_put size q
  unfolding can_put leave
  can_put-leave i size q = refl

  give_back_first :
      (entry : Entry A) (rest : List (Entry A)) (q : Queue A)
      → Counted (record q { items = entry ∷ rest })
      → Counted (record (give_back entry.budget_lease (record q { bytes = q.bytes - entry.size })) {
        items = rest;
      })
  unfolding give_back
  give_back_first entry rest q v = ground arith

  -- Whether a putter waits at a place.
  pub waiting_cases :
      (o : Option (Putter A))
      → ((entry : Entry A) × (o ≡ some (waiting entry))) ⊎ ((o ≡ none) ⊎ (o ≡ some finished))
  waiting_cases none = inr (inl refl)
  waiting_cases (some finished) = inr (inr refl)
  waiting_cases (some (waiting entry)) = inl (entry, refl)

  pub items_cases :
      (xs : List (Entry A))
      → (xs ≡ []) ⊎ ((entry : Entry A) × (rest : List (Entry A)) × (xs ≡ entry ∷ rest))
  items_cases [] = inl refl
  items_cases (entry ∷ rest) = inr (entry, rest, refl)

  wake-Counted : (i : ℕ) (q : Queue A) → Counted q → Counted (wake i q).0
  unfolding wake
  wake-Counted i q v = elim (waiting_cases (get_elem? q.putters i)) [
    | inr (inl e) ↦ rw (e, wake) v
    | inr (inr e) ↦ rw (e, wake) v
    | inl (entry, e) ↦
        let left = leave-Counted i entry q e v in
        let room : can_put entry.size (leave i q) ≡ can_put entry.size q =
          can_put-leave i entry.size q in
        ground (
          arith,
          e,
          give_back-Counted entry.budget_lease (leave i q) left,
          append_entry-Counted entry (leave i q),
          left,
          room,
        )
  ]

  interrupt-Counted :
      (timed_out : Bool) (i : ℕ) (q : Queue A) → Counted q → Counted (interrupt timed_out i q).0
  unfolding interrupt
  interrupt-Counted timed_out i q v = elim (waiting_cases (get_elem? q.putters i)) [
    | inr (inl e) ↦ rw (e, interrupt) v
    | inr (inr e) ↦ rw (e, interrupt) v
    | inl (entry, e) ↦
        let left = leave-Counted i entry q e v in
        let timeouts = if timed_out then q.put_timeouts + 1 else q.put_timeouts in
        let counted : Counted (record (leave i q) { put_timeouts = timeouts }) =
          ground (arith, left) in
        rw (e, interrupt)
          (give_back-Counted entry.budget_lease (record (leave i q) { put_timeouts = timeouts })
            counted)
  ]

  get_lease-Counted : (q : Queue A) → Counted q → Counted (get_lease q).0
  unfolding get_lease
  get_lease-Counted q v = elim (items_cases q.items) [
    | inl e ↦ ground (arith, e)
    | inr (entry, rest, e) ↦
        let lease : ItemLease A = record {
          held = some entry.item;
          size = entry.size;
          budget_lease = entry.budget_lease;
          released = false;
        } in
        ground (
          arith,
          e,
          total-append open_size q.leases (lease ∷ []),
          total-append open_one q.leases (lease ∷ []),
        )
  ]

  retired-Counted :
      (k : ℕ) (lease : ItemLease A) (q : Queue A)
      → get_elem? q.leases k ≡ some lease
      → lease.released ≡ false
      → Counted q
      → Counted (record q {
        inflight_items = q.inflight_items - 1;
        inflight_bytes = q.inflight_bytes - lease.size;
        bytes = q.bytes - lease.size;
        leases = set k (record lease { held = none; released = true }) q.leases;
      })
  retired-Counted k lease q at fresh v =
      let done = record lease { held = none; released = true } in
      ground (
        arith,
        total-set open_size q.leases k done lease at,
        total-set open_one q.leases k done lease at,
        le-total open_size q.leases k lease at,
        le-total open_one q.leases k lease at,
      )

  release-Counted :
      (k : ℕ) (q : Queue A)
      → Counted q
      → Counted (release k q).0 × ((release k q).1 ≢ raised underflow)
  unfolding release
  release-Counted k q v = elim (Option-cases (get_elem? q.leases k)) [
    | inl e ↦ ground (arith, e)
    | inr (lease, e) ↦ elim (Bool-cases lease.released) [
      | inl done ↦ ground (arith, e)
      | inr fresh ↦ ground (
        arith,
        e,
        le-total open_size q.leases k lease e,
        le-total open_one q.leases k lease e,
        give_back-Counted lease.budget_lease _ (retired-Counted k lease q e fresh v),
      )
    ]
  ]

  discard_items-Counted :
      (xs : List (Entry A)) (q : Queue A)
      → Counted (record q { items = xs })
      → Counted (discard_items xs q)
  unfolding discard_items
  discard_items-Counted [] q v = v
  discard_items-Counted (entry ∷ rest) q v =
      discard_items-Counted rest _ (give_back_first entry rest q v)

  close-Counted :
      (error : Option String) (discard : Bool) (q : Queue A)
      → Counted q
      → Counted (close error discard q).0
  unfolding close
  close-Counted error true q v = discard_items-Counted q.items _ (omega arith)
  close-Counted error false q v = omega arith

-- A call of the queue, or a turn of a waiting putter.
pub data Call {ℓ} (A : Type ℓ) : Type ℓ where
  puts : Entry A → Option Transfer → Call A
  wakes releases : ℕ → Call A
  interrupts : Bool → ℕ → Call A
  gets : Call A
  closes : Option String → Bool → Call A

module _ {ℓ} {A : Type ℓ} where
  unfoldable pub step : Queue A → Call A → Queue A × Event A
  step q (puts entry transfer) = put entry transfer q
  step q (wakes i) = wake i q
  step q (releases k) = release k q
  step q (interrupts timed_out i) = interrupt timed_out i q
  step q gets = get_lease q
  step q (closes error discard) = close error discard q

  unfoldable pub run : Queue A → List (Call A) → Queue A
  run q [] = q
  run q (c ∷ cs) = run (step q c).0 cs

  pub step-Counted : (q : Queue A) (c : Call A) → Counted q → Counted (step q c).0
  unfolding step
  step-Counted q (puts entry transfer) v = put-Counted entry transfer q v
  step-Counted q (wakes i) v = wake-Counted i q v
  step-Counted q (releases k) v = (release-Counted k q v).0
  step-Counted q (interrupts timed_out i) v = interrupt-Counted timed_out i q v
  step-Counted q gets v = get_lease-Counted q v
  step-Counted q (closes error discard) v = close-Counted error discard q v

  run-Counted : (q : Queue A) (cs : List (Call A)) → Counted q → Counted (run q cs)
  unfolding run
  run-Counted q [] v = v
  run-Counted q (c ∷ cs) v = run-Counted (step q c).0 cs (step-Counted q c v)

  -- In any interleaving of puts, wake-ups, time-outs, cancellations, gets, releases and closes on a new
  -- queue, the counters agree with the contents, the items and bytes that are queued or were sent
  -- on and not released keep both limits, the peaks too, and no release of a lease finds that
  -- more is given back than is in flight.
  pub run-init-Counted :
      (max_items max_bytes : ℕ) (has_budget : Bool) (cs : List (Call A)) (k : ℕ) {q : Queue A}
      → init max_items max_bytes has_budget ≡ ok q
      → Counted (run q cs) × ((release k (run q cs)).1 ≢ raised underflow)
  unfolding init
  run-init-Counted max_items max_bytes has_budget cs k {q} new =
      let v = run-Counted q cs (ground arith) in (v, (release-Counted k (run q cs) v).1)
