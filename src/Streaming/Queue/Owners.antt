-- ===== src/Streaming/Queue/Owners.antt =====
-- Each lease of the shared byte budget that the queue takes over has one owner at any time.
use native.Mathlib.Nat.{add_assoc}
use uni_api.Prelude.{
  ℕ, ◌+◌, ◌-◌, ◌≡◌, ap, ◌∙◌, inl, inr, true, false, Option, none, some, List, [], ◌∷◌, arith,
  if◌then◌else◌, Option-cases, get_elem?,
}
use uni_api.Prelude.Sums.{set}
use uni_api.Prelude.Sums.{total, total-append, total-set}
use uni_api.Streaming.Queue.{
  Entry, ItemLease, Putter, waiting, finished, Queue, give_back, check_put, append_entry, put,
  leave, wake, interrupt, get_lease, release, discard_items, close,
}
use uni_api.Streaming.Queue.Order.{items-give_back}
use uni_api.Streaming.Queue.Bounds.{
  Call, puts, wakes, releases, interrupts, gets, closes, step, run, waiting_cases, items_cases,
}

abbrev pub weigh : (ℕ → ℕ) → Option ℕ → ℕ
weigh weight none = 0
weigh weight (some lease) = weight lease

module _ {ℓ} {A : Type ℓ} (weight : ℕ → ℕ) where
  abbrev pub in_entry : Entry A → ℕ
  in_entry entry = weigh weight entry.budget_lease

  abbrev pub in_putter : Putter A → ℕ
  in_putter (waiting entry) = weigh weight entry.budget_lease
  in_putter finished = 0

  abbrev pub in_lease : ItemLease A → ℕ
  in_lease lease = if lease.released then 0 else weigh weight lease.budget_lease

  -- The weight of all budget leases, wherever they are: queued, with a waiting putter, in flight, or
  -- given back.
  abbrev pub everywhere : Queue A → ℕ
  everywhere q =
      total in_entry q.items
      + total in_putter q.putters
      + total in_lease q.leases
      + total weight q.given_back

  -- The weight of the budget lease that a call brings in: `put` takes one over once its checks pass.
  abbrev pub brought : Queue A → Call A → ℕ
  brought q (puts entry transfer) = elim (check_put entry.size transfer q) [
    | some error ↦ 0
    | none ↦ weigh weight entry.budget_lease
  ]
  brought q _ = 0

  everywhere-give_back :
      (lease : Option ℕ) (q : Queue A)
      → everywhere (give_back lease q) ≡ everywhere q + weigh weight lease
  unfolding give_back
  everywhere-give_back none q = omega arith
  everywhere-give_back (some lease) q = omega arith

  everywhere-append_entry :
      (entry : Entry A) (q : Queue A)
      → everywhere (append_entry entry q) ≡ everywhere q + in_entry entry
  unfolding append_entry
  everywhere-append_entry entry q = omega (arith, total-append in_entry q.items (entry ∷ []))

  everywhere-leave :
      (i : ℕ) (entry : Entry A) (q : Queue A)
      → get_elem? q.putters i ≡ some (waiting entry)
      → everywhere (leave i q) + in_entry entry ≡ everywhere q
  unfolding leave
  everywhere-leave i entry q at =
      omega (arith, total-set in_putter q.putters i finished (waiting entry) at)

  everywhere-discard_items :
      (xs : List (Entry A)) (q : Queue A)
      → everywhere (discard_items xs q) + total in_entry q.items ≡ everywhere q + total in_entry xs
  unfolding discard_items
  everywhere-discard_items [] q = omega arith
  everywhere-discard_items (entry ∷ rest) q =
      let next = give_back entry.budget_lease (record q { bytes = q.bytes - entry.size }) in
      omega (
        arith,
        everywhere-discard_items rest next,
        everywhere-give_back entry.budget_lease (record q { bytes = q.bytes - entry.size }),
        ap (total in_entry)
            (items-give_back entry.budget_lease (record q { bytes = q.bytes - entry.size })),
      )

  step-everywhere :
      (q : Queue A) (c : Call A) → everywhere (step q c).0 ≡ everywhere q + brought q c
  unfolding step put wake interrupt get_lease release close
  step-everywhere q (puts entry transfer) = ground (
    arith,
    everywhere-give_back entry.budget_lease q,
    everywhere-append_entry entry q,
    total-append in_putter q.putters (waiting entry ∷ []),
  )
  step-everywhere q (wakes i) = elim (waiting_cases (get_elem? q.putters i)) [
    | inr (inl e) ↦ ground (arith, e)
    | inr (inr e) ↦ ground (arith, e)
    | inl (entry, e) ↦ ground (
      arith,
      e,
      everywhere-leave i entry q e,
      everywhere-give_back entry.budget_lease (leave i q),
      everywhere-append_entry entry (leave i q),
    )
  ]
  step-everywhere q (releases k) = elim (Option-cases (get_elem? q.leases k)) [
    | inl e ↦ ground (arith, e)
    | inr (lease, e) ↦
        let done = record lease { held = none; released = true } in
        ground (
          arith,
          e,
          total-set in_lease q.leases k done lease e,
          total-set in_lease q.leases k (record lease { held = none }) lease e,
          everywhere-give_back lease.budget_lease (record q {
            inflight_items = q.inflight_items - 1;
            inflight_bytes = q.inflight_bytes - lease.size;
            bytes = q.bytes - lease.size;
            leases = set k done q.leases;
          }),
        )
  ]
  step-everywhere q (interrupts timed_out i) = elim (waiting_cases (get_elem? q.putters i)) [
    | inr (inl e) ↦ ground (arith, e)
    | inr (inr e) ↦ ground (arith, e)
    | inl (entry, e) ↦ ground (
      arith,
      e,
      everywhere-leave i entry q e,
      everywhere-give_back entry.budget_lease (record (leave i q) {
        put_timeouts = if timed_out then q.put_timeouts + 1 else q.put_timeouts;
      }),
    )
  ]
  step-everywhere q gets = elim (items_cases q.items) [
    | inl e ↦ ground (arith, e)
    | inr (entry, rest, e) ↦ ground (
      arith,
      e,
      ap (total in_entry) e,
      total-append in_lease q.leases (
          record {
            held = some entry.item;
            size = entry.size;
            budget_lease = entry.budget_lease;
            released = false;
          }
          ∷ []),
    )
  ]
  step-everywhere q (closes error true) = omega (arith, everywhere-discard_items q.items _)
  step-everywhere q (closes error false) = omega arith

  unfoldable pub brought_in : Queue A → List (Call A) → ℕ
  brought_in q [] = 0
  brought_in q (c ∷ cs) = brought q c + brought_in (step q c).0 cs

  -- Whatever weights the budget leases have, over any calls the weight of all leases that were queued,
  -- waiting, in flight or given back at first, and of those that puts brought in, is that of all
  -- which are queued, waiting, in flight or given back at the end: no lease of the shared budget is
  -- lost, and none is given back more often than it came in.
  pub run-everywhere :
      (q : Queue A) (cs : List (Call A)) → everywhere (run q cs) ≡ everywhere q + brought_in q cs
  unfolding run brought_in
  run-everywhere q [] = omega arith
  run-everywhere q (c ∷ cs) =
      let rest = brought_in (step q c).0 cs in
      run-everywhere (step q c).0 cs
      ∙ ap (λ t. t + rest) (step-everywhere q c)
      ∙ add_assoc (everywhere q) (brought q c) rest
