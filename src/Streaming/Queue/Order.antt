-- ===== src/Streaming/Queue/Order.antt =====
-- The queue delivers what it accepted, in order.
use mathlib.Core.Path.{ap₂}
use mathlib.Core.List.{append_assoc, append-nil}
use uni_api.Prelude.{
  ℕ, ◌≡◌, refl, sym, ap, ◌∙◌, ◌⊎◌, inl, inr, true, false, Option, none, some, List, [], ◌∷◌, ◌++◌,
  arith, Option-cases, get_elem?,
}
use uni_api.Streaming.Queue.{
  Entry, Queue, Event, accepted, delivered, discarded, give_back, append_entry, put, leave, wake,
  interrupt, get_lease, release, discard_items, close,
}
use uni_api.Streaming.Queue.Bounds.{
  Call, puts, wakes, releases, interrupts, gets, closes, step, run, waiting_cases, items_cases,
}

module _ {ℓ} {A : Type ℓ} where
  abbrev pub accepted_in : Event A → List (Entry A)
  accepted_in (accepted entry) = entry ∷ []
  accepted_in _ = []

  abbrev pub delivered_in : Event A → List (Entry A)
  delivered_in (delivered entry) = entry ∷ []
  delivered_in _ = []

  abbrev pub discarded_in : Event A → List (Entry A)
  discarded_in (discarded entries) = entries
  discarded_in _ = []

  -- What a run accepts, delivers or discards, in order.
  unfoldable pub log : (Event A → List (Entry A)) → Queue A → List (Call A) → List (Entry A)
  log part q [] = []
  log part q (c ∷ cs) = part (step q c).1 ++ log part (step q c).0 cs

  pub items-give_back : (lease : Option ℕ) (q : Queue A) → (give_back lease q).items ≡ q.items
  unfolding give_back
  items-give_back none q = refl
  items-give_back (some lease) q = refl

  closed-give_back : (lease : Option ℕ) (q : Queue A) → (give_back lease q).closed ≡ q.closed
  unfolding give_back
  closed-give_back none q = refl
  closed-give_back (some lease) q = refl

  items-discard_items : (xs : List (Entry A)) (q : Queue A) → (discard_items xs q).items ≡ []
  unfolding discard_items
  items-discard_items [] q = refl
  items-discard_items (entry ∷ rest) q = items-discard_items rest _

  closed-discard_items :
      (xs : List (Entry A)) (q : Queue A) → (discard_items xs q).closed ≡ q.closed
  unfolding discard_items
  closed-discard_items [] q = refl
  closed-discard_items (entry ∷ rest) q =
      closed-discard_items rest _ ∙ closed-give_back entry.budget_lease _

  step-items :
      (q : Queue A) (c : Call A)
      → q.items ++ accepted_in (step q c).1
        ≡ delivered_in (step q c).1 ++ (discarded_in (step q c).1 ++ (step q c).0.items)
  unfolding step put wake interrupt get_lease release close append_entry leave
  step-items q (puts entry transfer) =
      ground (arith, append-nil q.items, items-give_back entry.budget_lease q)
  step-items q (wakes i) = elim (waiting_cases (get_elem? q.putters i)) [
    | inr (inl e) ↦ ground (arith, e, append-nil q.items)
    | inr (inr e) ↦ ground (arith, e, append-nil q.items)
    | inl (entry, e) ↦
        ground (arith, e, append-nil q.items, items-give_back entry.budget_lease (leave i q))
  ]
  step-items q (releases k) = elim (Option-cases (get_elem? q.leases k)) [
    | inl e ↦ ground (arith, e, append-nil q.items)
    | inr (lease, e) ↦ grind (arith, e, append-nil q.items, items-give_back)
  ]
  step-items q (interrupts timed_out i) = elim (waiting_cases (get_elem? q.putters i)) [
    | inr (inl e) ↦ ground (arith, e, append-nil q.items)
    | inr (inr e) ↦ ground (arith, e, append-nil q.items)
    | inl (entry, e) ↦ grind (arith, e, append-nil q.items, items-give_back)
  ]
  step-items q gets = ground (arith, append-nil q.items, items_cases q.items)
  step-items q (closes error true) = grind (arith, append-nil q.items, items-discard_items)
  step-items q (closes error false) = ground (arith, append-nil q.items)

  -- A closed queue stays closed and accepts nothing.
  step-closed :
      (q : Queue A) (c : Call A)
      → q.closed ≡ true
      → ((step q c).0.closed ≡ true) × (accepted_in (step q c).1 ≡ [])
  unfolding step put wake interrupt get_lease release close append_entry leave
  step-closed q (puts entry transfer) h = grind (arith, closed-give_back)
  step-closed q (wakes i) h = elim (waiting_cases (get_elem? q.putters i)) [
    | inr (inl e) ↦ ground (arith, e)
    | inr (inr e) ↦ ground (arith, e)
    | inl (entry, e) ↦ ground (arith, e, closed-give_back entry.budget_lease (leave i q))
  ]
  step-closed q (releases k) h = elim (Option-cases (get_elem? q.leases k)) [
    | inl e ↦ ground (arith, e)
    | inr (lease, e) ↦ grind (arith, e, closed-give_back)
  ]
  step-closed q (interrupts timed_out i) h = elim (waiting_cases (get_elem? q.putters i)) [
    | inr (inl e) ↦ ground (arith, e)
    | inr (inr e) ↦ ground (arith, e)
    | inl (entry, e) ↦ grind (arith, e, closed-give_back)
  ]
  step-closed q gets h = ground (arith, items_cases q.items)
  step-closed q (closes error true) h = grind (arith, closed-discard_items)
  step-closed q (closes error false) h = (refl, refl)

  pub log-accepted-closed :
      (q : Queue A) (cs : List (Call A)) → q.closed ≡ true → log accepted_in q cs ≡ []
  unfolding log
  log-accepted-closed q [] h = refl
  log-accepted-closed q (c ∷ cs) h =
      let (still, gone) = step-closed q c h in rw (gone, log-accepted-closed (step q c).0 cs still)

  append_nil_parts : (xs ys : List (Entry A)) → xs ++ ys ≡ [] → (xs ≡ []) × (ys ≡ [])
  append_nil_parts [] ys h = (refl, h)
  append_nil_parts (x ∷ xs) ys h = cc

  -- Only a closing call discards, and it leaves the queue closed and empty.
  step-discarded :
      (q : Queue A) (c : Call A)
      → (discarded_in (step q c).1 ≡ [])
        ⊎ (((step q c).0.closed ≡ true) × ((step q c).0.items ≡ []))
  unfolding step put wake interrupt get_lease release close
  step-discarded q (puts entry transfer) = inl (ground arith)
  step-discarded q (wakes i) = inl (elim (waiting_cases (get_elem? q.putters i)) [
    | inr (inl e) ↦ ground (arith, e)
    | inr (inr e) ↦ ground (arith, e)
    | inl (entry, e) ↦ ground (arith, e)
  ])
  step-discarded q (releases k) = inl (ground (arith, Option-cases (get_elem? q.leases k)))
  step-discarded q (interrupts timed_out i) = inl (elim (waiting_cases (get_elem? q.putters i)) [
    | inr (inl e) ↦ ground (arith, e)
    | inr (inr e) ↦ ground (arith, e)
    | inl (entry, e) ↦ ground (arith, e)
  ])
  step-discarded q gets = inl (ground (arith, items_cases q.items))
  step-discarded q (closes error true) =
      inr (closed-discard_items q.items _, items-discard_items q.items _)
  step-discarded q (closes error false) = inl refl

  -- A closed and empty queue delivers nothing more.
  log-delivered-closed :
      (q : Queue A) (cs : List (Call A))
      → q.closed ≡ true
      → q.items ≡ []
      → log delivered_in q cs ≡ []
  unfolding log
  log-delivered-closed q [] h e = refl
  log-delivered-closed q (c ∷ cs) h e =
      let (still, gone) = step-closed q c h in
      let all : delivered_in (step q c).1 ++ (discarded_in (step q c).1 ++ (step q c).0.items)
          ≡ [] =
        sym (step-items q c) ∙ ap₂ (λ xs ys. xs ++ ys) e gone in
      let (nothing_delivered, rest) =
        append_nil_parts (delivered_in (step q c).1)
          (discarded_in (step q c).1 ++ (step q c).0.items) all in
      let empty = (append_nil_parts (discarded_in (step q c).1) (step q c).0.items rest).1 in
      rw (nothing_delivered, log-delivered-closed (step q c).0 cs still empty)

  swap_discarded :
      (ds xs ys zs : List (Entry A))
      → (ds ≡ []) ⊎ (xs ≡ [])
      → ds ++ (xs ++ (ys ++ zs)) ≡ xs ++ ((ds ++ ys) ++ zs)
  swap_discarded ds xs ys zs (inl e) = rw (e)
  swap_discarded ds xs ys zs (inr e) = rw (e) (sym (append_assoc ds ys zs))

  -- Under any calls the entries that are queued at first and those accepted later are, in this order, the
  -- delivered ones, those discarded by a closing call, and those still queued: nothing is lost,
  -- repeated or overtaken.
  pub run-Order :
      (q : Queue A) (cs : List (Call A))
      → q.items ++ log accepted_in q cs
        ≡ log delivered_in q cs ++ (log discarded_in q cs ++ (run q cs).items)
  unfolding log run
  run-Order q [] = append-nil q.items
  run-Order q (c ∷ cs) =
      let next = (step q c).0 in
      let event = (step q c).1 in
      let later = log delivered_in next cs in
      let split : (discarded_in event ≡ []) ⊎ (later ≡ []) = elim (step-discarded q c) [
        | inl none_discarded ↦ inl none_discarded
        | inr (shut, empty) ↦ inr (log-delivered-closed next cs shut empty)
      ] in
      sym (append_assoc q.items (accepted_in event) (log accepted_in next cs))
      ∙ ap (λ xs. xs ++ log accepted_in next cs) (step-items q c)
      ∙ append_assoc (delivered_in event) (discarded_in event ++ next.items)
          (log accepted_in next cs)
      ∙ ap (◌++◌ (delivered_in event)) (
          append_assoc (discarded_in event) next.items (log accepted_in next cs)
          ∙ ap (◌++◌ (discarded_in event)) (run-Order next cs)
          ∙ swap_discarded (discarded_in event) later (log discarded_in next cs) (run next cs).items
              split)
      ∙ sym (append_assoc (delivered_in event) later _)
