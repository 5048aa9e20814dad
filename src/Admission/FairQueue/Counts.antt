-- ===== src/Admission/FairQueue/Counts.antt =====
-- The dictionary of the queues: its keys, and its waiters counted.
use uni_api.Prelude.{
  ℕ, ◌+◌, String, ◌≡◌, refl, ap, inl, inr, false, none, some, List, [], ◌∷◌, ◌++◌, arith,
  if◌then◌else◌, Bool-cases, length, str_eq, str_eq_iff, str_eq_refl,
}
use uni_api.Admission.FairQueue.{Queues, queue_of, put_queue, pop_queue, count_for_lane, has_waiter}
use uni_api.Admission.Gate.{remove_waiter}
use uni_api.Admission.FairQueue.Turns.{Tenants}

-- Keys
absent-pop :
    (k tenant : String) (qs : Queues)
    → queue_of k qs ≡ none
    → queue_of k (pop_queue tenant qs) ≡ none
unfolding queue_of pop_queue
absent-pop k tenant [] h = refl
absent-pop k tenant ((t, ws) ∷ qs) h = ground (arith, absent-pop k tenant qs)

absent-put :
    (k tenant : String) (vs : List ℕ) (qs : Queues)
    → queue_of k qs ≡ none
    → queue_of k (put_queue tenant vs qs) ≡ none
unfolding queue_of put_queue
absent-put k tenant vs [] h = refl
absent-put k tenant vs ((t, ws) ∷ qs) h = ground (arith, absent-put k tenant vs qs)

absent-append :
    (k tenant : String) (vs : List ℕ) (qs : Queues)
    → queue_of k qs ≡ none
    → str_eq tenant k ≡ false
    → queue_of k (qs ++ (tenant, vs) ∷ []) ≡ none
unfolding queue_of
absent-append k tenant vs [] h ne = rw (ne)
absent-append k tenant vs ((t, ws) ∷ qs) h ne = ground (arith, absent-append k tenant vs qs)

pub Tenants-pop_queue : (tenant : String) (qs : Queues) → Tenants qs → Tenants (pop_queue tenant qs)
unfolding Tenants pop_queue
Tenants-pop_queue tenant [] d = tt
Tenants-pop_queue tenant ((t, ws) ∷ qs) d = elim (Bool-cases (str_eq t tenant)) [
  | inl e ↦ rw (e) d.1
  | inr e ↦ rw (e) (absent-pop t tenant qs d.0, Tenants-pop_queue tenant qs d.1)
]

pub Tenants-put_queue :
    (tenant : String) (vs : List ℕ) (qs : Queues) → Tenants qs → Tenants (put_queue tenant vs qs)
unfolding Tenants put_queue
Tenants-put_queue tenant vs [] d = tt
Tenants-put_queue tenant vs ((t, ws) ∷ qs) d = elim (Bool-cases (str_eq t tenant)) [
  | inl e ↦ rw (e) d
  | inr e ↦ rw (e) (absent-put t tenant vs qs d.0, Tenants-put_queue tenant vs qs d.1)
]

pub Tenants-last :
    (tenant : String) (vs : List ℕ) (qs : Queues)
    → Tenants qs
    → queue_of tenant qs ≡ none
    → Tenants (qs ++ (tenant, vs) ∷ [])
unfolding Tenants queue_of
Tenants-last tenant vs [] d h = (refl, tt)
Tenants-last tenant vs ((t, ws) ∷ qs) d h =
    let other : str_eq t tenant ≡ false = ground (arith, h) in
    let apart : str_eq tenant t ≡ false =
      ground (arith, other, str_eq_iff t tenant, str_eq_iff tenant t, str_eq_refl t) in
    let rest : queue_of tenant qs ≡ none = ground (arith, h) in
    (absent-append t tenant vs qs d.0 apart, Tenants-last tenant vs qs d.1 rest)

-- Counts
pub count-put_queue :
    (tenant : String) (ws vs : List ℕ) (qs : Queues)
    → queue_of tenant qs ≡ some ws
    → count_for_lane (put_queue tenant vs qs) + length ws ≡ count_for_lane qs + length vs
unfolding queue_of put_queue count_for_lane
count-put_queue tenant ws vs [] h = cc
count-put_queue tenant ws vs ((t, us) ∷ qs) h = elim (Bool-cases (str_eq t tenant)) [
  | inl e ↦
      let same : some us ≡ some ws = rw (e) at h in
      let size : length us ≡ length ws = ap (λ o. elim o [ none ↦ 0 | some x ↦ length x ]) same in
      rw (e) (omega (arith, size))
  | inr e ↦
      let rest : queue_of tenant qs ≡ some ws = rw (e) at h in
      rw (e) (omega (arith, count-put_queue tenant ws vs qs rest))
]

pub count-pop_queue :
    (tenant : String) (ws : List ℕ) (qs : Queues)
    → queue_of tenant qs ≡ some ws
    → count_for_lane (pop_queue tenant qs) + length ws ≡ count_for_lane qs
unfolding queue_of pop_queue count_for_lane
count-pop_queue tenant ws [] h = cc
count-pop_queue tenant ws ((t, us) ∷ qs) h = elim (Bool-cases (str_eq t tenant)) [
  | inl e ↦
      let same : some us ≡ some ws = rw (e) at h in
      let size : length us ≡ length ws = ap (λ o. elim o [ none ↦ 0 | some x ↦ length x ]) same in
      rw (e) (omega (arith, size))
  | inr e ↦
      let rest : queue_of tenant qs ≡ some ws = rw (e) at h in
      rw (e) (omega (arith, count-pop_queue tenant ws qs rest))
]

pub count_last :
    (tenant : String) (vs : List ℕ) (qs : Queues)
    → count_for_lane (qs ++ (tenant, vs) ∷ []) ≡ count_for_lane qs + length vs
unfolding count_for_lane
count_last tenant vs [] = omega arith
count_last tenant vs ((t, ws) ∷ qs) = omega (arith, count_last tenant vs qs)

pub length-remove_waiter :
    (w : ℕ) (ws : List ℕ)
    → length (remove_waiter w ws) + (if has_waiter w ws then 1 else 0) ≡ length ws
unfolding remove_waiter has_waiter
length-remove_waiter w [] = omega arith
length-remove_waiter w (v ∷ vs) = ground (arith, length-remove_waiter w vs)
