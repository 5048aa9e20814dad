-- ===== src/Admission/Cpu/Tally.antt =====
-- The counters of the limiter count its tasks.
use uni_api.Prelude.{
  ℕ, ◌+◌, ◌≤◌, String, ◌≡◌, refl, ◌≢◌, ◌⊎◌, inl, inr, false, not, ◌||◌, Option, none, some, [], ◌∷◌,
  arith, ◌==◌, if◌then◌else◌, Bool-cases, get_elem?, str_eq, str_eq_refl, Result, ok, err,
}
use uni_api.Prelude.Sums.{total, total-append, total-set, le-total}
use uni_api.Admission.Counter.{
  count, at_key, Normal, count-add, count-take_off, add-Normal, take_off-Normal,
}
use uni_api.Admission.Cpu.{
  Phase, waiting_in, holding_in, over, CpuPhaseLimiter, CpuError, fresh, init, normalized, is_loop,
  semaphore_for_running_loop, acquire, stop_waiting, admit, cancel,
}

abbrev pub waits_in : String → Phase → ℕ
waits_in k (waiting_in name) = at_key name k 1
waits_in k _ = 0

abbrev pub holds_in : String → Phase → ℕ
holds_in k (holding_in name) = at_key name k 1
holds_in k _ = 0

abbrev pub waits : Phase → ℕ
waits (waiting_in name) = 1
waits _ = 0

abbrev pub holds : Phase → ℕ
holds (holding_in name) = 1
holds _ = 0

-- The name of a task's phase, which is normalized.
abbrev pub odd_name : Phase → ℕ
odd_name (waiting_in name) = if str_eq name "" then 1 else 0
odd_name (holding_in name) = if str_eq name "" then 1 else 0
odd_name over = 0

pub record Tally (c : ℕ) (l : CpuPhaseLimiter) : Type 0 where
  pub active : l.active ≡ total holds l.phases
  pub waiters : l.waiters ≡ total waits l.phases
  pub capacity : l.capacity ≡ c
  pub permits : l.loop ≢ none → l.permits + l.active ≡ c
  pub acquired : l.acquired_total ≡ l.completed_total + l.active
  pub active_in : (k : String) → count k l.active_by_phase ≡ total (holds_in k) l.phases
  pub waiters_in : (k : String) → count k l.waiters_by_phase ≡ total (waits_in k) l.phases
  pub active_normal : Normal l.active_by_phase
  pub waiters_normal : Normal l.waiters_by_phase
  pub names : total odd_name l.phases ≡ 0
  pub in_loop : l.loop ≡ none → (l.active ≡ 0) × (l.waiters ≡ 0)

-- A place in the list of tasks.
pub data Found (o : Option Phase) : Type 0 where
  nothing : o ≡ none → Found o
  ended : o ≡ some over → Found o
  waiting : (name : String) → o ≡ some (waiting_in name) → Found o
  holding : (name : String) → o ≡ some (holding_in name) → Found o

pub found : (o : Option Phase) → Found o
found none = nothing refl
found (some over) = ended refl
found (some (waiting_in name)) = waiting name refl
found (some (holding_in name)) = holding name refl

pub init-Tally : (capacity : ℕ) {l : CpuPhaseLimiter} → init capacity ≡ ok l → Tally capacity l
unfolding init count Normal
init-Tally capacity {l} new =
    let same : l ≡ fresh capacity = ground arith in
    rw same (record {
      active = refl;
      waiters = refl;
      capacity = refl;
      permits = λ h. absurd (h refl);
      acquired = omega arith;
      active_in = λ k. refl;
      waiters_in = λ k. refl;
      active_normal = tt;
      waiters_normal = tt;
      names = refl;
      in_loop = λ h. (refl, refl);
    })

normalized_named : (phase : String) → str_eq (normalized phase) "" ≡ false
unfolding normalized
normalized_named phase = elim (Bool-cases (str_eq phase "")) [
  | inl e ↦ rw (e, normalized) refl
  | inr e ↦ rw (e, normalized) e
]

pub normalized_same : (name : String) → str_eq name "" ≡ false → normalized name ≡ name
unfolding normalized
normalized_same name h = ground (arith, h)

semaphore-Tally :
    (c running : ℕ) (l l' : CpuPhaseLimiter)
    → semaphore_for_running_loop running l ≡ ok l'
    → Tally c l
    → Tally c l' × (l'.loop ≢ none)
unfolding semaphore_for_running_loop is_loop
semaphore-Tally c running l l' e v = elim (Bool-cases (is_loop running l.loop)) [
  | inl here ↦ let same : l' ≡ l = ground (arith, here) in rw same (v, λ gone. ground (arith, gone))
  | inr away ↦ elim (Bool-cases (not (l.active == 0) || not (l.waiters == 0))) [
    | inl busy ↦ absurd (ground (arith, away, busy))
    | inr idle ↦
        let same : l' ≡ record l { loop = some running; permits = l.capacity } =
          ground (arith, away, idle) in
        rw same (
          record {
            active = v.active;
            waiters = v.waiters;
            capacity = v.capacity;
            permits = λ h. ground (arith, v.capacity, idle);
            acquired = v.acquired;
            active_in = v.active_in;
            waiters_in = v.waiters_in;
            active_normal = v.active_normal;
            waiters_normal = v.waiters_normal;
            names = v.names;
            in_loop = λ h. absurd cc;
          },
          λ h. cc,
        )
  ]
]

result_cases :
    (r : Result CpuError CpuPhaseLimiter)
    → ((e : CpuError) × (r ≡ err e)) ⊎ ((l : CpuPhaseLimiter) × (r ≡ ok l))
result_cases (err e) = inl (e, refl)
result_cases (ok l) = inr (l, refl)

pub acquire-Tally :
    (c running : ℕ) (phase : String) (l : CpuPhaseLimiter)
    → Tally c l
    → Tally c (acquire running phase l).0
unfolding acquire
acquire-Tally c running phase l v = elim (result_cases (semaphore_for_running_loop running l)) [
  | inl (x, e) ↦ rw (e, acquire) v
  | inr (l', e) ↦
      let (w, looped) = semaphore-Tally c running l l' e v in
      let name = normalized phase in
      let named = normalized_named phase in
      rw (e, acquire)
        (record {
          active = ground (arith, w.active, total-append holds l'.phases (waiting_in name ∷ []));
          waiters = ground (arith, w.waiters, total-append waits l'.phases (waiting_in name ∷ []));
          capacity = w.capacity;
          permits = w.permits;
          acquired = w.acquired;
          active_in = λ k.
              ground
                (arith, w.active_in k, total-append (holds_in k) l'.phases (waiting_in name ∷ []));
          waiters_in = λ k. ground (
            arith,
            w.waiters_in k,
            count-add name k 1 l'.waiters_by_phase,
            total-append (waits_in k) l'.phases (waiting_in name ∷ []),
          );
          active_normal = w.active_normal;
          waiters_normal = add-Normal name 1 l'.waiters_by_phase (omega arith) w.waiters_normal;
          names =
              ground
                (arith, w.names, named, total-append odd_name l'.phases (waiting_in name ∷ []));
          in_loop = λ h. absurd (looped h);
        })
]

pub admit-Tally : (c i : ℕ) (l : CpuPhaseLimiter) → Tally c l → Tally c (admit i l).0
unfolding admit stop_waiting
admit-Tally c i l v = elim (found (get_elem? l.phases i)) [
  | nothing e ↦ rw (e, admit) v
  | ended e ↦ rw (e, admit) v
  | holding name e ↦ rw (e, admit) v
  | waiting name e ↦
      let one : 1 ≤ count name l.waiters_by_phase = ground (
        arith,
        v.waiters_in name,
        le-total (waits_in name) l.phases i (waiting_in name) e,
        str_eq_refl name,
      ) in
      elim (Bool-cases (l.permits == 0)) [
        | inl none_left ↦ rw (e, admit, none_left) v
        | inr more ↦
            rw (e, admit, more)
              (record {
                capacity = v.capacity;
                permits = λ h. ground (arith, v.permits h, more);
                active = ground (
                  arith,
                  v.active,
                  total-set holds l.phases i (holding_in name) (waiting_in name) e,
                );
                waiters = ground (
                  arith,
                  v.waiters,
                  total-set waits l.phases i (holding_in name) (waiting_in name) e,
                );
                acquired = ground (arith, v.acquired);
                active_in = λ k. ground (
                  arith,
                  v.active_in k,
                  count-add name k 1 l.active_by_phase,
                  total-set (holds_in k) l.phases i (holding_in name) (waiting_in name) e,
                );
                waiters_in = λ k. ground (
                  arith,
                  v.waiters_in k,
                  count-take_off name k 1 l.waiters_by_phase one v.waiters_normal,
                  total-set (waits_in k) l.phases i (holding_in name) (waiting_in name) e,
                );
                active_normal = add-Normal name 1 l.active_by_phase (omega arith) v.active_normal;
                waiters_normal = take_off-Normal name 1 l.waiters_by_phase one v.waiters_normal;
                names = ground (
                  arith,
                  v.names,
                  total-set odd_name l.phases i (holding_in name) (waiting_in name) e,
                );
                in_loop = λ h. absurd (
                    ground (
                      arith,
                      v.in_loop h,
                      v.waiters,
                      le-total waits l.phases i (waiting_in name) e,
                    ));
              })
      ]
]

pub cancel-Tally : (c i : ℕ) (l : CpuPhaseLimiter) → Tally c l → Tally c (cancel i l).0
unfolding cancel stop_waiting
cancel-Tally c i l v = elim (found (get_elem? l.phases i)) [
  | nothing e ↦ rw (e, cancel) v
  | ended e ↦ rw (e, cancel) v
  | holding name e ↦ rw (e, cancel) v
  | waiting name e ↦
      let one : 1 ≤ count name l.waiters_by_phase = ground (
        arith,
        v.waiters_in name,
        le-total (waits_in name) l.phases i (waiting_in name) e,
        str_eq_refl name,
      ) in
      rw (e, cancel)
        (record {
          active = ground (arith, v.active, total-set holds l.phases i over (waiting_in name) e);
          waiters = ground (arith, v.waiters, total-set waits l.phases i over (waiting_in name) e);
          capacity = v.capacity;
          permits = v.permits;
          acquired = v.acquired;
          active_in = λ k.
              ground
                (arith, v.active_in k, total-set (holds_in k) l.phases i over (waiting_in name) e);
          waiters_in = λ k. ground (
            arith,
            v.waiters_in k,
            count-take_off name k 1 l.waiters_by_phase one v.waiters_normal,
            total-set (waits_in k) l.phases i over (waiting_in name) e,
          );
          active_normal = v.active_normal;
          waiters_normal = take_off-Normal name 1 l.waiters_by_phase one v.waiters_normal;
          names = ground (arith, v.names, total-set odd_name l.phases i over (waiting_in name) e);
          in_loop = λ h. ground (arith, v.in_loop h);
        })
]
