-- ===== src/Routing/Affinity/Locks/Invariant.antt =====
-- The state of the session locks: each task uses the entry of its key, which counts its tasks.
use uni_api.Prelude.{
  ℕ, ◌≤◌, ◌<◌, String, ◌≡◌, ◌∙◌, inl, inr, none, some, List, ◌∷◌, ◌++◌, arith, ◌==◌, ==_iff,
  Bool-cases, Option-cases, str_eq, str_eq_iff, update, update_self,
}
use uni_api.Routing.Affinity.Locks.Counts.{
  user_count, AllOwned, holder_count_at, AllOwned-update, user_count_phase, AllOwned_phase,
}
use uni_api.Routing.Affinity.Locks.{
  SessionLocks, set_users, enter_session, Phase, waiting, holding, leaving, Task, task, State,
  holder_count, enter,
}

pub record IsState (s : State) : Type 0 where
  pub owned : AllOwned s.locks.session_locks s.tasks
  pub users : (entry : ℕ) → s.locks.users entry ≡ user_count entry s.tasks
  pub used :
      (key : String) (entry : ℕ) → s.locks.session_locks key ≡ some entry → 0 < s.locks.users entry
  pub apart :
      (j k : String) (entry : ℕ)
      → s.locks.session_locks j ≡ some entry
      → s.locks.session_locks k ≡ some entry
      → j ≡ k
  pub fresh : (entry : ℕ) → s.locks.created ≤ entry → s.locks.users entry ≡ 0
  pub single : (entry : ℕ) → holder_count entry s.tasks ≤ 1

pub change-IsState :
    (locks : SessionLocks) (key : String) (e : ℕ) (p q : Phase) (before after : List Task)
    → IsState (record { locks = locks; tasks = before ++ task key e p ∷ after })
    → ((entry : ℕ) → holder_count entry (before ++ task key e q ∷ after) ≤ 1)
    → IsState (record { locks = locks; tasks = before ++ task key e q ∷ after })
change-IsState locks key e p q before after i few = record {
  owned = AllOwned_phase locks.session_locks key e p q before after i.owned;
  users = λ entry. i.users entry ∙ user_count_phase entry key e p q before after;
  used = i.used;
  apart = i.apart;
  fresh = i.fresh;
  single = few;
}

pub leave_few :
    (locks : SessionLocks) (key : String) (e : ℕ) (p : Phase) (before after : List Task)
    → IsState (record { locks = locks; tasks = before ++ task key e p ∷ after })
    → (entry : ℕ) → holder_count entry (before ++ task key e leaving ∷ after) ≤ 1
unfolding holder_count
leave_few locks key e p before after i entry = ground (
  arith,
  i.single entry,
  holder_count_at entry (task key e p) before after,
  holder_count_at entry (task key e leaving) before after,
)

pub acquire_few :
    (locks : SessionLocks) (key : String) (e : ℕ) (before after : List Task)
    → IsState (record { locks = locks; tasks = before ++ task key e waiting ∷ after })
    → holder_count e (before ++ after) ≡ 0
    → (entry : ℕ) → holder_count entry (before ++ task key e holding ∷ after) ≤ 1
unfolding holder_count
acquire_few locks key e before after i free entry =
    let was = holder_count_at entry (task key e waiting) before after in
    let now = holder_count_at entry (task key e holding) before after in
    elim (Bool-cases (e == entry)) [
      | inl h ↦
          let same : e ≡ entry = (==_iff e entry).0 h in
          let none_holds : holder_count entry (before ++ after) ≡ 0 = cc (free, same) in
          ground (arith, none_holds, now, h)
      | inr h ↦ ground (arith, was, now, h, i.single entry)
    ]

older :
    (s : State) (key : String) (entry : ℕ)
    → IsState s
    → s.locks.session_locks key ≡ some entry
    → entry < s.locks.created
older s key entry i h = ground (arith, i.used key entry h, i.fresh entry)

-- A key that gets a new entry is the only one that has it.
new_apart :
    (key : String) (s : State)
    → IsState s
    → (j k : String) (entry : ℕ)
    → update key (some s.locks.created) s.locks.session_locks j ≡ some entry
    → update key (some s.locks.created) s.locks.session_locks k ≡ some entry
    → j ≡ k
unfolding update
new_apart key s i j k entry hj hk = elim (Bool-cases (str_eq key j)) [
  | inl ej ↦ elim (Bool-cases (str_eq key k)) [
    | inl ek ↦ cc ((str_eq_iff key j).0 ej, (str_eq_iff key k).0 ek)
    | inr ek ↦
        let new : some s.locks.created ≡ some entry = rw (ej) at hj in
        let old : s.locks.session_locks k ≡ some entry = rw (ek) at hk in
        absurd (ground (arith, older s k entry i old, new))
  ]
  | inr ej ↦ elim (Bool-cases (str_eq key k)) [
    | inl ek ↦
        let new : some s.locks.created ≡ some entry = rw (ek) at hk in
        let old : s.locks.session_locks j ≡ some entry = rw (ej) at hj in
        absurd (ground (arith, older s j entry i old, new))
    | inr ek ↦ i.apart j k entry (rw (ej) at hj) (rw (ek) at hk)
  ]
]

enter_new :
    (key : String) (s : State)
    → IsState s
    → s.locks.session_locks key ≡ none
    → IsState (enter key s)
unfolding enter enter_session AllOwned user_count holder_count set_users update
enter_new key s i h =
    let created = s.locks.created in
    rw (enter, enter_session, h)
      (record {
        owned = (
          update_self key (some created) s.locks.session_locks,
          AllOwned-update s.locks.session_locks key created s.tasks h i.owned,
        );
        users = λ entry. ground (arith, i.users entry, i.fresh entry);
        used = λ k entry g. ground (arith, g, i.used k entry);
        apart = new_apart key s i;
        fresh = λ entry g. ground (arith, g, i.fresh entry);
        single = λ entry. ground (arith, i.single entry);
      })

enter_known :
    (key : String) (entry : ℕ) (s : State)
    → IsState s
    → s.locks.session_locks key ≡ some entry
    → IsState (enter key s)
unfolding enter enter_session AllOwned user_count holder_count set_users
enter_known key entry s i h =
    rw (enter, enter_session, h)
      (record {
        owned = (h, i.owned);
        users = λ e. ground (arith, i.users e, i.users entry);
        used = λ k e g. ground (arith, g, i.used k e);
        apart = i.apart;
        fresh = λ e g. ground (arith, g, i.fresh e, older s key entry i h);
        single = λ e. ground (arith, i.single e);
      })

pub enter-IsState : (key : String) (s : State) → IsState s → IsState (enter key s)
enter-IsState key s i = elim (Option-cases (s.locks.session_locks key)) [
  | inl h ↦ enter_new key s i h
  | inr (entry, h) ↦ enter_known key entry s i h
]
