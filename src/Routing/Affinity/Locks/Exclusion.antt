-- ===== src/Routing/Affinity/Locks/Exclusion.antt =====
-- One task at a time works on a search session, and no entry outlives its tasks.
use uni_api.Prelude.{
  ℕ, ◌-◌, ◌≤◌, String, ◌≡◌, refl, ◌↔◌, inl, inr, true, false, Option, none, some, List, ◌∷◌, ◌++◌,
  arith, ◌==◌, ==_iff, Bool-cases, Option-cases, str_eq, str_eq_iff, update,
}
use uni_api.Routing.Affinity.Locks.Counts.{
  user_count, sessions_ge, working-sessions_le, session_count, working_count, AllOwned,
  user_count_at, holder_count_at, AllOwned_drop, working_le, working-none, AllOwned-without,
}
use uni_api.Routing.Affinity.Locks.{
  SessionLocks, set_users, is_entry, release_session_entry, waiting, holding, leaving, Task, task,
  State, start, holder_count, Step, enters, acquired, cancelled, exits, cleans, Reach, started,
  then_step,
}
use uni_api.Routing.Affinity.Locks.Invariant.{
  IsState, change-IsState, leave_few, acquire_few, enter-IsState,
}

kept :
    (locks : String → Option ℕ) (key k : String) (entry : ℕ)
    → update key none locks k ≡ some entry
    → (str_eq key k ≡ false) × (locks k ≡ some entry)
unfolding update
kept locks key k entry h = ground (arith, h)

-- The last task of an entry takes it from its key.
clean_last :
    (locks : SessionLocks) (key : String) (e : ℕ) (before after : List Task)
    → IsState (record { locks = locks; tasks = before ++ task key e leaving ∷ after })
    → (locks.users e - 1 == 0) ≡ true
    → IsState (record { locks = release_session_entry key e locks; tasks = before ++ after })
unfolding release_session_entry AllOwned user_count holder_count set_users is_entry update
clean_last locks key e before after i last =
    let (own, rest) =
      AllOwned-without locks.session_locks (task key e leaving) before after i.owned in
    let mine : (e == e) ≡ true = ground arith in
    let count = λ (entry : ℕ). user_count_at entry (task key e leaving) before after in
    let unused : user_count e (before ++ after) ≡ 0 = ground (arith, last, i.users e, count e) in
    rw (release_session_entry, last, own, mine)
      (record {
        owned = AllOwned_drop locks.session_locks key e (before ++ after) own unused rest;
        users = λ entry. ground (arith, i.users entry, count entry, last, i.users e, count e);
        used = λ k entry g.
            let (ne, held) = kept locks.session_locks key k entry g in
            let other : (e == entry) ≡ false = elim (Bool-cases (e == entry)) [
              | inl h ↦
                  let same : e ≡ entry = (==_iff e entry).0 h in
                  let one : key ≡ k = i.apart key k e own (cc (held, same)) in
                  absurd (cc (ne, (str_eq_iff key k).1 one))
              | inr h ↦ h
            ] in
            ground (arith, other, i.used k entry held);
        apart = λ j k entry g h.
            i.apart j k entry (kept locks.session_locks key j entry g).1
              (kept locks.session_locks key k entry h).1;
        fresh = λ entry g. ground (arith, g, i.fresh entry, last);
        single = λ entry.
            ground (arith, i.single entry, holder_count_at entry (task key e leaving) before after);
      })

clean_more :
    (locks : SessionLocks) (key : String) (e : ℕ) (before after : List Task)
    → IsState (record { locks = locks; tasks = before ++ task key e leaving ∷ after })
    → (locks.users e - 1 == 0) ≡ false
    → IsState (record { locks = release_session_entry key e locks; tasks = before ++ after })
unfolding release_session_entry AllOwned user_count holder_count set_users is_entry
clean_more locks key e before after i more =
    let (own, rest) =
      AllOwned-without locks.session_locks (task key e leaving) before after i.owned in
    let count = λ (entry : ℕ). user_count_at entry (task key e leaving) before after in
    rw (release_session_entry, more)
      (record {
        owned = rest;
        users = λ entry. ground (arith, i.users entry, count entry);
        used = λ k entry g. ground (arith, more, i.used k entry g);
        apart = i.apart;
        fresh = λ entry g. ground (arith, g, i.fresh entry, more);
        single = λ entry.
            ground (arith, i.single entry, holder_count_at entry (task key e leaving) before after);
      })

clean-IsState :
    (locks : SessionLocks) (key : String) (e : ℕ) (before after : List Task)
    → IsState (record { locks = locks; tasks = before ++ task key e leaving ∷ after })
    → IsState (record { locks = release_session_entry key e locks; tasks = before ++ after })
clean-IsState locks key e before after i = elim (Bool-cases (locks.users e - 1 == 0)) [
  | inl last ↦ clean_last locks key e before after i last
  | inr more ↦ clean_more locks key e before after i more
]

Step-IsState : (s t : State) → Step s t → IsState s → IsState t
Step-IsState _ _ (enters s key) i = enter-IsState key s i
Step-IsState _ _ (acquired locks key entry before after free) i =
    change-IsState locks key entry waiting holding before after i
      (acquire_few locks key entry before after i free)
Step-IsState _ _ (cancelled locks key entry before after) i =
    change-IsState locks key entry waiting leaving before after i
      (leave_few locks key entry waiting before after i)
Step-IsState _ _ (exits locks key entry before after) i =
    change-IsState locks key entry holding leaving before after i
      (leave_few locks key entry holding before after i)
Step-IsState _ _ (cleans locks key entry before after) i =
    clean-IsState locks key entry before after i

start-IsState : IsState start
unfolding start AllOwned user_count holder_count
start-IsState = record {
  owned = tt;
  users = λ entry. refl;
  used = λ key entry h. absurd (cc h);
  apart = λ j k entry h g. absurd (cc h);
  fresh = λ entry h. refl;
  single = λ entry. omega arith;
}

Reach-IsState : (s : State) → Reach s → IsState s
Reach-IsState _ started = start-IsState
Reach-IsState _ (then_step s t r step) = Step-IsState s t step (Reach-IsState s r)

-- At most one task works on a search session at a time.
pub Reach-working_count : (s : State) (key : String) → Reach s → working_count key s.tasks ≤ 1
Reach-working_count s key r =
    let i = Reach-IsState s r in
    elim (Option-cases (s.locks.session_locks key)) [
      | inl h ↦
          let idle = working-none s.locks.session_locks key s.tasks h i.owned in
          omega (arith, idle, working-sessions_le key s.tasks)
      | inr (entry, h) ↦
          omega
            (arith, i.single entry, working_le s.locks.session_locks key entry s.tasks h i.owned)
    ]

-- A key has an entry exactly while tasks are in a session of it.
pub Reach-session_count :
    (s : State) (key : String)
    → Reach s
    → (s.locks.session_locks key ≡ none) ↔ (session_count key s.tasks ≡ 0)
Reach-session_count s key r =
    let i = Reach-IsState s r in
    (
      λ h. working-none s.locks.session_locks key s.tasks h i.owned,
      λ h. elim (Option-cases (s.locks.session_locks key)) [
        | inl e ↦ e
        | inr (entry, e) ↦ absurd (
            omega (
              arith,
              h,
              i.used key entry e,
              i.users entry,
              sessions_ge s.locks.session_locks key entry s.tasks (λ j g. i.apart j key entry g e)
                  i.owned,
            ))
      ],
    )
