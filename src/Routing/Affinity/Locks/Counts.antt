-- ===== src/Routing/Affinity/Locks/Counts.antt =====
-- The tasks of `session`, counted by their entry and by their key.
use uni_api.Prelude.{
  ℕ, ◌+◌, ◌≤◌, String, ◌≡◌, refl, ◌∙◌, ◌≢◌, inl, inr, true, false, Option, none, some, List, [],
  ◌∷◌, ◌++◌, arith, ◌==◌, if◌then◌else◌, ==_iff, Bool-cases, str_eq, str_eq_iff, update, update_ne,
}
use uni_api.Routing.Affinity.Locks.{Phase, holding, Task, task, holder_count}

-- The tasks that use an entry.
unfoldable pub user_count : ℕ → List Task → ℕ
user_count entry [] = 0
user_count entry (t ∷ ts) =
    let rest = user_count entry ts in if t.entry == entry then rest + 1 else rest

-- The tasks of a key, and those that hold its lock.
unfoldable pub session_count : String → List Task → ℕ
session_count key [] = 0
session_count key (t ∷ ts) =
    let rest = session_count key ts in if str_eq t.key key then rest + 1 else rest

unfoldable pub working_count : String → List Task → ℕ
working_count key [] = 0
working_count key (t ∷ ts) =
    let rest = working_count key ts in
    if str_eq t.key key then elim t.phase [ holding ↦ rest + 1 | _ ↦ rest ] else rest

-- Every task uses the entry that its key has.
unfoldable pub AllOwned : (String → Option ℕ) → List Task → Type 0
AllOwned locks [] = Unit
AllOwned locks (t ∷ ts) = (locks t.key ≡ some t.entry) × AllOwned locks ts

-- Counting a task that stands between others
pub user_count_at :
    (entry : ℕ) (t : Task) (before after : List Task)
    → user_count entry (before ++ t ∷ after)
      ≡ user_count entry (t ∷ []) + user_count entry (before ++ after)
unfolding user_count
user_count_at entry t [] after = ground arith
user_count_at entry t (u ∷ before) after = ground (arith, user_count_at entry t before after)

pub holder_count_at :
    (entry : ℕ) (t : Task) (before after : List Task)
    → holder_count entry (before ++ t ∷ after)
      ≡ holder_count entry (t ∷ []) + holder_count entry (before ++ after)
unfolding holder_count
holder_count_at entry t [] after = ground arith
holder_count_at entry t (u ∷ before) after = ground (arith, holder_count_at entry t before after)

-- A key that no task has may get an entry.
pub AllOwned-update :
    (locks : String → Option ℕ) (key : String) (entry : ℕ) (ts : List Task)
    → locks key ≡ none
    → AllOwned locks ts
    → AllOwned (update key (some entry) locks) ts
unfolding AllOwned
AllOwned-update locks key entry [] h p = tt
AllOwned-update locks key entry (t ∷ ts) h p =
    let other : key ≢ t.key = λ same. absurd (cc (h, same, p.0)) in
    (update_ne key t.key (some entry) locks other ∙ p.0, AllOwned-update locks key entry ts h p.1)

-- A key's entry that no task uses may go.
pub AllOwned_drop :
    (locks : String → Option ℕ) (key : String) (entry : ℕ) (ts : List Task)
    → locks key ≡ some entry
    → user_count entry ts ≡ 0
    → AllOwned locks ts
    → AllOwned (update key none locks) ts
unfolding AllOwned user_count
AllOwned_drop locks key entry [] h z p = tt
AllOwned_drop locks key entry (t ∷ ts) h z p =
    let foreign : (t.entry == entry) ≡ false = ground (arith, z) in
    let tail : user_count entry ts ≡ 0 = ground (arith, z) in
    let other : key ≢ t.key = λ same.
      let both : t.entry ≡ entry = cc (h, same, p.0) in absurd (ground (arith, foreign, both)) in
    (update_ne key t.key none locks other ∙ p.0, AllOwned_drop locks key entry ts h tail p.1)

-- The holders of a key hold its entry.
pub working_le :
    (locks : String → Option ℕ) (key : String) (entry : ℕ) (ts : List Task)
    → locks key ≡ some entry
    → AllOwned locks ts
    → working_count key ts ≤ holder_count entry ts
unfolding AllOwned working_count holder_count
working_le locks key entry [] h p = omega arith
working_le locks key entry (t ∷ ts) h p =
    let rest = working_le locks key entry ts h p.1 in
    elim (Bool-cases (str_eq t.key key)) [
      | inl e ↦
          let same : t.key ≡ key = (str_eq_iff t.key key).0 e in
          let both : t.entry ≡ entry = cc (h, same, p.0) in ground (arith, e, both, rest)
      | inr e ↦ ground (arith, e, rest)
    ]

pub working-none :
    (locks : String → Option ℕ) (key : String) (ts : List Task)
    → locks key ≡ none
    → AllOwned locks ts
    → session_count key ts ≡ 0
unfolding AllOwned session_count
working-none locks key [] h p = refl
working-none locks key (t ∷ ts) h p =
    let rest = working-none locks key ts h p.1 in
    let other : str_eq t.key key ≡ false = elim (Bool-cases (str_eq t.key key)) [
      | inl e ↦ let same : t.key ≡ key = (str_eq_iff t.key key).0 e in absurd (cc (h, same, p.0))
      | inr e ↦ e
    ] in
    ground (arith, other, rest)

-- The phase of a task
pub user_count_phase :
    (entry : ℕ) (key : String) (e : ℕ) (p q : Phase) (before after : List Task)
    → user_count entry (before ++ task key e p ∷ after)
      ≡ user_count entry (before ++ task key e q ∷ after)
unfolding user_count
user_count_phase entry key e p q [] after = refl
user_count_phase entry key e p q (t ∷ before) after =
    ground (arith, user_count_phase entry key e p q before after)

pub AllOwned_phase :
    (locks : String → Option ℕ) (key : String) (e : ℕ) (p q : Phase) (before after : List Task)
    → AllOwned locks (before ++ task key e p ∷ after)
    → AllOwned locks (before ++ task key e q ∷ after)
unfolding AllOwned
AllOwned_phase locks key e p q [] after h = h
AllOwned_phase locks key e p q (t ∷ before) after h =
    (h.0, AllOwned_phase locks key e p q before after h.1)

pub AllOwned-without :
    (locks : String → Option ℕ) (t : Task) (before after : List Task)
    → AllOwned locks (before ++ t ∷ after)
    → (locks t.key ≡ some t.entry) × AllOwned locks (before ++ after)
unfolding AllOwned
AllOwned-without locks t [] after h = h
AllOwned-without locks t (u ∷ before) after h =
    let rest = AllOwned-without locks t before after h.1 in (rest.0, (h.0, rest.1))

-- The users of the entry of a key are its tasks.
pub sessions_ge :
    (locks : String → Option ℕ) (key : String) (entry : ℕ) (ts : List Task)
    → ((j : String) → locks j ≡ some entry → j ≡ key)
    → AllOwned locks ts
    → user_count entry ts ≤ session_count key ts
unfolding AllOwned session_count user_count
sessions_ge locks key entry [] one p = omega arith
sessions_ge locks key entry (t ∷ ts) one p =
    let rest = sessions_ge locks key entry ts one p.1 in
    elim (Bool-cases (t.entry == entry)) [
      | inl e ↦
          let same : t.entry ≡ entry = (==_iff t.entry entry).0 e in
          let here : t.key ≡ key = one t.key (cc (p.0, same)) in
          let named : str_eq t.key key ≡ true = (str_eq_iff t.key key).1 here in
          ground (arith, e, named, rest)
      | inr e ↦ ground (arith, e, rest)
    ]

pub working-sessions_le :
    (key : String) (ts : List Task) → working_count key ts ≤ session_count key ts
unfolding working_count session_count
working-sessions_le key [] = omega arith
working-sessions_le key (t ∷ ts) = ground (arith, working-sessions_le key ts)
