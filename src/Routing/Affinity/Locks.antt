-- ===== src/Routing/Affinity/Locks.antt =====
-- uni_api/routing/search_affinity.py: `session`, which lets one task at a time work on a search
-- session, and `_release_session_entry`. An entry is an identity; `session_locks` says which entry a
-- key has, and `users` how many tasks use an entry. An `asyncio.Lock` is held by at
-- most one task, which is the condition of `acquired`.
pub mod Counts
pub mod Invariant
pub mod Exclusion
use uni_api.Prelude.{
  ℕ, ◌+◌, ◌-◌, String, ◌≡◌, Bool, false, ◌&&◌, Option, none, some, List, [], ◌∷◌, ◌++◌, ◌==◌,
  if◌then◌else◌, update,
}

pub record SessionLocks : Type 0 where
  pub session_locks : String → Option ℕ
  pub users : ℕ → ℕ
  pub created : ℕ

unfoldable pub set_users : ℕ → ℕ → (ℕ → ℕ) → ℕ → ℕ
set_users entry n users j = if entry == j then n else users j

-- The entry that a session gets, `entry.users += 1` included.
unfoldable pub enter_session : String → SessionLocks → SessionLocks × ℕ
enter_session key s = elim (s.session_locks key) [
  | none ↦ (
    record s {
      session_locks = update key (some s.created) s.session_locks;
      users = set_users s.created 1 s.users;
      created = s.created + 1;
    },
    s.created,
  )
  | some entry ↦ (record s { users = set_users entry (s.users entry + 1) s.users }, entry)
]

unfoldable pub is_entry : Option ℕ → ℕ → Bool
is_entry none entry = false
is_entry (some e) entry = e == entry

-- `-` is `max(0, users - 1)`.
unfoldable pub release_session_entry : String → ℕ → SessionLocks → SessionLocks
release_session_entry key entry s =
    let left = s.users entry - 1 in
    let released = record s { users = set_users entry left s.users } in
    if left == 0 && is_entry (s.session_locks key) entry
    then record released { session_locks = update key none s.session_locks }
    else released

-- Where a task stands in `session`: before `acquire` has returned, in the body, and after the lock is
-- given back.
pub data Phase : Type 0 where
  waiting holding leaving : Phase

pub record Task : Type 0 where
  pub key : String
  pub entry : ℕ
  pub phase : Phase

abbrev pub task : String → ℕ → Phase → Task
task key entry phase = record { key = key; entry = entry; phase = phase }

pub record State : Type 0 where
  pub locks : SessionLocks
  pub tasks : List Task

unfoldable pub start : State
start = record {
  locks = record { session_locks = λ key. none; users = λ entry. 0; created = 0 };
  tasks = [];
}

-- How many of the tasks that use an entry hold its lock.
unfoldable pub holder_count : ℕ → List Task → ℕ
holder_count entry [] = 0
holder_count entry (t ∷ ts) =
    let rest = holder_count entry ts in
    if t.entry == entry then elim t.phase [ holding ↦ rest + 1 | _ ↦ rest ] else rest

unfoldable pub enter : String → State → State
enter key s =
    let (locks, entry) = enter_session key s.locks in
    record { locks = locks; tasks = task key entry waiting ∷ s.tasks }

-- The steps of the tasks. A task that is cancelled while it waits leaves without the lock.
pub data Step : State → State → Type 0 where
  enters : (s : State) (key : String) → Step s (enter key s)
  acquired :
      (locks : SessionLocks) (key : String) (entry : ℕ) (before after : List Task)
      → holder_count entry (before ++ after) ≡ 0
      → Step
          (record { locks = locks; tasks = before ++ task key entry waiting ∷ after })
          (record { locks = locks; tasks = before ++ task key entry holding ∷ after })
  cancelled :
      (locks : SessionLocks) (key : String) (entry : ℕ) (before after : List Task)
      → Step
          (record { locks = locks; tasks = before ++ task key entry waiting ∷ after })
          (record { locks = locks; tasks = before ++ task key entry leaving ∷ after })
  exits :
      (locks : SessionLocks) (key : String) (entry : ℕ) (before after : List Task)
      → Step
          (record { locks = locks; tasks = before ++ task key entry holding ∷ after })
          (record { locks = locks; tasks = before ++ task key entry leaving ∷ after })
  cleans :
      (locks : SessionLocks) (key : String) (entry : ℕ) (before after : List Task)
      → Step
          (record { locks = locks; tasks = before ++ task key entry leaving ∷ after })
          (record { locks = release_session_entry key entry locks; tasks = before ++ after })

pub data Reach : State → Type 0 where
  started : Reach start
  then_step : (s t : State) → Reach s → Step s t → Reach t
