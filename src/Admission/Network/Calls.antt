-- ===== src/Admission/Network/Calls.antt =====
-- Calls of the governor in sequence, and what they give.
use uni_api.Prelude.{
  ℕ, ◌+◌, ◌≡◌, refl, Bool, true, false, ◌&&◌, Option, none, some, List, [], ◌∷◌, ltb, Result, ok,
  err,
}
use uni_api.Admission.Network.{
  Reading, NetworkGovernor, NetworkError, try_acquire, acquire, retry, cancel, release,
  allow_inbound_connection,
}

-- A call of the governor, or a turn of a waiter.
pub data Call : Type 0 where
  tries acquires inbounds : ℕ → Reading → Call
  retries : Bool → ℕ → ℕ → Reading → Call
  cancels releases : ℕ → Call

-- What a call gives: a reservation for an attempt, the leave to keep an inbound socket, or neither.
pub data Outcome : Type 0 where
  opened accepted refused finished : Outcome
  raised : NetworkError → Outcome

abbrev pub reserved : NetworkGovernor × Bool → NetworkGovernor × Outcome
reserved (g, true) = (g, opened)
reserved (g, false) = (g, refused)

abbrev pub retried : NetworkGovernor × Result NetworkError Bool → NetworkGovernor × Outcome
retried (g, ok true) = (g, opened)
retried (g, ok false) = (g, refused)
retried (g, err e) = (g, raised e)

abbrev pub admitted : NetworkGovernor × Bool → NetworkGovernor × Outcome
admitted (g, true) = (g, accepted)
admitted (g, false) = (g, refused)

abbrev pub ended : NetworkGovernor × Option NetworkError → NetworkGovernor × Outcome
ended (g, none) = (g, finished)
ended (g, some e) = (g, raised e)

unfoldable pub step : NetworkGovernor → Call → NetworkGovernor × Outcome
step g (tries now r) = reserved (try_acquire now r g)
step g (acquires now r) = reserved (acquire now r g)
step g (inbounds now r) = admitted (allow_inbound_connection now r g)
step g (retries aborted i now r) = retried (retry aborted i now r g)
step g (cancels i) = ended (cancel i g)
step g (releases k) = ended (release k g)

unfoldable pub run : NetworkGovernor → List Call → NetworkGovernor
run g [] = g
run g (c ∷ cs) = run (step g c).0 cs

abbrev pub attempts : Outcome → ℕ
attempts opened = 1
attempts _ = 0

abbrev pub sockets : Outcome → ℕ
sockets opened = 1
sockets accepted = 1
sockets _ = 0

-- How many of a run's calls gave something.
unfoldable pub given : (Outcome → ℕ) → NetworkGovernor → List Call → ℕ
given count g [] = 0
given count g (c ∷ cs) = count (step g c).1 + given count (step g c).0 cs

-- Whether a call looks at the kernel no later than before a time.
abbrev pub is_before : ℕ → Call → Bool
is_before t (tries now r) = ltb now t
is_before t (acquires now r) = ltb now t
is_before t (inbounds now r) = ltb now t
is_before t (retries aborted i now r) = ltb now t
is_before t (cancels i) = true
is_before t (releases k) = true

unfoldable pub all_before : ℕ → List Call → Bool
all_before t [] = true
all_before t (c ∷ cs) = is_before t c && all_before t cs

-- A place in a list of leases or waiters: none, one that is over, or one that is live.
pub data Found (o : Option Bool) : Type 0 where
  nothing : o ≡ none → Found o
  over : o ≡ some true → Found o
  live : o ≡ some false → Found o

pub found : (o : Option Bool) → Found o
found none = nothing refl
found (some true) = over refl
found (some false) = live refl
