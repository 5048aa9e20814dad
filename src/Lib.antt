-- ===== src/Lib.antt =====
-- A model of the core logic of uni-api, a gateway that sends requests for language models to many
-- providers, with theorems about it.
--
-- The parts and their files:
--
-- * Rate limits and API keys (uni_api/rate_limit). RateLimit/Policy models policy.py: the rules of a
--   policy and `rules_for`, the choice of the rules for a model. RateLimit/Windows and RateLimit/State
--   model state.py: the sliding windows of one item and model, then `RateLimitState` with its nested
--   dictionaries as functions. RateLimit/KeyPool models key_pool.py, whose `next` walks the keys of a
--   provider and asks the state about each. A call's state is taken and returned explicitly.
-- * The health of a route (uni_api/routing/health.py), Routing/Health: the circuit breaker that keeps
--   requests away from a provider and model that answered 403 or 404 too often.
-- * The order of the providers (uni_api/routing/core.py). Routing/Weights models the two schedules by weight,
--   `weighted_round_robin` and `lottery_scheduling`. Routing/Plan models `RoutingPlan`, which walks the
--   providers of one request, asks the key pool of each, and retries; a refresh of the providers and
--   the restriction to one are operations on it.
-- * The sessions of searches (uni_api/routing/search_affinity.py), Routing/Affinity: the bindings, which
--   expire and are bounded, and in Routing/Affinity/Locks the reference-counted locks of the sessions as
--   a step relation of tasks.
-- * The queues between a provider's stream and the client (uni_api/streaming/bounded_queue.py).
--   Streaming/Budget models `RetainedByteBudget`, the bytes that all queues share, and Streaming/Queue
--   models `ByteBoundedQueue`, which takes its leases from the budget and gives them back.
-- * Admission by resources (uni_api/admission). Admission/Memory models memory.py, the parent budget of all
--   retained bytes, which the byte budget of the queues asks; Admission/Network models network.py,
--   the governor that holds new connections back while descriptors or ports are scarce;
--   Admission/Cpu models cpu.py, the tokens of callbacks that run in executors. Admission/Gate models
--   `BoundedAdmissionGate` of core.py, which hands out slots in the order of arrival: its state and calls,
--   and in Admission/Gate/Steps the steps of the tasks that hold leases, wait, or give up;
--   Admission/FairQueue models `_FairBodyMemoryWaitQueue`, where the tenants that wait for memory take turns.
--
-- How the code is read: a reading of a clock is an argument, a natural number of microseconds, since the
-- language has no floats; times are compared after moving the subtraction to the other side, so that
-- nothing is lost where a difference would be negative. Dictionaries are functions where the source reads
-- them with a default, and association lists in the order of insertion elsewhere. A raised
-- exception is a value of `Result`. The locks make each method one step, and sequences of calls stand for
-- the interleavings of tasks. A coroutine is cut at its awaits: its start is one operation, and each
-- wake-up, time-out or cancellation of the waiting task is another, on a task named by its place in a
-- list; the lock of a condition is taken at once. The loops that are not over a list recur on a number:
-- `next` of the key pool on the rounds, as many as there are keys, `next_provider` on the slots that are
-- left, the weighted round robin on its selections, the promotion of the fair queue on its turns and
-- waiters. The theorems on them show that no more rounds are needed.
--
-- Parameters: the random shuffle, the keys that a reorder loads, the fingerprint of a key,
-- the hash of a route in a snapshot, the answers of the memory governor to the byte budget,
-- the samples of the kernel, whether a quotient of floats is greater than another, the tickets of the
-- lottery, the providers that a resolver gives and what their key pools answer, the order in which a
-- semaphore admits, and the products with a float in the governors of memory and network.
--
-- Not modelled: the log messages, the environment variables, the creation and cancellation of the
-- asyncio task behind a reorder (its start is a flag and its end an operation), the parser of rule texts,
-- the resolver of a request's providers, the digests of search sessions, the waiting times of leases, and
-- all parts of the repository that are not named above. Texts are ASCII where white space is stripped.
pub mod Prelude
pub mod RateLimit
pub mod Routing
pub mod Streaming
pub mod Admission
pub mod Tests
