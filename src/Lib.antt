-- ===== src/Lib.antt =====
-- A model of whooshd, a local inference broker: which chat requests it admits, in what order it
-- runs the ones that wait, and how it keeps the execution slots that it hands out within its limit.
--
-- The parts and where they are modelled (paths from the repository's root):
--   * Config: the settings of whooshd/config.py, as one record that every operation reads.
--   * Scheduler: whooshd/scheduler.py. `choose_next` and its two policies return the new scheduler
--     beside the decision. Scheduler/Choice is about one decision, Scheduler/Fairness about the
--     bypass counts over successive selections.
--   * Runtime: the lifecycle half of whooshd/runtime/__init__.py, with the states and records of
--     whooshd/contracts.py. A method takes the state and returns the new one. Runtime/Slots counts
--     the slots that each operation takes and frees, Runtime/Moves follows a granted request.
--   * Capacity: whooshd/capacity_context.py (Capacity/Cost, Capacity/Budget),
--     whooshd/capacity_profile.py (Capacity/Profile) and whooshd/capacity_controller.py
--     (Capacity/Controller with its cache of profiles in Capacity/Controller/Cache, and the model
--     identities in Capacity/Identity).
--   * Admission: whooshd/admission.py. Admission/Contract is about the results as such,
--     Admission/Capacity about what they say of capacity.
--   * Batching: whooshd/batching.py, the analysis of which queued requests could run together; the
--     loop over the candidates takes their number as fuel.
--   * Queue: whooshd/queue.py. A caller's three callables act on a state of the caller's own.
--     Queue/Entries has the laws of the entries, Queue/Grants is about `select_and_dequeue`,
--     Queue/Waiting about a round of `wait_for_execution` for its own request, Queue/Rounds about
--     what it changes for the others. Queue/Batches has the batch groups, claims and results.
--   * Service: the handler of /v1/chat/completions and the cancellation endpoint of
--     whooshd/app.py, cut where they wait. Service/Effects and Service/Starts say what each
--     operation of the runtime does to the slots, Service/Limit and Service/Steps put every order
--     of the callers' steps together, Service/Queued follows single queued requests.
--     Service/LiveBatch is live batching, with Outcomes about it.
--   * Threadwake: whooshd/runtime/threadwake. Index and Operations are index.py, with Tips for the
--     tips of threads; Order, Eviction, Soundness (over the calls of Calls), Reads and Stores are
--     about it. KvLifecycle is kv_lifecycle.py, with Window and Totals about its ring buffer. Policy
--     is policy.py, with Verdicts about it. Metadata is metadata.py, with Merging about it. Graph is
--     compiler.py and keys.py: Prefixes is about the stable prefix, Growth about longer conversations,
--     Keys about the cache key, Shift about metadata and tools. Reuse is `execute_ephemeral` of
--     manager.py, with Fallback and Rehits about it.
--   * Continuous: whooshd/continuous_batching.py, with the streams of
--     whooshd/continuous_streaming.py in Streaming and the scheduler of
--     whooshd/continuous_scheduler.py in Scheduler. Channels, Events and Traces are about one
--     request's stream; Moves, Phases, Ticks, Lives and Starvation are about one request's life.
--   * Guarded: whooshd/guarded_adapter_batching.py, with Groups about it.
--   * Boundary: whooshd/backend_request_policy.py, with Sanitized about it.
--   * Routing: whooshd/routing.py, over the model registry of whooshd/registry.py in Registry.
--     Choices, Validity and Members are about the adapter that a model is given.
--   * Examples: small inputs for the theorems.
-- The handler asks admission, admission asks the controller, and the queue asks the scheduler; the
-- queue's callables read and reserve the slots of the runtime.
--
-- How the code is read: identifiers are strings, compared for equality. Times are natural numbers
-- of one unit, and settings are natural numbers. A call between two awaits is one step, which is
-- how asyncio runs it. The entry object that the queue shares with its caller is one value, and its
-- `granted` flag is kept by the identifier of the request. Messages, details and log texts are left
-- out, and so are the observability snapshots and `upstream_request_id`. A field that Python takes
-- for false is `none`. `json.dumps`, the operations on texts in Boundary, the tokenizer, the file
-- system, the host's memory, and the identifier that a new request gets are parameters, and so are
-- the SHA-256 digest, the identifiers of events and the adapter that holds the cached state.
-- Recursion is structural, also in the eviction, whose loop pops the order of use; only the loop of
-- the batch analysis runs on fuel, which is the number of candidates, and Batching/Groups shows
-- that this is enough. A loop that waits is given as its single rounds.
--
-- Not modelled: warm-up and model lists, the external inventory and the stores of models, the
-- adapters and the responses, the snapshots of ThreadWake, and the token step scheduler and the live
-- prototype of continuous batching.
pub mod Base
pub mod Config
pub mod Scheduler
pub mod Runtime
pub mod Capacity
pub mod Admission
pub mod Batching
pub mod Queue
pub mod Service
pub mod Threadwake
pub mod Continuous
pub mod Guarded
pub mod Boundary
pub mod Routing
mod Examples
