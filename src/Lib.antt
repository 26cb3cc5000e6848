-- ===== src/Lib.antt =====
-- execution-engine: a worker that takes dispatched runs, queues and executes them with an agent
-- loop, keeps their state in Redis, and delivers their events and results to a control plane.
--
-- The parts and the files that model them (paths from the root of the repository):
-- - Durability: execution_engine/durability.py. Durability/Records has the stored records,
--   Durability/Redis the commands that the store calls, as an interface with their documented
--   laws, and Durability/Memory an implementation of it by association lists. Durability/Store
--   has the run records, the execution locks, the authority and the resume requests (`get_run`,
--   `reserve_run`, `acquire_run_lock`, `renew_run_locks`, `release_run_lock`, `upsert_run`,
--   `iter_queued_runs` and the others, by their names), Durability/Outbox the events, and
--   Durability/Commits the terminal commits. Durability/Ownership has the table of
--   owners that the locks refine. Frames, Locks, Runs, Delivery and Acknowledged hold the rest.
-- - Registry: execution_engine/run_registry.py, run_scheduling.py and run_draining.py.
--   Registry/Identity has `RunStatus` and the identity of a run; Registry/State the registry, whose
--   run objects live on a heap (`objects`) because tasks and dictionaries share them;
--   Registry/Scheduling admission, resumption and `persist_state`; Registry/Draining the drain;
--   Registry/Completion what follows an execution; Registry/Lifecycle `get_or_create`;
--   Registry/Recovery the claim under which durable work is replayed, Registry/Replaying the replay
--   of events and terminal commits, Registry/Restart the runs that a restart has left active.
--   Registry/Steps makes each operation a step of the event loop, so that interleavings of tasks
--   are sequences of steps. Bounds, Steps/Reachable, Idempotency, Fencing, Persistence and Replays
--   hold the proofs.
-- - Agent: the policies of execution_engine/agent: tool_argument_retry.py (Agent/Retry),
--   skill_loading.py (Agent/Skills), stream_usage.py (Agent/Usage) and the evidence ledger of
--   tool_context.py (Agent/Evidence); and execution_engine/reasoning_summary_events.py
--   (Agent/Summary).
-- - Transcript: execution_engine/transcript.py, the check of a conversation before it is sent to a
--   provider (`validate_sequence`), and its grammar; Transcript/Compaction has `compact_transcript`
--   of execution_engine/agent/gateway_request.py.
-- - Capacity: execution_engine/capacity.py, the authority of an execution: Capacity/Lease has its
--   deadline, the request hook and a round of renewal, Capacity/Dispatch what an answer of the
--   control plane makes of a run, with its effect on the registry.
-- - React: execution_engine/agent/react_engine.py with react_transcript.py, the loop between the
--   model and the tools. React/State has the local variables of `run` as a record, React/Calls the
--   calls of one turn, React/Answer one answer of the model, React/Loop the rounds, the final answer,
--   the checkpoint and its resumption, React/Start the start of a run. What the model, the tools,
--   the clock and a cancellation do is an argument (`Round`, `CallTurn`, `Read`), so a theorem holds
--   for all of it. `closed_calls` and `open_calls` are `active_calls` before and from
--   `next_index`. Effects and Answered say what a call and an answer leave of the state,
--   Invariants has the rule for what the loop keeps; Linked, Budget, Fuel, Run and Finish hold the
--   proofs. The policies that it calls are those of Agent and Transcript.
-- - Authority: execution_engine/worker_tool_authority.py, which tools a run may use
--   (`build_authorized_tool_routing`, `platform_function_mappings`).
-- - Validation: the checks of execution_engine/agent before a tool call. tool_schema_rules.py is the
--   validation of its arguments: Validation/Json has the values as Python holds them, Schema/Rules
--   and Schema/Visit the walk of a value and a schema (`visit`, `validate_tool_arguments`),
--   Schema/Typing what conformance means without lists of errors, Schema/Soundness which schemas
--   raise no exception; the other modules of Schema hold the proofs, and Exact the result.
--   tool_validation.py is in Validation/Remediation: Targets has the search for the evidence of a
--   patch, Preconditions the comparison of its changes with that evidence, Preapproval the decision
--   (`preapproval_validation`, `remediation_preapproval_validation`); Chosen, Holds and Supported hold
--   the proofs.
-- - Worker: execution_engine/worker.py and worker_cleanup.py, one execution of a run
--   (`_do_execute_run`, `_finalize_run`). Worker/State has the run with the local variables, and the
--   ways a step goes on; Worker/Resume the resumption from a decision on a write, Worker/Stream the
--   loop over what the engine yields, Worker/Execute the body, the handlers of exceptions and the
--   terminal commit. Every await is an argument of the world: what it answers or raises, and what
--   happens to the run meanwhile: a request to cancel it (`cancel_run` of execution_engine/app.py),
--   the poll that finds it cancelled (`cancel_owned_run` of execution_engine/run_draining.py) and the
--   loss of its lock, in any number and order. The closing of the tool client after the commit is
--   left out. Phases, Steps, Body, Settled, Noticed, Finalizing and Ending hold the proofs.
-- - Common has the Boolean tests, lists, sets and dictionaries that these share; Tests evaluates
--   the definitions and applies the theorems at concrete inputs.
--
-- How code becomes definitions. A method that changes an object takes the state and returns the
-- new one; an exception is `none` or a constructor of the result type. The store holds decoded
-- values (`Value`) where Redis holds JSON text, and `malformed` is text that no reader decodes.
-- Times are natural numbers in one unit, the clock is an argument, and `uuid n` is the identifier
-- drawn for the object with reference n. A loop over a list is recursion on it. The eviction loop
-- runs on fuel: each round pops an entry, so the length of the ledger is enough. The agent loop
-- runs on fuel too, one unit for a round: a step takes at most four rounds, so 4 * max_steps + 4 is
-- enough. The compaction of a transcript removes a turn in each round, so its length is enough. The
-- validation of arguments goes down in the value or in the schema at each step, so their sizes are
-- enough.
--
-- Not modelled: the expiry of Redis keys by time (a lock may lapse at any moment in
-- Durability/Ownership, without a clock), outages of Redis (but for the releases of a
-- drain, which may fail), metrics and log texts (but for the outcomes of a retry), the HTTP
-- clients and routes, the instruction texts of a request, the payloads of events, the
-- compaction of tool results, the tool clients and the verification of a remediation after a write, the
-- admission of tool schemas, the loop that renews the locks of active runs, readiness, and the drain
-- of the service (that of the registry is modelled).
pub mod Common
pub mod Durability
pub mod Registry
pub mod Agent
pub mod Transcript
pub mod Capacity
pub mod Authority
pub mod React
pub mod Validation
pub mod Worker
mod Tests
