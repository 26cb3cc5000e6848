-- ===== src/Worker/State.antt =====
-- execution_engine/worker.py: what one execution of a run holds, the events it emits, and the ways it
-- goes on. Each await of the source is an argument: what it answers, and what has meanwhile happened
-- to the run.
use execution_engine.Common.{ℕ, String, Bool, true, false, ◌||◌, List, [], ◌∷◌, if◌then◌else◌}
use execution_engine.Registry.Identity.{
  RunStatus, failed, cancelled, cancelling, is_terminal, queued,
}

-- the events of the run, with the part of the payload that the execution decides
pub data RunEvent : Type 0 where
  run_progress : String → RunEvent
  run_started : RunEvent
  run_cancelled : RunEvent
  run_failed : String → RunEvent
  run_completed : RunEvent
  target_insights_context_retrieved : RunEvent
  skill_catalog_available : RunEvent
  skill_context : RunEvent
  assistant_message_started : RunEvent
  assistant_token_delta : String → RunEvent
  assistant_message_completed : ℕ → RunEvent
  reasoning_summary : RunEvent
  tool_call_started : String → RunEvent
  tool_call_completed : String → RunEvent
  tool_approval_requested : String → RunEvent
  tool_approval_decided : String → RunEvent

-- the events that end a run
abbrev pub ends_run : RunEvent → Bool
ends_run run_cancelled = true
ends_run (run_failed code) = true
ends_run run_completed = true
ends_run _ = false

pub record Commit : Type 0 where
  pub status : RunStatus
  pub content : String

-- the run state and the local variables of `_do_execute_run`; `emitted` has the newest event first,
-- `managed` tells whether `event_manager` is set, `persisted` is the status stored last
pub record Execution : Type 0 where
  pub status : RunStatus
  pub started : Bool
  pub cancel_event : Bool
  pub execution_lock_lost : Bool
  pub managed : Bool
  pub emitted : List RunEvent
  pub cancel_event_emitted : Bool
  pub full_text : String
  pub final_text : String
  pub saw_tool_call : Bool
  pub observed_tool_calls : ℕ
  pub tool_results : ℕ
  pub tool_calls : ℕ
  pub suspended : Bool
  pub persisted : RunStatus
  pub commits : List Commit

-- what may happen to the run while an await is pending: a request to cancel it arrives, the poll finds
-- that it is to be cancelled, or the lock is lost
pub data Happening : Type 0 where
  cancel_requested cancel_polled lost_lock : Happening

abbrev pub Meanwhile : Type 0
Meanwhile = List Happening

-- `TimeoutError`, a `ToolApprovalRequestError` with its code, and any other exception
pub data Error : Type 0 where
  timeout_error : Error
  approval_request_error : String → Error
  other_error : Error

-- an await gives a result, raises, or the task is cancelled in it
pub data Await (A : Type 0) : Type 0 where
  answers : Meanwhile → A → Await A
  throws : Meanwhile → Error → Await A
  interrupted : Meanwhile → Await A

-- where the body stands: it goes on, is through, has raised, or was cancelled as a task
pub data Flow : Type 0 where
  continues : Execution → Flow
  returns : Execution → Flow
  raises : Error → Execution → Flow
  stops : Execution → Flow

abbrev pub and_then : Flow → (Execution → Flow) → Flow
and_then (continues x) k = k x
and_then (returns x) k = returns x
and_then (raises e x) k = raises e x
and_then (stops x) k = stops x

-- a run that has lost its lock writes no more
unfoldable pub persist_status : Execution → Execution
persist_status x = record x { persisted = if x.execution_lock_lost then x.persisted else x.status }

-- `state.status == RunStatus.QUEUED`
unfoldable pub is_still_queued : RunStatus → Bool
is_still_queued queued = true
is_still_queued _ = false

-- `cancel_run`, for a run that is known
unfoldable pub cancel_run : Execution → Execution
cancel_run x =
    let y = record x { cancel_event = true } in
    if is_still_queued x.status
    then persist_status (record y { status = cancelled })
    else if is_terminal x.status
    then y
    else persist_status (record y { status = cancelling })

-- `cancel_owned_run`, for a run that is scheduled
unfoldable pub poll_cancel : Execution → Execution
poll_cancel x =
    if x.execution_lock_lost || is_terminal x.status
    then x
    else persist_status (record x { cancel_event = true; status = cancelling })

unfoldable pub happen : Happening → Execution → Execution
happen cancel_requested x = cancel_run x
happen cancel_polled x = poll_cancel x
happen lost_lock x = record x { execution_lock_lost = true }

unfoldable pub notice_meanwhile : Meanwhile → Execution → Execution
notice_meanwhile [] x = x
notice_meanwhile (h ∷ m) x = notice_meanwhile m (happen h x)

unfoldable pub await : {A : Type 0} → Await A → Execution → (A → Execution → Flow) → Flow
await (answers m a) x k = k a (notice_meanwhile m x)
await (throws m e) x k = raises e (notice_meanwhile m x)
await (interrupted m) x k = stops (notice_meanwhile m x)

-- `event_manager.emit`
unfoldable pub emit_run_event : RunEvent → Execution → Execution
emit_run_event e x = record x { emitted = e ∷ x.emitted }

-- `emit_event` for the events other than `run_cancelled`: a cancelled run emits no more of them
unfoldable pub emit_event : RunEvent → Execution → Execution
emit_event e x = if x.cancel_event then x else emit_run_event e x

-- `finish_cancelled_run`
unfoldable pub finish_cancelled_run : Execution → Execution
finish_cancelled_run x =
    if x.cancel_event_emitted
    then x
    else persist_status (record (emit_run_event run_cancelled x) {
      cancel_event_emitted = true;
      status = cancelled;
    })

-- `if state.cancel_event.is_set(): finish_cancelled_run(); return`
unfoldable pub unless_cancelled : Execution → (Execution → Flow) → Flow
unless_cancelled x k = if x.cancel_event then returns (finish_cancelled_run x) else k x

-- the emission of `run_failed` with the status, the write of the record and the return
unfoldable pub fail : String → Execution → Flow
fail code x = returns (persist_status (record (emit_event (run_failed code) x) { status = failed }))
