-- ===== src/Tests/Executions.antt =====
-- Executions of a run in concrete worlds.
use execution_engine.Common.{◌≡◌, refl, true, false, none, some, [], ◌∷◌, str_eq, keep}
use execution_engine.Registry.Identity.{
  queued, completed, failed, cancelled, cancelling, is_terminal,
}
use execution_engine.Worker.State.{
  run_failed, run_completed, Execution, Meanwhile, Await, answers, interrupted, notice_meanwhile,
  happen, poll_cancel, cancel_polled, await, emit_run_event, emit_event, persist_status,
  finish_cancelled_run, unless_cancelled, fail,
}
use execution_engine.Worker.Resume.{
  approved, fresh, Continuation, approval, unknown_outcome_text, report_decision, fail_unknown,
  conclude_approval, execute_approved, resume_approved, resume_approval, resume,
}
use execution_engine.Worker.Stream.{
  EngineChunk, Yielded, dependency_interrupt, delta, tool_call, tool_result, final, emit_summaries,
  note_tool_call, park, handle, stream, catch_timeout,
}
use execution_engine.Worker.Execute.{
  World, fetch, built, resume_if, announce_inference, error_code, settle, commit_run, fetch_context,
  prepare, announce_catalog, complete_run, conclude_run, run_engine, run_with, run_active,
  execution_body, finalize_run, do_execute_run,
}
use execution_engine.Worker.Phases.{ends_of}
use execution_engine.Worker.Ending.{Concluded, do_execute_run-Concluded}

abbrev quiet : Meanwhile
quiet = []

abbrev cancelling_now : Meanwhile
cancelling_now = cancel_polled ∷ []

abbrev fresh_run : Execution
fresh_run = record {
  status = queued;
  started = false;
  cancel_event = false;
  execution_lock_lost = false;
  managed = false;
  emitted = [];
  cancel_event_emitted = false;
  full_text = "";
  final_text = "";
  saw_tool_call = false;
  observed_tool_calls = 0;
  tool_results = 0;
  tool_calls = 0;
  suspended = false;
  persisted = queued;
  commits = [];
}

abbrev says : Meanwhile → EngineChunk → Await Yielded
says m c = answers m (record { chunk = c; summaries = 0 })

-- a model that thinks aloud, calls a tool and answers
abbrev calm_world : World
calm_world = record {
  is_target = true;
  manager = answers quiet tt;
  bootstrap = answers quiet true;
  continuation = answers quiet none;
  context = answers quiet true;
  clients_built = true;
  engine_built = true;
  has_catalog = false;
  chunks =
      says quiet (delta "Let me look.")
      ∷ says quiet (tool_call "c1")
      ∷ says quiet (tool_result "c1" (answers quiet tt))
      ∷ says quiet (delta "All is well.")
      ∷ says quiet (final 0)
      ∷ [];
  ended = answers quiet tt;
  last_summaries = 0;
  is_blank = λ s. str_eq s "";
  fallback_text = λ _. "done";
  stop = answers quiet tt;
}

-- a write is called, and the run is cancelled while its end, of unknown outcome, is recorded
abbrev unknown_write : Continuation
unknown_write = approval (record {
  call_id = "c1";
  decision = approved;
  terminal_result = none;
  started = answers quiet (fresh (answers quiet tt) (answers cancelling_now true));
  artifact = answers quiet tt;
})

-- the model asks for a tool whose answer is to be waited for, and the run is cancelled while its events
-- are flushed
abbrev cancelled_wait : World
cancelled_wait = record calm_world {
  chunks = says quiet (dependency_interrupt (answers quiet tt)) ∷ [];
  stop = answers cancelling_now tt;
}

cancelled_wait_test :
    ((do_execute_run cancelled_wait fresh_run).status ≡ cancelling)
    × ((do_execute_run cancelled_wait fresh_run).persisted ≡ cancelling)
    × ((do_execute_run cancelled_wait fresh_run).commits ≡ [])
unfolding notice_meanwhile happen poll_cancel await emit_run_event emit_event persist_status
    unless_cancelled park handle stream catch_timeout fetch built resume_if announce_inference
    settle commit_run fetch_context prepare announce_catalog conclude_run run_engine run_with
    run_active execution_body finalize_run do_execute_run emit_summaries is_terminal
cancelled_wait_test = (refl, refl, refl)

-- the text before the first tool call is dropped; the commit has the rest
calm_test :
    ((do_execute_run calm_world fresh_run).commits
      ≡ record { status = completed; content = "All is well." } ∷ [])
    × (ends_of (do_execute_run calm_world fresh_run) ≡ run_completed ∷ [])
    × ((do_execute_run calm_world fresh_run).tool_calls ≡ 1)
    × (ends_of (
          do_execute_run
            (record calm_world { continuation = answers quiet (some unknown_write) })
            fresh_run)
        ≡ [])
    × ((do_execute_run
          (record calm_world { continuation = answers quiet (some unknown_write) })
          fresh_run).commits
        ≡ record { status = failed; content = unknown_outcome_text } ∷ [])
    × (ends_of
          (do_execute_run (record calm_world { bootstrap = interrupted cancelling_now }) fresh_run)
        ≡ run_failed "EXECUTION_AUTHORITY_LOST" ∷ [])
    × ((do_execute_run
          (record calm_world { bootstrap = interrupted cancelling_now })
          fresh_run).status
        ≡ cancelled)
unfolding notice_meanwhile happen poll_cancel await emit_run_event emit_event persist_status
    finish_cancelled_run unless_cancelled fail report_decision fail_unknown conclude_approval
    execute_approved resume_approved resume_approval resume emit_summaries note_tool_call park
    handle stream catch_timeout fetch built resume_if announce_inference error_code settle
    commit_run fetch_context prepare announce_catalog complete_run conclude_run run_engine run_with
    run_active execution_body finalize_run do_execute_run keep is_terminal
calm_test = (refl, refl, refl, refl, refl, refl, refl)

do_execute_run-Concluded_example : Concluded calm_world (do_execute_run calm_world fresh_run)
unfolding keep
do_execute_run-Concluded_example = do_execute_run-Concluded calm_world fresh_run (record {
  managed_yet = refl;
  unreported = refl;
  unsuspended = refl;
  no_end = refl;
  no_commit = refl;
})
