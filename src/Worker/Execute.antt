-- ===== src/Worker/Execute.antt =====
-- execution_engine/worker.py: `_do_execute_run`, and its end in execution_engine/worker_cleanup.py.
use execution_engine.Common.{
  ℕ, max, String, Bool, true, false, not, ◌&&◌, ◌||◌, Option, none, some, is_some, List, ◌∷◌,
  if◌then◌else◌,
}
use execution_engine.Registry.Identity.{RunStatus, running, completed, failed, cancelled}
use execution_engine.Worker.State.{
  run_progress, run_started, run_failed, run_completed, target_insights_context_retrieved,
  skill_catalog_available, assistant_message_started, assistant_token_delta,
  assistant_message_completed, Execution, Error, approval_request_error, other_error, Await,
  answers, throws, interrupted, Flow, continues, returns, raises, stops, and_then, notice_meanwhile,
  await, emit_run_event, emit_event, persist_status, finish_cancelled_run, unless_cancelled, fail,
}
use execution_engine.Worker.Resume.{Continuation, resume}
use execution_engine.Worker.Stream.{Yielded, emit_summaries, stream, catch_timeout}

-- What the execution meets: the control plane, the gateway, the engine and the parts that other
-- modules of the program compute.
pub record World : Type 0 where
  pub is_target : Bool
  pub manager : Await Unit
  -- whether `bootstrap_scope_matches` accepts the scope of the snapshot
  pub bootstrap : Await Bool
  pub continuation : Await (Option Continuation)
  -- whether the context has insights to report
  pub context : Await Bool
  -- whether the clients, the tools and the engine can be built without an exception
  pub clients_built : Bool
  pub engine_built : Bool
  pub has_catalog : Bool
  pub chunks : List (Await Yielded)
  pub ended : Await Unit
  pub last_summaries : ℕ
  -- `not text.strip()`, and the text that stands in for an empty answer
  pub is_blank : String → Bool
  pub fallback_text : ℕ → String
  -- `event_manager.abort()` or `event_manager.stop()`
  pub stop : Await Unit

-- the fetches that have their own `except Exception`
unfoldable pub fetch : {A : Type 0} → String → Await A → Execution → (A → Execution → Flow) → Flow
fetch code (throws m e) x k = unless_cancelled (notice_meanwhile m x) (fail code)
fetch code (answers m a) x k = unless_cancelled (notice_meanwhile m x) (k a)
fetch code (interrupted m) x k = stops (notice_meanwhile m x)

unfoldable pub built : Bool → Execution → Flow
built ok x = if ok then continues x else raises other_error x

unfoldable pub resume_if : Option Continuation → Execution → Flow
resume_if none x = continues x
resume_if (some c) x = resume c x

unfoldable pub announce_inference : Option Continuation → Execution → Execution
announce_inference c x =
    let y = emit_event (run_progress "inference") x in
    if is_some c then y else emit_event assistant_message_started y

unfoldable pub error_code : Error → String
error_code (approval_request_error code) = code
error_code _ = "INTERNAL_ERROR"

-- `except asyncio.CancelledError` and `except Exception`
unfoldable pub settle : Flow → Execution
settle (continues x) = x
settle (returns x) = x
settle (stops x) =
    let y = record x { status = if x.cancel_event then cancelled else failed } in
    if x.execution_lock_lost
    then x
    else (if x.managed then emit_run_event (run_failed "EXECUTION_AUTHORITY_LOST") y else y)
settle (raises e x) =
    let y = if x.managed then emit_run_event (run_failed (error_code e)) x else x in
    if x.cancel_event && x.managed then finish_cancelled_run x else record y { status = failed }

abbrev pub is_cancelled : RunStatus → Bool
is_cancelled cancelled = true
is_cancelled _ = false

-- the terminal commit, which a suspended run and a run that has lost its lock do not get
unfoldable pub commit_run : Execution → Execution
commit_run x = if x.suspended || x.execution_lock_lost then x else record (persist_status x) {
  commits = record { status = x.status; content = x.final_text } ∷ x.commits;
}

module _ (w : World) where
  unfoldable pub fetch_context : Execution → Flow
  fetch_context x =
      fetch "CONTEXT_FETCH_FAILED" w.context (emit_event (run_progress "context_fetch") x)
        (λ insights y. continues (
          emit_event (run_progress "context_ready") (
            if w.is_target && insights then emit_event target_insights_context_retrieved y else y)))

  -- the context of a new run, or the note that a run resumes
  unfoldable pub prepare : Option Continuation → Execution → Flow
  prepare none x = fetch_context x
  prepare (some c) x = continues (emit_event (run_progress "approval_resume") x)

  unfoldable pub announce_catalog : Option Continuation → Execution → Execution
  announce_catalog c x =
      if w.has_catalog && not (is_some c) then emit_event skill_catalog_available x else x

  -- the end of a run whose engine is through
  unfoldable pub complete_run : Execution → Execution
  complete_run x =
      let y = emit_summaries w.last_summaries x in
      let z = record y { tool_calls = max y.tool_calls y.observed_tool_calls } in
      let text = w.fallback_text z.tool_results in
      let filled =
        if w.is_blank z.full_text
        then emit_event (assistant_token_delta text) (record z { full_text = text })
        else z in
      emit_event run_completed
        (record (emit_event (assistant_message_completed filled.tool_calls) filled) {
          status = completed;
        })

  unfoldable pub conclude_run : Execution → Flow
  conclude_run x = returns (if x.cancel_event then finish_cancelled_run x else complete_run x)

  -- from the engine on
  unfoldable pub run_engine : Option Continuation → Execution → Flow
  run_engine c x = and_then (built w.engine_built (announce_catalog c x)) (λ y.
      unless_cancelled y (λ z.
        and_then (catch_timeout (stream w.chunks w.ended (announce_inference c z))) conclude_run))

  unfoldable pub run_with : Option Continuation → Execution → Flow
  run_with c x = unless_cancelled x (λ y. and_then (prepare c y) (λ z.
      and_then (built w.clients_built (emit_event run_started z))
        (λ u. and_then (resume_if c u) (run_engine c))))

  -- from the status `running` on
  unfoldable pub run_active : Execution → Flow
  run_active x =
      let y = persist_status (record x { status = running; started = true }) in
      fetch "BOOTSTRAP_FAILED" w.bootstrap (emit_event (run_progress "bootstrap") y) (λ matches z.
        if matches then await w.continuation z run_with else fail "BOOTSTRAP_SCOPE_MISMATCH" z)

  -- the body of the `try`
  unfoldable pub execution_body : Execution → Flow
  execution_body x =
      await w.manager x (λ _ y. unless_cancelled (record y { managed = true }) run_active)

  -- `_finalize_run`; where the events cannot be flushed, the run is not committed here
  unfoldable pub finalize_run : Execution → Execution
  finalize_run x =
      let y =
        persist_status
          (record x { final_text = if is_cancelled x.status then "" else x.full_text }) in
      if y.managed
      then elim w.stop [
        | answers m a ↦ commit_run (notice_meanwhile m y)
        | throws m e ↦ notice_meanwhile m y
        | interrupted m ↦ notice_meanwhile m y
      ]
      else commit_run y

  -- `_do_execute_run`
  unfoldable pub do_execute_run : Execution → Execution
  do_execute_run x = finalize_run (settle (execution_body x))
