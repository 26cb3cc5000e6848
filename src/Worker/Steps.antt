-- ===== src/Worker/Steps.antt =====
-- The resumption of a run and the loop over the engine's chunks keep the rule of Phases.
use execution_engine.Common.{
  by_test, Bool, true, false, Option, none, some, List, [], ◌∷◌, refl, arith, keep, str_eq,
  if◌then◌else◌,
}
use execution_engine.Registry.Identity.{
  RunStatus, waiting_for_dependencies, waiting_for_approval, failed,
}
use execution_engine.Worker.State.{
  run_failed, run_progress, assistant_token_delta, tool_call_started, tool_call_completed,
  skill_context, tool_approval_decided, tool_approval_requested, Execution, Await, Flow, continues,
  returns, raises, stops, await, emit_run_event, emit_event, persist_status, unless_cancelled, fail,
  timeout_error, approval_request_error, other_error,
}
use execution_engine.Worker.Resume.{
  WriteDecision, approved, rejected, expired, undecided, Started, attempted, concluded, fresh,
  Approval, Continuation, dependency, approval, report_decision, fail_unknown, conclude_approval,
  execute_approved, resume_approved, resume_approval, resume,
}
use execution_engine.Worker.Stream.{
  EngineChunk, delta, tool_call, tool_result, skill, dependency_interrupt, approval_interrupt,
  reasoning, reasoning_summary_chunk, final, error, other, Yielded, emit_summaries, note_tool_call,
  park, handle, stream, catch_timeout,
}
use execution_engine.Worker.Phases.{
  Open, Phase, going, over, erred, silent, parks, IsWaiting, for_approval, for_dependencies,
  reports, both_failed, and_then-Phase, await-Phase, emit_event-Open, emit_summaries-Open,
  unless_cancelled-Phase, fail-Phase,
}

report_decision-Open : (d : WriteDecision) (x : Execution) → Open x → Open (report_decision d x)
unfolding report_decision
report_decision-Open approved x o = emit_event-Open (tool_approval_decided "approved") x refl o
report_decision-Open rejected x o = emit_event-Open (tool_approval_decided "rejected") x refl o
report_decision-Open expired x o = emit_event-Open (tool_approval_decided "expired") x refl o
report_decision-Open undecided x o = o

fail_unknown-Phase : (x : Execution) → Open x → Phase true (fail_unknown x)
unfolding fail_unknown fail emit_event emit_run_event persist_status keep
fail_unknown-Phase x o =
    by_test
      (λ (y : Execution). Phase true (returns (persist_status (record y { status = failed }))))
      x.cancel_event
      (λ c. over (record {
        outcome = silent o.no_end refl o.unsuspended c refl;
        managed_still = o.managed_yet;
        uncommitted = o.no_commit;
      }))
      (λ c. over (record {
        outcome =
            reports (run_failed "WRITE_TOOL_OUTCOME_UNKNOWN")
              (both_failed "WRITE_TOOL_OUTCOME_UNKNOWN") (ground (arith, o.no_end)) o.unsuspended;
        managed_still = o.managed_yet;
        uncommitted = o.no_commit;
      }))

conclude_approval-Phase :
    (a : Approval) (unknown executed : Bool) (x : Execution)
    → Open x
    → Phase true (conclude_approval a unknown executed x)
unfolding conclude_approval
conclude_approval-Phase a unknown executed x o =
    let o' = report_decision-Open a.decision x o in
    by_test (Phase true) unknown
      (λ _.
        by_test (Phase true) executed
          (λ _.
            await-Phase a.artifact (report_decision a.decision x)
              (λ _ y. fail_unknown (emit_event (tool_call_completed a.call_id) y)) o'
              (λ _ y p.
                fail_unknown-Phase (emit_event (tool_call_completed a.call_id) y)
                  (emit_event-Open (tool_call_completed a.call_id) y refl p)))
          (λ _. fail_unknown-Phase (report_decision a.decision x) o'))
      (λ _. going o')

execute_approved-Phase :
    (a : Approval) (s : Started) (x : Execution) → Open x → Phase true (execute_approved a s x)
unfolding execute_approved
execute_approved-Phase a attempted x o = conclude_approval-Phase a true false x o
execute_approved-Phase a (concluded unknown) x o = conclude_approval-Phase a unknown false x o
execute_approved-Phase a (fresh call finish) x o =
    await-Phase call (emit_event (tool_call_started a.call_id) x)
      (λ _ y.
        unless_cancelled y (λ z. await finish z (λ unknown u. conclude_approval a unknown true u)))
      (emit_event-Open (tool_call_started a.call_id) x refl o)
      (λ _ y p.
        unless_cancelled-Phase y
          (λ z. await finish z (λ unknown u. conclude_approval a unknown true u)) p
          (λ _.
            await-Phase finish y (λ unknown u. conclude_approval a unknown true u) p
              (λ unknown u q. conclude_approval-Phase a unknown true u q)))

resume_approved-Phase :
    (a : Approval) (settled : Option Bool) (x : Execution)
    → Open x
    → Phase true (resume_approved a settled x)
unfolding resume_approved
resume_approved-Phase a (some unknown) x o = conclude_approval-Phase a unknown false x o
resume_approved-Phase a none x o =
    await-Phase a.started x (λ s y. unless_cancelled y (execute_approved a s)) o
      (λ s y p.
        unless_cancelled-Phase y (execute_approved a s) p (λ _. execute_approved-Phase a s y p))

resume_approval-Phase :
    (a : Approval) (d : WriteDecision) (x : Execution) → Open x → Phase true (resume_approval a d x)
unfolding resume_approval
resume_approval-Phase a approved x o = resume_approved-Phase a a.terminal_result x o
resume_approval-Phase a rejected x o = conclude_approval-Phase a false false x o
resume_approval-Phase a expired x o = conclude_approval-Phase a false false x o
resume_approval-Phase a undecided x o = conclude_approval-Phase a false false x o

pub resume-Phase : (c : Continuation) (x : Execution) → Open x → Phase true (resume c x)
unfolding resume
resume-Phase (approval a) x o = resume_approval-Phase a a.decision x o
resume-Phase (dependency result) x o =
    await-Phase result x
      (λ ready y.
        if ready
        then continues y
        else returns (record y { status = waiting_for_dependencies; suspended = true }))
      o
      (λ ready y p.
        by_test (Phase true) ready (λ _. going p)
          (λ _. over (record {
            outcome = parks p.no_end refl for_dependencies;
            managed_still = p.managed_yet;
            uncommitted = p.no_commit;
          })))

park-Phase : (s : RunStatus) (x : Execution) → IsWaiting s → Open x → Phase true (park s x)
unfolding park persist_status
park-Phase s x waits o = over (record {
  outcome = parks o.no_end refl waits;
  managed_still = o.managed_yet;
  uncommitted = o.no_commit;
})

handle-Phase : (c : EngineChunk) (x : Execution) → Open x → Phase true (handle c x)
unfolding handle note_tool_call
handle-Phase (delta text) x o = going (emit_event-Open (assistant_token_delta text) _ refl o)
handle-Phase (tool_call call_id) x o = going (emit_event-Open (tool_call_started call_id) _ refl o)
handle-Phase (tool_result call_id artifact) x o =
    await-Phase artifact x _ o
      (λ _ y p. going (emit_event-Open (tool_call_completed call_id) _ refl p))
handle-Phase skill x o = going (emit_event-Open skill_context x refl o)
handle-Phase (dependency_interrupt save) x o =
    await-Phase save x _ o (λ _ y p. park-Phase waiting_for_dependencies y for_dependencies p)
handle-Phase (approval_interrupt call_id create) x o = await-Phase create x _ o (λ _ y p.
    unless_cancelled-Phase y _ p (λ _.
      park-Phase waiting_for_approval (emit_event (tool_approval_requested call_id) y) for_approval
        (emit_event-Open (tool_approval_requested call_id) y refl p)))
handle-Phase (reasoning message) x o = going (
    by_test Open (str_eq message "") (λ _. o)
      (λ _. emit_event-Open (run_progress "reasoning") x refl o))
handle-Phase reasoning_summary_chunk x o = going o
handle-Phase (final tool_calls) x o = going o
handle-Phase (error code none) x o = unless_cancelled-Phase x (fail code) o (fail-Phase code x o)
handle-Phase (error code (some n)) x o =
    unless_cancelled-Phase (record x { tool_calls = n }) (fail code) o
      (fail-Phase code (record x { tool_calls = n }) o)
handle-Phase other x o = going o

pub stream-Phase :
    (chunks : List (Await Yielded)) (ended : Await Unit) (x : Execution)
    → Open x
    → Phase true (stream chunks ended x)
unfolding stream
stream-Phase [] ended x o = await-Phase ended x (λ _ y. continues y) o (λ _ y p. going p)
stream-Phase (next ∷ rest) ended x o =
    let later = stream-Phase rest ended in
    await-Phase next x _ o (λ got y p.
      by_test (Phase true) y.cancel_event (λ _. going p)
        (λ _.
          and_then-Phase (handle got.chunk (emit_summaries got.summaries y)) (stream rest ended)
            (handle-Phase got.chunk (emit_summaries got.summaries y)
              (emit_summaries-Open got.summaries y p))
            later))

pub catch_timeout-Phase : (f : Flow) → Phase true f → Phase true (catch_timeout f)
unfolding catch_timeout
catch_timeout-Phase (continues x) p = p
catch_timeout-Phase (returns x) p = p
catch_timeout-Phase (stops x) p = p
catch_timeout-Phase (raises (approval_request_error code) x) p = p
catch_timeout-Phase (raises other_error x) p = p
catch_timeout-Phase (raises timeout_error x) (erred o) =
    unless_cancelled-Phase x (fail "MAX_RUNTIME_EXCEEDED") o (fail-Phase "MAX_RUNTIME_EXCEEDED" x o)
