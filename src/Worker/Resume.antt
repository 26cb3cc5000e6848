-- ===== src/Worker/Resume.antt =====
-- execution_engine/worker.py: the resumption of a run from a decision on a write, or from the runs that
-- it waits for.
use execution_engine.Common.{String, Bool, true, false, Option, none, some, if◌then◌else◌}
use execution_engine.Registry.Identity.{waiting_for_dependencies}
use execution_engine.Worker.State.{
  tool_call_started, tool_call_completed, tool_approval_decided, Execution, Await, Flow, continues,
  returns, await, emit_event, unless_cancelled, fail,
}

pub data WriteDecision : Type 0 where
  approved : WriteDecision
  rejected : WriteDecision
  expired : WriteDecision
  undecided : WriteDecision

-- `executionStatus` when the execution is marked as started: a former attempt of unknown outcome, a
-- former attempt with its result, or none yet, with the call of the tool and the mark of its end. A
-- result is what `write_result_outcome_unknown` says of it.
pub data Started : Type 0 where
  attempted : Started
  concluded : Bool → Started
  fresh : Await Unit → Await Bool → Started

-- `terminal_result` is what `build_terminal_approval_resume` gives
pub record Approval : Type 0 where
  pub call_id : String
  pub decision : WriteDecision
  pub terminal_result : Option Bool
  pub started : Await Started
  pub artifact : Await Unit

-- a dependency with the answer of `dependency_resume`: whether it has a result
pub data Continuation : Type 0 where
  dependency : Await Bool → Continuation
  approval : Approval → Continuation

abbrev pub unknown_outcome_text : String
unknown_outcome_text =
    "The approved write action may have reached the affected system, but AcornOps could not confirm its final outcome. Inspect the affected system before retrying this write."

-- the event of the decision
unfoldable pub report_decision : WriteDecision → Execution → Execution
report_decision approved x = emit_event (tool_approval_decided "approved") x
report_decision rejected x = emit_event (tool_approval_decided "rejected") x
report_decision expired x = emit_event (tool_approval_decided "expired") x
report_decision undecided x = x

-- the end of a run whose write may have been executed
unfoldable pub fail_unknown : Execution → Flow
fail_unknown x = fail "WRITE_TOOL_OUTCOME_UNKNOWN" (record x { full_text = unknown_outcome_text })

-- what follows once there is a result: `unknown` is `unknown_write_outcome`, and `executed` whether
-- this execution has called the tool
unfoldable pub conclude_approval : Approval → Bool → Bool → Execution → Flow
conclude_approval a unknown executed x =
    let x' = report_decision a.decision x in
    let recorded =
      await a.artifact x' (λ _ y. fail_unknown (emit_event (tool_call_completed a.call_id) y)) in
    if unknown then (if executed then recorded else fail_unknown x') else continues x'

unfoldable pub execute_approved : Approval → Started → Execution → Flow
execute_approved a attempted x = conclude_approval a true false x
execute_approved a (concluded unknown) x = conclude_approval a unknown false x
execute_approved a (fresh call finish) x =
    await call (emit_event (tool_call_started a.call_id) x) (λ _ y.
      unless_cancelled y (λ z. await finish z (λ unknown u. conclude_approval a unknown true u)))

unfoldable pub resume_approved : Approval → Option Bool → Execution → Flow
resume_approved a (some unknown) x = conclude_approval a unknown false x
resume_approved a none x = await a.started x (λ s y. unless_cancelled y (execute_approved a s))

unfoldable pub resume_approval : Approval → WriteDecision → Execution → Flow
resume_approval a approved x = resume_approved a a.terminal_result x
resume_approval a _ x = conclude_approval a false false x

-- without a result of its dependencies the run waits on
unfoldable pub resume : Continuation → Execution → Flow
resume (dependency result) x = await result x (λ ready y.
    if ready
    then continues y
    else returns (record y { status = waiting_for_dependencies; suspended = true }))
resume (approval a) x = resume_approval a a.decision x
