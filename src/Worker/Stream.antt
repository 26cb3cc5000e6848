-- ===== src/Worker/Stream.antt =====
-- execution_engine/worker.py: the loop over what the agent engine yields.
use execution_engine.Common.{
  ℕ, zero, suc, ◌+◌, max, String, true, not, Option, none, some, List, [], ◌∷◌, str_eq,
  if◌then◌else◌,
}
use Prim.Native.String.{◌++◌}
use execution_engine.Registry.Identity.{RunStatus, waiting_for_dependencies, waiting_for_approval}
use execution_engine.Worker.State.{
  run_progress, assistant_token_delta, tool_call_started, tool_call_completed, skill_context,
  reasoning_summary, tool_approval_requested, Execution, Await, Flow, continues, returns, raises,
  stops, and_then, await, emit_event, persist_status, unless_cancelled, fail, timeout_error,
}

pub data EngineChunk : Type 0 where
  delta : String → EngineChunk
  tool_call : String → EngineChunk
  tool_result : String → Await Unit → EngineChunk
  skill : EngineChunk
  dependency_interrupt : Await Unit → EngineChunk
  approval_interrupt : String → Await Unit → EngineChunk
  reasoning : String → EngineChunk
  reasoning_summary_chunk : EngineChunk
  final : ℕ → EngineChunk
  error : String → Option ℕ → EngineChunk
  other : EngineChunk

-- a chunk, with the number of events that the forwarder of reasoning summaries emits for it
pub record Yielded : Type 0 where
  pub chunk : EngineChunk
  pub summaries : ℕ

unfoldable pub emit_summaries : ℕ → Execution → Execution
emit_summaries zero x = x
emit_summaries (suc n) x = emit_summaries n (emit_event reasoning_summary x)

-- text before the first tool call is dropped
unfoldable pub note_tool_call : String → Execution → Execution
note_tool_call call_id x = emit_event (tool_call_started call_id) (record x {
  full_text = if not x.saw_tool_call then "" else x.full_text;
  saw_tool_call = true;
  observed_tool_calls = x.observed_tool_calls + 1;
})

-- the run parks: `return` without an end
unfoldable pub park : RunStatus → Execution → Flow
park waiting x =
    returns (record (persist_status (record x { status = waiting })) { suspended = true })

unfoldable pub handle : EngineChunk → Execution → Flow
handle (delta text) x =
    continues
      (emit_event (assistant_token_delta text) (record x { full_text = x.full_text ++ text }))
handle (tool_call call_id) x = continues (note_tool_call call_id x)
handle (tool_result call_id artifact) x = await artifact x (λ _ y.
    continues
      (emit_event (tool_call_completed call_id) (record y { tool_results = y.tool_results + 1 })))
handle skill x = continues (emit_event skill_context x)
handle (dependency_interrupt save) x = await save x (λ _ y. park waiting_for_dependencies y)
handle (approval_interrupt call_id create) x = await create x (λ _ y.
    unless_cancelled y
      (λ z. park waiting_for_approval (emit_event (tool_approval_requested call_id) z)))
handle (reasoning message) x =
    continues (if str_eq message "" then x else emit_event (run_progress "reasoning") x)
handle reasoning_summary_chunk x = continues x
handle (final tool_calls) x =
    continues (record x { tool_calls = max tool_calls x.observed_tool_calls })
handle (error code none) x = unless_cancelled x (fail code)
handle (error code (some n)) x = unless_cancelled (record x { tool_calls = n }) (fail code)
handle other x = continues x

-- `async for chunk in engine.run(...)`; `ended` is the await that finds no further chunk
unfoldable pub stream : List (Await Yielded) → Await Unit → Execution → Flow
stream [] ended x = await ended x (λ _ y. continues y)
stream (next ∷ rest) ended x = await next x (λ got y.
    if y.cancel_event
    then continues y
    else and_then (handle got.chunk (emit_summaries got.summaries y)) (stream rest ended))

-- `except TimeoutError`
unfoldable pub catch_timeout : Flow → Flow
catch_timeout (raises timeout_error x) = unless_cancelled x (fail "MAX_RUNTIME_EXCEEDED")
catch_timeout (raises e x) = raises e x
catch_timeout (continues x) = continues x
catch_timeout (returns x) = returns x
catch_timeout (stops x) = stops x
