-- ===== src/React/State.antt =====
-- The state of `run` of execution_engine/agent/react_engine.py. `J` stands for JSON values, `E` for
-- what an entry of the evidence ledger carries, `V` for the pending verifications.
use execution_engine.Common.{
  ℕ, String, Bool, Option, some, List, [], ◌∷◌, ◌++◌, opt_eq, if◌then◌else◌,
}
use execution_engine.Common.Dict.{lookup}
use execution_engine.Transcript.Turns.{
  ProviderContinuationState, ToolCallPart, AssistantPart, text, tool_call, ToolResult,
  TranscriptTurn, assistant,
}
use execution_engine.Agent.Retry.Policy.{RetryState, TerminalEvent}
use execution_engine.Agent.Skills.Loading.{SkillLoadState, Loaded, SkillEvent, SkillResult}
use execution_engine.Agent.Evidence.Ledger.{Entry}
use execution_engine.Agent.Usage.Accounting.{StreamEvent, UsageValue, Counts}

-- a call of the model, with the marks that the loop leaves on it
pub record Call (J : Type 0) : Type 0 where
  pub call_id : String
  pub tool : String
  pub arguments : J
  pub provider_state : Option (ProviderContinuationState J)
  pub budget_blocked : Bool
  pub accounted : Bool
  pub duplicate_accounted : Bool
  pub approval_resolved : Bool

-- a chunk of the model's stream
pub record ModelChunk (J : Type 0) : Type 0 where
  pub type : String
  pub text : Option String
  pub code : Option String
  pub tool : Option String
  pub call_id : String
  pub arguments : J
  pub provider_state : Option (ProviderContinuationState J)
  pub usage : Option (List (String × UsageValue))

pub data Guardrail : Type 0 where
  runtime tool_budget step_limit : Guardrail

-- the `reasoning` events, by occasion
pub data Notice : Type 0 where
  runtime_reached runtime_reached_in_stream executing results_received reviewing budget_left
        steps_reached :
      Notice

-- the results that the loop itself gives to a call
pub data Refusal : Type 0 where
  tool_call_budget_exceeded tool_call_repeat_limit : Refusal

-- `_loop_instruction`: the guidance after results, by whether a write succeeded and whether there was
-- an error; and the instruction of a correction, which names the tool
pub data Instruction : Type 0 where
  review : Bool → Bool → Instruction
  correct : Option String → Instruction

-- what `build_tool_continuation_state` keeps, but for the pending call and the usage. The list
-- `active_calls` is cut at `next_index`: `closed_calls` have their results, `open_calls` wait.
pub record Durable (J E V : Type 0) : Type 0 where
  pub transcript : List (TranscriptTurn J)
  pub current_step : ℕ
  pub total_tool_calls : ℕ
  pub duplicate_counts : List (String × ℕ)
  pub closed_calls : List (Call J)
  pub open_calls : List (Call J)
  pub tool_results : List (ToolResult J)
  pub evidence_ledger : List (Entry E)
  pub evidence_omitted : ℕ
  pub pending_verifications : V
  pub skills : SkillLoadState

-- the events that `run` yields; a checkpoint carries the pending call and the usage so far
pub data RunEvent (J E V : Type 0) : Type 0 where
  notice : Notice → RunEvent J E V
  result_event : String → String → J → Bool → RunEvent J E V
  call_event : Call J → RunEvent J E V
  chunk_event : ModelChunk J → RunEvent J E V
  skill_event : SkillEvent → RunEvent J E V
  approval_interrupt dependency_interrupt : Call J → Durable J E V → Counts → RunEvent J E V
  -- an error event that ends the run, with the usage that it reports
  max_runtime_exceeded : StreamEvent → RunEvent J E V
  tool_refused : String → StreamEvent → RunEvent J E V
  unknown_write_outcome : StreamEvent → RunEvent J E V
  retry_failed : TerminalEvent → StreamEvent → RunEvent J E V
  provider_failed : ModelChunk J → StreamEvent → RunEvent J E V

-- the local variables of `run`. `requests` are the transcripts given to
-- `_gateway_stream`, `executed` the calls handed to the tool client, both in order.
pub record LoopState (J E V : Type 0) : Type 0 where
  pub durable : Durable J E V
  pub open durable use *
  pub loop_instruction : Option Instruction
  pub guardrail : Option Guardrail
  pub tool_budget_hit : Bool
  pub retry : RetryState
  pub usage : Counts
  pub emitted : List (RunEvent J E V)
  pub requests : List (List (TranscriptTurn J))
  pub executed : List (Call J)

-- what the loop is given: the policy, whose first three bounds are those after `max(…, 1)`, and the
-- functions that it calls
pub record Engine (J E V : Type 0) : Type 0 where
  pub max_steps : ℕ
  pub max_tool_calls : ℕ
  pub max_duplicates : ℕ
  pub confirmation_required_for_write : Bool
  pub tool_capabilities : List (String × String)
  pub skill_loader : Option (String → Loaded)
  pub max_skill_loads : ℕ
  pub max_loaded_skill_bytes : ℕ
  pub max_run_evidence_bytes : ℕ
  -- `not text.strip()`, `text.startswith("reasoning_summary_")` and `json_bytes`
  pub blank : String → Bool
  pub is_summary : String → Bool
  pub json_bytes : List (Entry E) → ℕ
  -- `_tool_call_signature`, `compact_tool_context`, `build_evidence_entry`
  pub signature : String → J → String
  pub compact : J → J
  pub evidence_of : String → J → Bool → J → Entry E
  -- `remediation_preapproval_validation`, `observe_remediation_result`
  pub remediation_validation : String → String → J → List (Entry E) → Option J
  pub observe_remediation : V → String → J → Bool → J → V
  -- `arguments.get("skill_ref")`, and the JSON of a refusal and of a skill result
  pub skill_ref : J → String
  pub refusal_value : Refusal → J
  pub skill_value : SkillResult → J

module _ {J : Type 0} where
  -- the part of a call in the transcript
  unfoldable pub part_of : Call J → ToolCallPart J
  part_of c = record {
    call_id = c.call_id;
    name = c.tool;
    arguments = c.arguments;
    provider_state = c.provider_state;
  }

  unfoldable pub call_parts : List (Call J) → List (AssistantPart J)
  unfolding part_of
  call_parts [] = []
  call_parts (c ∷ cs) = tool_call (part_of c) ∷ call_parts cs

  -- `assistant_turn` of execution_engine/agent/react_transcript.py
  unfoldable pub assistant_turn : (String → Bool) → String → List (Call J) → TranscriptTurn J
  unfolding call_parts
  assistant_turn blank t calls =
      assistant (if blank t then call_parts calls else text t ∷ call_parts calls)

  -- `tool_result` of execution_engine/agent/react_transcript.py
  unfoldable pub transcript_tool_result : (J → J) → Call J → J → Bool → ToolResult J
  transcript_tool_result compact c value is_error = record {
    call_id = c.call_id;
    name = c.tool;
    result = compact value;
    is_error = is_error;
  }

  unfoldable pub is_write : List (String × String) → Call J → Bool
  is_write capabilities c = opt_eq (lookup c.tool capabilities) (some "write")

module _ {J E V : Type 0} where
  unfoldable pub say : RunEvent J E V → LoopState J E V → LoopState J E V
  say e s = record s { emitted = s.emitted ++ e ∷ [] }
