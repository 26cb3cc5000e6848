-- ===== src/Transcript/Turns.antt =====
-- The turns of execution_engine/transcript.py. `J` stands for the JSON values of the library, which
-- the sequence check only carries.
use execution_engine.Common.{String, Bool, true, false, Option, List, [], ◌∷◌}

pub data ProviderName : Type 0 where
  openai anthropic gemini : ProviderName

unfoldable pub provider_eq : ProviderName → ProviderName → Bool
provider_eq openai openai = true
provider_eq anthropic anthropic = true
provider_eq gemini gemini = true
provider_eq _ _ = false

pub record ProviderContinuationState (J : Type 0) : Type 0 where
  pub provider : ProviderName
  pub data_value : J

pub record ToolCallPart (J : Type 0) : Type 0 where
  pub call_id : String
  pub name : String
  pub arguments : J
  pub provider_state : Option (ProviderContinuationState J)

pub data AssistantPart (J : Type 0) : Type 0 where
  text : String → AssistantPart J
  tool_call : ToolCallPart J → AssistantPart J

pub record ToolResult (J : Type 0) : Type 0 where
  pub call_id : String
  pub name : String
  pub result : J
  pub is_error : Bool

pub data TranscriptTurn (J : Type 0) : Type 0 where
  user : String → TranscriptTurn J
  assistant : List (AssistantPart J) → TranscriptTurn J
  tool_results : List (ToolResult J) → TranscriptTurn J

pub record CanonicalTranscript (J : Type 0) : Type 0 where
  pub provider : ProviderName
  pub turns : List (TranscriptTurn J)

-- the errors of `validate_sequence`, in the order of its text
pub data SequenceError : Type 0 where
  not_answered results_mismatch name_mismatch no_preceding_calls : SequenceError
  duplicate_call_id : String → SequenceError
  foreign_state unresolved : SequenceError

module _ {J : Type 0} where
  -- `[part for part in turn.content if isinstance(part, ToolCallPart)]`
  unfoldable pub calls_of : List (AssistantPart J) → List (ToolCallPart J)
  calls_of [] = []
  calls_of (text t ∷ parts) = calls_of parts
  calls_of (tool_call c ∷ parts) = c ∷ calls_of parts

  -- `[call.call_id for call in pending_calls]`
  unfoldable pub expected_ids : List (ToolCallPart J) → List String
  expected_ids [] = []
  expected_ids (c ∷ cs) = c.call_id ∷ expected_ids cs

  -- `[result.call_id for result in turn.results]`
  unfoldable pub actual_ids : List (ToolResult J) → List String
  actual_ids [] = []
  actual_ids (r ∷ rs) = r.call_id ∷ actual_ids rs
