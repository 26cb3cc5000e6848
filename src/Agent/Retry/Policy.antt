-- ===== src/Agent/Retry/Policy.antt =====
-- execution_engine/agent/tool_argument_retry.py: one correction of malformed tool arguments.
use execution_engine.Common.{
  String, str_eq, Bool, true, false, not, ◌&&◌, ◌||◌, Option, none, some, List, [], ◌∷◌, is_some,
  keep, any, if◌then◌else◌,
}

-- the fields of a tool specification that the policy reads
pub record Spec : Type 0 where
  pub model_name : Option String
  pub name : Option String

-- one chunk of the provider stream
pub record Chunk : Type 0 where
  pub type : String
  pub code : Option String
  pub tool : Option String

-- `tool_argument_retries_total`, by outcome
pub data RetryOutcome : Type 0 where
  attempted exhausted invalid_tool recovered : RetryOutcome

-- `ToolArgumentRetryState`, with the outcomes recorded so far, newest first
pub record RetryState : Type 0 where
  pub tool_specs : List Spec
  pub tool : Option String
  pub spec : Option Spec
  pub outcomes : List RetryOutcome

-- the event that ends the run
pub data TerminalEvent : Type 0 where
  exhausted_event deadline_event : String → TerminalEvent
  provider_event : Chunk → TerminalEvent

abbrev pub malformed_tool_argument_code : String
malformed_tool_argument_code = "OPENAI_TOOL_ARGUMENTS_INVALID"

abbrev pub invalid_tool_call_code : String
invalid_tool_call_code = "OPENAI_TOOL_CALL_INVALID"

-- `a or b`, where the empty text and `None` are falsy
unfoldable pub or_text : Option String → String → String
or_text none d = d
or_text (some s) d = if str_eq s "" then d else s

unfoldable pub provider_tool_name : Spec → String
unfolding or_text
provider_tool_name spec = or_text spec.model_name (or_text spec.name "")

unfoldable pub is_active : RetryState → Bool
is_active s = is_some s.spec

-- the text of the instruction names the tool, and there is none without one
unfoldable pub instruction : RetryState → Option String
instruction s = elim s.tool [ none ↦ none | some t ↦ if str_eq t "" then none else some t ]

unfoldable pub request_tools : RetryState → List Spec
request_tools s = elim s.spec [ none ↦ s.tool_specs | some spec ↦ spec ∷ [] ]

-- `matches[0] if len(matches) == 1 else None`
unfoldable pub only_match : List Spec → Option Spec
only_match [] = none
only_match (x ∷ []) = some x
only_match (x ∷ y ∷ rest) = none

unfoldable pub matching_spec : List Spec → String → Option Spec
unfolding only_match provider_tool_name
matching_spec specs tool_name =
    only_match (keep (λ spec. str_eq (provider_tool_name spec) tool_name) specs)

unfoldable pub record_outcome : RetryOutcome → RetryState → RetryState
record_outcome o s = record s { outcomes = o ∷ s.outcomes }

-- `tool_name or self.tool or "the requested tool"`
unfoldable pub exhausted_tool : RetryState → String
unfolding or_text
exhausted_tool s = or_text s.tool "the requested tool"

unfoldable pub handle_malformed :
    RetryState → Chunk → Bool → RetryState × Bool × Option TerminalEvent
unfolding or_text is_active record_outcome exhausted_tool
handle_malformed s error retry_allowed =
    let attempted_tool = or_text error.tool "" in
    if is_active s
    then (record_outcome exhausted s, false, some (exhausted_event (exhausted_tool s)))
    else elim (matching_spec s.tool_specs attempted_tool) [
      | none ↦ (record_outcome invalid_tool s, false, some (provider_event error))
      | some matched ↦
          if retry_allowed
          then (
            record_outcome attempted (record s { tool = some attempted_tool; spec = some matched }),
            true,
            none,
          )
          else (record_outcome exhausted s, false, some (deadline_event attempted_tool))
    ]

unfoldable pub is_error : Chunk → Bool
is_error c = str_eq c.type "error"

-- the code is one of the two that a correction may repair
unfoldable pub is_argument_code : Option String → Bool
is_argument_code none = false
is_argument_code (some c) = str_eq c malformed_tool_argument_code || str_eq c invalid_tool_call_code

unfoldable pub first_provider_error : List Chunk → Option Chunk
unfolding is_error is_argument_code
first_provider_error [] = none
first_provider_error (c ∷ cs) =
    if is_error c && not (is_argument_code c.code) then some c else first_provider_error cs

-- a call's tool against the tool under correction, which may be `None`
unfoldable pub names_tool : Option String → Option String → Bool
unfolding or_text
names_tool called none = false
names_tool called (some t) = str_eq (or_text called "") t

-- exactly one call, of the tool under correction
unfoldable pub is_single_call : List (Option String) → Option String → Bool
unfolding names_tool
is_single_call [] tool = false
is_single_call (c ∷ []) tool = names_tool c tool
is_single_call (c ∷ d ∷ rest) tool = false

-- `calls` holds the tool of each call, and `blank` is `not text.strip()`
unfoldable pub validate_correction :
    RetryState → List Chunk → List (Option String) → Bool → RetryState × Option TerminalEvent
unfolding record_outcome is_single_call exhausted_tool
validate_correction s buffered calls blank = elim (first_provider_error buffered) [
  | some e ↦ (record_outcome exhausted s, some (provider_event e))
  | none ↦
      if is_single_call calls s.tool && blank && not (any is_error buffered)
      then (record_outcome recovered (record s { spec = none; tool = none }), none)
      else (record_outcome exhausted s, some (exhausted_event (exhausted_tool s)))
]
