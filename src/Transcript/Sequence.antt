-- ===== src/Transcript/Sequence.antt =====
-- `validate_sequence` of execution_engine/transcript.py: `none` is a valid sequence, `some` the
-- error that is raised first.
use execution_engine.Common.{
  String, str_eq, Bool, true, false, not, ◌&&◌, Option, none, some, List, [], ◌∷◌, contains, add,
  opt_eq, any, if◌then◌else◌,
}
use execution_engine.Transcript.Turns.{
  ProviderName, provider_eq, ToolCallPart, ToolResult, TranscriptTurn, user, assistant,
  tool_results, CanonicalTranscript, SequenceError, not_answered, results_mismatch, name_mismatch,
  no_preceding_calls, duplicate_call_id, foreign_state, unresolved, calls_of, expected_ids,
  actual_ids,
}

-- equality of two lists of ids
unfoldable pub ids_eq : List String → List String → Bool
ids_eq [] [] = true
ids_eq (x ∷ xs) (y ∷ ys) = str_eq x y && ids_eq xs ys
ids_eq _ _ = false

-- the first of two errors
unfoldable pub or_else : Option SequenceError → Option SequenceError → Option SequenceError
or_else (some e) later = some e
or_else none later = later

module _ {J : Type 0} where
  -- `names[call_id]`: a later call of the same id would win
  unfoldable pub name_of : String → List (ToolCallPart J) → Option String
  name_of id [] = none
  name_of id (c ∷ cs) = elim (name_of id cs) [
    | some n ↦ some n
    | none ↦ if str_eq c.call_id id then some c.name else none
  ]

  unfoldable pub is_misnamed : List (ToolCallPart J) → ToolResult J → Bool
  unfolding name_of
  is_misnamed calls r = not (opt_eq (name_of r.call_id calls) (some r.name))

  -- a results turn against the calls that wait for it
  unfoldable pub check_results : List (ToolCallPart J) → List (ToolResult J) → Option SequenceError
  unfolding ids_eq is_misnamed
  check_results calls results =
      if not (ids_eq (actual_ids results) (expected_ids calls))
      then some results_mismatch
      else if any (is_misnamed calls) results
      then some name_mismatch
      else none

  unfoldable pub is_foreign : ProviderName → ToolCallPart J → Bool
  is_foreign provider c = elim c.provider_state [
    | none ↦ false
    | some s ↦ not (provider_eq s.provider provider)
  ]

  -- the loop over the calls of one turn; `seen` is `seen_call_ids`
  unfoldable pub check_calls :
      ProviderName → List String → List (ToolCallPart J) → Option SequenceError
  unfolding is_foreign
  check_calls provider seen [] = none
  check_calls provider seen (c ∷ cs) =
      let rest = check_calls provider (add c.call_id seen) cs in
      if contains seen c.call_id
      then some (duplicate_call_id c.call_id)
      else if is_foreign provider c
      then some foreign_state
      else rest

  unfoldable pub see : List String → List (ToolCallPart J) → List String
  see seen [] = seen
  see seen (c ∷ cs) = see (add c.call_id seen) cs

  -- the loop over the turns
  unfoldable pub check_turns :
      ProviderName
      → List String
      → List (ToolCallPart J)
      → List (TranscriptTurn J)
      → Option SequenceError
  unfolding check_results check_calls see or_else
  check_turns provider seen [] [] = none
  check_turns provider seen (c ∷ cs) [] = some unresolved
  check_turns provider seen (c ∷ cs) (user t ∷ turns) = some not_answered
  check_turns provider seen (c ∷ cs) (assistant parts ∷ turns) = some not_answered
  check_turns provider seen (c ∷ cs) (tool_results rs ∷ turns) =
      or_else (check_results (c ∷ cs) rs) (check_turns provider seen [] turns)
  check_turns provider seen [] (user t ∷ turns) = check_turns provider seen [] turns
  check_turns provider seen [] (tool_results rs ∷ turns) = some no_preceding_calls
  check_turns provider seen [] (assistant parts ∷ turns) =
      or_else (check_calls provider seen (calls_of parts))
        (check_turns provider (see seen (calls_of parts)) (calls_of parts) turns)

  unfoldable pub validate_sequence : CanonicalTranscript J → Option SequenceError
  unfolding check_turns
  validate_sequence t = check_turns t.provider [] [] t.turns
