-- ===== src/Transcript/Compaction.antt =====
-- `compact_transcript` of execution_engine/agent/gateway_request.py. `serialized_bytes` measures the
-- turns through the JSON encoder of the library, and is a parameter.
use execution_engine.Common.{
  ℕ, zero, suc, Bool, true, false, ◌&&◌, ◌||◌, Option, none, some, List, [], ◌∷◌, ltb, length, any,
  if◌then◌else◌,
}
use execution_engine.Transcript.Turns.{
  AssistantPart, TranscriptTurn, user, assistant, tool_results, calls_of,
}

module _ {J : Type 0} where
  -- a turn has a part of type `tool_call`
  unfoldable pub has_calls : List (AssistantPart J) → Bool
  unfolding calls_of
  has_calls parts = elim (calls_of parts) [ [] ↦ false | c ∷ cs ↦ true ]

  unfoldable pub is_user : TranscriptTurn J → Bool
  is_user (user t) = true
  is_user (assistant parts) = false
  is_user (tool_results rs) = false

  -- a closed exchange starts somewhere in the turns
  unfoldable pub has_exchange : List (TranscriptTurn J) → Bool
  unfolding has_calls
  has_exchange [] = false
  has_exchange (user t ∷ ts) = has_exchange ts
  has_exchange (tool_results rs ∷ ts) = has_exchange ts
  has_exchange (assistant parts ∷ tool_results rs ∷ ts) = has_calls parts || has_exchange ts
  has_exchange (assistant parts ∷ ts) = has_exchange ts

  unfoldable pub keep_turn :
      TranscriptTurn J → Option (List (TranscriptTurn J)) → Option (List (TranscriptTurn J))
  keep_turn t none = none
  keep_turn t (some ts) = some (t ∷ ts)

  -- the turns without the first closed exchange but the latest one, or without the first other
  -- assistant turn but a last one
  unfoldable pub drop_assistant : List (TranscriptTurn J) → Option (List (TranscriptTurn J))
  unfolding has_calls has_exchange keep_turn
  drop_assistant [] = none
  drop_assistant (user t ∷ ts) = keep_turn (user t) (drop_assistant ts)
  drop_assistant (tool_results rs ∷ ts) = keep_turn (tool_results rs) (drop_assistant ts)
  drop_assistant (assistant parts ∷ []) = none
  drop_assistant (assistant parts ∷ tool_results rs ∷ ts) =
      let later = keep_turn (assistant parts) (keep_turn (tool_results rs) (drop_assistant ts)) in
      if has_calls parts
      then (if has_exchange ts then some ts else later)
      else some (tool_results rs ∷ ts)
  drop_assistant (assistant parts ∷ t ∷ ts) =
      let later = keep_turn (assistant parts) (drop_assistant (t ∷ ts)) in
      if has_calls parts then later else some (t ∷ ts)

  -- the turns without the first user turn but the latest one
  unfoldable pub drop_user : List (TranscriptTurn J) → Option (List (TranscriptTurn J))
  unfolding keep_turn is_user
  drop_user [] = none
  drop_user (t ∷ ts) =
      let later = keep_turn t (drop_user ts) in
      if is_user t && any is_user ts then some ts else later

  -- one eviction; `none` is the `break`
  unfoldable pub remove_turns : List (TranscriptTurn J) → Option (List (TranscriptTurn J))
  unfolding drop_assistant drop_user
  remove_turns ts = elim (drop_assistant ts) [ some us ↦ some us | none ↦ drop_user ts ]

  module _ (serialized_bytes : List (TranscriptTurn J) → ℕ) (max_bytes : ℕ) where
    unfoldable pub compact_loop : ℕ → List (TranscriptTurn J) → List (TranscriptTurn J)
    compact_loop zero ts = ts
    compact_loop (suc fuel) ts = elim (ltb max_bytes (serialized_bytes ts)) [
      | false ↦ ts
      | true ↦ elim (remove_turns ts) [ none ↦ ts | some us ↦ compact_loop fuel us ]
    ]

    -- each round removes a turn, so as many rounds as turns are enough
    unfoldable pub compact_transcript : List (TranscriptTurn J) → List (TranscriptTurn J)
    unfolding compact_loop
    compact_transcript ts = compact_loop (length ts) ts
