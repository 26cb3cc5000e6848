-- ===== src/Tests/Transcripts.antt =====
-- The theorems on transcripts, usage and authorities, at small inputs.
use execution_engine.Transcript.Compaction.{
  compact_transcript, remove_turns, drop_assistant, drop_user,
}
use execution_engine.Transcript.Compacted.{Compact, compact_transcript-Compact}
use execution_engine.Common.{
  List, length, take, drop, ◌++◌, ℕ, ◌+◌, ◌≡◌, ◌<◌, ◌↔◌, ◌⊎◌, String, Bool, true, false, not, ◌&&◌,
  none, some, [], ◌∷◌, refl, contains, is_some, any, opt_eq, All, IsDistinct,
}
use execution_engine.Common.Dict.{lookup, insert}
use execution_engine.Durability.Records.{Authority}
use execution_engine.Transcript.Turns.{
  TranscriptTurn, text, openai, ToolCallPart, ToolResult, tool_call, user, assistant, tool_results,
  CanonicalTranscript, expected_ids, actual_ids, calls_of, unresolved,
}
use execution_engine.Transcript.Sequence.{is_foreign, validate_sequence}
use execution_engine.Transcript.Grammar.{Grammar, all_calls}
use execution_engine.Transcript.Validity.{validate_sequence-exact}
use execution_engine.Agent.Usage.Accounting.{
  StreamEvent, whole, negative, collect, ends_stream, finish, reported, count,
}
use execution_engine.Agent.Usage.Totals.{total, finish-total}
use execution_engine.Capacity.Lease.{
  remaining_ms, lease_deadline, has_expired, is_cleanup, authority_request_hook, Grant, Reply,
  answered, renew_round,
}
use execution_engine.Capacity.Dispatch.{decide}
use execution_engine.Capacity.Fence.{expired_authority_fences, renew_round-keeps, decide-granted}
use execution_engine.Tests.Data.{state0}

abbrev list_call : ToolCallPart ℕ
list_call = record { call_id = "c1"; name = "list_pods"; arguments = 0; provider_state = none }

abbrev list_result : ToolResult ℕ
list_result = record { call_id = "c1"; name = "list_pods"; result = 3; is_error = false }

abbrev talk : CanonicalTranscript ℕ
talk = record {
  provider = openai;
  turns = user "why" ∷ assistant (tool_call list_call ∷ []) ∷ tool_results (list_result ∷ []) ∷ [];
}

talk_accepted : validate_sequence talk ≡ none
unfolding validate_sequence calls_of contains actual_ids expected_ids any opt_eq
talk_accepted = refl

talk_cut :
    validate_sequence
      (record talk { turns = user "why" ∷ assistant (tool_call list_call ∷ []) ∷ [] })
    ≡ some unresolved
unfolding validate_sequence calls_of contains
talk_cut = refl

validate_sequence-exact_example : (validate_sequence talk ≡ none) ↔ (
    Grammar talk.turns
    × IsDistinct (expected_ids (all_calls talk.turns))
    × All (λ c. is_foreign talk.provider c ≡ false) (all_calls talk.turns))
validate_sequence-exact_example = validate_sequence-exact talk

abbrev middle : StreamEvent
middle = record {
  type = "final";
  usage = some (("input_tokens", whole 7) ∷ ("output_tokens", negative 2) ∷ []);
}

abbrev delta : StreamEvent
delta = record { type = "delta"; usage = some (("input_tokens", whole 9) ∷ []) }

abbrev last : StreamEvent
last = record { type = "final"; usage = none }

finish-total_example :
    ((finish last (collect [] (middle ∷ delta ∷ []))).0 ≡ [])
    × ((finish last (collect [] (middle ∷ delta ∷ []))).1.usage
        ≡ some (reported (collect [] (middle ∷ delta ∷ []))))
    × (lookup "input_tokens" (reported (collect [] (middle ∷ delta ∷ [])))
        ≡ some (whole (count "input_tokens" [] + total "input_tokens" (middle ∷ delta ∷ []))))
unfolding collect contains ends_stream lookup insert
finish-total_example =
    finish-total "input_tokens" [] (middle ∷ delta ∷ []) last ("input_tokens", 7)
      (("output_tokens", 0) ∷ []) refl refl refl

abbrev held : Authority
held = record { run_id = "r1"; owner_id = "o1"; generation = 2; lost = false; deadline = some 1500 }

abbrev same_path : String → String → Bool
same_path part path = contains (part ∷ []) path

expired_authority_fences_example :
    ((authority_request_hook same_path held "/commit" 1600).1 ≡ is_cleanup same_path "/commit")
    × ((authority_request_hook same_path
          (authority_request_hook same_path held "/commit" 1600).0
          "/tools"
          1400).1
        ≡ false)
unfolding has_expired is_cleanup contains any
expired_authority_fences_example =
    expired_authority_fences same_path held "/commit" "/tools" 1600 1400 refl refl

abbrev renewal : Reply
renewal = answered (record {
  contract_version = some 1;
  status = some "ok";
  generation = none;
  lease = remaining_ms 900;
})

renew_round-keeps_example :
    (has_expired (renew_round held renewal 1100 1200 1300).0 1300 ≡ false)
    × ((is_some held.deadline && not (is_some (renew_round held renewal 1100 1200 1300).0.deadline))
        ≡ false)
unfolding renew_round opt_eq
renew_round-keeps_example = renew_round-keeps held renewal 1100 1200 1300 refl

abbrev given : Reply
given = answered (record {
  contract_version = some 1;
  status = some "granted";
  generation = some 4;
  lease = remaining_ms 900;
})

abbrev granted_authority : Authority
granted_authority = record {
  run_id = state0.run_id;
  owner_id = state0.capacity_owner_id;
  generation = 4;
  lost = false;
  deadline = some 2000;
}

decide-granted_example :
    ((true ≡ false) × (some granted_authority ≡ none))
    ⊎ ((a : Authority) × (g : Grant) × (true ≡ true)
        × (some granted_authority ≡ some a)
        × (given ≡ answered g)
        × (g.status ≡ some "granted")
        × (g.generation ≡ some a.generation)
        × (0 < a.generation)
        × (a.run_id ≡ state0.run_id)
        × (has_expired a 1200 ≡ false))
unfolding decide opt_eq lease_deadline
decide-granted_example = decide-granted true 40 1200 1100 state0 given (some granted_authority) refl

-- two questions, the first with a call and its result
abbrev long_turns : List (TranscriptTurn ℕ)
long_turns =
    user "one"
    ∷ assistant (
        tool_call (record { call_id = "a"; name = "list"; arguments = 0; provider_state = none })
        ∷ [])
    ∷ tool_results (record { call_id = "a"; name = "list"; result = 1; is_error = false } ∷ [])
    ∷ assistant (text "done" ∷ [])
    ∷ user "two"
    ∷ []

long_turns-Grammar : Grammar long_turns
unfolding calls_of
long_turns-Grammar = Grammar.asks "one" _ (
    Grammar.acts _ _ [] _ _ refl (refl, refl, tt)
      (Grammar.speaks _ _ refl (Grammar.asks "two" [] Grammar.ends)))

-- the answer and the first question go, the only exchange stays
compacted :
    compact_transcript (λ l. length l) 3 long_turns ≡ take 2 (drop 1 long_turns) ++ user "two" ∷ []
unfolding compact_transcript remove_turns drop_assistant drop_user any calls_of
compacted = refl

compact_transcript-Compact_example :
    Compact (λ l. length l) 3 long_turns (compact_transcript (λ l. length l) 3 long_turns)
compact_transcript-Compact_example =
    compact_transcript-Compact (λ l. length l) 3 long_turns long_turns-Grammar
