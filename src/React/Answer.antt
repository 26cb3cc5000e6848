-- ===== src/React/Answer.antt =====
-- What `run` of execution_engine/agent/react_engine.py does with one answer of the model.
use Prim.Native.String.{◌++◌ as str_append}
use execution_engine.Common.{
  ℕ, zero, suc, ◌-◌, String, str_eq, Bool, true, false, not, ◌&&◌, ◌||◌, Option, none, some, List,
  [], ◌∷◌, ◌++◌, map, keep, ltb, length, get_or, opt_eq, if◌then◌else◌,
}
use execution_engine.Agent.Retry.Policy.{
  Chunk, TerminalEvent, exhausted_event, deadline_event, provider_event,
  malformed_tool_argument_code, is_active, instruction, is_argument_code, handle_malformed,
  validate_correction,
}
use execution_engine.Agent.Skills.Loading.{is_skill_call}
use execution_engine.Agent.Usage.Accounting
use execution_engine.Agent.Usage.Accounting.{StreamEvent, UsageValue, Counts, collect}
use execution_engine.React.State.{
  Call, ModelChunk, runtime, runtime_reached_in_stream, budget_left, correct, notice, call_event,
  chunk_event, retry_failed, provider_failed, LoopState, Engine, assistant_turn, say,
}
use execution_engine.React.Calls.{Next, again, leaves, ends, end_with}

-- one chunk as it arrives: whether the run is cancelled or out of time by then
pub record Read (J : Type 0) : Type 0 where
  pub chunk : ModelChunk J
  pub cancelled : Bool
  pub expired : Bool

-- `buffered`, `calls` and the joined `text_parts`
pub record Buffer (J : Type 0) : Type 0 where
  pub chunks : List (ModelChunk J)
  pub calls : List (Call J)
  pub text : String

-- the usage that an error event reports: that of the provider's event
unfoldable pub terminal_usage :
    TerminalEvent → Option (List (String × UsageValue)) → Option (List (String × UsageValue))
terminal_usage (exhausted_event tool) usage = none
terminal_usage (deadline_event tool) usage = none
terminal_usage (provider_event k) usage = usage

module _ {J : Type 0} where
  unfoldable pub call_of : ModelChunk J → Call J
  call_of k = record {
    call_id = k.call_id;
    tool = get_or k.tool "None";
    arguments = k.arguments;
    provider_state = k.provider_state;
    budget_blocked = false;
    accounted = false;
    duplicate_accounted = false;
    approval_resolved = false;
  }

  unfoldable pub take_chunk : ModelChunk J → Buffer J → Buffer J
  unfolding call_of
  take_chunk k b =
      let b' = record b { chunks = b.chunks ++ k ∷ [] } in
      if str_eq k.type "tool_call"
      then record b' { calls = b.calls ++ call_of k ∷ [] }
      else if str_eq k.type "delta"
      then record b' { text = str_append b.text (get_or k.text "") }
      else b'

  -- the fields that the retry policy and the usage accounting read
  unfoldable pub policy_chunk : ModelChunk J → Chunk
  policy_chunk k = record { type = k.type; code = k.code; tool = k.tool }

  unfoldable pub usage_event : ModelChunk J → StreamEvent
  usage_event k = record { type = k.type; usage = k.usage }

  unfoldable pub provider_errors : List (ModelChunk J) → List (ModelChunk J)
  provider_errors chunks = keep (λ k. str_eq k.type "error") chunks

  -- the only provider error, if it reports malformed arguments
  unfoldable pub malformed_error : List (ModelChunk J) → Option (ModelChunk J)
  malformed_error [] = none
  malformed_error (k ∷ []) =
      if opt_eq k.code (some malformed_tool_argument_code) then some k else none
  malformed_error (k ∷ l ∷ rest) = none

  -- `provider_errors[-1] if provider_errors else None`
  unfoldable pub last_error : List (ModelChunk J) → Option (ModelChunk J)
  last_error [] = none
  last_error (k ∷ []) = some k
  last_error (k ∷ l ∷ rest) = last_error (l ∷ rest)

  -- the usage that the first error of another kind carries
  unfoldable pub foreign_usage : List (ModelChunk J) → Option (List (String × UsageValue))
  foreign_usage [] = none
  foreign_usage (k ∷ ks) =
      if str_eq k.type "error" && not (is_argument_code k.code) then k.usage else foreign_usage ks

  -- the calls from the given index on are blocked
  unfoldable pub block_from : ℕ → List (Call J) → List (Call J)
  block_from n [] = []
  block_from zero (c ∷ cs) = record c { budget_blocked = true } ∷ block_from zero cs
  block_from (suc n) (c ∷ cs) = c ∷ block_from n cs

module _ {J E V : Type 0} (engine : Engine J E V) where
  -- `async for chunk in self._gateway_stream(…)`
  unfoldable pub read_stream :
      List (Read J) → Buffer J → LoopState J E V → Buffer J × LoopState J E V
  unfolding take_chunk say
  read_stream [] b s = (b, s)
  read_stream (r ∷ rs) b s =
      let summary = read_stream rs b (say (chunk_event r.chunk) s) in
      let rest = read_stream rs (take_chunk r.chunk b) s in
      if r.cancelled
      then (b, s)
      else if r.expired
      then (b, say (notice runtime_reached_in_stream) (record s { guardrail = some runtime }))
      else if engine.is_summary r.chunk.type
      then summary
      else rest

  unfoldable pub announce : List (Call J) → LoopState J E V → LoopState J E V
  announce calls s = record s {
    emitted = s.emitted ++ map call_event (keep (λ c. not (is_skill_call c.tool)) calls);
  }

  -- the model calls tools: the turn is opened, and calls beyond the budget are blocked
  unfoldable pub open_turn : Buffer J → LoopState J E V → LoopState J E V
  unfolding block_from assistant_turn announce say
  open_turn b s =
      let remaining = engine.max_tool_calls - s.total_tool_calls in
      let calls = block_from remaining b.calls in
      let hit = s.tool_budget_hit || ltb remaining (length b.calls) in
      let s1 = record s {
        durable = record s.durable {
          transcript = s.transcript ++ assistant_turn engine.blank b.text b.calls ∷ [];
          closed_calls = [];
          open_calls = calls;
        };
        tool_budget_hit = hit;
      } in
      announce calls (if hit then say (notice budget_left) s1 else s1)

  -- `for chunk in buffered: yield provider_usage.finish(chunk)`
  unfoldable pub finish_chunks : List (ModelChunk J) → LoopState J E V → LoopState J E V
  unfolding say usage_event
  finish_chunks [] s = s
  finish_chunks (k ∷ ks) s =
      let (u, e) = Accounting.finish (usage_event k) s.usage in
      finish_chunks ks (say (chunk_event (record k { usage = e.usage })) (record s { usage = u }))

  unfoldable pub conclude : Buffer J → LoopState J E V → Next (LoopState J E V)
  unfolding open_turn finish_chunks end_with last_error provider_errors
  conclude b s = elim (last_error (provider_errors b.chunks)) [
    | some k ↦ ends (end_with (provider_failed k) k.usage s)
    | none ↦ elim b.calls [
      | [] ↦ leaves (finish_chunks b.chunks s)
      | c ∷ cs ↦ again (open_turn b s)
    ]
  ]

  unfoldable pub check_correction : Buffer J → LoopState J E V → Next (LoopState J E V)
  unfolding conclude end_with terminal_usage foreign_usage policy_chunk
  check_correction b s =
      let checked =
        validate_correction s.retry (map policy_chunk b.chunks) (map (λ c. some c.tool) b.calls)
          (engine.blank b.text) in
      let s' = record s { retry = checked.0 } in
      let corrected : Next (LoopState J E V) = elim checked.1 [
        | some t ↦ ends (end_with (retry_failed t) (terminal_usage t (foreign_usage b.chunks)) s')
        | none ↦ conclude b s'
      ] in
      if is_active s.retry then corrected else conclude b s

  unfoldable pub handle_error :
      Bool → ModelChunk J → Buffer J → LoopState J E V → Next (LoopState J E V)
  unfolding check_correction end_with terminal_usage policy_chunk
  handle_error in_time k b s =
      let handled = handle_malformed s.retry (policy_chunk k) in_time in
      let s' = record s { retry = handled.0 } in
      elim handled.2 [
        | some t ↦ ends (end_with (retry_failed t) (terminal_usage t k.usage) s')
        | none ↦
            if handled.1
            then again (record s' { loop_instruction = some (correct (instruction handled.0)) })
            else check_correction b s'
      ]

  -- the stream is over
  unfoldable pub take_answer : Bool → Bool → Buffer J → LoopState J E V → Next (LoopState J E V)
  unfolding handle_error check_correction malformed_error provider_errors usage_event
  take_answer cancelled in_time b s =
      let s' = record s { usage = collect s.usage (map usage_event b.chunks) } in
      let taken : Next (LoopState J E V) = elim (malformed_error (provider_errors b.chunks)) [
        | some k ↦ handle_error in_time k b s'
        | none ↦ check_correction b s'
      ] in
      if cancelled then ends s else taken
