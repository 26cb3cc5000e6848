-- ===== src/React/Loop.antt =====
-- `run` of execution_engine/agent/react_engine.py: the rounds of the loop and the final answer under
-- a guardrail.
use execution_engine.Common.{
  ℕ, zero, suc, ◌+◌, str_eq, Bool, true, false, not, ◌&&◌, ◌||◌, Option, none, some, List, [], ◌∷◌,
  ◌++◌, any, ltb, leb, is_some, if◌then◌else◌,
}
use execution_engine.Transcript.Turns.{ToolResult, TranscriptTurn, user, assistant, tool_results}
use execution_engine.Agent.Retry.Policy.{RetryState}
use execution_engine.Agent.Usage.Accounting
use execution_engine.Agent.Usage.Accounting.{Counts}
use execution_engine.React.State.{
  Call, ModelChunk, runtime, tool_budget, step_limit, runtime_reached, executing, results_received,
  reviewing, steps_reached, review, Durable, notice, result_event, chunk_event, LoopState, Engine,
  is_write, say,
}
use execution_engine.React.Calls.{
  CallTurn, Next, again, leaves, ends, close_call, note_evidence, run_calls,
}
use execution_engine.React.Answer.{Read, usage_event, read_stream, take_answer}

-- what the environment does during one round: whether the run is cancelled or out of time at its
-- head, the turns of its calls, the stream, whether the run is cancelled after the stream, and
-- whether a retry is still in time
pub record Round (J : Type 0) : Type 0 where
  pub cancelled : Bool
  pub expired : Bool
  pub turns : ℕ → CallTurn J
  pub reads : List (Read J)
  pub cancelled_after : Bool
  pub in_time : Bool

module _ {J : Type 0} where
  -- `{"type": "tool_results"}` is the last turn
  unfoldable pub ends_with_results : List (TranscriptTurn J) → Bool
  ends_with_results [] = false
  ends_with_results (tool_results rs ∷ []) = true
  ends_with_results (user t ∷ []) = false
  ends_with_results (assistant parts ∷ []) = false
  ends_with_results (t ∷ u ∷ ts) = ends_with_results (u ∷ ts)

module _ {J E V : Type 0} (engine : Engine J E V) where
  -- a write among the calls that has succeeded
  unfoldable pub has_write : List (Call J) → List (ToolResult J) → Bool
  unfolding is_write
  has_write (c ∷ cs) (r ∷ rs) =
      (is_write engine.tool_capabilities c && not r.is_error) || has_write cs rs
  has_write _ _ = false

  -- all calls of the turn have their results
  unfoldable pub close_group : LoopState J E V → Next (LoopState J E V)
  unfolding has_write say
  close_group s =
      let s' = say (notice results_received) (record s {
        durable = record s.durable {
          transcript = s.transcript ++ tool_results s.tool_results ∷ [];
          closed_calls = [];
          open_calls = [];
          tool_results = [];
          current_step = s.current_step + 1;
        };
        loop_instruction = some (
            review (has_write s.closed_calls s.tool_results)
              (any (λ r. r.is_error) s.tool_results));
      }) in
      if s.tool_budget_hit then leaves (record s' { guardrail = some tool_budget }) else again s'

  -- the transcript is handed over for a request
  unfoldable pub send : LoopState J E V → LoopState J E V
  unfolding say
  send s =
      let s' = if ltb 0 s.current_step then say (notice reviewing) s else s in
      record s' { requests = s'.requests ++ s'.transcript ∷ [] }

  -- one request to the model, and its answer
  unfoldable pub ask : Round J → LoopState J E V → Next (LoopState J E V)
  unfolding send
  ask r s =
      let (b, s') =
        read_stream engine r.reads (record { chunks = []; calls = []; text = "" }) (send s) in
      take_answer engine r.cancelled_after r.in_time b s'

  unfoldable pub next_turn :
      Round J → List (Call J) → List (Call J) → LoopState J E V → Next (LoopState J E V)
  unfolding ask close_group say
  next_turn r [] [] s = ask r s
  next_turn r (c ∷ cs) [] s = close_group s
  next_turn r closed (c ∷ cs) s = run_calls engine r.turns (c ∷ cs) (say (notice executing) s)

  -- the body of `while current_step < max_steps`
  unfoldable pub round : Round J → LoopState J E V → Next (LoopState J E V)
  unfolding next_turn say
  round r s =
      if r.cancelled
      then leaves s
      else if r.expired
      then leaves (say (notice runtime_reached) (record s { guardrail = some runtime }))
      else next_turn r s.closed_calls s.open_calls s

  -- `none` is out of fuel
  unfoldable pub run_loop : ℕ → (ℕ → Round J) → LoopState J E V → Option (Next (LoopState J E V))
  run_loop zero rounds s = none
  run_loop (suc fuel) rounds s =
      let next : Option (Next (LoopState J E V)) = elim (round (rounds 0) s) [
        | again s' ↦ run_loop fuel (λ n. rounds (suc n)) s'
        | leaves s' ↦ some (leaves s')
        | ends s' ↦ some (ends s')
      ] in
      if ltb s.current_step engine.max_steps then next else some (leaves s)

  unfoldable pub reach_limit : LoopState J E V → LoopState J E V
  unfolding ends_with_results say
  reach_limit s =
      if leb engine.max_steps s.current_step
        && not (is_some s.guardrail)
        && ends_with_results s.transcript
      then say (notice steps_reached) (record s { guardrail = some step_limit })
      else s

  -- the chunks of the final answer: tool calls are dropped
  unfoldable pub observe_chunks : List (ModelChunk J) → LoopState J E V → LoopState J E V
  unfolding say usage_event
  observe_chunks [] s = s
  observe_chunks (k ∷ ks) s =
      let (u, e) = Accounting.observe (usage_event k) s.usage in
      let told = say (chunk_event (record k { usage = e.usage })) (record s { usage = u }) in
      observe_chunks ks (if str_eq k.type "tool_call" then s else told)

  -- after the loop
  unfoldable pub finalize : Bool → List (ModelChunk J) → LoopState J E V → LoopState J E V
  unfolding reach_limit observe_chunks
  finalize cancelled answer s =
      let s1 = reach_limit s in
      if is_some s1.guardrail && not cancelled
      then observe_chunks answer (record s1 { requests = s1.requests ++ s1.transcript ∷ [] })
      else s1

  -- the state that a checkpoint restores
  unfoldable pub restore : Durable J E V → Counts → RetryState → LoopState J E V
  restore d usage retry = record {
    durable = d;
    loop_instruction = none;
    guardrail = none;
    tool_budget_hit = false;
    retry = retry;
    usage = usage;
    emitted = [];
    requests = [];
    executed = [];
  }

  unfoldable pub answer_pending :
      J → Bool → Call J → List (Call J) → LoopState J E V → LoopState J E V
  unfolding say close_call note_evidence
  answer_pending value is_error c rest s =
      let s1 = say (result_event c.call_id c.tool value is_error) s in
      let s2 = note_evidence engine c value is_error (close_call engine c rest value is_error s1) in
      record s2 {
        durable = record s2.durable {
          pending_verifications =
              engine.observe_remediation s2.pending_verifications c.tool c.arguments is_error value;
        };
      }

  -- the result with which a run resumes, for the call that was pending
  unfoldable pub resume_with : J → Bool → LoopState J E V → LoopState J E V
  unfolding answer_pending
  resume_with value is_error s = elim s.open_calls [
    | [] ↦ s
    | c ∷ rest ↦ answer_pending value is_error c rest s
  ]
