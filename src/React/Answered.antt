-- ===== src/React/Answered.antt =====
-- What one answer of the model leaves of the state, in terms of the fields that the laws of the loop
-- speak of.
use execution_engine.Common.{
  by_test, ℕ, ◌-◌, String, ◌≡◌, refl, ap, sym, ◌∙◌, Bool, true, false, ◌||◌, str_eq, none, some,
  List, [], ◌∷◌, ◌++◌, map, arith, if◌then◌else◌, All, All-snoc, ltb, length,
}
use execution_engine.Agent.Retry.Policy.{
  Chunk, RetryState, is_active, record_outcome, handle_malformed, validate_correction, instruction,
}
use execution_engine.Agent.Usage.Accounting.{collect}
use execution_engine.React.State.{
  Call, ModelChunk, correct, chunk_event, provider_failed, retry_failed, LoopState, Engine,
  assistant_turn, say,
}
use execution_engine.React.Calls.{Next, again, leaves, ends, end_with}
use execution_engine.React.Answer.{
  Read, Buffer, call_of, take_chunk, policy_chunk, usage_event, provider_errors, malformed_error,
  last_error, foreign_usage, terminal_usage, block_from, read_stream, announce, open_turn,
  finish_chunks, conclude, check_correction, handle_error, take_answer,
}
use execution_engine.React.Effects.{Core, core}

-- a call that has just come
abbrev pub IsNew : {J : Type 0} → Call J → Type 0
IsNew c = (c.budget_blocked ≡ false) × (c.accounted ≡ false)

-- the new calls open a turn
abbrev pub open_core : {J : Type 0} → (String → Bool) → ℕ → String → List (Call J) → Core J → Core J
open_core blank most t calls k = record k {
  transcript = k.transcript ++ assistant_turn blank t calls ∷ [];
  closed_calls = [];
  open_calls = block_from (most - k.total_tool_calls) calls;
}

module _ {J E V : Type 0} (engine : Engine J E V) where
  -- the stream only tells events and may set the guardrail, and its calls are new
  pub record Streamed (s s' : LoopState J E V) (calls : List (Call J)) : Type 0 where
    pub same_core : core s' ≡ core s
    pub same_retry : s'.retry ≡ s.retry
    pub new_calls : All IsNew calls

  take_chunk-IsNew :
      (k : ModelChunk J) (b : Buffer J) → All IsNew b.calls → All IsNew (take_chunk k b).calls
  unfolding take_chunk call_of
  take_chunk-IsNew k b a =
      by_test (λ (b' : Buffer J). All IsNew b'.calls) (str_eq k.type "tool_call")
        (λ _. All-snoc IsNew b.calls (call_of k) a (refl, refl))
        λ _.
          by_test (λ (b' : Buffer J). All IsNew b'.calls) (str_eq k.type "delta") (λ _. a) (λ _. a)

  pub read_stream_lem :
      (rs : List (Read J)) (b : Buffer J) (s : LoopState J E V)
      → All IsNew b.calls
      → Streamed s (read_stream engine rs b s).1 (read_stream engine rs b s).0.calls
  unfolding read_stream say
  read_stream_lem [] b s a = record { same_core = refl; same_retry = refl; new_calls = a }
  read_stream_lem (r ∷ rs) b s a =
      let told = read_stream_lem rs b (say (chunk_event r.chunk) s) a in
      let taken = read_stream_lem rs (take_chunk r.chunk b) s (take_chunk-IsNew r.chunk b a) in
      let unread : Streamed s s b.calls = record {
        same_core = refl;
        same_retry = refl;
        new_calls = a;
      } in
      by_test (λ (p : Buffer J × LoopState J E V). Streamed s p.1 p.0.calls) r.cancelled
        (λ _. unread)
        λ _.
          by_test (λ (p : Buffer J × LoopState J E V). Streamed s p.1 p.0.calls) r.expired
            (λ _. record { same_core = refl; same_retry = refl; new_calls = a })
            λ _.
              by_test (λ (p : Buffer J × LoopState J E V). Streamed s p.1 p.0.calls)
                (engine.is_summary r.chunk.type)
                (λ _. record {
                  same_core = told.same_core;
                  same_retry = told.same_retry;
                  new_calls = told.new_calls;
                })
                (λ _. taken)

  finish_chunks-core :
      (ks : List (ModelChunk J)) (s : LoopState J E V) → core (finish_chunks engine ks s) ≡ core s
  unfolding finish_chunks say
  finish_chunks-core [] s = refl
  finish_chunks-core (k ∷ ks) s = finish_chunks-core ks _

  -- the four ways in which an answer goes on
  pub data Answer (s : LoopState J E V) (calls : List (Call J))
      : Next (LoopState J E V) → Type 0 where
    -- the malformed call is asked for again, which happens only once
    retries :
        {s' : LoopState J E V}
        → core s' ≡ core s
        → is_active s.retry ≡ false
        → is_active s'.retry ≡ true
        → Answer s calls (again s')
    opens :
        {s' : LoopState J E V} (t : String) (c : Call J) (cs : List (Call J))
        → calls ≡ c ∷ cs
        → core s' ≡ open_core engine.blank engine.max_tool_calls t (c ∷ cs) (core s)
        → Answer s calls (again s')
    finishes : {s' : LoopState J E V} → core s' ≡ core s → Answer s calls (leaves s')
    fails : {s' : LoopState J E V} → core s' ≡ core s → Answer s calls (ends s')

  open_turn-core :
      (b : Buffer J) (s : LoopState J E V)
      → core (open_turn engine b s)
        ≡ open_core engine.blank engine.max_tool_calls b.text b.calls (core s)
  unfolding open_turn announce say
  open_turn-core b s =
      let remaining = engine.max_tool_calls - s.total_tool_calls in
      by_test
        (λ (s' : LoopState J E V).
          core (announce engine (block_from remaining b.calls) s')
          ≡ open_core engine.blank engine.max_tool_calls b.text b.calls (core s))
        (s.tool_budget_hit || ltb remaining (length b.calls)) (λ _. refl) (λ _. refl)

  conclude_lem :
      (b : Buffer J) (s s' : LoopState J E V)
      → core s' ≡ core s
      → Answer s b.calls (conclude engine b s')
  unfolding conclude say end_with
  conclude_lem b s s' same =
      elim (last_error (provider_errors b.chunks))
        as (λ o. Answer s b.calls (elim o [
          | some k ↦ ends (end_with (provider_failed k) k.usage s')
          | none ↦ elim b.calls [
            | [] ↦ leaves (finish_chunks engine b.chunks s')
            | c ∷ cs ↦ again (open_turn engine b s')
          ]
        ])) [ some k ↦ fails same | none ↦ opened b.calls refl ]
    where
      opened :
          (calls : List (Call J))
          → b.calls ≡ calls
          → Answer s b.calls (elim calls [
            | [] ↦ leaves (finish_chunks engine b.chunks s')
            | c ∷ cs ↦ again (open_turn engine b s')
          ])
      opened [] e = finishes (finish_chunks-core b.chunks s' ∙ same)
      opened (c ∷ cs) e = opens b.text c cs e (
          open_turn-core b s'
          ∙ ap (open_core engine.blank engine.max_tool_calls b.text b.calls) same
          ∙ ap (λ l. open_core engine.blank engine.max_tool_calls b.text l (core s)) e)

  check_correction_lem :
      (b : Buffer J) (s s' : LoopState J E V)
      → core s' ≡ core s
      → Answer s b.calls (check_correction engine b s')
  unfolding check_correction end_with say
  check_correction_lem b s s' same =
      let checked =
        validate_correction s'.retry (map policy_chunk b.chunks) (map (λ c. some c.tool) b.calls)
          (engine.blank b.text) in
      let s'' : LoopState J E V = record s' { retry = checked.0 } in
      by_test (Answer s b.calls) (is_active s'.retry)
        (λ _.
          elim checked.1
            as (λ o. Answer s b.calls (elim o [
              | some t ↦
                  ends (end_with (retry_failed t) (terminal_usage t (foreign_usage b.chunks)) s'')
              | none ↦ conclude engine b s''
            ])) [ some t ↦ fails same | none ↦ conclude_lem b s s'' same ])
        (λ _. conclude_lem b s s' same)

  -- a second attempt is made only while none is under way
  handle_malformed_retries :
      (r : RetryState) (k : Chunk) (in_time : Bool)
      → (handle_malformed r k in_time).1 ≡ true
      → (is_active r ≡ false) × (is_active (handle_malformed r k in_time).0 ≡ true)
  unfolding handle_malformed record_outcome is_active
  handle_malformed_retries r k in_time h = ground (arith, h)

  handle_error_lem :
      (in_time : Bool) (k : ModelChunk J) (b : Buffer J) (s : LoopState J E V)
      → Answer s b.calls (handle_error engine in_time k b s)
  unfolding handle_error end_with say
  handle_error_lem in_time k b s =
      let handled = handle_malformed s.retry (policy_chunk k) in_time in
      let s' : LoopState J E V = record s { retry = handled.0 } in
      elim handled.2
        as (λ o. Answer s b.calls (elim o [
          | some t ↦ ends (end_with (retry_failed t) (terminal_usage t k.usage) s')
          | none ↦
              if handled.1
              then again (record s' { loop_instruction = some (correct (instruction handled.0)) })
              else check_correction engine b s'
        ])) [
          | some t ↦ fails refl
          | none ↦
              by_test (Answer s b.calls) handled.1
                (λ h.
                  let (idle, active) =
                    handle_malformed_retries s.retry (policy_chunk k) in_time h in
                  retries refl idle active)
                (λ _. check_correction_lem b s s' refl)
        ]

  -- the same answer, seen from a state that differs in other fields
  rebase :
      (s s' : LoopState J E V) {calls : List (Call J)} {n : Next (LoopState J E V)}
      → core s' ≡ core s
      → s'.retry ≡ s.retry
      → Answer s' calls n
      → Answer s calls n
  rebase s s' e r (retries c idle active) = retries (c ∙ e) (ap is_active (sym r) ∙ idle) active
  rebase s s' e r (opens t c cs n k) =
      opens t c cs n (k ∙ ap (open_core engine.blank engine.max_tool_calls t (c ∷ cs)) e)
  rebase s s' e r (finishes c) = finishes (c ∙ e)
  rebase s s' e r (fails c) = fails (c ∙ e)

  pub take_answer_lem :
      (cancelled in_time : Bool) (b : Buffer J) (s : LoopState J E V)
      → Answer s b.calls (take_answer engine cancelled in_time b s)
  unfolding take_answer
  take_answer_lem cancelled in_time b s =
      let s' : LoopState J E V = record s { usage = collect s.usage (map usage_event b.chunks) } in
      by_test (Answer s b.calls) cancelled (λ _. fails refl)
        λ _.
          elim (malformed_error (provider_errors b.chunks))
            as (λ o. Answer s b.calls (elim o [
              | some k ↦ handle_error engine in_time k b s'
              | none ↦ check_correction engine b s'
            ])) [
              | some k ↦ rebase s s' refl refl (handle_error_lem in_time k b s')
              | none ↦ check_correction_lem b s s' refl
            ]
