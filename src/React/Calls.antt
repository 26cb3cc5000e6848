-- ===== src/React/Calls.antt =====
-- The loop over the tool calls of one turn in execution_engine/agent/react_engine.py.
use execution_engine.Common.{
  ℕ, ◌+◌, suc, String, Bool, true, not, ◌&&◌, Option, none, some, List, [], ◌∷◌, ◌++◌, map, ltb,
  get_or, str_eq, if◌then◌else◌,
}
use execution_engine.Common.Dict.{lookup, insert}
use execution_engine.Agent.Skills.Loading.{SkillEvent, is_skill_call, resolve_skill_call}
use execution_engine.Agent.Evidence.Ledger.{merge_evidence}
use execution_engine.Agent.Usage.Accounting.{StreamEvent, UsageValue, terminal}
use execution_engine.React.State.{
  Call, tool_call_budget_exceeded, tool_call_repeat_limit, RunEvent, result_event, skill_event,
  approval_interrupt, dependency_interrupt, max_runtime_exceeded, tool_refused,
  unknown_write_outcome, LoopState, Engine, transcript_tool_result, is_write, say,
}

-- what `call_tool` returns: `outcome_unknown` is the test on `full_result`
pub data ToolReply (J : Type 0) : Type 0 where
  terminal_error : String → ToolReply J
  dependency_wait : ToolReply J
  returned : J → Bool → Bool → ToolReply J

-- what the environment does during one call: whether the run is cancelled before it, the answer of
-- `preapproval_validation`, whether the run is cancelled or out of time after that, and the tool
pub record CallTurn (J : Type 0) : Type 0 where
  pub cancelled : Bool
  pub validation : Option J
  pub cancelled_late : Bool
  pub expired_late : Bool
  pub reply : ToolReply J

-- how a round of the loop ends: another one, a `break`, or a `return`
pub data Next (S : Type 0) : Type 0 where
  again leaves ends : S → Next S

unfoldable pub account : {J : Type 0} → Call J → Call J
account c = record c { accounted = true }

module _ {J E V : Type 0} where
  -- `yield provider_usage.terminal(event)`
  unfoldable pub end_with :
      (StreamEvent → RunEvent J E V)
      → Option (List (String × UsageValue))
      → LoopState J E V
      → LoopState J E V
  unfolding say
  end_with f event_usage s =
      let (rest, event) = terminal (record { type = "error"; usage = event_usage }) s.usage in
      say (f event) (record s { usage = rest })

  unfoldable pub say_skills : List SkillEvent → LoopState J E V → LoopState J E V
  say_skills events s = record s { emitted = s.emitted ++ map skill_event events }

  -- the call at `next_index` is marked
  unfoldable pub mark : Call J → List (Call J) → LoopState J E V → LoopState J E V
  mark c rest s = record s { durable = record s.durable { open_calls = c ∷ rest } }

  unfoldable pub count_call : Call J → LoopState J E V → LoopState J E V
  count_call c s = record s {
    durable = record s.durable {
      total_tool_calls = if c.accounted then s.total_tool_calls else s.total_tool_calls + 1;
    };
  }

  module _ (engine : Engine J E V) where
    -- the result of a call is appended, and `next_index` moves past it
    unfoldable pub close_call :
        Call J → List (Call J) → J → Bool → LoopState J E V → LoopState J E V
    unfolding transcript_tool_result
    close_call c rest value is_error s = record s {
      durable = record s.durable {
        closed_calls = s.closed_calls ++ c ∷ [];
        open_calls = rest;
        tool_results =
            s.tool_results ++ transcript_tool_result engine.compact c value is_error ∷ [];
      };
    }

    unfoldable pub note_evidence : Call J → J → Bool → LoopState J E V → LoopState J E V
    note_evidence c value is_error s =
        let entry = engine.evidence_of c.tool c.arguments is_error value in
        let merged =
          merge_evidence engine.json_bytes engine.max_run_evidence_bytes s.evidence_ledger
            (entry ∷ []) s.evidence_omitted in
        record s {
          durable = record s.durable { evidence_ledger = merged.0; evidence_omitted = merged.1 };
        }

    -- the loop answers the call itself, with an error
    unfoldable pub refuse_call : Call J → List (Call J) → J → LoopState J E V → LoopState J E V
    unfolding close_call say
    refuse_call c rest value s =
        close_call c rest value true (say (result_event c.call_id c.tool value true) s)

    -- `duplicate_counts[signature]`
    unfoldable pub repeats : Call J → LoopState J E V → ℕ
    repeats c s = get_or (lookup (engine.signature c.tool c.arguments) s.duplicate_counts) 0

    unfoldable pub note_repeat : Call J → LoopState J E V → LoopState J E V
    unfolding repeats
    note_repeat c s = record s {
      durable = record s.durable {
        duplicate_counts =
            if c.duplicate_accounted
            then s.duplicate_counts
            else insert (engine.signature c.tool c.arguments) (repeats c s + 1) s.duplicate_counts;
      };
    }

    -- the tool has answered
    unfoldable pub take_reply :
        ToolReply J → Call J → List (Call J) → LoopState J E V → Next (LoopState J E V)
    unfolding end_with close_call note_evidence say is_write
    take_reply (terminal_error code) c rest s = ends (end_with (tool_refused code) none s)
    take_reply dependency_wait c rest s = ends (say (dependency_interrupt c s.durable s.usage) s)
    take_reply (returned value is_error unknown) c rest s =
        let s1 = say (result_event c.call_id c.tool value is_error) s in
        let s2 = note_evidence c value is_error (close_call c rest value is_error s1) in
        let s3 = record s2 {
          durable = record s2.durable {
            pending_verifications =
                engine.observe_remediation s2.pending_verifications c.tool c.arguments is_error
                  value;
          };
        } in
        let writes = str_eq (get_or (lookup c.tool engine.tool_capabilities) "write") "write" in
        if is_error && writes && unknown
        then ends (end_with unknown_write_outcome none s3)
        else again s3

    unfoldable pub needs_approval : Call J → Bool
    unfolding is_write
    needs_approval c =
        engine.confirmation_required_for_write
        && is_write engine.tool_capabilities c
        && not c.approval_resolved

    unfoldable pub execute :
        ToolReply J → Call J → List (Call J) → LoopState J E V → Next (LoopState J E V)
    execute reply c rest s = take_reply reply c rest (record s { executed = s.executed ++ c ∷ [] })

    -- a skill is loaded, an approval is asked for, or the tool is called
    unfoldable pub dispatch_call :
        ToolReply J → Call J → List (Call J) → LoopState J E V → Next (LoopState J E V)
    unfolding say_skills close_call say
    dispatch_call reply c rest s =
        let loading =
          resolve_skill_call engine.blank (engine.skill_ref c.arguments) s.skills
            engine.skill_loader engine.max_skill_loads engine.max_loaded_skill_bytes in
        let loaded = record s { durable = record s.durable { skills = loading.0 } } in
        if is_skill_call c.tool
        then again (
            close_call c rest (engine.skill_value loading.1.result) loading.1.is_error
              (say_skills loading.1.events loaded))
        else if needs_approval c
        then ends (say (approval_interrupt c s.durable s.usage) s)
        else execute reply c rest s

    -- the arguments are valid: identical calls are limited
    unfoldable pub limit_repeats :
        ToolReply J → Call J → List (Call J) → LoopState J E V → Next (LoopState J E V)
    unfolding mark note_repeat refuse_call note_evidence
    limit_repeats reply c rest s =
        let c' = record c { duplicate_accounted = true } in
        let s' = mark c' rest (note_repeat c s) in
        let value = engine.refusal_value tool_call_repeat_limit in
        if ltb engine.max_duplicates (repeats c s')
        then again (note_evidence c' value true (refuse_call c' rest value s'))
        else dispatch_call reply c' rest s'

    -- the evidence against the call: invalid arguments, or a target that no evidence resolves
    unfoldable pub objection : Option J → Call J → LoopState J E V → Option J
    objection none c s =
        engine.remediation_validation c.call_id c.tool c.arguments s.evidence_ledger
    objection (some value) c s = some value

    unfoldable pub check_call :
        CallTurn J → Call J → List (Call J) → LoopState J E V → Next (LoopState J E V)
    unfolding objection refuse_call note_evidence end_with
    check_call t c rest s =
        if t.cancelled_late
        then leaves s
        else if t.expired_late
        then ends (end_with max_runtime_exceeded none s)
        else elim (objection t.validation c s) [
          | some value ↦ again (note_evidence c value true (refuse_call c rest value s))
          | none ↦ limit_repeats t.reply c rest s
        ]

    -- the body of `while next_index < len(active_calls)`. A cancelled run stays cancelled, so the
    -- `break` of the inner loop leaves the outer one too.
    unfoldable pub handle_call :
        CallTurn J → Call J → List (Call J) → LoopState J E V → Next (LoopState J E V)
    unfolding refuse_call account count_call mark
    handle_call t c rest s =
        if t.cancelled
        then leaves s
        else if c.budget_blocked
        then again (refuse_call c rest (engine.refusal_value tool_call_budget_exceeded) s)
        else check_call t (account c) rest (mark (account c) rest (count_call c s))

    unfoldable pub run_calls :
        (ℕ → CallTurn J) → List (Call J) → LoopState J E V → Next (LoopState J E V)
    unfolding handle_call
    run_calls turns [] s = again s
    run_calls turns (c ∷ rest) s = elim (handle_call (turns 0) c rest s) [
      | again s' ↦ run_calls (λ n. turns (suc n)) rest s'
      | leaves s' ↦ leaves s'
      | ends s' ↦ ends s'
    ]
