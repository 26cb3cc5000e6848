-- ===== src/Tests/Loops.antt =====
-- The loop of execution_engine/agent/react_engine.py at concrete inputs, with numbers for JSON.
use execution_engine.Common.{
  ℕ, zero, suc, String, true, false, ◌≡◌, ◌≢◌, inl, refl, Option, none, some, List, [], ◌∷◌, ◌++◌,
  arith, All, length, str_eq, keep, any, opt_eq,
}
use execution_engine.Transcript.Turns.{openai, tool_call, user, assistant, calls_of}
use execution_engine.Transcript.Sequence.{validate_sequence}
use execution_engine.Transcript.Compaction.{compact_transcript}
use execution_engine.Transcript.Grammar.{Grammar}
use execution_engine.Agent.Retry.Policy.{RetryState, is_active}
use execution_engine.Agent.Evidence.Ledger.{merge_evidence, put_entries, evict_loop, is_over}
use execution_engine.React.State.{Call, ModelChunk, runtime, Durable, LoopState, Engine, part_of}
use execution_engine.React.Calls.{
  CallTurn, run_calls, check_call, limit_repeats, take_reply, dispatch_call, needs_approval,
  execute, handle_call, refuse_call, returned, Next, again, leaves, ends,
}
use execution_engine.Common.Dict.{lookup, insert}
use execution_engine.Agent.Skills.Loading.{is_skill_call}
use execution_engine.React.Answer.{Read, take_answer, read_stream, block_from, announce, open_turn}
use execution_engine.React.Loop.{
  Round, round, run_loop, close_group, has_write, finalize, restore, resume_with,
}
use execution_engine.React.Effects.{core}
use execution_engine.React.Invariants.{state_of}
use execution_engine.React.Linked.{Linked, busy}
use execution_engine.React.Budget.{WithinBudget, Spent, waiting, due_calls}
use execution_engine.React.Run.{run_loop_returns, run_loop-IsCanonical, run_loop-Spent}
use execution_engine.React.Finish.{deadline_rejected, finalize-IsCanonical, resume_with-Linked}
use execution_engine.React.Start.{Message, start, start-IsSafe}

abbrev engine0 : Engine ℕ ℕ ℕ
engine0 = record {
  max_steps = 2;
  max_tool_calls = 1;
  max_duplicates = 2;
  confirmation_required_for_write = true;
  tool_capabilities = ("restart", "write") ∷ ("list", "read") ∷ [];
  skill_loader = none;
  max_skill_loads = 3;
  max_loaded_skill_bytes = 100;
  max_run_evidence_bytes = 100;
  blank = λ t. str_eq t "";
  is_summary = λ t. str_eq t "reasoning_summary_delta";
  json_bytes = λ l. length l;
  signature = λ tool arguments. tool;
  compact = λ j. j;
  evidence_of = λ tool arguments is_error j. record { key = tool; protection = none; body = j };
  remediation_validation = λ id tool arguments ledger. none;
  observe_remediation = λ v tool arguments is_error j. v;
  skill_ref = λ j. "";
  refusal_value = λ r. 400;
  skill_value = λ r. 0;
}

abbrev retry0 : RetryState
retry0 = record { tool_specs = []; tool = none; spec = none; outcomes = [] }

abbrev chunk : String → Option String → String → ModelChunk ℕ
chunk kind tool id = record {
  type = kind;
  text = some "ok";
  code = none;
  tool = tool;
  call_id = id;
  arguments = 0;
  provider_state = none;
  usage = none;
}

abbrev turn0 : CallTurn ℕ
turn0 = record {
  cancelled = false;
  validation = none;
  cancelled_late = false;
  expired_late = false;
  reply = returned 7 false false;
}

abbrev read0 : ModelChunk ℕ → Read ℕ
read0 k = record { chunk = k; cancelled = false; expired = false }

abbrev round_of : List (Read ℕ) → Round ℕ
round_of reads = record {
  cancelled = false;
  expired = false;
  turns = λ n. turn0;
  reads = reads;
  cancelled_after = false;
  in_time = true;
}

-- the model calls two tools, then it answers
abbrev rounds0 : ℕ → Round ℕ
rounds0 zero =
    round_of (
      read0 (chunk "tool_call" (some "list") "a")
      ∷ read0 (chunk "tool_call" (some "list") "b")
      ∷ [])
rounds0 (suc n) = round_of (read0 (chunk "final" none "") ∷ [])

abbrev messages0 : List Message
messages0 = record { is_user = true; content = "why?" } ∷ []

abbrev start0 : LoopState ℕ ℕ ℕ
unfolding start
start0 = start engine0 messages0 [] 0 retry0

start-IsSafe_example :
    (n : Next (LoopState ℕ ℕ ℕ)) × (run_loop engine0 12 rounds0
        (start engine0 messages0 [] 0 retry0)
      ≡ some n)
    × All (λ ts. Grammar (compact_transcript (λ l. length l) 2 ts)) (state_of n).requests
    × Spent engine0 (core (state_of n))
start-IsSafe_example =
    start-IsSafe engine0 messages0 [] 0 retry0 12 rounds0 (λ l. length l) 2 (omega arith)

run_loop_returns_example :
    (n : Next (LoopState ℕ ℕ ℕ)) × (run_loop engine0 12 rounds0
        (start engine0 messages0 [] 0 retry0)
      ≡ some n)
run_loop_returns_example =
    run_loop_returns engine0 12 rounds0 (start engine0 messages0 [] 0 retry0) (omega arith)

abbrev counts : Option (Next (LoopState ℕ ℕ ℕ)) → ℕ × ℕ
counts none = (9, 9)
counts (some (again s)) = (8, 8)
counts (some (ends s)) = (7, 7)
counts (some (leaves s)) = (length s.executed, length s.requests)

-- of two calls one is executed, since the budget is one, and one request is sent before the budget
-- ends the loop
executed_once : counts (run_loop engine0 12 rounds0 start0) ≡ (1, 1)
unfolding run_loop start0 round take_answer keep read_stream is_active run_calls check_call
    limit_repeats lookup take_reply dispatch_call is_skill_call needs_approval execute opt_eq
    merge_evidence put_entries evict_loop is_over block_from announce open_turn handle_call
    close_group any insert refuse_call has_write
executed_once = refl

abbrev call0 : Call ℕ
call0 = record {
  call_id = "a";
  tool = "restart";
  arguments = 0;
  provider_state = none;
  budget_blocked = false;
  accounted = true;
  duplicate_accounted = true;
  approval_resolved = true;
}

-- a write waits for its approval
abbrev durable0 : Durable ℕ ℕ ℕ
durable0 = record {
  transcript =
      user "why?"
      ∷ assistant (
          tool_call
            (record { call_id = "a"; name = "restart"; arguments = 0; provider_state = none })
          ∷ [])
      ∷ [];
  current_step = 0;
  total_tool_calls = 1;
  duplicate_counts = ("restart", 1) ∷ [];
  closed_calls = [];
  open_calls = call0 ∷ [];
  tool_results = [];
  evidence_ledger = [];
  evidence_omitted = 0;
  pending_verifications = 0;
  skills = record { loaded_refs = []; loaded_instructions = []; loaded_bytes = 0 };
}

abbrev waiting0 : LoopState ℕ ℕ ℕ
waiting0 = record {
  durable = durable0;
  loop_instruction = none;
  guardrail = none;
  tool_budget_hit = false;
  retry = retry0;
  usage = [];
  emitted = [];
  requests = [];
  executed = [];
}

waiting0-Linked : Linked (core waiting0)
unfolding part_of calls_of
waiting0-Linked =
    busy (user "why?" ∷ []) _ _ [] refl (Grammar.asks "why?" [] Grammar.ends) refl refl tt

run_loop-IsCanonical_example :
    (n : Next (LoopState ℕ ℕ ℕ)) × (run_loop engine0 12 rounds0 waiting0 ≡ some n)
    × Linked (core (state_of n))
    × All Grammar (state_of n).requests
run_loop-IsCanonical_example =
    run_loop-IsCanonical engine0 12 rounds0 waiting0 (omega arith) waiting0-Linked tt

waiting0-WithinBudget : WithinBudget engine0 (core waiting0)
unfolding waiting due_calls
waiting0-WithinBudget = record {
  executed_due = omega arith;
  total_waiting = omega arith;
  approved = tt;
}

run_loop-Spent_example :
    (n : Next (LoopState ℕ ℕ ℕ)) × (run_loop engine0 12 rounds0 waiting0 ≡ some n)
    × Spent engine0 (core (state_of n))
run_loop-Spent_example =
    run_loop-Spent engine0 12 rounds0 waiting0 (omega arith) waiting0-WithinBudget

abbrev late : Round ℕ
late = record {
  cancelled = false;
  expired = true;
  turns = λ n. turn0;
  reads = [];
  cancelled_after = false;
  in_time = false;
}

deadline_rejected_example :
    (s' : LoopState ℕ ℕ ℕ) × (round engine0 late waiting0 ≡ leaves s')
    × (s'.guardrail ≡ some runtime)
    × ((finalize engine0 false (chunk "final" none "" ∷ []) s').requests
        ≡ waiting0.requests ++ waiting0.transcript ∷ [])
    × (validate_sequence (record { provider = openai; turns = waiting0.transcript }) ≢ none)
deadline_rejected_example =
    deadline_rejected engine0 late waiting0 (chunk "final" none "" ∷ []) openai waiting0-Linked
      (omega arith) refl refl

finalize-IsCanonical_example :
    All Grammar (finalize engine0 false (chunk "final" none "" ∷ []) waiting0).requests
finalize-IsCanonical_example =
    finalize-IsCanonical engine0 false (chunk "final" none "" ∷ []) waiting0 waiting0-Linked tt
      (inl refl)

restored-Linked : Linked (core (restore engine0 durable0 [] retry0))
unfolding part_of calls_of restore
restored-Linked =
    busy (user "why?" ∷ []) _ _ [] refl (Grammar.asks "why?" [] Grammar.ends) refl refl tt

resume_with-Linked_example :
    Linked (core (resume_with engine0 7 false (restore engine0 durable0 [] retry0)))
    × ((resume_with engine0 7 false (restore engine0 durable0 [] retry0)).open_calls ≡ [])
    × ((resume_with engine0 7 false (restore engine0 durable0 [] retry0)).closed_calls ≡ call0 ∷ [])
    × ((resume_with engine0 7 false (restore engine0 durable0 [] retry0)).tool_results
        ≡ record { call_id = "a"; name = "restart"; result = 7; is_error = false } ∷ [])
resume_with-Linked_example =
    resume_with-Linked engine0 durable0 [] retry0 7 false call0 [] restored-Linked refl
