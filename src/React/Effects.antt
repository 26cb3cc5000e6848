-- ===== src/React/Effects.antt =====
-- What one call leaves of the state, in terms of the fields that the laws of the loop speak of.
use execution_engine.Common.{ℕ, ◌+◌, ◌≤◌, ◌≡◌, false, ◌||◌, List, [], ◌∷◌, ◌++◌, if◌then◌else◌}
use execution_engine.Transcript.Turns.{ToolResult, TranscriptTurn}
use execution_engine.React.State.{Call, LoopState, Engine, part_of}
use execution_engine.React.Calls.{Next, again, leaves, ends, needs_approval}

pub record Core (J : Type 0) : Type 0 where
  pub transcript : List (TranscriptTurn J)
  pub current_step : ℕ
  pub requests : List (List (TranscriptTurn J))
  pub closed_calls : List (Call J)
  pub open_calls : List (Call J)
  pub tool_results : List (ToolResult J)
  pub total_tool_calls : ℕ
  pub executed : List (Call J)

abbrev pub core : {J E V : Type 0} → LoopState J E V → Core J
core s = record {
  transcript = s.transcript;
  current_step = s.current_step;
  requests = s.requests;
  closed_calls = s.closed_calls;
  open_calls = s.open_calls;
  tool_results = s.tool_results;
  total_tool_calls = s.total_tool_calls;
  executed = s.executed;
}

-- what a call adds to the total when its turn comes
abbrev pub charge : {J : Type 0} → Call J → ℕ
charge c = if c.budget_blocked || c.accounted then 0 else 1

module _ {J E V : Type 0} (engine : Engine J E V) where
  -- the tool client is called at most once, and only for a call that is neither blocked nor waiting
  -- for an approval
  pub data Ran (c : Call J) (k k' : Core J) : Type 0 where
    skipped : k'.executed ≡ k.executed → k.total_tool_calls ≤ k'.total_tool_calls → Ran c k k'
    called :
        (c' : Call J)
        → k'.executed ≡ k.executed ++ c' ∷ []
        → needs_approval engine c' ≡ false
        → c.budget_blocked ≡ false
        → k'.total_tool_calls ≡ k.total_tool_calls + charge c
        → Ran c k k'

  pub record Frame (c : Call J) (k k' : Core J) : Type 0 where
    pub transcript_same : k'.transcript ≡ k.transcript
    pub step_same : k'.current_step ≡ k.current_step
    pub requests_same : k'.requests ≡ k.requests
    pub total_le : k'.total_tool_calls ≤ k.total_tool_calls + charge c
    pub ran : Ran c k k'

  -- the call `call`, which is `c` with its marks, waits
  pub record Held (c call : Call J) (rest : List (Call J)) (k k' : Core J) : Type 0 where
    pub frame : Frame c k k'
    pub same_part : part_of call ≡ part_of c
    pub closed_same : k'.closed_calls ≡ k.closed_calls
    pub open_marked : k'.open_calls ≡ call ∷ rest
    pub results_same : k'.tool_results ≡ k.tool_results

  -- it has its result
  pub record Closed (c : Call J) (rest : List (Call J)) (k k' : Core J) : Type 0 where
    pub frame : Frame c k k'
    pub call : Call J
    pub result : ToolResult J
    pub same_part : part_of call ≡ part_of c
    pub answers_id : result.call_id ≡ call.call_id
    pub answers_name : result.name ≡ call.tool
    pub closed_snoc : k'.closed_calls ≡ k.closed_calls ++ call ∷ []
    pub open_rest : k'.open_calls ≡ rest
    pub results_snoc : k'.tool_results ≡ k.tool_results ++ result ∷ []

  pub data Effect (c : Call J) (rest : List (Call J)) (k : Core J)
      : Next (LoopState J E V) → Type 0 where
    closes : {s' : LoopState J E V} → Closed c rest k (core s') → Effect c rest k (again s')
    stops :
        {s' : LoopState J E V} (call : Call J)
        → Held c call rest k (core s')
        → Effect c rest k (leaves s')
    ends_held :
        {s' : LoopState J E V} (call : Call J)
        → Held c call rest k (core s')
        → Effect c rest k (ends s')
    ends_closed : {s' : LoopState J E V} → Closed c rest k (core s') → Effect c rest k (ends s')
