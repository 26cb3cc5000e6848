-- ===== src/React/Start.antt =====
-- The start of a run, without a checkpoint: `initial_transcript` of
-- execution_engine/agent/react_transcript.py and the first lines of `run` of react_engine.py.
use execution_engine.Common.{
  by_test, ℕ, ◌+◌, ◌*◌, ◌<◌, ◌≡◌, refl, sym, subst, String, Bool, some, List, [], ◌∷◌, arith, All,
  All-weaken, if◌then◌else◌,
}
use execution_engine.Transcript.Turns.{TranscriptTurn, text, user, assistant, calls_of}
use execution_engine.Transcript.Compaction.{compact_transcript}
use execution_engine.Transcript.Compacted.{compact_transcript-Compact}
use execution_engine.Transcript.Grammar.{Grammar}
use execution_engine.Agent.Retry.Policy.{RetryState}
use execution_engine.Agent.Skills.Loading.{resolve_skill_call}
use execution_engine.React.State.{LoopState, Engine}
use execution_engine.React.Calls.{Next, say_skills}
use execution_engine.React.Loop.{Round, run_loop, restore}
use execution_engine.React.Effects.{core}
use execution_engine.React.Invariants.{state_of, run_loop_keeps}
use execution_engine.React.Linked.{IsCanonical, idle, linked}
use execution_engine.React.Budget.{WithinBudget, Spent, within_budget, waiting, due_calls}
use execution_engine.React.Run.{run_loop_returns}

-- `Message`: whether the role is `user`, and the content
pub record Message : Type 0 where
  pub is_user : Bool
  pub content : String

unfoldable pub initial_turn : {J : Type 0} → Message → TranscriptTurn J
initial_turn m = if m.is_user then user m.content else assistant (text m.content ∷ [])

unfoldable pub initial_transcript : {J : Type 0} → List Message → List (TranscriptTurn J)
unfolding initial_turn
initial_transcript [] = []
initial_transcript (m ∷ ms) = initial_turn m ∷ initial_transcript ms

module _ {J E V : Type 0} (engine : Engine J E V) where
  -- `preload_referenced_skills` of execution_engine/agent/assistant_reference_context.py
  unfoldable pub preload : List String → LoopState J E V → LoopState J E V
  unfolding say_skills
  preload [] s = s
  preload (skill_ref ∷ refs) s =
      let loading =
        resolve_skill_call engine.blank skill_ref s.skills engine.skill_loader
          engine.max_skill_loads engine.max_loaded_skill_bytes in
      preload refs (
        say_skills loading.1.events
          (record s { durable = record s.durable { skills = loading.0 } }))

  -- the state of a run that has no checkpoint; the event that previews the request is left out
  unfoldable pub start : List Message → List String → V → RetryState → LoopState J E V
  unfolding initial_transcript restore preload
  start messages skill_refs verifications retry = preload skill_refs (
      restore engine
        (record {
          transcript = initial_transcript messages;
          current_step = 0;
          total_tool_calls = 0;
          duplicate_counts = [];
          closed_calls = [];
          open_calls = [];
          tool_results = [];
          evidence_ledger = [];
          evidence_omitted = 0;
          pending_verifications = verifications;
          skills = record { loaded_refs = []; loaded_instructions = []; loaded_bytes = 0 };
        })
        [] retry)

  preload-core : (refs : List String) (s : LoopState J E V) → core (preload refs s) ≡ core s
  unfolding preload say_skills
  preload-core [] s = refl
  preload-core (skill_ref ∷ refs) s = preload-core refs _

initial_transcript-Grammar :
    {J : Type 0} (ms : List Message) → Grammar (initial_transcript {J = J} ms)
unfolding initial_transcript calls_of
initial_transcript-Grammar [] = Grammar.ends
initial_transcript-Grammar {J} (m ∷ ms) =
    by_test (λ (t : TranscriptTurn J). Grammar (t ∷ initial_transcript ms)) m.is_user
      (λ _. Grammar.asks m.content (initial_transcript ms) (initial_transcript-Grammar ms))
      (λ _.
        Grammar.speaks (text m.content ∷ []) (initial_transcript ms) refl
          (initial_transcript-Grammar ms))

-- A run that starts from messages, whatever the model, the tools and the clock do: with
-- 4 * max_steps + 4 rounds of fuel its loop ends; every transcript that it has handed over for a
-- request has, once it is compacted to whatever bound, each group of tool calls answered, by id and
-- name, in the turn after; the calls executed are no more than the total, which is within
-- max_tool_calls; and none of them was a write that still needed its approval.
pub start-IsSafe :
    {J E V : Type 0} (engine : Engine J E V) (messages : List Message) (skill_refs : List String)
    (verifications : V) (retry : RetryState) (fuel : ℕ) (rounds : ℕ → Round J)
    (serialized_bytes : List (TranscriptTurn J) → ℕ) (max_bytes : ℕ)
    → 4 * engine.max_steps + 3 < fuel
    → (n : Next (LoopState J E V)) × (run_loop engine fuel rounds
          (start engine messages skill_refs verifications retry)
        ≡ some n)
      × All (λ ts. Grammar (compact_transcript serialized_bytes max_bytes ts)) (state_of n).requests
      × Spent engine (core (state_of n))
unfolding start restore waiting due_calls
start-IsSafe engine messages skill_refs verifications retry fuel rounds bytes most h =
    let s = start engine messages skill_refs verifications retry in
    let same = sym (preload-core engine skill_refs _) in
    let (n, e) = run_loop_returns engine fuel rounds s h in
    let fresh : IsCanonical engine (core s) =
      subst (IsCanonical engine) same
        (idle refl refl refl (initial_transcript-Grammar messages), tt) in
    let sent = (run_loop_keeps engine (linked engine) fuel rounds s n fresh e).1 in
    (
      n,
      e,
      All-weaken Grammar (λ ts. Grammar (compact_transcript bytes most ts))
          (λ ts g. (compact_transcript-Compact bytes most ts g).grammar) (state_of n).requests sent,
      run_loop_keeps engine (within_budget engine) fuel rounds s n
          (subst (WithinBudget engine) same
            (record { executed_due = omega arith; total_waiting = omega arith; approved = tt }))
          e,
    )
