-- ===== src/React/Run.antt =====
-- What `run` of execution_engine/agent/react_engine.py promises of its loop.
use execution_engine.Common.{ℕ, ◌+◌, ◌*◌, ◌<◌, ◌≡◌, some, arith, All}
use execution_engine.Transcript.Grammar.{Grammar}
use execution_engine.React.State.{LoopState, Engine}
use execution_engine.React.Calls.{Next}
use execution_engine.React.Loop.{Round, run_loop}
use execution_engine.React.Effects.{core}
use execution_engine.React.Invariants.{state_of, run_loop_keeps}
use execution_engine.React.Linked.{Linked, linked}
use execution_engine.React.Budget.{WithinBudget, Spent, within_budget}
use execution_engine.React.Fuel.{measured-Returns, measure_le}

module _ {J E V : Type 0} (engine : Engine J E V) where
  -- From any state, whatever the model, the tools and the clock do, the loop ends after at most
  -- 4 * max_steps + 4 rounds: that much fuel gives a result.
  pub run_loop_returns :
      (fuel : ℕ) (rounds : ℕ → Round J) (s : LoopState J E V)
      → 4 * engine.max_steps + 3 < fuel
      → (n : Next (LoopState J E V)) × (run_loop engine fuel rounds s ≡ some n)
  run_loop_returns fuel rounds s h =
      measured-Returns engine fuel rounds s (omega (arith, measure_le engine s))

  -- From a state in which every group of tool calls but the one in progress is answered in full, and
  -- with 4 * max_steps + 4 rounds of fuel, the loop ends in such a state, and every transcript that
  -- it has handed over for a request has each group of calls answered, by id and name, in the turn
  -- after.
  pub run_loop-IsCanonical :
      (fuel : ℕ) (rounds : ℕ → Round J) (s : LoopState J E V)
      → 4 * engine.max_steps + 3 < fuel
      → Linked (core s)
      → All Grammar s.requests
      → (n : Next (LoopState J E V)) × (run_loop engine fuel rounds s ≡ some n)
        × Linked (core (state_of n))
        × All Grammar (state_of n).requests
  run_loop-IsCanonical fuel rounds s h l g =
      let (n, e) = run_loop_returns fuel rounds s h in
      let (l', g') = run_loop_keeps engine (linked engine) fuel rounds s n (l, g) e in
      (n, e, l', g')

  -- From a state within the budget (the calls executed, with the accounted ones that wait, are no more
  -- than the total; the total, with what the open calls will add, is within max_tool_calls; no call
  -- executed wanted an approval), and with 4 * max_steps + 4 rounds of fuel, the loop ends with at
  -- most as many calls executed as the total counts, a total within max_tool_calls, and no executed
  -- call a write that still needed its approval.
  pub run_loop-Spent :
      (fuel : ℕ) (rounds : ℕ → Round J) (s : LoopState J E V)
      → 4 * engine.max_steps + 3 < fuel
      → WithinBudget engine (core s)
      → (n : Next (LoopState J E V)) × (run_loop engine fuel rounds s ≡ some n)
        × Spent engine (core (state_of n))
  run_loop-Spent fuel rounds s h w =
      let (n, e) = run_loop_returns fuel rounds s h in
      (n, e, run_loop_keeps engine (within_budget engine) fuel rounds s n w e)
