-- ===== src/React/Budget.antt =====
-- The calls that reach the tool client: their number against the budget, and the approvals.
use execution_engine.Common.{
  ℕ, zero, suc, ◌+◌, ◌-◌, ◌≤◌, false, ◌≡◌, refl, subst, List, [], ◌∷◌, arith, All, All-snoc, length,
  length-append, if◌then◌else◌,
}
use execution_engine.React.State.{Call, Engine}
use execution_engine.React.Calls.{needs_approval}
use execution_engine.React.Answer.{block_from}
use execution_engine.React.Effects.{Core, charge, Ran, skipped, called, Closed, Held}
use execution_engine.React.Answered.{IsNew}
use execution_engine.React.Invariants.{Invariant}

module _ {J : Type 0} where
  -- a call that is accounted for and may still run
  abbrev pub due : Call J → ℕ
  due c = if c.budget_blocked then 0 else if c.accounted then 1 else 0

  -- what the open calls will still add to the total
  unfoldable pub waiting : List (Call J) → ℕ
  waiting [] = 0
  waiting (c ∷ cs) = charge c + waiting cs

  unfoldable pub due_calls : List (Call J) → ℕ
  due_calls [] = 0
  due_calls (c ∷ cs) = due c + due_calls cs

  waiting-block_from : (n : ℕ) (cs : List (Call J)) → All IsNew cs → waiting (block_from n cs) ≤ n
  unfolding waiting block_from
  waiting-block_from n [] a = omega arith
  waiting-block_from zero (c ∷ cs) a = omega (arith, waiting-block_from zero cs a.1)
  waiting-block_from (suc n) (c ∷ cs) a = ground (arith, a.0.0, a.0.1, waiting-block_from n cs a.1)

  due_calls-block_from :
      (n : ℕ) (cs : List (Call J)) → All IsNew cs → due_calls (block_from n cs) ≡ 0
  unfolding due_calls block_from
  due_calls-block_from n [] a = refl
  due_calls-block_from zero (c ∷ cs) a = omega (arith, due_calls-block_from zero cs a.1)
  due_calls-block_from (suc n) (c ∷ cs) a =
      ground (arith, a.0.0, a.0.1, due_calls-block_from n cs a.1)

module _ {J E V : Type 0} (engine : Engine J E V) where
  pub record Spent (k : Core J) : Type 0 where
    pub executed_le : length k.executed ≤ k.total_tool_calls
    pub total_le : k.total_tool_calls ≤ engine.max_tool_calls
    pub approved : All (λ c. needs_approval engine c ≡ false) k.executed

  pub record WithinBudget (k : Core J) : Type 0 where
    pub executed_due : length k.executed + due_calls k.open_calls ≤ k.total_tool_calls
    pub total_waiting : k.total_tool_calls + waiting k.open_calls ≤ engine.max_tool_calls
    pub approved : All (λ c. needs_approval engine c ≡ false) k.executed

  Ran-approved :
      (c : Call J) (k k' : Core J)
      → Ran engine c k k'
      → All (λ c. needs_approval engine c ≡ false) k.executed
      → All (λ c. needs_approval engine c ≡ false) k'.executed
  Ran-approved c k k' (skipped e t) a = rw e a
  Ran-approved c k k' (called c' e n b t) a = rw e (All-snoc _ k.executed c' a n)

  Ran-due :
      (n : ℕ) (c : Call J) (k k' : Core J)
      → Ran engine c k k'
      → length k.executed + (due c + n) ≤ k.total_tool_calls
      → length k'.executed + n ≤ k'.total_tool_calls
  Ran-due n c k k' (skipped e t) h = rw e (omega (arith, t, h))
  Ran-due n c k k' (called c' e a b t) h =
      rw e (ground (arith, length-append k.executed (c' ∷ []), b, t, h))

  module _ (c : Call J) (rest : List (Call J)) (k : Core J) (w : WithinBudget k) where
    head_due :
        k.open_calls ≡ c ∷ rest → length k.executed + (due c + due_calls rest) ≤ k.total_tool_calls
    unfolding due_calls
    head_due o = subst (λ l. length k.executed + due_calls l ≤ k.total_tool_calls) o w.executed_due

    head_waiting :
        k.open_calls ≡ c ∷ rest
        → k.total_tool_calls + (charge c + waiting rest) ≤ engine.max_tool_calls
    unfolding waiting
    head_waiting o =
        subst (λ l. k.total_tool_calls + waiting l ≤ engine.max_tool_calls) o w.total_waiting

  Closed-WithinBudget :
      (c : Call J) (rest : List (Call J)) (k k' : Core J)
      → k.open_calls ≡ c ∷ rest
      → Closed engine c rest k k'
      → WithinBudget k
      → WithinBudget k'
  Closed-WithinBudget c rest k k' o e w = record {
    executed_due =
        rw e.open_rest (Ran-due (due_calls rest) c k k' e.frame.ran (head_due c rest k w o));
    total_waiting = rw e.open_rest (omega (arith, e.frame.total_le, head_waiting c rest k w o));
    approved = Ran-approved c k k' e.frame.ran w.approved;
  }

  Held-Spent :
      (c call : Call J) (rest : List (Call J)) (k k' : Core J)
      → k.open_calls ≡ c ∷ rest
      → Held engine c call rest k k'
      → WithinBudget k
      → Spent k'
  Held-Spent c call rest k k' o e w = record {
    executed_le =
        omega (arith, Ran-due (due_calls rest) c k k' e.frame.ran (head_due c rest k w o));
    total_le = omega (arith, e.frame.total_le, head_waiting c rest k w o);
    approved = Ran-approved c k k' e.frame.ran w.approved;
  }

  pub within_budget : Invariant engine WithinBudget Spent
  unfolding waiting due_calls
  within_budget = record {
    weaken = λ k w. record {
      executed_le = omega (arith, w.executed_due);
      total_le = omega (arith, w.total_waiting);
      approved = w.approved;
    };
    keeps = Closed-WithinBudget;
    waits = Held-Spent;
    groups = λ c cs k e o w. record {
      executed_due = omega (arith, w.executed_due);
      total_waiting = omega (arith, w.total_waiting);
      approved = w.approved;
    };
    asks = λ k e o w. record {
      executed_due = w.executed_due;
      total_waiting = w.total_waiting;
      approved = w.approved;
    };
    opens_turn = λ t c cs k e o new w.
        let bound = waiting-block_from (engine.max_tool_calls - k.total_tool_calls) (c ∷ cs) new in
        let none_due =
          due_calls-block_from (engine.max_tool_calls - k.total_tool_calls) (c ∷ cs) new in
        record {
          executed_due = omega (arith, w.executed_due, none_due);
          total_waiting = omega (arith, w.total_waiting, bound);
          approved = w.approved;
        };
  }
