-- ===== src/React/Fuel.antt =====
-- How many rounds the loop takes: each one settles the calls of a turn, closes a turn, opens one, or
-- asks for one correction.
use execution_engine.Common.{
  by_test, ℕ, zero, suc, ◌+◌, ◌-◌, ◌*◌, ◌≤◌, ◌<◌, Bool, ◌≡◌, refl, sym, ap, ◌∙◌, subst, Option,
  some, List, [], ◌∷◌, arith, ltb, length, length-append, if◌then◌else◌,
}
use execution_engine.Agent.Retry.Policy.{is_active}
use execution_engine.React.State.{Call, LoopState, Engine, executing, notice, say}
use execution_engine.React.Calls.{CallTurn, Next, again, leaves, ends, handle_call, run_calls}
use execution_engine.React.Answer.{block_from, read_stream}
use execution_engine.React.Loop.{Round, send, close_group, ask, next_turn, round, run_loop}
use execution_engine.React.Effects.{Core, core, Effect, closes}
use execution_engine.React.CallEffects.{handle_call-Effect}
use execution_engine.React.Answered.{
  open_core, read_stream_lem, Answer, retries, opens, take_answer_lem,
}
use execution_engine.React.Invariants.{ask_core, send-core, send-retry}

module _ {J : Type 0} where
  -- how far a step has come
  pub stage : List (Call J) → List (Call J) → Bool → ℕ
  stage [] [] active = if active then 2 else 3
  stage (c ∷ cs) [] active = 0
  stage closed (c ∷ cs) active = 1

  stage_le : (closed open_ones : List (Call J)) (active : Bool) → stage closed open_ones active ≤ 3
  unfolding stage
  stage_le [] [] active = ground arith
  stage_le (c ∷ cs) [] active = omega arith
  stage_le [] (c ∷ cs) active = omega arith
  stage_le (x ∷ xs) (c ∷ cs) active = omega arith

  stage_open :
      (closed : List (Call J)) (c : Call J) (cs : List (Call J)) (active : Bool)
      → stage closed (c ∷ cs) active ≡ 1
  unfolding stage
  stage_open [] c cs active = refl
  stage_open (x ∷ xs) c cs active = refl

  stage_settled :
      (closed : List (Call J)) (active : Bool) → 0 < length closed → stage closed [] active ≡ 0
  unfolding stage
  stage_settled [] active h = absurd (omega arith)
  stage_settled (c ∷ cs) active h = refl

  stage_opened :
      (n : ℕ) (c : Call J) (cs : List (Call J)) (active : Bool)
      → stage [] (block_from n (c ∷ cs)) active ≡ 1
  unfolding stage block_from
  stage_opened zero c cs active = refl
  stage_opened (suc n) c cs active = refl

module _ {J E V : Type 0} (engine : Engine J E V) where
  -- what is left to do
  pub measure : LoopState J E V → ℕ
  measure s =
      4 * (engine.max_steps - s.current_step)
      + stage s.closed_calls s.open_calls (is_active s.retry)

  data Shrinks (m : ℕ) : Next (LoopState J E V) → Type 0 where
    less : {s : LoopState J E V} → measure s < m → Shrinks m (again s)
    out : {s : LoopState J E V} → Shrinks m (leaves s)
    off : {s : LoopState J E V} → Shrinks m (ends s)

  -- the calls are settled, in the same step
  data Settles (step : ℕ) : Next (LoopState J E V) → Type 0 where
    settled :
        {s : LoopState J E V}
        → s.current_step ≡ step
        → 0 < length s.closed_calls
        → s.open_calls ≡ []
        → Settles step (again s)
    out : {s : LoopState J E V} → Settles step (leaves s)
    off : {s : LoopState J E V} → Settles step (ends s)

  after_call :
      (more : LoopState J E V → Next (LoopState J E V)) (c : Call J) (rest : List (Call J))
      (s : LoopState J E V) (n : Next (LoopState J E V))
      → ((s' : LoopState J E V)
          → s'.current_step ≡ s.current_step
          → 0 < length s'.closed_calls
          → s'.open_calls ≡ rest
          → Settles s.current_step (more s'))
      → Effect engine c rest (core s) n
      → Settles s.current_step
          (elim n [ again s' ↦ more s' | leaves s' ↦ leaves s' | ends s' ↦ ends s' ])
  after_call more c rest s (again s') go (closes e) =
      go s' e.frame.step_same
        (omega (arith, ap length e.closed_snoc, length-append s.closed_calls (e.call ∷ [])))
        e.open_rest
  after_call more c rest s (leaves s') go e = Settles.out
  after_call more c rest s (ends s') go e = Settles.off

  run_calls-Settles :
      (turns : ℕ → CallTurn J) (cs : List (Call J)) (s : LoopState J E V)
      → 0 < length s.closed_calls + length cs
      → s.open_calls ≡ cs
      → Settles s.current_step (run_calls engine turns cs s)
  unfolding run_calls
  run_calls-Settles turns [] s h o = settled refl (omega arith) o
  run_calls-Settles turns (c ∷ rest) s h o =
      after_call (run_calls engine (λ n. turns (suc n)) rest) c rest s
        (handle_call engine (turns 0) c rest s)
        (λ s' e h' o'.
          subst (λ m. Settles m (run_calls engine (λ n. turns (suc n)) rest s')) e
            (run_calls-Settles (λ n. turns (suc n)) rest s' (omega arith) o'))
        (handle_call-Effect engine (turns 0) c rest s o)

  run_calls-Shrinks :
      (s : LoopState J E V) (n : Next (LoopState J E V)) (c : Call J) (rest : List (Call J))
      → s.open_calls ≡ c ∷ rest
      → Settles s.current_step n
      → Shrinks (measure s) n
  unfolding measure
  run_calls-Shrinks s (again s') c rest o (settled e h o') =
      let before : stage s.closed_calls s.open_calls (is_active s.retry) ≡ 1 =
        rw o (stage_open s.closed_calls c rest (is_active s.retry)) in
      let after : stage s'.closed_calls s'.open_calls (is_active s'.retry) ≡ 0 =
        rw o' (stage_settled s'.closed_calls (is_active s'.retry) h) in
      less (rw e (omega (arith, before, after)))
  run_calls-Shrinks s (leaves s') c rest o h = Shrinks.out
  run_calls-Shrinks s (ends s') c rest o h = Shrinks.off

  close_group-Shrinks :
      (s : LoopState J E V) (c : Call J) (cs : List (Call J))
      → s.current_step < engine.max_steps
      → s.closed_calls ≡ c ∷ cs
      → s.open_calls ≡ []
      → Shrinks (measure s) (close_group engine s)
  unfolding close_group say measure stage
  close_group-Shrinks s c cs h e o =
      let before : stage s.closed_calls s.open_calls (is_active s.retry) ≡ 0 = rw (e, o) refl in
      by_test (Shrinks (measure s)) s.tool_budget_hit (λ _. Shrinks.out)
        (λ _. less (omega (arith, before, h, stage_le [] [] (is_active s.retry))))

  Answer-Shrinks :
      (s s' : LoopState J E V) (calls : List (Call J)) (n : Next (LoopState J E V))
      → core s' ≡ ask_core (core s)
      → s'.retry ≡ s.retry
      → s.closed_calls ≡ []
      → s.open_calls ≡ []
      → Answer engine s' calls n
      → Shrinks (measure s) n
  unfolding measure stage
  Answer-Shrinks s s' calls (again t) k r e o (retries k' idle active) =
      let whole = k' ∙ k in
      let step : t.current_step ≡ s.current_step = ap (λ (k : Core J). k.current_step) whole in
      let closed : t.closed_calls ≡ [] = ap (λ (k : Core J). k.closed_calls) whole ∙ e in
      let open_ones : t.open_calls ≡ [] = ap (λ (k : Core J). k.open_calls) whole ∙ o in
      let before : stage s.closed_calls s.open_calls (is_active s.retry) ≡ 3 =
        rw (e, o, sym r, idle) refl in
      let after : stage t.closed_calls t.open_calls (is_active t.retry) ≡ 2 =
        rw (closed, open_ones, active) refl in
      less (rw step (omega (arith, before, after)))
  Answer-Shrinks s s' calls (again t) k r e o (opens text c cs n k') =
      let whole = k' ∙ ap (open_core engine.blank engine.max_tool_calls text (c ∷ cs)) k in
      let step : t.current_step ≡ s.current_step = ap (λ (k : Core J). k.current_step) whole in
      let closed : t.closed_calls ≡ [] = ap (λ (k : Core J). k.closed_calls) whole in
      let before : 2 ≤ stage s.closed_calls s.open_calls (is_active s.retry) =
        rw (e, o) (ground arith) in
      let after : stage t.closed_calls t.open_calls (is_active t.retry) ≡ 1 =
        rw (closed, ap (λ (k : Core J). k.open_calls) whole)
          (stage_opened (engine.max_tool_calls - s.total_tool_calls) c cs (is_active t.retry)) in
      less (rw step (omega (arith, before, after)))
  Answer-Shrinks s s' calls (leaves t) k r e o a = Shrinks.out
  Answer-Shrinks s s' calls (ends t) k r e o a = Shrinks.off

  ask-Shrinks :
      (r : Round J) (s : LoopState J E V)
      → s.closed_calls ≡ []
      → s.open_calls ≡ []
      → Shrinks (measure s) (ask engine r s)
  unfolding ask
  ask-Shrinks r s e o =
      let read =
        read_stream engine r.reads (record { chunks = []; calls = []; text = "" })
          (send engine s) in
      let streamed =
        read_stream_lem engine r.reads (record { chunks = []; calls = []; text = "" })
          (send engine s) tt in
      Answer-Shrinks s read.1 read.0.calls _ (streamed.same_core ∙ send-core engine s)
        (streamed.same_retry ∙ send-retry engine s) e o
        (take_answer_lem engine r.cancelled_after r.in_time read.0 read.1)

  next_turn-Shrinks :
      (r : Round J) (closed open_ones : List (Call J)) (s : LoopState J E V)
      → s.current_step < engine.max_steps
      → s.closed_calls ≡ closed
      → s.open_calls ≡ open_ones
      → Shrinks (measure s) (next_turn engine r closed open_ones s)
  unfolding next_turn say measure
  next_turn-Shrinks r [] [] s h e o = ask-Shrinks r s e o
  next_turn-Shrinks r (c ∷ cs) [] s h e o = close_group-Shrinks s c cs h e o
  next_turn-Shrinks r [] (c ∷ cs) s h e o =
      let s' = say (notice executing) s in
      run_calls-Shrinks s' (run_calls engine r.turns (c ∷ cs) s') c cs o
        (run_calls-Settles r.turns (c ∷ cs) s' (omega arith) o)
  next_turn-Shrinks r (x ∷ xs) (c ∷ cs) s h e o =
      let s' = say (notice executing) s in
      run_calls-Shrinks s' (run_calls engine r.turns (c ∷ cs) s') c cs o
        (run_calls-Settles r.turns (c ∷ cs) s' (omega arith) o)

  round-Shrinks :
      (r : Round J) (s : LoopState J E V)
      → s.current_step < engine.max_steps
      → Shrinks (measure s) (round engine r s)
  unfolding round
  round-Shrinks r s h =
      by_test (Shrinks (measure s)) r.cancelled (λ _. Shrinks.out)
        λ _.
          by_test (Shrinks (measure s)) r.expired (λ _. Shrinks.out)
            λ _. next_turn-Shrinks r s.closed_calls s.open_calls s h refl refl

  abbrev pub Returns : Option (Next (LoopState J E V)) → Type 0
  Returns o = (n : Next (LoopState J E V)) × (o ≡ some n)

  after_round :
      (more : LoopState J E V → Option (Next (LoopState J E V))) (m : ℕ)
      (n : Next (LoopState J E V))
      → Shrinks m n
      → ((s : LoopState J E V) → measure s < m → Returns (more s))
      → Returns (elim n [ again s ↦ more s | leaves s ↦ some (leaves s) | ends s ↦ some (ends s) ])
  after_round more m (again s) (less h) go = go s h
  after_round more m (leaves s) h go = (leaves s, refl)
  after_round more m (ends s) h go = (ends s, refl)

  pub measured-Returns :
      (fuel : ℕ) (rounds : ℕ → Round J) (s : LoopState J E V)
      → measure s < fuel
      → Returns (run_loop engine fuel rounds s)
  unfolding run_loop
  measured-Returns zero rounds s h = absurd (omega arith)
  measured-Returns (suc fuel) rounds s h =
      by_test Returns (ltb s.current_step engine.max_steps)
        (λ t.
          after_round (run_loop engine fuel (λ n. rounds (suc n))) (measure s)
            (round engine (rounds 0) s) (round-Shrinks (rounds 0) s (ground (arith, t)))
            (λ s' less. measured-Returns fuel (λ n. rounds (suc n)) s' (omega (arith, less, h))))
        (λ _. (leaves s, refl))

  pub measure_le : (s : LoopState J E V) → measure s ≤ 4 * engine.max_steps + 3
  unfolding measure
  measure_le s = omega (arith, stage_le s.closed_calls s.open_calls (is_active s.retry))
