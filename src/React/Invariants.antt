-- ===== src/React/Invariants.antt =====
-- The rule for invariants of the loop: what each kind of step keeps, the whole loop keeps.
use execution_engine.Common.{
  by_test, ℕ, zero, suc, ◌+◌, String, ◌≡◌, refl, sym, ap, ◌∙◌, subst, ltb, Option, none, some, List,
  [], ◌∷◌, ◌++◌, All,
}
use execution_engine.Transcript.Turns.{tool_results}
use execution_engine.React.State.{Call, LoopState, Engine, say}
use execution_engine.React.Calls.{CallTurn, Next, again, leaves, ends, handle_call, run_calls}
use execution_engine.React.Answer.{read_stream, take_answer}
use execution_engine.React.Loop.{Round, send, close_group, ask, next_turn, round, run_loop}
use execution_engine.React.Effects.{
  Core, core, Closed, Held, Effect, closes, stops, ends_held, ends_closed,
}
use execution_engine.React.CallEffects.{handle_call-Effect}
use execution_engine.React.Answered.{
  IsNew, open_core, read_stream_lem, Answer, retries, opens, finishes, fails, take_answer_lem,
}

-- the results of a turn join the transcript
abbrev pub group_core : {J : Type 0} → Core J → Core J
group_core k = record k {
  transcript = k.transcript ++ tool_results k.tool_results ∷ [];
  current_step = k.current_step + 1;
  closed_calls = [];
  open_calls = [];
  tool_results = [];
}

-- the transcript is sent
abbrev pub ask_core : {J : Type 0} → Core J → Core J
ask_core k = record k { requests = k.requests ++ k.transcript ∷ [] }

-- the state in which a round, or the loop, ends
unfoldable pub state_of : {S : Type 0} → Next S → S
state_of (again s) = s
state_of (leaves s) = s
state_of (ends s) = s

pub send-core :
    {J E V : Type 0} (engine : Engine J E V) (s : LoopState J E V)
    → core (send engine s) ≡ ask_core (core s)
unfolding send say
send-core {J} {E} {V} engine s =
    by_test
      (λ (s' : LoopState J E V).
        core (record s' { requests = s'.requests ++ s'.transcript ∷ [] }) ≡ ask_core (core s))
      (ltb 0 s.current_step) (λ _. refl) (λ _. refl)

pub send-retry :
    {J E V : Type 0} (engine : Engine J E V) (s : LoopState J E V) → (send engine s).retry ≡ s.retry
unfolding send say
send-retry {J} {E} {V} engine s =
    by_test (λ (s' : LoopState J E V). s'.retry ≡ s.retry) (ltb 0 s.current_step) (λ _. refl)
      (λ _. refl)

-- what holds at the end, if there is one
abbrev pub Ends : {J E V : Type 0} → (Core J → Type 0) → Option (Next (LoopState J E V)) → Type 0
Ends W none = Unit
Ends W (some n) = W (core (state_of n))

module _ {J E V : Type 0} (engine : Engine J E V) where
  -- `I` holds before each round, and `W` at the end
  pub record Invariant (I W : Core J → Type 0) : Type 0 where
    pub weaken : (k : Core J) → I k → W k
    pub keeps :
        (c : Call J) (rest : List (Call J)) (k k' : Core J)
        → k.open_calls ≡ c ∷ rest
        → Closed engine c rest k k'
        → I k
        → I k'
    pub waits :
        (c call : Call J) (rest : List (Call J)) (k k' : Core J)
        → k.open_calls ≡ c ∷ rest
        → Held engine c call rest k k'
        → I k
        → W k'
    pub groups :
        (c : Call J) (cs : List (Call J)) (k : Core J)
        → k.closed_calls ≡ c ∷ cs
        → k.open_calls ≡ []
        → I k
        → I (group_core k)
    pub asks : (k : Core J) → k.closed_calls ≡ [] → k.open_calls ≡ [] → I k → I (ask_core k)
    pub opens_turn :
        (t : String) (c : Call J) (cs : List (Call J)) (k : Core J)
        → k.closed_calls ≡ []
        → k.open_calls ≡ []
        → All IsNew (c ∷ cs)
        → I k
        → I (open_core engine.blank engine.max_tool_calls t (c ∷ cs) k)

  pub data Leads (I W : Core J → Type 0) : Next (LoopState J E V) → Type 0 where
    on : {s : LoopState J E V} → I (core s) → Leads I W (again s)
    out : {s : LoopState J E V} → W (core s) → Leads I W (leaves s)
    off : {s : LoopState J E V} → W (core s) → Leads I W (ends s)

  module _ {I W : Core J → Type 0} (inv : Invariant I W) where
    -- the rest of the calls after one of them
    after_call :
        (more : LoopState J E V → Next (LoopState J E V)) (c : Call J) (rest : List (Call J))
        (s : LoopState J E V) (n : Next (LoopState J E V))
        → s.open_calls ≡ c ∷ rest
        → I (core s)
        → ((s' : LoopState J E V) → s'.open_calls ≡ rest → I (core s') → Leads I W (more s'))
        → Effect engine c rest (core s) n
        → Leads I W (elim n [ again s' ↦ more s' | leaves s' ↦ leaves s' | ends s' ↦ ends s' ])
    after_call more c rest s (again s') o i go (closes e) =
        go s' e.open_rest (inv.keeps c rest (core s) (core s') o e i)
    after_call more c rest s (leaves s') o i go (stops call e) =
        out (inv.waits c call rest (core s) (core s') o e i)
    after_call more c rest s (ends s') o i go (ends_held call e) =
        off (inv.waits c call rest (core s) (core s') o e i)
    after_call more c rest s (ends s') o i go (ends_closed e) =
        off (inv.weaken (core s') (inv.keeps c rest (core s) (core s') o e i))

    run_calls-Leads :
        (turns : ℕ → CallTurn J) (cs : List (Call J)) (s : LoopState J E V)
        → s.open_calls ≡ cs
        → I (core s)
        → Leads I W (run_calls engine turns cs s)
    unfolding run_calls
    run_calls-Leads turns [] s o i = on i
    run_calls-Leads turns (c ∷ rest) s o i =
        after_call (run_calls engine (λ n. turns (suc n)) rest) c rest s
          (handle_call engine (turns 0) c rest s) o i (run_calls-Leads (λ n. turns (suc n)) rest)
          (handle_call-Effect engine (turns 0) c rest s o)

    close_group-Leads :
        (c : Call J) (cs : List (Call J)) (s : LoopState J E V)
        → s.closed_calls ≡ c ∷ cs
        → s.open_calls ≡ []
        → I (core s)
        → Leads I W (close_group engine s)
    unfolding close_group say
    close_group-Leads c cs s e o i =
        let i' = inv.groups c cs (core s) e o i in
        by_test (Leads I W) s.tool_budget_hit (λ _. out (inv.weaken (group_core (core s)) i'))
          (λ _. on i')

    Answer-Leads :
        (s : LoopState J E V) (calls : List (Call J)) (n : Next (LoopState J E V))
        → s.closed_calls ≡ []
        → s.open_calls ≡ []
        → All IsNew calls
        → I (core s)
        → Answer engine s calls n
        → Leads I W n
    Answer-Leads s calls (again s') e o a i (retries k idle active) = on (subst I (sym k) i)
    Answer-Leads s calls (again s') e o a i (opens t c cs n k) =
        on (subst I (sym k) (inv.opens_turn t c cs (core s) e o (subst (All IsNew) n a) i))
    Answer-Leads s calls (leaves s') e o a i (finishes k) =
        out (inv.weaken (core s') (subst I (sym k) i))
    Answer-Leads s calls (ends s') e o a i (fails k) =
        off (inv.weaken (core s') (subst I (sym k) i))

    ask-Leads :
        (r : Round J) (s : LoopState J E V)
        → s.closed_calls ≡ []
        → s.open_calls ≡ []
        → I (core s)
        → Leads I W (ask engine r s)
    unfolding ask
    ask-Leads r s e o i =
        let read =
          read_stream engine r.reads (record { chunks = []; calls = []; text = "" })
            (send engine s) in
        let streamed =
          read_stream_lem engine r.reads (record { chunks = []; calls = []; text = "" })
            (send engine s) tt in
        let same = streamed.same_core ∙ send-core engine s in
        Answer-Leads read.1 read.0.calls
          (take_answer engine r.cancelled_after r.in_time read.0 read.1)
          (ap (λ (k : Core J). k.closed_calls) same ∙ e)
          (ap (λ (k : Core J). k.open_calls) same ∙ o) streamed.new_calls
          (subst I (sym same) (inv.asks (core s) e o i))
          (take_answer_lem engine r.cancelled_after r.in_time read.0 read.1)

    next_turn-Leads :
        (r : Round J) (closed open_ones : List (Call J)) (s : LoopState J E V)
        → s.closed_calls ≡ closed
        → s.open_calls ≡ open_ones
        → I (core s)
        → Leads I W (next_turn engine r closed open_ones s)
    unfolding next_turn say
    next_turn-Leads r [] [] s e o i = ask-Leads r s e o i
    next_turn-Leads r (c ∷ cs) [] s e o i = close_group-Leads c cs s e o i
    next_turn-Leads r [] (c ∷ cs) s e o i = run_calls-Leads r.turns (c ∷ cs) _ o i
    next_turn-Leads r (x ∷ xs) (c ∷ cs) s e o i = run_calls-Leads r.turns (c ∷ cs) _ o i

    pub round-Leads :
        (r : Round J) (s : LoopState J E V) → I (core s) → Leads I W (round engine r s)
    unfolding round say
    round-Leads r s i =
        by_test (Leads I W) r.cancelled (λ _. out (inv.weaken (core s) i))
          λ _.
            by_test (Leads I W) r.expired (λ _. out (inv.weaken (core s) i))
              λ _. next_turn-Leads r s.closed_calls s.open_calls s refl refl i

    -- what holds at the end of a round
    Leads-state : (n : Next (LoopState J E V)) → Leads I W n → W (core (state_of n))
    unfolding state_of
    Leads-state (again s) (on i) = inv.weaken (core s) i
    Leads-state (leaves s) (out w) = w
    Leads-state (ends s) (off w) = w

    after_round :
        (more : LoopState J E V → Option (Next (LoopState J E V))) (n : Next (LoopState J E V))
        → Leads I W n
        → ((s : LoopState J E V) → I (core s) → Ends W (more s))
        → Ends W (elim n [ again s ↦ more s | leaves s ↦ some (leaves s) | ends s ↦ some (ends s) ])
    unfolding state_of
    after_round more (again s) (on i) go = go s i
    after_round more (leaves s) (out w) go = w
    after_round more (ends s) (off w) go = w

    run_loop-Ends :
        (fuel : ℕ) (rounds : ℕ → Round J) (s : LoopState J E V)
        → I (core s)
        → Ends W (run_loop engine fuel rounds s)
    unfolding run_loop state_of
    run_loop-Ends zero rounds s i = tt
    run_loop-Ends (suc fuel) rounds s i =
        by_test (Ends W) (ltb s.current_step engine.max_steps)
          (λ _.
            after_round (run_loop engine fuel (λ n. rounds (suc n))) (round engine (rounds 0) s)
              (round-Leads (rounds 0) s i) (run_loop-Ends fuel (λ n. rounds (suc n))))
          (λ _. inv.weaken (core s) i)

    pub run_loop_keeps :
        (fuel : ℕ) (rounds : ℕ → Round J) (s : LoopState J E V) (n : Next (LoopState J E V))
        → I (core s)
        → run_loop engine fuel rounds s ≡ some n
        → W (core (state_of n))
    run_loop_keeps fuel rounds s n i h = subst (Ends W) h (run_loop-Ends fuel rounds s i)
