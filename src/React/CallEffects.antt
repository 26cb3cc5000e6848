-- ===== src/React/CallEffects.antt =====
-- Each way through `handle_call` of React/Calls has one of the effects of React/Effects.
use execution_engine.Common.Dict.{lookup}
use execution_engine.Common.{
  by_test, ◌&&◌, str_eq, get_or, ◌+◌, ◌≡◌, refl, ap, ◌∙◌, Bool, true, false, none, some, List, [],
  ◌∷◌, ◌++◌, arith, if◌then◌else◌, ltb,
}
use execution_engine.Agent.Skills.Loading.{is_skill_call}
use execution_engine.React.State.{Call, LoopState, Engine, part_of, say, transcript_tool_result}
use execution_engine.React.Calls.{
  ToolReply, terminal_error, dependency_wait, returned, CallTurn, again, account, end_with,
  say_skills, mark, count_call, close_call, note_evidence, refuse_call, note_repeat, repeats,
  take_reply, needs_approval, execute, dispatch_call, limit_repeats, objection, check_call,
  handle_call,
}
use execution_engine.React.Effects.{
  Core, core, charge, skipped, called, Held, Closed, Effect, closes, stops, ends_held, ends_closed,
}

module _ {J E V : Type 0} (engine : Engine J E V) where
  -- the call is accounted for, and nothing else has happened to it
  record Begun (c call : Call J) (rest : List (Call J)) (k k' : Core J) : Type 0 where
    held : Held engine c call rest k k'
    unblocked : c.budget_blocked ≡ false
    executed_same : k'.executed ≡ k.executed
    total_charged : k'.total_tool_calls ≡ k.total_tool_calls + charge c

  module _ (c call : Call J) (rest : List (Call J)) (k : Core J) where
    pub Held-Closed :
        (s : LoopState J E V) (value : J) (is_error : Bool)
        → Held engine c call rest k (core s)
        → Closed engine c rest k (core (close_call engine call rest value is_error s))
    unfolding close_call transcript_tool_result
    Held-Closed s value is_error h = record {
      frame = record {
        transcript_same = h.frame.transcript_same;
        step_same = h.frame.step_same;
        requests_same = h.frame.requests_same;
        total_le = h.frame.total_le;
        ran = elim h.frame.ran [
          | skipped e t ↦ skipped e t
          | called c' e a b t ↦ called c' e a b t
        ];
      };
      call = call;
      result = transcript_tool_result engine.compact call value is_error;
      same_part = h.same_part;
      answers_id = refl;
      answers_name = refl;
      closed_snoc = ap (λ l. l ++ call ∷ []) h.closed_same;
      open_rest = refl;
      results_snoc =
          ap (λ l. l ++ transcript_tool_result engine.compact call value is_error ∷ [])
            h.results_same;
    }

    take_reply-Effect :
        (reply : ToolReply J) (s : LoopState J E V)
        → Held engine c call rest k (core s)
        → Effect engine c rest k (take_reply engine reply call rest s)
    unfolding take_reply end_with note_evidence say close_call
    take_reply-Effect (terminal_error code) s h = ends_held call h
    take_reply-Effect dependency_wait s h = ends_held call h
    take_reply-Effect (returned value is_error unknown) s h =
        by_test (Effect engine c rest k)
          (is_error
            && str_eq (get_or (lookup call.tool engine.tool_capabilities) "write") "write"
            && unknown)
          (λ _. ends_closed (Held-Closed s value is_error h))
          (λ _. closes (Held-Closed s value is_error h))

    execute-Effect :
        (reply : ToolReply J) (s : LoopState J E V)
        → needs_approval engine call ≡ false
        → Begun c call rest k (core s)
        → Effect engine c rest k (execute engine reply call rest s)
    unfolding execute
    execute-Effect reply s a b =
        take_reply-Effect reply (record s { executed = s.executed ++ call ∷ [] })
          (record {
            frame = record {
              transcript_same = b.held.frame.transcript_same;
              step_same = b.held.frame.step_same;
              requests_same = b.held.frame.requests_same;
              total_le = b.held.frame.total_le;
              ran =
                  called call (ap (λ l. l ++ call ∷ []) b.executed_same) a b.unblocked
                    b.total_charged;
            };
            same_part = b.held.same_part;
            closed_same = b.held.closed_same;
            open_marked = b.held.open_marked;
            results_same = b.held.results_same;
          })

    dispatch_call-Effect :
        (reply : ToolReply J) (s : LoopState J E V)
        → Begun c call rest k (core s)
        → Effect engine c rest k (dispatch_call engine reply call rest s)
    unfolding dispatch_call say_skills say close_call
    dispatch_call-Effect reply s b =
        by_test (Effect engine c rest k) (is_skill_call call.tool)
          (λ _. closes (Held-Closed s _ _ b.held))
          λ _.
            by_test (Effect engine c rest k) (needs_approval engine call)
              (λ _. ends_held call b.held) λ a. execute-Effect reply s a b

  -- a mark leaves it so
  marked :
      {c call call' : Call J} {rest : List (Call J)} {k k' k'' : Core J}
      → Begun c call rest k k'
      → part_of call' ≡ part_of call
      → k'' ≡ record k' { open_calls = call' ∷ rest }
      → Begun c call' rest k k''
  marked b p e = rw e (record {
    held = record {
      frame = record {
        transcript_same = b.held.frame.transcript_same;
        step_same = b.held.frame.step_same;
        requests_same = b.held.frame.requests_same;
        total_le = b.held.frame.total_le;
        ran = skipped b.executed_same (omega (arith, b.total_charged));
      };
      same_part = p ∙ b.held.same_part;
      closed_same = b.held.closed_same;
      open_marked = refl;
      results_same = b.held.results_same;
    };
    unblocked = b.unblocked;
    executed_same = b.executed_same;
    total_charged = b.total_charged;
  })

  module _ (c call : Call J) (rest : List (Call J)) (k : Core J) where
    limit_repeats-Effect :
        (reply : ToolReply J) (s : LoopState J E V)
        → Begun c call rest k (core s)
        → Effect engine c rest k (limit_repeats engine reply call rest s)
    unfolding limit_repeats mark note_repeat refuse_call note_evidence say close_call part_of
    limit_repeats-Effect reply s b =
        let call' = record call { duplicate_accounted = true } in
        let s' = mark call' rest (note_repeat engine call s) in
        let b' : Begun c call' rest k (core s') = marked b refl refl in
        by_test (Effect engine c rest k) (ltb engine.max_duplicates (repeats engine call s'))
          (λ _. closes (Held-Closed c call' rest k s' _ true b'.held))
          λ _. dispatch_call-Effect c call' rest k reply s' b'

    check_call-Effect :
        (t : CallTurn J) (s : LoopState J E V)
        → Begun c call rest k (core s)
        → Effect engine c rest k (check_call engine t call rest s)
    unfolding check_call end_with refuse_call note_evidence say close_call
    check_call-Effect t s b =
        by_test (Effect engine c rest k) t.cancelled_late (λ _. stops call b.held)
          λ _.
            by_test (Effect engine c rest k) t.expired_late (λ _. ends_held call b.held)
              λ _.
                elim (objection engine t.validation call s)
                  as (λ o. Effect engine c rest k (elim o [
                    | some value ↦ again (
                        note_evidence engine call value true (refuse_call engine call rest value s))
                    | none ↦ limit_repeats engine t.reply call rest s
                  ])) [
                    | some value ↦ closes (Held-Closed c call rest k s value true b.held)
                    | none ↦ limit_repeats-Effect t.reply s b
                  ]

  -- nothing has happened to the next call
  pub untouched :
      (c : Call J) (rest : List (Call J)) (s : LoopState J E V)
      → s.open_calls ≡ c ∷ rest
      → Held engine c c rest (core s) (core s)
  untouched c rest s o = record {
    frame = record {
      transcript_same = refl;
      step_same = refl;
      requests_same = refl;
      total_le = omega arith;
      ran = skipped refl (omega arith);
    };
    same_part = refl;
    closed_same = refl;
    open_marked = o;
    results_same = refl;
  }

  pub handle_call-Effect :
      (t : CallTurn J) (c : Call J) (rest : List (Call J)) (s : LoopState J E V)
      → s.open_calls ≡ c ∷ rest
      → Effect engine c rest (core s) (handle_call engine t c rest s)
  unfolding handle_call account count_call mark refuse_call say close_call part_of
  handle_call-Effect t c rest s o =
      let held = untouched c rest s o in
      let total : (count_call c s).total_tool_calls
          ≡ s.total_tool_calls + (if c.accounted then 0 else 1) =
        ground arith in
      by_test (Effect engine c rest (core s)) t.cancelled (λ _. stops c held)
        λ _.
          by_test (Effect engine c rest (core s)) c.budget_blocked
            (λ _. closes (Held-Closed c c rest (core s) s _ true held))
            λ u.
              check_call-Effect c (account c) rest (core s) t
                (mark (account c) rest (count_call c s))
                (record {
                  held = record {
                    frame = record {
                      transcript_same = refl;
                      step_same = refl;
                      requests_same = refl;
                      total_le = ground (arith, total, u);
                      ran = skipped refl (ground (arith, total));
                    };
                    same_part = refl;
                    closed_same = refl;
                    open_marked = refl;
                    results_same = refl;
                  };
                  unblocked = u;
                  executed_same = refl;
                  total_charged = ground (arith, total, u);
                })
