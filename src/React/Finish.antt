-- ===== src/React/Finish.antt =====
-- The final answer under a guardrail, and the resumption of a run, in
-- execution_engine/agent/react_engine.py.
use mathlib.Core.List.{cons-ne-nil}
use execution_engine.Common.{
  by_test, false≢true, ◌+◌, ◌<◌, Bool, true, false, not, ◌&&◌, ◌≡◌, ◌≢◌, ◌⊎◌, inl, inr, refl, sym,
  ap, ◌∙◌, subst, none, some, is_some, List, [], ◌∷◌, ◌++◌, arith, All, All-snoc, length, leb,
  str_eq,
}
use execution_engine.Transcript.Turns.{
  ProviderName, AssistantPart, TranscriptTurn, user, assistant, tool_results, calls_of,
}
use execution_engine.Transcript.Sequence.{validate_sequence}
use execution_engine.Transcript.Validity.{validate_sequence-exact}
use execution_engine.Transcript.Grammar.{Grammar}
use execution_engine.Agent.Retry.Policy.{RetryState}
use execution_engine.Agent.Usage.Accounting.{Counts}
use execution_engine.React.State.{
  Call, transcript_tool_result, ModelChunk, Guardrail, runtime, Durable, LoopState, Engine, say,
  notice, runtime_reached,
}
use execution_engine.React.Calls.{leaves, close_call, note_evidence}
use execution_engine.React.Loop.{
  Round, ends_with_results, round, reach_limit, observe_chunks, finalize, restore, answer_pending,
  resume_with,
}
use execution_engine.React.Effects.{Core, core}
use execution_engine.React.CallEffects.{Held-Closed, untouched}
use execution_engine.React.Linked.{Closed-Linked, Linked, idle, busy}

module _ {J : Type 0} where
  -- a group of calls in the last turn has no answer
  open_group :
      (ts : List (TranscriptTurn J)) (parts : List (AssistantPart J))
      → Grammar (ts ++ assistant parts ∷ [])
      → calls_of parts ≡ []
  open_group [] parts (Grammar.speaks _ _ e g) = e
  open_group (user t ∷ ts) parts (Grammar.asks _ _ g) = open_group ts parts g
  open_group (assistant ps ∷ []) parts (Grammar.speaks _ _ e g) = open_group [] parts g
  open_group (assistant ps ∷ u ∷ ts) parts (Grammar.speaks _ _ e g) = open_group (u ∷ ts) parts g
  open_group (assistant ps ∷ tool_results rs ∷ ts) parts (Grammar.acts _ c cs _ _ e a g) =
      open_group ts parts g
  open_group (tool_results rs ∷ ts) parts g = elim g [ ]

  no_results_end :
      (ts : List (TranscriptTurn J)) (parts : List (AssistantPart J))
      → ends_with_results (ts ++ assistant parts ∷ []) ≡ false
  unfolding ends_with_results
  no_results_end [] parts = refl
  no_results_end (user t ∷ []) parts = refl
  no_results_end (assistant ps ∷ []) parts = refl
  no_results_end (tool_results rs ∷ []) parts = refl
  no_results_end (user t ∷ u ∷ ts) parts = no_results_end (u ∷ ts) parts
  no_results_end (assistant ps ∷ u ∷ ts) parts = no_results_end (u ∷ ts) parts
  no_results_end (tool_results rs ∷ u ∷ ts) parts = no_results_end (u ∷ ts) parts

  -- while calls are in progress, the transcript is no canonical one
  busy_transcript :
      (k : Core J)
      → Linked k
      → 0 < length k.closed_calls + length k.open_calls
      → Grammar k.transcript
      → ⊥
  busy_transcript k (idle a b r g) h g' = absurd (omega (arith, ap length a, ap length b))
  busy_transcript k (busy ts parts p ps t g n l a) h g' =
      cons-ne-nil p ps (sym n ∙ open_group ts parts (subst Grammar t g'))

length_zero : {A : Type 0} (xs : List A) → length xs ≡ 0 → xs ≡ []
length_zero [] h = refl
length_zero (x ∷ xs) h = absurd (omega (arith, h))

module _ {J E V : Type 0} (engine : Engine J E V) where
  observe_chunks-requests :
      (ks : List (ModelChunk J)) (s : LoopState J E V)
      → (observe_chunks engine ks s).requests ≡ s.requests
  unfolding observe_chunks say
  observe_chunks-requests [] s = refl
  observe_chunks-requests (k ∷ ks) s =
      observe_chunks-requests ks _
      ∙ by_test (λ (s' : LoopState J E V). s'.requests ≡ s.requests) (str_eq k.type "tool_call")
          (λ _. refl) (λ _. refl)

  reach_limit_set :
      (s : LoopState J E V) (g : Guardrail) → s.guardrail ≡ some g → reach_limit engine s ≡ s
  unfolding reach_limit
  reach_limit_set s g e =
      by_test (λ (s' : LoopState J E V). s' ≡ s)
        (leb engine.max_steps s.current_step
          && not (is_some s.guardrail)
          && ends_with_results s.transcript)
        (λ h. absurd (ground (arith, h, e))) (λ _. refl)

  -- under a guardrail, and unless the run is cancelled, the transcript is sent once more
  finalize-requests :
      (answer : List (ModelChunk J)) (s : LoopState J E V) (g : Guardrail)
      → s.guardrail ≡ some g
      → (finalize engine false answer s).requests ≡ s.requests ++ s.transcript ∷ []
  unfolding finalize
  finalize-requests answer s g e = rw (reach_limit_set s g e, e) (observe_chunks-requests answer _)

  -- If the time is up at the head of a round, and the run is not cancelled, while calls of the last
  -- turn are in progress, then the loop is left with the runtime guardrail, the final answer is asked
  -- for with the transcript as it stands, and no provider's validation accepts that transcript.
  pub deadline_rejected :
      (r : Round J) (s : LoopState J E V) (answer : List (ModelChunk J)) (p : ProviderName)
      → Linked (core s)
      → 0 < length s.closed_calls + length s.open_calls
      → r.cancelled ≡ false
      → r.expired ≡ true
      → (s' : LoopState J E V) × (round engine r s ≡ leaves s')
        × (s'.guardrail ≡ some runtime)
        × ((finalize engine false answer s').requests ≡ s.requests ++ s.transcript ∷ [])
        × (validate_sequence (record { provider = p; turns = s.transcript }) ≢ none)
  unfolding round say
  deadline_rejected r s answer p l h c e =
      let s' = say (notice runtime_reached) (record s { guardrail = some runtime }) in
      (
        s',
        rw (c, e) refl,
        refl,
        finalize-requests answer s' runtime refl,
        λ v. busy_transcript (core s) l h ((validate_sequence-exact _).0 v).0,
      )

  record Limited (s s' : LoopState J E V) : Type 0 where
    same_transcript : s'.transcript ≡ s.transcript
    same_requests : s'.requests ≡ s.requests
    guarded :
        is_some s'.guardrail ≡ true
        → (is_some s.guardrail ≡ true) ⊎ (ends_with_results s.transcript ≡ true)

  reach_limit_lem : (s : LoopState J E V) → Limited s (reach_limit engine s)
  unfolding reach_limit say
  reach_limit_lem s =
      by_test (Limited s)
        (leb engine.max_steps s.current_step
          && not (is_some s.guardrail)
          && ends_with_results s.transcript)
        (λ h. record {
          same_transcript = refl;
          same_requests = refl;
          guarded = λ _. inr (ground (arith, h));
        })
        (λ _. record { same_transcript = refl; same_requests = refl; guarded = λ g. inl g })

  limit_transcript :
      (s : LoopState J E V)
      → Linked (core s)
      → (s.guardrail ≡ none) ⊎ (length s.closed_calls + length s.open_calls ≡ 0)
      → (is_some s.guardrail ≡ true) ⊎ (ends_with_results s.transcript ≡ true)
      → Grammar s.transcript
  limit_transcript s (idle a b r g) q w = g
  limit_transcript s (busy ts parts p ps t g n l a) (inl e) (inl h) = absurd (ground (arith, e, h))
  limit_transcript s (busy ts parts p ps t g n l a) (inl e) (inr h) =
      absurd (false≢true (sym (no_results_end ts parts) ∙ ap ends_with_results (sym t) ∙ h))
  limit_transcript s (busy ts parts p ps t g n l a) (inr z) w = absurd (
      cons-ne-nil p ps (
        l
        ∙ rw
            (
              length_zero s.closed_calls (omega (arith, z)),
              length_zero s.open_calls (omega (arith, z)),
            )
            refl))

  -- After a loop that has left every group of calls but the one in progress answered, the requests
  -- stay canonical, the final answer's included, if no guardrail is set or no call is in progress:
  -- the step limit is found only between two turns.
  pub finalize-IsCanonical :
      (cancelled : Bool) (answer : List (ModelChunk J)) (s : LoopState J E V)
      → Linked (core s)
      → All Grammar s.requests
      → (s.guardrail ≡ none) ⊎ (length s.closed_calls + length s.open_calls ≡ 0)
      → All Grammar (finalize engine cancelled answer s).requests
  unfolding finalize
  finalize-IsCanonical cancelled answer s l a q =
      let s' = reach_limit engine s in
      let limited = reach_limit_lem s in
      let sent : All Grammar s'.requests = rw limited.same_requests a in
      by_test (λ (t : LoopState J E V). All Grammar t.requests)
        (is_some s'.guardrail && not cancelled)
        (λ h.
          rw
            (observe_chunks-requests answer
              (record s' { requests = s'.requests ++ s'.transcript ∷ [] }))
            (All-snoc Grammar s'.requests s'.transcript sent (
              rw limited.same_transcript
                (limit_transcript s l q (limited.guarded (ground (arith, h)))))))
        (λ _. sent)

  resumed :
      (value : J) (is_error : Bool) (s : LoopState J E V)
      → Linked (core s)
      → Linked (core (resume_with engine value is_error s))
  unfolding resume_with answer_pending say note_evidence close_call
  resumed value is_error s l = next s.open_calls refl
    where
      next :
          (calls : List (Call J))
          → s.open_calls ≡ calls
          → Linked (
              core
                (elim calls [ [] ↦ s | c ∷ rest ↦ answer_pending engine value is_error c rest s ]))
      next [] e = l
      next (c ∷ rest) e =
          Closed-Linked engine c rest (core s) _ e
            (Held-Closed engine c c rest (core s) s value is_error (untouched engine c rest s e)) l

  resume_closes :
      (value : J) (is_error : Bool) (c : Call J) (rest : List (Call J)) (s : LoopState J E V)
      → s.open_calls ≡ c ∷ rest
      → ((resume_with engine value is_error s).open_calls ≡ rest)
        × ((resume_with engine value is_error s).closed_calls ≡ s.closed_calls ++ c ∷ [])
        × ((resume_with engine value is_error s).tool_results
            ≡ s.tool_results ++ transcript_tool_result engine.compact c value is_error ∷ [])
  unfolding resume_with answer_pending say note_evidence close_call
  resume_closes value is_error c rest s e = rw e (refl, refl, refl)

  -- A run that resumes from a checkpoint with the result of its pending call, which is the first open
  -- one, closes that call: the compacted result is appended under the id and name of the call, the
  -- other open calls stay open, and every group of calls but the one in progress stays answered.
  pub resume_with-Linked :
      (d : Durable J E V) (usage : Counts) (retry : RetryState) (value : J) (is_error : Bool)
      (c : Call J) (rest : List (Call J))
      → Linked (core (restore engine d usage retry))
      → d.open_calls ≡ c ∷ rest
      → Linked (core (resume_with engine value is_error (restore engine d usage retry)))
        × ((resume_with engine value is_error (restore engine d usage retry)).open_calls ≡ rest)
        × ((resume_with engine value is_error (restore engine d usage retry)).closed_calls
            ≡ d.closed_calls ++ c ∷ [])
        × ((resume_with engine value is_error (restore engine d usage retry)).tool_results
            ≡ d.tool_results
              ++ record {
                call_id = c.call_id;
                name = c.tool;
                result = engine.compact value;
                is_error = is_error;
              }
                ∷ [])
  unfolding transcript_tool_result
  resume_with-Linked d usage retry value is_error c rest l e =
      let s = restore engine d usage retry in
      let (open_, closed, results) = resume_closes value is_error c rest s (unfold restore in e) in
      (resumed value is_error s l, open_, unfold restore in closed, unfold restore in results)
