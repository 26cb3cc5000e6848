-- ===== src/React/Linked.antt =====
-- The turns that the loop keeps: every group of calls is answered by the results after it, but for
-- the group in progress.
use mathlib.Core.List.{map-append, append_assoc, append-nil, cons-ne-nil}
use execution_engine.Common.{
  by_test, ℕ, zero, suc, ◌-◌, String, Bool, ◌≡◌, refl, sym, ap, ◌∙◌, subst, List, [], ◌∷◌, ◌++◌,
  map, All, All-snoc, if◌then◌else◌,
}
use execution_engine.Transcript.Turns.{
  ToolCallPart, AssistantPart, text, ToolResult, TranscriptTurn, user, assistant, tool_results,
  calls_of,
}
use execution_engine.Transcript.Grammar.{Answers, Grammar}
use execution_engine.React.State.{Call, Engine, part_of, call_parts, assistant_turn}
use execution_engine.React.Answer.{block_from}
use execution_engine.React.Effects.{Core, Closed, Held}
use execution_engine.React.Answered.{open_core}
use execution_engine.React.Invariants.{group_core, Invariant}

module _ {J : Type 0} where
  abbrev pub parts_of : List (Call J) → List (ToolCallPart J)
  parts_of calls = map part_of calls

  -- no group of calls is in progress, or one is: its calls stand in the last turn, and the closed
  -- ones have their results
  pub data Linked (k : Core J) : Type 0 where
    idle :
        k.closed_calls ≡ []
        → k.open_calls ≡ []
        → k.tool_results ≡ []
        → Grammar k.transcript
        → Linked k
    busy :
        (ts : List (TranscriptTurn J)) (parts : List (AssistantPart J)) (p : ToolCallPart J)
        (ps : List (ToolCallPart J))
        → k.transcript ≡ ts ++ assistant parts ∷ []
        → Grammar ts
        → calls_of parts ≡ p ∷ ps
        → p ∷ ps ≡ parts_of k.closed_calls ++ parts_of k.open_calls
        → Answers (parts_of k.closed_calls) k.tool_results
        → Linked k

  pub Grammar-append :
      (xs ys : List (TranscriptTurn J)) → Grammar xs → Grammar ys → Grammar (xs ++ ys)
  Grammar-append [] ys Grammar.ends h = h
  Grammar-append (user t ∷ ts) ys (Grammar.asks _ _ g) h =
      Grammar.asks t (ts ++ ys) (Grammar-append ts ys g h)
  Grammar-append (assistant parts ∷ ts) ys (Grammar.speaks _ _ e g) h =
      Grammar.speaks parts (ts ++ ys) e (Grammar-append ts ys g h)
  Grammar-append (assistant parts ∷ tool_results rs ∷ ts) ys (Grammar.acts _ c cs _ _ e a g) h =
      Grammar.acts parts c cs rs (ts ++ ys) e a (Grammar-append ts ys g h)
  Grammar-append (tool_results rs ∷ ts) ys g h = elim g [ ]

  Answers-snoc :
      (cs : List (ToolCallPart J)) (rs : List (ToolResult J)) (c : ToolCallPart J)
      (r : ToolResult J)
      → Answers cs rs
      → r.call_id ≡ c.call_id
      → r.name ≡ c.name
      → Answers (cs ++ c ∷ []) (rs ++ r ∷ [])
  Answers-snoc [] [] c r a i n = (i, n, tt)
  Answers-snoc (d ∷ cs) (q ∷ rs) c r a i n = (a.0, a.1, Answers-snoc cs rs c r a.2 i n)
  Answers-snoc [] (q ∷ rs) c r a i n = absurd a
  Answers-snoc (d ∷ cs) [] c r a i n = absurd a

  calls_of-call_parts : (calls : List (Call J)) → calls_of (call_parts calls) ≡ parts_of calls
  unfolding calls_of call_parts
  calls_of-call_parts [] = refl
  calls_of-call_parts (c ∷ cs) = ap (λ l. part_of c ∷ l) (calls_of-call_parts cs)

  parts_of-block_from :
      (n : ℕ) (calls : List (Call J)) → parts_of (block_from n calls) ≡ parts_of calls
  unfolding block_from part_of
  parts_of-block_from n [] = refl
  parts_of-block_from zero (c ∷ cs) = ap (λ l. part_of c ∷ l) (parts_of-block_from zero cs)
  parts_of-block_from (suc n) (c ∷ cs) = ap (λ l. part_of c ∷ l) (parts_of-block_from n cs)

  -- the parts of the opened turn, whose calls are those of the model
  abbrev turn_parts : (String → Bool) → String → List (Call J) → List (AssistantPart J)
  turn_parts blank t calls = if blank t then call_parts calls else text t ∷ call_parts calls

  calls_of-turn_parts :
      (blank : String → Bool) (t : String) (calls : List (Call J))
      → calls_of (turn_parts blank t calls) ≡ parts_of calls
  unfolding calls_of
  calls_of-turn_parts blank t calls =
      by_test (λ (parts : List (AssistantPart J)). calls_of parts ≡ parts_of calls) (blank t)
        (λ _. calls_of-call_parts calls) (λ _. calls_of-call_parts calls)

  snoc_swap :
      (c call : Call J) (rest closed : List (Call J))
      → part_of call ≡ part_of c
      → parts_of (closed ++ call ∷ []) ++ parts_of rest ≡ parts_of closed ++ parts_of (c ∷ rest)
  snoc_swap c call rest closed e = simp (map-append, append_assoc, e)

module _ {J E V : Type 0} (engine : Engine J E V) where
  pub Closed-Linked :
      (c : Call J) (rest : List (Call J)) (k k' : Core J)
      → k.open_calls ≡ c ∷ rest
      → Closed engine c rest k k'
      → Linked k
      → Linked k'
  unfolding part_of
  Closed-Linked c rest k k' o e (idle a b r g) = absurd (cons-ne-nil c rest (sym o ∙ b))
  Closed-Linked c rest k k' o e (busy ts parts p ps t g n l a) =
      busy ts parts p ps (e.frame.transcript_same ∙ t) g n
        (l
          ∙ rw (o, e.closed_snoc, e.open_rest)
              (sym (snoc_swap c e.call rest k.closed_calls e.same_part)))
        (rw (e.closed_snoc, e.results_snoc, map-append part_of k.closed_calls (e.call ∷ []))
          (Answers-snoc (parts_of k.closed_calls) k.tool_results (part_of e.call) e.result a
            e.answers_id e.answers_name))

  Held-Linked :
      (c call : Call J) (rest : List (Call J)) (k k' : Core J)
      → k.open_calls ≡ c ∷ rest
      → Held engine c call rest k k'
      → Linked k
      → Linked k'
  Held-Linked c call rest k k' o e (idle a b r g) = absurd (cons-ne-nil c rest (sym o ∙ b))
  Held-Linked c call rest k k' o e (busy ts parts p ps t g n l a) =
      busy ts parts p ps (e.frame.transcript_same ∙ t) g n
        (l
          ∙ rw (o, e.closed_same, e.open_marked)
              (ap (λ d. parts_of k.closed_calls ++ d ∷ parts_of rest) (sym e.same_part)))
        (rw (e.closed_same, e.results_same) a)

  group-Linked :
      (c : Call J) (cs : List (Call J)) (k : Core J)
      → k.closed_calls ≡ c ∷ cs
      → k.open_calls ≡ []
      → Linked k
      → Linked (group_core k)
  group-Linked c cs k e o (idle a b r g) = absurd (cons-ne-nil c cs (sym e ∙ a))
  group-Linked c cs k e o (busy ts parts p ps t g n l a) =
      let answered : p ∷ ps ≡ parts_of k.closed_calls =
        l ∙ rw o (append-nil (parts_of k.closed_calls)) in
      let group : Grammar (assistant parts ∷ tool_results k.tool_results ∷ []) =
        Grammar.acts parts p ps k.tool_results [] n
          (subst (λ cs. Answers cs k.tool_results) (sym answered) a) Grammar.ends in
      idle refl refl refl (
        rw (t, append_assoc ts (assistant parts ∷ []) (tool_results k.tool_results ∷ []))
          (Grammar-append ts _ g group))

  idle_transcript :
      (k : Core J)
      → k.closed_calls ≡ []
      → k.open_calls ≡ []
      → Linked k
      → Grammar k.transcript × (k.tool_results ≡ [])
  idle_transcript k e o (idle a b r g) = (g, r)
  idle_transcript k e o (busy ts parts p ps t g n l a) =
      absurd (cons-ne-nil p ps (l ∙ rw (e, o) refl))

  open-Linked :
      (t : String) (c : Call J) (cs : List (Call J)) (k : Core J)
      → k.closed_calls ≡ []
      → k.open_calls ≡ []
      → Linked k
      → Linked (open_core engine.blank engine.max_tool_calls t (c ∷ cs) k)
  unfolding assistant_turn
  open-Linked t c cs k e o h =
      let (g, r) = idle_transcript k e o h in
      busy k.transcript (turn_parts engine.blank t (c ∷ cs)) (part_of c) (parts_of cs) refl g
        (calls_of-turn_parts engine.blank t (c ∷ cs))
        (sym (parts_of-block_from (engine.max_tool_calls - k.total_tool_calls) (c ∷ cs))) (rw r tt)

  abbrev pub IsCanonical : Core J → Type 0
  IsCanonical k = Linked k × All Grammar k.requests

  pub linked : Invariant engine IsCanonical IsCanonical
  linked = record {
    weaken = λ k h. h;
    keeps = λ c rest k k' o e h. (Closed-Linked c rest k k' o e h.0, rw e.frame.requests_same h.1);
    waits = λ c call rest k k' o e h.
        (Held-Linked c call rest k k' o e h.0, rw e.frame.requests_same h.1);
    groups = λ c cs k e o h. (group-Linked c cs k e o h.0, h.1);
    asks = λ k e o h. (
      idle e o (idle_transcript k e o h.0).1 (idle_transcript k e o h.0).0,
      All-snoc Grammar k.requests k.transcript h.1 (idle_transcript k e o h.0).0,
    );
    opens_turn = λ t c cs k e o new h. (open-Linked t c cs k e o h.0, h.1);
  }
