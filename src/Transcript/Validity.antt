-- ===== src/Transcript/Validity.antt =====
-- `validate_sequence` of execution_engine/transcript.py against the grammar of turns.
use execution_engine.Common.{
  ◌≡◌, ◌↔◌, String, eq_iff, false, Option, none, some, List, [], ◌∷◌, refl, sym, subst, arith,
  contains, contains-add, add, All, IsDistinct,
}
use execution_engine.Transcript.Turns.{
  ProviderName, AssistantPart, ToolCallPart, ToolResult, TranscriptTurn, user, assistant,
  tool_results, CanonicalTranscript, SequenceError, calls_of, expected_ids,
}
use execution_engine.Transcript.Sequence.{
  check_results, is_foreign, check_calls, see, or_else, check_turns, validate_sequence,
}
use execution_engine.Transcript.Grammar.{
  Answers, Grammar, ends, asks, speaks, acts, all_calls, Fresh, check_calls→Fresh,
  Fresh→check_calls, Fresh-append, Named, Fresh-Named, answered, answers-pass,
}

or_else-none : (a b : Option SequenceError) → or_else a b ≡ none → (a ≡ none) × (b ≡ none)
unfolding or_else
or_else-none none b h = (refl, h)
or_else-none (some e) b h = absurd (ground (arith, h))

nothing-seen : (ids : List String) → All (λ i. contains [] i ≡ false) ids
unfolding contains
nothing-seen [] = tt
nothing-seen (i ∷ ids) = (refl, nothing-seen ids)

no-overlap :
    (x : String) (seen ids : List String)
    → All (λ i. contains (add x seen) i ≡ false) ids
      ↔ ((contains ids x ≡ false) × All (λ i. contains seen i ≡ false) ids)
unfolding contains
no-overlap x seen [] = (λ h. (refl, tt), λ h. tt)
no-overlap x seen (i ∷ ids) =
    let rest = no-overlap x seen ids in
    let at = contains-add x seen i in
    (
      λ h.
          (let (out, old) = rest.0 h.1 in
            (ground (arith, h.0, at, out, eq_iff x i, eq_iff i x), (ground (arith, h.0, at), old))),
      λ h. (
        ground (arith, h.0, h.1.0, at, eq_iff x i, eq_iff i x),
        rest.1 (ground (arith, h.0), h.1.1),
      ),
    )

module _ {J : Type 0} where
  -- what may follow while these calls wait for their results
  abbrev Rest : List (ToolCallPart J) → List (TranscriptTurn J) → Type 0
  Rest [] ts = Grammar ts
  Rest (c ∷ cs) ts =
      (rs : List (ToolResult J)) × (ts' : List (TranscriptTurn J)) × (ts ≡ tool_results rs ∷ ts')
      × Answers (c ∷ cs) rs
      × Grammar ts'

  speak :
      (parts : List (AssistantPart J)) (cs : List (ToolCallPart J)) (ts : List (TranscriptTurn J))
      → calls_of parts ≡ cs
      → Rest cs ts
      → Grammar (assistant parts ∷ ts)
  speak parts [] ts e g = speaks parts ts e g
  speak parts (c ∷ cs) ts e (rs, ts', te, a, g) =
      subst (λ x. Grammar (assistant parts ∷ x)) (sym te) (acts parts c cs rs ts' e a g)

  results-answer :
      (cs : List (ToolCallPart J)) (rs : List (ToolResult J))
      → Named cs cs
      → check_results cs rs ≡ none
      → Answers cs rs
  unfolding check_results
  results-answer cs rs n h = answered cs cs rs n (ground (arith, h)) (ground (arith, h))

  answer-passes :
      (cs : List (ToolCallPart J)) (rs : List (ToolResult J))
      → Named cs cs
      → Answers cs rs
      → check_results cs rs ≡ none
  unfolding check_results
  answer-passes cs rs n a =
      let (same, good) = answers-pass cs cs rs n a in ground (arith, same, good)

  module _ (p : ProviderName) where
    check_turns_sound :
        (seen : List String) (pending : List (ToolCallPart J)) (ts : List (TranscriptTurn J))
        → Named pending pending
        → check_turns p seen pending ts ≡ none
        → Rest pending ts × Fresh p seen (all_calls ts)
    unfolding check_turns all_calls
    check_turns_sound seen [] [] n h = (ends, tt)
    check_turns_sound seen (c ∷ cs) [] n h = absurd (ground (arith, h))
    check_turns_sound seen (c ∷ cs) (user t ∷ ts) n h = absurd (ground (arith, h))
    check_turns_sound seen (c ∷ cs) (assistant parts ∷ ts) n h = absurd (ground (arith, h))
    check_turns_sound seen (c ∷ cs) (tool_results rs ∷ ts) n h =
        let (a, b) = or_else-none _ _ h in
        let (g, f) = check_turns_sound seen [] ts tt b in
        ((rs, ts, refl, results-answer (c ∷ cs) rs n a, g), f)
    check_turns_sound seen [] (user t ∷ ts) n h =
        let (g, f) = check_turns_sound seen [] ts tt h in (asks t ts g, f)
    check_turns_sound seen [] (tool_results rs ∷ ts) n h = absurd (ground (arith, h))
    check_turns_sound seen [] (assistant parts ∷ ts) n h =
        let calls = calls_of parts in
        let (a, b) = or_else-none _ _ h in
        let new = check_calls→Fresh p seen calls a in
        let (r, f) = check_turns_sound (see seen calls) calls ts (Fresh-Named p seen calls new) b in
        (speak parts calls ts refl r, (Fresh-append p seen calls (all_calls ts)).1 (new, f))

    check_turns_complete :
        (seen : List String) {ts : List (TranscriptTurn J)}
        → Grammar ts
        → Fresh p seen (all_calls ts)
        → check_turns p seen [] ts ≡ none
    unfolding check_turns all_calls check_calls see
    check_turns_complete seen ends f = refl
    check_turns_complete seen (asks t ts g) f = check_turns_complete seen g f
    check_turns_complete seen (speaks parts ts e g) f =
        let (new, old) = (Fresh-append p seen (calls_of parts) (all_calls ts)).0 f in
        let later =
          check_turns_complete seen g (subst (λ cs. Fresh p (see seen cs) (all_calls ts)) e old) in
        rw (Fresh→check_calls p seen (calls_of parts) new, or_else, e, see, later)
    check_turns_complete seen (acts parts c cs rs ts e a g) f =
        let (new, old) = (Fresh-append p seen (calls_of parts) (all_calls ts)).0 f in
        let n = Fresh-Named p seen (c ∷ cs) (subst (Fresh p seen) e new) in
        let later = check_turns_complete (see seen (calls_of parts)) g old in
        let later' = subst (λ x. check_turns p (see seen x) [] ts ≡ none) e later in
        rw (
          Fresh→check_calls p seen (calls_of parts) new,
          or_else,
          e,
          answer-passes (c ∷ cs) rs n a,
          or_else,
          later',
        )

    Fresh-exact :
        (seen : List String) (cs : List (ToolCallPart J))
        → Fresh p seen cs ↔ (
            All (λ i. contains seen i ≡ false) (expected_ids cs)
            × IsDistinct (expected_ids cs)
            × All (λ c. is_foreign p c ≡ false) cs)
    unfolding expected_ids
    Fresh-exact seen [] = (λ f. (tt, tt, tt), λ f. tt)
    Fresh-exact seen (c ∷ cs) =
        let rest = Fresh-exact (add c.call_id seen) cs in
        let apart = no-overlap c.call_id seen (expected_ids cs) in
        (
          λ f.
              (let (all, distinct, own) = rest.0 f.2 in
                let (out, old) = apart.0 all in ((f.0, old), (out, distinct), (f.1, own))),
          λ f. (f.0.0, f.2.0, rest.1 (apart.1 (f.1.0, f.0.1), f.1.1, f.2.1)),
        )

  -- Validation accepts a transcript exactly if its turns follow the grammar, in which every group
  -- of tool calls is answered by the turn after it, result by result with the id and the name of
  -- its call; no call id is used twice; and every continuation state is the provider's own.
  pub validate_sequence-exact :
      (t : CanonicalTranscript J)
      → (validate_sequence t ≡ none) ↔ (
          Grammar t.turns
          × IsDistinct (expected_ids (all_calls t.turns))
          × All (λ c. is_foreign t.provider c ≡ false) (all_calls t.turns))
  unfolding validate_sequence
  validate_sequence-exact t =
      let calls = all_calls t.turns in
      (
        λ h.
            (let (g, f) = check_turns_sound t.provider [] [] t.turns tt h in
              let (_, distinct, own) = (Fresh-exact t.provider [] calls).0 f in (g, distinct, own)),
        λ (g, distinct, own). check_turns_complete t.provider [] g (
            (Fresh-exact t.provider [] calls).1 (nothing-seen (expected_ids calls), distinct, own)),
      )
