-- ===== src/Transcript/Grammar.antt =====
-- What `validate_sequence` of execution_engine/transcript.py accepts, as a grammar of turns.
use execution_engine.Common.{
  ◌≡◌, ◌↔◌, String, eq_iff, true, false, none, some, List, [], ◌∷◌, ◌++◌, refl, arith, contains,
  contains-add, add, any, opt_eq→eq, opt_eq_self, All,
}
use execution_engine.Transcript.Turns.{
  ProviderName, AssistantPart, ToolCallPart, ToolResult, TranscriptTurn, user, assistant,
  tool_results, calls_of, expected_ids, actual_ids,
}
use execution_engine.Transcript.Sequence.{
  ids_eq, name_of, is_misnamed, is_foreign, check_calls, see,
}

module _ {J : Type 0} where
  -- the results answer the calls one by one, by id and by name
  abbrev pub Answers : List (ToolCallPart J) → List (ToolResult J) → Type 0
  Answers [] [] = Unit
  Answers (c ∷ cs) (r ∷ rs) = (r.call_id ≡ c.call_id) × (r.name ≡ c.name) × Answers cs rs
  Answers _ _ = ⊥

  -- turns in which every group of calls is answered by the turn after it
  pub data Grammar : List (TranscriptTurn J) → Type 0 where
    ends : Grammar []
    asks : (t : String) (ts : List (TranscriptTurn J)) → Grammar ts → Grammar (user t ∷ ts)
    speaks :
        (parts : List (AssistantPart J)) (ts : List (TranscriptTurn J))
        → calls_of parts ≡ []
        → Grammar ts
        → Grammar (assistant parts ∷ ts)
    acts :
        (parts : List (AssistantPart J)) (c : ToolCallPart J) (cs : List (ToolCallPart J))
        (rs : List (ToolResult J)) (ts : List (TranscriptTurn J))
        → calls_of parts ≡ c ∷ cs
        → Answers (c ∷ cs) rs
        → Grammar ts
        → Grammar (assistant parts ∷ tool_results rs ∷ ts)

  -- all tool calls of a transcript, in order
  unfoldable pub all_calls : List (TranscriptTurn J) → List (ToolCallPart J)
  all_calls [] = []
  all_calls (user t ∷ ts) = all_calls ts
  all_calls (assistant parts ∷ ts) = calls_of parts ++ all_calls ts
  all_calls (tool_results rs ∷ ts) = all_calls ts

  module _ (p : ProviderName) where
    -- no id is seen before its call, and every continuation state is the provider's own
    abbrev pub Fresh : List String → List (ToolCallPart J) → Type 0
    Fresh seen [] = Unit
    Fresh seen (c ∷ cs) =
        (contains seen c.call_id ≡ false) × (is_foreign p c ≡ false) × Fresh (add c.call_id seen) cs

    pub check_calls→Fresh :
        (seen : List String) (cs : List (ToolCallPart J))
        → check_calls p seen cs ≡ none
        → Fresh seen cs
    unfolding check_calls
    check_calls→Fresh seen [] h = tt
    check_calls→Fresh seen (c ∷ cs) h = (
      ground (arith, h),
      ground (arith, h),
      check_calls→Fresh (add c.call_id seen) cs (ground (arith, h)),
    )

    pub Fresh→check_calls :
        (seen : List String) (cs : List (ToolCallPart J))
        → Fresh seen cs
        → check_calls p seen cs ≡ none
    unfolding check_calls
    Fresh→check_calls seen [] f = refl
    Fresh→check_calls seen (c ∷ cs) (new, own, f) =
        ground (arith, new, own, Fresh→check_calls (add c.call_id seen) cs f)

    pub Fresh-append :
        (seen : List String) (xs ys : List (ToolCallPart J))
        → Fresh seen (xs ++ ys) ↔ (Fresh seen xs × Fresh (see seen xs) ys)
    unfolding see
    Fresh-append seen [] ys = (λ f. (tt, f), λ f. f.1)
    Fresh-append seen (x ∷ xs) ys =
        let rest = Fresh-append (add x.call_id seen) xs ys in
        (
          λ f. (let (a, b) = rest.0 f.2 in ((f.0, f.1, a), b)),
          λ f. (f.0.0, f.0.1, rest.1 (f.0.2, f.1)),
        )

    name_of_absent :
        (seen : List String) (cs : List (ToolCallPart J)) (id : String)
        → contains seen id ≡ true
        → Fresh seen cs
        → name_of id cs ≡ none
    unfolding name_of
    name_of_absent seen [] id h f = refl
    name_of_absent seen (c ∷ cs) id h (new, own, f) =
        let old : contains (add c.call_id seen) id ≡ true =
          ground (arith, h, contains-add c.call_id seen id) in
        let absent = name_of_absent (add c.call_id seen) cs id old f in
        ground (arith, h, new, absent, eq_iff c.call_id id)

  abbrev pub Named : List (ToolCallPart J) → List (ToolCallPart J) → Type 0
  Named calls = All (λ c. name_of c.call_id calls ≡ some c.name)

  Named-cons :
      (x : ToolCallPart J) (calls cs : List (ToolCallPart J))
      → Named calls cs
      → Named (x ∷ calls) cs
  unfolding name_of
  Named-cons x calls [] n = tt
  Named-cons x calls (c ∷ cs) n = (ground (arith, n.0), Named-cons x calls cs n.1)

  pub Fresh-Named :
      (p : ProviderName) (seen : List String) (cs : List (ToolCallPart J))
      → Fresh p seen cs
      → Named cs cs
  unfolding name_of
  Fresh-Named p seen [] f = tt
  Fresh-Named p seen (c ∷ cs) (new, own, f) =
      let here : contains (add c.call_id seen) c.call_id ≡ true =
        ground (arith, contains-add c.call_id seen c.call_id, eq_iff c.call_id c.call_id) in
      let absent = name_of_absent p (add c.call_id seen) cs c.call_id here f in
      (
        ground (arith, absent, eq_iff c.call_id c.call_id),
        Named-cons c cs cs (Fresh-Named p (add c.call_id seen) cs f),
      )

  module _ (calls : List (ToolCallPart J)) where
    pub answered :
        (cs : List (ToolCallPart J)) (rs : List (ToolResult J))
        → Named calls cs
        → ids_eq (actual_ids rs) (expected_ids cs) ≡ true
        → any (is_misnamed calls) rs ≡ false
        → Answers cs rs
    unfolding ids_eq actual_ids expected_ids any is_misnamed
    answered [] [] n same good = tt
    answered [] (r ∷ rs) n same good = absurd (ground (arith, same))
    answered (c ∷ cs) [] n same good = absurd (ground (arith, same))
    answered (c ∷ cs) (r ∷ rs) n same good =
        let id : r.call_id ≡ c.call_id = ground (arith, same, eq_iff r.call_id c.call_id) in
        let named = opt_eq→eq (name_of r.call_id calls) (some r.name) (ground (arith, good)) in
        (
          id,
          ground (arith, id, named, n.0),
          answered cs rs n.1 (ground (arith, same)) (ground (arith, good)),
        )

    pub answers-pass :
        (cs : List (ToolCallPart J)) (rs : List (ToolResult J))
        → Named calls cs
        → Answers cs rs
        → (ids_eq (actual_ids rs) (expected_ids cs) ≡ true) × (any (is_misnamed calls) rs ≡ false)
    unfolding ids_eq actual_ids expected_ids any is_misnamed
    answers-pass [] [] n a = (refl, refl)
    answers-pass (c ∷ cs) (r ∷ rs) n (id, nm, a) =
        let (same, good) = answers-pass cs rs n.1 a in
        (
          ground (arith, same, id, eq_iff r.call_id c.call_id),
          ground (arith, good, id, nm, n.0, opt_eq_self (some r.name)),
        )
    answers-pass [] (r ∷ rs) n a = absurd a
    answers-pass (c ∷ cs) [] n a = absurd a
