-- ===== src/Validation/Schema/Shapes.antt =====
-- The branches of `oneOf` and `anyOf`: each candidate is tried on an empty list of errors, and what
-- the trials found decides.
use execution_engine.Common.{
  ℕ, ◌+◌, ◌≤◌, ◌<◌, ◌≡◌, refl, arith, Option, none, some, List, [], ◌∷◌, length, All,
}
use execution_engine.Validation.Json.{Json}
use execution_engine.Validation.Sizes.{size}
use execution_engine.Validation.Schema.Rules.{
  Place, not_exactly_one_shape, no_allowed_shape, Details, Walk, done, and_then, add_detail,
  add_details, detail,
}
use execution_engine.Validation.Schema.Visit.{
  evaluate, matching, judge_one, judge_any, visit_one_of, visit_any_of,
}
use execution_engine.Validation.Schema.Verdict.{
  Verdict, halts, passes, fails, refuses, Verdict-known,
}
use execution_engine.Validation.Schema.Typing.{ExactlyOne, SomeOne, OneConforms, AnyConforms}
use execution_engine.Validation.Schema.Candidates.{
  Evaluated, Evaluation, Matches, none-SomeOne, none-ExactlyOne, matching-Matches,
  add_details-grows, candidates_missed, fail_with_best-fails, nothing, hit, miss, halted, finished,
  without, single, several,
}

module _ (go : Json → Json → Place → Details → Walk Details) (Sub : Json → Json → Type 0) (n : ℕ)
    (judged : (v r : Json)
      → size v + size r < n
      → (p : Place) (e : Details) → Verdict (Sub v r) e (go v r p e)) where
  evaluate-Evaluation :
      (item : Json) (path : Place) (cs : List Json)
      → All (λ c. size item + size c < n) cs
      → Evaluation (Sub item) cs (evaluate go item path cs)
  unfolding evaluate add_details add_detail
  evaluate-Evaluation item path [] small = finished [] nothing
  evaluate-Evaluation item path (c ∷ cs) small =
      first (evaluate go item path cs) (evaluate-Evaluation item path cs small.1)
        (go item c path []) (judged item c small.0 path [])
    where
      hit_or_miss :
          (es : List (Json × Details)) (found : Details)
          → ¬ Sub item c
          → 1 ≤ length found
          → Evaluated (Sub item) cs es
          → Evaluation (Sub item) (c ∷ cs) (done ((c, found) ∷ es))
      hit_or_miss es [] bad h rest = absurd (ground (arith, h))
      hit_or_miss es (d ∷ ds) bad h rest = finished _ (miss c d ds cs es bad rest)

      after_miss :
          (found : Details)
          → ¬ Sub item c
          → 1 ≤ length found
          → (w : Walk (List (Json × Details))) → Evaluation (Sub item) cs w
          → Evaluation (Sub item) (c ∷ cs) (and_then w (λ rest. done ((c, found) ∷ rest)))
      after_miss found bad h w halted = halted
      after_miss found bad h w (finished es rest) = hit_or_miss es found bad h rest

      after_hit :
          Sub item c
          → (w : Walk (List (Json × Details))) → Evaluation (Sub item) cs w
          → Evaluation (Sub item) (c ∷ cs) (and_then w (λ rest. done ((c, []) ∷ rest)))
      after_hit p w halted = halted
      after_hit p w (finished es rest) = finished _ (hit c cs es p rest)

      first :
          (rest : Walk (List (Json × Details)))
          → Evaluation (Sub item) cs rest
          → (w : Walk Details) → Verdict (Sub item c) [] w
          → Evaluation
              (Sub item)
              (c ∷ cs)
              (and_then w (λ found. and_then rest (λ es. done ((c, found) ∷ es))))
      first rest ev w halts = halted
      first rest ev w (passes p) = after_hit p rest ev
      first rest ev w (fails bad d ds) =
          after_miss (add_details [] (d ∷ ds)) bad (add_details-grows (d ∷ []) ds) rest ev

  judge_one-Verdict :
      (item : Json) (path : Place) (cs : List Json) (es : List (Json × Details)) (errors : Details)
      → Evaluated (Sub item) cs es
      → All (λ c. size item + size c < n) cs
      → Verdict (ExactlyOne (Sub item) cs) errors (judge_one go item path es (matching es) errors)
  unfolding judge_one
  judge_one-Verdict item path cs es errors ev small =
      of (matching es) refl (matching-Matches (Sub item) _ cs es ev small)
    where
      of :
          (ms : List Json)
          → matching es ≡ ms
          → Matches (Sub item) (λ c. size item + size c < n) cs ms
          → Verdict (ExactlyOne (Sub item) cs) errors (judge_one go item path es ms errors)
      of ms h (without a) =
          fail_with_best-fails not_exactly_one_shape path es errors
            (none-ExactlyOne (Sub item) cs a) (candidates_missed (Sub item) cs es ev h)
      of ms h (single m p q e s) = Verdict-known p e (judged item m q path errors)
      of ms h (several m m' rest p q e s) = refuses errors (detail path not_exactly_one_shape) e

  judge_any-Verdict :
      (item : Json) (path : Place) (cs : List Json) (es : List (Json × Details)) (errors : Details)
      → Evaluated (Sub item) cs es
      → All (λ c. size item + size c < n) cs
      → Verdict (SomeOne (Sub item) cs) errors (judge_any go item path es (matching es) errors)
  unfolding judge_any
  judge_any-Verdict item path cs es errors ev small =
      of (matching es) refl (matching-Matches (Sub item) _ cs es ev small)
    where
      of :
          (ms : List Json)
          → matching es ≡ ms
          → Matches (Sub item) (λ c. size item + size c < n) cs ms
          → Verdict (SomeOne (Sub item) cs) errors (judge_any go item path es ms errors)
      of ms h (without a) =
          fail_with_best-fails no_allowed_shape path es errors (none-SomeOne (Sub item) cs a)
            (candidates_missed (Sub item) cs es ev h)
      of ms h (single m p q e s) = Verdict-known p s (judged item m q path errors)
      of ms h (several m m' rest p q e s) = Verdict-known p s (judged item m q path errors)

  pub visit_one_of-Verdict :
      (item : Json) (path : Place) (o : Option (List Json)) (errors : Details)
      → ((cs : List Json) → o ≡ some cs → All (λ c. size item + size c < n) cs)
      → Verdict (OneConforms Sub item o) errors (visit_one_of go item path o errors)
  unfolding visit_one_of
  visit_one_of-Verdict item path none errors small = halts
  visit_one_of-Verdict item path (some cs) errors small =
      of (evaluate go item path cs) (evaluate-Evaluation item path cs (small cs refl))
    where
      of :
          (w : Walk (List (Json × Details)))
          → Evaluation (Sub item) cs w
          → Verdict
              (ExactlyOne (Sub item) cs)
              errors
              (and_then w (λ found. judge_one go item path found (matching found) errors))
      of w halted = halts
      of w (finished es ev) = judge_one-Verdict item path cs es errors ev (small cs refl)

  pub visit_any_of-Verdict :
      (item : Json) (path : Place) (o : Option (List Json)) (errors : Details)
      → ((cs : List Json) → o ≡ some cs → All (λ c. size item + size c < n) cs)
      → Verdict (AnyConforms Sub item o) errors (visit_any_of go item path o errors)
  unfolding visit_any_of
  visit_any_of-Verdict item path none errors small = halts
  visit_any_of-Verdict item path (some cs) errors small =
      of (evaluate go item path cs) (evaluate-Evaluation item path cs (small cs refl))
    where
      of :
          (w : Walk (List (Json × Details)))
          → Evaluation (Sub item) cs w
          → Verdict
              (SomeOne (Sub item) cs)
              errors
              (and_then w (λ found. judge_any go item path found (matching found) errors))
      of w halted = halts
      of w (finished es ev) = judge_any-Verdict item path cs es errors ev (small cs refl)
