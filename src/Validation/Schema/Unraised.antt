-- ===== src/Validation/Schema/Unraised.antt =====
-- The validation against a sound schema does not raise.
use execution_engine.Common.{
  ℕ, zero, suc, ◌+◌, ◌≡◌, ◌≢◌, refl, String, Bool, not, Option, none, some, List, [], ◌∷◌, All,
  if◌then◌else◌, by_test,
}
use execution_engine.Common.Dict.{lookup}
use execution_engine.Validation.Json.{
  Json, null, bool, num, str, arr, obj, JsonDict, elements, entries, get, Python,
}
use execution_engine.Validation.Schema.Rules.{
  Place, at_key, at_index, Details, Walk, raised, done, add_detail, detail, not_exactly_one_shape,
  no_allowed_shape, expected_type, expected_constant, not_in_enum, candidates_of, list_of, dict_of,
  type_allows, const_allows, enum_allows,
}
use execution_engine.Validation.Schema.Visit.{
  evaluate, matching, judge_one, judge_any, visit_one_of, visit_any_of, check_additional,
  visit_field, visit_object, items_rule, visit_items, visit_array, visit_string, visit_number,
  visit_contents, visit_plain, visit_shapes, visit_rule, visit,
}
use execution_engine.Validation.Schema.Soundness.{SoundShapes, SoundRule, SoundIn, IsSound}
use execution_engine.Validation.Schema.Calm.{
  All-always, AnyDetails, Calm, Calm-and_then, Calm-raised, Quiet, Quiet-add_when, Quiet-and_then,
  Quiet-check_pattern, Quiet-each, Quiet-each_required, Quiet-fail_with_best, calm,
  check_additional-Quiet, matching-All, spent,
}

module _ (go : Json → Json → Place → Details → Walk Details) (Sub : Json → Type 0)
    (quiet : (v r : Json) → Sub r → (p : Place) (e : Details) → Quiet (go v r p e)) where
  evaluate-Calm :
      (item : Json) (path : Place) (cs : List Json)
      → All Sub cs
      → Calm (All (λ (e : Json × Details). Sub e.0)) (evaluate go item path cs)
  unfolding evaluate
  evaluate-Calm item path [] a = calm [] tt
  evaluate-Calm item path (c ∷ cs) a =
      let later = evaluate-Calm item path cs a.1 in
      Calm-and_then AnyDetails (All (λ (e : Json × Details). Sub e.0)) (go item c path []) _
        (quiet item c a.0 path [])
        (λ found _.
          Calm-and_then (All (λ (e : Json × Details). Sub e.0))
            (All (λ (e : Json × Details). Sub e.0)) (evaluate go item path cs) _ later
            (λ rest p. calm ((c, found) ∷ rest) (a.0, p)))

  judge_one-Quiet :
      (item : Json) (path : Place) (es : List (Json × Details)) (ms : List Json)
      → All Sub ms
      → (e : Details) → Quiet (judge_one go item path es ms e)
  unfolding judge_one
  judge_one-Quiet item path es [] a e = Quiet-fail_with_best not_exactly_one_shape path es e
  judge_one-Quiet item path es (m ∷ []) a e = quiet item m a.0 path e
  judge_one-Quiet item path es (m ∷ m' ∷ ms) a e = calm _ tt

  judge_any-Quiet :
      (item : Json) (path : Place) (es : List (Json × Details)) (ms : List Json)
      → All Sub ms
      → (e : Details) → Quiet (judge_any go item path es ms e)
  unfolding judge_any
  judge_any-Quiet item path es [] a e = Quiet-fail_with_best no_allowed_shape path es e
  judge_any-Quiet item path es (m ∷ ms) a e = quiet item m a.0 path e

  visit_one_of-Quiet :
      (item : Json) (path : Place) (o : Option (List Json))
      → SoundShapes Sub o
      → (e : Details) → Quiet (visit_one_of go item path o e)
  unfolding visit_one_of
  visit_one_of-Quiet item path none s e = absurd s
  visit_one_of-Quiet item path (some cs) s e =
      Calm-and_then (All (λ (x : Json × Details). Sub x.0)) AnyDetails (evaluate go item path cs) _
        (evaluate-Calm item path cs s)
        (λ es a. judge_one-Quiet item path es (matching es) (matching-All Sub es a) e)

  visit_any_of-Quiet :
      (item : Json) (path : Place) (o : Option (List Json))
      → SoundShapes Sub o
      → (e : Details) → Quiet (visit_any_of go item path o e)
  unfolding visit_any_of
  visit_any_of-Quiet item path none s e = absurd s
  visit_any_of-Quiet item path (some cs) s e =
      Calm-and_then (All (λ (x : Json × Details). Sub x.0)) AnyDetails (evaluate go item path cs) _
        (evaluate-Calm item path cs s)
        (λ es a. judge_any-Quiet item path es (matching es) (matching-All Sub es a) e)

  visit_field-Quiet :
      (properties : JsonDict) (path : Place)
      → ((k : String) (r : Json) → lookup k properties ≡ some r → Sub r)
      → (f : String × Json) (e : Details) → Quiet (visit_field go properties path f e)
  unfolding visit_field
  visit_field-Quiet properties path s f e = of (lookup f.0 properties) refl
    where
      of :
          (o : Option Json)
          → lookup f.0 properties ≡ o
          → Quiet (elim o [ none ↦ done e | some rule ↦ go f.1 rule (at_key path (str f.0)) e ])
      of none h = calm e tt
      of (some r) h = quiet f.1 r (s f.0 r h) (at_key path (str f.0)) e

  visit_items-Quiet :
      (rule : Json) (path : Place)
      → Sub rule
      → (i : ℕ) (items : List Json) (e : Details) → Quiet (visit_items go rule path i items e)
  unfolding visit_items
  visit_items-Quiet rule path s i [] e = calm e tt
  visit_items-Quiet rule path s i (c ∷ cs) e =
      Quiet-and_then (go c rule (at_index path i) e) (visit_items go rule path (i + 1) cs)
        (quiet c rule s (at_index path i) e) (visit_items-Quiet rule path s (i + 1) cs)

  visit_contents-Quiet :
      (py : Python) (item : Json) (rule : JsonDict) (path : Place)
      → SoundRule py Sub rule
      → (e : Details) → Quiet (visit_contents py go item rule path e)
  unfolding visit_contents visit_object visit_array visit_string visit_number
  visit_contents-Quiet py (obj fs) rule path s e =
      Quiet-and_then _ _
        (Quiet-each_required (entries fs) path (list_of (get "required" rule))
          (s.required (entries fs)) e)
        (λ e1.
          Quiet-and_then _ _
            (Quiet-each (check_additional (dict_of (get "properties" rule)) path) _
              (All-always _ (check_additional-Quiet (dict_of (get "properties" rule)) path) _) e1)
            (Quiet-each (visit_field go (dict_of (get "properties" rule)) path) (entries fs) (
              All-always _ (visit_field-Quiet (dict_of (get "properties" rule)) path s.properties)
                (entries fs))))
  visit_contents-Quiet py (arr xs) rule path s e =
      Quiet-and_then _ _ (Quiet-add_when _ path _ e) (λ e1.
        Quiet-and_then _ _ (Quiet-add_when _ path _ e1)
          (visit_items-Quiet (items_rule rule) path s.items 0 (elements xs)))
  visit_contents-Quiet py (str t) rule path s e =
      Quiet-and_then _ _ (Quiet-add_when _ path _ e) (λ e1.
        Quiet-and_then _ _ (Quiet-add_when _ path _ e1)
          (Quiet-check_pattern py t (get "pattern" rule) (s.pattern t) path))
  visit_contents-Quiet py (num x) rule path s e =
      Quiet-and_then _ _ (Quiet-add_when _ path _ e) (Quiet-add_when _ path _)
  visit_contents-Quiet py null rule path s e = calm e tt
  visit_contents-Quiet py (bool b) rule path s e = calm e tt

  visit_plain-Quiet :
      (py : Python) (item : Json) (rule : JsonDict) (path : Place)
      → SoundRule py Sub rule
      → (e : Details) → Quiet (visit_plain py go item rule path e)
  unfolding visit_plain
  visit_plain-Quiet py item rule path s e =
      of (type_allows py item (get "type" rule)) (s.kinds item)
    where
      of :
          (o : Option Bool)
          → o ≢ none
          → Quiet (elim o [
            | none ↦ raised
            | some allowed ↦
                (if not allowed
                  then done (add_detail e (detail path (expected_type (get "type" rule))))
                  else (if not (const_allows py item (lookup "const" rule))
                      then done (add_detail e (detail path (expected_constant (get "const" rule))))
                      else (if not (enum_allows py item (get "enum" rule))
                          then done (add_detail e (detail path not_in_enum))
                          else visit_contents py go item rule path e)))
          ])
      of none h = absurd (h refl)
      of (some b) h =
          by_test Quiet (not b) (λ _. calm _ tt)
            (λ _.
              by_test Quiet (not (const_allows py item (lookup "const" rule))) (λ _. calm _ tt)
                (λ _.
                  by_test Quiet (not (enum_allows py item (get "enum" rule))) (λ _. calm _ tt)
                    (λ _. visit_contents-Quiet py item rule path s e)))

  visit_shapes-Quiet :
      (py : Python) (item : Json) (rule : JsonDict) (path : Place)
      → SoundRule py Sub rule
      → (one other : Option Json) → lookup "oneOf" rule ≡ one
      → lookup "anyOf" rule ≡ other
      → (e : Details) → Quiet (visit_shapes py go item rule path one other e)
  unfolding visit_shapes
  visit_shapes-Quiet py item rule path s (some shapes) other h k e =
      visit_one_of-Quiet item path (candidates_of shapes) (s.one_of shapes h) e
  visit_shapes-Quiet py item rule path s none (some shapes) h k e =
      visit_any_of-Quiet item path (candidates_of shapes) (s.any_of shapes k) e
  visit_shapes-Quiet py item rule path s none none h k e = visit_plain-Quiet py item rule path s e

  visit_rule-Quiet :
      (py : Python) (item rule : Json)
      → SoundIn py Sub rule
      → (path : Place) (e : Details) → Quiet (visit_rule py go item rule path e)
  unfolding visit_rule
  visit_rule-Quiet py item (obj fs) s path e =
      visit_shapes-Quiet py item (entries fs) path s (lookup "oneOf" (entries fs))
        (lookup "anyOf" (entries fs)) refl refl e
  visit_rule-Quiet py item null s path e = calm e tt
  visit_rule-Quiet py item (bool b) s path e = calm e tt
  visit_rule-Quiet py item (num x) s path e = calm e tt
  visit_rule-Quiet py item (str t) s path e = calm e tt
  visit_rule-Quiet py item (arr xs) s path e = calm e tt

visit-Quiet :
    (py : Python) (n : ℕ) (item rule : Json)
    → IsSound py n rule
    → (path : Place) (e : Details) → Quiet (visit py n item rule path e)
unfolding visit IsSound
visit-Quiet py zero item rule s path e = spent
visit-Quiet py (suc n) item rule s path e =
    visit_rule-Quiet (visit py n) (IsSound py n) (visit-Quiet py n) py item rule s path e

pub visit-raised :
    (py : Python) (n : ℕ) (item rule : Json) (path : Place) (e : Details)
    → IsSound py n rule
    → visit py n item rule path e ≢ raised
visit-raised py n item rule path e s =
    Calm-raised AnyDetails (visit py n item rule path e) (visit-Quiet py n item rule s path e)
