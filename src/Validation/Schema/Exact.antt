-- ===== src/Validation/Schema/Exact.antt =====
-- The validation accepts exactly the values that conform, and it ends.
use execution_engine.Common.{
  ℕ, zero, suc, ◌+◌, ◌≤◌, ◌<◌, ◌≡◌, ◌≢◌, refl, subst, arith, String, Bool, true, false, not, Option,
  none, some, List, [], ◌∷◌, All, All-weaken, keep, length, if◌then◌else◌,
}
use execution_engine.Common.Dict.{lookup}
use execution_engine.Validation.Json.{
  Json, null, bool, num, str, arr, obj, Fields, elements, entries, is_object, get, Python,
}
use execution_engine.Validation.Sizes.{
  size, size_fields, size_items, lookup-is_smaller, elements_are_smaller, All-keep,
}
use execution_engine.Validation.Schema.Rules.{
  Place, root, expected_type, expected_constant, not_in_enum, Detail, Details, Walk, raised, done,
  add_detail, add_details, detail, candidates_of, type_allows, const_allows, enum_allows,
  max_validation_errors,
}
use execution_engine.Validation.Schema.Visit.{
  visit_contents, visit_plain, visit_shapes, visit_rule, visit, validate_tool_arguments,
}
use execution_engine.Validation.Schema.Verdict.{
  Verdict, halts, passes, fails, refuses, Verdict-iff, add_details-bounded,
}
use execution_engine.Validation.Schema.Typing.{
  ContentsConform, PlainConforms, ShapesConform, RuleConforms, Conforms, ConformsTo,
}
use execution_engine.Validation.Schema.Soundness.{IsSound}
use execution_engine.Validation.Schema.Unraised.{visit-raised}
use execution_engine.Validation.Schema.Candidates.{add_details-grows}
use execution_engine.Validation.Schema.Shapes.{visit_one_of-Verdict, visit_any_of-Verdict}
use execution_engine.Validation.Schema.Contents.{visit_contents-Verdict}

candidates-are_smaller :
    (shapes : Json) (cs : List Json)
    → candidates_of shapes ≡ some cs
    → All (λ c. size c ≤ size shapes) cs
unfolding candidates_of size
candidates-are_smaller (arr xs) cs h =
    subst (All (λ c. size c ≤ suc (size_items xs))) {x = keep is_object (elements xs)}
      (ground (arith, h))
      (All-keep (λ c. size c ≤ suc (size_items xs)) is_object (elements xs)
        (All-weaken _ _ (λ c below. omega (arith, below)) (elements xs) (elements_are_smaller xs)))
candidates-are_smaller (obj fs) cs h =
    subst (All (λ c. size c ≤ suc (size_fields fs))) {x = []} (ground (arith, h)) tt
candidates-are_smaller (str s) cs h = subst (All (λ c. size c ≤ 1)) {x = []} (ground (arith, h)) tt
candidates-are_smaller null cs h = absurd (ground (arith, h))
candidates-are_smaller (bool b) cs h = absurd (ground (arith, h))
candidates-are_smaller (num x) cs h = absurd (ground (arith, h))

module _ (py : Python) (go : Json → Json → Place → Details → Walk Details)
    (Sub : Json → Json → Type 0) (n : ℕ)
    (judged : (v r : Json)
      → size v + size r < n
      → (p : Place) (e : Details) → Verdict (Sub v r) e (go v r p e)) where
  visit_plain-Verdict :
      (item : Json) (rule : Fields) (path : Place) (e : Details)
      → size item + suc (size_fields rule) ≤ n
      → Verdict
          (PlainConforms py Sub item (entries rule))
          e
          (visit_plain py go item (entries rule) path e)
  unfolding visit_plain PlainConforms
  visit_plain-Verdict item rule path e small =
      by_type (type_allows py item (get "type" (entries rule)))
        (const_allows py item (lookup "const" (entries rule)))
        (enum_allows py item (get "enum" (entries rule)))
        (visit_contents py go item (entries rule) path e)
        (visit_contents-Verdict go Sub n judged py item rule path e small)
    where
      by_type :
          (t : Option Bool) (c u : Bool) (w : Walk Details)
          → Verdict (ContentsConform py Sub item (entries rule)) e w
          → Verdict
              ((t ≡ some true)
                × (c ≡ true)
                × (u ≡ true)
                × ContentsConform py Sub item (entries rule))
              e
              (elim t [
                | none ↦ raised
                | some allowed ↦
                    (if not allowed
                      then done
                          (add_detail e (detail path (expected_type (get "type" (entries rule)))))
                      else (if not c
                          then done (
                              add_detail e
                                (detail path (expected_constant (get "const" (entries rule)))))
                          else (if not u
                              then done (add_detail e (detail path not_in_enum))
                              else w)))
              ])
      by_type none c u w v = halts
      by_type (some false) c u w v = refuses e _ (λ t. ground (arith, t.0))
      by_type (some true) false u w v = refuses e _ (λ t. ground (arith, t.1))
      by_type (some true) true false w v = refuses e _ (λ t. ground (arith, t.2))
      by_type (some true) true true w v = Verdict-iff (λ k. (refl, refl, refl, k)) (λ t. t.3) v

  small_candidates :
      (k : String) (item shapes : Json) (rule : Fields)
      → lookup k (entries rule) ≡ some shapes
      → size item + suc (size_fields rule) ≤ n
      → (cs : List Json) → candidates_of shapes ≡ some cs
      → All (λ c. size item + size c < n) cs
  small_candidates k item shapes rule found small cs h =
      All-weaken _ _ (λ c below. omega (arith, below, small, lookup-is_smaller k rule shapes found))
        cs (candidates-are_smaller shapes cs h)

  visit_shapes-Verdict :
      (item : Json) (rule : Fields) (path : Place) (e : Details)
      → size item + suc (size_fields rule) ≤ n
      → (one any : Option Json) → lookup "oneOf" (entries rule) ≡ one
      → lookup "anyOf" (entries rule) ≡ any
      → Verdict
          (ShapesConform py Sub item (entries rule) one any)
          e
          (visit_shapes py go item (entries rule) path one any e)
  unfolding visit_shapes
  visit_shapes-Verdict item rule path e small (some shapes) any h k =
      visit_one_of-Verdict go Sub n judged item path (candidates_of shapes) e
        (small_candidates "oneOf" item shapes rule h small)
  visit_shapes-Verdict item rule path e small none (some shapes) h k =
      visit_any_of-Verdict go Sub n judged item path (candidates_of shapes) e
        (small_candidates "anyOf" item shapes rule k small)
  visit_shapes-Verdict item rule path e small none none h k =
      visit_plain-Verdict item rule path e small

  visit_rule-Verdict :
      (item rule : Json) (path : Place) (e : Details)
      → size item + size rule ≤ n
      → Verdict (RuleConforms py Sub item rule) e (visit_rule py go item rule path e)
  unfolding visit_rule RuleConforms size
  visit_rule-Verdict item (obj fs) path e small =
      visit_shapes-Verdict item fs path e small (lookup "oneOf" (entries fs))
        (lookup "anyOf" (entries fs)) refl refl
  visit_rule-Verdict item null path e small = passes tt
  visit_rule-Verdict item (bool b) path e small = passes tt
  visit_rule-Verdict item (num x) path e small = passes tt
  visit_rule-Verdict item (str s) path e small = passes tt
  visit_rule-Verdict item (arr xs) path e small = passes tt

visit-Verdict :
    (py : Python) (n : ℕ) (item rule : Json)
    → size item + size rule < n
    → (path : Place) (e : Details)
    → Verdict (Conforms py n item rule) e (visit py n item rule path e)
unfolding visit Conforms
visit-Verdict py zero item rule small path e = absurd (omega (arith, small))
visit-Verdict py (suc n) item rule small path e =
    visit_rule-Verdict py (visit py n) (Conforms py n) n (visit-Verdict py n) item rule path e
      (omega (arith, small))

-- What the validation of a value comes to: it raises, and the schema is not sound, or it ends without
-- an error and the value conforms, or it ends with one to twelve errors and the value does not conform.
pub data Validated (Sound P : Type 0) : Walk Details → Type 0 where
  validation_raised : ¬ Sound → Validated Sound P raised
  valid : P → Validated Sound P (done [])
  invalid :
      ¬ P
      → (d : Detail) (ds : Details) → length (d ∷ ds) ≤ max_validation_errors
      → Validated Sound P (done (d ∷ ds))

Verdict-Validated :
    {Sound P : Type 0} (w : Walk Details)
    → (Sound → w ≢ raised)
    → Verdict P [] w
    → Validated Sound P w
unfolding add_details add_detail
Verdict-Validated w calm halts = validation_raised (λ s. calm s refl)
Verdict-Validated w calm (passes p) = valid p
Verdict-Validated {Sound = Sound} {P = P} w calm (fails bad d ds) =
    of (add_details (d ∷ []) ds) (add_details-grows (d ∷ []) ds)
      (add_details-bounded (d ∷ []) ds (omega arith))
  where
    of :
        (es : Details)
        → 1 ≤ length es
        → length es ≤ max_validation_errors
        → Validated Sound P (done es)
    of [] h b = absurd (omega (arith, h))
    of (e ∷ es) h b = invalid bad e es b

-- Whatever the value, the schema and what Python does with floats and patterns, the validation ends:
-- it raises, which no sound schema makes it do; or it gives no error, and the value conforms to the
-- schema; or it gives one to twelve errors, and the value does not conform. Neither the bound on the
-- errors, nor the candidates of `oneOf` and `anyOf` that are tried on an emptied list, hides an error.
pub validate_tool_arguments-Validated :
    (py : Python) (value schema : Json)
    → Validated
        (IsSound py (suc (size value + size schema)) schema)
        (ConformsTo py value schema)
        (validate_tool_arguments py value schema)
unfolding validate_tool_arguments
validate_tool_arguments-Validated py value schema =
    Verdict-Validated (validate_tool_arguments py value schema)
      (visit-raised py (suc (size value + size schema)) value schema root [])
      (visit-Verdict py (suc (size value + size schema)) value schema (omega arith) root [])
