-- ===== src/Tests/Schemas.antt =====
-- The validation of tool arguments at concrete schemas and values.
use execution_engine.Common.{
  ℕ, zero, suc, ◌+◌, arith, ◌≡◌, refl, true, false, some, [], ◌∷◌, keep, any,
}
use execution_engine.Common.Dict.{lookup}
use execution_engine.Validation.Json.{
  get, get_in, truthy, equal, ℤ, pos, whole, Json, bool, num, str, arr, obj, nil, cons, end, field,
  Python,
}
use execution_engine.Validation.Sizes.{size}
use execution_engine.Validation.Schema.Rules.{
  add_detail, add_details, add_when, each, kind_matches, some_kind_matches, type_matches,
  candidates_of, list_of, dict_of, is_missing, is_false, below_int, above_int, shortest,
  below_number, above_number, type_allows, const_allows, enum_allows, pattern_allows, root, at_key,
  below_minimum, required_missing, additional_not_allowed, not_exactly_one_shape, detail, done,
}
use execution_engine.Validation.Schema.Visit.{
  matching, fail_with_best, check_required, check_additional, items_rule, evaluate, judge_one,
  judge_any, visit_one_of, visit_any_of, visit_field, visit_object, visit_items, visit_array,
  check_pattern, visit_string, visit_number, visit_contents, visit_plain, visit_shapes, visit_rule,
  visit, validate_tool_arguments,
}
use execution_engine.Validation.Schema.Soundness.{IsSound}
use execution_engine.Validation.Schema.Typing.{ConformsTo}
use execution_engine.Validation.Schema.Exact.{Validated, validate_tool_arguments-Validated}

abbrev pub python : Python
python = record { float_less = λ _ _. false; float_eq = λ _ _. false; search = λ _ _. some true }

abbrev number : ℤ → Json
number z = num (whole z)

-- an object with a name and at least one replica, and nothing else
abbrev scale_schema : Json
scale_schema = obj (
    field "type" (str "object") (
      field "required" (arr (cons (str "name") nil)) (
        field "properties"
          (obj (
            field "name" (obj (field "type" (str "string") end)) (
              field "replicas"
                (obj (field "type" (str "integer") (field "minimum" (number (pos 1)) end))) end)))
          (field "additionalProperties" (bool false) end))))

abbrev scale_arguments : Json
scale_arguments = obj (field "name" (str "web") (field "replicas" (number (pos 3)) end))

abbrev wrong_arguments : Json
wrong_arguments = obj (field "replicas" (number (pos 0)) (field "force" (bool true) end))

abbrev two_shapes : Json
two_shapes =
    obj
      (field "oneOf" (arr (cons (obj end) (cons (obj (field "type" (str "string") end)) nil))) end)

-- a value that conforms, a value with three errors in the order of the walk, and a value that fits two
-- shapes of `oneOf`
validation_test :
    (validate_tool_arguments python scale_arguments scale_schema ≡ done [])
    × (validate_tool_arguments python wrong_arguments scale_schema
        ≡ done (
            detail (at_key root (str "name")) required_missing
            ∷ detail (at_key root (str "force")) additional_not_allowed
            ∷ detail (at_key root (str "replicas")) (below_minimum (number (pos 1)))
            ∷ []))
    × (validate_tool_arguments python (str "x") two_shapes
        ≡ done (detail root not_exactly_one_shape ∷ []))
unfolding above_int above_number add_detail add_details add_when below_int below_number
    candidates_of check_additional check_pattern check_required const_allows dict_of each
    enum_allows equal evaluate fail_with_best get get_in is_false is_missing items_rule judge_any
    judge_one kind_matches list_of matching pattern_allows shortest some_kind_matches truthy
    type_allows type_matches validate_tool_arguments visit visit_any_of visit_array visit_contents
    visit_field visit_items visit_number visit_object visit_one_of visit_plain visit_rule
    visit_shapes visit_string size lookup keep any
validation_test = (refl, refl, refl)

-- a schema of texts is sound, as far down as one goes
any_schema-IsSound : (n : ℕ) → IsSound python n (obj end)
unfolding IsSound type_allows truthy get list_of dict_of is_missing pattern_allows items_rule lookup
    candidates_of
any_schema-IsSound zero = tt
any_schema-IsSound (suc n) = record {
  one_of = λ shapes h. absurd (ground (arith, h));
  any_of = λ shapes h. absurd (ground (arith, h));
  kinds = λ value h. ground (arith, h);
  required = λ item. tt;
  pattern = λ s h. ground (arith, h);
  properties = λ k r h. absurd (ground (arith, h));
  items = any_schema-IsSound n;
}

text_schema-IsSound : (n : ℕ) → IsSound python n (obj (field "type" (str "string") end))
unfolding IsSound type_allows type_matches some_kind_matches kind_matches truthy get list_of dict_of
    is_missing pattern_allows items_rule lookup candidates_of
text_schema-IsSound zero = tt
text_schema-IsSound (suc n) = record {
  one_of = λ shapes h. absurd (ground (arith, h));
  any_of = λ shapes h. absurd (ground (arith, h));
  kinds = λ value h. ground (arith, h);
  required = λ item. tt;
  pattern = λ s h. ground (arith, h);
  properties = λ k r h. absurd (ground (arith, h));
  items = any_schema-IsSound n;
}

validate_tool_arguments-Validated_example :
    Validated
      (IsSound python (suc (size wrong_arguments + size scale_schema)) scale_schema)
      (ConformsTo python wrong_arguments scale_schema)
      (validate_tool_arguments python wrong_arguments scale_schema)
validate_tool_arguments-Validated_example =
    validate_tool_arguments-Validated python wrong_arguments scale_schema
