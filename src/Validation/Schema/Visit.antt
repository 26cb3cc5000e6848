-- ===== src/Validation/Schema/Visit.antt =====
-- execution_engine/agent/tool_schema_rules.py: `visit`, which walks a value and a schema together.
-- The walk is by fuel, and a walk without fuel is `exhausted`, which no other step gives.
use Prim.Native.String.{count}
use execution_engine.Common.{
  ℕ, zero, suc, ◌+◌, String, not, Option, none, some, List, [], ◌∷◌, map, length, is_some,
  if◌then◌else◌,
}
use execution_engine.Common.Dict.{lookup}
use execution_engine.Validation.Json.{
  Number, Json, num, str, arr, obj, JsonDict, elements, entries, get, Python, end,
}
use execution_engine.Validation.Sizes.{size}
use execution_engine.Validation.Schema.Rules.{
  Place, root, at_key, at_index, Message, not_exactly_one_shape, no_allowed_shape, expected_type,
  expected_constant, not_in_enum, required_missing, additional_not_allowed, too_few_items,
  too_many_items, too_short, too_long, pattern_mismatch, below_minimum, above_maximum, Details,
  Walk, exhausted, raised, done, and_then, add_detail, add_details, detail, add_when, each,
  candidates_of, list_of, dict_of, is_missing, is_false, below_int, above_int, shortest,
  below_number, above_number, type_allows, const_allows, enum_allows, pattern_allows,
}

-- `[candidate for candidate, candidate_errors in evaluated if not candidate_errors]`
unfoldable pub matching : List (Json × Details) → List Json
matching [] = []
matching ((c, []) ∷ es) = c ∷ matching es
matching ((c, _ ∷ _) ∷ es) = matching es

unfoldable pub fail_with_best : Message → Place → List (Json × Details) → Details → Walk Details
fail_with_best m path [] errors = done (add_detail errors (detail path m))
fail_with_best m path (e ∷ es) errors =
    done (add_details errors (shortest e.1 (map (λ (x : Json × Details). x.1) es)))

-- one round of `for key in required`
unfoldable pub check_required : JsonDict → Place → Json → Details → Walk Details
check_required item path key errors = elim (is_missing item key) [
  | none ↦ raised
  | some missing ↦ add_when missing (at_key path key) required_missing errors
]

-- one round of the loop over the fields that `properties` must name
unfoldable pub check_additional : JsonDict → Place → String × Json → Details → Walk Details
check_additional properties path f errors =
    add_when (not (is_some (lookup f.0 properties))) (at_key path (str f.0)) additional_not_allowed
      errors

-- `rule.get("items", {})`
unfoldable pub items_rule : JsonDict → Json
items_rule rule = elim (lookup "items" rule) [ none ↦ obj end | some r ↦ r ]

module _ (go : Json → Json → Place → Details → Walk Details) where
  -- `[(candidate, _candidate_errors(item, candidate, path)) for candidate in candidates]`: the list
  -- of errors is emptied before each walk and put back after it
  unfoldable pub evaluate : Json → Place → List Json → Walk (List (Json × Details))
  evaluate item path [] = done []
  evaluate item path (c ∷ cs) =
      and_then (go item c path [])
        (λ found. and_then (evaluate item path cs) (λ rest. done ((c, found) ∷ rest)))

  -- the branch of `oneOf`
  unfoldable pub judge_one :
      Json → Place → List (Json × Details) → List Json → Details → Walk Details
  judge_one item path evaluated [] errors =
      fail_with_best not_exactly_one_shape path evaluated errors
  judge_one item path evaluated (m ∷ []) errors = go item m path errors
  judge_one item path evaluated (m ∷ m' ∷ ms) errors =
      done (add_detail errors (detail path not_exactly_one_shape))

  -- the branch of `anyOf`
  unfoldable pub judge_any :
      Json → Place → List (Json × Details) → List Json → Details → Walk Details
  judge_any item path evaluated [] errors = fail_with_best no_allowed_shape path evaluated errors
  judge_any item path evaluated (m ∷ ms) errors = go item m path errors

  unfoldable pub visit_one_of : Json → Place → Option (List Json) → Details → Walk Details
  visit_one_of item path none errors = raised
  visit_one_of item path (some candidates) errors =
      and_then (evaluate item path candidates)
        (λ found. judge_one item path found (matching found) errors)

  unfoldable pub visit_any_of : Json → Place → Option (List Json) → Details → Walk Details
  visit_any_of item path none errors = raised
  visit_any_of item path (some candidates) errors =
      and_then (evaluate item path candidates)
        (λ found. judge_any item path found (matching found) errors)

  -- one round of `for key, child in item.items()`
  unfoldable pub visit_field : JsonDict → Place → String × Json → Details → Walk Details
  visit_field properties path f errors = elim (lookup f.0 properties) [
    | none ↦ done errors
    | some rule ↦ go f.1 rule (at_key path (str f.0)) errors
  ]

  unfoldable pub visit_object : JsonDict → JsonDict → Place → Details → Walk Details
  visit_object item rule path errors =
      let properties = dict_of (get "properties" rule) in
      and_then (each (check_required item path) (list_of (get "required" rule)) errors) (λ e1.
        and_then
          (each (check_additional properties path)
            (if is_false (get "additionalProperties" rule) then item else []) e1)
          (λ e2. each (visit_field properties path) item e2))

  -- `for index, child in enumerate(item)`
  unfoldable pub visit_items : Json → Place → ℕ → List Json → Details → Walk Details
  visit_items rule path index [] errors = done errors
  visit_items rule path index (child ∷ rest) errors =
      and_then (go child rule (at_index path index) errors) (visit_items rule path (index + 1) rest)

  unfoldable pub visit_array : List Json → JsonDict → Place → Details → Walk Details
  visit_array items rule path errors =
      and_then
        (add_when (below_int (length items) (get "minItems" rule)) path
          (too_few_items (get "minItems" rule)) errors)
        (λ e1.
          and_then
            (add_when (above_int (length items) (get "maxItems" rule)) path
              (too_many_items (get "maxItems" rule)) e1)
            (visit_items (items_rule rule) path 0 items))

module _ (py : Python) where
  unfoldable pub check_pattern : String → Json → Place → Details → Walk Details
  check_pattern s pattern path errors = elim (pattern_allows py s pattern) [
    | none ↦ raised
    | some found ↦ add_when (not found) path pattern_mismatch errors
  ]

  unfoldable pub visit_string : String → JsonDict → Place → Details → Walk Details
  visit_string s rule path errors =
      and_then
        (add_when (below_int (count s) (get "minLength" rule)) path
          (too_short (get "minLength" rule)) errors)
        (λ e1.
          and_then
            (add_when (above_int (count s) (get "maxLength" rule)) path
              (too_long (get "maxLength" rule)) e1)
            (check_pattern s (get "pattern" rule) path))

  unfoldable pub visit_number : Number → JsonDict → Place → Details → Walk Details
  visit_number x rule path errors =
      and_then
        (add_when (below_number py x (get "minimum" rule)) path (below_minimum (get "minimum" rule))
          errors)
        (add_when (above_number py x (get "maximum" rule)) path
          (above_maximum (get "maximum" rule)))

module _ (py : Python) (go : Json → Json → Place → Details → Walk Details) where
  -- the checks by the kind of value
  unfoldable pub visit_contents : Json → JsonDict → Place → Details → Walk Details
  visit_contents (obj fields) rule path errors = visit_object go (entries fields) rule path errors
  visit_contents (arr items) rule path errors = visit_array go (elements items) rule path errors
  visit_contents (str s) rule path errors = visit_string py s rule path errors
  visit_contents (num x) rule path errors = visit_number py x rule path errors
  visit_contents _ rule path errors = done errors

  -- `type`, `const` and `enum`, each of which ends the visit where it fails
  unfoldable pub visit_plain : Json → JsonDict → Place → Details → Walk Details
  visit_plain item rule path errors = elim (type_allows py item (get "type" rule)) [
    | none ↦ raised
    | some allowed ↦
        (if not allowed
          then done (add_detail errors (detail path (expected_type (get "type" rule))))
          else (if not (const_allows py item (lookup "const" rule))
              then done (add_detail errors (detail path (expected_constant (get "const" rule))))
              else (if not (enum_allows py item (get "enum" rule))
                  then done (add_detail errors (detail path not_in_enum))
                  else visit_contents item rule path errors)))
  ]

  -- `oneOf` goes before `anyOf`, and either goes before all else
  unfoldable pub visit_shapes :
      Json → JsonDict → Place → Option Json → Option Json → Details → Walk Details
  visit_shapes item rule path (some shapes) any_of errors =
      visit_one_of go item path (candidates_of shapes) errors
  visit_shapes item rule path none (some shapes) errors =
      visit_any_of go item path (candidates_of shapes) errors
  visit_shapes item rule path none none errors = visit_plain item rule path errors

  unfoldable pub visit_rule : Json → Json → Place → Details → Walk Details
  visit_rule item (obj fields) path errors =
      let rule = entries fields in
      visit_shapes item rule path (lookup "oneOf" rule) (lookup "anyOf" rule) errors
  visit_rule item _ path errors = done errors

-- `visit`
unfoldable pub visit : Python → ℕ → Json → Json → Place → Details → Walk Details
visit py zero item rule path errors = exhausted
visit py (suc n) item rule path errors = visit_rule py (visit py n) item rule path errors

-- `validate_tool_arguments`, with fuel for every value and every rule below the two
unfoldable pub validate_tool_arguments : Python → Json → Json → Walk Details
validate_tool_arguments py value schema =
    visit py (suc (size value + size schema)) value schema root []
