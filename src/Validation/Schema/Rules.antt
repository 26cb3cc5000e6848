-- ===== src/Validation/Schema/Rules.antt =====
-- execution_engine/agent/tool_schema_rules.py: `visit`, which walks a value and a schema together.
-- The list `errors` that the source mutates is passed from step to step; a step that raises stops
-- the walk. The walk is by fuel, and a walk without fuel is `exhausted`, which no other step gives.
use execution_engine.Common.{
  ℕ, ltb, String, Bool, true, false, not, Option, none, some, List, [], ◌∷◌, ◌++◌, str_eq,
  if◌then◌else◌, length, keep, any, is_some,
}
use execution_engine.Common.Dict.{lookup}
use execution_engine.Validation.Json.{
  pos, int_less, Number, Json, bool, str, arr, obj, JsonDict, elements, entries, is_object,
  is_array, is_string, is_bool, is_integer, is_number, is_null, number_of, int_of, Python, less,
  equal, truthy,
}

-- `MAX_VALIDATION_ERRORS`
abbrev pub max_validation_errors : ℕ
max_validation_errors = 12

-- `$`, `path.key` and `path[index]`
pub data Place : Type 0 where
  root : Place
  at_key : Place → Json → Place
  at_index : Place → ℕ → Place

-- the texts of the errors, with what they print
pub data Message : Type 0 where
  not_exactly_one_shape : Message
  no_allowed_shape : Message
  expected_type : Json → Message
  expected_constant : Json → Message
  not_in_enum : Message
  required_missing : Message
  additional_not_allowed : Message
  too_few_items : Json → Message
  too_many_items : Json → Message
  too_short : Json → Message
  too_long : Json → Message
  pattern_mismatch : Message
  below_minimum : Json → Message
  above_maximum : Json → Message

pub record Detail : Type 0 where
  pub path : Place
  pub message : Message

abbrev pub Details : Type 0
Details = List Detail

-- what a step of the walk comes to
pub data Walk {ℓ} (A : Type ℓ) : Type ℓ where
  exhausted : Walk A
  raised : Walk A
  done : A → Walk A

abbrev pub and_then {ℓ κ} : {A : Type ℓ} {B : Type κ} → Walk A → (A → Walk B) → Walk B
and_then exhausted f = exhausted
and_then raised f = raised
and_then (done a) f = f a

-- `add`
unfoldable pub add_detail : Details → Detail → Details
add_detail errors d = if ltb (length errors) max_validation_errors then errors ++ d ∷ [] else errors

-- `for detail in best: add(detail["path"], detail["message"])`
unfoldable pub add_details : Details → Details → Details
add_details errors [] = errors
add_details errors (d ∷ ds) = add_details (add_detail errors d) ds

abbrev pub detail : Place → Message → Detail
detail p m = record { path = p; message = m }

-- `add(path, message)` under a test
unfoldable pub add_when : Bool → Place → Message → Details → Walk Details
add_when test path message errors =
    done (if test then add_detail errors (detail path message) else errors)

-- a `for` loop over a list
unfoldable pub each {ℓ} :
    {A : Type ℓ} → (A → Details → Walk Details) → List A → Details → Walk Details
each step [] errors = done errors
each step (x ∷ xs) errors = and_then (step x errors) (each step xs)

-- the table of `_type_matches`, in which an unknown kind matches
abbrev pub has_kind : Json → String → Bool
has_kind value kind =
    if str_eq kind "object"
    then is_object value
    else (if str_eq kind "array"
        then is_array value
        else (if str_eq kind "string"
            then is_string value
            else (if str_eq kind "boolean"
                then is_bool value
                else (if str_eq kind "integer"
                    then is_integer value
                    else (if str_eq kind "number"
                        then is_number value
                        else (if str_eq kind "null" then is_null value else true))))))

-- one look into the table: a list or a `dict` is no key, and looking it up raises
unfoldable pub kind_matches : Json → Json → Option Bool
kind_matches value (arr kinds) = none
kind_matches value (obj fields) = none
kind_matches value (str kind) = some (has_kind value kind)
kind_matches value _ = some true

-- `any` over the kinds, which stops at the first that matches
unfoldable pub some_kind_matches : Json → List Json → Option Bool
some_kind_matches value [] = some false
some_kind_matches value (k ∷ ks) =
    let rest = some_kind_matches value ks in
    elim (kind_matches value k) [ none ↦ none | some b ↦ (if b then some true else rest) ]

-- `_type_matches`
unfoldable pub type_matches : Json → Json → Option Bool
type_matches value (arr kinds) = some_kind_matches value (elements kinds)
type_matches value expected = some_kind_matches value (expected ∷ [])

-- `candidate for candidate in rule["oneOf"] if isinstance(candidate, dict)`; only a list, a text
-- and a `dict` can be walked through, and the last two hold no `dict`
unfoldable pub candidates_of : Json → Option (List Json)
candidates_of (arr xs) = some (keep is_object (elements xs))
candidates_of (obj fields) = some []
candidates_of (str s) = some []
candidates_of _ = none

-- `isinstance(rule.get(key), list)`, with the empty list where it is none
unfoldable pub list_of : Json → List Json
list_of (arr xs) = elements xs
list_of _ = []

unfoldable pub dict_of : Json → JsonDict
dict_of (obj fields) = entries fields
dict_of _ = []

-- `key not in item`; a list or a `dict` is no key
unfoldable pub is_missing : JsonDict → Json → Option Bool
is_missing item (str k) = some (not (is_some (lookup k item)))
is_missing item (arr xs) = none
is_missing item (obj fields) = none
is_missing item _ = some true

-- `rule.get("additionalProperties") is False`
unfoldable pub is_false : Json → Bool
is_false (bool b) = not b
is_false _ = false

-- `isinstance(bound, int) and length < bound`
unfoldable pub below_int : ℕ → Json → Bool
below_int n bound = elim (int_of bound) [ none ↦ false | some z ↦ int_less (pos n) z ]

-- `isinstance(bound, int) and length > bound`
unfoldable pub above_int : ℕ → Json → Bool
above_int n bound = elim (int_of bound) [ none ↦ false | some z ↦ int_less z (pos n) ]

-- `for detail in best` after `min(..., key=len)`: the first of the shortest
unfoldable pub shortest : Details → List Details → Details
shortest best [] = best
shortest best (found ∷ rest) =
    if ltb (length found) (length best) then shortest found rest else shortest best rest

module _ (py : Python) where
  -- `isinstance(rule.get("minimum"), (int, float)) and item < rule["minimum"]`
  unfoldable pub below_number : Number → Json → Bool
  below_number x bound = elim (number_of bound) [ none ↦ false | some y ↦ less py x y ]

  unfoldable pub above_number : Number → Json → Bool
  above_number x bound = elim (number_of bound) [ none ↦ false | some y ↦ less py y x ]

  -- `expected_type and not _type_matches(item, expected_type)`, negated
  unfoldable pub type_allows : Json → Json → Option Bool
  type_allows item expected =
      let matches = type_matches item expected in if truthy py expected then matches else some true

  -- `"const" in rule and item != rule["const"]`, negated
  unfoldable pub const_allows : Json → Option Json → Bool
  const_allows item none = true
  const_allows item (some c) = equal py item c

  -- `isinstance(rule.get("enum"), list) and item not in rule["enum"]`, negated
  unfoldable pub enum_allows : Json → Json → Bool
  enum_allows item (arr values) = any (equal py item) (elements values)
  enum_allows item _ = true

  -- `isinstance(rule.get("pattern"), str) and re.search(...) is None`, negated
  unfoldable pub pattern_allows : String → Json → Option Bool
  pattern_allows s (str pattern) = py.search pattern s
  pattern_allows s _ = some true
