-- ===== src/Validation/Schema/Soundness.antt =====
-- Which schemas are sound: no part of them makes the validation raise.
use execution_engine.Common.{ℕ, zero, suc, ◌≡◌, ◌≢◌, String, Option, none, some, List, All}
use execution_engine.Common.Dict.{lookup}
use execution_engine.Validation.Json.{Json, obj, JsonDict, entries, get, Python}
use execution_engine.Validation.Schema.Rules.{
  candidates_of, list_of, dict_of, is_missing, type_allows, pattern_allows,
}
use execution_engine.Validation.Schema.Visit.{items_rule}

abbrev pub SoundShapes : (Json → Type 0) → Option (List Json) → Type 0
SoundShapes Sub none = ⊥
SoundShapes Sub (some candidates) = All Sub candidates

-- `oneOf` and `anyOf` can be walked through, `type` and the required names can be looked up, the
-- pattern compiles, and the rules below are sound
pub record SoundRule (py : Python) (Sub : Json → Type 0) (rule : JsonDict) : Type 0 where
  pub one_of :
      (shapes : Json) → lookup "oneOf" rule ≡ some shapes → SoundShapes Sub (candidates_of shapes)
  pub any_of :
      (shapes : Json) → lookup "anyOf" rule ≡ some shapes → SoundShapes Sub (candidates_of shapes)
  pub kinds : (value : Json) → type_allows py value (get "type" rule) ≢ none
  pub required :
      (item : JsonDict) → All (λ key. is_missing item key ≢ none) (list_of (get "required" rule))
  pub pattern : (s : String) → pattern_allows py s (get "pattern" rule) ≢ none
  pub properties :
      (k : String) (r : Json) → lookup k (dict_of (get "properties" rule)) ≡ some r → Sub r
  pub items : Sub (items_rule rule)

abbrev pub SoundIn : Python → (Json → Type 0) → Json → Type 0
SoundIn py Sub (obj fields) = SoundRule py Sub (entries fields)
SoundIn py Sub _ = Unit

-- sound as far down as `n` steps
unfoldable pub IsSound : Python → ℕ → Json → Type 0
IsSound py zero rule = Unit
IsSound py (suc n) rule = SoundIn py (IsSound py n) rule
