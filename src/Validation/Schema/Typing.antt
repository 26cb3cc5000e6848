-- ===== src/Validation/Schema/Typing.antt =====
-- When a value conforms to a schema: the reading of a schema without lists of errors, early returns
-- or repeated visits.
use Prim.Native.String.{count}
use execution_engine.Common.{
  ℕ, zero, suc, ◌+◌, String, ◌≡◌, true, false, Option, none, some, List, [], ◌∷◌, ◌⊎◌, length, All,
  is_some,
}
use execution_engine.Common.Dict.{lookup}
use execution_engine.Validation.Json.{
  Json, num, str, arr, obj, JsonDict, elements, entries, get, Python,
}
use execution_engine.Validation.Sizes.{size}
use execution_engine.Validation.Schema.Rules.{
  candidates_of, list_of, dict_of, is_missing, is_false, below_int, above_int, below_number,
  above_number, type_allows, const_allows, enum_allows, pattern_allows,
}
use execution_engine.Validation.Schema.Visit.{items_rule}

module _ {ℓ} {A : Type ℓ} (P : A → Type 0) where
  -- one element and no other satisfies `P`
  abbrev pub ExactlyOne : List A → Type 0
  ExactlyOne [] = ⊥
  ExactlyOne (x ∷ xs) = (P x × All (λ y. ¬ P y) xs) ⊎ (¬ P x × ExactlyOne xs)

  abbrev pub SomeOne : List A → Type 0
  SomeOne [] = ⊥
  SomeOne (x ∷ xs) = P x ⊎ SomeOne xs

module _ (Sub : Json → Json → Type 0) where
  -- the rule of a named field, where there is one, admits the value of the field
  abbrev pub FieldConforms : Json → Option Json → Type 0
  FieldConforms v none = Unit
  FieldConforms v (some rule) = Sub v rule

  unfoldable pub ObjectConforms : JsonDict → JsonDict → Type 0
  ObjectConforms item rule =
      All (λ key. is_missing item key ≡ some false) (list_of (get "required" rule))
      × (is_false (get "additionalProperties" rule) ≡ true
          → All
              (λ (f : String × Json). is_some (lookup f.0 (dict_of (get "properties" rule))) ≡ true)
              item)
      × All
          (λ (f : String × Json). FieldConforms f.1 (lookup f.0 (dict_of (get "properties" rule))))
          item

  unfoldable pub ArrayConforms : List Json → JsonDict → Type 0
  ArrayConforms items rule =
      (below_int (length items) (get "minItems" rule) ≡ false)
      × (above_int (length items) (get "maxItems" rule) ≡ false)
      × All (λ child. Sub child (items_rule rule)) items

  abbrev pub OneConforms : Json → Option (List Json) → Type 0
  OneConforms item none = ⊥
  OneConforms item (some candidates) = ExactlyOne (Sub item) candidates

  abbrev pub AnyConforms : Json → Option (List Json) → Type 0
  AnyConforms item none = ⊥
  AnyConforms item (some candidates) = SomeOne (Sub item) candidates

module _ (py : Python) (Sub : Json → Json → Type 0) where
  unfoldable pub ContentsConform : Json → JsonDict → Type 0
  ContentsConform (obj fields) rule = ObjectConforms Sub (entries fields) rule
  ContentsConform (arr items) rule = ArrayConforms Sub (elements items) rule
  ContentsConform (str s) rule =
      (below_int (count s) (get "minLength" rule) ≡ false)
      × (above_int (count s) (get "maxLength" rule) ≡ false)
      × (pattern_allows py s (get "pattern" rule) ≡ some true)
  ContentsConform (num x) rule =
      (below_number py x (get "minimum" rule) ≡ false)
      × (above_number py x (get "maximum" rule) ≡ false)
  ContentsConform _ rule = Unit

  unfoldable pub PlainConforms : Json → JsonDict → Type 0
  PlainConforms item rule =
      (type_allows py item (get "type" rule) ≡ some true)
      × (const_allows py item (lookup "const" rule) ≡ true)
      × (enum_allows py item (get "enum" rule) ≡ true)
      × ContentsConform item rule

  abbrev pub ShapesConform : Json → JsonDict → Option Json → Option Json → Type 0
  ShapesConform item rule (some shapes) any_of = OneConforms Sub item (candidates_of shapes)
  ShapesConform item rule none (some shapes) = AnyConforms Sub item (candidates_of shapes)
  ShapesConform item rule none none = PlainConforms item rule

  unfoldable pub RuleConforms : Json → Json → Type 0
  RuleConforms item (obj fields) =
      let rule = entries fields in
      ShapesConform item rule (lookup "oneOf" rule) (lookup "anyOf" rule)
  RuleConforms item _ = Unit

-- conformance as far down as `n` steps into the value and the schema
unfoldable pub Conforms : Python → ℕ → Json → Json → Type 0
Conforms py zero item rule = ⊥
Conforms py (suc n) item rule = RuleConforms py (Conforms py n) item rule

-- conformance all the way down: no step goes further than the sizes of the two
abbrev pub ConformsTo : Python → Json → Json → Type 0
ConformsTo py value schema = Conforms py (suc (size value + size schema)) value schema
