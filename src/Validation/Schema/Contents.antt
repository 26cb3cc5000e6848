-- ===== src/Validation/Schema/Contents.antt =====
-- The checks by the kind of value reach a verdict on the contents of the value.
use execution_engine.Common.{
  ℕ, suc, ◌+◌, ◌≤◌, ◌<◌, ◌≡◌, refl, arith, Option, none, some, List, [], ◌∷◌, String, All,
  All-weaken, length,
}
use Prim.Native.String.{count}
use execution_engine.Common.Dict.{lookup}
use execution_engine.Validation.Json.{
  Json, null, bool, num, str, arr, obj, Items, Fields, JsonDict, elements, entries, get, Python,
}
use execution_engine.Validation.Sizes.{
  size, size_fields, size_items, elements_are_smaller, entries_are_smaller,
}
use execution_engine.Validation.Schema.Rules.{
  Place, at_key, at_index, Details, Walk, done, each, dict_of, list_of, is_false, below_int,
  above_int, below_number, above_number, too_few_items, too_many_items, too_short, too_long,
  below_minimum, above_maximum,
}
use execution_engine.Validation.Schema.Visit.{
  visit_field, visit_object, items_rule, visit_items, visit_array, visit_string, visit_number,
  visit_contents,
}
use execution_engine.Validation.Schema.Verdict.{
  Verdict, passes, Verdict-and_then, Verdict-each, Verdict-in_order, Verdict-add_when,
}
use execution_engine.Validation.Schema.Typing.{
  FieldConforms, ObjectConforms, ArrayConforms, ContentsConform,
}
use execution_engine.Validation.Schema.Checks.{
  check_pattern-Verdict, each_required-Verdict, each_additional-Verdict, property-is_smaller,
  items_rule-is_small,
}

module _ (go : Json → Json → Place → Details → Walk Details) (Sub : Json → Json → Type 0) (n : ℕ)
    (judged : (v r : Json)
      → size v + size r < n
      → (p : Place) (e : Details) → Verdict (Sub v r) e (go v r p e)) where
  visit_field-Verdict :
      (properties : JsonDict) (path : Place) (f : String × Json)
      → ((r : Json) → lookup f.0 properties ≡ some r → size f.1 + size r < n)
      → (e : Details)
      → Verdict
          (FieldConforms Sub f.1 (lookup f.0 properties))
          e
          (visit_field go properties path f e)
  unfolding visit_field
  visit_field-Verdict properties path f small e = of (lookup f.0 properties) refl
    where
      of :
          (o : Option Json)
          → lookup f.0 properties ≡ o
          → Verdict
              (FieldConforms Sub f.1 o)
              e
              (elim o [ none ↦ done e | some rule ↦ go f.1 rule (at_key path (str f.0)) e ])
      of none h = passes tt
      of (some r) h = judged f.1 r (small r h) (at_key path (str f.0)) e

  visit_fields-Verdict :
      (item rule : Fields) (path : Place)
      → size_fields item + size_fields rule < n
      → (e : Details)
      → Verdict
          (All
            (λ f. FieldConforms Sub f.1 (lookup f.0 (dict_of (get "properties" (entries rule)))))
            (entries item))
          e
          (each (visit_field go (dict_of (get "properties" (entries rule))) path) (entries item) e)
  visit_fields-Verdict item rule path small e =
      Verdict-each _ (visit_field go (dict_of (get "properties" (entries rule))) path)
        (entries item)
        (All-weaken _ _
          (λ f below.
            visit_field-Verdict (dict_of (get "properties" (entries rule))) path f
              (λ r found. omega (arith, below, small, property-is_smaller f.0 rule r found)))
          (entries item) (entries_are_smaller item))
        e

  visit_object-Verdict :
      (item rule : Fields) (path : Place) (e : Details)
      → size_fields item + size_fields rule < n
      → Verdict
          (ObjectConforms Sub (entries item) (entries rule))
          e
          (visit_object go (entries item) (entries rule) path e)
  unfolding visit_object ObjectConforms
  visit_object-Verdict item rule path e small =
      Verdict-in_order
        (each_required-Verdict (entries item) path (list_of (get "required" (entries rule))) e)
        (each_additional-Verdict (dict_of (get "properties" (entries rule))) path
          (is_false (get "additionalProperties" (entries rule))) (entries item))
        (visit_fields-Verdict item rule path small)

  visit_items-Verdict :
      (rule : Json) (path : Place) (i : ℕ) (items : List Json)
      → All (λ child. size child + size rule < n) items
      → (e : Details)
      → Verdict (All (λ child. Sub child rule) items) e (visit_items go rule path i items e)
  unfolding visit_items
  visit_items-Verdict rule path i [] small e = passes tt
  visit_items-Verdict rule path i (child ∷ rest) small e =
      Verdict-and_then (judged child rule small.0 (at_index path i) e)
        (visit_items-Verdict rule path (i + 1) rest small.1)

  visit_array-Verdict :
      (items : Items) (rule : Fields) (path : Place) (e : Details)
      → size_items items + suc (size_fields rule) < n
      → Verdict
          (ArrayConforms Sub (elements items) (entries rule))
          e
          (visit_array go (elements items) (entries rule) path e)
  unfolding visit_array ArrayConforms
  visit_array-Verdict items rule path e small =
      Verdict-in_order
        (Verdict-add_when (below_int (length (elements items)) (get "minItems" (entries rule))) path
          (too_few_items (get "minItems" (entries rule))) e)
        (Verdict-add_when (above_int (length (elements items)) (get "maxItems" (entries rule))) path
          (too_many_items (get "maxItems" (entries rule))))
        (visit_items-Verdict (items_rule (entries rule)) path 0 (elements items) (
          All-weaken _ _ (λ c below. omega (arith, below, small, items_rule-is_small rule))
            (elements items) (elements_are_smaller items)))

  pub visit_contents-Verdict :
      (py : Python) (item : Json) (rule : Fields) (path : Place) (e : Details)
      → size item + suc (size_fields rule) ≤ n
      → Verdict
          (ContentsConform py Sub item (entries rule))
          e
          (visit_contents py go item (entries rule) path e)
  unfolding visit_contents visit_string visit_number ContentsConform size
  visit_contents-Verdict py (obj fields) rule path e small =
      visit_object-Verdict fields rule path e (omega (arith, small))
  visit_contents-Verdict py (arr items) rule path e small =
      visit_array-Verdict items rule path e (omega (arith, small))
  visit_contents-Verdict py (str s) rule path e small =
      Verdict-in_order
        (Verdict-add_when (below_int (count s) (get "minLength" (entries rule))) path
          (too_short (get "minLength" (entries rule))) e)
        (Verdict-add_when (above_int (count s) (get "maxLength" (entries rule))) path
          (too_long (get "maxLength" (entries rule))))
        (check_pattern-Verdict py s (get "pattern" (entries rule)) path)
  visit_contents-Verdict py (num x) rule path e small =
      Verdict-and_then
        (Verdict-add_when (below_number py x (get "minimum" (entries rule))) path
          (below_minimum (get "minimum" (entries rule))) e)
        (Verdict-add_when (above_number py x (get "maximum" (entries rule))) path
          (above_maximum (get "maximum" (entries rule))))
  visit_contents-Verdict py null rule path e small = passes tt
  visit_contents-Verdict py (bool b) rule path e small = passes tt
