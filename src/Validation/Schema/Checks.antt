-- ===== src/Validation/Schema/Checks.antt =====
-- Single checks of the contents of a value, and the sizes of the rules below a rule.
use execution_engine.Common.{
  suc, ◌≤◌, ◌≡◌, refl, ap, arith, Bool, true, false, not, Option, none, some, List, [], ◌∷◌, String,
  All, is_some, if◌then◌else◌,
}
use execution_engine.Common.Dict.{lookup}
use execution_engine.Validation.Json.{
  Json, null, bool, num, str, arr, obj, Fields, JsonDict, entries, get, Python, end,
}
use execution_engine.Validation.Sizes.{size, size_fields, lookup-is_smaller}
use execution_engine.Validation.Schema.Rules.{
  Place, at_key, Details, raised, each, add_when, dict_of, is_missing, required_missing,
  additional_not_allowed, pattern_allows, pattern_mismatch,
}
use execution_engine.Validation.Schema.Visit.{
  check_required, check_additional, items_rule, check_pattern,
}
use execution_engine.Validation.Schema.Verdict.{
  Verdict, halts, passes, Verdict-iff, Verdict-each, Verdict-add_when,
}

pub check_required-Verdict :
    (item : JsonDict) (path : Place) (key : Json) (e : Details)
    → Verdict (is_missing item key ≡ some false) e (check_required item path key e)
unfolding check_required
check_required-Verdict item path key e = of (is_missing item key)
  where
    of :
        (o : Option Bool)
        → Verdict (o ≡ some false) e (elim o [
          | none ↦ raised
          | some missing ↦ add_when missing (at_key path key) required_missing e
        ])
    of none = halts
    of (some missing) =
        Verdict-iff (λ h. ap some h) (λ h. ground (arith, h))
          (Verdict-add_when missing (at_key path key) required_missing e)

pub check_pattern-Verdict :
    (py : Python) (s : String) (pattern : Json) (path : Place) (e : Details)
    → Verdict (pattern_allows py s pattern ≡ some true) e (check_pattern py s pattern path e)
unfolding check_pattern
check_pattern-Verdict py s pattern path e = of (pattern_allows py s pattern)
  where
    of :
        (o : Option Bool)
        → Verdict
            (o ≡ some true)
            e
            (elim o [ none ↦ raised | some found ↦ add_when (not found) path pattern_mismatch e ])
    of none = halts
    of (some found) =
        Verdict-iff (λ h. ground (arith, h)) (λ h. ground (arith, h))
          (Verdict-add_when (not found) path pattern_mismatch e)

pub check_additional-Verdict :
    (properties : JsonDict) (path : Place) (f : String × Json) (e : Details)
    → Verdict (is_some (lookup f.0 properties) ≡ true) e (check_additional properties path f e)
unfolding check_additional
check_additional-Verdict properties path f e =
    Verdict-iff (λ h. ground (arith, h)) (λ h. ground (arith, h))
      (Verdict-add_when (not (is_some (lookup f.0 properties))) (at_key path (str f.0))
        additional_not_allowed e)

pub All-every {ℓ} : {A : Type ℓ} (P : A → Type 0) → ((x : A) → P x) → (xs : List A) → All P xs
All-every P f [] = tt
All-every P f (x ∷ xs) = (f x, All-every P f xs)

pub each_required-Verdict :
    (item : JsonDict) (path : Place) (required : List Json) (e : Details)
    → Verdict
        (All (λ key. is_missing item key ≡ some false) required)
        e
        (each (check_required item path) required e)
each_required-Verdict item path required e =
    Verdict-each _ (check_required item path) required
      (All-every _ (check_required-Verdict item path) required) e

pub each_additional-Verdict :
    (properties : JsonDict) (path : Place) (closed : Bool) (item : JsonDict) (e : Details)
    → Verdict
        (closed ≡ true → All (λ (f : String × Json). is_some (lookup f.0 properties) ≡ true) item)
        e
        (each (check_additional properties path) (if closed then item else []) e)
unfolding each
each_additional-Verdict properties path true item e =
    Verdict-iff (λ a _. a) (λ f. f refl)
      (Verdict-each _ (check_additional properties path) item
        (All-every _ (check_additional-Verdict properties path) item) e)
each_additional-Verdict properties path false item e = passes (λ h. absurd (ground (arith, h)))

pub property-is_smaller :
    (k : String) (rule : Fields) (r : Json)
    → lookup k (dict_of (get "properties" (entries rule))) ≡ some r
    → size r ≤ size_fields rule
unfolding get dict_of lookup size
property-is_smaller k rule r = of (lookup "properties" (entries rule)) refl
  where
    of :
        (o : Option Json)
        → lookup "properties" (entries rule) ≡ o
        → lookup k (dict_of (elim o [ none ↦ null | some v ↦ v ])) ≡ some r
        → size r ≤ size_fields rule
    of (some (obj fs)) e h =
        omega (arith, lookup-is_smaller k fs r h, lookup-is_smaller "properties" rule (obj fs) e)
    of none e h = absurd (ground (arith, h))
    of (some null) e h = absurd (ground (arith, h))
    of (some (bool b)) e h = absurd (ground (arith, h))
    of (some (num x)) e h = absurd (ground (arith, h))
    of (some (str s)) e h = absurd (ground (arith, h))
    of (some (arr xs)) e h = absurd (ground (arith, h))

pub items_rule-is_small :
    (rule : Fields) → size (items_rule (entries rule)) ≤ suc (size_fields rule)
unfolding items_rule size
items_rule-is_small rule = of (lookup "items" (entries rule)) refl
  where
    of :
        (o : Option Json)
        → lookup "items" (entries rule) ≡ o
        → size (elim o [ none ↦ obj end | some r ↦ r ]) ≤ suc (size_fields rule)
    of none e = omega arith
    of (some r) e = omega (arith, lookup-is_smaller "items" rule r e)
