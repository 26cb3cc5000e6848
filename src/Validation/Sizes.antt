-- ===== src/Validation/Sizes.antt =====
-- How large a JSON value is, and that what it holds is smaller.
use execution_engine.Common.{
  ℕ, suc, ◌+◌, ◌≤◌, arith, ◌≡◌, Bool, some, List, [], ◌∷◌, String, All, All-weaken, keep,
}
use execution_engine.Common.Dict.{lookup}
use execution_engine.Validation.Json.{
  Json, null, bool, num, str, arr, obj, Items, nil, cons, Fields, end, field, elements, entries,
}

-- how many values stand in it
unfoldable mutual
  pub size : Json → ℕ
  size (arr xs) = suc (size_items xs)
  size (obj fs) = suc (size_fields fs)
  size _ = 1

  pub size_items : Items → ℕ
  size_items nil = 0
  size_items (cons x xs) = size x + size_items xs

  pub size_fields : Fields → ℕ
  size_fields end = 0
  size_fields (field k v fs) = size v + size_fields fs

pub elements_are_smaller : (xs : Items) → All (λ x. size x ≤ size_items xs) (elements xs)
unfolding size
elements_are_smaller nil = tt
elements_are_smaller (cons x xs) =
    (omega arith, All-weaken _ _ (λ y h. omega (arith, h)) (elements xs) (elements_are_smaller xs))

pub entries_are_smaller : (fs : Fields) → All (λ f. size f.1 ≤ size_fields fs) (entries fs)
unfolding size
entries_are_smaller end = tt
entries_are_smaller (field k v fs) =
    (omega arith, All-weaken _ _ (λ f h. omega (arith, h)) (entries fs) (entries_are_smaller fs))

pub All-lookup {ℓ κ} :
    {V : Type ℓ} (P : V → Type κ) (k : String) (d : List (String × V))
    → All (λ (f : String × V). P f.1) d
    → (v : V) → lookup k d ≡ some v
    → P v
unfolding lookup
All-lookup P k [] a v h = absurd (ground (arith, h))
All-lookup P k ((j, w) ∷ d) a v h = grind (arith, All-lookup P k d a.1 v)

-- what `rule.get(key)` finds in a rule is smaller than the rule
pub lookup-is_smaller :
    (k : String) (fs : Fields) (v : Json) → lookup k (entries fs) ≡ some v → size v ≤ size_fields fs
lookup-is_smaller k fs v h =
    All-lookup (λ w. size w ≤ size_fields fs) k (entries fs) (entries_are_smaller fs) v h

pub size-positive : (v : Json) → 1 ≤ size v
unfolding size
size-positive null = omega arith
size-positive (bool b) = omega arith
size-positive (num x) = omega arith
size-positive (str s) = omega arith
size-positive (arr xs) = omega arith
size-positive (obj fs) = omega arith

pub All-keep {ℓ κ} :
    {A : Type ℓ} (P : A → Type κ) (p : A → Bool) (xs : List A) → All P xs → All P (keep p xs)
unfolding keep
All-keep P p [] a = tt
All-keep P p (x ∷ xs) a = grind (arith, All-keep P p xs a.1)
