-- ===== src/Common/Sets.antt =====
-- A Python `set[str]`, as a list that `add` keeps free of repetitions.
use Prim.Native.Nat.{◌+◌, ◌≤◌, ◌<◌}
use Prim.Native.String.{String}
use mathlib.Core.Path.{◌≡◌, refl}
use mathlib.Core.Bool.{Bool, true, false, ◌||◌}
use mathlib.Core.List.{List, [], ◌∷◌, ◌++◌}
use native.Mathlib.Omega.{arith}
use text.Mathlib.Text.{◌==◌}
use text.Mathlib.TextEquality.{eq_iff}
use execution_engine.Common.Tests.{if◌then◌else◌}
use execution_engine.Common.Lists.{length}

-- `x in xs`
unfoldable pub contains : List String → String → Bool
contains [] a = false
contains (x ∷ xs) a = x == a || contains xs a

-- `xs.add(a)`
unfoldable pub add : String → List String → List String
add a xs = if contains xs a then xs else xs ++ a ∷ []

-- `xs.discard(a)`
unfoldable pub discard : String → List String → List String
discard a [] = []
discard a (x ∷ xs) = let rest = discard a xs in if x == a then rest else x ∷ rest

pub contains-append :
    (xs ys : List String) (b : String) → contains (xs ++ ys) b ≡ (contains xs b || contains ys b)
unfolding contains
contains-append [] ys b = refl
contains-append (x ∷ xs) ys b = ground (arith, contains-append xs ys b)

pub contains-snoc :
    (xs : List String) (a b : String)
    → contains (xs ++ a ∷ []) b ≡ (if a == b then true else contains xs b)
unfolding contains
contains-snoc xs a b = ground (arith, contains-append xs (a ∷ []) b)

pub contains-add :
    (a : String) (xs : List String) (b : String)
    → contains (add a xs) b ≡ (if a == b then true else contains xs b)
unfolding add
contains-add a xs b = ground (arith, contains-snoc xs a b, eq_iff a b)

pub contains-discard :
    (a : String) (xs : List String) (b : String)
    → contains (discard a xs) b ≡ (if a == b then false else contains xs b)
unfolding contains discard
contains-discard a [] b = ground arith
contains-discard a (x ∷ xs) b =
    ground (arith, contains-discard a xs b, eq_iff x a, eq_iff x b, eq_iff a b)

-- no element stands twice
abbrev pub IsDistinct : List String → Type 0
IsDistinct [] = Unit
IsDistinct (x ∷ xs) = (contains xs x ≡ false) × IsDistinct xs

pub snoc-IsDistinct :
    (xs : List String) (a : String)
    → contains xs a ≡ false
    → IsDistinct xs
    → IsDistinct (xs ++ a ∷ [])
unfolding contains
snoc-IsDistinct [] a h d = (refl, tt)
snoc-IsDistinct (x ∷ xs) a h d = (
  ground (arith, contains-snoc xs a x, eq_iff x a, eq_iff a x),
  snoc-IsDistinct xs a (ground arith) d.1,
)

pub add-IsDistinct : (a : String) (xs : List String) → IsDistinct xs → IsDistinct (add a xs)
unfolding add
add-IsDistinct a xs d = ground (arith, snoc-IsDistinct xs a)

pub discard-IsDistinct : (a : String) (xs : List String) → IsDistinct xs → IsDistinct (discard a xs)
unfolding discard
discard-IsDistinct a [] d = tt
discard-IsDistinct a (x ∷ xs) d =
    ground (arith, discard-IsDistinct a xs d.1, contains-discard a xs x, eq_iff a x)

pub length-discard_absent :
    (a : String) (xs : List String) → contains xs a ≡ false → length (discard a xs) ≡ length xs
unfolding contains discard
length-discard_absent a [] h = refl
length-discard_absent a (x ∷ xs) h = ground (arith, length-discard_absent a xs)

pub length-discard_le : (a : String) (xs : List String) → length (discard a xs) ≤ length xs
unfolding discard
length-discard_le a [] = omega arith
length-discard_le a (x ∷ xs) = ground (arith, length-discard_le a xs)

pub length-discard_present :
    (a : String) (xs : List String) → contains xs a ≡ true → length (discard a xs) < length xs
unfolding contains discard
length-discard_present a [] h = ground arith
length-discard_present a (x ∷ xs) h =
    ground (arith, length-discard_present a xs, length-discard_le a xs)

pub length-add_absent :
    (a : String) (xs : List String) → contains xs a ≡ false → length (add a xs) ≡ length xs + 1
unfolding add
length-add_absent a xs h = ground (arith, length-snoc xs)
  where
    length-snoc : (ys : List String) → length (ys ++ a ∷ []) ≡ length ys + 1
    length-snoc [] = omega arith
    length-snoc (y ∷ ys) = omega (arith, length-snoc ys)
