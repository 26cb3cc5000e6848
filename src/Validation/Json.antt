-- ===== src/Validation/Json.antt =====
-- JSON values as Python holds them: `None`, `bool`, `int`, `float`, `str`, `list` and `dict`.
use execution_engine.Common.{
  ℕ, ltb, nat_eq, length, String, Bool, true, false, not, ◌&&◌, Option, none, some, List, [], ◌∷◌,
  str_eq, if◌then◌else◌,
}
use execution_engine.Common.Dict.{lookup}

-- the integers over the native numbers; `negsuc n` is `-(n + 1)`
pub data ℤ : Type 0 where
  pos : ℕ → ℤ
  negsuc : ℕ → ℤ

abbrev pub int_less : ℤ → ℤ → Bool
int_less (pos a) (pos b) = ltb a b
int_less (pos a) (negsuc b) = false
int_less (negsuc a) (pos b) = true
int_less (negsuc a) (negsuc b) = ltb b a

abbrev pub int_eq : ℤ → ℤ → Bool
int_eq (pos a) (pos b) = nat_eq a b
int_eq (negsuc a) (negsuc b) = nat_eq a b
int_eq _ _ = false

-- `int` and `float`; a float is the text that denotes it
pub data Number : Type 0 where
  whole : ℤ → Number
  float : String → Number

mutual
  pub data Json : Type 0 where
    null : Json
    bool : Bool → Json
    num : Number → Json
    str : String → Json
    arr : Items → Json
    obj : Fields → Json

  pub data Items : Type 0 where
    nil : Items
    cons : Json → Items → Items

  pub data Fields : Type 0 where
    end : Fields
    field : String → Json → Fields → Fields

abbrev pub JsonDict : Type 0
JsonDict = List (String × Json)

abbrev pub elements : Items → List Json
elements nil = []
elements (cons x xs) = x ∷ elements xs

-- the entries in insertion order
abbrev pub entries : Fields → JsonDict
entries end = []
entries (field k v fs) = (k, v) ∷ entries fs

-- `isinstance(value, dict)`
abbrev pub is_object : Json → Bool
is_object (obj fs) = true
is_object _ = false

-- `isinstance(value, list)`, `str`, `bool`, an `int` that is no `bool`, a number that is none, `None`
abbrev pub is_array : Json → Bool
is_array (arr xs) = true
is_array _ = false

abbrev pub is_string : Json → Bool
is_string (str s) = true
is_string _ = false

abbrev pub is_bool : Json → Bool
is_bool (bool b) = true
is_bool _ = false

abbrev pub is_integer : Json → Bool
is_integer (num (whole z)) = true
is_integer _ = false

abbrev pub is_number : Json → Bool
is_number (num x) = true
is_number _ = false

abbrev pub is_null : Json → Bool
is_null null = true
is_null _ = false

-- `d.get(key)`, which is `None` where the key is missing
unfoldable pub get : String → JsonDict → Json
get k d = elim (lookup k d) [ none ↦ null | some v ↦ v ]

-- `value.get(key)` of a `dict`, and `None` where `value` is none
unfoldable pub get_in : String → Json → Json
get_in k (obj fs) = get k (entries fs)
get_in k _ = null

-- `isinstance(value, (int, float))`: a `bool` is an `int`
abbrev pub number_of : Json → Option Number
number_of (bool b) = some (whole (pos (if b then 1 else 0)))
number_of (num x) = some x
number_of _ = none

-- `isinstance(value, int)`
abbrev pub int_of : Json → Option ℤ
int_of (bool b) = some (pos (if b then 1 else 0))
int_of (num (whole z)) = some z
int_of _ = none

-- What Python does with floats and with patterns: `<` and `==` where a side is a float, and
-- `re.search`, which has no result where the pattern is malformed.
pub record Python : Type 0 where
  pub float_less : Number → Number → Bool
  pub float_eq : Number → Number → Bool
  pub search : String → String → Option Bool

module _ (py : Python) where
  abbrev pub less : Number → Number → Bool
  less (whole a) (whole b) = int_less a b
  less x y = py.float_less x y

  abbrev pub same_number : Number → Number → Bool
  same_number (whole a) (whole b) = int_eq a b
  same_number x y = py.float_eq x y

  abbrev pub same_numbers : Option Number → Option Number → Bool
  same_numbers (some x) (some y) = same_number x y
  same_numbers _ _ = false

  -- `a == b`, where `True` is `1` and the order of a `dict` does not count
  unfoldable mutual
    pub equal : Json → Json → Bool
    equal null null = true
    equal (str a) (str b) = str_eq a b
    equal (arr xs) (arr ys) = equal_items xs (elements ys)
    equal (obj fs) (obj gs) =
        nat_eq (length (entries fs)) (length (entries gs)) && equal_fields fs (entries gs)
    equal a b = same_numbers (number_of a) (number_of b)

    pub equal_items : Items → List Json → Bool
    equal_items nil [] = true
    equal_items (cons x xs) (y ∷ ys) = equal x y && equal_items xs ys
    equal_items _ _ = false

    pub equal_fields : Fields → JsonDict → Bool
    equal_fields end d = true
    equal_fields (field k v fs) d = elim (lookup k d) [
      | none ↦ false
      | some w ↦ equal v w && equal_fields fs d
    ]

  -- `bool(value)`
  unfoldable pub truthy : Json → Bool
  truthy null = false
  truthy (bool b) = b
  truthy (num x) = not (same_number x (whole (pos 0)))
  truthy (str s) = not (str_eq s "")
  truthy (arr nil) = false
  truthy (arr (cons _ _)) = true
  truthy (obj end) = false
  truthy (obj (field _ _ _)) = true
