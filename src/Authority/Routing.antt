-- ===== src/Authority/Routing.antt =====
-- The routing helpers of execution_engine/worker_tool_authority.py. The entries come as JSON values:
-- in a tool specification or reference a field is the text that `str` gives of a value that is there,
-- and an entry that is no object reads as one with no fields, since the code passes over both; in a
-- platform function a field is `some` if it is a text.
use execution_engine.Common.{
  ℕ, String, str_eq, Bool, not, ◌&&◌, ◌||◌, Option, none, some, List, [], ◌∷◌, ◌++◌, keep, any,
  contains, is_some, length, nat_eq, if◌then◌else◌,
}
use execution_engine.Common.Dict.{lookup, insert}

pub record ToolRef : Type 0 where
  pub server_id : String
  pub tool_name : String

-- what is read of a tool specification; a reference in `allowed_tool_refs` has no name
pub record ToolSpec : Type 0 where
  pub name : Option String
  pub server_id : Option String
  pub tool_name : Option String

-- `ref.get("server_id") and ref.get("tool_name")`: the empty text is falsy
unfoldable pub truthy : Option String → Option String
truthy none = none
truthy (some s) = if str_eq s "" then none else some s

unfoldable pub both : Option String → Option String → Option ToolRef
both (some server) (some tool) = some (record { server_id = server; tool_name = tool })
both _ _ = none

unfoldable pub ref_of : ToolSpec → Option ToolRef
unfolding truthy both
ref_of spec = both (truthy spec.server_id) (truthy spec.tool_name)

unfoldable pub ref_eq : ToolRef → ToolRef → Bool
ref_eq a b = str_eq a.server_id b.server_id && str_eq a.tool_name b.tool_name

-- the set of exact references that the snapshot authorizes
unfoldable pub authorized_refs : List ToolSpec → List ToolRef
unfolding ref_of
authorized_refs [] = []
authorized_refs (s ∷ specs) =
    let rest = authorized_refs specs in elim (ref_of s) [ none ↦ rest | some r ↦ r ∷ rest ]

-- one entry of the comprehension: the name with its reference, if that is authorized
unfoldable pub routed : List ToolRef → ToolSpec → Option (String × ToolRef)
unfolding ref_of ref_eq truthy
routed refs spec = elim (truthy spec.name) [
  | none ↦ none
  | some name ↦ elim (ref_of spec) [
    | none ↦ none
    | some r ↦ if any (ref_eq r) refs then some (name, r) else none
  ]
]

-- a later specification of the same name wins
unfoldable pub tool_refs_from :
    List ToolRef → List ToolSpec → List (String × ToolRef) → List (String × ToolRef)
unfolding routed
tool_refs_from refs [] d = d
tool_refs_from refs (s ∷ specs) d =
    tool_refs_from refs specs (elim (routed refs s) [ none ↦ d | some (name, r) ↦ insert name r d ])

unfoldable pub build_authorized_tool_routing :
    List String → List ToolSpec → List ToolSpec → List (String × ToolRef) × List String
unfolding tool_refs_from authorized_refs
build_authorized_tool_routing allowed_tools allowed_tool_refs tool_specs =
    let tool_refs = tool_refs_from (authorized_refs allowed_tool_refs) tool_specs [] in
    (tool_refs, keep (λ name. is_some (lookup name tool_refs)) allowed_tools)

-- `platform_functions`
pub data PlatformFunction : Type 0 where
  no_object : PlatformFunction
  function : Option String → Option String → PlatformFunction

-- the errors of `platform_function_mappings`, in the order of its text
pub data MappingError : Type 0 where
  not_object no_canonical_id invalid_alias duplicate_mapping missing_authority duplicate_specs :
      MappingError

pub data Mapped (A : Type 0) : Type 0 where
  rejected : MappingError → Mapped A
  mapped : A → Mapped A

-- the aliases of the mappings, and the canonical ids seen
abbrev pub Mappings : Type 0
Mappings = List (String × String)

unfoldable pub aliases : Mappings → List String
aliases [] = []
aliases ((model_alias, id) ∷ m) = model_alias ∷ aliases m

unfoldable pub count_name : String → List String → ℕ
count_name name names = length (keep (λ n. str_eq n name) names)

-- `is_name` is the pattern of a model function name, `blank id` is `not id.strip()`
module _ (is_name blank : String → Bool) (allowed declared : List String) where
  -- the tests on one function
  unfoldable pub mapping_error : List String → Mappings → String → String → Option MappingError
  unfolding aliases count_name
  mapping_error canonical_ids m id model_alias =
      if blank id
      then some no_canonical_id
      else if not (is_name model_alias)
      then some invalid_alias
      else if contains canonical_ids id || contains (aliases m) model_alias
      then some duplicate_mapping
      else if not (contains allowed model_alias) || not (contains declared model_alias)
      then some missing_authority
      else if not (nat_eq (count_name model_alias declared) 1)
      then some duplicate_specs
      else none

  unfoldable pub map_functions : List String → Mappings → List PlatformFunction → Mapped Mappings
  unfolding mapping_error
  map_functions ids m [] = mapped m
  map_functions ids m (no_object ∷ fs) = rejected not_object
  map_functions ids m (function none model_alias ∷ fs) = rejected no_canonical_id
  map_functions ids m (function (some id) none ∷ fs) =
      if blank id then rejected no_canonical_id else rejected invalid_alias
  map_functions ids m (function (some id) (some model_alias) ∷ fs) =
      elim (mapping_error ids m id model_alias) [
        | some e ↦ rejected e
        | none ↦ map_functions (ids ++ id ∷ []) (m ++ (model_alias, id) ∷ []) fs
      ]

  unfoldable pub platform_function_mappings : List PlatformFunction → Mapped Mappings
  unfolding map_functions
  platform_function_mappings fs = map_functions [] [] fs
