-- ===== src/Tests/Authorities.antt =====
-- The theorems on the tool authority of a run, at two specifications of one name.
use execution_engine.Common.{
  ◌≡◌, String, Bool, true, none, some, List, [], ◌∷◌, refl, any, contains, str_eq, keep,
}
use execution_engine.Common.Dict.{lookup, insert}
use execution_engine.Authority.Routing.{
  ToolRef, ToolSpec, ref_eq, authorized_refs, build_authorized_tool_routing, function,
  platform_function_mappings, mapping_error, count_name,
}
use execution_engine.Authority.Exact.{
  build_authorized_tool_routing-exact, IsExact, platform_function_mappings-IsExact,
}

abbrev refs0 : List ToolSpec
refs0 = record { name = none; server_id = some "k8s"; tool_name = some "list" } ∷ []

abbrev specs0 : List ToolSpec
specs0 =
    record { name = some "t1"; server_id = some "k8s"; tool_name = some "list" }
    ∷ record { name = some "t2"; server_id = some "other"; tool_name = some "list" }
    ∷ []

abbrev list_ref : ToolRef
list_ref = record { server_id = "k8s"; tool_name = "list" }

-- the second specification names another server
routing :
    build_authorized_tool_routing ("t2" ∷ "t1" ∷ []) refs0 specs0
    ≡ (("t1", list_ref) ∷ [], "t1" ∷ [])
unfolding build_authorized_tool_routing lookup insert any keep
routing = refl

build_authorized_tool_routing-exact_example : any (ref_eq list_ref) (authorized_refs refs0) ≡ true
unfolding build_authorized_tool_routing lookup insert any keep
build_authorized_tool_routing-exact_example =
    build_authorized_tool_routing-exact ("t2" ∷ "t1" ∷ []) refs0 specs0 "t1" list_ref refl

abbrev not_blank : String → Bool
not_blank s = str_eq s ""

platform_function_mappings-IsExact_example :
    IsExact (λ s. true) not_blank ("ask" ∷ []) ("ask" ∷ "list" ∷ []) (("ask", "platform.ask") ∷ [])
unfolding platform_function_mappings mapping_error contains count_name keep
platform_function_mappings-IsExact_example =
    platform_function_mappings-IsExact (λ s. true) not_blank ("ask" ∷ []) ("ask" ∷ "list" ∷ [])
      (function (some "platform.ask") (some "ask") ∷ []) (("ask", "platform.ask") ∷ []) refl
