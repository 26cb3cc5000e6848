-- ===== src/Authority/Exact.antt =====
-- What the routing of execution_engine/worker_tool_authority.py authorizes.
use execution_engine.Common.{
  ◌≡◌, refl, sym, ap, ◌∙◌, subst, String, Bool, true, false, Option, none, some, List, [], ◌∷◌,
  ◌++◌, arith, any, contains, nat_eq, IsDistinct, snoc-IsDistinct, All, All-snoc, if◌then◌else◌,
}
use execution_engine.Common.Dict.{lookup, insert, lookup-insert}
use execution_engine.Authority.Routing.{
  ToolRef, ToolSpec, ref_eq, authorized_refs, routed, tool_refs_from, build_authorized_tool_routing,
  PlatformFunction, no_object, function, MappingError, Mapped, rejected, mapped, Mappings, aliases,
  count_name, mapping_error, map_functions, platform_function_mappings,
}

routed_authorized :
    (refs : List ToolRef) (s : ToolSpec) (n : String) (r : ToolRef)
    → routed refs s ≡ some (n, r)
    → any (ref_eq r) refs ≡ true
unfolding routed
routed_authorized refs s n r h = ground (arith, h)

abbrev AllAuthorized : List ToolRef → List (String × ToolRef) → Type 0
AllAuthorized refs d = (n : String) (r : ToolRef) → lookup n d ≡ some r → any (ref_eq r) refs ≡ true

tool_refs_from-AllAuthorized :
    (refs : List ToolRef) (specs : List ToolSpec) (d : List (String × ToolRef))
    → AllAuthorized refs d
    → AllAuthorized refs (tool_refs_from refs specs d)
unfolding tool_refs_from
tool_refs_from-AllAuthorized refs [] d a = a
tool_refs_from-AllAuthorized refs (s ∷ specs) d a =
    tool_refs_from-AllAuthorized refs specs _ (step (routed refs s) refl)
  where
    step :
        (o : Option (String × ToolRef))
        → routed refs s ≡ o
        → AllAuthorized refs (elim o [ none ↦ d | some (name, r) ↦ insert name r d ])
    step none e n q h = a n q h
    step (some (name, r)) e n q h =
        ground (arith, lookup-insert name n r d, h, a n q, routed_authorized refs s name r e)

-- A tool that the routing offers under a name has the exact server and tool pair of one of the
-- authorized references, whatever the specifications say.
pub build_authorized_tool_routing-exact :
    (allowed_tools : List String) (allowed_tool_refs tool_specs : List ToolSpec) (n : String)
    (r : ToolRef)
    → lookup n (build_authorized_tool_routing allowed_tools allowed_tool_refs tool_specs).0 ≡ some r
    → any (ref_eq r) (authorized_refs allowed_tool_refs) ≡ true
unfolding build_authorized_tool_routing lookup
build_authorized_tool_routing-exact allowed_tools allowed_tool_refs tool_specs =
    tool_refs_from-AllAuthorized (authorized_refs allowed_tool_refs) tool_specs []
      (λ n r h. absurd (ground (arith, h)))

-- the canonical ids of the mappings
pub canonical_ids : Mappings → List String
canonical_ids [] = []
canonical_ids ((model_alias, id) ∷ m) = id ∷ canonical_ids m

aliases-snoc : (m : Mappings) (a id : String) → aliases (m ++ (a, id) ∷ []) ≡ aliases m ++ a ∷ []
unfolding aliases
aliases-snoc [] a id = refl
aliases-snoc ((b, j) ∷ m) a id = ap (λ l. b ∷ l) (aliases-snoc m a id)

canonical_ids-snoc :
    (m : Mappings) (a id : String) → canonical_ids (m ++ (a, id) ∷ []) ≡ canonical_ids m ++ id ∷ []
unfolding canonical_ids
canonical_ids-snoc [] a id = refl
canonical_ids-snoc ((b, j) ∷ m) a id = ap (λ l. j ∷ l) (canonical_ids-snoc m a id)

module _ (is_name blank : String → Bool) (allowed declared : List String) where
  -- the alias of a mapping is allowed, declared exactly once and a function name
  abbrev pub IsAuthorized : String × String → Type 0
  IsAuthorized e =
      (contains allowed e.0 ≡ true)
      × (nat_eq (count_name e.0 declared) 1 ≡ true)
      × (is_name e.0 ≡ true)

  pub record IsExact (m : Mappings) : Type 0 where
    pub aliases_distinct : IsDistinct (aliases m)
    pub ids_distinct : IsDistinct (canonical_ids m)
    pub authorized : All IsAuthorized m

  abbrev Good : Mapped Mappings → Type 0
  Good (rejected e) = Unit
  Good (mapped m) = IsExact m

  extended :
      (ids : List String) (m : Mappings) (id a : String)
      → ids ≡ canonical_ids m
      → IsExact m
      → mapping_error is_name blank allowed declared ids m id a ≡ none
      → IsExact (m ++ (a, id) ∷ [])
  unfolding mapping_error
  extended ids m id a e x h = record {
    aliases_distinct =
        rw (aliases-snoc m a id)
          (snoc-IsDistinct (aliases m) a (ground (arith, h)) x.aliases_distinct);
    ids_distinct = rw (canonical_ids-snoc m a id) (
        snoc-IsDistinct (canonical_ids m) id
          (subst (λ l. contains l id ≡ false) e (ground (arith, h))) x.ids_distinct);
    authorized =
        All-snoc IsAuthorized m (a, id) x.authorized
          (ground (arith, h), ground (arith, h), ground (arith, h));
  }

  map_functions-Good :
      (ids : List String) (m : Mappings) (fs : List PlatformFunction)
      → ids ≡ canonical_ids m
      → IsExact m
      → Good (map_functions is_name blank allowed declared ids m fs)
  unfolding map_functions
  map_functions-Good ids m [] e x = x
  map_functions-Good ids m (no_object ∷ fs) e x = tt
  map_functions-Good ids m (function none a ∷ fs) e x = tt
  map_functions-Good ids m (function (some id) none ∷ fs) e x = either (blank id)
    where
      either :
          (b : Bool)
          → Good (
              if b
              then rejected MappingError.no_canonical_id
              else rejected MappingError.invalid_alias)
      either true = tt
      either false = tt
  map_functions-Good ids m (function (some id) (some a) ∷ fs) e x =
      tested (mapping_error is_name blank allowed declared ids m id a) refl (
        map_functions-Good (ids ++ id ∷ []) (m ++ (a, id) ∷ []) fs
          (ap (λ l. l ++ id ∷ []) e ∙ sym (canonical_ids-snoc m a id)))
    where
      tested :
          (o : Option MappingError)
          → mapping_error is_name blank allowed declared ids m id a ≡ o
          → (IsExact (m ++ (a, id) ∷ [])
              → Good (
                  map_functions is_name blank allowed declared
                    (ids ++ id ∷ [])
                    (m ++ (a, id) ∷ [])
                    fs))
          → Good (elim o [
            | some err ↦ rejected err
            | none ↦
                map_functions is_name blank allowed declared (ids ++ id ∷ []) (m ++ (a, id) ∷ []) fs
          ])
      tested none h go = go (extended ids m id a e x h)
      tested (some err) h go = tt

  -- Mappings that are accepted have distinct aliases and distinct canonical ids, and each alias is an
  -- allowed tool, declared by exactly one specification, and a function name.
  pub platform_function_mappings-IsExact :
      (fs : List PlatformFunction) (m : Mappings)
      → platform_function_mappings is_name blank allowed declared fs ≡ mapped m
      → IsExact m
  unfolding platform_function_mappings aliases canonical_ids
  platform_function_mappings-IsExact fs m h = subst Good h (
      map_functions-Good [] [] fs refl
        (record { aliases_distinct = tt; ids_distinct = tt; authorized = tt }))
