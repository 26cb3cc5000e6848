-- ===== src/Validation/Remediation/Preconditions.antt =====
-- execution_engine/agent/tool_validation.py: the preconditions of a patch against the evidence. A
-- result `none` is a `TypeError`: a list or a `dict` that is looked up in a set or a `dict`, or a walk
-- through a value that has no items.
use execution_engine.Common.{
  ℕ, ◌+◌, String, Bool, true, false, not, ◌&&◌, Option, none, some, List, [], ◌∷◌, ◌++◌, any, all,
  keep, if◌then◌else◌,
}
use execution_engine.Validation.Json.{
  Json, bool, str, arr, obj, JsonDict, elements, is_object, is_string, get, get_in, Python, equal,
}
use execution_engine.Validation.Schema.Rules.{list_of}
use execution_engine.Validation.Remediation.Targets.{is_true, is_text}

-- the errors, with the index of the change that they name
pub data Problem : Type 0 where
  target_unresolved : Problem
  target_unavailable : Problem
  not_confirmed : Problem
  unknown_container : ℕ → Problem
  stale_image : ℕ → Problem
  ambiguous_name : ℕ → Problem
  stale_source : ℕ → Problem
  stale_presence : ℕ → Problem
  missing_key : ℕ → Problem

abbrev pub Problems : Type 0
Problems = List Problem

-- `hash(value)` is defined
abbrev pub is_hashable : Json → Bool
is_hashable (arr xs) = false
is_hashable (obj fs) = false
is_hashable _ = true

-- `[item for item in values if isinstance(item, dict)]`
abbrev pub objects_of : Json → List Json
objects_of value = keep is_object (list_of value)

-- `f(index, change)` for the changes that are a `dict`, their errors in sequence
unfoldable pub each_change : (ℕ → Json → Option Problems) → ℕ → List Json → Option Problems
each_change check index [] = some []
each_change check index (change ∷ rest) =
    let later = each_change check (index + 1) rest in
    if is_object change
    then elim (check index change) [
      | none ↦ none
      | some found ↦ elim later [ none ↦ none | some more ↦ some (found ++ more) ]
    ]
    else later

abbrev pub ContainerKey : Type 0
ContainerKey = String × Json

-- the entries of `current_containers` for one list; the last of one key wins
unfoldable pub containers_as : String → List Json → List (ContainerKey × Json)
containers_as kind [] = []
containers_as kind (item ∷ rest) = ((kind, get_in "name" item), item) ∷ containers_as kind rest

-- the names are keys of a `dict`
unfoldable pub all_named : List (ContainerKey × Json) → Bool
all_named containers = all (λ (c : ContainerKey × Json). is_hashable c.0.1) containers

unfoldable pub current_containers : Json → List (ContainerKey × Json)
current_containers target =
    containers_as "container" (objects_of (get_in "containers" target))
    ++ containers_as "init_container" (objects_of (get_in "initContainers" target))

abbrev pub when_not : Bool → Problem → Problems
when_not holds problem = if holds then [] else problem ∷ []

abbrev pub env_kinds : List String
env_kinds = "set_env" ∷ "set_env_from_configmap" ∷ "remove_env" ∷ []

-- `for item in keys if isinstance(item, dict)`: only a list, a text and a `dict` can be walked through
unfoldable pub walked : Json → Option (List Json)
walked (arr xs) = some (keep is_object (elements xs))
walked (obj fs) = some []
walked (str s) = some []
walked _ = none

-- `keys`
unfoldable pub config_map_keys : Json → Option (List Json)
config_map_keys (obj fs) = walked (get_in "configMapKeys" (obj fs))
config_map_keys _ = some []

module _ (py : Python) where
  -- `key in current_containers` and `current_containers[key]`, in which `change.get("container_type")`
  -- may be any value
  unfoldable pub container_at : Json → Json → List (ContainerKey × Json) → Option Json
  container_at kind name [] = none
  container_at kind name (((k, n), item) ∷ rest) =
      let later = container_at kind name rest in
      elim later [
        | some found ↦ some found
        | none ↦ (if is_text py kind k && equal py name n then some item else none)
      ]

  -- `value in {...}` over texts
  unfoldable pub is_one_of : Json → List String → Bool
  is_one_of value texts = any (is_text py value) texts

  -- `any(... change.get("type") == kind ...) and arguments.get("confirm_non_secret_data") is not True`
  unfoldable pub check_confirmed : String → JsonDict → Problems
  check_confirmed kind arguments =
      if any (λ c. is_text py (get_in "type" c) kind) (objects_of (get "changes" arguments))
        && not (is_true (get "confirm_non_secret_data" arguments))
      then not_confirmed ∷ []
      else []

  -- `actual_source != change.get("expected_source")`, negated, over the descriptors of the name
  unfoldable pub source_problems : ℕ → Json → List Json → Problems
  source_problems index change [] =
      when_not (is_text py (get_in "expected_source" change) "absent") (stale_source index)
  source_problems index change (env ∷ []) =
      when_not (equal py (get_in "source" env) (get_in "expected_source" change))
        (stale_source index)
  source_problems index change (_ ∷ _ ∷ _) = ambiguous_name index ∷ []

  unfoldable pub image_problems : ℕ → Json → Json → Problems
  image_problems index change container =
      if is_text py (get_in "type" change) "set_image"
      then when_not (equal py (get_in "image" container) (get_in "expected_image" change))
          (stale_image index)
      else []

  -- `matching_env`
  unfoldable pub matching_env : Json → Json → List Json
  matching_env change container =
      keep (λ env. equal py (get_in "name" env) (get_in "name" change))
        (objects_of (get_in "env" container))

  unfoldable pub env_problems : ℕ → Json → Json → Problems
  env_problems index change container =
      if is_one_of (get_in "type" change) env_kinds
      then source_problems index change (matching_env change container)
      else []

  -- the checks of a change whose container is found
  unfoldable pub container_problems : ℕ → Json → Json → Problems
  container_problems index change container =
      image_problems index change container ++ env_problems index change container

  -- one round of the loop over the changes of a workload
  unfoldable pub workload_change : List (ContainerKey × Json) → ℕ → Json → Option Problems
  workload_change containers index change =
      let kind = get_in "type" change in
      let found =
        container_at (get_in "container_type" change) (get_in "container" change) containers in
      if not (is_hashable kind)
      then none
      else (if not (is_one_of kind ("set_image" ∷ env_kinds))
          then some []
          else (if not (
                is_hashable (get_in "container_type" change)
                && is_hashable (get_in "container" change))
              then none
              else elim found [
                | none ↦ some (unknown_container index ∷ [])
                | some container ↦ some (container_problems index change container)
              ]))

  unfoldable pub workload_changes : JsonDict → Json → Option Problems
  workload_changes arguments target =
      if all_named (current_containers target)
      then each_change (workload_change (current_containers target)) 0
          (list_of (get "changes" arguments))
      else none

  -- `_workload_precondition_evidence_errors`
  unfoldable pub workload_problems : JsonDict → Json → Option Problems
  workload_problems arguments target =
      if not (is_object target)
      then some (target_unavailable ∷ [])
      else elim (workload_changes arguments target) [
        | none ↦ none
        | some found ↦ some (check_confirmed "set_env" arguments ++ found)
      ]

  -- `change.get("key") in present`
  unfoldable pub is_present : Json → List Json → Bool
  is_present key items =
      any (λ item. is_string (get_in "key" item) && equal py (get_in "key" item) key) items

  -- one round of the loop over the changes of a ConfigMap
  unfoldable pub config_map_change : List Json → ℕ → Json → Option Problems
  config_map_change items index change =
      let present = is_present (get_in "key" change) items in
      if not (is_hashable (get_in "key" change))
      then none
      else some (
          (if is_text py (get_in "type" change) "set_key"
            then when_not (equal py (bool present) (get_in "expected_present" change))
                (stale_presence index)
            else [])
          ++ (if is_text py (get_in "type" change) "remove_key"
              then when_not present (missing_key index)
              else []))

  -- `_configmap_precondition_evidence_errors`
  unfoldable pub config_map_problems : JsonDict → Json → Option Problems
  config_map_problems arguments facts = elim (config_map_keys (get_in "configuration" facts)) [
    | none ↦ none
    | some items ↦
        elim (each_change (config_map_change items) 0 (list_of (get "changes" arguments))) [
          | none ↦ none
          | some found ↦ some (check_confirmed "set_key" arguments ++ found)
        ]
  ]
