-- ===== src/Validation/Remediation/Targets.antt =====
-- execution_engine/agent/tool_validation.py: the target of a patch, and the search for the evidence
-- that resolved it.
use execution_engine.Common.{
  String, Bool, false, ◌&&◌, ◌||◌, not, Option, none, some, List, [], ◌∷◌, all, str_eq, contains,
  if◌then◌else◌,
}
use execution_engine.Validation.Json.{
  Json, bool, str, JsonDict, is_object, is_null, get, get_in, Python, equal,
}

-- `PATCH_TOOLS`
abbrev pub patch_tools : List String
patch_tools = "patch_workload" ∷ "patch_resource" ∷ "patch_configmap" ∷ []

-- `value is True`
abbrev pub is_true : Json → Bool
is_true (bool b) = b
is_true _ = false

module _ (py : Python) where
  -- `value == text`
  abbrev pub is_text : Json → String → Bool
  is_text value s = equal py value (str s)

  -- `_target_matches`
  unfoldable pub target_matches : Json → JsonDict → Bool
  target_matches value target =
      is_object value && all (λ (f : String × Json). equal py (get_in f.0 value) f.1) target

  -- `pod_owner_matches`
  unfoldable pub pod_owner_matches : Json → JsonDict → Bool
  pod_owner_matches facts target =
      is_text (get_in "kind" (get_in "resource" facts)) "Pod"
      && is_text (get_in "status" (get_in "ownership" facts)) "resolved"
      && target_matches (get_in "remediationTarget" (get_in "ownership" facts)) target

  -- the branches by tool at the end of the loop
  unfoldable pub role_matches : String → Json → JsonDict → Bool
  role_matches tool facts target =
      let direct = target_matches (get_in "resource" facts) target in
      if str_eq tool "patch_workload"
      then pod_owner_matches facts target
      else (if str_eq tool "patch_resource"
          then direct || pod_owner_matches facts target
          else direct)

  -- an entry that no `continue` of the loop skips: the data of its context
  unfoldable pub supports : String → JsonDict → JsonDict → Bool
  supports tool target entry =
      is_text (get "tool" entry) "get_resource"
      && not (is_true (get "is_error" entry))
      && is_text (get_in "status" (get "context" entry)) "success"
      && target_matches (get_in "remediationTarget" (get_in "data" (get "context" entry))) target
      && role_matches tool (get_in "data" (get "context" entry)) target

  -- the loop over the entries, the newest first: of each key only the newest entry counts
  unfoldable pub find_context : String → JsonDict → List String → List JsonDict → Option Json
  find_context tool target seen [] = none
  find_context tool target seen (entry ∷ rest) =
      let facts = get_in "data" (get "context" entry) in
      let here = supports tool target entry in
      elim (get "key" entry) [
        | str k ↦
            let skip = find_context tool target seen rest in
            let next = find_context tool target (k ∷ seen) rest in
            if contains seen k then skip else (if here then some facts else next)
        | _ ↦ let next = find_context tool target seen rest in if here then some facts else next
      ]

-- `target`
unfoldable pub target_of : String → JsonDict → JsonDict
target_of tool arguments =
    ("kind", if str_eq tool "patch_configmap" then str "ConfigMap" else get "kind" arguments)
    ∷ ("namespace", get "namespace" arguments)
    ∷ ("name", get "name" arguments)
    ∷ ("uid", get "expected_uid" arguments)
    ∷ (if is_null (get "expected_resource_version" arguments)
        then []
        else ("resourceVersion", get "expected_resource_version" arguments) ∷ [])
