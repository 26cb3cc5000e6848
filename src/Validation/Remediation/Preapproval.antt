-- ===== src/Validation/Remediation/Preapproval.antt =====
-- execution_engine/agent/tool_validation.py: what is decided of a call before it is sent for approval.
-- Of the evidence that a refusal carries, the errors are kept and the fixed texts left out.
use execution_engine.Common.{
  String, not, Option, none, some, List, [], ◌∷◌, contains, str_eq, if◌then◌else◌, reverse,
}
use execution_engine.Common.Dict.{insert}
use execution_engine.Validation.Json.{Json, str, obj, JsonDict, is_object, get, get_in, Python}
use execution_engine.Validation.Schema.Rules.{Details}
use execution_engine.Validation.Remediation.Targets.{patch_tools, target_of, find_context}
use execution_engine.Validation.Remediation.Preconditions.{
  Problems, target_unresolved, workload_problems, config_map_problems,
}

-- one spec of `tool_schema_map`
unfoldable pub index_schema : Json → JsonDict → JsonDict
index_schema (obj fields) schemas =
    let schema = get_in "input_schema" (obj fields) in
    elim (get_in "name" (obj fields)) [
      | str n ↦ elim (get_in "model_name" (obj fields)) [
        | str m ↦ insert m schema (insert n schema schemas)
        | _ ↦ insert n schema schemas
      ]
      | _ ↦ schemas
    ]
index_schema _ schemas = schemas

unfoldable pub index_schemas : List Json → JsonDict → JsonDict
index_schemas [] schemas = schemas
index_schemas (spec ∷ specs) schemas = index_schemas specs (index_schema spec schemas)

-- `tool_schema_map`
unfoldable pub tool_schema_map : List Json → JsonDict
tool_schema_map specs = index_schemas specs []

-- `None`, or the evidence of a refusal with its errors, or of a validation that could not complete
pub data Preapproval (A : Type 0) : Type 0 where
  admitted : Preapproval A
  rejected : A → Preapproval A
  unavailable : Preapproval A
  crashed : Preapproval A

-- `preapproval_validation`; `validate schema arguments` is the isolated validator, which has no
-- result where its process fails
unfoldable pub preapproval_validation :
    (Json → JsonDict → Option Details) → String → JsonDict → JsonDict → Preapproval Details
preapproval_validation validate tool arguments schemas =
    let schema = get tool schemas in
    let checked = validate schema arguments in
    elim (if is_object schema then checked else some []) [
      | none ↦ unavailable
      | some [] ↦ admitted
      | some (d ∷ ds) ↦ rejected (d ∷ ds)
    ]

module _ (py : Python) where
  -- `details` from the context that the search found
  unfoldable pub patch_problems : String → JsonDict → Option Json → Option Problems
  patch_problems tool arguments none = some (target_unresolved ∷ [])
  patch_problems tool arguments (some facts) =
      if str_eq tool "patch_configmap"
      then config_map_problems py arguments facts
      else workload_problems py arguments (get_in "remediationTarget" facts)

  -- `remediation_preapproval_validation`
  unfoldable pub remediation_preapproval_validation :
      String → JsonDict → List JsonDict → Preapproval Problems
  remediation_preapproval_validation tool arguments evidence =
      let found = find_context py tool (target_of tool arguments) [] (reverse evidence) in
      let problems = patch_problems tool arguments found in
      if not (contains patch_tools tool)
      then admitted
      else elim problems [ none ↦ crashed | some [] ↦ admitted | some (p ∷ ps) ↦ rejected (p ∷ ps) ]
