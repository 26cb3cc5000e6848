-- ===== src/Tests/Remediations.antt =====
-- The check of a patch before its approval, at concrete evidence.
use execution_engine.Common.{◌≡◌, refl, [], ◌∷◌, keep, any, all, contains}
use execution_engine.Common.Dict.{lookup}
use execution_engine.Validation.Json.{
  Json, str, arr, obj, nil, cons, Fields, end, field, JsonDict, equal, get, get_in,
}
use execution_engine.Validation.Schema.Rules.{list_of}
use execution_engine.Validation.Remediation.Targets.{
  target_matches, pod_owner_matches, role_matches, supports, find_context, target_of,
}
use execution_engine.Validation.Remediation.Preconditions.{
  stale_image, each_change, containers_as, all_named, current_containers, walked, config_map_keys,
  container_at, is_one_of, check_confirmed, source_problems, image_problems, matching_env,
  env_problems, container_problems, workload_change, workload_changes, workload_problems,
  is_present, config_map_change, config_map_problems,
}
use execution_engine.Validation.Remediation.Preapproval.{
  admitted, rejected, crashed, patch_problems, remediation_preapproval_validation,
}
use execution_engine.Validation.Remediation.Supported.{
  Supported, remediation_preapproval_validation-Supported,
}
use execution_engine.Tests.Schemas.{python}

abbrev identity : Fields → Json
identity rest = obj (
    field "kind" (str "Deployment")
      (field "namespace" (str "shop") (field "name" (str "web") (field "uid" (str "u1") rest))))

abbrev target : Json
target = identity (
    field "containers"
      (arr (cons (obj (field "name" (str "app") (field "image" (str "web:1") end))) nil)) end)

-- a Pod that `get_resource` has read, with its owner
abbrev pod_read : JsonDict
pod_read =
    ("key", str "pod")
    ∷ ("tool", str "get_resource")
    ∷ (
      "context",
      obj (
          field "status" (str "success") (
            field "data"
              (obj (
                field "remediationTarget" target (
                  field "resource" (obj (field "kind" (str "Pod") end)) (
                    field "ownership"
                      (obj (field "status" (str "resolved") (field "remediationTarget" target end)))
                      end))))
              end)),
    )
    ∷ []

abbrev patch : Json → JsonDict
patch image =
    ("kind", str "Deployment")
    ∷ ("namespace", str "shop")
    ∷ ("name", str "web")
    ∷ ("expected_uid", str "u1")
    ∷ (
      "changes",
      arr (
          cons
            (obj (
              field "type" (str "set_image") (
                field "container_type" (str "container")
                  (field "container" (str "app") (field "expected_image" image end)))))
            nil),
    )
    ∷ []

-- without the list of its keys, the configuration of a ConfigMap cannot be walked through
abbrev config_map_patch : JsonDict
config_map_patch = ("namespace", str "shop") ∷ ("name", str "web") ∷ ("expected_uid", str "u1") ∷ []

abbrev config_map : Json
config_map = obj (
    field "kind" (str "ConfigMap")
      (field "namespace" (str "shop") (field "name" (str "web") (field "uid" (str "u1") end))))

abbrev config_map_read : JsonDict
config_map_read =
    ("tool", str "get_resource")
    ∷ (
      "context",
      obj (
          field "status" (str "success") (
            field "data"
              (obj (
                field "remediationTarget" config_map
                  (field "resource" config_map (field "configuration" (obj end) end))))
              end)),
    )
    ∷ []

preapproval_test :
    (remediation_preapproval_validation python "patch_workload"
        (patch (str "web:1"))
        (pod_read ∷ [])
      ≡ admitted)
    × (remediation_preapproval_validation python "patch_workload"
          (patch (str "web:0"))
          (pod_read ∷ [])
        ≡ rejected (stale_image 0 ∷ []))
    × (remediation_preapproval_validation python "patch_configmap" config_map_patch
          (config_map_read ∷ [])
        ≡ crashed)
unfolding target_matches pod_owner_matches role_matches supports find_context target_of each_change
    containers_as all_named current_containers walked config_map_keys container_at is_one_of
    check_confirmed source_problems image_problems matching_env env_problems container_problems
    workload_change workload_changes workload_problems is_present config_map_change
    config_map_problems patch_problems remediation_preapproval_validation equal get get_in list_of
    lookup keep any all contains
preapproval_test = (refl, refl, refl)

remediation_preapproval_validation-Supported_example :
    Supported python "patch_workload" (patch (str "web:1")) (pod_read ∷ [])
unfolding contains
remediation_preapproval_validation-Supported_example =
    remediation_preapproval_validation-Supported python "patch_workload" (patch (str "web:1"))
      (pod_read ∷ []) refl preapproval_test.0
