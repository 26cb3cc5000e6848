-- ===== src/Validation/Remediation/Supported.antt =====
-- A patch that is sent for approval is supported by the evidence of the run.
use execution_engine.Common.{
  ◌≡◌, ◌≢◌, refl, subst, arith, String, str_eq, true, false, Option, none, some, List, [], ◌∷◌,
  ◌++◌, All, reverse, contains, all, if◌then◌else◌,
}
use execution_engine.Validation.Json.{Json, str, JsonDict, get, get_in, Python, equal}
use execution_engine.Validation.Remediation.Targets.{
  patch_tools, is_true, is_text, target_matches, pod_owner_matches, role_matches, supports,
  target_of, find_context,
}
use execution_engine.Validation.Remediation.Preconditions.{Problems}
use execution_engine.Validation.Remediation.Preapproval.{
  admitted, rejected, crashed, patch_problems, remediation_preapproval_validation,
}
use execution_engine.Validation.Remediation.Chosen.{Chosen, find_context-Chosen}
use execution_engine.Validation.Remediation.Holds.{
  WorkloadHolds, ConfigMapHolds, workload_problems-Holds, config_map_problems-Holds,
}

-- a remediation target of the evidence is the one that the arguments name
pub record SameTarget (py : Python) (tool : String) (arguments : JsonDict) (target : Json)
    : Type 0 where
  pub same_kind :
      equal py
        (get_in "kind" target)
        (if str_eq tool "patch_configmap" then str "ConfigMap" else get "kind" arguments)
      ≡ true
  pub same_namespace : equal py (get_in "namespace" target) (get "namespace" arguments) ≡ true
  pub same_name : equal py (get_in "name" target) (get "name" arguments) ≡ true
  pub same_uid : equal py (get_in "uid" target) (get "expected_uid" arguments) ≡ true

-- the newest entry of its key is a successful read of the target by `get_resource`, which a workload
-- patch reaches through the owner of a Pod, and the changes hold in what it read
pub record Supported (py : Python) (tool : String) (arguments : JsonDict) (evidence : List JsonDict)
    : Type 0 where
  pub newer : List JsonDict
  pub entry : JsonDict
  pub older : List JsonDict
  pub split : reverse evidence ≡ newer ++ entry ∷ older
  pub newest : (k : String) → get "key" entry ≡ str k → All (λ e. get "key" e ≢ str k) newer
  pub read : is_text py (get "tool" entry) "get_resource" ≡ true
  pub not_error : is_true (get "is_error" entry) ≡ false
  pub success : is_text py (get_in "status" (get "context" entry)) "success" ≡ true
  pub resolved :
      SameTarget py tool arguments
        (get_in "remediationTarget" (get_in "data" (get "context" entry)))
  pub owned :
      str_eq tool "patch_workload" ≡ true
      → SameTarget py tool arguments
          (get_in "remediationTarget" (get_in "ownership" (get_in "data" (get "context" entry))))
  pub workload :
      str_eq tool "patch_configmap" ≡ false
      → WorkloadHolds py arguments
          (get_in "remediationTarget" (get_in "data" (get "context" entry)))
  pub config_map :
      str_eq tool "patch_configmap" ≡ true
      → ConfigMapHolds py arguments (get_in "data" (get "context" entry))

module _ (py : Python) (tool : String) (arguments : JsonDict) where
  target_matches-SameTarget :
      (value : Json)
      → target_matches py value (target_of tool arguments) ≡ true
      → SameTarget py tool arguments value
  unfolding target_matches target_of all
  target_matches-SameTarget value h = record {
    same_kind = ground (arith, h);
    same_namespace = ground (arith, h);
    same_name = ground (arith, h);
    same_uid = ground (arith, h);
  }

  owned-SameTarget :
      (facts : Json)
      → role_matches py tool facts (target_of tool arguments) ≡ true
      → str_eq tool "patch_workload" ≡ true
      → SameTarget py tool arguments (get_in "remediationTarget" (get_in "ownership" facts))
  unfolding role_matches pod_owner_matches
  owned-SameTarget facts h w =
      target_matches-SameTarget (get_in "remediationTarget" (get_in "ownership" facts))
        (ground (arith, h, w))

  Chosen-Supported :
      (evidence : List JsonDict) (facts : Json)
      → Chosen py tool (target_of tool arguments) [] (reverse evidence) facts
      → patch_problems py tool arguments (some facts) ≡ some []
      → Supported py tool arguments evidence
  unfolding patch_problems supports
  Chosen-Supported evidence facts c h =
      let data_ = get_in "data" (get "context" c.entry) in
      let clear = subst (λ d. patch_problems py tool arguments (some d) ≡ some []) c.facts_of h in
      record {
        newer = c.newer;
        entry = c.entry;
        older = c.older;
        split = c.split;
        newest = c.newest;
        read = ground (arith, c.supported);
        not_error = ground (arith, c.supported);
        success = ground (arith, c.supported);
        resolved =
            target_matches-SameTarget (get_in "remediationTarget" data_)
              (ground (arith, c.supported));
        owned = owned-SameTarget data_ (ground (arith, c.supported));
        workload = λ t.
            workload_problems-Holds py arguments (get_in "remediationTarget" data_)
              (ground (arith, clear, t));
        config_map = λ t. config_map_problems-Holds py arguments data_ (ground (arith, clear, t));
      }

  -- A patch that is admitted for approval names, by kind, namespace, name and UID, the target that a
  -- successful `get_resource` of the run resolved, in the newest evidence of its key; for a workload
  -- patch the owner that was resolved for a Pod is that target too. In this evidence each change of a
  -- workload names a container that stands there, with the image and the environment source that it
  -- expects, each change of a ConfigMap has the key presence that it expects, and literal values are
  -- confirmed as no secrets.
  pub remediation_preapproval_validation-Supported :
      (evidence : List JsonDict)
      → contains patch_tools tool ≡ true
      → remediation_preapproval_validation py tool arguments evidence ≡ admitted
      → Supported py tool arguments evidence
  unfolding remediation_preapproval_validation patch_problems
  remediation_preapproval_validation-Supported evidence patch h =
      of (find_context py tool (target_of tool arguments) [] (reverse evidence)) refl (
        clear
          (patch_problems py tool arguments
            (find_context py tool (target_of tool arguments) [] (reverse evidence)))
          (ground (arith, h, patch)))
    where
      clear :
          (o : Option Problems)
          → (elim o [ none ↦ crashed | some [] ↦ admitted | some (p ∷ ps) ↦ rejected (p ∷ ps) ])
            ≡ admitted
          → o ≡ some []
      clear none e = absurd (ground (arith, e))
      clear (some []) e = refl
      clear (some (p ∷ ps)) e = absurd (ground (arith, e))

      of :
          (o : Option Json)
          → find_context py tool (target_of tool arguments) [] (reverse evidence) ≡ o
          → patch_problems py tool arguments o ≡ some []
          → Supported py tool arguments evidence
      of none found e = absurd (ground (arith, e))
      of (some facts) found e =
          Chosen-Supported evidence facts
            (find_context-Chosen py tool (target_of tool arguments) [] (reverse evidence) facts
              found)
            e
