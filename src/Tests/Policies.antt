-- ===== src/Tests/Policies.antt =====
-- The theorems on the policies of the agent loop, at small inputs.
use execution_engine.Common.{
  ℕ, ◌+◌, ◌≡◌, ◌≤◌, ◌⊎◌, String, Bool, true, false, Option, none, some, List, [], ◌∷◌, refl, arith,
  length, keep, any, ◌++◌, contains, add,
}
use execution_engine.Agent.Retry.Policy.{
  Spec, Chunk, RetryState, exhausted_event, handle_malformed, validate_correction, or_text,
  is_active, is_error, first_provider_error, matching_spec,
}
use execution_engine.Agent.Retry.OneShot.{IsConsistent, retry_once, correction_accepted}
use execution_engine.Agent.Skills.Loading.{
  SkillLoadState, Loaded, returned, resolve_skill_call, load_skill, is_untrusted,
}
use execution_engine.Agent.Skills.Calls.{
  SkillCall, bytes_of, call_bytes, loads_skill, resolve, resolve_all, taken_bytes, taken_loads,
  resolve_all-IsWithin,
}
use execution_engine.Agent.Evidence.Ledger.{
  Protection, write_receipt, verification, Entry, merge_evidence,
}
use execution_engine.Agent.Evidence.Eviction.{newest}
use execution_engine.Agent.Evidence.Merging.{
  latest, unreplaced, merge_evidence_bounded, merge_evidence_accounts,
}

abbrev patch : Spec
patch = record { model_name = some "patch"; name = some "patch_workload" }

abbrev list_pods : Spec
list_pods = record { model_name = none; name = some "list_pods" }

abbrev idle : RetryState
idle = record { tool_specs = patch ∷ list_pods ∷ []; tool = none; spec = none; outcomes = [] }

abbrev bad_patch : Chunk
bad_patch = record {
  type = "error";
  code = some "OPENAI_TOOL_ARGUMENTS_INVALID";
  tool = some "patch";
}

abbrev correcting : RetryState
correcting = record idle { tool = some "patch"; spec = some patch }

idle-IsConsistent : IsConsistent idle
idle-IsConsistent = record { together = refl; counted = refl }

retry_once_example :
    ((handle_malformed (handle_malformed idle bad_patch true).0 bad_patch true).1 ≡ false)
    × ((handle_malformed (handle_malformed idle bad_patch true).0 bad_patch true).2
        ≡ some (exhausted_event (or_text bad_patch.tool "the requested tool")))
unfolding handle_malformed matching_spec keep
retry_once_example = retry_once idle bad_patch bad_patch true true refl

correction_accepted_example :
    ((c : Option String) × (◌≡◌ {A = List (Option String)} (some "patch" ∷ []) (c ∷ []))
      × (some "patch" ≡ some (or_text c "")))
    × (any is_error [] ≡ false)
    × (true ≡ true)
    × (is_active (validate_correction correcting [] (some "patch" ∷ []) true).0 ≡ false)
unfolding validate_correction first_provider_error any
correction_accepted_example = correction_accepted correcting [] (some "patch" ∷ []) true refl

abbrev no_skills : SkillLoadState
no_skills = record { loaded_refs = []; loaded_instructions = []; loaded_bytes = 0 }

abbrev never_blank : String → Bool
never_blank s = false

abbrev loader : String → Loaded
loader ref =
    returned (record { skill_id = none; name = none; total_bytes = 40; content = some "use it" })

-- three skills of 40 bytes, of which a budget of 100 bytes takes two
abbrev skill_calls : List SkillCall
skill_calls =
    record { ref = "a"; loader = some loader }
    ∷ record { ref = "b"; loader = some loader }
    ∷ record { ref = "c"; loader = some loader }
    ∷ []

two_skills : taken_bytes never_blank 5 100 skill_calls no_skills ≡ 80
unfolding taken_bytes resolve call_bytes bytes_of loads_skill resolve_skill_call contains load_skill
    is_untrusted add
two_skills = refl

resolve_all-IsWithin_example :
    (0 + taken_loads never_blank 5 100 skill_calls no_skills ≤ 5)
    × (0 + taken_bytes never_blank 5 100 skill_calls no_skills ≤ 100)
    × (length (resolve_all never_blank 5 100 skill_calls no_skills).loaded_instructions
        ≡ 0 + taken_loads never_blank 5 100 skill_calls no_skills)
resolve_all-IsWithin_example =
    resolve_all-IsWithin never_blank 5 100 skill_calls no_skills
      (record { loads = omega arith; bytes = omega arith; paired = refl })

abbrev entry : String → Option Protection → Entry ℕ
entry k p = record { key = k; protection = p; body = 1 }

abbrev ledger : List (Entry ℕ)
ledger = entry "a" (some write_receipt) ∷ entry "b" none ∷ entry "c" (some write_receipt) ∷ []

abbrev weigh : List (Entry ℕ) → ℕ
weigh l = length l

merge_evidence_bounded_example :
    (weigh (merge_evidence weigh 1 ledger (entry "b" (some verification) ∷ []) 0).0 ≤ 1)
    ⊎ (length (merge_evidence weigh 1 ledger (entry "b" (some verification) ∷ []) 0).0 ≤ 3)
merge_evidence_bounded_example =
    merge_evidence_bounded weigh 1 ledger (entry "b" (some verification) ∷ []) 0

merge_evidence_accounts_example :
    (newest verification (merge_evidence weigh 1 ledger (entry "b" (some verification) ∷ []) 0).0
      ≡ newest verification (
          unreplaced ledger (entry "b" (some verification) ∷ [])
          ++ latest (entry "b" (some verification) ∷ [])))
    × ((merge_evidence weigh 1 ledger (entry "b" (some verification) ∷ []) 0).1
          + length (merge_evidence weigh 1 ledger (entry "b" (some verification) ∷ []) 0).0
        ≡ 0
          + length (
              unreplaced ledger (entry "b" (some verification) ∷ [])
              ++ latest (entry "b" (some verification) ∷ [])))
merge_evidence_accounts_example =
    merge_evidence_accounts weigh 1 ledger (entry "b" (some verification) ∷ []) 0 verification
