-- ===== src/Agent/Skills/Loading.antt =====
-- `resolve_skill_call` of execution_engine/agent/skill_loading.py. The loader is a service of the
-- control plane: a function of the skill reference, which may raise.
use execution_engine.Common.{
  ℕ, ◌+◌, String, str_eq, Bool, true, false, Option, none, some, List, [], ◌∷◌, ◌++◌, contains, add,
  length, leb, ltb, if◌then◌else◌,
}

pub record SkillLoadState : Type 0 where
  pub loaded_refs : List String
  pub loaded_instructions : List String
  pub loaded_bytes : ℕ

-- what the resolver reads of a loaded skill: `total_bytes` (0 if it is missing), and the content
-- of `message` if that is a dictionary
pub record LoadedSkill : Type 0 where
  pub skill_id : Option String
  pub name : Option String
  pub total_bytes : ℕ
  pub content : Option String

pub data Loaded : Type 0 where
  raised : String → Loaded
  returned : LoadedSkill → Loaded

pub data ErrorCode : Type 0 where
  invalid_skill_ref skill_loader_unavailable skill_load_budget_exceeded skill_load_failed
        skill_load_bytes_exceeded skill_load_invalid :
      ErrorCode

pub data SkillEvent : Type 0 where
  load_started : String → SkillEvent
  load_failed : String → ErrorCode → SkillEvent
  context_loaded : String → ℕ → SkillEvent

pub data SkillResult : Type 0 where
  loaded already_loaded : String → SkillResult
  refused : ErrorCode → SkillResult

pub record SkillLoadOutcome : Type 0 where
  pub result : SkillResult
  pub is_error : Bool
  pub events : List SkillEvent

abbrev pub internal_load_skill_tool : String
internal_load_skill_tool = "_acornops_load_skill"

unfoldable pub is_skill_call : String → Bool
is_skill_call tool_name = str_eq tool_name internal_load_skill_tool

-- an outcome that reports an error, with its event after the ones given
unfoldable pub refuse : String → ErrorCode → List SkillEvent → SkillLoadOutcome
refuse ref code events = record {
  result = refused code;
  is_error = true;
  events = events ++ load_failed ref code ∷ [];
}

-- `blank text` is `not text.strip()` of the library
module _ (blank : String → Bool) where
  unfoldable pub is_untrusted : Option String → Bool
  is_untrusted none = true
  is_untrusted (some content) = blank content

  unfoldable pub content_of : Option String → String
  content_of none = ""
  content_of (some content) = content

  -- the loader has returned
  unfoldable pub accept_skill :
      String → LoadedSkill → SkillLoadState → ℕ → SkillLoadState × SkillLoadOutcome
  unfolding refuse
  accept_skill ref skill s max_loaded_skill_bytes =
      let events = load_started ref ∷ [] in
      if ltb max_loaded_skill_bytes (s.loaded_bytes + skill.total_bytes)
      then (s, refuse ref skill_load_bytes_exceeded events)
      else if is_untrusted skill.content
      then (s, refuse ref skill_load_invalid events)
      else (
        record {
          loaded_refs = add ref s.loaded_refs;
          loaded_instructions = s.loaded_instructions ++ content_of skill.content ∷ [];
          loaded_bytes = s.loaded_bytes + skill.total_bytes;
        },
        record {
          result = loaded ref;
          is_error = false;
          events = events ++ context_loaded ref skill.total_bytes ∷ [];
        },
      )

  unfoldable pub load_skill :
      String → Loaded → SkillLoadState → ℕ → SkillLoadState × SkillLoadOutcome
  unfolding accept_skill
  load_skill ref (raised message) s max_bytes =
      (s, refuse ref skill_load_failed (load_started ref ∷ []))
  load_skill ref (returned skill) s max_bytes = accept_skill ref skill s max_bytes

  unfoldable pub resolve_skill_call :
      String → SkillLoadState → Option (String → Loaded) → ℕ → ℕ → SkillLoadState × SkillLoadOutcome
  resolve_skill_call ref s skill_loader max_skill_loads max_loaded_skill_bytes =
      if str_eq ref ""
      then (s, refuse ref invalid_skill_ref [])
      else if contains s.loaded_refs ref
      then (s, record { result = already_loaded ref; is_error = false; events = [] })
      else elim skill_loader [
        | none ↦ (s, refuse ref skill_loader_unavailable [])
        | some loader ↦
            if leb max_skill_loads (length s.loaded_refs)
            then (s, refuse ref skill_load_budget_exceeded [])
            else load_skill ref (loader ref) s max_loaded_skill_bytes
      ]
