-- ===== src/Agent/Skills/Budget.antt =====
-- The budgets of `resolve_skill_call` of execution_engine/agent/skill_loading.py.
use execution_engine.Common.{
  ℕ, ◌≤◌, ◌≡◌, inl, inr, String, str_eq, eq_iff, Bool, true, false, Option, none, some, [], ◌∷◌,
  refl, arith, contains, contains-add, length-add_absent, length, leb, Bool-cases, length-append,
}
use execution_engine.Agent.Skills.Loading.{
  SkillLoadState, Loaded, raised, returned, already_loaded, loaded, refuse, content_of, load_skill,
  resolve_skill_call,
}

-- what the run may hold of skills
pub record IsWithin (max_loads max_bytes : ℕ) (s : SkillLoadState) : Type 0 where
  pub loads : length s.loaded_refs ≤ max_loads
  pub bytes : s.loaded_bytes ≤ max_bytes
  pub paired : length s.loaded_instructions ≡ length s.loaded_refs

module _ (blank : String → Bool) where
  load_skill-IsWithin :
      (ref : String) (l : Loaded) (s : SkillLoadState) (max_loads max_bytes : ℕ)
      → contains s.loaded_refs ref ≡ false
      → leb max_loads (length s.loaded_refs) ≡ false
      → IsWithin max_loads max_bytes s
      → IsWithin max_loads max_bytes (load_skill blank ref l s max_bytes).0
  unfolding load_skill
  load_skill-IsWithin ref (raised m) s max_loads max_bytes new room w = w
  load_skill-IsWithin ref (returned skill) s max_loads max_bytes new room w = ground (
    arith,
    w.loads,
    w.bytes,
    w.paired,
    new,
    room,
    length-add_absent ref s.loaded_refs new,
    length-append s.loaded_instructions (content_of blank skill.content ∷ []),
  )

  load_error_unchanged :
      (ref : String) (l : Loaded) (s : SkillLoadState) (max_bytes : ℕ)
      → (load_skill blank ref l s max_bytes).1.is_error ≡ true
      → (load_skill blank ref l s max_bytes).0 ≡ s
  unfolding load_skill
  load_error_unchanged ref (raised m) s max_bytes h = refl
  load_error_unchanged ref (returned skill) s max_bytes h = ground arith

  load_known :
      (ref : String) (l : Loaded) (s : SkillLoadState) (max_bytes : ℕ)
      → (load_skill blank ref l s max_bytes).1.result ≡ loaded ref
      → contains (load_skill blank ref l s max_bytes).0.loaded_refs ref ≡ true
  unfolding load_skill refuse
  load_known ref (raised m) s max_bytes h = ground arith
  load_known ref (returned skill) s max_bytes h =
      ground (arith, contains-add ref s.loaded_refs ref, eq_iff ref ref)

  loaded_is_named :
      (ref : String) (s : SkillLoadState) (loader : Option (String → Loaded))
      (max_loads max_bytes : ℕ)
      → (resolve_skill_call blank ref s loader max_loads max_bytes).1.result ≡ loaded ref
      → str_eq ref "" ≡ false
  unfolding resolve_skill_call refuse
  loaded_is_named ref s none max_loads max_bytes h = ground arith
  loaded_is_named ref s (some l) max_loads max_bytes h = ground arith

  loaded_is_known :
      (ref : String) (s : SkillLoadState) (loader : Option (String → Loaded))
      (max_loads max_bytes : ℕ)
      → (resolve_skill_call blank ref s loader max_loads max_bytes).1.result ≡ loaded ref
      → contains (resolve_skill_call blank ref s loader max_loads max_bytes).0.loaded_refs ref
        ≡ true
  unfolding resolve_skill_call refuse
  loaded_is_known ref s none max_loads max_bytes h = ground arith
  loaded_is_known ref s (some l) max_loads max_bytes h =
      ground (arith, load_known ref (l ref) s max_bytes)

  pub resolve_skill_call-IsWithin :
      (ref : String) (s : SkillLoadState) (loader : Option (String → Loaded))
      (max_loads max_bytes : ℕ)
      → IsWithin max_loads max_bytes s
      → IsWithin max_loads max_bytes (resolve_skill_call blank ref s loader max_loads max_bytes).0
  unfolding resolve_skill_call
  resolve_skill_call-IsWithin ref s none max_loads max_bytes w =
      ground (arith, w.loads, w.bytes, w.paired)
  resolve_skill_call-IsWithin ref s (some loader) max_loads max_bytes w =
      elim (Bool-cases (str_eq ref "")) [
        | inl empty ↦ rw empty w
        | inr named ↦ elim (Bool-cases (contains s.loaded_refs ref)) [
          | inl old ↦ rw (named, old) w
          | inr new ↦ elim (Bool-cases (leb max_loads (length s.loaded_refs))) [
            | inl full ↦ rw (named, new, full) w
            | inr room ↦
                rw (named, new, room)
                  (load_skill-IsWithin ref (loader ref) s max_loads max_bytes new room w)
          ]
        ]
      ]

  -- A call that reports an error leaves the state as it was.
  pub resolve_error_unchanged :
      (ref : String) (s : SkillLoadState) (loader : Option (String → Loaded))
      (max_loads max_bytes : ℕ)
      → (resolve_skill_call blank ref s loader max_loads max_bytes).1.is_error ≡ true
      → (resolve_skill_call blank ref s loader max_loads max_bytes).0 ≡ s
  unfolding resolve_skill_call
  resolve_error_unchanged ref s none max_loads max_bytes h = ground arith
  resolve_error_unchanged ref s (some loader) max_loads max_bytes h =
      ground (arith, load_error_unchanged ref (loader ref) s max_bytes)

  already_known :
      (ref : String) (t : SkillLoadState) (again : Option (String → Loaded))
      (max_loads max_bytes : ℕ)
      → str_eq ref "" ≡ false
      → contains t.loaded_refs ref ≡ true
      → resolve_skill_call blank ref t again max_loads max_bytes
        ≡ (t, record { result = already_loaded ref; is_error = false; events = [] })
  unfolding resolve_skill_call
  already_known ref t again max_loads max_bytes named there = rw (named, there)

  -- Once a skill is loaded, a further call for it loads nothing: it reports that the skill is
  -- there, with no event, and the state stays as it is, even if the loader is gone by then.
  pub load_once :
      (ref : String) (s : SkillLoadState) (loader again : Option (String → Loaded))
      (max_loads max_bytes : ℕ)
      → (resolve_skill_call blank ref s loader max_loads max_bytes).1.result ≡ loaded ref
      → resolve_skill_call blank ref
          (resolve_skill_call blank ref s loader max_loads max_bytes).0
          again
          max_loads
          max_bytes
        ≡ (
          (resolve_skill_call blank ref s loader max_loads max_bytes).0,
          record { result = already_loaded ref; is_error = false; events = [] },
        )
  load_once ref s loader again max_loads max_bytes h =
      let there = loaded_is_known ref s loader max_loads max_bytes h in
      let named = loaded_is_named ref s loader max_loads max_bytes h in
      already_known ref (resolve_skill_call blank ref s loader max_loads max_bytes).0 again
        max_loads max_bytes named there
