-- ===== src/Agent/Skills/Calls.antt =====
-- The calls of `resolve_skill_call` of execution_engine/agent/skill_loading.py during a run.
use execution_engine.Common.{
  by_test, ℕ, ◌≤◌, ◌+◌, ◌≡◌, List, if◌then◌else◌, String, str_eq, Bool, true, false, Option, none,
  some, [], ◌∷◌, arith, contains, length-add_absent, length, leb,
}
use execution_engine.Agent.Skills.Loading.{
  SkillLoadState, SkillLoadOutcome, SkillResult, Loaded, raised, returned, loaded, refuse,
  load_skill, resolve_skill_call,
}
use execution_engine.Agent.Skills.Budget.{IsWithin, resolve_skill_call-IsWithin}

-- a call for a skill, with the loader that the run has by then
pub record SkillCall : Type 0 where
  pub ref : String
  pub loader : Option (String → Loaded)

-- the size of what a loader returns
unfoldable pub bytes_of : Loaded → ℕ
bytes_of (raised m) = 0
bytes_of (returned skill) = skill.total_bytes

unfoldable pub call_bytes : SkillCall → ℕ
unfolding bytes_of
call_bytes c = elim c.loader [ none ↦ 0 | some load ↦ bytes_of (load c.ref) ]

unfoldable pub loads_skill : SkillResult → Bool
loads_skill (loaded ref) = true
loads_skill _ = false

module _ (blank : String → Bool) where
  -- from `s`, the bytes and the loads are counted in the state after, if a skill of `n` bytes is loaded
  abbrev Counted : SkillLoadState → ℕ → SkillLoadState × SkillLoadOutcome → Type 0
  Counted s n o =
      (s.loaded_bytes + (if loads_skill o.1.result then n else 0) ≡ o.0.loaded_bytes)
      × (length s.loaded_refs + (if loads_skill o.1.result then 1 else 0) ≡ length o.0.loaded_refs)

  load_skill_counts :
      (ref : String) (l : Loaded) (s : SkillLoadState) (max_bytes : ℕ)
      → contains s.loaded_refs ref ≡ false
      → Counted s (bytes_of l) (load_skill blank ref l s max_bytes)
  unfolding load_skill loads_skill bytes_of refuse
  load_skill_counts ref (raised m) s max_bytes new = (omega arith, omega arith)
  load_skill_counts ref (returned skill) s max_bytes new =
      (ground arith, ground (arith, new, length-add_absent ref s.loaded_refs new))

  resolve_call_counts :
      (ref : String) (s : SkillLoadState) (loader : Option (String → Loaded))
      (max_loads max_bytes : ℕ)
      → Counted s
          (elim loader [ none ↦ 0 | some load ↦ bytes_of (load ref) ])
          (resolve_skill_call blank ref s loader max_loads max_bytes)
  unfolding resolve_skill_call loads_skill refuse
  resolve_call_counts ref s none max_loads max_bytes = ground arith
  resolve_call_counts ref s (some load) max_loads max_bytes =
      let n = bytes_of (load ref) in
      by_test (Counted s n) (str_eq ref "") (λ _. (omega arith, omega arith))
        (λ _.
          by_test (Counted s n) (contains s.loaded_refs ref) (λ _. (omega arith, omega arith))
            (λ new.
              by_test (Counted s n) (leb max_loads (length s.loaded_refs))
                (λ _. (omega arith, omega arith))
                (λ _. load_skill_counts ref (load ref) s max_bytes new)))

  module _ (max_loads max_bytes : ℕ) where
    unfoldable pub resolve : SkillCall → SkillLoadState → SkillLoadState × SkillLoadOutcome
    resolve c s = resolve_skill_call blank c.ref s c.loader max_loads max_bytes

    -- the calls of a run, in their order
    unfoldable pub resolve_all : List SkillCall → SkillLoadState → SkillLoadState
    unfolding resolve
    resolve_all [] s = s
    resolve_all (c ∷ cs) s = resolve_all cs (resolve c s).0

    -- the size of all that the calls have loaded, as the loaders returned it
    unfoldable pub taken_bytes : List SkillCall → SkillLoadState → ℕ
    unfolding resolve call_bytes loads_skill
    taken_bytes [] s = 0
    taken_bytes (c ∷ cs) s =
        (if loads_skill (resolve c s).1.result then call_bytes c else 0)
        + taken_bytes cs (resolve c s).0

    -- how many of the calls have loaded a skill
    unfoldable pub taken_loads : List SkillCall → SkillLoadState → ℕ
    unfolding resolve loads_skill
    taken_loads [] s = 0
    taken_loads (c ∷ cs) s =
        (if loads_skill (resolve c s).1.result then 1 else 0) + taken_loads cs (resolve c s).0

    resolve_counts :
        (c : SkillCall) (s : SkillLoadState)
        → (s.loaded_bytes + (if loads_skill (resolve c s).1.result then call_bytes c else 0)
            ≡ (resolve c s).0.loaded_bytes)
          × (length s.loaded_refs + (if loads_skill (resolve c s).1.result then 1 else 0)
              ≡ length (resolve c s).0.loaded_refs)
    unfolding resolve call_bytes
    resolve_counts c s = resolve_call_counts c.ref s c.loader max_loads max_bytes

    resolve_all_counts :
        (cs : List SkillCall) (s : SkillLoadState)
        → IsWithin max_loads max_bytes s
        → IsWithin max_loads max_bytes (resolve_all cs s)
          × (s.loaded_bytes + taken_bytes cs s ≡ (resolve_all cs s).loaded_bytes)
          × (length s.loaded_refs + taken_loads cs s ≡ length (resolve_all cs s).loaded_refs)
    unfolding resolve_all taken_bytes taken_loads
    resolve_all_counts [] s w = (w, omega arith, omega arith)
    resolve_all_counts (c ∷ cs) s w =
        let next : IsWithin max_loads max_bytes (resolve c s).0 =
          unfold resolve in
          resolve_skill_call-IsWithin blank c.ref s c.loader max_loads max_bytes w in
        let (within, bytes, loads) = resolve_all_counts cs (resolve c s).0 next in
        let (more_bytes, more_loads) = resolve_counts c s in
        (within, omega (arith, bytes, more_bytes), omega (arith, loads, more_loads))

    -- Whatever calls follow on a state within the budgets and whatever the loaders return, what has
    -- been loaded before and by the calls together stays within both budgets, by the number and by
    -- the sizes that the loaders returned, and every skill that is loaded has one instruction.
    pub resolve_all-IsWithin :
        (cs : List SkillCall) (s : SkillLoadState)
        → IsWithin max_loads max_bytes s
        → (length s.loaded_refs + taken_loads cs s ≤ max_loads)
          × (s.loaded_bytes + taken_bytes cs s ≤ max_bytes)
          × (length (resolve_all cs s).loaded_instructions
              ≡ length s.loaded_refs + taken_loads cs s)
    resolve_all-IsWithin cs s w =
        let (within, bytes, loads) = resolve_all_counts cs s w in
        (
          omega (arith, loads, within.loads),
          omega (arith, bytes, within.bytes),
          omega (arith, loads, within.paired),
        )
