-- ===== src/Agent/Evidence/Merging.antt =====
-- The loop of `merge_evidence` of execution_engine/agent/tool_context.py, and what it starts from.
use execution_engine.Common.{
  ℕ, zero, suc, ◌+◌, ◌≤◌, ◌≡◌, ◌⊎◌, inl, inr, true, false, none, some, List, refl, arith, ◌∙◌,
  length, Bool-cases, Option-cases, String, str_eq, eq_iff, ap, if◌then◌else◌, Bool, any, keep, not,
  [], ◌∷◌, ◌++◌, sym,
}
use execution_engine.Agent.Evidence.Ledger.{
  Protection, Entry, put_entries, evict, put_entry, is_over, evict_loop, merge_evidence,
}
use execution_engine.Agent.Evidence.Eviction.{newest, evict_keeps_newest, evict-none}

-- an entry with the key `k` is among `es`
unfoldable pub named : {B : Type 0} → String → List (Entry B) → Bool
named k es = any (λ e. str_eq e.key k) es

-- of the entries with one key, the last
unfoldable pub latest : {B : Type 0} → List (Entry B) → List (Entry B)
unfolding named
latest [] = []
latest (e ∷ es) = let rest = latest es in if named e.key es then rest else e ∷ rest

-- the entries of the ledger that no new one replaces
unfoldable pub unreplaced : {B : Type 0} → List (Entry B) → List (Entry B) → List (Entry B)
unfolding named
unreplaced ledger entries = keep (λ e. not (named e.key entries)) ledger

module _ {B : Type 0} where
  unreplaced_step :
      (ledger : List (Entry B)) (e : Entry B) (es : List (Entry B))
      → unreplaced (put_entry ledger e) es ++ latest es
        ≡ unreplaced ledger (e ∷ es) ++ latest (e ∷ es)
  unfolding unreplaced latest named put_entry keep any
  unreplaced_step [] e es = ground arith
  unreplaced_step (x ∷ ledger) e es =
      ground (arith, unreplaced_step ledger e es, eq_iff x.key e.key, eq_iff e.key x.key)

  none_replaced : (ledger : List (Entry B)) → ledger ≡ unreplaced ledger [] ++ latest []
  unfolding unreplaced latest named keep any
  none_replaced [] = refl
  none_replaced (x ∷ ledger) = ap (λ l. x ∷ l) (none_replaced ledger)

  put_entries_lem :
      (ledger entries : List (Entry B))
      → put_entries ledger entries ≡ unreplaced ledger entries ++ latest entries
  unfolding put_entries
  put_entries_lem ledger [] = none_replaced ledger
  put_entries_lem ledger (e ∷ es) =
      put_entries_lem (put_entry ledger e) es ∙ unreplaced_step ledger e es

module _ {B : Type 0} (json_bytes : List (Entry B) → ℕ) (max_bytes : ℕ) where
  loop_within :
      (fuel : ℕ) (l : List (Entry B)) (omitted : ℕ)
      → is_over json_bytes max_bytes l ≡ false
      → evict_loop json_bytes max_bytes (suc fuel) l omitted ≡ (l, omitted)
  unfolding evict_loop
  loop_within fuel l omitted h = rw (h, evict_loop)

  loop_stop :
      (fuel : ℕ) (l : List (Entry B)) (omitted : ℕ)
      → is_over json_bytes max_bytes l ≡ true
      → evict l ≡ none
      → evict_loop json_bytes max_bytes (suc fuel) l omitted ≡ (l, omitted)
  unfolding evict_loop
  loop_stop fuel l omitted h stop = rw (h, stop, evict_loop)

  loop_more :
      (fuel : ℕ) (l m : List (Entry B)) (omitted : ℕ)
      → is_over json_bytes max_bytes l ≡ true
      → evict l ≡ some m
      → evict_loop json_bytes max_bytes (suc fuel) l omitted
        ≡ evict_loop json_bytes max_bytes fuel m (omitted + 1)
  unfolding evict_loop
  loop_more fuel l m omitted h more = rw (h, more, evict_loop)

  evict_loop_keeps :
      (fuel : ℕ) (p : Protection) (l : List (Entry B)) (omitted : ℕ)
      → (newest p (evict_loop json_bytes max_bytes fuel l omitted).0 ≡ newest p l)
        × ((evict_loop json_bytes max_bytes fuel l omitted).1
              + length (evict_loop json_bytes max_bytes fuel l omitted).0
            ≡ omitted + length l)
  unfolding evict_loop
  evict_loop_keeps zero p l omitted = (refl, refl)
  evict_loop_keeps (suc fuel) p l omitted = elim (Bool-cases (is_over json_bytes max_bytes l)) [
    | inr within ↦ rw (loop_within fuel l omitted within) (refl, refl)
    | inl over ↦ elim (Option-cases (evict l)) [
      | inl stop ↦ rw (loop_stop fuel l omitted over stop) (refl, refl)
      | inr (m, more) ↦
          let step = evict_keeps_newest p l m more in
          let later = evict_loop_keeps fuel p m (omitted + 1) in
          rw (loop_more fuel l m omitted over more)
            (later.0 ∙ step.1, omega (arith, later.1, step.0))
    ]
  ]

  evict_loop_ends :
      (fuel : ℕ) (l : List (Entry B)) (omitted : ℕ)
      → length l ≤ fuel
      → (json_bytes (evict_loop json_bytes max_bytes fuel l omitted).0 ≤ max_bytes)
        ⊎ (length (evict_loop json_bytes max_bytes fuel l omitted).0 ≤ 3)
  unfolding evict_loop
  evict_loop_ends zero l omitted h = inr (omega (arith, h))
  evict_loop_ends (suc fuel) l omitted h = elim (Bool-cases (is_over json_bytes max_bytes l)) [
    | inr within ↦ rw (loop_within fuel l omitted within) (unfold is_over in ground (arith, within))
    | inl over ↦ elim (Option-cases (evict l)) [
      | inl stop ↦ rw (loop_stop fuel l omitted over stop) (inr (evict-none l stop))
      | inr (m, more) ↦
          let step = evict_keeps_newest Protection.error l m more in
          rw (loop_more fuel l m omitted over more)
            (evict_loop_ends fuel m (omitted + 1) (omega (arith, step.0, h)))
    ]
  ]

  -- The loop is never cut short by its rounds: the merged ledger fits the budget of the run, or it
  -- has at most three entries.
  pub merge_evidence_bounded :
      (ledger entries : List (Entry B)) (omitted : ℕ)
      → (json_bytes (merge_evidence json_bytes max_bytes ledger entries omitted).0 ≤ max_bytes)
        ⊎ (length (merge_evidence json_bytes max_bytes ledger entries omitted).0 ≤ 3)
  unfolding merge_evidence
  merge_evidence_bounded ledger entries omitted =
      let merged = put_entries ledger entries in
      evict_loop_ends (length merged) merged omitted (omega arith)

  -- New entries stand at the end of the ledger, the last one of each key, in place of those that had
  -- their keys. Of what then stands, merging loses no newest entry of a protection class, whatever
  -- the budget, and it counts as omitted exactly the entries that are gone.
  pub merge_evidence_accounts :
      (ledger entries : List (Entry B)) (omitted : ℕ) (p : Protection)
      → (newest p (merge_evidence json_bytes max_bytes ledger entries omitted).0
          ≡ newest p (unreplaced ledger entries ++ latest entries))
        × ((merge_evidence json_bytes max_bytes ledger entries omitted).1
              + length (merge_evidence json_bytes max_bytes ledger entries omitted).0
            ≡ omitted + length (unreplaced ledger entries ++ latest entries))
  unfolding merge_evidence
  merge_evidence_accounts ledger entries omitted p =
      let merged = put_entries ledger entries in
      rw (sym (put_entries_lem ledger entries)) (evict_loop_keeps (length merged) p merged omitted)
