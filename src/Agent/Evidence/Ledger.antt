-- ===== src/Agent/Evidence/Ledger.antt =====
-- `merge_evidence` of execution_engine/agent/tool_context.py. `json_bytes` measures a ledger through
-- the JSON encoder of the library, and is a parameter.
use execution_engine.Common.{
  ℕ, zero, suc, ◌+◌, String, str_eq, Bool, true, false, not, ◌&&◌, Option, none, some, List, [],
  ◌∷◌, ◌++◌, is_some, any, keep, length, ltb, if◌then◌else◌,
}

-- the classes that `build_evidence_entry` gives
pub data Protection : Type 0 where
  error write_receipt verification : Protection

-- one entry; `body` is what the ledger only carries
pub record Entry (B : Type 0) : Type 0 where
  pub key : String
  pub protection : Option Protection
  pub body : B

-- `build_evidence_entry`: the class by the three tests
unfoldable pub protection_of : Bool → Option String → String → Option Protection
protection_of is_err operation_id tool =
    if is_err
    then some error
    else if is_some operation_id
    then some write_receipt
    else if str_eq tool "get_resource"
    then some verification
    else none

unfoldable pub same_class : Protection → Protection → Bool
same_class error error = true
same_class write_receipt write_receipt = true
same_class verification verification = true
same_class _ _ = false

unfoldable pub has_class : {B : Type 0} → Protection → Entry B → Bool
unfolding same_class
has_class p e = elim e.protection [ none ↦ false | some q ↦ same_class p q ]

module _ {B : Type 0} where
  -- `[existing for existing in merged if existing["key"] != entry["key"]]` and the append
  unfoldable pub put_entry : List (Entry B) → Entry B → List (Entry B)
  put_entry merged entry = keep (λ e. not (str_eq e.key entry.key)) merged ++ entry ∷ []

  unfoldable pub put_entries : List (Entry B) → List (Entry B) → List (Entry B)
  unfolding put_entry
  put_entries merged [] = merged
  put_entries merged (e ∷ es) = put_entries (put_entry merged e) es

  -- the ledger without its first unprotected entry, if there is one
  unfoldable pub drop_unprotected : List (Entry B) → Option (List (Entry B))
  drop_unprotected [] = none
  drop_unprotected (e ∷ es) = elim e.protection [
    | none ↦ some es
    | some p ↦ elim (drop_unprotected es) [ none ↦ none | some rest ↦ some (e ∷ rest) ]
  ]

  -- the ledger without its first protected entry whose class has a later one: the index that
  -- `latest_protected` holds for the class is another
  unfoldable pub drop_superseded : List (Entry B) → Option (List (Entry B))
  unfolding has_class
  drop_superseded [] = none
  drop_superseded (e ∷ es) =
      let rest : Option (List (Entry B)) = elim (drop_superseded es) [
        | none ↦ none
        | some l ↦ some (e ∷ l)
      ] in
      elim e.protection [ none ↦ rest | some p ↦ if any (has_class p) es then some es else rest ]

  -- one eviction; `none` is the `break`
  unfoldable pub evict : List (Entry B) → Option (List (Entry B))
  unfolding drop_unprotected drop_superseded
  evict merged = elim (drop_unprotected merged) [ some l ↦ some l | none ↦ drop_superseded merged ]

  module _ (json_bytes : List (Entry B) → ℕ) (max_run_evidence_bytes : ℕ) where
    -- the test of the loop
    unfoldable pub is_over : List (Entry B) → Bool
    is_over merged = ltb max_run_evidence_bytes (json_bytes merged) && ltb 1 (length merged)

    -- each round pops one entry, so as many rounds as entries are enough
    unfoldable pub evict_loop : ℕ → List (Entry B) → ℕ → List (Entry B) × ℕ
    evict_loop zero merged omitted = (merged, omitted)
    evict_loop (suc fuel) merged omitted = elim (is_over merged) [
      | false ↦ (merged, omitted)
      | true ↦ elim (evict merged) [
        | none ↦ (merged, omitted)
        | some l ↦ evict_loop fuel l (omitted + 1)
      ]
    ]

    unfoldable pub merge_evidence : List (Entry B) → List (Entry B) → ℕ → List (Entry B) × ℕ
    merge_evidence ledger entries previously_omitted =
        let merged = put_entries ledger entries in
        evict_loop (length merged) merged previously_omitted
