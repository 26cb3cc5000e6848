-- ===== src/Validation/Remediation/Chosen.antt =====
-- The evidence that the search for a patch target chooses.
use execution_engine.Common.{
  ◌≡◌, ◌≢◌, refl, ap, arith, String, eq_iff, true, false, some, List, [], ◌∷◌, ◌++◌, All, contains,
  inl, inr, Bool-cases, if◌then◌else◌,
}
use execution_engine.Validation.Json.{
  Json, null, bool, num, str, arr, obj, JsonDict, get, get_in, Python,
}
use execution_engine.Validation.Remediation.Targets.{supports, find_context}

-- An entry of the list supports the patch, and no entry before it has its key.
pub record Chosen (py : Python) (tool : String) (target : JsonDict) (seen : List String)
    (entries : List JsonDict) (facts : Json) : Type 0 where
  pub newer : List JsonDict
  pub entry : JsonDict
  pub older : List JsonDict
  pub split : entries ≡ newer ++ entry ∷ older
  pub supported : supports py tool target entry ≡ true
  pub facts_of : facts ≡ get_in "data" (get "context" entry)
  pub unseen : (k : String) → get "key" entry ≡ str k → contains seen k ≡ false
  pub newest : (k : String) → get "key" entry ≡ str k → All (λ e. get "key" e ≢ str k) newer

module _ (py : Python) (tool : String) (target : JsonDict) where
  -- an entry that is passed over joins the newer ones
  passed :
      (seen seen' : List String) (e : JsonDict) (rest : List JsonDict) (facts : Json)
      → ((k : String)
          → contains seen' k ≡ false
          → (contains seen k ≡ false) × (get "key" e ≢ str k))
      → Chosen py tool target seen' rest facts
      → Chosen py tool target seen (e ∷ rest) facts
  passed seen seen' e rest facts free c = record {
    newer = e ∷ c.newer;
    entry = c.entry;
    older = c.older;
    split = ap (λ l. e ∷ l) c.split;
    supported = c.supported;
    facts_of = c.facts_of;
    unseen = λ k h. (free k (c.unseen k h)).0;
    newest = λ k h. ((free k (c.unseen k h)).1, c.newest k h);
  }

  taken :
      (seen : List String) (e : JsonDict) (rest : List JsonDict) (facts : Json)
      → supports py tool target e ≡ true
      → some (get_in "data" (get "context" e)) ≡ some facts
      → ((k : String) → get "key" e ≡ str k → contains seen k ≡ false)
      → Chosen py tool target seen (e ∷ rest) facts
  taken seen e rest facts s same free = record {
    newer = [];
    entry = e;
    older = rest;
    split = refl;
    supported = s;
    facts_of = ground (arith, same);
    unseen = free;
    newest = λ k h. tt;
  }

  -- without a text as key
  unkeyed :
      (seen : List String) (e : JsonDict) (rest : List JsonDict) (facts : Json)
      → ((k : String) → get "key" e ≢ str k)
      → (find_context py tool target seen rest ≡ some facts → Chosen py tool target seen rest facts)
      → (if supports py tool target e
          then some (get_in "data" (get "context" e))
          else find_context py tool target seen rest)
        ≡ some facts
      → Chosen py tool target seen (e ∷ rest) facts
  unkeyed seen e rest facts bare later h = elim (Bool-cases (supports py tool target e)) [
    | inl yes_ ↦ taken seen e rest facts yes_ (ground (arith, h, yes_)) (λ k q. absurd (bare k q))
    | inr no_ ↦ passed seen seen e rest facts (λ k u. (u, bare k)) (later (ground (arith, h, no_)))
  ]

  keyed :
      (k : String) (seen : List String) (e : JsonDict) (rest : List JsonDict) (facts : Json)
      → get "key" e ≡ str k
      → (find_context py tool target seen rest ≡ some facts → Chosen py tool target seen rest facts)
      → (find_context py tool target (k ∷ seen) rest ≡ some facts
          → Chosen py tool target (k ∷ seen) rest facts)
      → (if contains seen k
          then find_context py tool target seen rest
          else (if supports py tool target e
              then some (get_in "data" (get "context" e))
              else find_context py tool target (k ∷ seen) rest))
        ≡ some facts
      → Chosen py tool target seen (e ∷ rest) facts
  unfolding contains
  keyed k seen e rest facts key skip later h = elim (Bool-cases (contains seen k)) [
    | inl known ↦
        passed seen seen e rest facts (λ j u. (u, λ q. ground (arith, known, u, str_key k j key q)))
          (skip (ground (arith, h, known)))
    | inr fresh ↦ elim (Bool-cases (supports py tool target e)) [
      | inl yes_ ↦
          taken seen e rest facts yes_ (ground (arith, h, fresh, yes_))
            (λ j q. ground (arith, fresh, str_key k j key q))
      | inr no_ ↦
          passed seen (k ∷ seen) e rest facts
            (λ j u. (ground (arith, u), λ q. ground (arith, u, eq_iff k j, str_key k j key q)))
            (later (ground (arith, h, fresh, no_)))
    ]
  ]
    where
      str_key : (k j : String) → get "key" e ≡ str k → get "key" e ≡ str j → k ≡ j
      str_key k j p q = ground (arith, p, q)

  pub find_context-Chosen :
      (seen : List String) (es : List JsonDict) (facts : Json)
      → find_context py tool target seen es ≡ some facts
      → Chosen py tool target seen es facts
  unfolding find_context
  find_context-Chosen seen [] facts h = absurd (ground (arith, h))
  find_context-Chosen seen (e ∷ rest) facts h =
      of (get "key" e) refl (find_context-Chosen seen rest facts)
        (λ k. find_context-Chosen (k ∷ seen) rest facts) h
    where
      of :
          (key : Json)
          → get "key" e ≡ key
          → (find_context py tool target seen rest ≡ some facts
              → Chosen py tool target seen rest facts)
          → ((k : String)
              → find_context py tool target (k ∷ seen) rest ≡ some facts
              → Chosen py tool target (k ∷ seen) rest facts)
          → (elim key [
            | str k ↦
                (if contains seen k
                  then find_context py tool target seen rest
                  else (if supports py tool target e
                      then some (get_in "data" (get "context" e))
                      else find_context py tool target (k ∷ seen) rest))
            | _ ↦
                (if supports py tool target e
                  then some (get_in "data" (get "context" e))
                  else find_context py tool target seen rest)
          ])
            ≡ some facts
          → Chosen py tool target seen (e ∷ rest) facts
      of (str k) key skip later = keyed k seen e rest facts key skip (later k)
      of null key skip later = unkeyed seen e rest facts (λ k q. ground (arith, key, q)) skip
      of (bool b) key skip later = unkeyed seen e rest facts (λ k q. ground (arith, key, q)) skip
      of (num x) key skip later = unkeyed seen e rest facts (λ k q. ground (arith, key, q)) skip
      of (arr xs) key skip later = unkeyed seen e rest facts (λ k q. ground (arith, key, q)) skip
      of (obj fs) key skip later = unkeyed seen e rest facts (λ k q. ground (arith, key, q)) skip
