-- ===== src/Agent/Evidence/Eviction.antt =====
-- One eviction of `merge_evidence` of execution_engine/agent/tool_context.py.
use execution_engine.Common.{
  ℕ, ◌+◌, ◌≤◌, ◌≡◌, ◌≢◌, inl, inr, true, Option, none, some, List, [], ◌∷◌, refl, sym, arith, any,
  length, if◌then◌else◌, Bool-cases, Option-cases,
}
use execution_engine.Agent.Evidence.Ledger.{
  Protection, error, write_receipt, verification, Entry, same_class, has_class, drop_unprotected,
  drop_superseded, evict,
}

same_class→eq : (p q : Protection) → same_class p q ≡ true → p ≡ q
unfolding same_class
same_class→eq error error h = refl
same_class→eq write_receipt write_receipt h = refl
same_class→eq verification verification h = refl
same_class→eq _ _ h = ground arith

module _ {B : Type 0} where
  -- the newest entry of a class
  unfoldable pub newest : Protection → List (Entry B) → Option (Entry B)
  newest p [] = none
  newest p (e ∷ es) = elim (newest p es) [
    | some x ↦ some x
    | none ↦ if has_class p e then some e else none
  ]

  newest-any :
      (p : Protection) (l : List (Entry B)) → any (has_class p) l ≡ true → newest p l ≢ none
  unfolding newest any
  newest-any p [] h = ground arith
  newest-any p (e ∷ es) h = ground (arith, newest-any p es)

  length-drop_unprotected :
      (l m : List (Entry B)) → drop_unprotected l ≡ some m → length l ≡ length m + 1
  unfolding drop_unprotected
  length-drop_unprotected [] m h = ground arith
  length-drop_unprotected (e ∷ es) m h = elim (Option-cases (drop_unprotected es)) [
    | inl stop ↦ ground (arith, stop)
    | inr (rest, more) ↦ ground (arith, more, length-drop_unprotected es rest more)
  ]

  newest-drop_unprotected :
      (p : Protection) (l m : List (Entry B))
      → drop_unprotected l ≡ some m
      → newest p m ≡ newest p l
  unfolding drop_unprotected newest has_class
  newest-drop_unprotected p [] m h = ground arith
  newest-drop_unprotected p (e ∷ es) m h = elim (Option-cases (drop_unprotected es)) [
    | inl stop ↦ ground (arith, stop)
    | inr (rest, more) ↦ ground (arith, more, newest-drop_unprotected p es rest more)
  ]

  length-drop_superseded :
      (l m : List (Entry B)) → drop_superseded l ≡ some m → length l ≡ length m + 1
  unfolding drop_superseded
  length-drop_superseded [] m h = ground arith
  length-drop_superseded (e ∷ es) m h = elim (Option-cases (drop_superseded es)) [
    | inl stop ↦ ground (arith, stop)
    | inr (rest, more) ↦ ground (arith, more, length-drop_superseded es rest more)
  ]

  newest-superseded :
      (p q : Protection) (e : Entry B) (es : List (Entry B))
      → e.protection ≡ some q
      → any (has_class q) es ≡ true
      → newest p (e ∷ es) ≡ newest p es
  unfolding newest has_class
  newest-superseded p q e es is_q later = elim (Option-cases (newest p es)) [
    | inr (x, found) ↦ rw found
    | inl none' ↦ elim (Bool-cases (same_class p q)) [
      | inl same ↦
          let later_p : any (has_class p) es ≡ true = rw (same_class→eq p q same) later in
          absurd (newest-any p es later_p none')
      | inr other ↦ ground (arith, none', is_q, other)
    ]
  ]

  newest-cons :
      (p : Protection) (e : Entry B) (l m : List (Entry B))
      → newest p l ≡ newest p m
      → newest p (e ∷ l) ≡ newest p (e ∷ m)
  unfolding newest
  newest-cons p e l m h = rw h

  newest-drop_superseded :
      (p : Protection) (l m : List (Entry B)) → drop_superseded l ≡ some m → newest p m ≡ newest p l
  unfolding drop_superseded
  newest-drop_superseded p [] m h = ground arith
  newest-drop_superseded p (e ∷ es) m h = elim (Option-cases e.protection) [
    | inl free ↦ elim (Option-cases (drop_superseded es)) [
      | inl stop ↦ ground (arith, free, stop)
      | inr (rest, more) ↦
          let kept : e ∷ rest ≡ m = ground (arith, free, more) in
          rw (← kept) (newest-cons p e rest es (newest-drop_superseded p es rest more))
    ]
    | inr (q, is_q) ↦ elim (Bool-cases (any (has_class q) es)) [
      | inl later ↦
          let taken : es ≡ m = ground (arith, is_q, later) in
          rw (← taken) (sym (newest-superseded p q e es is_q later))
      | inr last ↦ elim (Option-cases (drop_superseded es)) [
        | inl stop ↦ ground (arith, is_q, last, stop)
        | inr (rest, more) ↦
            let kept : e ∷ rest ≡ m = ground (arith, is_q, last, more) in
            rw (← kept) (newest-cons p e rest es (newest-drop_superseded p es rest more))
      ]
    ]
  ]

  -- An eviction takes one entry, and the newest entry of every protection class stays the newest.
  pub evict_keeps_newest :
      (p : Protection) (l m : List (Entry B))
      → evict l ≡ some m
      → (length l ≡ length m + 1) × (newest p m ≡ newest p l)
  unfolding evict
  evict_keeps_newest p l m h = elim (Option-cases (drop_unprotected l)) [
    | inr (k, free) ↦
        let same : k ≡ m = ground (arith, free) in
        rw (← same) (length-drop_unprotected l k free, newest-drop_unprotected p l k free)
    | inl all ↦
        let second : drop_superseded l ≡ some m = ground (arith, all) in
        (length-drop_superseded l m second, newest-drop_superseded p l m second)
  ]

  abbrev present : Protection → List (Entry B) → ℕ
  present p l = if any (has_class p) l then 1 else 0

  one_of_each_class :
      (l : List (Entry B))
      → drop_unprotected l ≡ none
      → drop_superseded l ≡ none
      → length l ≤ present error l + present write_receipt l + present verification l
  unfolding drop_unprotected drop_superseded any has_class same_class
  one_of_each_class [] a b = omega arith
  one_of_each_class (e ∷ es) a b = elim (Option-cases e.protection) [
    | inl free ↦ ground (arith, free)
    | inr (error, is_q) ↦ ground (arith, is_q, one_of_each_class es)
    | inr (write_receipt, is_q) ↦ ground (arith, is_q, one_of_each_class es)
    | inr (verification, is_q) ↦ ground (arith, is_q, one_of_each_class es)
  ]

  -- A ledger that offers nothing to evict has at most one entry of each of the three classes.
  pub evict-none : (l : List (Entry B)) → evict l ≡ none → length l ≤ 3
  unfolding evict
  evict-none l h =
      let a : drop_unprotected l ≡ none = ground arith in
      let b : drop_superseded l ≡ none = ground (arith, a) in
      ground (arith, one_of_each_class l a b)
