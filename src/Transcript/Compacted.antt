-- ===== src/Transcript/Compacted.antt =====
-- What `compact_transcript` of execution_engine/agent/gateway_request.py keeps of a conversation.
use execution_engine.Common.{
  ℕ, zero, suc, ◌≤◌, ◌<◌, ◌≡◌, ◌⊎◌, inl, inr, false≢true, refl, ◌∙◌, String, Bool, true, false,
  Option, none, some, List, [], ◌∷◌, arith, ltb, length, any, Bool-cases, Option-cases,
}
use execution_engine.Transcript.Turns.{
  AssistantPart, ToolCallPart, ToolResult, TranscriptTurn, user, assistant, tool_results, calls_of,
}
use execution_engine.Transcript.Grammar
use execution_engine.Transcript.Grammar.{Grammar}
use execution_engine.Transcript.Compaction.{
  has_calls, is_user, has_exchange, keep_turn, drop_assistant, drop_user, remove_turns,
  compact_loop, compact_transcript,
}

module _ {J : Type 0} where
  -- the text of the last user turn
  unfoldable pub last_user : List (TranscriptTurn J) → Option String
  last_user [] = none
  last_user (user t ∷ ts) = elim (last_user ts) [ none ↦ some t | some u ↦ some u ]
  last_user (assistant parts ∷ ts) = last_user ts
  last_user (tool_results rs ∷ ts) = last_user ts

  -- what an eviction from `ts` leaves: fewer turns, in the grammar, with the same last user turn
  record Kept (ts us : List (TranscriptTurn J)) : Type 0 where
    grammar : Grammar us
    fewer : length us < length ts
    same_user : last_user us ≡ last_user ts

  abbrev Keeps : List (TranscriptTurn J) → Option (List (TranscriptTurn J)) → Type 0
  Keeps ts none = Unit
  Keeps ts (some us) = Kept ts us

  Keeps-user :
      (t : String) (ts : List (TranscriptTurn J)) (o : Option (List (TranscriptTurn J)))
      → Keeps ts o
      → Keeps (user t ∷ ts) (keep_turn (user t) o)
  unfolding keep_turn last_user
  Keeps-user t ts none k = tt
  Keeps-user t ts (some us) k = record {
    grammar = Grammar.asks t us k.grammar;
    fewer = omega (arith, k.fewer);
    same_user = rw k.same_user refl;
  }

  Keeps-group :
      (parts : List (AssistantPart J)) (c : ToolCallPart J) (cs : List (ToolCallPart J))
      (rs : List (ToolResult J)) (ts : List (TranscriptTurn J))
      (o : Option (List (TranscriptTurn J)))
      → calls_of parts ≡ c ∷ cs
      → Grammar.Answers (c ∷ cs) rs
      → Keeps ts o
      → Keeps
          (assistant parts ∷ tool_results rs ∷ ts)
          (keep_turn (assistant parts) (keep_turn (tool_results rs) o))
  unfolding keep_turn last_user
  Keeps-group parts c cs rs ts none e a k = tt
  Keeps-group parts c cs rs ts (some us) e a k = record {
    grammar = Grammar.acts parts c cs rs us e a k.grammar;
    fewer = omega (arith, k.fewer);
    same_user = k.same_user;
  }

  -- a closed group goes whole
  Keeps-exchange :
      (parts : List (AssistantPart J)) (rs : List (ToolResult J)) (ts : List (TranscriptTurn J))
      → Grammar ts
      → Keeps (assistant parts ∷ tool_results rs ∷ ts) (some ts)
  unfolding last_user
  Keeps-exchange parts rs ts g = record { grammar = g; fewer = omega arith; same_user = refl }

  speaks_alone : (parts : List (AssistantPart J)) → calls_of parts ≡ [] → has_calls parts ≡ false
  unfolding has_calls
  speaks_alone parts e = rw (e, has_calls) refl

  acts_calls :
      (parts : List (AssistantPart J)) (c : ToolCallPart J) (cs : List (ToolCallPart J))
      → calls_of parts ≡ c ∷ cs
      → has_calls parts ≡ true
  unfolding has_calls
  acts_calls parts c cs e = rw (e, has_calls) refl

  drop_assistant-Keeps : (ts : List (TranscriptTurn J)) → Grammar ts → Keeps ts (drop_assistant ts)
  unfolding drop_assistant last_user
  drop_assistant-Keeps [] g = tt
  drop_assistant-Keeps (user t ∷ ts) (Grammar.asks _ _ g) =
      Keeps-user t ts (drop_assistant ts) (drop_assistant-Keeps ts g)
  drop_assistant-Keeps (tool_results rs ∷ ts) g = elim g [ ]
  drop_assistant-Keeps (assistant parts ∷ []) g = tt
  drop_assistant-Keeps (assistant parts ∷ user t ∷ ts) (Grammar.speaks _ _ e g) =
      rw (speaks_alone parts e) (record { grammar = g; fewer = omega arith; same_user = refl })
  drop_assistant-Keeps (assistant parts ∷ assistant ps ∷ ts) (Grammar.speaks _ _ e g) =
      rw (speaks_alone parts e) (record { grammar = g; fewer = omega arith; same_user = refl })
  drop_assistant-Keeps (assistant parts ∷ tool_results rs ∷ ts) (Grammar.speaks _ _ e g) =
      elim g [ ]
  drop_assistant-Keeps (assistant parts ∷ tool_results rs ∷ ts) (Grammar.acts _ c cs _ _ e a g) =
      let later =
        Keeps-group parts c cs rs ts (drop_assistant ts) e a (drop_assistant-Keeps ts g) in
      rw (acts_calls parts c cs e) (elim (Bool-cases (has_exchange ts)) [
        | inl h ↦ rw h (Keeps-exchange parts rs ts g)
        | inr h ↦ rw h later
      ])

  Keeps-speaks :
      (parts : List (AssistantPart J)) (ts : List (TranscriptTurn J))
      (o : Option (List (TranscriptTurn J)))
      → calls_of parts ≡ []
      → Keeps ts o
      → Keeps (assistant parts ∷ ts) (keep_turn (assistant parts) o)
  unfolding keep_turn last_user
  Keeps-speaks parts ts none e k = tt
  Keeps-speaks parts ts (some us) e k = record {
    grammar = Grammar.speaks parts us e k.grammar;
    fewer = omega (arith, k.fewer);
    same_user = k.same_user;
  }

  some_user :
      (ts : List (TranscriptTurn J))
      → any is_user ts ≡ true
      → (u : String) × (last_user ts ≡ some u)
  unfolding any is_user last_user
  some_user [] h = absurd (false≢true h)
  some_user (user t ∷ ts) h = elim (Option-cases (last_user ts)) [
    | inl e ↦ (t, rw e refl)
    | inr (u, e) ↦ (u, rw e refl)
  ]
  some_user (assistant parts ∷ ts) h = some_user ts h
  some_user (tool_results rs ∷ ts) h = some_user ts h

  -- a user turn goes that has a later one
  Keeps-older :
      (t : String) (ts : List (TranscriptTurn J))
      → Grammar ts
      → (u : String) × (last_user ts ≡ some u)
      → Keeps (user t ∷ ts) (some ts)
  unfolding last_user
  Keeps-older t ts g (u, e) = record {
    grammar = g;
    fewer = omega arith;
    same_user = rw (e, last_user) refl;
  }

  drop_user-Keeps : (ts : List (TranscriptTurn J)) → Grammar ts → Keeps ts (drop_user ts)
  unfolding drop_user last_user is_user any
  drop_user-Keeps [] g = tt
  drop_user-Keeps (user t ∷ ts) (Grammar.asks _ _ g) =
      let later = Keeps-user t ts (drop_user ts) (drop_user-Keeps ts g) in
      elim (Bool-cases (any is_user ts)) [
        | inl h ↦ rw h (Keeps-older t ts g (some_user ts h))
        | inr h ↦ rw h later
      ]
  drop_user-Keeps (assistant parts ∷ ts) (Grammar.speaks _ _ e g) =
      Keeps-speaks parts ts (drop_user ts) e (drop_user-Keeps ts g)
  drop_user-Keeps (assistant parts ∷ tool_results rs ∷ ts) (Grammar.acts _ c cs _ _ e a g) =
      Keeps-group parts c cs rs ts (drop_user ts) e a (drop_user-Keeps ts g)
  drop_user-Keeps (tool_results rs ∷ ts) g = elim g [ ]

  remove_turns-Keeps : (ts : List (TranscriptTurn J)) → Grammar ts → Keeps ts (remove_turns ts)
  unfolding remove_turns
  remove_turns-Keeps ts g = pick (drop_assistant ts) (drop_assistant-Keeps ts g)
    where
      pick :
          (o : Option (List (TranscriptTurn J)))
          → Keeps ts o
          → Keeps ts (elim o [ some us ↦ some us | none ↦ drop_user ts ])
      pick none k = drop_user-Keeps ts g
      pick (some us) k = k

  module _ (serialized_bytes : List (TranscriptTurn J) → ℕ) (max_bytes : ℕ) where
    -- the same last user turn, in the grammar, and small enough unless nothing can go
    pub record Compact (ts us : List (TranscriptTurn J)) : Type 0 where
      pub grammar : Grammar us
      pub same_user : last_user us ≡ last_user ts
      pub settled : (serialized_bytes us ≤ max_bytes) ⊎ (remove_turns us ≡ none)

    stays :
        (ts : List (TranscriptTurn J))
        → Grammar ts
        → (serialized_bytes ts ≤ max_bytes) ⊎ (remove_turns ts ≡ none)
        → Compact ts ts
    stays ts g h = record { grammar = g; same_user = refl; settled = h }

    after_removal :
        (fuel : ℕ) (ts : List (TranscriptTurn J)) (o : Option (List (TranscriptTurn J)))
        → Grammar ts
        → length ts ≤ suc fuel
        → remove_turns ts ≡ o
        → Keeps ts o
        → ((us : List (TranscriptTurn J))
            → length us ≤ fuel
            → Grammar us
            → Compact us (compact_loop serialized_bytes max_bytes fuel us))
        → Compact ts
            (elim o [ none ↦ ts | some us ↦ compact_loop serialized_bytes max_bytes fuel us ])
    after_removal fuel ts none g h e k go = stays ts g (inr e)
    after_removal fuel ts (some us) g h e k go =
        let rest = go us (omega (arith, k.fewer, h)) k.grammar in
        record {
          grammar = rest.grammar;
          same_user = rest.same_user ∙ k.same_user;
          settled = rest.settled;
        }

    after_test :
        (next : List (TranscriptTurn J)) (ts : List (TranscriptTurn J)) (b : Bool)
        → ltb max_bytes (serialized_bytes ts) ≡ b
        → Grammar ts
        → Compact ts next
        → Compact ts (elim b [ false ↦ ts | true ↦ next ])
    after_test next ts true e g k = k
    after_test next ts false e g k = stays ts g (inl (ground (arith, e)))

    compact_loop-Compact :
        (fuel : ℕ) (ts : List (TranscriptTurn J))
        → length ts ≤ fuel
        → Grammar ts
        → Compact ts (compact_loop serialized_bytes max_bytes fuel ts)
    unfolding compact_loop remove_turns drop_assistant drop_user
    compact_loop-Compact zero [] h g = stays [] g (inr refl)
    compact_loop-Compact zero (t ∷ ts) h g = absurd (omega arith)
    compact_loop-Compact (suc fuel) ts h g =
        after_test _ ts (ltb max_bytes (serialized_bytes ts)) refl g (
          after_removal fuel ts (remove_turns ts) g h refl (remove_turns-Keeps ts g)
            (compact_loop-Compact fuel))

    -- Compaction of turns in which every group of tool calls is answered by the turn after it leaves
    -- such turns, whose last user turn is the same; and they fit the bound, or no turn or exchange is
    -- left that may be removed.
    pub compact_transcript-Compact :
        (ts : List (TranscriptTurn J))
        → Grammar ts
        → Compact ts (compact_transcript serialized_bytes max_bytes ts)
    unfolding compact_transcript
    compact_transcript-Compact ts g = compact_loop-Compact (length ts) ts (omega arith) g
