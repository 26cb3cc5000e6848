-- ===== src/Registry/Idempotency.antt =====
-- A run id is an idempotency key: what `get_or_create` answers to a repeated dispatch.
use execution_engine.Common.{
  ℕ, ◌≡◌, ◌⊎◌, inl, inr, subst, ◌∙◌, String, false, some, arith, eq_refl, if◌then◌else◌, Bool-cases,
  Option-cases,
}
use execution_engine.Common.Dict.{lookup, lookup-insert}
use execution_engine.Durability.Records.{PersistedRun, Fetch, missing, found, invalid}
use execution_engine.Durability.Redis.{Redis}
use execution_engine.Durability.Store.{DurabilityStore, get_run, reserve_run, acquire_run_lock}
use execution_engine.Registry.Identity.{RunKey, key_eq, runs_get}
use execution_engine.Registry.KeyEquality.{key_eq→eq, runs_get-runs_set}
use execution_engine.Registry.State.{
  RunState, Ref, Settings, Registry, new_run, persisted_key, persisted_of, state_from_persisted,
}
use execution_engine.Registry.Scheduling.{persist_state}
use execution_engine.Registry.Completion.{register}
use execution_engine.Registry.Lifecycle.{
  Outcome, created, existing, refused_draining, different_identity, corrupt, adopt, adopt_winner,
  reserve, look_up_or_reserve, create_run, known_run, get_or_create,
}

-- the local answer to a key once `known` is registered at `ref`
abbrev pub repeated : RunKey → RunKey → Ref → Outcome
repeated known key ref = if key_eq known key then existing ref else different_identity

-- the run `key` is registered at `ref`, and no drain has begun
record IsKnown {r : Redis} (key : RunKey) (ref : Ref) (g : Registry r) : Type 0 where
  open' : g.draining ≡ false
  by_id : lookup key.run_id g.run_id_to_key ≡ some key
  by_key : runs_get key g.runs ≡ some ref

abbrev Answer : {r : Redis} → RunKey → Registry r → Outcome → Type 0
Answer key g (created ref) = IsKnown key ref g
Answer key g (existing ref) = IsKnown key ref g
Answer key g _ = Unit

abbrev Good : {r : Redis} → RunKey → Registry r × Outcome → Type 0
Good key res = Answer key res.0 res.1

identity-state_from_persisted :
    (p : PersistedRun) (owner : String) (s : RunState)
    → state_from_persisted p owner ≡ some s
    → s.identity_key ≡ persisted_key p
unfolding state_from_persisted
identity-state_from_persisted p owner s e = ground arith

module _ {r : Redis} (cfg : Settings) (now : ℕ) (uuid : ℕ → String) where
  register-IsKnown :
      (s : RunState) (g : Registry r)
      → g.draining ≡ false
      → IsKnown s.identity_key g.next_ref (register cfg now uuid s g)
  unfolding register
  register-IsKnown s g h = record {
    open' = h;
    by_id = rw (lookup-insert, eq_refl);
    by_key = runs_get-runs_set s.identity_key g.next_ref g.runs;
  }

  IsKnown-repeated :
      (key key' : RunKey) (ref : Ref) (g : Registry r)
      → key'.run_id ≡ key.run_id
      → IsKnown key ref g
      → get_or_create cfg now uuid key' g ≡ (g, repeated key key' ref)
  unfolding get_or_create
  IsKnown-repeated key key' ref g same k = rw same (ground (arith, k.open', k.by_id, k.by_key))

  adopt-Good :
      (key : RunKey) (p : PersistedRun) (g : Registry r)
      → g.draining ≡ false
      → Good key (adopt cfg now uuid key p g)
  unfolding adopt
  adopt-Good key p g h = elim (Bool-cases (key_eq (persisted_key p) key)) [
    | inr other ↦ subst (Good key) {x = (g, different_identity)} (ground (arith, other)) tt
    | inl same ↦ elim (Option-cases (state_from_persisted p (uuid g.next_ref))) [
      | inl bad ↦ subst (Good key) {x = (g, corrupt)} (ground (arith, same, bad)) tt
      | inr (s, good) ↦
          let is_key : s.identity_key ≡ key =
            identity-state_from_persisted p (uuid g.next_ref) s good
            ∙ key_eq→eq (persisted_key p) key same in
          let known : Good key (register cfg now uuid s g, existing g.next_ref) =
            subst (λ k. IsKnown k g.next_ref (register cfg now uuid s g)) is_key
              (register-IsKnown s g h) in
          subst (Good key) {x = (register cfg now uuid s g, existing g.next_ref)}
            (ground (arith, same, good)) known
    ]
  ]

  adopt_winner-Good :
      (key : RunKey) (f : Fetch PersistedRun) (g : Registry r)
      → g.draining ≡ false
      → Good key (adopt_winner cfg now uuid key f g)
  unfolding adopt_winner
  adopt_winner-Good key missing g h = tt
  adopt_winner-Good key (found p) g h = adopt-Good key p g h
  adopt_winner-Good key invalid g h = tt

  reserve-Good :
      (key : RunKey) (d : DurabilityStore r) (g : Registry r)
      → g.draining ≡ false
      → Good key (reserve cfg now uuid key d g)
  unfolding reserve new_run
  reserve-Good key d g h =
      let s = new_run key (uuid g.next_ref) now in
      let d1 = (reserve_run r d (persisted_of s)).0 in
      let d2 = (acquire_run_lock r d1 now key.run_id g.owner_id cfg.run_id_lock_ttl_seconds).0 in
      elim (Bool-cases (reserve_run r d (persisted_of s)).1) [
        | inl won ↦
            let g2 = record g { durability_store = some d2 } in
            subst (Good key) {x = (register cfg now uuid s g2, created g.next_ref)}
              (ground (arith, won)) (register-IsKnown s g2 h)
        | inr lost ↦ subst (Good key) (ground (arith, lost)) (
            adopt_winner-Good key (get_run r d1 key.run_id)
              (record g { durability_store = some d1 }) h)
      ]

  look_up_or_reserve-Good :
      (key : RunKey) (d : DurabilityStore r) (f : Fetch PersistedRun) (g : Registry r)
      → g.draining ≡ false
      → Good key (look_up_or_reserve cfg now uuid key d f g)
  unfolding look_up_or_reserve
  look_up_or_reserve-Good key d missing g h = reserve-Good key d g h
  look_up_or_reserve-Good key d (found p) g h = adopt-Good key p g h
  look_up_or_reserve-Good key d invalid g h = tt

  persist_state-IsKnown :
      (key : RunKey) (ref at : Ref) (g : Registry r)
      → IsKnown key ref g
      → IsKnown key ref (persist_state cfg now at g)
  unfolding persist_state
  persist_state-IsKnown key ref at g k = record {
    open' = ground (arith, k.open');
    by_id = ground (arith, k.by_id);
    by_key = ground (arith, k.by_key);
  }

  create_run-Good :
      (key : RunKey) (g : Registry r)
      → g.draining ≡ false
      → Good key (create_run cfg now uuid key g)
  unfolding create_run new_run
  create_run-Good key g h = elim (Option-cases g.durability_store) [
    | inl memory ↦
        let s = new_run key (uuid g.next_ref) now in
        let known =
          persist_state-IsKnown key g.next_ref g.next_ref (register cfg now uuid s g)
            (register-IsKnown s g h) in
        subst (Good key)
          {x = (persist_state cfg now g.next_ref (register cfg now uuid s g), created g.next_ref)}
          (ground (arith, memory)) known
    | inr (d, store) ↦
        subst (Good key) (ground (arith, store))
          (look_up_or_reserve-Good key d (get_run r d key.run_id) g h)
  ]

  known_run-Good :
      (key known : RunKey) (g : Registry r)
      → g.draining ≡ false
      → lookup key.run_id g.run_id_to_key ≡ some known
      → Good key (g, known_run cfg now uuid key known g)
  unfolding known_run
  known_run-Good key known g h e = elim (Bool-cases (key_eq known key)) [
    | inr other ↦ subst (Answer key g) {x = different_identity} (ground (arith, other)) tt
    | inl same ↦
        let is_key = key_eq→eq known key same in
        elim (Option-cases (runs_get known g.runs)) [
          | inl bad ↦ subst (Answer key g) {x = corrupt} (ground (arith, same, bad)) tt
          | inr (ref, there) ↦
              let k : IsKnown key ref g = record {
                open' = h;
                by_id = ground (arith, e, is_key);
                by_key = rw (← is_key) there;
              } in
              subst (Answer key g) {x = existing ref} (ground (arith, same, there)) k
        ]
  ]

  get_or_create-Good : (key : RunKey) (g : Registry r) → Good key (get_or_create cfg now uuid key g)
  unfolding get_or_create
  get_or_create-Good key g = elim (Bool-cases g.draining) [
    | inl closed ↦ subst (Good key) {x = (g, refused_draining)} (ground (arith, closed)) tt
    | inr h ↦ elim (Option-cases (lookup key.run_id g.run_id_to_key)) [
      | inl new ↦ subst (Good key) (ground (arith, h, new)) (create_run-Good key g h)
      | inr (known, e) ↦
          subst (Good key) {x = (g, known_run cfg now uuid key known g)} (ground (arith, h, e))
            (known_run-Good key known g h e)
    ]
  ]

  Good-intro :
      (key : RunKey) (res : Registry r × Outcome) (ref : Ref)
      → (res.1 ≡ created ref) ⊎ (res.1 ≡ existing ref)
      → Good key res
      → IsKnown key ref res.0
  Good-intro key (g, out) ref (inl e) k = subst (Answer key g) e k
  Good-intro key (g, out) ref (inr e) k = subst (Answer key g) e k

  -- Once a dispatch has got a run, whether it was created, found locally or adopted from the
  -- store, a repeated dispatch of the same identity gets that run and changes nothing, and a
  -- dispatch of its run id with another identity is refused and changes nothing.
  pub get_or_create_idempotent :
      (key key' : RunKey) (g : Registry r) (ref : Ref)
      → key'.run_id ≡ key.run_id
      → ((get_or_create cfg now uuid key g).1 ≡ created ref)
        ⊎ ((get_or_create cfg now uuid key g).1 ≡ existing ref)
      → get_or_create cfg now uuid key' (get_or_create cfg now uuid key g).0
        ≡ ((get_or_create cfg now uuid key g).0, repeated key key' ref)
  get_or_create_idempotent key key' g ref same got =
      IsKnown-repeated key key' ref (get_or_create cfg now uuid key g).0 same
        (Good-intro key (get_or_create cfg now uuid key g) ref got (get_or_create-Good key g))
