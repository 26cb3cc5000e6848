-- ===== src/Registry/Replays.antt =====
-- What the replay of durable work in execution_engine/run_registry.py keeps in order.
use execution_engine.Common.{
  ℕ, suc, ◌≡◌, refl, ap, sym, ◌∙◌, false≢true, String, Bool, true, false, none, some, List, [], ◌∷◌,
  ◌⊎◌, inl, inr, take, contains, arith,
}
use execution_engine.Durability.Redis.{Redis, Laws}
use execution_engine.Durability.Records.{
  PersistedRun, Field, found, event_hash_key, event_pending_key,
}
use execution_engine.Registry.Persistence.{persist_state_durable}
use execution_engine.Registry.Identity.{RunStatus, status_of, status_value}
use execution_engine.Registry.Restart.{fail_state, persist_failed, fail_run}
use execution_engine.Durability.Store.{DurabilityStore, get_run}
use execution_engine.Durability.Outbox.{list_pending_events, read_pending}
use execution_engine.Registry.State.{
  RunState, Ref, Settings, Registry, persisted_of, persisted_key, new_run, state_from_persisted,
  put_object, get_by_run_id,
}
use execution_engine.Registry.Recovery.{
  Delivery, Claim, unclaimed, held, Replay, recovery_claim, under_claim, with_claim, put_store,
  replay_commit,
}

-- no event is pending, or the oldest member of the index is stale
abbrev pub NoneFirst : {r : Redis} → DurabilityStore r → String → Type 0
NoneFirst {r} d id =
    (r.zmembers d.db (event_pending_key id) ≡ [])
    ⊎ ((f : Field) × (fs : List Field) × (r.zmembers d.db (event_pending_key id) ≡ f ∷ fs)
        × (r.hget d.db (event_hash_key id) f ≡ none))

module _ {r : Redis} (cfg : Settings) (now : ℕ) where
  claimed_unscheduled :
      (id owner : String) (delivery : Bool) (d : DurabilityStore r) (g : Registry r) (b : Bool)
      → (recovery_claim cfg now id owner delivery d g).1 ≡ held b
      → contains g.scheduled id ≡ false
  unfolding recovery_claim
  claimed_unscheduled id owner delivery d g b h = ground (arith, h)

  -- a member whose read gives nothing is stale
  stale_member :
      (id : String) (d : DurabilityStore r) (f : Field)
      → (read_pending r d.db id (f ∷ [])).1 ≡ some []
      → r.hget d.db (event_hash_key id) f ≡ none
  unfolding read_pending
  stale_member id d f h = ground (arith, h)

  -- a read of at most one event that is empty has met no member, or a stale one
  first_pending :
      (id : String) (d : DurabilityStore r)
      → (list_pending_events r d id 1).1 ≡ some []
      → NoneFirst d id
  unfolding list_pending_events read_pending
  first_pending id d h = of (r.zmembers d.db (event_pending_key id)) refl h
    where
      of :
          (ms : List Field)
          → r.zmembers d.db (event_pending_key id) ≡ ms
          → (read_pending r d.db id (take 1 ms)).1 ≡ some []
          → NoneFirst d id
      of [] e read = inl e
      of (f ∷ fs) e read = inr (f, fs, e, stale_member id d f read)

  replay_commit_called :
      (send : Delivery r) (id : String) (d : DurabilityStore r) (g : Registry r)
      → (replay_commit cfg now send id d g).called ≡ true
      → (list_pending_events r d id 1).1 ≡ some []
  unfolding replay_commit
  replay_commit_called send id d g h = ground (arith, h)

  under_claim_called :
      (send : Delivery r) (id owner : String) (d : DurabilityStore r) (g : Registry r) (c : Claim)
      → (under_claim cfg now c id owner (replay_commit cfg now send id) d g).called ≡ true
      → (c ≡ held true) × ((list_pending_events r d id 1).1 ≡ some [])
  unfolding under_claim
  under_claim_called send id owner d g unclaimed h = absurd (false≢true h)
  under_claim_called send id owner d g (held false) h = absurd (false≢true h)
  under_claim_called send id owner d g (held true) h =
      (refl, replay_commit_called send id d (put_store d g) h)

  -- If the replay of a terminal commit calls the control plane, then the run was not scheduled here,
  -- its recovery claim was held with leave to work, and under the claim the pending index of its events
  -- was empty, or its oldest member was stale: it had no stored event.
  pub commit_after_events :
      (send : Delivery r) (id owner : String) (d : DurabilityStore r) (g : Registry r)
      → (with_claim cfg now id owner true (replay_commit cfg now send id) d g).called ≡ true
      → (contains g.scheduled id ≡ false)
        × ((recovery_claim cfg now id owner true d g).1 ≡ held true)
        × NoneFirst (recovery_claim cfg now id owner true d g).0 id
  unfolding with_claim
  commit_after_events send id owner d g h =
      let claimed = recovery_claim cfg now id owner true d g in
      let (own, none_pending) = under_claim_called send id owner claimed.0 g claimed.1 h in
      (claimed_unscheduled id owner true d g true own, own, first_pending id claimed.0 none_pending)

-- the record of a run that a restart has failed
abbrev pub failed_record : PersistedRun → ℕ → ℕ → PersistedRun
failed_record p started ended = record p {
  status = "failed";
  started_at = some started;
  ended_at = some ended;
}

module _ (r : Redis) (laws : Laws r) (cfg : Settings) (now : ℕ) (uuid : ℕ → String) where
  object_written :
      (ref : Ref) (s : RunState) (g : Registry r) → (put_object ref s g).objects ref ≡ s
  unfolding put_object
  object_written ref s g = ground arith

  persist_failed_durable :
      (started ended : ℕ) (ref : Ref) (s : RunState) (g : Registry r) (d : DurabilityStore r)
      → g.durability_store ≡ some d
      → g.objects ref ≡ s
      → s.execution_lock_lost ≡ false
      → (d' : DurabilityStore r) × ((persist_failed cfg now started ended ref
            g).registry.durability_store
          ≡ some d')
        × (get_run r d' s.run_id ≡ found (persisted_of (fail_state started ended s)))
  unfolding persist_failed
  persist_failed_durable started ended ref s g d store o live =
      let s' = fail_state started ended (g.objects ref) in
      let g' = put_object ref s' g in
      let e : g'.objects ref ≡ fail_state started ended s =
        object_written ref s' g ∙ ap (fail_state started ended) o in
      let stored : g'.durability_store ≡ some d = unfold put_object in store in
      let kept : (fail_state started ended s).execution_lock_lost ≡ false =
        unfold fail_state in live in
      let same_id : (fail_state started ended s).run_id ≡ s.run_id = unfold fail_state in refl in
      let (d', same, read) =
        persist_state_durable r laws cfg now g' d ref stored
          (ap (λ (t : RunState). t.execution_lock_lost) e ∙ kept) in
      (
        d',
        same,
        ap (get_run r d') (sym (ap (λ (t : RunState). t.run_id) e ∙ same_id))
            ∙ read
            ∙ ap (λ (t : RunState). found (persisted_of t)) e,
      )

  -- the object of a run that is read back
  read_back : PersistedRun → RunStatus → String → RunState
  unfolding new_run persisted_key
  read_back p st id = record (new_run (persisted_key p) id p.created_at) {
    status = st;
    started_at = p.started_at;
    ended_at = p.ended_at;
  }

  fail_run_fresh :
      (p : PersistedRun) (started ended : ℕ) (g : Registry r) (st : RunStatus)
      → get_by_run_id g p.run_id ≡ none
      → status_of p.status ≡ some st
      → fail_run cfg now uuid p started ended g
        ≡ persist_failed cfg now started ended g.next_ref
            (record (put_object g.next_ref (read_back p st (uuid g.next_ref)) g) {
              next_ref = suc g.next_ref;
            })
  unfolding fail_run state_from_persisted read_back
  fail_run_fresh p started ended g st absent known = ground (arith, absent, known)

  -- A run whose stored status is a known one, and that has no local object when a restart
  -- fails it, is stored as failed, with the given start and end, and as it was in all else.
  pub fail_run_durable :
      (p : PersistedRun) (started ended : ℕ) (g : Registry r) (d : DurabilityStore r)
      (st : RunStatus)
      → g.durability_store ≡ some d
      → get_by_run_id g p.run_id ≡ none
      → status_of p.status ≡ some st
      → (d' : DurabilityStore r) × ((fail_run cfg now uuid p started ended
            g).registry.durability_store
          ≡ some d')
        × (get_run r d' p.run_id ≡ found (failed_record p started ended))
        × ((fail_run cfg now uuid p started ended g).delivered ≡ 1)
  unfolding read_back new_run persisted_key fail_state persisted_of status_value persist_failed
  fail_run_durable p started ended g d st store absent known =
      let s = read_back p st (uuid g.next_ref) in
      let g' : Registry r = record (put_object g.next_ref s g) { next_ref = suc g.next_ref } in
      let (d', same, read) =
        persist_failed_durable started ended g.next_ref s g' d (unfold put_object in store)
          (object_written g.next_ref s g) refl in
      let run = fail_run_fresh p started ended g st absent known in
      (
        d',
        ap (λ (t : Replay r). t.registry.durability_store) run ∙ same,
        read,
        ap (λ (t : Replay r). t.delivered) run,
      )
