-- ===== src/Registry/Persistence.antt =====
-- What `persist_state` of execution_engine/run_registry.py leaves in the store, and what another
-- process reads back.
use execution_engine.Common.{ℕ, String, Bool, true, false, some, ◌≡◌, ◌∙◌, refl, arith}
use execution_engine.Durability.Records.{
  PersistedRun, found, run_lock_key, name, run_states_key, run_doc,
}
use execution_engine.Durability.Redis.{Redis, Laws}
use execution_engine.Durability.Store.{
  DurabilityStore, holds, get_run, upsert_run, clear_resume_request, release_run_lock,
  resume_requested,
}
use execution_engine.Durability.Frames.{
  get_run-release_run_lock, get_run-acquire_run_lock, get_run-clear_resume_request,
  resume_requested-release_run_lock, resume_requested-clear, holds-release_run_lock,
}
use execution_engine.Registry.Identity.{
  RunStatus, queued, running, waiting_for_dependencies, waiting_for_approval, cancelling, completed,
  failed, cancelled, status_value, status_of, is_terminal, is_running, is_waiting,
}
use execution_engine.Registry.State.{
  RunState, Ref, Settings, Registry, new_run, persisted_of, state_from_persisted,
}
use execution_engine.Registry.Scheduling.{
  clear_when, release_when, acquire_when, persist_to, persist_store, persist_state,
}

-- Reading back the text of a status gives the status.
pub status_of-status_value : (s : RunStatus) → status_of (status_value s) ≡ some s
unfolding status_of status_value
status_of-status_value queued = refl
status_of-status_value running = refl
status_of-status_value waiting_for_dependencies = refl
status_of-status_value waiting_for_approval = refl
status_of-status_value cancelling = refl
status_of-status_value completed = refl
status_of-status_value failed = refl
status_of-status_value cancelled = refl

-- Decoding a persisted run gives the identity, the status and the three times of the
-- run that was written, and the defaults of a new object for everything else.
pub state_from_persisted-persisted_of :
    (s : RunState) (owner : String)
    → state_from_persisted (persisted_of s) owner
      ≡ some (record (new_run s.identity_key owner s.created_at) {
        status = s.status;
        started_at = s.started_at;
        ended_at = s.ended_at;
      })
unfolding state_from_persisted persisted_of
state_from_persisted-persisted_of s owner = ground (arith, status_of-status_value s.status)

module _ (r : Redis) (laws : Laws r) (cfg : Settings) (now : ℕ) where
  get_run-upsert_own :
      (d : DurabilityStore r) (p : PersistedRun) → get_run r (upsert_run r d p) p.run_id ≡ found p
  unfolding get_run upsert_run
  get_run-upsert_own d p =
      ground (arith, laws.hashes.hget-hset d.db run_states_key (name p.run_id) (run_doc p))

  released :
      (d : DurabilityStore r) (owner : String) (p : PersistedRun)
      → let d2 = clear_resume_request r (upsert_run r d p) p.run_id in
        (resume_requested r (release_run_lock r d2 p.run_id owner) p.run_id ≡ false)
        × (holds (r.get (release_run_lock r d2 p.run_id owner).db (run_lock_key p.run_id)) owner
            ≡ false)
  released d owner p =
      let d2 = clear_resume_request r (upsert_run r d p) p.run_id in
      (
        resume_requested-release_run_lock r laws d2 p.run_id owner p.run_id
            ∙ resume_requested-clear r laws (upsert_run r d p) p.run_id,
        holds-release_run_lock r laws d2 p.run_id owner,
      )

  get_run-clear_when :
      (test : Bool) (d : DurabilityStore r) (id j : String)
      → get_run r (clear_when cfg now test d id) j ≡ get_run r d j
  unfolding clear_when
  get_run-clear_when true d id j = get_run-clear_resume_request r laws d id j
  get_run-clear_when false d id j = refl

  get_run-release_when :
      (test : Bool) (d : DurabilityStore r) (id owner j : String)
      → get_run r (release_when cfg now test d id owner) j ≡ get_run r d j
  unfolding release_when
  get_run-release_when true d id owner j = get_run-release_run_lock r laws d id owner j
  get_run-release_when false d id owner j = refl

  get_run-acquire_when :
      (test : Bool) (d : DurabilityStore r) (id owner j : String)
      → get_run r (acquire_when cfg now test d id owner) j ≡ get_run r d j
  unfolding acquire_when
  get_run-acquire_when test d id owner j =
      ground (arith, get_run-acquire_run_lock r laws d now id owner cfg.run_id_lock_ttl_seconds j)

  get_run-persist_to :
      (d : DurabilityStore r) (owner : String) (status : RunStatus) (p : PersistedRun)
      → get_run r (persist_to cfg now d owner status p) p.run_id ≡ found p
  unfolding persist_to
  get_run-persist_to d owner status p =
      simp (get_run-acquire_when, get_run-release_when, get_run-clear_when) (get_run-upsert_own d p)

  -- Whatever its status, a run that is persisted while its lock is not lost is read back from the
  -- store as it was written.
  pub persist_state_durable :
      (g : Registry r) (d : DurabilityStore r) (ref : Ref)
      → g.durability_store ≡ some d
      → (g.objects ref).execution_lock_lost ≡ false
      → (d' : DurabilityStore r) × ((persist_state cfg now ref g).durability_store ≡ some d')
        × (get_run r d' (g.objects ref).run_id ≡ found (persisted_of (g.objects ref)))
  unfolding persist_state persist_store
  persist_state_durable g d ref store live =
      let s = g.objects ref in
      (
        persist_to cfg now d g.owner_id s.status (persisted_of s),
        ground (arith, store, live),
        unfold persisted_of in get_run-persist_to d g.owner_id s.status (persisted_of s),
      )

  -- A run that is persisted as terminal keeps no resume request and no lock of this process.
  pub persist_terminal_releases :
      (d : DurabilityStore r) (owner : String) (status : RunStatus) (p : PersistedRun)
      → is_terminal status ≡ true
      → (resume_requested r (persist_to cfg now d owner status p) p.run_id ≡ false)
        × (holds (r.get (persist_to cfg now d owner status p).db (run_lock_key p.run_id)) owner
            ≡ false)
  unfolding persist_to clear_when release_when acquire_when is_terminal is_waiting is_running
  persist_terminal_releases d owner completed p h = released d owner p
  persist_terminal_releases d owner failed p h = released d owner p
  persist_terminal_releases d owner cancelled p h = released d owner p
  persist_terminal_releases d owner queued p h = cc
  persist_terminal_releases d owner running p h = cc
  persist_terminal_releases d owner waiting_for_dependencies p h = cc
  persist_terminal_releases d owner waiting_for_approval p h = cc
  persist_terminal_releases d owner cancelling p h = cc
