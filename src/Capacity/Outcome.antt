-- ===== src/Capacity/Outcome.antt =====
-- What a refused execution of execution_engine/capacity.py leaves in the store.
use execution_engine.Common.{ℕ, ◌≡◌, String, false, some, arith, refl, ap, subst, ◌∙◌}
use execution_engine.Durability.Records.{found}
use execution_engine.Durability.Redis.{Redis, Laws}
use execution_engine.Durability.Store.{DurabilityStore, get_run}
use execution_engine.Registry.Identity.{RunStatus, status_value}
use execution_engine.Registry.State.{RunState, Ref, Settings, Registry, persisted_of, put_object}
use execution_engine.Registry.Scheduling.{persist_state}
use execution_engine.Registry.Persistence.{persist_state_durable}
use execution_engine.Capacity.Dispatch.{fail_run, dispatch, fail_execution}

module _ (r : Redis) (laws : Laws r) (cfg : Settings) (now : ℕ) (uuid : ℕ → String) where
  objects-put_object :
      (ref : Ref) (s : RunState) (g : Registry r) → (put_object ref s g).objects ref ≡ s
  unfolding put_object
  objects-put_object ref s g = ground arith

  -- A run that fails to get an authority, while its lock is not lost, is stored as failed, with the
  -- time of the failure as its end, under its own identity and start.
  pub dispatch-fail_durable :
      (ref : Ref) (g : Registry r) (d : DurabilityStore r)
      → g.durability_store ≡ some d
      → (g.objects ref).execution_lock_lost ≡ false
      → (h : Registry r) × (d' : DurabilityStore r) × (dispatch cfg now uuid fail_run ref g
          ≡ some h)
        × (h.durability_store ≡ some d')
        × (get_run r d' (g.objects ref).run_id
            ≡ found
                (record (persisted_of (g.objects ref)) { status = "failed"; ended_at = some now }))
  unfolding dispatch fail_execution put_object persisted_of status_value
  dispatch-fail_durable ref g d store live =
      let s = record (g.objects ref) { status = RunStatus.failed; ended_at = some now } in
      let g' = put_object ref s g in
      let same = objects-put_object ref s g in
      let live' : (g'.objects ref).execution_lock_lost ≡ false =
        ap (λ x. x.execution_lock_lost) same ∙ live in
      let (d', kept, stored) = persist_state_durable r laws cfg now g' d ref store live' in
      let read : get_run r d' s.run_id ≡ found (persisted_of s) =
        subst (λ x. get_run r d' x.run_id ≡ found (persisted_of x)) same stored in
      (persist_state cfg now ref g', d', refl, kept, read)
