-- ===== src/Registry/Completion.antt =====
-- execution_engine/run_scheduling.py: the end of a scheduled execution, the refill of the queue from
-- durable candidates, and the removal of old terminal runs.
use execution_engine.Common.{
  ℕ, ◌-◌, suc, String, Bool, true, false, not, ◌&&◌, ◌||◌, Option, none, some, List, [], ◌∷◌,
  contains, discard, is_some, ltb, opt_eq, if◌then◌else◌,
}
use execution_engine.Common.Dict.{insert, erase}
use execution_engine.Durability.Records.{PersistedRun}
use execution_engine.Durability.Redis.{Redis}
use execution_engine.Durability.Store
use execution_engine.Durability.Store.{
  DurabilityStore, run_has_lock, resume_requested, resume_request_time, iter_queued_runs,
}
use execution_engine.Registry.Identity.{
  RunStatus, is_terminal, is_waiting, RunKey, runs_set, runs_pop,
}
use execution_engine.Registry.State.{
  RunState, Ref, Settings, Registry, state_from_persisted, put_object, get_by_run_id,
  forget_local_run,
}
use execution_engine.Registry.Scheduling.{is_full, enqueue_run, queue_again, requeue_local}
use execution_engine.Registry.Draining.{release_unscheduled_claims}

-- the resume intent that `refill_queued_runs` restores
unfoldable pub with_resume : Bool → Option ℕ → RunState → RunState
with_resume true t s = record s { resume_requested_at = t; status = RunStatus.queued }
with_resume false t s = s

-- the test on one entry of `cleanup_terminal_runs`
unfoldable pub is_old : ℕ → RunState → Bool
is_old cutoff s = elim s.ended_at [ none ↦ false | some t ↦ is_terminal s.status && ltb t cutoff ]

module _ {r : Redis} (cfg : Settings) (now : ℕ) (uuid : ℕ → String) where
  -- `_runs[key] = state; _run_id_to_key[run_id] = key`, with the object new on the heap
  unfoldable pub register : RunState → Registry r → Registry r
  unfolding put_object
  register s g = record (put_object g.next_ref s g) {
    runs = runs_set s.identity_key g.next_ref g.runs;
    run_id_to_key = insert s.run_id s.identity_key g.run_id_to_key;
    next_ref = suc g.next_ref;
  }

  -- a run that is read from the store: queued, or forgotten again
  unfoldable pub load_run : DurabilityStore r → RunState → Registry r → Registry r
  load_run d s g =
      let s' = with_resume (resume_requested r d s.run_id) (resume_request_time r d s.run_id) s in
      let (g', accepted) = enqueue_run cfg now s.run_id (register s' g) in
      if accepted && contains g'.queued s.run_id then g' else forget_local_run s.run_id g'

  unfoldable pub load_candidate : DurabilityStore r → PersistedRun → Registry r → Registry r
  load_candidate d p g = elim (state_from_persisted p (uuid g.next_ref)) [
    | none ↦ g
    | some s ↦ load_run d s g
  ]

  -- the candidates that the loop passes over
  unfoldable pub is_skipped : Option String → DurabilityStore r → PersistedRun → Registry r → Bool
  is_skipped exclude d p g =
      opt_eq (some p.run_id) exclude
      || is_some (get_by_run_id g p.run_id)
      || (not cfg.workspace_capacity_enabled && run_has_lock r d p.run_id)

  -- one candidate, against the store as it is by then
  unfoldable pub refill_one : Option String → PersistedRun → Registry r → Registry r
  refill_one exclude p g = elim g.durability_store [
    | none ↦ g
    | some d ↦ if is_skipped exclude d p g then g else load_candidate d p g
  ]

  -- the loop stops as soon as no slot is left
  unfoldable pub refill_from : Option String → List PersistedRun → Registry r → Registry r
  refill_from exclude [] g = g
  refill_from exclude (p ∷ ps) g =
      let rest = refill_from exclude ps (refill_one exclude p g) in
      if is_full g.sched then g else rest

  unfoldable pub refill_queued_runs : Option String → Registry r → Registry r
  refill_queued_runs exclude g = elim g.durability_store [
    | none ↦ g
    | some d ↦ if g.draining then g else refill_from exclude (iter_queued_runs r d) g
  ]

  -- a resume that came while the run was scheduled takes effect once it has parked
  unfoldable pub take_pending_resume : String → Registry r → Registry r
  take_pending_resume id g =
      let g1 = record g {
        sched = record g.sched { pending_resumes = discard id g.pending_resumes };
      } in
      let resumed : Registry r = elim (get_by_run_id g id) [
        | none ↦ g1
        | some ref ↦
            if is_waiting (g.objects ref).status then (queue_again cfg now ref g1).0 else g1
      ] in
      if contains g.pending_resumes id then resumed else g

  unfoldable pub finish_execution : String → Registry r → Registry r
  finish_execution id g =
      let s = record g.sched { scheduled = discard id g.scheduled } in
      if g.draining
      then release_unscheduled_claims
          (record g { sched = record s { pending_resumes = discard id s.pending_resumes } })
      else refill_queued_runs (some id) (take_pending_resume id (record g { sched = s }))

  -- `requeue`; `none` is the `QueueFull` of the queue
  unfoldable pub requeue : String → Registry r → Option (Registry r)
  requeue id g = elim (requeue_local id g.sched) [
    | none ↦ none
    | some s ↦ some (record g { sched = s })
  ]

  unfoldable pub drop_one : ℕ → RunKey → Ref → Registry r → Registry r
  unfolding is_old
  drop_one cutoff key ref g =
      if is_old cutoff (g.objects ref)
      then record g {
        runs = runs_pop key g.runs;
        run_id_to_key = erase (g.objects ref).run_id g.run_id_to_key;
      }
      else g

  unfoldable pub drop_old : ℕ → List (RunKey × Ref) → Registry r → Registry r
  unfolding drop_one
  drop_old cutoff [] g = g
  drop_old cutoff ((key, ref) ∷ rest) g = drop_old cutoff rest (drop_one cutoff key ref g)

  unfoldable pub cleanup_terminal_runs : Registry r → Registry r
  unfolding drop_old
  cleanup_terminal_runs g =
      let cutoff = now - g.terminal_run_ttl_seconds in
      let g' = drop_old cutoff g.runs g in
      elim g.durability_store [
        | none ↦ g'
        | some d ↦ record g' { durability_store = some (Store.cleanup_terminal_runs r d cutoff) }
      ]
