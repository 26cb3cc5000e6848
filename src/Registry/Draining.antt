-- ===== src/Registry/Draining.antt =====
-- execution_engine/run_draining.py: withdrawal of admission, release of the claims on runs that
-- are not scheduled, and local cancellation.
use execution_engine.Common.{
  ℕ, String, Bool, true, false, not, ◌&&◌, ◌||◌, none, some, List, [], ◌∷◌, ◌++◌, contains, add,
  discard, if◌then◌else◌,
}
use execution_engine.Durability.Redis.{Redis}
use execution_engine.Durability.Store.{release_run_lock}
use execution_engine.Registry.Identity.{
  RunStatus, is_terminal, is_waiting, is_queued_status, RunKey,
}
use execution_engine.Registry.State.{
  RunState, Ref, ReleaseTask, in_progress, not_started, finished, cancelled_task, Scheduler,
  Settings, Registry, put_object, get_by_run_id, forget_local_run,
}
use execution_engine.Registry.Scheduling.{persist_state}

-- the run waits for a slot, an approval or other runs, and is not scheduled here
unfoldable pub is_unscheduled : RunState → Scheduler → Bool
is_unscheduled s sched =
    (is_queued_status s.status || is_waiting s.status) && not (contains sched.scheduled s.run_id)

-- whether `release_unscheduled_claims` starts a new release task
unfoldable pub needs_task : List String → ReleaseTask → Bool
needs_task [] t = false
needs_task (id ∷ ids) not_started = true
needs_task (id ∷ ids) finished = true
needs_task (id ∷ ids) in_progress = false
needs_task (id ∷ ids) cancelled_task = false

-- `begin_drain` on the queue
unfoldable pub close_admission : Scheduler → Scheduler
close_admission s = record s { draining = true; queue = []; queued = [] }

module _ {r : Redis} where
  -- the body of the loop of `release_unscheduled_claims`
  unfoldable pub release_claim : Ref → Registry r → Registry r
  unfolding is_unscheduled put_object forget_local_run
  release_claim ref g =
      let s = g.objects ref in
      let fenced = put_object ref (record s { execution_lock_lost = true }) g in
      if is_unscheduled s g.sched
      then forget_local_run s.run_id
          (record fenced { drain_release_ids = add s.run_id g.drain_release_ids })
      else g

  unfoldable pub release_claims : List (RunKey × Ref) → Registry r → Registry r
  unfolding release_claim
  release_claims [] g = g
  release_claims ((k, ref) ∷ rest) g = release_claims rest (release_claim ref g)

  unfoldable pub start_release : Registry r → Registry r
  unfolding needs_task
  start_release g =
      if needs_task g.drain_release_ids g.drain_release_task
      then record g { drain_release_task = in_progress }
      else g

  unfoldable pub release_unscheduled_claims : Registry r → Registry r
  unfolding release_claims start_release
  release_unscheduled_claims g = elim g.durability_store [
    | none ↦ g
    | some d ↦ start_release (release_claims g.runs g)
  ]

  unfoldable pub begin_drain : Registry r → Registry r
  begin_drain g = release_unscheduled_claims (record g { sched = close_admission g.sched })

  -- one release of `_release_claims`; `fails id` says that the release of that run raised
  unfoldable pub release_one : (String → Bool) → String → Registry r → Registry r
  release_one fails id g = elim g.durability_store [
    | none ↦ g
    | some d ↦ if fails id then g else record g {
      durability_store = some (release_run_lock r d id g.owner_id);
      drain_release_ids = discard id g.drain_release_ids;
    }
  ]

  -- one round over the runs that are still to be released
  unfoldable pub release_round : (String → Bool) → List String → Registry r → Registry r
  unfolding release_one
  release_round fails [] g = g
  release_round fails (id ∷ ids) g = release_round fails ids (release_one fails id g)

  -- a run that this replica has queued or scheduled, holds the lock of, and has not finished
  unfoldable pub is_owned : Registry r → String → Bool
  unfolding get_by_run_id
  is_owned g id = elim (get_by_run_id g id) [
    | none ↦ false
    | some ref ↦
        (contains g.queued id || contains g.scheduled id)
        && not (g.objects ref).execution_lock_lost
        && not (is_terminal (g.objects ref).status)
  ]

  unfoldable pub owned_of : Registry r → List String → List String
  unfolding is_owned
  owned_of g [] = []
  owned_of g (id ∷ ids) = let rest = owned_of g ids in if is_owned g id then add id rest else rest

  unfoldable pub owned_run_ids : Registry r → List String
  unfolding owned_of
  owned_run_ids g = owned_of g (g.queued ++ g.scheduled)

  -- a scheduled run still has its finalizer to run, so it is only marked as cancelling
  unfoldable pub cancel_owned_run : Settings → ℕ → String → Registry r → Registry r
  unfolding is_owned put_object persist_state
  cancel_owned_run cfg now id g = elim (get_by_run_id g id) [
    | none ↦ g
    | some ref ↦
        let s = g.objects ref in
        let status' =
          if contains g.scheduled id then RunStatus.cancelling else RunStatus.cancelled in
        let g' = put_object ref (record s { cancel_event = true; status = status' }) g in
        if is_owned g id then persist_state cfg now ref g' else g
  ]
