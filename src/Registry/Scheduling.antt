-- ===== src/Registry/Scheduling.antt =====
-- execution_engine/run_scheduling.py, with `persist_state`, `requeue` and `dequeue` of the registry.
-- `now` is the clock at the call, and `uuid n` the identifier drawn for the object with reference n.
use execution_engine.Common.{
  ℕ, ◌+◌, ◌*◌, String, str_eq, Bool, true, false, not, ◌&&◌, ◌||◌, Option, none, some, List, [],
  ◌∷◌, ◌++◌, length, leb, ltb, contains, add, discard, if◌then◌else◌,
}
use execution_engine.Durability.Records.{PersistedRun}
use execution_engine.Durability.Redis.{Redis}
use execution_engine.Durability.Store.{
  DurabilityStore, acquire_run_lock, run_lock_owner, run_has_lock, release_run_lock, upsert_run,
  request_resume, resume_request_time, clear_resume_request,
}
use execution_engine.Registry.Identity.{RunStatus, is_terminal, is_waiting, is_running}
use execution_engine.Registry.State.{
  RunState, Ref, Scheduler, Settings, Registry, persisted_of, put_object, forget_local_run,
}

-- `queue_size + len(_scheduled) >= max_concurrent_runs * 2`
unfoldable pub is_full : Scheduler → Bool
is_full s = leb (s.max_concurrent_runs * 2) (length s.queue + length s.scheduled)

-- `_queue.put_nowait(run_id)` of a queue of size `max_concurrent_runs * 2`; `none` is `QueueFull`.
-- A size of 0 is no bound.
unfoldable pub put_nowait : String → Scheduler → Option Scheduler
put_nowait id s =
    if ltb 0 (s.max_concurrent_runs * 2) && leb (s.max_concurrent_runs * 2) (length s.queue)
    then none
    else some (record s { queue = s.queue ++ id ∷ [] })

-- `enqueue_run` after the lock is settled
unfoldable pub admit : String → Scheduler → Scheduler × Bool
unfolding is_full put_nowait
admit id s =
    if contains s.queued id || contains s.scheduled id
    then (s, true)
    else if is_full s
    then (s, false)
    else elim (put_nowait id s) [
      | none ↦ (s, false)
      | some s' ↦ (record s' { queued = add id s'.queued }, true)
    ]

-- `requeue`; `none` is `QueueFull`
unfoldable pub requeue_local : String → Scheduler → Option Scheduler
unfolding put_nowait
requeue_local id s =
    if s.draining
    then some s
    else elim (put_nowait id (record s { scheduled = discard id s.scheduled })) [
      | none ↦ none
      | some s' ↦ some (record s' { queued = add id s'.queued })
    ]

-- `dequeue` with no drain between its two parts; `none` waits
unfoldable pub dequeue_from : Bool → List String → Scheduler → Option (String × Scheduler)
dequeue_from true q s = none
dequeue_from false [] s = none
dequeue_from false (id ∷ rest) s =
    some
      (id, record s { queue = rest; queued = discard id s.queued; scheduled = add id s.scheduled })

unfoldable pub dequeue : Scheduler → Option (String × Scheduler)
unfolding dequeue_from
dequeue s = dequeue_from s.draining s.queue s

-- `persist_state` on the object
unfoldable pub persist_resume : RunState → RunState
persist_resume s =
    if is_running s.status || is_terminal s.status
    then record s { resume_requested_at = none }
    else s

-- `state.resume_requested_at or datetime.now(UTC)`
unfoldable pub or_now : Option ℕ → ℕ → Option ℕ
or_now none now = some now
or_now (some t) now = some t

module _ {r : Redis} (cfg : Settings) (now : ℕ) where
  -- the writes of `persist_state` to the store, each under its test
  unfoldable pub clear_when : Bool → DurabilityStore r → String → DurabilityStore r
  clear_when test d id = if test then clear_resume_request r d id else d

  unfoldable pub release_when : Bool → DurabilityStore r → String → String → DurabilityStore r
  release_when test d id owner = if test then release_run_lock r d id owner else d

  unfoldable pub acquire_when : Bool → DurabilityStore r → String → String → DurabilityStore r
  acquire_when test d id owner =
      if test && not (run_has_lock r d id)
      then (acquire_run_lock r d now id owner cfg.run_id_lock_ttl_seconds).0
      else d

  unfoldable pub persist_to :
      DurabilityStore r → String → RunStatus → PersistedRun → DurabilityStore r
  persist_to d owner status p =
      let id = p.run_id in
      let d1 = upsert_run r d p in
      let d2 = clear_when (is_terminal status || is_running status) d1 id in
      let d3 = release_when (is_terminal status) d2 id owner in
      let d4 = release_when (is_waiting status) d3 id owner in
      acquire_when (is_running status) d4 id owner

  unfoldable pub persist_store :
      Option (DurabilityStore r) → String → RunState → Option (DurabilityStore r)
  unfolding persist_to
  persist_store none owner s = none
  persist_store (some d) owner s = some (persist_to d owner s.status (persisted_of s))

  unfoldable pub persist_state : Ref → Registry r → Registry r
  unfolding persist_resume persist_store put_object
  persist_state ref g =
      let s = g.objects ref in
      if s.execution_lock_lost then g else record (put_object ref (persist_resume s) g) {
        durability_store = persist_store g.durability_store g.owner_id s;
      }

  -- `enqueue_run`: who holds the execution lock once the caller has asked for a free one
  unfoldable pub claim_lock : DurabilityStore r → String → String → DurabilityStore r × Bool
  claim_lock d id me = elim (run_lock_owner r d id) [
    | some owner ↦ (d, str_eq owner me)
    | none ↦ acquire_run_lock r d now id me cfg.run_id_lock_ttl_seconds
  ]

  -- the claim of `enqueue_run`: no store, or leases of the control plane, need no lock
  unfoldable pub claim :
      Option (DurabilityStore r) → String → String → Option (DurabilityStore r) × Bool
  unfolding claim_lock
  claim none id me = (none, true)
  claim (some d) id me =
      if cfg.workspace_capacity_enabled
      then (some d, true)
      else (let (d', mine) = claim_lock d id me in (some d', mine))

  unfoldable pub enqueue_run : String → Registry r → Registry r × Bool
  enqueue_run id g =
      let (store', mine) = claim g.durability_store id g.owner_id in
      let g' = record g { durability_store = store' } in
      if g.draining
      then (g, false)
      else if mine
      then (let (s', accepted) = admit id g.sched in (record g' { sched = s' }, accepted))
      else if contains g.queued id || contains g.scheduled id
      then (g', true)
      else (forget_local_run id g', true)

  -- `state.status = RunStatus.QUEUED; persist_state(state); enqueue_run(run_id)`
  unfoldable pub queue_again : Ref → Registry r → Registry r × Bool
  queue_again ref g =
      let s = g.objects ref in
      let g1 = put_object ref (record s { status = RunStatus.queued }) g in
      enqueue_run s.run_id (persist_state ref g1)

  -- the resume request of `resume_run`, in the object and in the store
  unfoldable pub note_resume : Ref → Registry r → Registry r
  unfolding put_object or_now
  note_resume ref g =
      let s = g.objects ref in
      elim g.durability_store [
        | none ↦
            put_object ref (record s { resume_requested_at = or_now s.resume_requested_at now }) g
        | some d ↦
            let d' = request_resume r d now s.run_id in
            record (put_object ref
              (record s { resume_requested_at = resume_request_time r d' s.run_id }) g) {
                durability_store = some d';
              }
      ]

  unfoldable pub resume_run : Ref → Registry r → Registry r × Bool
  resume_run ref g =
      let g1 = note_resume ref g in
      let id = (g.objects ref).run_id in
      if g.draining
      then (g, false)
      else if contains g.scheduled id
      then (
        record g1 { sched = record g1.sched { pending_resumes = add id g1.pending_resumes } },
        true,
      )
      else queue_again ref g1
