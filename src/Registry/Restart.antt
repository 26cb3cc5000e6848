-- ===== src/Registry/Restart.antt =====
-- `recover_stale_active_runs` of execution_engine/run_registry.py: a run that was active when the
-- engine stopped is failed. `delivered` of a step counts the runs recovered.
use execution_engine.Common.{
  ℕ, suc, ◌+◌, String, str_eq, Bool, false, ◌&&◌, ◌||◌, Option, none, some, List, [], ◌∷◌, leb,
  opt_eq, get_or, if◌then◌else◌,
}
use execution_engine.Common.Dict.{lookup}
use execution_engine.Durability.Records.{
  Event, CommitRequest, PersistedRun, missing, found, invalid,
}
use execution_engine.Durability.Redis.{Redis}
use execution_engine.Durability.Store.{DurabilityStore, get_run, list_active_runs}
use execution_engine.Durability.Outbox.{next_event_seq, last_pending_event, upsert_event}
use execution_engine.Durability.Commits.{upsert_terminal_commit}
use execution_engine.Registry.Identity.{RunStatus}
use execution_engine.Registry.State.{
  RunState, Ref, Settings, Registry, state_from_persisted, put_object, get_by_run_id,
}
use execution_engine.Registry.Scheduling.{persist_state}
use execution_engine.Registry.Completion.{refill_queued_runs}
use execution_engine.Registry.Recovery.{Replay, put_store, with_claim}

-- the event that reports the restart: the last pending one, if it does so already
unfoldable pub is_restart_event : Event → Bool
is_restart_event e =
    str_eq e.type "run_failed"
    && opt_eq (lookup "code" e.payload) (some "EXECUTION_ENGINE_RESTARTED")

unfoldable pub restart_event : ℕ → String → ℕ → Event
restart_event now id seq = record {
  schema_version = 1;
  run_id = id;
  seq = seq;
  ts = now;
  type = "run_failed";
  payload =
      ("code", "EXECUTION_ENGINE_RESTARTED")
      ∷ ("message", "Execution engine restarted before this run reached a terminal state.")
      ∷ ("retryable", "true")
      ∷ [];
}

unfoldable pub restart_commit : ℕ → ℕ → CommitRequest
restart_commit started ended = record {
  status = "failed";
  assistant_message = some (
      (
        "content",
        "The execution engine restarted before this troubleshooting run finished. Please retry the run.",
      )
      ∷ ("format", "markdown")
      ∷ []);
  usage = record { input_tokens = 0; output_tokens = 0; tool_calls = 0; reasoning_tokens = none };
  started_at = started;
  ended_at = ended;
}

unfoldable pub fail_state : ℕ → ℕ → RunState → RunState
fail_state started ended s = record s {
  status = RunStatus.failed;
  started_at = some started;
  ended_at = some ended;
}

module _ {r : Redis} (cfg : Settings) (now : ℕ) where
  -- a fresh event is stored; an exception of the store leaves what it wrote before
  unfoldable pub new_event : String → DurabilityStore r → DurabilityStore r × Option Event
  unfolding restart_event
  new_event id d = elim (next_event_seq r d id) [
    | none ↦ (d, none)
    | some seq ↦
        let e = restart_event now id seq in
        let (d', stored) = upsert_event r d e in (d', if stored then some e else none)
  ]

  unfoldable pub failure_event : String → DurabilityStore r → DurabilityStore r × Option Event
  unfolding is_restart_event new_event
  failure_event id d = elim (last_pending_event r d id) [
    | invalid ↦ (d, none)
    | missing ↦ new_event id d
    | found e ↦ if is_restart_event e then (d, some e) else new_event id d
  ]

  unfoldable pub persist_failed : ℕ → ℕ → Ref → Registry r → Replay r
  unfolding put_object fail_state
  persist_failed started ended ref g = record {
    registry =
        persist_state cfg now ref (put_object ref (fail_state started ended (g.objects ref)) g);
    delivered = 1;
    called = false;
  }

  -- the local object of the run, or a new one that the registry does not list
  unfoldable pub fail_run : (ℕ → String) → PersistedRun → ℕ → ℕ → Registry r → Replay r
  unfolding put_object persist_failed
  fail_run uuid p started ended g = elim (get_by_run_id g p.run_id) [
    | some ref ↦ persist_failed started ended ref g
    | none ↦ elim (state_from_persisted p (uuid g.next_ref)) [
      | none ↦ record { registry = g; delivered = 0; called = false }
      | some s ↦
          persist_failed started ended g.next_ref
            (record (put_object g.next_ref s g) { next_ref = suc g.next_ref })
    ]
  ]

  -- a run that was active when the engine stopped: the event, the commit and the record, in this order
  unfoldable pub fail_persisted :
      (ℕ → String) → PersistedRun → DurabilityStore r → Registry r → Replay r
  unfolding failure_event put_store
  fail_persisted uuid p d g =
      let started = get_or p.started_at p.created_at in
      let (d1, event) = failure_event p.run_id d in
      elim event [
        | none ↦ record { registry = put_store d1 g; delivered = 0; called = false }
        | some e ↦
            let (d2, stored) =
              upsert_terminal_commit r d1 now p.run_id (restart_commit started e.ts) in
            if stored
            then fail_run uuid p started e.ts (put_store d2 g)
            else record { registry = put_store d2 g; delivered = 0; called = false }
      ]

  unfoldable pub recover_claimed : (ℕ → String) → String → DurabilityStore r → Registry r → Replay r
  unfolding put_store fail_persisted
  recover_claimed uuid id d g =
      let kept : Replay r = record { registry = put_store d g; delivered = 0; called = false } in
      elim (get_run r d id) [
        | missing ↦ kept
        | invalid ↦ kept
        | found p ↦
            if str_eq p.status "running" || str_eq p.status "cancelling"
            then fail_persisted uuid p d g
            else kept
      ]

  -- one candidate of `recover_stale_active_runs`
  unfoldable pub recover_one : (ℕ → String) → String → PersistedRun → Registry r → Replay r
  unfolding recover_claimed
  recover_one uuid owner p g = elim g.durability_store [
    | none ↦ record { registry = g; delivered = 0; called = false }
    | some d ↦
        if str_eq p.status "queued"
        then record { registry = g; delivered = 0; called = false }
        else with_claim cfg now p.run_id owner false (recover_claimed uuid p.run_id) d g
  ]

  unfoldable pub recover_from :
      (ℕ → String) → (ℕ → String) → ℕ → List PersistedRun → Registry r → Registry r × ℕ
  unfolding recover_one
  recover_from uuid owner recovered [] g = (g, recovered)
  recover_from uuid owner recovered (p ∷ ps) g =
      let done = recover_one uuid (owner 0) p g in
      let rest =
        recover_from uuid (λ n. owner (suc n)) (recovered + done.delivered) ps done.registry in
      if leb 25 recovered then (g, recovered) else rest

  unfoldable pub recover_stale_active_runs :
      (ℕ → String) → (ℕ → String) → Registry r → Registry r × ℕ
  unfolding recover_from
  recover_stale_active_runs uuid owner g = elim g.durability_store [
    | none ↦ (g, 0)
    | some d0 ↦
        let g' = refill_queued_runs cfg now uuid none g in
        let recovered : Registry r × ℕ = elim g'.durability_store [
          | none ↦ (g', 0)
          | some d ↦ recover_from uuid owner 0 (list_active_runs r d) g'
        ] in
        if cfg.workspace_capacity_enabled then (g', 0) else recovered
  ]
