-- ===== src/Tests/Runs.antt =====
-- The theorems on the registry of runs, at one dispatched run.
use mathlib.Core.List.{Memᴰ}
use execution_engine.Common.{
  ◌≡◌, inl, String, true, false, none, some, [], ◌∷◌, refl, arith, eq_iff, subst, contains,
  if◌then◌else◌,
}
use execution_engine.Common.Dict.{lookup}
use execution_engine.Durability.Records.{run_lock_key, found}
use execution_engine.Durability.Memory.{memory, memory_laws}
use execution_engine.Durability.Store.{
  DurabilityStore, holds, get_run, reserve_run, acquire_run_lock, resume_requested,
}
use execution_engine.Registry.Identity.{RunStatus, is_terminal, is_queued_status, is_waiting}
use execution_engine.Registry.State.{
  Registry, Scheduler, new_registry, new_run, persisted_of, state_from_persisted, get_by_run_id,
}
use execution_engine.Registry.Scheduling.{requeue_local, persist_to, persist_state}
use execution_engine.Registry.Draining.{begin_drain, is_unscheduled}
use execution_engine.Registry.Lifecycle.{get_or_create, create_run, look_up_or_reserve, reserve}
use execution_engine.Registry.Bounds.{IsBounded, requeue_total, requeued}
use execution_engine.Registry.Steps.{creates, here, next}
use execution_engine.Registry.Steps.Reachable.{Reach-IsBounded, drain_final}
use execution_engine.Registry.Idempotency.{get_or_create_idempotent, repeated}
use execution_engine.Registry.Fencing.{begin_drain_hands_over}
use execution_engine.Registry.Persistence.{
  state_from_persisted-persisted_of, persist_state_durable, persist_terminal_releases,
}
use execution_engine.Tests.Data.{
  store0, key0, key1, run0, state0, settings0, registry0, idle_scheduler, parked, uuids,
}

get_or_create_idempotent_example :
    get_or_create settings0 10 uuids key1 (get_or_create settings0 10 uuids key0 registry0).0
    ≡ ((get_or_create settings0 10 uuids key0 registry0).0, repeated key0 key1 0)
unfolding get_or_create create_run look_up_or_reserve reserve reserve_run get_run acquire_run_lock
    lookup
get_or_create_idempotent_example =
    get_or_create_idempotent settings0 10 uuids key0 key1 registry0 0 refl (inl refl)

abbrev fresh : Registry memory
fresh = new_registry 2 (some store0) "engine-a" 3600 state0

abbrev after_dispatch : Registry memory
after_dispatch = (get_or_create settings0 10 uuids key0 fresh).0

Reach-IsBounded_example : IsBounded after_dispatch.sched
Reach-IsBounded_example =
    Reach-IsBounded settings0 2 (some store0) "engine-a" 3600 state0
      (next here (creates fresh 10 uuids key0))

abbrev drained : Registry memory
drained = record registry0 { sched = record idle_scheduler { draining = true } }

drain_final_example :
    ((get_or_create settings0 10 uuids key0 drained).0.draining ≡ true)
    × ((get_or_create settings0 10 uuids key0 drained).0.queue ≡ [])
    × (contains (get_or_create settings0 10 uuids key0 drained).0.scheduled "r1" ≡ false)
unfolding contains
drain_final_example =
    drain_final settings0 drained "r1" refl refl refl (next here (creates drained 10 uuids key0))

-- no slot is left, and `r1` runs
abbrev busy : Scheduler
busy = record idle_scheduler {
  queue = "r2" ∷ [];
  queued = "r2" ∷ [];
  scheduled = "r1" ∷ [];
  max_concurrent_runs = 1;
}

busy-IsBounded : IsBounded busy
unfolding contains
busy-IsBounded = record {
  within = omega arith;
  queue_distinct = (refl, tt);
  scheduled_distinct = (refl, tt);
  queued_exact = λ id. refl;
  disjoint = λ id h.
      let e : "r2" ≡ id = (eq_iff "r2" id).0 (ground arith) in
      subst (λ (i : String). contains ("r1" ∷ []) i ≡ false) e refl;
}

requeue_total_example : requeue_local "r1" busy ≡ some (if false then busy else requeued "r1" busy)
unfolding contains
requeue_total_example = requeue_total "r1" busy busy-IsBounded refl

begin_drain_hands_over_example :
    (contains (begin_drain parked).drain_release_ids "r1" ≡ true)
    × (get_by_run_id (begin_drain parked) "r1" ≡ none)
    × (persist_state settings0 10 0 (begin_drain parked) ≡ begin_drain parked)
unfolding is_unscheduled contains is_queued_status is_waiting
begin_drain_hands_over_example =
    begin_drain_hands_over settings0 10 parked store0 0 refl (Memᴰ.head refl) refl

state_from_persisted-persisted_of_example :
    state_from_persisted (persisted_of state0) "uuid"
    ≡ some (record (new_run key0 "uuid" 5) {
      status = RunStatus.waiting_for_approval;
      started_at = some 6;
      ended_at = none;
    })
state_from_persisted-persisted_of_example = state_from_persisted-persisted_of state0 "uuid"

persist_state_durable_example :
    (d' : DurabilityStore memory) × ((persist_state settings0 10 0 parked).durability_store
      ≡ some d')
    × (get_run memory d' "r1" ≡ found (persisted_of state0))
persist_state_durable_example =
    persist_state_durable memory memory_laws settings0 10 parked store0 0 refl refl

persist_terminal_releases_example :
    (resume_requested memory (persist_to settings0 10 store0 "engine-a" RunStatus.failed run0) "r1"
      ≡ false)
    × (holds
          (memory.get
            (persist_to settings0 10 store0 "engine-a" RunStatus.failed run0).db
            (run_lock_key "r1"))
          "engine-a"
        ≡ false)
unfolding is_terminal
persist_terminal_releases_example =
    persist_terminal_releases memory memory_laws settings0 10 store0 "engine-a" RunStatus.failed
      run0 refl
