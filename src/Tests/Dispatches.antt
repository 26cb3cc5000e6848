-- ===== src/Tests/Dispatches.antt =====
-- A refused execution, at one dispatched run.
use execution_engine.Common.{◌≡◌, some, refl}
use execution_engine.Durability.Records.{found}
use execution_engine.Durability.Memory.{memory, memory_laws}
use execution_engine.Durability.Store.{DurabilityStore, get_run}
use execution_engine.Registry.State.{Registry, persisted_of}
use execution_engine.Capacity.Dispatch.{fail_run, dispatch}
use execution_engine.Capacity.Outcome.{dispatch-fail_durable}
use execution_engine.Tests.Data.{store0, state0, settings0, parked, uuids}

dispatch-fail_durable_example :
    (h : Registry memory) × (d' : DurabilityStore memory) × (dispatch settings0 10 uuids fail_run 0
        parked
      ≡ some h)
    × (h.durability_store ≡ some d')
    × (get_run memory d' "r1"
        ≡ found (record (persisted_of state0) { status = "failed"; ended_at = some 10 }))
dispatch-fail_durable_example =
    dispatch-fail_durable memory memory_laws settings0 10 uuids 0 parked store0 refl refl
