-- ===== src/Tests/Recoveries.antt =====
-- The theorems on the recovery operations of the registry, over the Redis in memory.
use execution_engine.Common.{◌≡◌, true, false, some, refl, contains}
use execution_engine.Common.Dict.{lookup}
use execution_engine.Durability.Records.{found}
use execution_engine.Durability.Memory.{memory, memory_laws}
use execution_engine.Durability.Store.{DurabilityStore, get_run, acquire_run_lock, load_authority}
use execution_engine.Durability.Outbox.{list_pending_events}
use execution_engine.Durability.Commits.{mark_terminal_commit_attempt}
use execution_engine.Registry.Identity.{RunStatus, status_of}
use execution_engine.Registry.State.{get_by_run_id}
use execution_engine.Registry.Recovery.{
  Delivery, held, recovery_claim, under_claim, with_claim, replay_commit, send_commit,
}
use execution_engine.Registry.Restart.{fail_run}
use execution_engine.Registry.Replays.{
  NoneFirst, commit_after_events, fail_run_durable, failed_record,
}
use execution_engine.Tests.Data.{store0, with_outbox, run0, settings0, registry0, uuids}

abbrev accepting : Delivery memory
accepting = record { accepted = true; meanwhile = λ g. g }

commit_after_events_example :
    (contains registry0.scheduled "r1" ≡ false)
    × ((recovery_claim settings0 10 "r1" "recovery:1" true with_outbox registry0).1 ≡ held true)
    × NoneFirst (recovery_claim settings0 10 "r1" "recovery:1" true with_outbox registry0).0 "r1"
unfolding with_claim recovery_claim under_claim replay_commit send_commit acquire_run_lock get_run
    list_pending_events load_authority mark_terminal_commit_attempt contains
commit_after_events_example =
    commit_after_events settings0 10 accepting "r1" "recovery:1" with_outbox registry0 refl

fail_run_durable_example :
    (d' : DurabilityStore memory) × ((fail_run settings0 10 uuids run0 5 10
        registry0).registry.durability_store
      ≡ some d')
    × (get_run memory d' "r1" ≡ found (failed_record run0 5 10))
    × ((fail_run settings0 10 uuids run0 5 10 registry0).delivered ≡ 1)
unfolding get_by_run_id status_of lookup
fail_run_durable_example =
    fail_run_durable memory memory_laws settings0 10 uuids run0 5 10 registry0 store0
      RunStatus.running refl refl refl
