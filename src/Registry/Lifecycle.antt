-- ===== src/Registry/Lifecycle.antt =====
-- `get_or_create` of execution_engine/run_registry.py: a run id is an idempotency key.
use execution_engine.Common.{ℕ, String, none, some, if◌then◌else◌}
use execution_engine.Common.Dict.{lookup}
use execution_engine.Durability.Records.{PersistedRun, Fetch, missing, found, invalid}
use execution_engine.Durability.Redis.{Redis}
use execution_engine.Durability.Store.{DurabilityStore, get_run, reserve_run, acquire_run_lock}
use execution_engine.Registry.Identity.{RunKey, key_eq, runs_get}
use execution_engine.Registry.State.{
  Ref, Settings, Registry, new_run, persisted_key, state_from_persisted, persisted_of,
}
use execution_engine.Registry.Scheduling.{persist_state}
use execution_engine.Registry.Completion.{register}

-- the state of the run and whether it is new, or the exception
pub data Outcome : Type 0 where
  created existing : Ref → Outcome
  -- `ServiceDraining`
  refused_draining : Outcome
  -- `ValueError`: another identity has the run id
  different_identity : Outcome
  -- `ValueError`: neither reserved nor stored
  not_reserved : Outcome
  -- an exception of the decoder, of `RunStatus` or of a dictionary
  corrupt : Outcome

module _ {r : Redis} (cfg : Settings) (now : ℕ) (uuid : ℕ → String) where
  -- a persisted run becomes a local one if its identity is the one asked for
  unfoldable pub adopt : RunKey → PersistedRun → Registry r → Registry r × Outcome
  unfolding register
  adopt key p g =
      if key_eq (persisted_key p) key
      then (elim (state_from_persisted p (uuid g.next_ref)) [
        | none ↦ (g, corrupt)
        | some s ↦ (register cfg now uuid s g, existing g.next_ref)
      ])
      else (g, different_identity)

  -- the reservation was lost to another replica: its record decides
  unfoldable pub adopt_winner : RunKey → Fetch PersistedRun → Registry r → Registry r × Outcome
  unfolding adopt
  adopt_winner key missing g = (g, not_reserved)
  adopt_winner key (found p) g = adopt key p g
  adopt_winner key invalid g = (g, corrupt)

  -- a free run id is reserved, its lock is taken and the run is registered
  unfoldable pub reserve : RunKey → DurabilityStore r → Registry r → Registry r × Outcome
  unfolding adopt_winner register
  reserve key d g =
      let s = new_run key (uuid g.next_ref) now in
      let (d1, reserved) = reserve_run r d (persisted_of s) in
      let d2 = (acquire_run_lock r d1 now key.run_id g.owner_id cfg.run_id_lock_ttl_seconds).0 in
      if reserved
      then (register cfg now uuid s (record g { durability_store = some d2 }), created g.next_ref)
      else adopt_winner key (get_run r d1 key.run_id) (record g { durability_store = some d1 })

  unfoldable pub look_up_or_reserve :
      RunKey → DurabilityStore r → Fetch PersistedRun → Registry r → Registry r × Outcome
  unfolding adopt reserve
  look_up_or_reserve key d missing g = reserve key d g
  look_up_or_reserve key d (found p) g = adopt key p g
  look_up_or_reserve key d invalid g = (g, corrupt)

  -- with no store the run lives in memory alone
  unfoldable pub create_run : RunKey → Registry r → Registry r × Outcome
  unfolding look_up_or_reserve register persist_state
  create_run key g = elim g.durability_store [
    | some d ↦ look_up_or_reserve key d (get_run r d key.run_id) g
    | none ↦ (
      persist_state cfg now g.next_ref
          (register cfg now uuid (new_run key (uuid g.next_ref) now) g),
      created g.next_ref,
    )
  ]

  -- the run id is known locally
  unfoldable pub known_run : RunKey → RunKey → Registry r → Outcome
  known_run key known g =
      if key_eq known key
      then (elim (runs_get known g.runs) [ none ↦ corrupt | some ref ↦ existing ref ])
      else different_identity

  unfoldable pub get_or_create : RunKey → Registry r → Registry r × Outcome
  unfolding known_run create_run
  get_or_create key g =
      if g.draining then (g, refused_draining) else elim (lookup key.run_id g.run_id_to_key) [
        | some known ↦ (g, known_run key known g)
        | none ↦ create_run key g
      ]
