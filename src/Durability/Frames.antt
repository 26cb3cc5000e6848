-- ===== src/Durability/Frames.antt =====
-- Which records of execution_engine/durability.py an operation on another kind of record leaves
-- alone.
use execution_engine.Common.{ℕ, String, false, ◌≡◌, arith, ap, Bool-cases, inl, inr}
use execution_engine.Durability.Records.{owner_name, name, run_states_key, run_lock_key, resume_key}
use execution_engine.Durability.Redis.{Redis, Laws}
use execution_engine.Durability.Store.{
  DurabilityStore, holds, parse_found, get_run, acquire_run_lock, release_run_lock,
  clear_resume_request, resume_requested,
}

module _ (r : Redis) (laws : Laws r) where
  open r use {get, set_nx, delete, hget}

  pub get_run-release_run_lock :
      (s : DurabilityStore r) (id owner j : String)
      → get_run r (release_run_lock r s id owner) j ≡ get_run r s j
  unfolding get_run release_run_lock
  get_run-release_run_lock s id owner j = ground (
    arith,
    (laws.frame.delete_other s.db (run_lock_key id) run_states_key (λ e. cc)).hget_same (name j),
  )

  pub get_run-acquire_run_lock :
      (s : DurabilityStore r) (now : ℕ) (id owner : String) (ttl : ℕ) (j : String)
      → get_run r (acquire_run_lock r s now id owner ttl).0 j ≡ get_run r s j
  unfolding get_run acquire_run_lock
  get_run-acquire_run_lock s now id owner ttl j = ap parse_found (
      (laws.frame.set_nx_other s.db (run_lock_key id) run_states_key (owner_name owner)
          (λ e. cc)).hget_same
        (name j))

  pub get_run-clear_resume_request :
      (s : DurabilityStore r) (id j : String)
      → get_run r (clear_resume_request r s id) j ≡ get_run r s j
  unfolding get_run clear_resume_request
  get_run-clear_resume_request s id j =
      ap parse_found
        ((laws.frame.delete_other s.db (resume_key id) run_states_key (λ e. cc)).hget_same (name j))

  pub resume_requested-release_run_lock :
      (s : DurabilityStore r) (id owner j : String)
      → resume_requested r (release_run_lock r s id owner) j ≡ resume_requested r s j
  unfolding resume_requested release_run_lock
  resume_requested-release_run_lock s id owner j =
      ground
        (arith, (laws.frame.delete_other s.db (run_lock_key id) (resume_key j) (λ e. cc)).get_same)

  pub resume_requested-clear :
      (s : DurabilityStore r) (id : String)
      → resume_requested r (clear_resume_request r s id) id ≡ false
  unfolding resume_requested clear_resume_request
  resume_requested-clear s id = ground (arith, laws.strings.get-delete s.db (resume_key id))

  -- after a release the caller does not hold the lock, whoever held it before
  pub holds-release_run_lock :
      (s : DurabilityStore r) (id owner : String)
      → holds (get (release_run_lock r s id owner).db (run_lock_key id)) owner ≡ false
  unfolding release_run_lock holds
  holds-release_run_lock s id owner = elim (Bool-cases (holds (get s.db (run_lock_key id)) owner)) [
    | inl mine ↦ ground (arith, mine, laws.strings.get-delete s.db (run_lock_key id))
    | inr other ↦ ground (arith, other)
  ]
