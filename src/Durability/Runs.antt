-- ===== src/Durability/Runs.antt =====
-- Run records and resume requests of execution_engine/durability.py over several calls.
use execution_engine.Common.{ℕ, String, true, false, Option, none, some, ◌≡◌, ◌≢◌, refl, arith}
use execution_engine.Durability.Records.{
  PersistedRun, Value, run_doc, stamp, name, run_states_key, resume_key, found, missing,
}
use execution_engine.Durability.Redis.{Redis, Laws}
use execution_engine.Durability.Store.{
  DurabilityStore, parse_found, get_run, reserve_run, upsert_run, request_resume,
  resume_request_time, resume_requested, clear_resume_request,
}

-- what `reserve_run` writes
abbrev pub reserved_form : PersistedRun → PersistedRun
reserved_form p = record p { started_at = none; ended_at = none }

name_ne : (i j : String) → i ≢ j → name i ≢ name j
name_ne i j h e = ground arith

parse_found_missing : (v : Option Value) → parse_found v ≡ missing → v ≡ none
unfolding parse_found
parse_found_missing none h = refl
parse_found_missing (some (run_doc p)) h = ground arith
parse_found_missing (some _) h = ground arith

module _ (r : Redis) (laws : Laws r) where
  open r use {State, get, set_nx, hget, hset, hsetnx}

  -- A record is read back as it was written, and the records of other runs are as before.
  pub get_run-upsert_run :
      (s : DurabilityStore r) (p : PersistedRun) (j : String)
      → p.run_id ≢ j
      → (get_run r (upsert_run r s p) p.run_id ≡ found p)
        × (get_run r (upsert_run r s p) j ≡ get_run r s j)
  unfolding get_run upsert_run
  get_run-upsert_run s p j ne = (
    ground (arith, laws.hashes.hget-hset s.db run_states_key (name p.run_id) (run_doc p)),
    rw (
        laws.hashes.hget-hset_ne s.db run_states_key (name p.run_id) (name j) (run_doc p)
          (name_ne p.run_id j ne)),
  )

  -- The reservation of a free run id succeeds and stores the record with no start and no end;
  -- a further reservation of that id fails and changes nothing.
  pub reserve-once :
      (s : DurabilityStore r) (p q : PersistedRun)
      → get_run r s p.run_id ≡ missing
      → q.run_id ≡ p.run_id
      → ((reserve_run r s p).1 ≡ true)
        × (get_run r (reserve_run r s p).0 p.run_id ≡ found (reserved_form p))
        × (reserve_run r (reserve_run r s p).0 q ≡ ((reserve_run r s p).0, false))
  unfolding get_run reserve_run
  reserve-once s p q free same =
      let doc = run_doc (reserved_form p) in
      let absent = parse_found_missing (hget s.db run_states_key (name p.run_id)) free in
      let written = laws.hashes.hsetnx_free s.db run_states_key (name p.run_id) doc absent in
      let stored = laws.hashes.hget-hset s.db run_states_key (name p.run_id) doc in
      let refused =
        laws.hashes.hsetnx_taken (hset s.db run_states_key (name p.run_id) doc) run_states_key
          (name p.run_id) (run_doc (reserved_form q)) doc stored in
      rw (written, same) (refl, ground (arith, stored), ground (arith, refused))

  stamp_kept :
      (db : State) (id : String) (t : ℕ) (v : Value)
      → get db (resume_key id) ≡ some (stamp t)
      → get (set_nx db (resume_key id) v).0 (resume_key id) ≡ some (stamp t)
  stamp_kept db id t v h = rw (laws.strings.set_nx_taken db (resume_key id) v (stamp t) h) h

  -- While no request is stored, the first resume request of a run sets its time; a later one
  -- leaves that time as it is, and clearing removes it.
  pub resume_request_stands :
      (s : DurabilityStore r) (t u : ℕ) (id : String)
      → resume_requested r s id ≡ false
      → (resume_request_time r (request_resume r (request_resume r s t id) u id) id ≡ some t)
        × (resume_requested r
              (clear_resume_request r (request_resume r (request_resume r s t id) u id) id)
              id
            ≡ false)
  unfolding resume_requested request_resume resume_request_time clear_resume_request
  resume_request_stands s t u id h =
      let absent : get s.db (resume_key id) ≡ none = ground arith in
      let first = laws.strings.get-set_nx_free s.db (resume_key id) (stamp t) absent in
      let db' = (set_nx s.db (resume_key id) (stamp t)).0 in
      let second = stamp_kept db' id t (stamp u) first in
      (
        ground (arith, second),
        ground (
          arith,
          laws.strings.get-delete (set_nx db' (resume_key id) (stamp u)).0 (resume_key id),
        ),
      )
