-- ===== src/Durability/Delivery.antt =====
-- The event outbox and the terminal commits of execution_engine/durability.py over several calls.
use mathlib.Core.Option
use execution_engine.Common.{
  ℕ, ◌+◌, max, String, Option, is_some, none, some, ◌≡◌, ◌∙◌, arith, get_or, Option-cases, inl, inr,
}
use execution_engine.Durability.Records.{
  Event, CommitRequest, PendingTerminalCommit, Value, Key, Field, event_doc, commit_doc, number,
  name, num, event_hash_key, event_pending_key, event_last_seq_key, pending_runs_key,
  terminal_commits_key, terminal_pending_key, Fetch, missing, found, invalid,
}
use execution_engine.Durability.Redis.{Redis, Laws}
use execution_engine.Durability.Store.{DurabilityStore}
use execution_engine.Durability.Commits.{
  existing_commit, commit_payload, upsert_terminal_commit, mark_terminal_commit_attempt,
}
use execution_engine.Durability.Outbox.{
  last_seq, is_newer, append_event, upsert_event, next_event_seq,
}

-- the larger of the last number known, if any, and of `seq`; the exception for a number that does not
-- decode
unfoldable pub latest_seq : Fetch ℕ → ℕ → Option ℕ
latest_seq missing seq = some seq
latest_seq (found n) seq = some (max n seq)
latest_seq invalid seq = none

module _ (r : Redis) (laws : Laws r) where
  open r use {State, hget, hset, hsetnx, hdel, smembers, sadd, srem, zmembers, zadd, zrem}

  hget-hsetnx :
      (db : State) (k : Key) (f : Field) (v : Value)
      → hget (hsetnx db k f v).0 k f ≡ some (get_or (hget db k f) v)
  hget-hsetnx db k f v = elim (Option-cases (hget db k f)) [
    | inl free ↦ rw (laws.hashes.hsetnx_free db k f v free, free) (laws.hashes.hget-hset db k f v)
    | inr (w, taken) ↦ rw (laws.hashes.hsetnx_taken db k f v w taken, taken)
  ]

  -- appending an event touches the last-sequence hash of no run
  hget-append_event :
      (db : State) (e : Event) (f : Field)
      → hget (append_event r db e) event_last_seq_key f ≡ hget db event_last_seq_key f
  unfolding append_event
  hget-append_event db e f =
      let db1 = (hsetnx db (event_hash_key e.run_id) (num e.seq) (event_doc e)).0 in
      let db2 = zadd db1 (event_pending_key e.run_id) (num e.seq) e.seq in
      (laws.frame.sadd_other db2 pending_runs_key event_last_seq_key e.run_id (λ p. cc)).hget_same f
      ∙ (laws.frame.zadd_other db1 (event_pending_key e.run_id) event_last_seq_key (num e.seq) e.seq
            (λ p. cc)).hget_same
          f
      ∙ (laws.frame.hsetnx_other db (event_hash_key e.run_id) event_last_seq_key (num e.seq)
            (event_doc e) (λ p. cc)).hget_same
          f

  -- After an event is stored, the next sequence number of its run is one more than the larger of
  -- the last number known before, if any, and the event's own. Both operations raise if the last
  -- number known does not decode.
  pub next_event_seq-upsert_event :
      (s : DurabilityStore r) (e : Event)
      → (next_event_seq r (upsert_event r s e).0 e.run_id
          ≡ Option.map
              (λ n. n + 1)
              (latest_seq (last_seq (hget s.db event_last_seq_key (name e.run_id))) e.seq))
        × ((upsert_event r s e).1
            ≡ is_some (latest_seq (last_seq (hget s.db event_last_seq_key (name e.run_id))) e.seq))
  unfolding upsert_event next_event_seq is_newer last_seq latest_seq
  next_event_seq-upsert_event s e =
      let same = hget-append_event s.db e (name e.run_id) in
      let db' = append_event r s.db e in
      let own = laws.hashes.hget-hset db' event_last_seq_key (name e.run_id) (number e.seq) in
      (ground (arith, same, own), ground (arith, same, own))

  -- The payload of a sequence number is the one stored first: storing an event again, with
  -- whatever content, leaves the stored one, and a new event is stored as it is.
  pub upsert_event_first :
      (s : DurabilityStore r) (e : Event)
      → hget (upsert_event r s e).0.db (event_hash_key e.run_id) (num e.seq)
        ≡ some (get_or (hget s.db (event_hash_key e.run_id) (num e.seq)) (event_doc e))
  unfolding upsert_event is_newer last_seq append_event
  upsert_event_first s e =
      let hash = event_hash_key e.run_id in
      let pending = event_pending_key e.run_id in
      let db1 = (hsetnx s.db hash (num e.seq) (event_doc e)).0 in
      let db2 = zadd db1 pending (num e.seq) e.seq in
      let db3 = sadd db2 pending_runs_key e.run_id in
      let same =
        (laws.frame.sadd_other db2 pending_runs_key hash e.run_id (λ p. cc)).hget_same (num e.seq)
        ∙ (laws.frame.zadd_other db1 pending hash (num e.seq) e.seq (λ p. cc)).hget_same
            (num e.seq) in
      let last =
        (laws.frame.hset_other db3 event_last_seq_key hash (name e.run_id) (number e.seq)
            (λ p. cc)).hget_same
          (num e.seq) in
      let written = hget-hsetnx s.db hash (num e.seq) (event_doc e) in
      ground (arith, same, last, written)

  -- A failed delivery attempt and a new intent for the same run keep the creation time and count
  -- the attempt.
  pub commit_retry_history :
      (s : DurabilityStore r) (p : PendingTerminalCommit) (t now : ℕ) (id : String)
      (c : CommitRequest)
      → hget s.db terminal_commits_key (name id) ≡ some (commit_doc p)
      → hget
          (upsert_terminal_commit r (mark_terminal_commit_attempt r s t id).0 now id c).0.db
          terminal_commits_key
          (name id)
        ≡ some (
            commit_doc (record p {
              run_id = id;
              commit = c;
              attempts = p.attempts + 1;
              last_attempt_at = some t;
            }))
  unfolding upsert_terminal_commit mark_terminal_commit_attempt existing_commit commit_payload
  commit_retry_history s p t now id c h =
      let tried = record p { attempts = p.attempts + 1; last_attempt_at = some t } in
      let next = record tried { run_id = id; commit = c } in
      let db1 = hset s.db terminal_commits_key (name id) (commit_doc tried) in
      let own1 = laws.hashes.hget-hset s.db terminal_commits_key (name id) (commit_doc tried) in
      let db2 = hset db1 terminal_commits_key (name id) (commit_doc next) in
      let own2 = laws.hashes.hget-hset db1 terminal_commits_key (name id) (commit_doc next) in
      let same =
        (laws.frame.zadd_other db2 terminal_pending_key terminal_commits_key (name id) p.created_at
            (λ q. cc)).hget_same
          (name id) in
      ground (arith, h, own1, own2, same)
