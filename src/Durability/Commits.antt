-- ===== src/Durability/Commits.antt =====
-- `DurabilityStore` of execution_engine/durability.py: the terminal commits.
use execution_engine.Common.{
  ℕ, ◌+◌, ◌-◌, String, Bool, true, false, Option, none, some, List, [], ◌∷◌, ltb, length, take,
  drop, max, if◌then◌else◌,
}
use execution_engine.Durability.Records.{
  CommitRequest, PendingTerminalCommit, Value, commit_doc, Field, name, num, terminal_commits_key,
  terminal_pending_key, Fetch, missing, found, invalid,
}
use execution_engine.Durability.Redis.{Redis}
use execution_engine.Durability.Store.{DurabilityStore}

-- `json.loads(existing) if existing else {}`: what is kept of an earlier intent
unfoldable pub existing_commit : Option Value → Fetch PendingTerminalCommit
existing_commit none = missing
existing_commit (some (commit_doc c)) = found c
existing_commit (some _) = invalid

-- the payload of `upsert_terminal_commit`
unfoldable pub commit_payload :
    ℕ → String → CommitRequest → Fetch PendingTerminalCommit → Option PendingTerminalCommit
commit_payload now id c missing =
    some
      (record { run_id = id; commit = c; created_at = now; attempts = 0; last_attempt_at = none })
commit_payload now id c (found p) = some (record p { run_id = id; commit = c })
commit_payload now id c invalid = none

abbrev pub cons_some :
    Option PendingTerminalCommit → List PendingTerminalCommit → List PendingTerminalCommit
cons_some none cs = cs
cons_some (some c) cs = c ∷ cs

-- An operation that may raise returns `false` beside what it wrote before.
module _ (r : Redis) where
  open r use {State, hget, hset, hsetnx, hdel, hgetall, smembers, sadd, srem, zmembers, zadd, zrem}

  -- attempts and creation time of an earlier intent are kept
  unfoldable pub upsert_terminal_commit :
      DurabilityStore r → ℕ → String → CommitRequest → DurabilityStore r × Bool
  unfolding existing_commit commit_payload
  upsert_terminal_commit s now id c =
      elim (commit_payload now id c (existing_commit (hget s.db terminal_commits_key (name id)))) [
        | none ↦ (s, false)
        | some p ↦ (
          record s {
            db =
                zadd (hset s.db terminal_commits_key (name id) (commit_doc p)) terminal_pending_key
                  (name id) p.created_at;
          },
          true,
        )
      ]

  unfoldable pub mark_terminal_commit_attempt :
      DurabilityStore r → ℕ → String → DurabilityStore r × Bool
  unfolding existing_commit
  mark_terminal_commit_attempt s now id =
      elim (existing_commit (hget s.db terminal_commits_key (name id))) [
        | missing ↦ (s, true)
        | found p ↦ (
          record s {
            db =
                hset s.db terminal_commits_key (name id)
                  (commit_doc (record p { attempts = p.attempts + 1; last_attempt_at = some now }));
          },
          true,
        )
        | invalid ↦ (s, false)
      ]

  unfoldable pub mark_terminal_commit_delivered : DurabilityStore r → String → DurabilityStore r
  mark_terminal_commit_delivered s id = record s {
    db = zrem (hdel s.db terminal_commits_key (name id)) terminal_pending_key (name id);
  }

  unfoldable pub pending_terminal_commit_count : DurabilityStore r → ℕ
  pending_terminal_commit_count s = length (zmembers s.db terminal_pending_key)

  unfoldable pub is_past : Option ℕ → ℕ → ℕ → Bool
  is_past none now created = false
  is_past (some retention) now created = ltb retention (now - created)

  -- one member of the index, a run id: a stale one leaves it, an expired intent is dropped, one
  -- that does not decode is retained and not listed
  unfoldable pub read_commit :
      DurabilityStore r → ℕ → Option ℕ → String → DurabilityStore r × Option PendingTerminalCommit
  unfolding mark_terminal_commit_delivered existing_commit is_past
  read_commit s now retention id =
      elim (existing_commit (hget s.db terminal_commits_key (name id))) [
        | missing ↦ (record s { db = zrem s.db terminal_pending_key (name id) }, none)
        | found p ↦
            if is_past retention now p.created_at
            then (mark_terminal_commit_delivered s id, none)
            else (s, some (record p { run_id = id }))
        | invalid ↦ (s, none)
      ]

  -- the members are run ids: no sequence number is ever added to this index
  unfoldable pub read_commits :
      DurabilityStore r → ℕ → Option ℕ → List Field → DurabilityStore r × List PendingTerminalCommit
  unfolding read_commit
  read_commits s now retention [] = (s, [])
  read_commits s now retention (num n ∷ fs) = read_commits s now retention fs
  read_commits s now retention (name id ∷ fs) =
      let (s1, c) = read_commit s now retention id in
      let (s2, cs) = read_commits s1 now retention fs in (s2, cons_some c cs)

  -- `zrange(key, offset, offset + max(limit - 1, 0))`
  unfoldable pub list_pending_terminal_commits :
      DurabilityStore r → ℕ → ℕ → Option ℕ → ℕ → DurabilityStore r × List PendingTerminalCommit
  unfolding read_commits
  list_pending_terminal_commits s now limit retention offset =
      read_commits s now retention
        (take (max limit 1) (drop offset (zmembers s.db terminal_pending_key)))
