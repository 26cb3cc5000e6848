-- ===== src/Tests/Outbox.antt =====
-- The theorems on the outbox and the terminal commits, at a store in memory.
use execution_engine.Common.{
  ◌+◌, ◌≡◌, max, none, some, [], ◌∷◌, refl, any, nat_eq, contains, str_eq, ◌&&◌, length, true,
  false, if◌then◌else◌,
}
use execution_engine.Durability.Records.{
  commit_doc, event_hash_key, event_pending_key, pending_runs_key, terminal_commits_key, name, num,
}
use execution_engine.Durability.Redis.{field_eq, has_field}
use execution_engine.Durability.Memory.{memory, memory_laws}
use execution_engine.Durability.Commits.{upsert_terminal_commit, mark_terminal_commit_attempt}
use execution_engine.Durability.Outbox.{
  last_seq, upsert_event, next_event_seq, mark_events_delivered,
}
use execution_engine.Durability.Delivery.{
  latest_seq, next_event_seq-upsert_event, commit_retry_history,
}
use execution_engine.Durability.Acknowledged.{mark_events_delivered_exact}
use execution_engine.Tests.Data.{with_outbox, event1, commit1, pending1}

next_event_seq-upsert_event_example :
    (next_event_seq memory (upsert_event memory with_outbox event1).0 "r1" ≡ some (max 6 7 + 1))
    × ((upsert_event memory with_outbox event1).1 ≡ true)
unfolding last_seq latest_seq
next_event_seq-upsert_event_example =
    next_event_seq-upsert_event memory memory_laws with_outbox event1

mark_events_delivered_exact_example :
    (memory.hget
        (mark_events_delivered memory with_outbox "r1" (7 ∷ [])).db
        (event_hash_key "r1")
        (num 7)
      ≡ (if any (nat_eq 7) (7 ∷ [])
          then none
          else memory.hget with_outbox.db (event_hash_key "r1") (num 7)))
    × (has_field
          (memory.zmembers
            (mark_events_delivered memory with_outbox "r1" (7 ∷ [])).db
            (event_pending_key "r1"))
          (num 7)
        ≡ (if any (λ k. field_eq (num k) (num 7)) (7 ∷ [])
            then false
            else has_field (memory.zmembers with_outbox.db (event_pending_key "r1")) (num 7)))
    × (contains
          (memory.smembers
            (mark_events_delivered memory with_outbox "r1" (7 ∷ [])).db
            pending_runs_key)
          "r1"
        ≡ (if str_eq "r1" "r1"
              && nat_eq
                  (length (
                    memory.zmembers
                      (mark_events_delivered memory with_outbox "r1" (7 ∷ [])).db
                      (event_pending_key "r1")))
                  0
            then false
            else contains (memory.smembers with_outbox.db pending_runs_key) "r1"))
mark_events_delivered_exact_example =
    mark_events_delivered_exact memory memory_laws with_outbox "r1" 7 [] 7 (num 7) "r1"

commit_retry_history_example :
    memory.hget
      (upsert_terminal_commit memory
        (mark_terminal_commit_attempt memory with_outbox 12 "r1").0
        20
        "r1"
        commit1).0.db
      terminal_commits_key
      (name "r1")
    ≡ some (commit_doc (record pending1 { attempts = 3; last_attempt_at = some 12 }))
commit_retry_history_example =
    commit_retry_history memory memory_laws with_outbox pending1 12 20 "r1" commit1 refl
