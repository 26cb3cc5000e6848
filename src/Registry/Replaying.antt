-- ===== src/Registry/Replaying.antt =====
-- The rounds of recovery of `RunRegistry` in execution_engine/run_registry.py: `flush_pending_events`,
-- `flush_pending_terminal_commits` and `deliver_terminal_commit`.
-- `owner n` is the n-th recovery owner that is drawn, `send n` the n-th call of the control plane.
use execution_engine.Common.{
  ℕ, suc, ◌+◌, ◌%◌, String, Bool, true, false, ◌&&◌, none, some, List, [], ◌∷◌, ◌++◌, length, take,
  drop, max, if◌then◌else◌,
}
use execution_engine.Durability.Records.{CommitRequest, PendingTerminalCommit}
use execution_engine.Durability.Redis.{Redis}
use execution_engine.Durability.Store.{DurabilityStore}
use execution_engine.Durability.Outbox.{list_pending_run_ids}
use execution_engine.Durability.Commits.{
  upsert_terminal_commit, mark_terminal_commit_attempt, mark_terminal_commit_delivered,
  pending_terminal_commit_count, list_pending_terminal_commits,
}
use execution_engine.Registry.State.{Settings, Registry}
use execution_engine.Registry.Recovery.{
  Delivery, Replay, in_store, put_store, with_claim, replay_events, replay_commit,
}

unfoldable pub run_ids : List PendingTerminalCommit → List String
run_ids [] = []
run_ids (c ∷ cs) = c.run_id ∷ run_ids cs

module _ {r : Redis} (cfg : Settings) (now : ℕ) where
  -- one run of a batch, against the store as it is by then
  unfoldable pub replay_run :
      (DurabilityStore r → Registry r → Replay r) → String → String → Registry r → Replay r
  replay_run body owner id g = elim g.durability_store [
    | none ↦ record { registry = g; delivered = 0; called = false }
    | some d ↦ with_claim cfg now id owner true body d g
  ]

  unfoldable pub replay_batch :
      (Delivery r → String → DurabilityStore r → Registry r → Replay r)
      → (ℕ → Delivery r)
      → (ℕ → String)
      → List String
      → Registry r
      → Registry r × ℕ
  replay_batch body send owner [] g = (g, 0)
  replay_batch body send owner (id ∷ ids) g =
      let done = replay_run (body (send 0) id) (owner 0) id g in
      let rest = replay_batch body (λ n. send (suc n)) (λ n. owner (suc n)) ids done.registry in
      (rest.0, done.delivered + rest.1)

  unfoldable pub flush_pending_events :
      (ℕ → Delivery r) → (ℕ → String) → Registry r → Registry r × ℕ
  flush_pending_events send owner g = elim g.durability_store [
    | none ↦ (g, 0)
    | some d ↦
        let ids = list_pending_run_ids r d in
        let offset = g.event_recovery_offset % max (length ids) 1 in
        let batch = take 25 (drop offset ids ++ take offset ids) in
        let g' = record g {
          event_recovery_offset = (offset + length batch) % max (length ids) 1;
        } in
        replay_batch (replay_events cfg now) send owner batch g'
  ]

  unfoldable pub flush_pending_terminal_commits :
      ℕ → (ℕ → Delivery r) → (ℕ → String) → Registry r → Registry r × ℕ
  unfolding put_store run_ids
  flush_pending_terminal_commits limit send owner g = elim g.durability_store [
    | none ↦ (g, 0)
    | some d ↦
        let offset = g.commit_recovery_offset % max (pending_terminal_commit_count r d) 1 in
        let (d', pending) =
          list_pending_terminal_commits r d now limit (some cfg.terminal_commit_retention_seconds)
            offset in
        let g' = record (put_store d' g) { commit_recovery_offset = offset + limit } in
        replay_batch (replay_commit cfg now) send owner (run_ids pending) g'
  ]

  -- an intent that does not decode raises before the delivery
  unfoldable pub deliver_terminal_commit :
      Delivery r → String → CommitRequest → Registry r → Registry r × Bool
  unfolding in_store put_store
  deliver_terminal_commit send id c g =
      let send_to = λ (g' : Registry r).
        (let after = send.meanwhile g' in
          if send.accepted
          then (in_store (λ d. mark_terminal_commit_delivered r d id) after, true)
          else (after, false)) in
      elim g.durability_store [
        | none ↦ send_to g
        | some d ↦
            let (d1, stored) = upsert_terminal_commit r d now id c in
            let (d2, marked) = mark_terminal_commit_attempt r d1 now id in
            if stored && marked then send_to (put_store d2 g) else (put_store d2 g, false)
      ]
