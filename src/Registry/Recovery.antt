-- ===== src/Registry/Recovery.antt =====
-- The recovery operations of `RunRegistry` in execution_engine/run_registry.py: the claim under which
-- durable work is replayed, and the delivery of pending events and terminal commits.
use execution_engine.Common.{
  ℕ, ◌+◌, String, Bool, true, false, not, ◌&&◌, none, some, List, [], ◌∷◌, map, length, max,
  contains, if◌then◌else◌,
}
use execution_engine.Durability.Records.{Event, missing, found, invalid}
use execution_engine.Durability.Redis.{Redis}
use execution_engine.Durability.Store.{
  DurabilityStore, active_statuses, get_run, acquire_run_lock, release_run_lock, load_authority,
}
use execution_engine.Durability.Outbox.{list_pending_events, mark_events_delivered}
use execution_engine.Durability.Commits.{
  mark_terminal_commit_attempt, mark_terminal_commit_delivered,
}
use execution_engine.Registry.State.{Settings, Registry, get_by_run_id, forget_local_run}
use execution_engine.Registry.Identity.{is_queued_status}

-- one call of the control plane: whether it is accepted within its time, and what the other tasks do
-- to the registry meanwhile
pub record Delivery (r : Redis) : Type 0 where
  pub accepted : Bool
  pub meanwhile : Registry r → Registry r

-- what the claim gives: no lock, or the lock, and whether the body may work under it
pub data Claim : Type 0 where
  unclaimed : Claim
  held : Bool → Claim

-- `not persisted or persisted.status not in ACTIVE_STATUSES`; a record that does not decode raises,
-- and the body is not run either
unfoldable pub is_settled : {r : Redis} → DurabilityStore r → String → Bool
is_settled {r} d id = elim (get_run r d id) [
  | missing ↦ true
  | found p ↦ not (contains active_statuses p.status)
  | invalid ↦ false
]

-- how one run went: the registry, how much was delivered, and whether the control plane was called
pub record Replay (r : Redis) : Type 0 where
  pub registry : Registry r
  pub delivered : ℕ
  pub called : Bool

module _ {r : Redis} where
  unfoldable pub put_store : DurabilityStore r → Registry r → Registry r
  put_store d g = record g { durability_store = some d }

  -- a write to the store as it is by then
  unfoldable pub in_store : (DurabilityStore r → DurabilityStore r) → Registry r → Registry r
  unfolding put_store
  in_store f g = elim g.durability_store [ none ↦ g | some d ↦ put_store (f d) g ]

module _ {r : Redis} (cfg : Settings) (now : ℕ) where
  -- `_recovery_claim` up to its `yield`
  unfoldable pub recovery_claim :
      String → String → Bool → DurabilityStore r → Registry r → DurabilityStore r × Claim
  unfolding is_settled
  recovery_claim id owner delivery d g =
      let ttl = max cfg.run_id_lock_ttl_seconds (cfg.orch_retry_max_elapsed_seconds + 30) in
      let (d', claimed) = acquire_run_lock r d now id owner ttl in
      let prepared =
        if delivery && not cfg.workspace_capacity_enabled then is_settled d' id else true in
      if contains g.scheduled id
      then (d, unclaimed)
      else if claimed
      then (d', held prepared)
      else (d', unclaimed)

  -- its `finally`: a resume that was accepted during the replay waits behind the claim, and its
  -- unscheduled cache is dropped
  unfoldable pub release_recovery : String → String → Registry r → Registry r
  unfolding in_store
  release_recovery id owner g =
      let g' = in_store (λ d. release_run_lock r d id owner) g in
      elim (get_by_run_id g' id) [
        | none ↦ g'
        | some ref ↦
            if is_queued_status (g'.objects ref).status
              && not (contains g'.queued id)
              && not (contains g'.scheduled id)
            then forget_local_run id g'
            else g'
      ]

  -- what is done under the claim, with its release
  unfoldable pub under_claim :
      Claim
      → String
      → String
      → (DurabilityStore r → Registry r → Replay r)
      → DurabilityStore r
      → Registry r
      → Replay r
  unfolding put_store
  under_claim unclaimed id owner body d g = record {
    registry = put_store d g;
    delivered = 0;
    called = false;
  }
  under_claim (held prepared) id owner body d g =
      let done =
        if prepared
        then body d (put_store d g)
        else record { registry = put_store d g; delivered = 0; called = false } in
      record done { registry = release_recovery id owner done.registry }

  -- `with self._recovery_claim(…) as claimed: if not claimed: continue; body`
  unfoldable pub with_claim :
      String
      → String
      → Bool
      → (DurabilityStore r → Registry r → Replay r)
      → DurabilityStore r
      → Registry r
      → Replay r
  unfolding under_claim
  with_claim id owner delivery body d g =
      let (d', claim) = recovery_claim id owner delivery d g in under_claim claim id owner body d' g

  -- the post of the events that were read, and their acknowledgement
  unfoldable pub post_events : Delivery r → String → List Event → Registry r → Replay r
  unfolding in_store
  post_events send id es g =
      let g' = send.meanwhile g in
      if send.accepted
      then record {
        registry = in_store (λ d. mark_events_delivered r d id (map (λ e. e.seq) es)) g';
        delivered = length es;
        called = true;
      }
      else record { registry = g'; delivered = 0; called = true }

  -- the body of the loop of `flush_pending_events`; an authority that does not decode raises
  unfoldable pub replay_events : Delivery r → String → DurabilityStore r → Registry r → Replay r
  unfolding put_store post_events
  replay_events send id d g =
      let (d', read) = list_pending_events r d id 100 in
      let kept : Replay r = record { registry = put_store d' g; delivered = 0; called = false } in
      elim read [
        | none ↦ kept
        | some [] ↦ kept
        | some (e ∷ es) ↦ elim (load_authority r d' id) [
          | invalid ↦ kept
          | missing ↦ post_events send id (e ∷ es) (put_store d' g)
          | found a ↦ post_events send id (e ∷ es) (put_store d' g)
        ]
      ]

  -- the commit is sent under the authority of its run
  unfoldable pub send_commit : Delivery r → String → DurabilityStore r → Registry r → Replay r
  unfolding put_store in_store
  send_commit send id d g =
      let (d', marked) = mark_terminal_commit_attempt r d now id in
      let kept : Replay r = record { registry = put_store d' g; delivered = 0; called = false } in
      let g' = send.meanwhile (put_store d' g) in
      let sent : Replay r =
        if send.accepted
        then record {
          registry = in_store (λ d. mark_terminal_commit_delivered r d id) g';
          delivered = 1;
          called = true;
        }
        else record { registry = g'; delivered = 0; called = true } in
      if marked
      then (elim (load_authority r d' id) [ invalid ↦ kept | missing ↦ sent | found a ↦ sent ])
      else kept

  -- the body of the loop of `flush_pending_terminal_commits`: events go first
  unfoldable pub replay_commit : Delivery r → String → DurabilityStore r → Registry r → Replay r
  unfolding put_store send_commit
  replay_commit send id d g =
      let (d', read) = list_pending_events r d id 1 in
      elim read [
        | some [] ↦ send_commit send id d' g
        | some (e ∷ es) ↦ record { registry = put_store d' g; delivered = 0; called = false }
        | none ↦ record { registry = put_store d' g; delivered = 0; called = false }
      ]
