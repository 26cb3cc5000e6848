-- ===== src/Durability/Acknowledged.antt =====
-- `mark_events_delivered` of execution_engine/durability.py: what an acknowledgement removes.
use native.Mathlib.Decide.{ℕ_discrete}
use execution_engine.Common.{
  by_test, ap, length, contains, str_eq, false, ◌&&◌, ℕ, String, none, List, [], ◌∷◌, ◌≡◌, ◌≢◌, ◌∙◌,
  refl, arith, any, nat_eq, if◌then◌else◌,
}
use execution_engine.Durability.Records.{
  Key, Field, num, event_hash_key, event_pending_key, pending_runs_key,
}
use execution_engine.Durability.Redis.{Redis, field_eq, has_field, Laws}
use execution_engine.Durability.Store.{DurabilityStore}
use execution_engine.Durability.Outbox.{remove_events, mark_events_delivered}

num_ne : (m n : ℕ) → m ≢ n → num m ≢ num n
num_ne m n h e = ground arith

module _ (r : Redis) (laws : Laws r) where
  open r use {State, hget, hset, hsetnx, hdel, smembers, sadd, srem, zmembers, zadd, zrem}

  hget-hdel_num :
      (db : State) (k : Key) (n m : ℕ)
      → hget (hdel db k (num n)) k (num m) ≡ (if nat_eq n m then none else hget db k (num m))
  hget-hdel_num db k n m = elim (ℕ_discrete n m) [
    | yes same ↦ ground (arith, same, laws.hashes.hget-hdel db k (num m))
    | no other ↦
        ground (arith, other, laws.hashes.hget-hdel_ne db k (num n) (num m) (num_ne n m other))
  ]

  hget-remove_events :
      (db : State) (id : String) (ns : List ℕ) (m : ℕ)
      → hget (remove_events r db id ns) (event_hash_key id) (num m)
        ≡ (if any (nat_eq m) ns then none else hget db (event_hash_key id) (num m))
  unfolding remove_events any
  hget-remove_events db id [] m = refl
  hget-remove_events db id (n ∷ ns) m =
      let db1 = hdel db (event_hash_key id) (num n) in
      let same =
        (laws.frame.zrem_other db1 (event_pending_key id) (event_hash_key id) (num n)
            (λ p. cc)).hget_same
          (num m) in
      ground (
        arith,
        hget-remove_events (zrem db1 (event_pending_key id) (num n)) id ns m,
        same,
        hget-hdel_num db (event_hash_key id) n m,
      )

  has_field-remove_events :
      (db : State) (id : String) (ns : List ℕ) (f : Field)
      → has_field (zmembers (remove_events r db id ns) (event_pending_key id)) f ≡ (
          if any (λ n. field_eq (num n) f) ns
          then false
          else has_field (zmembers db (event_pending_key id)) f)
  unfolding remove_events any
  has_field-remove_events db id [] f = refl
  has_field-remove_events db id (n ∷ ns) f =
      let db1 = hdel db (event_hash_key id) (num n) in
      let same =
        (laws.frame.hdel_other db (event_hash_key id) (event_pending_key id) (num n)
          (λ p. cc)).zmembers_same in
      ground (
        arith,
        has_field-remove_events (zrem db1 (event_pending_key id) (num n)) id ns f,
        laws.sets.has_field-zrem db1 (event_pending_key id) (num n) f,
        same,
      )

  -- removing events touches the set of the runs with pending events at no run
  smembers-remove_events :
      (db : State) (id : String) (ns : List ℕ)
      → smembers (remove_events r db id ns) pending_runs_key ≡ smembers db pending_runs_key
  unfolding remove_events
  smembers-remove_events db id [] = refl
  smembers-remove_events db id (n ∷ ns) =
      let db1 = hdel db (event_hash_key id) (num n) in
      smembers-remove_events (zrem db1 (event_pending_key id) (num n)) id ns
      ∙ (laws.frame.zrem_other db1 (event_pending_key id) pending_runs_key (num n)
          (λ p. cc)).smembers_same
      ∙ (laws.frame.hdel_other db (event_hash_key id) pending_runs_key (num n)
          (λ p. cc)).smembers_same

  payloads_delivered :
      (s : DurabilityStore r) (id : String) (ns : List ℕ) (m : ℕ)
      → hget (mark_events_delivered r s id ns).db (event_hash_key id) (num m)
        ≡ (if any (nat_eq m) ns then none else hget s.db (event_hash_key id) (num m))
  unfolding mark_events_delivered any
  payloads_delivered s id [] m = refl
  payloads_delivered s id (n ∷ ns) m =
      let db' = remove_events r s.db id (n ∷ ns) in
      let same =
        (laws.frame.srem_other db' pending_runs_key (event_hash_key id) id (λ p. cc)).hget_same
          (num m) in
      ground (arith, hget-remove_events s.db id (n ∷ ns) m, same)

  index_delivered :
      (s : DurabilityStore r) (id : String) (n : ℕ) (ns : List ℕ)
      → zmembers (mark_events_delivered r s id (n ∷ ns)).db (event_pending_key id)
        ≡ zmembers (remove_events r s.db id (n ∷ ns)) (event_pending_key id)
  unfolding mark_events_delivered
  index_delivered s id n ns =
      let db' = remove_events r s.db id (n ∷ ns) in
      let same =
        (laws.frame.srem_other db' pending_runs_key (event_pending_key id) id
          (λ p. cc)).zmembers_same in
      by_test (λ db. zmembers db (event_pending_key id) ≡ zmembers db' (event_pending_key id))
        (nat_eq (length (zmembers db' (event_pending_key id))) 0) (λ _. same) (λ _. refl)

  runs_delivered :
      (s : DurabilityStore r) (id : String) (n : ℕ) (ns : List ℕ) (other : String)
      → contains (smembers (mark_events_delivered r s id (n ∷ ns)).db pending_runs_key) other ≡ (
          if str_eq id other
            && nat_eq
                (length (zmembers (remove_events r s.db id (n ∷ ns)) (event_pending_key id)))
                0
          then false
          else contains (smembers s.db pending_runs_key) other)
  unfolding mark_events_delivered
  runs_delivered s id n ns other =
      let db' = remove_events r s.db id (n ∷ ns) in
      ground (
        arith,
        laws.sets.contains-srem db' pending_runs_key id other,
        smembers-remove_events s.db id (n ∷ ns),
      )

  -- When at least one event of a run is acknowledged, the payloads and the members of the pending
  -- index of the acknowledged events are gone and all others of that run stay, and the run leaves the
  -- set of the runs with pending events exactly if its index is then empty; no other run leaves it.
  pub mark_events_delivered_exact :
      (s : DurabilityStore r) (id : String) (n : ℕ) (ns : List ℕ) (m : ℕ) (f : Field)
      (other : String)
      → (hget (mark_events_delivered r s id (n ∷ ns)).db (event_hash_key id) (num m)
          ≡ (if any (nat_eq m) (n ∷ ns) then none else hget s.db (event_hash_key id) (num m)))
        × (has_field (zmembers (mark_events_delivered r s id (n ∷ ns)).db (event_pending_key id)) f
            ≡ (if any (λ k. field_eq (num k) f) (n ∷ ns)
                then false
                else has_field (zmembers s.db (event_pending_key id)) f))
        × (contains (smembers (mark_events_delivered r s id (n ∷ ns)).db pending_runs_key) other ≡ (
            if str_eq id other
              && nat_eq
                  (length
                    (zmembers (mark_events_delivered r s id (n ∷ ns)).db (event_pending_key id)))
                  0
            then false
            else contains (smembers s.db pending_runs_key) other))
  mark_events_delivered_exact s id n ns m f other =
      let index = index_delivered s id n ns in
      (
        payloads_delivered s id (n ∷ ns) m,
        ap (λ ms. has_field ms f) index ∙ has_field-remove_events s.db id (n ∷ ns) f,
        rw index (runs_delivered s id n ns other),
      )
