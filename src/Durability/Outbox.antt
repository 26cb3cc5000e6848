-- ===== src/Durability/Outbox.antt =====
-- `DurabilityStore` of execution_engine/durability.py: the event outbox.
use Prim.Native.Nat.{Ordering}
use Prim.Native.String.{compare}
use mathlib.Core.Option
use execution_engine.Common.{
  suc, sum, ℕ, ◌+◌, ◌-◌, String, Bool, true, false, Option, none, some, List, [], ◌∷◌, ltb, length,
  take, max, map, nat_eq, if◌then◌else◌,
}
use execution_engine.Durability.Records.{
  Event, Value, event_doc, number, Field, name, num, event_last_seq_key, pending_runs_key,
  event_hash_key, event_pending_key, Fetch, missing, found, invalid,
}
use execution_engine.Durability.Redis.{Redis}
use execution_engine.Durability.Store.{DurabilityStore}

-- `int(current)` of the last-sequence hash
unfoldable pub last_seq : Option Value → Fetch ℕ
last_seq none = missing
last_seq (some (number n)) = found n
last_seq (some _) = invalid

-- `max([int(key) for key in keys], default=0)` over the fields of the event hash; `none` is the
-- exception of `int`
unfoldable pub max_field : List (Field × Value) → Option ℕ
max_field [] = some 0
max_field ((num n, v) ∷ d) = Option.map (max n) (max_field d)
max_field ((name s, v) ∷ d) = none

-- whether `upsert_event` advances the last sequence number; `none` is an exception
unfoldable pub is_newer : Fetch ℕ → ℕ → Option Bool
is_newer missing seq = some true
is_newer (found n) seq = some (ltb n seq)
is_newer invalid seq = none

abbrev pub str_leb : String → String → Bool
str_leb a b = elim (compare a b) [ Ordering.gt ↦ false | _ ↦ true ]

-- `sorted` of a set of run ids
unfoldable pub insert_id : String → List String → List String
insert_id a [] = a ∷ []
insert_id a (b ∷ bs) = if str_leb a b then a ∷ b ∷ bs else b ∷ insert_id a bs

unfoldable pub sort_ids : List String → List String
unfolding insert_id
sort_ids [] = []
sort_ids (a ∷ rest) = insert_id a (sort_ids rest)

-- An operation that may raise returns `false` or `none` beside what it wrote before.
module _ (r : Redis) where
  open r use {State, hget, hset, hsetnx, hdel, hgetall, smembers, sadd, srem, zmembers, zadd, zrem}

  -- the three writes that precede the test on the last sequence number
  unfoldable pub append_event : State → Event → State
  append_event db e =
      sadd
        (zadd (hsetnx db (event_hash_key e.run_id) (num e.seq) (event_doc e)).0
          (event_pending_key e.run_id) (num e.seq) e.seq)
        pending_runs_key e.run_id

  unfoldable pub upsert_event : DurabilityStore r → Event → DurabilityStore r × Bool
  unfolding last_seq is_newer append_event
  upsert_event s e =
      let db' = append_event s.db e in
      elim (is_newer (last_seq (hget db' event_last_seq_key (name e.run_id))) e.seq) [
        | none ↦ (record s { db = db' }, false)
        | some newer ↦ (
          record s {
            db = if newer then hset db' event_last_seq_key (name e.run_id) (number e.seq) else db';
          },
          true,
        )
      ]

  -- the loop over the pending members: a stale member is removed, and a payload that does not
  -- decode raises
  unfoldable pub read_pending : State → String → List Field → State × Option (List Event)
  read_pending db id [] = (db, some [])
  read_pending db id (f ∷ fs) =
      let stale = read_pending (zrem db (event_pending_key id) f) id fs in
      let rest = read_pending db id fs in
      elim (hget db (event_hash_key id) f) [
        | none ↦ stale
        | some (event_doc e) ↦ (rest.0, Option.map (λ es. e ∷ es) rest.1)
        | some _ ↦ (db, none)
      ]

  -- `zrange(key, 0, max(limit - 1, 0))` is the first `max(limit, 1)` members
  unfoldable pub list_pending_events :
      DurabilityStore r → String → ℕ → DurabilityStore r × Option (List Event)
  unfolding read_pending
  list_pending_events s id limit =
      let (db', es) =
        read_pending s.db id (take (max limit 1) (zmembers s.db (event_pending_key id))) in
      (record s { db = db' }, es)

  unfoldable pub next_event_seq : DurabilityStore r → String → Option ℕ
  unfolding last_seq max_field
  next_event_seq s id = elim (last_seq (hget s.db event_last_seq_key (name id))) [
    | found n ↦ some (n + 1)
    | missing ↦ Option.map suc (max_field (hgetall s.db (event_hash_key id)))
    | invalid ↦ none
  ]

  unfoldable pub last_pending_event : DurabilityStore r → String → Fetch Event
  unfolding next_event_seq
  last_pending_event s id = elim (next_event_seq s id) [
    | none ↦ invalid
    | some n ↦ elim (hget s.db (event_hash_key id) (num (n - 1))) [
      | none ↦ missing
      | some (event_doc e) ↦ found e
      | some _ ↦ invalid
    ]
  ]

  -- the loop of the script of `mark_events_delivered`
  unfoldable pub remove_events : State → String → List ℕ → State
  remove_events db id [] = db
  remove_events db id (n ∷ ns) =
      remove_events (zrem (hdel db (event_hash_key id) (num n)) (event_pending_key id) (num n)) id
        ns

  unfoldable pub mark_events_delivered : DurabilityStore r → String → List ℕ → DurabilityStore r
  unfolding remove_events
  mark_events_delivered s id [] = s
  mark_events_delivered s id (n ∷ ns) =
      let db' = remove_events s.db id (n ∷ ns) in
      record s {
        db =
            if nat_eq (length (zmembers db' (event_pending_key id))) 0
            then srem db' pending_runs_key id
            else db';
      }

  unfoldable pub list_pending_run_ids : DurabilityStore r → List String
  unfolding sort_ids
  list_pending_run_ids s = sort_ids (smembers s.db pending_runs_key)

  unfoldable pub pending_event_count : DurabilityStore r → ℕ
  unfolding list_pending_run_ids
  pending_event_count s =
      sum (map (λ id. length (zmembers s.db (event_pending_key id))) (list_pending_run_ids s))
