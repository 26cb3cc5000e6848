-- ===== src/Durability/Store.antt =====
-- `DurabilityStore` of execution_engine/durability.py: run records, execution locks, authorities
-- and resume requests. The Lua scripts are written out in the commands that they call.
use execution_engine.Common.{
  ℕ, ◌+◌, String, str_eq, Bool, false, Option, none, some, List, [], ◌∷◌, ◌&&◌, ◌||◌, is_some, ltb,
  leb, contains, if◌then◌else◌,
}
use execution_engine.Durability.Records.{
  PersistedRun, Authority, Value, run_doc, authority_doc, owner_name, stamp, Field, name,
  run_states_key, run_lock_key, authority_key, resume_key, Fetch, missing, found, invalid,
}
use execution_engine.Durability.Redis.{Redis}

abbrev pub terminal_statuses : List String
terminal_statuses = "completed" ∷ "failed" ∷ "cancelled" ∷ []

abbrev pub active_statuses : List String
active_statuses = "queued" ∷ "running" ∷ "cancelling" ∷ []

-- `_lock_deadlines`: one entry for each run id and owner
abbrev pub Deadlines : Type 0
Deadlines = List (String × String × ℕ)

-- `get((run_id, owner), 0)`
unfoldable pub deadline_of : String → String → Deadlines → ℕ
deadline_of id owner [] = 0
deadline_of id owner ((i, o, t) ∷ d) =
    if str_eq i id && str_eq o owner then t else deadline_of id owner d

-- `pop((run_id, owner), None)`
unfoldable pub drop_deadline : String → String → Deadlines → Deadlines
drop_deadline id owner [] = []
drop_deadline id owner ((i, o, t) ∷ d) =
    let rest = drop_deadline id owner d in
    if str_eq i id && str_eq o owner then rest else (i, o, t) ∷ rest

unfoldable pub set_deadline : String → String → ℕ → Deadlines → Deadlines
set_deadline id owner t d = (id, owner, t) ∷ drop_deadline id owner d

-- the test `redis.call('get', key) == owner` of the scripts
unfoldable pub holds : Option Value → String → Bool
holds (some (owner_name o)) owner = str_eq o owner
holds _ owner = false

-- `_parse_run`: a record that does not decode raises
unfoldable pub parse_run : Value → Fetch PersistedRun
parse_run (run_doc p) = found p
parse_run _ = invalid

unfoldable pub parse_found : Option Value → Fetch PersistedRun
unfolding parse_run
parse_found none = missing
parse_found (some v) = parse_run v

-- only a lock's owner is ever written under its key; any other text is no owner's name
unfoldable pub owner_text : Value → String
owner_text (owner_name o) = o
owner_text _ = ""

unfoldable pub parse_stamp : Option Value → Option ℕ
parse_stamp (some (stamp t)) = some t
parse_stamp _ = none

-- the statuses that `iter_queued_runs` asks a resume request for
unfoldable pub is_parked : String → Bool
is_parked s = str_eq s "waiting_for_approval" || str_eq s "waiting_for_dependencies"

-- `sorted(runs, key=lambda run: run.created_at)`, which is stable
unfoldable pub insert_by_creation : PersistedRun → List PersistedRun → List PersistedRun
insert_by_creation p [] = p ∷ []
insert_by_creation p (q ∷ qs) =
    if leb p.created_at q.created_at then p ∷ q ∷ qs else q ∷ insert_by_creation p qs

unfoldable pub sort_by_creation : List PersistedRun → List PersistedRun
unfolding insert_by_creation
sort_by_creation [] = []
sort_by_creation (p ∷ ps) = insert_by_creation p (sort_by_creation ps)

unfoldable pub active_of : List (Field × Value) → List PersistedRun
active_of [] = []
active_of ((f, run_doc p) ∷ d) =
    let rest = active_of d in if contains active_statuses p.status then p ∷ rest else rest
active_of ((f, v) ∷ d) = active_of d

-- the test of `cleanup_terminal_runs` on one record
unfoldable pub is_expired : ℕ → Value → Bool
is_expired cutoff (run_doc p) = elim p.ended_at [
  | none ↦ false
  | some t ↦ contains terminal_statuses p.status && ltb t cutoff
]
is_expired cutoff _ = false

module _ (r : Redis) where
  open r use {State, get, set, set_nx, delete, expire, hget, hset, hsetnx, hdel, hgetall}

  pub record DurabilityStore : Type 0 where
    pub db : State
    pub lock_deadlines : Deadlines

  unfoldable pub get_run : DurabilityStore → String → Fetch PersistedRun
  unfolding parse_found
  get_run s id = parse_found (hget s.db run_states_key (name id))

  -- the record is written with no start and no end
  unfoldable pub reserve_run : DurabilityStore → PersistedRun → DurabilityStore × Bool
  reserve_run s p =
      let (db', reserved) =
        hsetnx s.db run_states_key (name p.run_id)
          (run_doc (record p { started_at = none; ended_at = none })) in
      (record s { db = db' }, reserved)

  unfoldable pub acquire_run_lock :
      DurabilityStore → ℕ → String → String → ℕ → DurabilityStore × Bool
  unfolding set_deadline
  acquire_run_lock s now id owner ttl =
      let (db', acquired) = set_nx s.db (run_lock_key id) (owner_name owner) in
      (
        record {
          db = db';
          lock_deadlines =
              if acquired
              then set_deadline id owner (now + ttl) s.lock_deadlines
              else s.lock_deadlines;
        },
        acquired,
      )

  unfoldable pub run_lock_deadline : DurabilityStore → String → String → ℕ
  run_lock_deadline s id owner = deadline_of id owner s.lock_deadlines

  -- the loop of the script over the keys; the second part lists the lost run ids
  unfoldable pub renew_locks : State → List String → String → ℕ → State × List String
  unfolding holds
  renew_locks db [] owner ttl = (db, [])
  renew_locks db (id ∷ ids) owner ttl =
      let mine = holds (get db (run_lock_key id)) owner in
      let (db', lost) =
        renew_locks (if mine then expire db (run_lock_key id) ttl else db) ids owner ttl in
      (db', if mine then lost else id ∷ lost)

  unfoldable pub renew_run_locks :
      DurabilityStore → List String → String → ℕ → DurabilityStore × List String
  unfolding renew_locks
  renew_run_locks s ids owner ttl =
      let (db', lost) = renew_locks s.db ids owner ttl in (record s { db = db' }, lost)

  unfoldable pub run_lock_owner : DurabilityStore → String → Option String
  unfolding owner_text
  run_lock_owner s id = elim (get s.db (run_lock_key id)) [
    | none ↦ none
    | some v ↦ some (owner_text v)
  ]

  unfoldable pub run_has_lock : DurabilityStore → String → Bool
  run_has_lock s id = is_some (get s.db (run_lock_key id))

  unfoldable pub release_run_lock : DurabilityStore → String → String → DurabilityStore
  unfolding holds drop_deadline
  release_run_lock s id owner = record {
    db = if holds (get s.db (run_lock_key id)) owner then delete s.db (run_lock_key id) else s.db;
    lock_deadlines = drop_deadline id owner s.lock_deadlines;
  }

  unfoldable pub save_authority : DurabilityStore → Authority → DurabilityStore
  save_authority s a = record s {
    db = set s.db (authority_key a.run_id) (authority_doc a.owner_id a.generation);
  }

  unfoldable pub load_authority : DurabilityStore → String → Fetch Authority
  load_authority s id = elim (get s.db (authority_key id)) [
    | none ↦ missing
    | some (authority_doc o g) ↦
        found (record { run_id = id; owner_id = o; generation = g; lost = false; deadline = none })
    | some _ ↦ invalid
  ]

  unfoldable pub upsert_run : DurabilityStore → PersistedRun → DurabilityStore
  upsert_run s p = record s { db = hset s.db run_states_key (name p.run_id) (run_doc p) }

  -- an earlier request stands
  unfoldable pub request_resume : DurabilityStore → ℕ → String → DurabilityStore
  request_resume s now id = record s { db = (set_nx s.db (resume_key id) (stamp now)).0 }

  unfoldable pub resume_request_time : DurabilityStore → String → Option ℕ
  unfolding parse_stamp
  resume_request_time s id = parse_stamp (get s.db (resume_key id))

  unfoldable pub resume_requested : DurabilityStore → String → Bool
  resume_requested s id = is_some (get s.db (resume_key id))

  unfoldable pub clear_resume_request : DurabilityStore → String → DurabilityStore
  clear_resume_request s id = record s { db = delete s.db (resume_key id) }

  unfoldable pub is_queued : DurabilityStore → PersistedRun → String → Bool
  unfolding is_parked resume_requested
  is_queued s p id = str_eq p.status "queued" || (is_parked p.status && resume_requested s id)

  -- the scan reads each candidate again before it yields it; a record that does not decode is kept
  unfoldable pub scan_queued : DurabilityStore → List (Field × Value) → List PersistedRun
  unfolding is_queued get_run
  scan_queued s [] = []
  scan_queued s ((name id, run_doc p) ∷ d) =
      let rest = scan_queued s d in
      if is_queued s p id
      then elim (get_run s id) [ found q ↦ if is_queued s q id then q ∷ rest else rest | _ ↦ rest ]
      else rest
  scan_queued s ((f, v) ∷ d) = scan_queued s d

  unfoldable pub iter_queued_runs : DurabilityStore → List PersistedRun
  unfolding scan_queued
  iter_queued_runs s = scan_queued s (hgetall s.db run_states_key)

  unfoldable pub list_active_runs : DurabilityStore → List PersistedRun
  unfolding sort_by_creation active_of
  list_active_runs s = sort_by_creation (active_of (hgetall s.db run_states_key))

  unfoldable pub remove_expired : ℕ → State → List (Field × Value) → State
  unfolding is_expired
  remove_expired cutoff db [] = db
  remove_expired cutoff db ((f, v) ∷ d) =
      remove_expired cutoff (if is_expired cutoff v then hdel db run_states_key f else db) d

  -- the number of removed records, which the registry does not read, is left out
  unfoldable pub cleanup_terminal_runs : DurabilityStore → ℕ → DurabilityStore
  unfolding remove_expired
  cleanup_terminal_runs s cutoff = record s {
    db = remove_expired cutoff s.db (hgetall s.db run_states_key);
  }
