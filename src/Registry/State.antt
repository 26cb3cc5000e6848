-- ===== src/Registry/State.antt =====
-- `RunState` and `RunRegistry` of execution_engine/run_registry.py. A `RunState` is a shared object:
-- the registry holds references, and `objects` is the heap that they point into.
use execution_engine.Common.{ℕ, String, Bool, Option, none, some, List, [], nat_eq, if◌then◌else◌}
use execution_engine.Common.Dict.{lookup, erase}
use execution_engine.Durability.Records.{PersistedRun, Usage}
use execution_engine.Durability.Redis.{Redis}
use execution_engine.Durability.Store.{DurabilityStore}
use execution_engine.Registry.Identity.{
  RunStatus, status_value, status_of, RunKey, runs_get, runs_pop,
}

abbrev pub Ref : Type 0
Ref = ℕ

-- `identity_key` holds the fields that the tuple of that name lists
pub record RunState : Type 0 where
  pub identity_key : RunKey
  pub open identity_key use *
  pub capacity_owner_id : String
  pub execution_lock_lost : Bool
  pub resume_requested_at : Option ℕ
  pub status : RunStatus
  pub created_at : ℕ
  pub started_at : Option ℕ
  pub ended_at : Option ℕ
  pub last_seq : ℕ
  pub cancel_event : Bool
  pub final_text : String
  pub usage : Usage

-- `RunState(…)`; the owner id is a fresh UUID of the caller
unfoldable pub new_run : RunKey → String → ℕ → RunState
new_run key owner now = record {
  identity_key = key;
  capacity_owner_id = owner;
  execution_lock_lost = Bool.false;
  resume_requested_at = none;
  status = RunStatus.queued;
  created_at = now;
  started_at = none;
  ended_at = none;
  last_seq = 0;
  cancel_event = Bool.false;
  final_text = "";
  usage = record { input_tokens = 0; output_tokens = 0; tool_calls = 0; reasoning_tokens = none };
}

-- the tuple that `get_or_create` builds of a persisted record
unfoldable pub persisted_key : PersistedRun → RunKey
persisted_key p = record {
  scope_type = p.scope_type;
  workspace_id = p.workspace_id;
  target_id = p.target_id;
  target_type = p.target_type;
  session_id = p.session_id;
  message_id = p.message_id;
  run_id = p.run_id;
  workflow_id = p.workflow_id;
  execution_id = p.execution_id;
  workflow_session_id = p.workflow_session_id;
  executor_role = p.executor_role;
  parent_run_id = p.parent_run_id;
  agent_id = p.agent_id;
  trigger_id = p.trigger_id;
}

-- `state_from_persisted`: a status that is no `RunStatus` raises
unfoldable pub state_from_persisted : PersistedRun → String → Option RunState
unfolding persisted_key new_run
state_from_persisted p owner = elim (status_of p.status) [
  | none ↦ none
  | some st ↦ some (record (new_run (persisted_key p) owner p.created_at) {
    status = st;
    started_at = p.started_at;
    ended_at = p.ended_at;
  })
]

-- the fields that `persist_state` and `reserve_run` write
unfoldable pub persisted_of : RunState → PersistedRun
persisted_of s = record {
  workspace_id = s.workspace_id;
  target_id = s.target_id;
  target_type = s.target_type;
  session_id = s.session_id;
  run_id = s.run_id;
  message_id = s.message_id;
  scope_type = s.scope_type;
  workflow_id = s.workflow_id;
  execution_id = s.execution_id;
  workflow_session_id = s.workflow_session_id;
  executor_role = s.executor_role;
  parent_run_id = s.parent_run_id;
  agent_id = s.agent_id;
  trigger_id = s.trigger_id;
  status = status_value s.status;
  created_at = s.created_at;
  started_at = s.started_at;
  ended_at = s.ended_at;
}

-- the queue of the registry and the sets beside it
pub record Scheduler : Type 0 where
  pub draining : Bool
  pub queue : List String
  pub queued : List String
  pub scheduled : List String
  pub pending_resumes : List String
  pub max_concurrent_runs : ℕ

-- `_drain_release_task`
pub data ReleaseTask : Type 0 where
  not_started in_progress finished cancelled_task : ReleaseTask

-- what the registry reads of execution_engine/config.py
pub record Settings : Type 0 where
  pub workspace_capacity_enabled : Bool
  pub run_id_lock_ttl_seconds : ℕ
  pub orch_retry_max_elapsed_seconds : ℕ
  pub terminal_commit_retention_seconds : ℕ

pub record Registry (r : Redis) : Type 0 where
  pub sched : Scheduler
  pub open sched use *
  pub runs : List (RunKey × Ref)
  pub run_id_to_key : List (String × RunKey)
  pub objects : Ref → RunState
  pub next_ref : Ref
  pub durability_store : Option (DurabilityStore r)
  pub drain_release_ids : List String
  pub drain_release_task : ReleaseTask
  pub owner_id : String
  pub terminal_run_ttl_seconds : ℕ
  pub event_recovery_offset : ℕ
  pub commit_recovery_offset : ℕ

unfoldable pub pop_run : Option RunKey → List (RunKey × Ref) → List (RunKey × Ref)
pop_run none runs = runs
pop_run (some key) runs = runs_pop key runs

module _ {r : Redis} where
  -- a write through a reference
  unfoldable pub put_object : Ref → RunState → Registry r → Registry r
  put_object ref s g = record g { objects = λ q. if nat_eq q ref then s else g.objects q }

  unfoldable pub get_by_run_id : Registry r → String → Option Ref
  get_by_run_id g id = elim (lookup id g.run_id_to_key) [
    | none ↦ none
    | some key ↦ runs_get key g.runs
  ]

  unfoldable pub forget_local_run : String → Registry r → Registry r
  unfolding pop_run
  forget_local_run id g = record g {
    run_id_to_key = erase id g.run_id_to_key;
    runs = pop_run (lookup id g.run_id_to_key) g.runs;
  }

-- the scheduler and the registry of `RunRegistry(…)`; `blank` is what a dangling reference reads
unfoldable pub new_scheduler : ℕ → Scheduler
new_scheduler n = record {
  draining = Bool.false;
  queue = [];
  queued = [];
  scheduled = [];
  pending_resumes = [];
  max_concurrent_runs = n;
}

unfoldable pub new_registry :
    {r : Redis} → ℕ → Option (DurabilityStore r) → String → ℕ → RunState → Registry r
new_registry n store owner ttl blank = record {
  sched = new_scheduler n;
  runs = [];
  run_id_to_key = [];
  objects = λ ref. blank;
  next_ref = 0;
  durability_store = store;
  drain_release_ids = [];
  drain_release_task = ReleaseTask.not_started;
  owner_id = owner;
  terminal_run_ttl_seconds = ttl;
  event_recovery_offset = 0;
  commit_recovery_offset = 0;
}
