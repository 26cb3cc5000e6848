-- ===== src/Tests/Data.antt =====
-- Test data: one dispatched run, its registry, and a store in memory.
use execution_engine.Common.{ℕ, String, false, none, some, [], ◌∷◌}
use execution_engine.Durability.Records.{
  PersistedRun, Event, CommitRequest, PendingTerminalCommit, commit_doc, name, number,
  terminal_commits_key, event_last_seq_key, owner_name, run_lock_key,
}
use execution_engine.Durability.Memory.{Memory, memory, at}
use execution_engine.Durability.Store.{DurabilityStore}
use execution_engine.Registry.Identity.{RunKey, RunStatus}
use execution_engine.Registry.State.{RunState, Settings, Registry, Scheduler, not_started}

abbrev pub empty_memory : Memory
empty_memory = record { strings = λ k. none; hashes = λ k. []; sets = λ k. []; sorted = λ k. [] }

abbrev pub store0 : DurabilityStore memory
store0 = record { db = empty_memory; lock_deadlines = [] }

-- the lock of run `r1` is held by `engine-a`
abbrev pub locked : DurabilityStore memory
locked = record {
  db = record empty_memory {
    strings = at empty_memory.strings (run_lock_key "r1") (some (owner_name "engine-a"));
  };
  lock_deadlines = ("r1", "engine-a", 30) ∷ [];
}

abbrev pub key0 : RunKey
key0 = record {
  scope_type = "target";
  workspace_id = "w1";
  target_id = some "t1";
  target_type = some "kubernetes";
  session_id = "s1";
  message_id = "m1";
  run_id = "r1";
  workflow_id = none;
  execution_id = none;
  workflow_session_id = none;
  executor_role = none;
  parent_run_id = none;
  agent_id = none;
  trigger_id = none;
}

-- the same run id for another message
abbrev pub key1 : RunKey
key1 = record key0 { message_id = "m2" }

abbrev pub run0 : PersistedRun
run0 = record {
  workspace_id = "w1";
  target_id = some "t1";
  target_type = some "kubernetes";
  session_id = "s1";
  run_id = "r1";
  message_id = "m1";
  scope_type = "target";
  workflow_id = none;
  execution_id = none;
  workflow_session_id = none;
  executor_role = none;
  parent_run_id = none;
  agent_id = none;
  trigger_id = none;
  status = "running";
  created_at = 5;
  started_at = some 6;
  ended_at = none;
}

abbrev pub state0 : RunState
state0 = record {
  identity_key = key0;
  capacity_owner_id = "owner";
  execution_lock_lost = false;
  resume_requested_at = none;
  status = RunStatus.waiting_for_approval;
  created_at = 5;
  started_at = some 6;
  ended_at = none;
  last_seq = 0;
  cancel_event = false;
  final_text = "";
  usage = record { input_tokens = 0; output_tokens = 0; tool_calls = 0; reasoning_tokens = none };
}

abbrev pub settings0 : Settings
settings0 = record {
  workspace_capacity_enabled = false;
  run_id_lock_ttl_seconds = 30;
  orch_retry_max_elapsed_seconds = 60;
  terminal_commit_retention_seconds = 3600;
}

abbrev pub idle_scheduler : Scheduler
idle_scheduler = record {
  draining = false;
  queue = [];
  queued = [];
  scheduled = [];
  pending_resumes = [];
  max_concurrent_runs = 2;
}

abbrev pub registry0 : Registry memory
registry0 = record {
  sched = idle_scheduler;
  runs = [];
  run_id_to_key = [];
  objects = λ ref. state0;
  next_ref = 0;
  durability_store = some store0;
  drain_release_ids = [];
  drain_release_task = not_started;
  owner_id = "engine-a";
  terminal_run_ttl_seconds = 3600;
  event_recovery_offset = 0;
  commit_recovery_offset = 0;
}

-- the run waits for an approval, known to the registry and not scheduled
abbrev pub parked : Registry memory
parked = record registry0 { runs = (key0, 0) ∷ []; run_id_to_key = ("r1", key0) ∷ [] }

abbrev pub uuids : ℕ → String
uuids n = "uuid"

abbrev pub event1 : Event
event1 = record {
  run_id = "r1";
  seq = 7;
  ts = 9;
  type = "run_failed";
  payload = [];
  schema_version = 1;
}

abbrev pub commit1 : CommitRequest
commit1 = record {
  status = "failed";
  assistant_message = none;
  usage = record { input_tokens = 3; output_tokens = 1; tool_calls = 0; reasoning_tokens = none };
  started_at = 5;
  ended_at = 9;
}

abbrev pub pending1 : PendingTerminalCommit
pending1 = record {
  run_id = "r1";
  commit = commit1;
  created_at = 9;
  attempts = 2;
  last_attempt_at = none;
}

-- the last sequence number of `r1` is 6, and a commit of it waits
abbrev pub with_outbox : DurabilityStore memory
with_outbox = record store0 {
  db = record empty_memory {
    hashes =
        at (at empty_memory.hashes event_last_seq_key ((name "r1", number 6) ∷ []))
          terminal_commits_key ((name "r1", commit_doc pending1) ∷ []);
  };
}
