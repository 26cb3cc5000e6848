-- ===== src/Durability/Records.antt =====
-- The records that execution_engine/durability.py keeps in Redis, as its readers decode them.
-- Times are numbers, in one unit for all clocks.
use execution_engine.Common.{ℕ, String, Bool, Option, List}

-- `PersistedRun`
pub record PersistedRun : Type 0 where
  pub workspace_id : String
  pub target_id : Option String
  pub target_type : Option String
  pub session_id : String
  pub run_id : String
  pub message_id : String
  pub scope_type : String
  pub workflow_id : Option String
  pub execution_id : Option String
  pub workflow_session_id : Option String
  pub executor_role : Option String
  pub parent_run_id : Option String
  pub agent_id : Option String
  pub trigger_id : Option String
  pub status : String
  pub created_at : ℕ
  pub started_at : Option ℕ
  pub ended_at : Option ℕ

-- `Event` of execution_engine/models.py; a payload is its entries, with the text of their values
pub record Event : Type 0 where
  pub schema_version : ℕ
  pub run_id : String
  pub seq : ℕ
  pub ts : ℕ
  pub type : String
  pub payload : List (String × String)

-- `Usage`
pub record Usage : Type 0 where
  pub input_tokens : ℕ
  pub output_tokens : ℕ
  pub tool_calls : ℕ
  pub reasoning_tokens : Option ℕ

-- `CommitRequest`, with the two times of its `timing`
pub record CommitRequest : Type 0 where
  pub status : String
  pub assistant_message : Option (List (String × String))
  pub usage : Usage
  pub started_at : ℕ
  pub ended_at : ℕ

-- `PendingTerminalCommit`, which is also the payload of `upsert_terminal_commit`
pub record PendingTerminalCommit : Type 0 where
  pub run_id : String
  pub commit : CommitRequest
  pub created_at : ℕ
  pub attempts : ℕ
  pub last_attempt_at : Option ℕ

-- `Authority` of execution_engine/capacity.py
pub record Authority : Type 0 where
  pub run_id : String
  pub owner_id : String
  pub generation : ℕ
  pub lost : Bool
  pub deadline : Option ℕ

-- A Redis string, as its reader decodes it. `malformed` is text that no reader can decode.
pub data Value : Type 0 where
  run_doc : PersistedRun → Value
  event_doc : Event → Value
  commit_doc : PendingTerminalCommit → Value
  authority_doc : String → ℕ → Value
  owner_name : String → Value
  number : ℕ → Value
  stamp : ℕ → Value
  malformed : Value

-- A field of a hash or a member of a sorted set: a run id, or the text of a sequence number.
pub data Field : Type 0 where
  name : String → Field
  num : ℕ → Field

-- The keys of the store, one constructor for each key builder.
pub data Key : Type 0 where
  run_states_key pending_runs_key event_last_seq_key : Key
  terminal_commits_key terminal_pending_key : Key
  event_hash_key event_pending_key run_lock_key authority_key resume_key : String → Key

-- What a reader of one record returns: nothing stored, the record, or an exception of the decoder.
pub data Fetch {ℓ} (A : Type ℓ) : Type ℓ where
  missing : Fetch A
  found : A → Fetch A
  invalid : Fetch A
