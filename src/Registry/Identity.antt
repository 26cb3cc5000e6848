-- ===== src/Registry/Identity.antt =====
-- `RunStatus` and `RunKey` of execution_engine/run_registry.py, and the dictionary by run key.
use execution_engine.Common.{
  String, str_eq, eq_iff, Bool, true, false, ◌&&◌, Option, none, some, List, [], ◌∷◌, ◌≡◌, arith,
  opt_eq, if◌then◌else◌,
}

pub data RunStatus : Type 0 where
  queued running waiting_for_dependencies waiting_for_approval cancelling completed failed
        cancelled :
      RunStatus

-- `status.value`
unfoldable pub status_value : RunStatus → String
status_value queued = "queued"
status_value running = "running"
status_value waiting_for_dependencies = "waiting_for_dependencies"
status_value waiting_for_approval = "waiting_for_approval"
status_value cancelling = "cancelling"
status_value completed = "completed"
status_value failed = "failed"
status_value cancelled = "cancelled"

-- `RunStatus(text)`, which raises on any other text
unfoldable pub status_of : String → Option RunStatus
status_of s =
    if str_eq s "queued"
    then some queued
    else if str_eq s "running"
    then some running
    else if str_eq s "waiting_for_dependencies"
    then some waiting_for_dependencies
    else if str_eq s "waiting_for_approval"
    then some waiting_for_approval
    else if str_eq s "cancelling"
    then some cancelling
    else if str_eq s "completed"
    then some completed
    else if str_eq s "failed"
    then some failed
    else if str_eq s "cancelled"
    then some cancelled
    else none

-- `state.status.value in TERMINAL_STATUSES`
unfoldable pub is_terminal : RunStatus → Bool
is_terminal completed = true
is_terminal failed = true
is_terminal cancelled = true
is_terminal _ = false

-- `state.status.value in ACTIVE_STATUSES`
unfoldable pub is_active : RunStatus → Bool
is_active queued = true
is_active running = true
is_active cancelling = true
is_active _ = false

-- `status in {WAITING_FOR_APPROVAL, WAITING_FOR_DEPENDENCIES}`
unfoldable pub is_waiting : RunStatus → Bool
is_waiting waiting_for_approval = true
is_waiting waiting_for_dependencies = true
is_waiting _ = false

unfoldable pub is_queued_status : RunStatus → Bool
is_queued_status queued = true
is_queued_status _ = false

unfoldable pub is_running : RunStatus → Bool
is_running running = true
is_running _ = false

pub record RunKey : Type 0 where
  pub scope_type : String
  pub workspace_id : String
  pub target_id : Option String
  pub target_type : Option String
  pub session_id : String
  pub message_id : String
  pub run_id : String
  pub workflow_id : Option String
  pub execution_id : Option String
  pub workflow_session_id : Option String
  pub executor_role : Option String
  pub parent_run_id : Option String
  pub agent_id : Option String
  pub trigger_id : Option String

-- equality of the first seven and of the last seven components of two tuples
unfoldable pub head_eq : RunKey → RunKey → Bool
head_eq a b =
    str_eq a.scope_type b.scope_type
    && str_eq a.workspace_id b.workspace_id
    && opt_eq a.target_id b.target_id
    && opt_eq a.target_type b.target_type
    && str_eq a.session_id b.session_id
    && str_eq a.message_id b.message_id
    && str_eq a.run_id b.run_id

unfoldable pub tail_eq : RunKey → RunKey → Bool
tail_eq a b =
    opt_eq a.workflow_id b.workflow_id
    && opt_eq a.execution_id b.execution_id
    && opt_eq a.workflow_session_id b.workflow_session_id
    && opt_eq a.executor_role b.executor_role
    && opt_eq a.parent_run_id b.parent_run_id
    && opt_eq a.agent_id b.agent_id
    && opt_eq a.trigger_id b.trigger_id

unfoldable pub key_eq : RunKey → RunKey → Bool
key_eq a b = head_eq a b && tail_eq a b

and_left : (a b : Bool) → (a && b) ≡ true → a ≡ true
and_left a b h = ground arith

and_right : (a b : Bool) → (a && b) ≡ true → b ≡ true
and_right a b h = ground arith

-- Equal keys have equal run ids.
pub run_id_of_key_eq : (a b : RunKey) → key_eq a b ≡ true → a.run_id ≡ b.run_id
unfolding key_eq head_eq
run_id_of_key_eq a b h = ground (arith, eq_iff a.run_id b.run_id)

-- `_runs`: a dictionary by run key
module _ {ℓ} {V : Type ℓ} where
  unfoldable pub runs_get : RunKey → List (RunKey × V) → Option V
  runs_get k [] = none
  runs_get k ((j, v) ∷ d) = if key_eq j k then some v else runs_get k d

  unfoldable pub runs_set : RunKey → V → List (RunKey × V) → List (RunKey × V)
  runs_set k v [] = (k, v) ∷ []
  runs_set k v ((j, w) ∷ d) = if key_eq j k then (j, v) ∷ d else (j, w) ∷ runs_set k v d

  unfoldable pub runs_pop : RunKey → List (RunKey × V) → List (RunKey × V)
  runs_pop k [] = []
  runs_pop k ((j, w) ∷ d) = let rest = runs_pop k d in if key_eq j k then rest else (j, w) ∷ rest
