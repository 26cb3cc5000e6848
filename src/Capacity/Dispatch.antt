-- ===== src/Capacity/Dispatch.antt =====
-- `execute_with_capacity` of execution_engine/capacity.py up to the start of the execution, and the
-- state that `_release_capacity` reports. Times are milliseconds: `wall` is
-- `datetime.now(UTC)`, `now` and `request_started` are `time.monotonic()`.
use execution_engine.Common.{
  ℕ, ◌+◌, String, Bool, false, not, ◌&&◌, Option, none, some, ltb, leb, nat_eq, opt_eq, get_or,
  if◌then◌else◌,
}
use execution_engine.Durability.Records.{Authority}
use execution_engine.Durability.Redis.{Redis}
use execution_engine.Durability.Store.{save_authority}
use execution_engine.Registry.Identity.{RunStatus, is_waiting}
use execution_engine.Registry.State.{
  RunState, Ref, Settings, Registry, put_object, forget_local_run,
}
use execution_engine.Registry.Scheduling.{persist_state}
use execution_engine.Registry.Completion.{requeue}
use execution_engine.Capacity.Lease.{
  Grant, Reply, answered, LeaseResult, accepted, rejected, lease_deadline, is_transient,
}

-- what becomes of the run; `execute` carries the authority, if capacity is enabled
pub data Decision : Type 0 where
  requeue_run fail_run forget_run : Decision
  execute : Option Authority → Decision

-- ten minutes
abbrev pub queue_limit : ℕ
queue_limit = 600000

abbrev pub has_number : Option ℕ → (ℕ → Bool) → Bool
has_number none test = false
has_number (some n) test = test n

module _ (capacity_enabled : Bool) (wall now request_started : ℕ) (s : RunState) where
  -- `state.resume_requested_at or state.created_at`
  unfoldable pub queued_since : ℕ
  queued_since = get_or s.resume_requested_at s.created_at

  unfoldable pub has_waited_long : Bool
  unfolding queued_since
  has_waited_long = ltb (queued_since + queue_limit) wall

  -- `blocked` by a live owner: a recent resume waits for it, another run is forgotten
  unfoldable pub decide_blocked : Decision
  decide_blocked = elim s.resume_requested_at [
    | none ↦ forget_run
    | some t ↦ if ltb wall (t + queue_limit) then requeue_run else forget_run
  ]

  unfoldable pub with_deadline : ℕ → LeaseResult → Decision
  with_deadline generation rejected = fail_run
  with_deadline generation (accepted d) = execute (
      some (record {
        run_id = s.run_id;
        owner_id = s.capacity_owner_id;
        generation = generation;
        lost = false;
        deadline = d;
      }))

  -- neither `wait` nor `blocked`, with capacity enabled
  unfoldable pub decide_granted : Grant → Decision
  unfolding with_deadline
  decide_granted g = elim g.generation [
    | none ↦ fail_run
    | some n ↦
        if opt_eq g.status (some "granted") && leb 1 n
        then with_deadline n (lease_deadline g.lease request_started now)
        else fail_run
  ]

  unfoldable pub decide_grant : Grant → Decision
  unfolding has_waited_long decide_blocked decide_granted
  decide_grant g =
      if not (has_number g.contract_version (nat_eq 1))
      then fail_run
      else if opt_eq g.status (some "wait")
      then (if has_waited_long then fail_run else requeue_run)
      else if opt_eq g.status (some "blocked")
      then decide_blocked
      else if capacity_enabled
      then decide_granted g
      else if opt_eq g.status (some "disabled")
      then execute none
      else fail_run

  unfoldable pub decide : Reply → Decision
  unfolding decide_grant has_waited_long
  decide (answered g) = decide_grant g
  decide r = if is_transient r && not has_waited_long then requeue_run else fail_run

module _ {r : Redis} (cfg : Settings) (now : ℕ) (uuid : ℕ → String) where
  -- `state.status = RunStatus.FAILED; state.ended_at = now; persist_state(state)`
  unfoldable pub fail_execution : Ref → Registry r → Registry r
  unfolding put_object
  fail_execution ref g =
      let s = g.objects ref in
      persist_state cfg now ref
        (put_object ref (record s { status = RunStatus.failed; ended_at = some now }) g)

  unfoldable pub keep_authority : Authority → Registry r → Registry r
  keep_authority a g = elim g.durability_store [
    | none ↦ g
    | some d ↦ record g { durability_store = some (save_authority r d a) }
  ]

  -- the registry after the decision; `none` is the `QueueFull` of `requeue`
  unfoldable pub dispatch : Decision → Ref → Registry r → Option (Registry r)
  unfolding fail_execution keep_authority
  dispatch requeue_run ref g = requeue cfg now uuid (g.objects ref).run_id g
  dispatch fail_run ref g = some (fail_execution ref g)
  dispatch forget_run ref g = some (forget_local_run (g.objects ref).run_id g)
  dispatch (execute none) ref g = some g
  dispatch (execute (some a)) ref g = some (keep_authority a g)

-- whether `_release_capacity` reports the run as parked, not as settling
unfoldable pub is_parked_release : Authority → RunState → Bool
is_parked_release a s = not a.lost && is_waiting s.status
