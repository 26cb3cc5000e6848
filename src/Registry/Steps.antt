-- ===== src/Registry/Steps.antt =====
-- The operations of the registry as steps: what any interleaving of them keeps.
pub mod Keeps
pub mod Closed
pub mod Reachable
use execution_engine.Common.{
  ℕ, ◌≡◌, String, Bool, true, false, Option, some, List, [], ◌∷◌, contains,
}
use execution_engine.Durability.Redis.{Redis}
use execution_engine.Registry.Identity.{RunKey}
use execution_engine.Registry.State.{Ref, Scheduler, Settings, Registry}
use execution_engine.Registry.Scheduling.{enqueue_run, resume_run, dequeue, persist_state}
use execution_engine.Registry.Draining.{begin_drain, release_round, cancel_owned_run}
use execution_engine.Registry.Completion.{
  finish_execution, refill_queued_runs, requeue, cleanup_terminal_runs,
}
use execution_engine.Registry.Lifecycle.{get_or_create}

-- One call of an operation, by whatever task runs next. A run goes back to the queue only from
-- its own scheduled execution.
pub data Step {r : Redis} (cfg : Settings) : Registry r → Registry r → Type 0 where
  creates :
      (g : Registry r) (now : ℕ) (uuid : ℕ → String) (key : RunKey)
      → Step cfg g (get_or_create cfg now uuid key g).0
  enqueues : (g : Registry r) (now : ℕ) (id : String) → Step cfg g (enqueue_run cfg now id g).0
  resumes : (g : Registry r) (now : ℕ) (ref : Ref) → Step cfg g (resume_run cfg now ref g).0
  requeues :
      (g h : Registry r) (now : ℕ) (uuid : ℕ → String) (id : String)
      → contains g.scheduled id ≡ true
      → requeue cfg now uuid id g ≡ some h
      → Step cfg g h
  dequeues :
      (g : Registry r) (id : String) (s : Scheduler)
      → dequeue g.sched ≡ some (id, s)
      → Step cfg g (record g { sched = s })
  persists : (g : Registry r) (now : ℕ) (ref : Ref) → Step cfg g (persist_state cfg now ref g)
  finishes :
      (g : Registry r) (now : ℕ) (uuid : ℕ → String) (id : String)
      → Step cfg g (finish_execution cfg now uuid id g)
  refills :
      (g : Registry r) (now : ℕ) (uuid : ℕ → String) (exclude : Option String)
      → Step cfg g (refill_queued_runs cfg now uuid exclude g)
  drains : (g : Registry r) → Step cfg g (begin_drain g)
  releases :
      (g : Registry r) (fails : String → Bool) (ids : List String)
      → Step cfg g (release_round fails ids g)
  cancels : (g : Registry r) (now : ℕ) (id : String) → Step cfg g (cancel_owned_run cfg now id g)
  cleans :
      (g : Registry r) (now : ℕ) (uuid : ℕ → String)
      → Step cfg g (cleanup_terminal_runs cfg now uuid g)

pub data Reach {r : Redis} (cfg : Settings) (g : Registry r) : Registry r → Type 0 where
  here : Reach cfg g g
  next : {h k : Registry r} → Reach cfg g h → Step cfg h k → Reach cfg g k
