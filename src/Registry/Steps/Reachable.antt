-- ===== src/Registry/Steps/Reachable.antt =====
-- What every sequence of registry operations keeps: the bound on local work, and a drain.
use execution_engine.Common.{
  ℕ, ◌≡◌, sym, subst, String, Bool, true, false, Option, none, some, List, [], ◌∷◌, refl, arith,
  contains, contains-discard, Bool-cases, inl, inr,
}
use execution_engine.Durability.Redis.{Redis}
use execution_engine.Durability.Store.{DurabilityStore}
use execution_engine.Registry.State.{
  Scheduler, Settings, Registry, RunState, new_registry, new_scheduler,
}
use execution_engine.Registry.Scheduling.{requeue_local, dequeue, dequeue_from}
use execution_engine.Registry.Draining.{close_admission}
use execution_engine.Registry.Bounds.{
  IsBounded, admit-IsBounded, requeue_total, requeued-IsBounded, dequeue-IsBounded,
  discard_scheduled-IsBounded, close_admission-IsBounded,
}
use execution_engine.Registry.Steps.{
  Step, creates, enqueues, resumes, requeues, dequeues, persists, finishes, refills, drains,
  releases, cancels, cleans, Reach, here, next,
}
use execution_engine.Registry.Steps.Keeps.{
  sched-persist_state, sched-release_round, sched-cancel_owned_run, sched-cleanup_terminal_runs,
  sched-get_or_create,
}
use execution_engine.Registry.Steps.Closed.{
  IsClosed, enqueue_run-P, resume_run-P, begin_drain-P, refill_queued_runs-P, finish_execution-P,
  requeue-P,
}

module _ {r : Redis} (P : Scheduler → Type 0) (c : IsClosed P) {cfg : Settings} where
  Step-P : {g h : Registry r} → Step cfg g h → P g.sched → P h.sched
  Step-P (creates g now uuid key) p = subst P (sym (sched-get_or_create cfg now uuid key g)) p
  Step-P (enqueues g now id) p = enqueue_run-P P c cfg now id g p
  Step-P (resumes g now ref) p = resume_run-P P c cfg now ref g p
  Step-P (requeues g h now uuid id running e) p = requeue-P P c cfg now uuid id g h running e p
  Step-P (dequeues g id s e) p = c.dequeues g.sched id s e p
  Step-P (persists g now ref) p = subst P (sym (sched-persist_state cfg now ref g)) p
  Step-P (finishes g now uuid id) p = finish_execution-P P c cfg now uuid id g p
  Step-P (refills g now uuid exclude) p = refill_queued_runs-P P c cfg now uuid exclude g p
  Step-P (drains g) p = begin_drain-P P c cfg 0 g p
  Step-P (releases g fails ids) p = subst P (sym (sched-release_round fails ids g)) p
  Step-P (cancels g now id) p = subst P (sym (sched-cancel_owned_run cfg now id g)) p
  Step-P (cleans g now uuid) p = subst P (sym (sched-cleanup_terminal_runs cfg now uuid g)) p

  Reach-P : {g h : Registry r} → P g.sched → Reach cfg g h → P h.sched
  Reach-P p here = p
  Reach-P p (next e st) = Step-P st (Reach-P p e)

pends-IsBounded :
    (ids : List String) (s : Scheduler)
    → IsBounded s
    → IsBounded (record s { pending_resumes = ids })
pends-IsBounded ids s b = record {
  within = b.within;
  queue_distinct = b.queue_distinct;
  scheduled_distinct = b.scheduled_distinct;
  queued_exact = b.queued_exact;
  disjoint = b.disjoint;
}

requeue-IsBounded :
    (id : String) (s t : Scheduler)
    → contains s.scheduled id ≡ true
    → requeue_local id s ≡ some t
    → IsBounded s
    → IsBounded t
requeue-IsBounded id s t running e b = elim (Bool-cases s.draining) [
  | inl closed ↦ subst IsBounded (ground (arith, requeue_total id s b running, closed)) b
  | inr open' ↦
      subst IsBounded (ground (arith, requeue_total id s b running, open'))
        (requeued-IsBounded id s b running)
]

IsBounded-closed : IsClosed IsBounded
IsBounded-closed = record {
  admits = λ id s _ b. admit-IsBounded id s b;
  requeues = requeue-IsBounded;
  dequeues = λ s id t e b. dequeue-IsBounded s b e;
  unschedules = discard_scheduled-IsBounded;
  pends = pends-IsBounded;
  closes = close_admission-IsBounded;
}

new_scheduler-IsBounded : (n : ℕ) → IsBounded (new_scheduler n)
unfolding new_scheduler contains
new_scheduler-IsBounded n = record {
  within = omega arith;
  queue_distinct = tt;
  scheduled_distinct = tt;
  queued_exact = λ j. refl;
  disjoint = λ j h. refl;
}

-- Whatever operations run, in whatever order, after the registry is made: queued and scheduled
-- runs together are at most twice the limit, no run stands twice in the queue, `_queued` is the
-- set of the queue, and no queued run is scheduled.
pub Reach-IsBounded :
    {r : Redis} (cfg : Settings) (n : ℕ) (store : Option (DurabilityStore r)) (owner : String)
    (ttl : ℕ) (blank : RunState) {h : Registry r}
    → Reach cfg (new_registry n store owner ttl blank) h
    → IsBounded h.sched
unfolding new_registry
Reach-IsBounded cfg n store owner ttl blank e =
    Reach-P IsBounded IsBounded-closed (new_scheduler-IsBounded n) e

-- admission is closed, and `id` is not scheduled
record IsClosedFor (id : String) (s : Scheduler) : Type 0 where
  closed : s.draining ≡ true
  empty : s.queue ≡ []
  idle : contains s.scheduled id ≡ false

dequeue_from_empty :
    (d : Bool) (q : List String) (s : Scheduler) → q ≡ [] → dequeue_from d q s ≡ none
unfolding dequeue_from
dequeue_from_empty true q s e = refl
dequeue_from_empty false [] s e = refl
dequeue_from_empty false (i ∷ q) s e = ground arith

IsClosedFor-closed : (id : String) → IsClosed (IsClosedFor id)
unfolding requeue_local dequeue close_admission
IsClosedFor-closed id = record {
  admits = λ j s open' p. ground (arith, p.closed);
  requeues = λ j s t _ e p. subst (IsClosedFor id) (ground (arith, p.closed)) p;
  dequeues = λ s j t e p. ground (arith, dequeue_from_empty s.draining s.queue s p.empty);
  unschedules = λ j s p. ground (arith, contains-discard j s.scheduled id);
  pends = λ ids s p. ground arith;
  closes = λ s p. ground arith;
}

-- A drain is final: once admission is closed and the queue is empty, no operation reopens it,
-- queues a run, or schedules a run that was not scheduled before.
pub drain_final :
    {r : Redis} (cfg : Settings) (g : Registry r) (id : String) {h : Registry r}
    → g.draining ≡ true
    → g.queue ≡ []
    → contains g.scheduled id ≡ false
    → Reach cfg g h
    → (h.draining ≡ true) × (h.queue ≡ []) × (contains h.scheduled id ≡ false)
drain_final cfg g id closed empty idle e =
    let p : IsClosedFor id g.sched = record { closed = closed; empty = empty; idle = idle } in
    let q = Reach-P (IsClosedFor id) (IsClosedFor-closed id) p e in (q.closed, q.empty, q.idle)
