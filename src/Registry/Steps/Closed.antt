-- ===== src/Registry/Steps/Closed.antt =====
-- Induction over the steps of the registry for a property of its scheduler.
use execution_engine.Common.{
  ℕ, ◌≡◌, ◌∙◌, sym, subst, String, true, false, Option, some, List, [], ◌∷◌, ap, ◌&&◌, arith,
  contains, add, discard, Bool-cases, Option-cases, inl, inr,
}
use execution_engine.Durability.Redis.{Redis}
use execution_engine.Durability.Records.{PersistedRun}
use execution_engine.Durability.Store.{
  DurabilityStore, iter_queued_runs, resume_requested, resume_request_time,
}
use execution_engine.Registry.Identity.{RunStatus, is_waiting}
use execution_engine.Registry.State.{
  RunState, Ref, Scheduler, Settings, Registry, put_object, get_by_run_id, forget_local_run,
  state_from_persisted,
}
use execution_engine.Registry.Scheduling.{
  is_full, admit, requeue_local, dequeue, persist_state, claim, enqueue_run, queue_again,
  note_resume, resume_run,
}
use execution_engine.Registry.Draining.{close_admission, begin_drain}
use execution_engine.Registry.Completion.{
  register, with_resume, load_run, load_candidate, is_skipped, refill_one, refill_from,
  refill_queued_runs, take_pending_resume, finish_execution, requeue,
}
use execution_engine.Registry.Steps.Keeps.{
  sched-put_object, sched-register, sched-forget_local_run, sched-persist_state, sched-note_resume,
  sched-release_unscheduled_claims,
}

-- The operations that change the scheduler keep `P`; a run is admitted only before a drain.
pub record IsClosed (P : Scheduler → Type 0) : Type 0 where
  pub admits : (id : String) (s : Scheduler) → s.draining ≡ false → P s → P (admit id s).0
  pub requeues :
      (id : String) (s t : Scheduler)
      → contains s.scheduled id ≡ true
      → requeue_local id s ≡ some t
      → P s
      → P t
  pub dequeues :
      (s : Scheduler) (id : String) (t : Scheduler) → dequeue s ≡ some (id, t) → P s → P t
  pub unschedules :
      (id : String) (s : Scheduler) → P s → P (record s { scheduled = discard id s.scheduled })
  pub pends : (ids : List String) (s : Scheduler) → P s → P (record s { pending_resumes = ids })
  pub closes : (s : Scheduler) → P s → P (close_admission s)

module _ {r : Redis} (P : Scheduler → Type 0) (c : IsClosed P) (cfg : Settings) (now : ℕ) where
  pub enqueue_run-P :
      (id : String) (g : Registry r) → P g.sched → P (enqueue_run cfg now id g).0.sched
  unfolding enqueue_run forget_local_run
  enqueue_run-P id g p = elim (Bool-cases g.draining) [
    | inl d ↦ subst P (ground (arith, d)) p
    | inr open' ↦ elim (Bool-cases (claim cfg now g.durability_store id g.owner_id).1) [
      | inl mine ↦ subst P (ground (arith, mine, open')) (c.admits id g.sched open' p)
      | inr other ↦ subst P (ground (arith, other, open')) p
    ]
  ]

  queue_again-P : (ref : Ref) (g : Registry r) → P g.sched → P (queue_again cfg now ref g).0.sched
  unfolding queue_again
  queue_again-P ref g p =
      let s = g.objects ref in
      let g1 = put_object ref (record s { status = RunStatus.queued }) g in
      enqueue_run-P s.run_id (persist_state cfg now ref g1)
        (subst P (sym (sched-persist_state cfg now ref g1 ∙ sched-put_object ref _ g)) p)

  pub resume_run-P : (ref : Ref) (g : Registry r) → P g.sched → P (resume_run cfg now ref g).0.sched
  unfolding resume_run
  resume_run-P ref g p =
      let g1 = note_resume cfg now ref g in
      let p1 : P g1.sched = subst P (sym (sched-note_resume now cfg ref g)) p in
      elim (Bool-cases g.draining) [
        | inl d ↦ subst P (ground (arith, d)) p
        | inr open' ↦ elim (Bool-cases (contains g.scheduled (g.objects ref).run_id)) [
          | inl there ↦
              subst P (ground (arith, there, open'))
                (c.pends (add (g.objects ref).run_id g1.pending_resumes) g1.sched p1)
          | inr idle ↦ subst P (ground (arith, idle, open')) (queue_again-P ref g1 p1)
        ]
      ]

  pub begin_drain-P : (g : Registry r) → P g.sched → P (begin_drain g).sched
  unfolding begin_drain
  begin_drain-P g p =
      subst P
        (sym (sched-release_unscheduled_claims (record g { sched = close_admission g.sched })))
        (c.closes g.sched p)

  module _ (uuid : ℕ → String) where
    load_run-P :
        (d : DurabilityStore r) (s : RunState) (g : Registry r)
        → P g.sched
        → P (load_run cfg now uuid d s g).sched
    unfolding load_run
    load_run-P d s g h =
        let s' = with_resume (resume_requested r d s.run_id) (resume_request_time r d s.run_id) s in
        let g1 = register cfg now uuid s' g in
        let g2 = (enqueue_run cfg now s.run_id g1).0 in
        let accepted = (enqueue_run cfg now s.run_id g1).1 in
        let p2 : P g2.sched =
          enqueue_run-P s.run_id g1 (subst P (sym (sched-register cfg now uuid s' g)) h) in
        elim (Bool-cases (accepted && contains g2.queued s.run_id)) [
          | inl there ↦ subst P (ground (arith, there)) p2
          | inr gone ↦ subst P (ground (arith, gone, sched-forget_local_run s.run_id g2)) p2
        ]

    load_candidate-P :
        (d : DurabilityStore r) (p : PersistedRun) (g : Registry r)
        → P g.sched
        → P (load_candidate cfg now uuid d p g).sched
    unfolding load_candidate
    load_candidate-P d p g h = elim (Option-cases (state_from_persisted p (uuid g.next_ref))) [
      | inl absent ↦ subst P (ground (arith, absent)) h
      | inr (s, known) ↦ subst P (ground (arith, known)) (load_run-P d s g h)
    ]

    refill_one-P :
        (exclude : Option String) (p : PersistedRun) (g : Registry r)
        → P g.sched
        → P (refill_one cfg now uuid exclude p g).sched
    unfolding refill_one
    refill_one-P exclude p g h = elim (Option-cases g.durability_store) [
      | inl absent ↦ subst P (ground (arith, absent)) h
      | inr (d, store) ↦ elim (Bool-cases (is_skipped cfg now uuid exclude d p g)) [
        | inl skip ↦ subst P (ground (arith, store, skip)) h
        | inr load ↦ subst P (ground (arith, store, load)) (load_candidate-P d p g h)
      ]
    ]

    refill_from-P :
        (exclude : Option String) (ps : List PersistedRun) (g : Registry r)
        → P g.sched
        → P (refill_from cfg now uuid exclude ps g).sched
    unfolding refill_from
    refill_from-P exclude [] g h = h
    refill_from-P exclude (p ∷ ps) g h =
        let rest =
          refill_from-P exclude ps (refill_one cfg now uuid exclude p g)
            (refill_one-P exclude p g h) in
        elim (Bool-cases (is_full g.sched)) [
          | inl full ↦ subst P (ground (arith, full)) h
          | inr room ↦ subst P (ground (arith, room)) rest
        ]

    pub refill_queued_runs-P :
        (exclude : Option String) (g : Registry r)
        → P g.sched
        → P (refill_queued_runs cfg now uuid exclude g).sched
    unfolding refill_queued_runs
    refill_queued_runs-P exclude g h = elim (Option-cases g.durability_store) [
      | inl absent ↦ subst P (ground (arith, absent)) h
      | inr (d, store) ↦ elim (Bool-cases g.draining) [
        | inl closed ↦ subst P (ground (arith, store, closed)) h
        | inr open' ↦
            subst P (ground (arith, store, open'))
              (refill_from-P exclude (iter_queued_runs r d) g h)
      ]
    ]

    take_pending_resume-P :
        (id : String) (g : Registry r) → P g.sched → P (take_pending_resume cfg now uuid id g).sched
    unfolding take_pending_resume
    take_pending_resume-P id g h =
        let g1 = record g {
          sched = record g.sched { pending_resumes = discard id g.pending_resumes };
        } in
        let h1 = c.pends (discard id g.pending_resumes) g.sched h in
        elim (Bool-cases (contains g.pending_resumes id)) [
          | inr absent ↦ subst P (ground (arith, absent)) h
          | inl pending ↦ elim (Option-cases (get_by_run_id g id)) [
            | inl unknown ↦ subst P (ground (arith, pending, unknown)) h1
            | inr (ref, known) ↦ elim (Bool-cases (is_waiting (g.objects ref).status)) [
              | inl waits ↦
                  subst P (ground (arith, pending, known, waits)) (queue_again-P ref g1 h1)
              | inr runs ↦ subst P (ground (arith, pending, known, runs)) h1
            ]
          ]
        ]

    pub finish_execution-P :
        (id : String) (g : Registry r) → P g.sched → P (finish_execution cfg now uuid id g).sched
    unfolding finish_execution
    finish_execution-P id g h =
        let s = record g.sched { scheduled = discard id g.scheduled } in
        let g1 = record g { sched = s } in
        let g2 = record g { sched = record s { pending_resumes = discard id s.pending_resumes } } in
        let h1 = c.unschedules id g.sched h in
        elim (Bool-cases g.draining) [
          | inl closed ↦
              subst P (ground (arith, closed, sched-release_unscheduled_claims g2))
                (c.pends (discard id s.pending_resumes) s h1)
          | inr open' ↦ subst P (ground (arith, open')) (
              refill_queued_runs-P (some id) (take_pending_resume cfg now uuid id g1)
                (take_pending_resume-P id g1 h1))
        ]

    pub requeue-P :
        (id : String) (g h : Registry r)
        → contains g.scheduled id ≡ true
        → requeue cfg now uuid id g ≡ some h
        → P g.sched
        → P h.sched
    unfolding requeue
    requeue-P id g h running e p = elim (Option-cases (requeue_local id g.sched)) [
      | inl full ↦ ground (arith, full)
      | inr (s, ok) ↦
          let same : record g { sched = s } ≡ h = ground (arith, ok) in
          subst P (ap (λ (k : Registry r). k.sched) same) (c.requeues id g.sched s running ok p)
    ]
