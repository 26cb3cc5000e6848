-- ===== src/Registry/Bounds.antt =====
-- The bound on the scheduler of execution_engine/run_registry.py, operation by operation.
use execution_engine.Common.{
  ◌+◌, ◌*◌, ◌≤◌, ◌<◌, String, eq_iff, Bool, true, false, ◌||◌, some, List, [], ◌∷◌, ◌++◌, ◌≡◌, refl,
  arith, ap, subst, length, length-append, contains, add, discard, leb, if◌then◌else◌, IsDistinct,
  contains-snoc, contains-add, contains-discard, snoc-IsDistinct, add-IsDistinct,
  discard-IsDistinct, length-discard_le, length-discard_present, length-add_absent, Bool-cases, inl,
  inr,
}
use execution_engine.Registry.State.{Scheduler}
use execution_engine.Registry.Scheduling.{
  is_full, put_nowait, admit, requeue_local, dequeue, dequeue_from,
}
use execution_engine.Registry.Draining.{close_admission}

-- What holds of the scheduler between two operations.
pub record IsBounded (s : Scheduler) : Type 0 where
  pub within : length s.queue + length s.scheduled ≤ s.max_concurrent_runs * 2
  pub queue_distinct : IsDistinct s.queue
  pub scheduled_distinct : IsDistinct s.scheduled
  pub queued_exact : (id : String) → contains s.queued id ≡ contains s.queue id
  pub disjoint : (id : String) → contains s.queue id ≡ true → contains s.scheduled id ≡ false

-- a queue that is not full takes one more run, which was neither queued nor scheduled
push_IsBounded :
    (id : String) (s : Scheduler)
    → IsBounded s
    → contains s.queue id ≡ false
    → contains s.scheduled id ≡ false
    → length s.queue + length s.scheduled < s.max_concurrent_runs * 2
    → IsBounded (record s { queue = s.queue ++ id ∷ []; queued = add id s.queued })
push_IsBounded id s b fresh idle room = record {
  within = omega (arith, b.within, length-append s.queue (id ∷ []));
  queue_distinct = snoc-IsDistinct s.queue id fresh b.queue_distinct;
  scheduled_distinct = b.scheduled_distinct;
  queued_exact =
      λ j. ground (arith, contains-snoc s.queue id j, contains-add id s.queued j, b.queued_exact j);
  disjoint = λ j h. ground (arith, contains-snoc s.queue id j, b.disjoint j, eq_iff id j);
}

put_nowait_room :
    (id : String) (s : Scheduler)
    → leb (s.max_concurrent_runs * 2) (length s.queue) ≡ false
    → put_nowait id s ≡ some (record s { queue = s.queue ++ id ∷ [] })
unfolding put_nowait
put_nowait_room id s room = ground arith

admit_accepted :
    (id : String) (s : Scheduler)
    → (contains s.queued id || contains s.scheduled id) ≡ false
    → is_full s ≡ false
    → admit id s ≡ (record s { queue = s.queue ++ id ∷ []; queued = add id s.queued }, true)
unfolding admit
admit_accepted id s fresh room =
    let put = put_nowait_room id s (unfold is_full in ground arith) in rw (fresh, room, put)

pub admit-IsBounded : (id : String) (s : Scheduler) → IsBounded s → IsBounded (admit id s).0
admit-IsBounded id s b = elim (Bool-cases (contains s.queued id || contains s.scheduled id)) [
  | inl there ↦ unfold admit in rw there b
  | inr fresh ↦ elim (Bool-cases (is_full s)) [
    | inl full ↦ unfold admit in rw (fresh, full) b
    | inr room ↦ rw (admit_accepted id s fresh room) (
        push_IsBounded id s b (ground (arith, b.queued_exact id)) (ground arith)
          (unfold is_full in ground arith))
  ]
]

pub discard_scheduled-IsBounded :
    (id : String) (s : Scheduler)
    → IsBounded s
    → IsBounded (record s { scheduled = discard id s.scheduled })
discard_scheduled-IsBounded id s b = record {
  within = omega (arith, b.within, length-discard_le id s.scheduled);
  queue_distinct = b.queue_distinct;
  scheduled_distinct = discard-IsDistinct id s.scheduled b.scheduled_distinct;
  queued_exact = b.queued_exact;
  disjoint = λ j h. ground (arith, b.disjoint j h, contains-discard id s.scheduled j);
}

abbrev pub requeued : String → Scheduler → Scheduler
requeued id s = record s {
  queue = s.queue ++ id ∷ [];
  queued = add id s.queued;
  scheduled = discard id s.scheduled;
}

pub requeued-IsBounded :
    (id : String) (s : Scheduler)
    → IsBounded s
    → contains s.scheduled id ≡ true
    → IsBounded (requeued id s)
requeued-IsBounded id s b running =
    let t = record s { scheduled = discard id s.scheduled } in
    push_IsBounded id t (discard_scheduled-IsBounded id s b) (ground (arith, b.disjoint id))
      (ground (arith, contains-discard id s.scheduled id, eq_iff id id))
      (omega (arith, b.within, length-discard_present id s.scheduled running))

-- A scheduled run always finds room when it goes back to the queue: `put_nowait` does not raise,
-- and unless a drain has begun the run is queued and no longer scheduled.
pub requeue_total :
    (id : String) (s : Scheduler)
    → IsBounded s
    → contains s.scheduled id ≡ true
    → requeue_local id s ≡ some (if s.draining then s else requeued id s)
unfolding requeue_local
requeue_total id s b running =
    let room : leb (s.max_concurrent_runs * 2) (length s.queue) ≡ false =
      ground (arith, b.within, length-discard_present id s.scheduled running) in
    ground (arith, room)

taken : String → List String → Scheduler → Scheduler
taken id rest s = record s {
  queue = rest;
  queued = discard id s.queued;
  scheduled = add id s.scheduled;
}

taken-IsBounded :
    (id : String) (rest : List String) (s : Scheduler)
    → s.queue ≡ id ∷ rest
    → IsBounded s
    → IsBounded (taken id rest s)
unfolding taken contains
taken-IsBounded id rest s e b =
    let d : IsDistinct (id ∷ rest) = subst IsDistinct e b.queue_distinct in
    let front : contains s.queue id ≡ true = rw e (ground (arith, eq_iff id id)) in
    let idle = b.disjoint id front in
    record {
      within = ground (arith, b.within, ap length e, length-add_absent id s.scheduled idle);
      queue_distinct = d.1;
      scheduled_distinct = add-IsDistinct id s.scheduled b.scheduled_distinct;
      queued_exact = λ j. ground (
        arith,
        contains-discard id s.queued j,
        b.queued_exact j,
        ap (λ q. contains q j) e,
        d.0,
        eq_iff id j,
      );
      disjoint = λ j h. ground (
        arith,
        contains-add id s.scheduled j,
        b.disjoint j,
        ap (λ q. contains q j) e,
        d.0,
        eq_iff id j,
      );
    }

dequeue_from-IsBounded :
    (d : Bool) (q : List String) (s : Scheduler) (id : String) (t : Scheduler)
    → s.queue ≡ q
    → IsBounded s
    → dequeue_from d q s ≡ some (id, t)
    → IsBounded t
unfolding dequeue_from taken
dequeue_from-IsBounded true q s id t e b h = ground arith
dequeue_from-IsBounded false [] s id t e b h = ground arith
dequeue_from-IsBounded false (i ∷ rest) s id t e b h =
    let same : taken i rest s ≡ t = ground arith in
    subst IsBounded same (taken-IsBounded i rest s e b)

pub dequeue-IsBounded :
    (s : Scheduler) {id : String} {t : Scheduler}
    → IsBounded s
    → dequeue s ≡ some (id, t)
    → IsBounded t
unfolding dequeue
dequeue-IsBounded s {id} {t} b h = dequeue_from-IsBounded s.draining s.queue s id t refl b h

pub close_admission-IsBounded : (s : Scheduler) → IsBounded s → IsBounded (close_admission s)
unfolding close_admission contains
close_admission-IsBounded s b = record {
  within = omega (arith, b.within);
  queue_distinct = tt;
  scheduled_distinct = b.scheduled_distinct;
  queued_exact = λ j. refl;
  disjoint = λ j h. ground arith;
}
