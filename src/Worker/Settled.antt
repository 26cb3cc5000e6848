-- ===== src/Worker/Settled.antt =====
-- Where the handlers of the exceptions leave an execution.
use execution_engine.Common.{
  by_test, Bool, true, false, ◌&&◌, [], ◌∷◌, ◌≡◌, ◌⊎◌, inl, inr, refl, arith, keep, if◌then◌else◌,
}
use execution_engine.Registry.Identity.{failed, cancelled}
use execution_engine.Worker.State.{
  run_failed, Execution, Error, Flow, continues, returns, raises, stops, emit_run_event,
}
use execution_engine.Worker.Execute.{error_code, settle}
use execution_engine.Worker.Phases.{
  Open, ends_of, both_failed, reports, over, erred, cut, Through, finish_cancelled_run-Through,
}
use execution_engine.Worker.Body.{Fresh, Fate, in_phase, early_error, early_cut}

-- where the handlers of the exceptions leave the run
pub data Settled (x : Execution) : Type 0 where
  through : Through x → Settled x
  revoked : x.execution_lock_lost ≡ true → ends_of x ≡ [] → x.commits ≡ [] → Settled x
  stopped :
      (x.status ≡ cancelled) ⊎ (x.status ≡ failed)
      → ends_of x ≡ run_failed "EXECUTION_AUTHORITY_LOST" ∷ []
      → x.suspended ≡ false
      → x.commits ≡ []
      → Settled x
  unmanaged :
      (x.status ≡ cancelled) ⊎ (x.status ≡ failed)
      → x.managed ≡ false
      → ends_of x ≡ []
      → x.suspended ≡ false
      → x.commits ≡ []
      → Settled x

cancelled_or_failed :
    (b : Bool)
    → ((if b then cancelled else failed) ≡ cancelled) ⊎ ((if b then cancelled else failed) ≡ failed)
cancelled_or_failed true = inl refl
cancelled_or_failed false = inr refl

stops-Settled : (x : Execution) → Open x → Settled (settle (stops x))
unfolding settle emit_run_event keep
stops-Settled x o =
    by_test Settled x.execution_lock_lost (λ lost. revoked lost o.no_end o.no_commit)
      (λ _.
        by_test Settled x.managed
          (λ _.
            stopped (cancelled_or_failed x.cancel_event) (ground (arith, o.no_end)) o.unsuspended
              o.no_commit)
          (λ none. absurd (ground (arith, none, o.managed_yet))))

early_cut-Settled : (x : Execution) → Fresh x → Settled (settle (stops x))
unfolding settle
early_cut-Settled x o =
    by_test Settled x.execution_lock_lost (λ lost. revoked lost o.no_end o.no_commit)
      (λ _.
        by_test Settled x.managed (λ some_. absurd (ground (arith, some_, o.managed_yet)))
          (λ none.
            unmanaged (cancelled_or_failed x.cancel_event) none o.no_end o.unsuspended o.no_commit))

raises-Settled : (e : Error) (x : Execution) → Open x → Settled (settle (raises e x))
unfolding settle emit_run_event keep
raises-Settled e x o =
    by_test Settled (x.cancel_event && x.managed) (λ _. through (finish_cancelled_run-Through x o))
      (λ _.
        by_test (λ (y : Execution). Settled (record y { status = failed })) x.managed
          (λ _. through (record {
            outcome =
                reports (run_failed (error_code e)) (both_failed (error_code e))
                  (ground (arith, o.no_end)) o.unsuspended;
            managed_still = o.managed_yet;
            uncommitted = o.no_commit;
          }))
          (λ none. absurd (ground (arith, none, o.managed_yet))))

early_error-Settled : (e : Error) (x : Execution) → Fresh x → Settled (settle (raises e x))
unfolding settle
early_error-Settled e x o =
    by_test Settled (x.cancel_event && x.managed)
      (λ both. absurd (ground (arith, both, o.managed_yet)))
      (λ _.
        by_test (λ (y : Execution). Settled (record y { status = failed })) x.managed
          (λ some_. absurd (ground (arith, some_, o.managed_yet)))
          (λ none. unmanaged (inr refl) none o.no_end o.unsuspended o.no_commit))

pub settle-Settled : (f : Flow) → Fate f → Settled (settle f)
unfolding settle
settle-Settled (continues x) (in_phase p) = elim p [ ]
settle-Settled (returns x) (in_phase (over t)) = through t
settle-Settled (raises e x) (in_phase (erred o)) = raises-Settled e x o
settle-Settled (stops x) (in_phase (cut o)) = stops-Settled x o
settle-Settled (raises e x) (early_error o) = early_error-Settled e x o
settle-Settled (stops x) (early_cut o) = early_cut-Settled x o
