-- ===== src/Worker/Ending.antt =====
-- How an execution ends, whatever it meets.
use execution_engine.Common.{true, false, [], ◌∷◌, ◌≡◌, ◌⊎◌, inl, inr, refl, ap, subst, sym, ◌∙◌}
use execution_engine.Registry.Identity.{RunStatus, failed, cancelled, cancelling, is_terminal}
use execution_engine.Worker.State.{RunEvent, run_failed, Execution}
use execution_engine.Worker.Resume.{unknown_outcome_text}
use execution_engine.Worker.Execute.{World, settle, finalize_run, execution_body, do_execute_run}
use execution_engine.Worker.Phases.{
  IsWaiting, ends_of, Matches, RunOutcome, reports, parks, silent, Through, both_cancelled,
  both_failed, both_completed,
}
use execution_engine.Worker.Body.{Fresh, execution_body-Fate}
use execution_engine.Worker.Settled.{Settled, through, revoked, stopped, unmanaged, settle-Settled}
use execution_engine.Worker.Finalizing.{Committed, Finalized, finalize_run-Finalized}

-- The ways in which an execution ends, as it leaves the run.
pub data Concluded (w : World) (z : Execution) : Type 0 where
  -- one event has reported the end, which is the status
  reported :
      (e : RunEvent) → Matches e z.status → ends_of z ≡ e ∷ [] → Committed w z → Concluded w z
  -- the run waits, and is not committed
  parked : ends_of z ≡ [] → z.suspended ≡ true → IsWaiting z.status → z.commits ≡ [] → Concluded w z
  -- the run was to wait, and was cancelled before it was put away: it says so, and is not committed
  parked_cancelling :
      ends_of z ≡ []
      → z.suspended ≡ true
      → z.status ≡ cancelling
      → z.cancel_event ≡ true
      → z.commits ≡ []
      → Concluded w z
  -- the run was cancelled while a write was of unknown outcome: it has failed without a report
  unreported :
      ends_of z ≡ []
      → z.status ≡ failed
      → z.cancel_event ≡ true
      → z.full_text ≡ unknown_outcome_text
      → Committed w z
      → Concluded w z
  -- the task was cancelled, and its lock not lost
  interrupted_as :
      (z.status ≡ cancelled) ⊎ (z.status ≡ failed)
      → ends_of z ≡ run_failed "EXECUTION_AUTHORITY_LOST" ∷ []
      → Committed w z
      → Concluded w z
  -- the task was cancelled for the loss of its lock: it reports and commits nothing
  given_up : z.execution_lock_lost ≡ true → ends_of z ≡ [] → z.commits ≡ [] → Concluded w z
  -- there was no event manager yet
  unstarted :
      (z.status ≡ cancelled) ⊎ (z.status ≡ failed)
      → z.managed ≡ false
      → ends_of z ≡ []
      → Committed w z
      → Concluded w z

Matches-terminal : (e : RunEvent) (st : RunStatus) → Matches e st → is_terminal st ≡ true
unfolding is_terminal
Matches-terminal e st both_cancelled = refl
Matches-terminal e st (both_failed code) = refl
Matches-terminal e st both_completed = refl

ended_terminal : (st : RunStatus) → (st ≡ cancelled) ⊎ (st ≡ failed) → is_terminal st ≡ true
unfolding is_terminal
ended_terminal st (inl c) = ap is_terminal c
ended_terminal st (inr f) = ap is_terminal f

with_status :
    (x z : Execution)
    → z.status ≡ x.status
    → (x.status ≡ cancelled) ⊎ (x.status ≡ failed)
    → (z.status ≡ cancelled) ⊎ (z.status ≡ failed)
with_status x z same (inl c) = inl (same ∙ c)
with_status x z same (inr f) = inr (same ∙ f)

Settled-Concluded : (w : World) (x : Execution) → Settled x → Concluded w (finalize_run w x)
Settled-Concluded w x s = of s (finalize_run-Finalized w x)
  where
    of_through :
        Through x → RunOutcome x → Finalized w x (finalize_run w x) → Concluded w (finalize_run w x)
    of_through t (reports e m ends free) f =
        let ended = Matches-terminal e x.status m in
        reported e (subst (Matches e) (sym (f.kept.same_end_status ended)) m)
          (f.kept.same_ends ∙ ends) (f.committed ended free t.uncommitted)
    of_through t (parks ends suspended waits) f =
        let none = f.suspended_kept suspended ∙ t.uncommitted in
        elim (f.kept.still_waiting waits) [
          | inl still ↦
              parked (f.kept.same_ends ∙ ends) (f.kept.same_suspended ∙ suspended) still none
          | inr (status, cancel) ↦
              parked_cancelling (f.kept.same_ends ∙ ends) (f.kept.same_suspended ∙ suspended) status
                cancel none
        ]
    of_through t (silent ends status free cancel text) f =
        let ended = ended_terminal x.status (inr status) in
        unreported (f.kept.same_ends ∙ ends) (f.kept.same_end_status ended ∙ status)
          (f.kept.cancel_kept cancel) (f.kept.same_text ∙ text)
          (f.committed ended free t.uncommitted)

    of : Settled x → Finalized w x (finalize_run w x) → Concluded w (finalize_run w x)
    of (through t) f = of_through t t.outcome f
    of (revoked lost ends none) f =
        given_up (f.kept.lost_kept lost) (f.kept.same_ends ∙ ends) (f.revoked_kept lost ∙ none)
    of (stopped status ends free none) f =
        let ended = ended_terminal x.status status in
        interrupted_as (with_status x (finalize_run w x) (f.kept.same_end_status ended) status)
          (f.kept.same_ends ∙ ends) (f.committed ended free none)
    of (unmanaged status away ends free none) f =
        let ended = ended_terminal x.status status in
        unstarted (with_status x (finalize_run w x) (f.kept.same_end_status ended) status)
          (f.kept.same_managed ∙ away) (f.kept.same_ends ∙ ends) (f.committed ended free none)

-- Whatever an execution meets from a fresh state, it ends in one of seven ways: one event reports the
-- end, which is the status of the run; or the run is parked with a waiting status, without a report
-- or a commit; or it was parked and cancelled while its events were flushed, and has the status
-- cancelling, without a report or a commit; or it was cancelled while a write was of unknown outcome,
-- and has failed without a report; or its task was cancelled, and it reports that its authority is
-- lost; or its lock is lost, and it reports and commits nothing; or it has no event manager to report
-- with. Otherwise than parked or without its lock, it is committed once with its status and text,
-- unless its lock is lost or its events cannot be flushed in the end.
pub do_execute_run-Concluded :
    (w : World) (x : Execution) → Fresh x → Concluded w (do_execute_run w x)
unfolding do_execute_run
do_execute_run-Concluded w x o =
    Settled-Concluded w (settle (execution_body w x))
      (settle-Settled (execution_body w x) (execution_body-Fate w x o))
