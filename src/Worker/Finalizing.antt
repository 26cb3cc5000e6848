-- ===== src/Worker/Finalizing.antt =====
-- `_finalize_run` of execution_engine/worker_cleanup.py: what it keeps, and what it commits.
use execution_engine.Common.{
  by_test, Bool, true, false, ◌||◌, [], ◌∷◌, ◌≡◌, refl, arith, ap, ◌∙◌, if◌then◌else◌,
}
use execution_engine.Registry.Identity.{is_terminal}
use execution_engine.Worker.State.{
  Commit, Execution, Await, answers, throws, interrupted, notice_meanwhile, persist_status,
}
use execution_engine.Worker.Execute.{World, is_cancelled, commit_run, finalize_run}
use execution_engine.Worker.Noticed.{Kept, Noticed, unnoticed, notice_meanwhile-Noticed}

-- whether the events could be flushed
abbrev pub flushed : Await Unit → Bool
flushed (answers m a) = true
flushed _ = false

-- the terminal commit: the status and the text, which a cancelled run does not give
abbrev pub commit_of : Execution → Commit
commit_of x = record {
  status = x.status;
  content = if is_cancelled x.status then "" else x.full_text;
}

-- a run is committed once, unless it has lost its lock or its events could not be flushed
pub data Committed (w : World) (x : Execution) : Type 0 where
  once : x.commits ≡ commit_of x ∷ [] → Committed w x
  lock_lost : x.execution_lock_lost ≡ true → x.commits ≡ [] → Committed w x
  not_flushed : flushed w.stop ≡ false → x.commits ≡ [] → Committed w x

-- and what it commits
pub record Finalized (w : World) (x z : Execution) : Type 0 where
  pub kept : Kept x z
  pub committed : is_terminal x.status ≡ true → x.suspended ≡ false → x.commits ≡ [] → Committed w z
  pub suspended_kept : x.suspended ≡ true → z.commits ≡ x.commits
  pub revoked_kept : x.execution_lock_lost ≡ true → z.commits ≡ x.commits

not_flushed-Finalized :
    (w : World) (x y : Execution)
    → Kept x y
    → y.commits ≡ x.commits
    → flushed w.stop ≡ false
    → Finalized w x y
not_flushed-Finalized w x y k same h = record {
  kept = k;
  committed = λ _ _ c. not_flushed h (same ∙ c);
  suspended_kept = λ _. same;
  revoked_kept = λ _. same;
}

commit_run-Finalized :
    (w : World) (x y : Execution)
    → Kept x y
    → y.commits ≡ x.commits
    → (is_terminal x.status ≡ true → y.final_text ≡ (commit_of y).content)
    → Finalized w x (commit_run y)
unfolding commit_run persist_status
commit_run-Finalized w x y k same text =
    by_test (Finalized w x) (y.suspended || y.execution_lock_lost)
      (λ withheld. record {
        kept = k;
        committed = λ _ s c. lock_lost (ground (arith, withheld, k.same_suspended, s)) (same ∙ c);
        suspended_kept = λ _. same;
        revoked_kept = λ _. same;
      })
      (λ due. record {
        kept = record {
          same_end_status = k.same_end_status;
          still_waiting = k.still_waiting;
          same_ends = k.same_ends;
          same_suspended = k.same_suspended;
          same_managed = k.same_managed;
          same_text = k.same_text;
          cancel_kept = k.cancel_kept;
          lost_kept = k.lost_kept;
        };
        committed = λ t s c. once (let same_text = text t in cc (same, c, same_text));
        suspended_kept = λ s. absurd (ground (arith, due, k.same_suspended, s));
        revoked_kept = λ l. absurd (ground (arith, due, k.lost_kept l));
      })

-- the state that `_finalize_run` stores before the events are flushed
abbrev recorded : Execution → Execution
recorded x =
    persist_status (record x { final_text = if is_cancelled x.status then "" else x.full_text })

recorded-Noticed : (x z : Execution) → Noticed (recorded x) z → Kept x z × (z.commits ≡ x.commits)
unfolding persist_status
recorded-Noticed x z n = (
  record {
    same_end_status = n.kept.same_end_status;
    still_waiting = n.kept.still_waiting;
    same_ends = n.kept.same_ends;
    same_suspended = n.kept.same_suspended;
    same_managed = n.kept.same_managed;
    same_text = n.kept.same_text;
    cancel_kept = n.kept.cancel_kept;
    lost_kept = n.kept.lost_kept;
  },
  n.same_commits,
)

recorded_text :
    (x z : Execution)
    → Noticed (recorded x) z
    → is_terminal x.status ≡ true
    → z.final_text ≡ (commit_of z).content
unfolding persist_status
recorded_text x z n t = ground (arith, n.same_final, n.kept.same_end_status t, n.kept.same_text)

pub finalize_run-Finalized : (w : World) (x : Execution) → Finalized w x (finalize_run w x)
unfolding finalize_run persist_status
finalize_run-Finalized w x =
    by_test (Finalized w x) x.managed (λ _. of w.stop refl)
      (λ _. delivered (recorded x) (unnoticed (recorded x)))
  where
    delivered : (z : Execution) → Noticed (recorded x) z → Finalized w x (commit_run z)
    delivered z n =
        let (kept, same) = recorded-Noticed x z n in
        commit_run-Finalized w x z kept same (recorded_text x z n)

    withheld : (z : Execution) → Noticed (recorded x) z → flushed w.stop ≡ false → Finalized w x z
    withheld z n h =
        let (kept, same) = recorded-Noticed x z n in not_flushed-Finalized w x z kept same h

    of :
        (a : Await Unit)
        → w.stop ≡ a
        → Finalized w x (elim a [
          | answers m v ↦ commit_run (notice_meanwhile m (recorded x))
          | throws m e ↦ notice_meanwhile m (recorded x)
          | interrupted m ↦ notice_meanwhile m (recorded x)
        ])
    of (answers m v) h =
        delivered (notice_meanwhile m (recorded x)) (notice_meanwhile-Noticed m (recorded x))
    of (throws m e) h =
        withheld (notice_meanwhile m (recorded x)) (notice_meanwhile-Noticed m (recorded x))
          (ap flushed h)
    of (interrupted m) h =
        withheld (notice_meanwhile m (recorded x)) (notice_meanwhile-Noticed m (recorded x))
          (ap flushed h)
