-- ===== src/Worker/Noticed.antt =====
-- What a cancellation or the loss of the lock leaves alone, while the events of a run that is through are
-- flushed (`cancel_run`, `cancel_owned_run`).
use execution_engine.Common.{
  by_test, false≢true, Bool, true, false, ◌||◌, ◌≡◌, ◌⊎◌, inl, inr, refl, arith, ap, sym, ◌∙◌,
}
use execution_engine.Registry.Identity.{RunStatus, cancelled, cancelling, is_terminal, queued}
use execution_engine.Worker.State.{
  Execution, Meanwhile, notice_meanwhile, persist_status, Happening, cancel_requested,
  cancel_polled, lost_lock, happen, cancel_run, poll_cancel, is_still_queued,
}
use execution_engine.Worker.Phases.{
  IsWaiting, ends_of, notice_meanwhile-keeps, for_approval, for_dependencies,
}

-- what the end of an execution leaves as it was, before the commit
pub record Kept (x y : Execution) : Type 0 where
  pub same_end_status : is_terminal x.status ≡ true → y.status ≡ x.status
  pub still_waiting :
      IsWaiting x.status → IsWaiting y.status ⊎ ((y.status ≡ cancelling) × (y.cancel_event ≡ true))
  pub same_ends : ends_of y ≡ ends_of x
  pub same_suspended : y.suspended ≡ x.suspended
  pub same_managed : y.managed ≡ x.managed
  pub same_text : y.full_text ≡ x.full_text
  pub cancel_kept : x.cancel_event ≡ true → y.cancel_event ≡ true
  pub lost_kept : x.execution_lock_lost ≡ true → y.execution_lock_lost ≡ true

-- what happens meanwhile leaves the commits and the texts alone
pub record Noticed (x y : Execution) : Type 0 where
  pub kept : Kept x y
  pub same_commits : y.commits ≡ x.commits
  pub same_final : y.final_text ≡ x.final_text

-- waiting, or cancelled out of it
abbrev Waits : RunStatus → Bool → Type 0
Waits st cancel = IsWaiting st ⊎ ((st ≡ cancelling) × (cancel ≡ true))

waiting_no_queued : (st : RunStatus) (c : Bool) → Waits st c → is_still_queued st ≡ false
unfolding is_still_queued
waiting_no_queued st c (inl for_approval) = refl
waiting_no_queued st c (inl for_dependencies) = refl
waiting_no_queued st c (inr (e, _)) = ap is_still_queued e

queued_no_end : (st : RunStatus) → is_still_queued st ≡ true → is_terminal st ≡ false
unfolding is_still_queued is_terminal
queued_no_end queued q = refl
queued_no_end _ q = absurd (false≢true q)

changed-Noticed :
    (x y : Execution) (c l : Bool) (st p : RunStatus)
    → Noticed x y
    → (is_terminal y.status ≡ true → st ≡ y.status)
    → (Waits y.status y.cancel_event → Waits st c)
    → (y.cancel_event ≡ true → c ≡ true)
    → (y.execution_lock_lost ≡ true → l ≡ true)
    → Noticed x (record y { cancel_event = c; execution_lock_lost = l; status = st; persisted = p })
changed-Noticed x y c l st p n ends waits cancels loses = record {
  kept = record {
    same_end_status =
        λ t. let same = n.kept.same_end_status t in ends (ap is_terminal same ∙ t) ∙ same;
    still_waiting = λ w. waits (n.kept.still_waiting w);
    same_ends = n.kept.same_ends;
    same_suspended = n.kept.same_suspended;
    same_managed = n.kept.same_managed;
    same_text = n.kept.same_text;
    cancel_kept = λ e. cancels (n.kept.cancel_kept e);
    lost_kept = λ e. loses (n.kept.lost_kept e);
  };
  same_commits = n.same_commits;
  same_final = n.same_final;
}

happen-Noticed : (h : Happening) (x y : Execution) → Noticed x y → Noticed x (happen h y)
unfolding happen cancel_run poll_cancel persist_status
happen-Noticed cancel_requested x y n =
    by_test (Noticed x) (is_still_queued y.status)
      (λ q.
        changed-Noticed x y true y.execution_lock_lost cancelled _ n
          (λ t. absurd (false≢true (sym (queued_no_end y.status q) ∙ t)))
          (λ w. absurd (false≢true (sym (waiting_no_queued y.status y.cancel_event w) ∙ q)))
          (λ _. refl) (λ e. e))
      (λ _.
        by_test (Noticed x) (is_terminal y.status)
          (λ _.
            changed-Noticed x y true y.execution_lock_lost y.status y.persisted n (λ _. refl)
              (λ w. elim w [ inl i ↦ inl i | inr (e, _) ↦ inr (e, refl) ]) (λ _. refl) (λ e. e))
          (λ open_.
            changed-Noticed x y true y.execution_lock_lost cancelling _ n
              (λ t. absurd (false≢true (sym open_ ∙ t))) (λ _. inr (refl, refl)) (λ _. refl)
              (λ e. e)))
happen-Noticed cancel_polled x y n =
    by_test (Noticed x) (y.execution_lock_lost || is_terminal y.status) (λ _. n)
      (λ acts.
        changed-Noticed x y true y.execution_lock_lost cancelling _ n
          (λ t. absurd (ground (arith, acts, t))) (λ _. inr (refl, refl)) (λ _. refl) (λ e. e))
happen-Noticed lost_lock x y n =
    changed-Noticed x y y.cancel_event true y.status y.persisted n (λ _. refl) (λ w. w) (λ e. e)
      (λ _. refl)

pub unnoticed : (x : Execution) → Noticed x x
unnoticed x = record {
  kept = record {
    same_end_status = λ _. refl;
    still_waiting = inl;
    same_ends = refl;
    same_suspended = refl;
    same_managed = refl;
    same_text = refl;
    cancel_kept = λ c. c;
    lost_kept = λ l. l;
  };
  same_commits = refl;
  same_final = refl;
}

pub notice_meanwhile-Noticed : (m : Meanwhile) (x : Execution) → Noticed x (notice_meanwhile m x)
notice_meanwhile-Noticed m x =
    notice_meanwhile-keeps (Noticed x) (λ h y. happen-Noticed h x y) m x (unnoticed x)
