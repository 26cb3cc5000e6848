-- ===== src/Worker/Body.antt =====
-- The body of an execution keeps the rule of Phases, whatever it meets.
use execution_engine.Common.{
  by_test, ℕ, zero, suc, max, String, Bool, true, false, not, ◌&&◌, ◌||◌, Option, none, some,
  is_some, ◌≡◌, refl, arith, subst, sym, keep, if◌then◌else◌,
}
use execution_engine.Registry.Identity.{completed, is_terminal}
use execution_engine.Worker.State.{
  RunEvent, run_progress, run_started, run_completed, target_insights_context_retrieved,
  skill_catalog_available, assistant_message_started, assistant_token_delta,
  assistant_message_completed, reasoning_summary, ends_run, Execution, Meanwhile, Happening,
  cancel_requested, cancel_polled, lost_lock, happen, cancel_run, poll_cancel, is_still_queued,
  Error, Await, answers, throws, interrupted, Flow, returns, raises, stops, notice_meanwhile, await,
  emit_run_event, emit_event, persist_status, unless_cancelled, fail,
}
use execution_engine.Worker.Resume.{Continuation}
use execution_engine.Worker.Stream.{emit_summaries, stream, catch_timeout}
use execution_engine.Worker.Execute.{
  World, fetch, built, fetch_context, prepare, resume_if, announce_inference, announce_catalog,
  complete_run, conclude_run, run_engine, run_with, run_active, execution_body,
}
use execution_engine.Worker.Phases.{
  OpenWith, Open, ends_of, Phase, going, over, erred, cut, Through, reports, Matches,
  both_completed, and_then-Phase, notice_meanwhile-Open, notice_meanwhile-keeps, await-Phase,
  emit_event-Open, finish_cancelled_run-Through, unless_cancelled-Phase, fail-Phase,
}
use execution_engine.Worker.Steps.{resume-Phase, stream-Phase, catch_timeout-Phase}

-- nothing has happened, and there is no event manager yet
abbrev pub Fresh : Execution → Type 0
Fresh x = OpenWith (not x.managed) x.cancel_event_emitted x.suspended (ends_of x) x.commits

happen-Fresh : (h : Happening) (x : Execution) → Fresh x → Fresh (happen h x)
unfolding happen cancel_run poll_cancel persist_status
happen-Fresh cancel_requested x o =
    by_test Fresh (is_still_queued x.status) (λ _. o)
      (λ _. by_test Fresh (is_terminal x.status) (λ _. o) (λ _. o))
happen-Fresh cancel_polled x o =
    by_test Fresh (x.execution_lock_lost || is_terminal x.status) (λ _. o) (λ _. o)
happen-Fresh lost_lock x o = o

notice_meanwhile-Fresh : (m : Meanwhile) (x : Execution) → Fresh x → Fresh (notice_meanwhile m x)
notice_meanwhile-Fresh = notice_meanwhile-keeps Fresh happen-Fresh

-- the body is in a phase, or was left before there was an event manager
pub data Fate : Flow → Type 0 where
  in_phase : {f : Flow} → Phase false f → Fate f
  early_error : {e : Error} {x : Execution} → Fresh x → Fate (raises e x)
  early_cut : {x : Execution} → Fresh x → Fate (stops x)

-- open and not cancelled
abbrev Live : Execution → Type 0
Live x = Open x × (x.cancel_event ≡ false)

emit_event-Live :
    (e : RunEvent) (x : Execution) → ends_run e ≡ false → Live x → Live (emit_event e x)
unfolding emit_event emit_run_event
emit_event-Live e x quiet l = (
  emit_event-Open e x quiet l.0,
  by_test (λ (y : Execution). y.cancel_event ≡ false) x.cancel_event (λ _. l.1) (λ _. l.1),
)

emit_summaries-Live : (n : ℕ) (x : Execution) → Live x → Live (emit_summaries n x)
unfolding emit_summaries
emit_summaries-Live zero x l = l
emit_summaries-Live (suc n) x l =
    emit_summaries-Live n (emit_event reasoning_summary x)
      (emit_event-Live reasoning_summary x refl l)

report_completed-Through :
    (x : Execution) → Live x → x.status ≡ completed → Through (emit_event run_completed x)
unfolding emit_event emit_run_event keep
report_completed-Through x l s = rw l.1 record {
  outcome =
      reports run_completed (subst (Matches run_completed) (sym s) both_completed)
        (ground (arith, l.0.no_end)) l.0.unsuspended;
  managed_still = l.0.managed_yet;
  uncommitted = l.0.no_commit;
}

fetch-Phase :
    {b : Bool} {A : Type 0} (code : String) (a : Await A) (x : Execution) (k : A → Execution → Flow)
    → Open x
    → ((v : A) (y : Execution) → Open y → y.cancel_event ≡ false → Phase b (k v y))
    → Phase b (fetch code a x k)
unfolding fetch
fetch-Phase code (answers m v) x k o next =
    unless_cancelled-Phase (notice_meanwhile m x) (k v) (notice_meanwhile-Open m x o)
      (next v (notice_meanwhile m x) (notice_meanwhile-Open m x o))
fetch-Phase code (throws m e) x k o next =
    unless_cancelled-Phase (notice_meanwhile m x) (fail code) (notice_meanwhile-Open m x o)
      (fail-Phase code (notice_meanwhile m x) (notice_meanwhile-Open m x o))
fetch-Phase code (interrupted m) x k o next = cut (notice_meanwhile-Open m x o)

built-Phase : (ok : Bool) (x : Execution) → Open x → Phase true (built ok x)
unfolding built
built-Phase ok x o = by_test (Phase true) ok (λ _. going o) (λ _. erred o)

module _ (w : World) where
  complete_run-Through : (x : Execution) → Live x → Through (complete_run w x)
  unfolding complete_run
  complete_run-Through x l =
      let y = emit_summaries w.last_summaries x in
      let z = record y { tool_calls = max y.tool_calls y.observed_tool_calls } in
      let text = w.fallback_text z.tool_results in
      let open_z = emit_summaries-Live w.last_summaries x l in
      let filled =
        if w.is_blank z.full_text
        then emit_event (assistant_token_delta text) (record z { full_text = text })
        else z in
      let open_filled =
        by_test Live (w.is_blank z.full_text)
          (λ _.
            emit_event-Live (assistant_token_delta text) (record z { full_text = text }) refl
              open_z)
          (λ _. open_z) in
      report_completed-Through
        (record (emit_event (assistant_message_completed filled.tool_calls) filled) {
          status = completed;
        })
        (emit_event-Live (assistant_message_completed filled.tool_calls) filled refl open_filled)
        refl

  conclude_run-Phase : (x : Execution) → Open x → Phase false (conclude_run w x)
  unfolding conclude_run
  conclude_run-Phase x o =
      by_test (λ y. Phase false (returns y)) x.cancel_event
        (λ _. over (finish_cancelled_run-Through x o)) (λ c. over (complete_run-Through x (o, c)))

  announce_inference-Open :
      (c : Option Continuation) (x : Execution) → Open x → Open (announce_inference c x)
  unfolding announce_inference
  announce_inference-Open c x o =
      let o' = emit_event-Open (run_progress "inference") x refl o in
      by_test Open (is_some c) (λ _. o') (λ _. emit_event-Open assistant_message_started _ refl o')

  announce_catalog-Open :
      (c : Option Continuation) (x : Execution) → Open x → Open (announce_catalog w c x)
  unfolding announce_catalog
  announce_catalog-Open c x o =
      by_test Open (w.has_catalog && not (is_some c))
        (λ _. emit_event-Open skill_catalog_available x refl o) (λ _. o)

  run_engine-Phase :
      (c : Option Continuation) (x : Execution) → Open x → Phase false (run_engine w c x)
  unfolding run_engine
  run_engine-Phase c x o =
      and_then-Phase (built w.engine_built (announce_catalog w c x)) _
        (built-Phase w.engine_built _ (announce_catalog-Open c x o))
        (λ y p. unless_cancelled-Phase y _ p (λ _.
          and_then-Phase (catch_timeout (stream w.chunks w.ended (announce_inference c y))) _
            (catch_timeout-Phase _ (
              stream-Phase w.chunks w.ended (announce_inference c y)
                (announce_inference-Open c y p)))
            conclude_run-Phase))

  fetch_context-Phase : (x : Execution) → Open x → Phase true (fetch_context w x)
  unfolding fetch_context
  fetch_context-Phase x o =
      fetch-Phase "CONTEXT_FETCH_FAILED" w.context (emit_event (run_progress "context_fetch") x) _
        (emit_event-Open (run_progress "context_fetch") x refl o)
        (λ insights y p _. going (
          emit_event-Open (run_progress "context_ready") _ refl (
            by_test Open (w.is_target && insights)
              (λ _. emit_event-Open target_insights_context_retrieved y refl p) (λ _. p))))

  prepare-Phase : (c : Option Continuation) (x : Execution) → Open x → Phase true (prepare w c x)
  unfolding prepare
  prepare-Phase none x o = fetch_context-Phase x o
  prepare-Phase (some c) x o = going (emit_event-Open (run_progress "approval_resume") x refl o)

  resume_if-Phase : (c : Option Continuation) (x : Execution) → Open x → Phase true (resume_if c x)
  unfolding resume_if
  resume_if-Phase none x o = going o
  resume_if-Phase (some c) x o = resume-Phase c x o

  run_with-Phase : (c : Option Continuation) (x : Execution) → Open x → Phase false (run_with w c x)
  unfolding run_with
  run_with-Phase c x o = unless_cancelled-Phase x _ o (λ _.
      and_then-Phase (prepare w c x) _ (prepare-Phase c x o) (λ z p.
        and_then-Phase (built w.clients_built (emit_event run_started z)) _
          (built-Phase w.clients_built _ (emit_event-Open run_started z refl p))
          (λ u q. and_then-Phase (resume_if c u) _ (resume_if-Phase c u q) (run_engine-Phase c))))

  run_active-Phase : (x : Execution) → Open x → Phase false (run_active w x)
  unfolding run_active persist_status
  run_active-Phase x o =
      fetch-Phase "BOOTSTRAP_FAILED" w.bootstrap _ _
        (emit_event-Open (run_progress "bootstrap") _ refl o)
        (λ matches z p c.
          by_test (Phase false) matches
            (λ _. await-Phase w.continuation z (run_with w) p run_with-Phase)
            (λ _. fail-Phase "BOOTSTRAP_SCOPE_MISMATCH" z p c))

  pub execution_body-Fate : (x : Execution) → Fresh x → Fate (execution_body w x)
  unfolding execution_body await
  execution_body-Fate x o = of w.manager
    where
      fresh_open : (m : Meanwhile) → Open (record (notice_meanwhile m x) { managed = true })
      fresh_open m =
          let kept = notice_meanwhile-Fresh m x o in
          record {
            managed_yet = refl;
            unreported = kept.unreported;
            unsuspended = kept.unsuspended;
            no_end = kept.no_end;
            no_commit = kept.no_commit;
          }

      of :
          (a : Await Unit)
          → Fate (await a x (λ _ y. unless_cancelled (record y { managed = true }) (run_active w)))
      of (answers m v) = in_phase (
          unless_cancelled-Phase (record (notice_meanwhile m x) { managed = true }) (run_active w)
            (fresh_open m)
            (λ _.
              run_active-Phase (record (notice_meanwhile m x) { managed = true }) (fresh_open m)))
      of (throws m e) = early_error (notice_meanwhile-Fresh m x o)
      of (interrupted m) = early_cut (notice_meanwhile-Fresh m x o)
