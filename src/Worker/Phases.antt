-- ===== src/Worker/Phases.antt =====
-- What every step of an execution keeps: a run that is not through has reported no end.
use execution_engine.Common.{
  by_test, ℕ, zero, suc, String, Bool, true, false, List, [], ◌∷◌, ◌≡◌, refl, arith, keep, inl, inr,
  Bool-cases, ◌||◌,
}
use execution_engine.Registry.Identity.{
  RunStatus, waiting_for_approval, waiting_for_dependencies, completed, failed, cancelled,
  is_terminal,
}
use execution_engine.Worker.State.{
  RunEvent, run_cancelled, run_failed, run_completed, ends_run, Commit, Execution, Meanwhile,
  Happening, cancel_requested, cancel_polled, lost_lock, happen, cancel_run, poll_cancel,
  is_still_queued, Error, Await, answers, throws, interrupted, Flow, continues, returns, raises,
  stops, and_then, notice_meanwhile, await, emit_run_event, emit_event, persist_status,
  finish_cancelled_run, unless_cancelled, fail, reasoning_summary,
}
use execution_engine.Worker.Resume.{unknown_outcome_text}
use execution_engine.Worker.Stream.{emit_summaries}

-- the events of the execution that end the run
abbrev pub ends_of : Execution → List RunEvent
ends_of x = keep ends_run x.emitted

pub record OpenWith (managed reported suspended : Bool) (ends : List RunEvent)
    (commits : List Commit) : Type 0 where
  pub managed_yet : managed ≡ true
  pub unreported : reported ≡ false
  pub unsuspended : suspended ≡ false
  pub no_end : ends ≡ []
  pub no_commit : commits ≡ []

-- no end is reported, and nothing is committed
abbrev pub Open : Execution → Type 0
Open x = OpenWith x.managed x.cancel_event_emitted x.suspended (ends_of x) x.commits

-- the event that ends a run goes with the status
pub data Matches : RunEvent → RunStatus → Type 0 where
  both_cancelled : Matches run_cancelled cancelled
  both_failed : (code : String) → Matches (run_failed code) failed
  both_completed : Matches run_completed completed

-- the statuses of a run that is parked
pub data IsWaiting : RunStatus → Type 0 where
  for_approval : IsWaiting waiting_for_approval
  for_dependencies : IsWaiting waiting_for_dependencies

-- how a run that is through has ended: it has reported one end, which is its status; it is parked; or
-- it was cancelled while a write was of unknown outcome, and has failed without a report
pub data RunOutcome (x : Execution) : Type 0 where
  reports :
      (e : RunEvent) → Matches e x.status → ends_of x ≡ e ∷ [] → x.suspended ≡ false → RunOutcome x
  parks : ends_of x ≡ [] → x.suspended ≡ true → IsWaiting x.status → RunOutcome x
  silent :
      ends_of x ≡ []
      → x.status ≡ failed
      → x.suspended ≡ false
      → x.cancel_event ≡ true
      → x.full_text ≡ unknown_outcome_text
      → RunOutcome x

pub record Through (x : Execution) : Type 0 where
  pub outcome : RunOutcome x
  pub managed_still : x.managed ≡ true
  pub uncommitted : x.commits ≡ []

-- `true` for a part after which the body goes on
pub data Phase : Bool → Flow → Type 0 where
  going : {x : Execution} → Open x → Phase true (continues x)
  over : {b : Bool} {x : Execution} → Through x → Phase b (returns x)
  erred : {b : Bool} {e : Error} {x : Execution} → Open x → Phase b (raises e x)
  cut : {b : Bool} {x : Execution} → Open x → Phase b (stops x)

pub and_then-Phase :
    {b : Bool} (f : Flow) (k : Execution → Flow)
    → Phase true f
    → ((x : Execution) → Open x → Phase b (k x))
    → Phase b (and_then f k)
and_then-Phase f k (going o) next = next _ o
and_then-Phase f k (over t) next = over t
and_then-Phase f k (erred o) next = erred o
and_then-Phase f k (cut o) next = cut o

-- what each happening keeps, all of them keep
pub notice_meanwhile-keeps :
    (P : Execution → Type 0)
    → ((h : Happening) (y : Execution) → P y → P (happen h y))
    → (m : Meanwhile) (x : Execution) → P x
    → P (notice_meanwhile m x)
unfolding notice_meanwhile
notice_meanwhile-keeps P each [] x p = p
notice_meanwhile-keeps P each (h ∷ m) x p =
    notice_meanwhile-keeps P each m (happen h x) (each h x p)

-- a happening reports and commits nothing
happen-Open : (h : Happening) (x : Execution) → Open x → Open (happen h x)
unfolding happen cancel_run poll_cancel persist_status
happen-Open cancel_requested x o =
    by_test Open (is_still_queued x.status) (λ _. o)
      (λ _. by_test Open (is_terminal x.status) (λ _. o) (λ _. o))
happen-Open cancel_polled x o =
    by_test Open (x.execution_lock_lost || is_terminal x.status) (λ _. o) (λ _. o)
happen-Open lost_lock x o = o

pub notice_meanwhile-Open : (m : Meanwhile) (x : Execution) → Open x → Open (notice_meanwhile m x)
notice_meanwhile-Open = notice_meanwhile-keeps Open happen-Open

pub await-Phase :
    {b : Bool} {A : Type 0} (a : Await A) (x : Execution) (k : A → Execution → Flow)
    → Open x
    → ((v : A) (y : Execution) → Open y → Phase b (k v y))
    → Phase b (await a x k)
unfolding await
await-Phase (answers m v) x k o next = next v (notice_meanwhile m x) (notice_meanwhile-Open m x o)
await-Phase (throws m e) x k o next = erred (notice_meanwhile-Open m x o)
await-Phase (interrupted m) x k o next = cut (notice_meanwhile-Open m x o)

pub emit_event-Open :
    (e : RunEvent) (x : Execution) → ends_run e ≡ false → Open x → Open (emit_event e x)
unfolding emit_event emit_run_event keep
emit_event-Open e x quiet o = elim (Bool-cases x.cancel_event) [
  | inl c ↦ rw c o
  | inr c ↦ rw (c, quiet) o
]

pub emit_summaries-Open : (n : ℕ) (x : Execution) → Open x → Open (emit_summaries n x)
unfolding emit_summaries
emit_summaries-Open zero x o = o
emit_summaries-Open (suc n) x o =
    emit_summaries-Open n (emit_event reasoning_summary x)
      (emit_event-Open reasoning_summary x refl o)

pub finish_cancelled_run-Through : (x : Execution) → Open x → Through (finish_cancelled_run x)
unfolding finish_cancelled_run persist_status emit_run_event keep
finish_cancelled_run-Through x o = rw o.unreported record {
  outcome = reports run_cancelled both_cancelled (ground (arith, o.no_end)) o.unsuspended;
  managed_still = o.managed_yet;
  uncommitted = o.no_commit;
}

-- the test on cancellation lets the rest know that the run is not cancelled
pub unless_cancelled-Phase :
    {b : Bool} (x : Execution) (k : Execution → Flow)
    → Open x
    → (x.cancel_event ≡ false → Phase b (k x))
    → Phase b (unless_cancelled x k)
unfolding unless_cancelled
unless_cancelled-Phase x k o next =
    by_test (Phase _) x.cancel_event (λ c. over (finish_cancelled_run-Through x o)) next

pub fail-Phase :
    {b : Bool} (code : String) (x : Execution)
    → Open x
    → x.cancel_event ≡ false
    → Phase b (fail code x)
unfolding fail emit_event emit_run_event persist_status keep
fail-Phase code x o c = rw c (
    over (record {
      outcome =
          reports (run_failed code) (both_failed code) (ground (arith, o.no_end)) o.unsuspended;
      managed_still = o.managed_yet;
      uncommitted = o.no_commit;
    }))
