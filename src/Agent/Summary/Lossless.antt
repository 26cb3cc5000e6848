-- ===== src/Agent/Summary/Lossless.antt =====
-- The text that the forwarder of execution_engine/reasoning_summary_events.py takes in and lets out.
use Prim.Native.String.{◌++◌ as str_append}
use text.Mathlib.TextLemmas.{nil-append, append-nil, append_assoc}
use execution_engine.Common.{
  ℕ, ◌≡◌, String, str_eq, eq_iff, Bool, true, false, Option, List, [], ◌∷◌, ◌++◌, refl, sym, ap,
  ◌∙◌, arith, Bool-cases, inl, inr, if◌then◌else◌,
}
use execution_engine.Agent.Summary.Forwarding.{
  SummaryEvent, summary_delta, summary_completed, summary_unavailable, Forwarder, new_forwarder,
  emit, event_provider, holds_back, flush, add_delta, complete, unavailable,
}

-- a call of the forwarder during a run
pub data SummaryCall : Type 0 where
  adds : String → ℕ → SummaryCall
  completes : String → Option String → ℕ → SummaryCall
  fails : String → Option String → ℕ → SummaryCall
  flushes : Bool → ℕ → SummaryCall

-- the text of the deltas that were forwarded
unfoldable pub forwarded : List SummaryEvent → String
forwarded [] = ""
forwarded (summary_delta text p m ∷ es) = str_append text (forwarded es)
forwarded (summary_completed text p m ∷ es) = forwarded es
forwarded (summary_unavailable text p m ∷ es) = forwarded es

-- the text of the deltas that were received
unfoldable pub received : List SummaryCall → String
received [] = ""
received (adds text now ∷ cs) = str_append text (received cs)
received (completes text p now ∷ cs) = received cs
received (fails reason p now ∷ cs) = received cs
received (flushes force now ∷ cs) = received cs

-- what was forwarded, and what waits in the buffer
unfoldable pub taken_in : Forwarder → String
unfolding forwarded
taken_in f = str_append (forwarded f.emitted) f.delta_buffer

forwarded-append :
    (es ds : List SummaryEvent) → forwarded (es ++ ds) ≡ str_append (forwarded es) (forwarded ds)
unfolding forwarded
forwarded-append [] ds = sym (nil-append (forwarded ds))
forwarded-append (summary_delta t p m ∷ es) ds =
    ap (str_append t) (forwarded-append es ds) ∙ sym (append_assoc t (forwarded es) (forwarded ds))
forwarded-append (summary_completed t p m ∷ es) ds = forwarded-append es ds
forwarded-append (summary_unavailable t p m ∷ es) ds = forwarded-append es ds

module _ (ends_sentence : String → Bool) where
  unfoldable pub run : List SummaryCall → Forwarder → Forwarder
  run [] f = f
  run (adds text now ∷ cs) f = run cs (add_delta ends_sentence text now f)
  run (completes text p now ∷ cs) f = run cs (complete ends_sentence text p now f)
  run (fails reason p now ∷ cs) f = run cs (unavailable ends_sentence reason p now f)
  run (flushes force now ∷ cs) f = run cs (flush ends_sentence force now f)

  taken_in-flush :
      (force : Bool) (now : ℕ) (f : Forwarder)
      → taken_in (flush ends_sentence force now f) ≡ taken_in f
  unfolding taken_in flush emit forwarded
  taken_in-flush force now f = elim (Bool-cases (holds_back ends_sentence force now f)) [
    | inl held ↦ simp held
    | inr ready ↦ simp (ready, forwarded-append, append-nil)
  ]

  taken_in-emit :
      (e : SummaryEvent) (f : Forwarder)
      → forwarded (e ∷ []) ≡ ""
      → taken_in (emit e f) ≡ taken_in f
  unfolding taken_in emit
  taken_in-emit e f silent = simp (forwarded-append, silent, append-nil)

  taken_in-add_delta :
      (text : String) (now : ℕ) (f : Forwarder)
      → taken_in (add_delta ends_sentence text now f) ≡ str_append (taken_in f) text
  unfolding add_delta taken_in
  taken_in-add_delta text now f = elim (Bool-cases (str_eq text "")) [
    | inl empty ↦ simp ((eq_iff text "").0 empty, append-nil)
    | inr other ↦
        let longer = record f { delta_buffer = str_append f.delta_buffer text } in
        let same : taken_in (add_delta ends_sentence text now f) ≡ taken_in longer =
          ap (λ b. taken_in (if b then f else flush ends_sentence false now longer)) other
          ∙ taken_in-flush false now longer in
        same ∙ sym (append_assoc (forwarded f.emitted) f.delta_buffer text)
  ]

  taken_in-complete :
      (text : String) (p : Option String) (now : ℕ) (f : Forwarder)
      → taken_in (complete ends_sentence text p now f) ≡ taken_in f
  unfolding complete forwarded
  taken_in-complete text p now f =
      let f' = flush ends_sentence true now f in
      let e = summary_completed text (event_provider p f) f.model in
      elim (Bool-cases (str_eq text "")) [
        | inl empty ↦ rw (empty, taken_in-flush true now f)
        | inr other ↦ rw (other, taken_in-emit e f' refl, taken_in-flush true now f)
      ]

  taken_in-unavailable :
      (reason : String) (p : Option String) (now : ℕ) (f : Forwarder)
      → taken_in (unavailable ends_sentence reason p now f) ≡ taken_in f
  unfolding unavailable forwarded
  taken_in-unavailable reason p now f =
      let e = summary_unavailable reason (event_provider p f) f.model in
      taken_in-emit e (flush ends_sentence true now f) refl ∙ taken_in-flush true now f

  taken_in-run :
      (cs : List SummaryCall) (f : Forwarder)
      → taken_in (run cs f) ≡ str_append (taken_in f) (received cs)
  unfolding run received
  taken_in-run [] f = sym (append-nil (taken_in f))
  taken_in-run (adds text now ∷ cs) f =
      taken_in-run cs (add_delta ends_sentence text now f)
      ∙ ap (λ t. str_append t (received cs)) (taken_in-add_delta text now f)
      ∙ append_assoc (taken_in f) text (received cs)
  taken_in-run (completes text p now ∷ cs) f =
      taken_in-run cs (complete ends_sentence text p now f)
      ∙ ap (λ t. str_append t (received cs)) (taken_in-complete text p now f)
  taken_in-run (fails reason p now ∷ cs) f =
      taken_in-run cs (unavailable ends_sentence reason p now f)
      ∙ ap (λ t. str_append t (received cs)) (taken_in-unavailable reason p now f)
  taken_in-run (flushes force now ∷ cs) f =
      taken_in-run cs (flush ends_sentence force now f)
      ∙ ap (λ t. str_append t (received cs)) (taken_in-flush force now f)

  emptied : (now : ℕ) (f : Forwarder) → (flush ends_sentence true now f).delta_buffer ≡ ""
  unfolding flush holds_back
  emptied now f = ground (arith, eq_iff f.delta_buffer "")

  complete-empties :
      (text : String) (p : Option String) (now : ℕ) (f : Forwarder)
      → (complete ends_sentence text p now f).delta_buffer ≡ ""
  unfolding complete emit
  complete-empties text p now f = ground (arith, emptied now f)

  -- Whatever the calls of a run were, the flushes of the worker among them, and whenever they came,
  -- after a completion all text that was received has been forwarded, in order and once, and nothing waits in the buffer.
  pub complete-forwards :
      (provider model : String) (min_interval : ℕ) (cs : List SummaryCall) (text : String)
      (p : Option String) (now : ℕ)
      → (forwarded
            (complete ends_sentence text p now
              (run cs (new_forwarder provider model min_interval))).emitted
          ≡ received cs)
        × ((complete ends_sentence text p now
              (run cs (new_forwarder provider model min_interval))).delta_buffer
            ≡ "")
  unfolding taken_in new_forwarder forwarded
  complete-forwards provider model min_interval cs text p now =
      let f = run cs (new_forwarder provider model min_interval) in
      let f' = complete ends_sentence text p now f in
      let empty = complete-empties text p now f in
      (
        sym (append-nil (forwarded f'.emitted))
            ∙ ap (str_append (forwarded f'.emitted)) (sym empty)
            ∙ taken_in-complete text p now f
            ∙ taken_in-run cs (new_forwarder provider model min_interval)
            ∙ nil-append (received cs),
        empty,
      )
