-- ===== src/Agent/Retry/OneShot.antt =====
-- The correction policy of execution_engine/agent/tool_argument_retry.py over several responses.
use execution_engine.Common.{
  ℕ, suc, ◌+◌, ◌≡◌, String, str_eq, eq_iff, Bool, true, false, Option, none, some, List, [], ◌∷◌,
  refl, arith, ap, ◌∙◌, is_some, keep, any, Option-cases, inl, inr,
}
use execution_engine.Agent.Retry.Policy.{
  Spec, Chunk, RetryOutcome, attempted, recovered, RetryState, exhausted_event, or_text,
  provider_tool_name, is_active, only_match, matching_spec, exhausted_tool, handle_malformed,
  is_error, exhausted, record_outcome, TerminalEvent, is_single_call, validate_correction,
  request_tools,
}

abbrev one_if : Bool → ℕ
one_if true = 1
one_if false = 0

abbrev pub attempts : List RetryOutcome → ℕ
attempts [] = 0
attempts (attempted ∷ os) = suc (attempts os)
attempts (_ ∷ os) = attempts os

abbrev pub recoveries : List RetryOutcome → ℕ
recoveries [] = 0
recoveries (recovered ∷ os) = suc (recoveries os)
recoveries (_ ∷ os) = recoveries os

-- A tool is under correction exactly while its specification is, and every attempt but the one
-- under way has been recovered.
pub record IsConsistent (s : RetryState) : Type 0 where
  pub together : is_some s.tool ≡ is_some s.spec
  pub counted : attempts s.outcomes ≡ recoveries s.outcomes + one_if (is_some s.spec)

-- Handling malformed arguments keeps this: an attempt starts only when none is under way.
pub handle_malformed-IsConsistent :
    (s : RetryState) (error : Chunk) (retry_allowed : Bool)
    → IsConsistent s
    → IsConsistent (handle_malformed s error retry_allowed).0
unfolding handle_malformed
handle_malformed-IsConsistent s error retry_allowed c = ground arith

-- Checking a correction keeps it, whether the correction is accepted or not.
pub validate_correction-IsConsistent :
    (s : RetryState) (buffered : List Chunk) (calls : List (Option String)) (blank : Bool)
    → IsConsistent s
    → IsConsistent (validate_correction s buffered calls blank).0
unfolding validate_correction
validate_correction-IsConsistent s buffered calls blank c = ground arith

or_text_again : (t : Option String) (d : String) → or_text (some (or_text t "")) d ≡ or_text t d
unfolding or_text
or_text_again none d = refl
or_text_again (some s) d = ground (arith, eq_iff s "")

-- the tool under correction is the one that was named
granted_tool :
    (s : RetryState) (first : Chunk) (allowed : Bool)
    → (handle_malformed s first allowed).1 ≡ true
    → exhausted_tool (handle_malformed s first allowed).0 ≡ or_text first.tool "the requested tool"
unfolding handle_malformed exhausted_tool
granted_tool s first allowed h = ground (arith, h, or_text_again first.tool "the requested tool")

-- a run under correction gets no second try
no_second_try :
    (s : RetryState) (first second : Chunk) (allowed again : Bool)
    → (handle_malformed s first allowed).1 ≡ true
    → handle_malformed (handle_malformed s first allowed).0 second again ≡ (
      record_outcome exhausted (handle_malformed s first allowed).0,
      false,
      some (exhausted_event (exhausted_tool (handle_malformed s first allowed).0)),
    )
unfolding handle_malformed
no_second_try s first second allowed again h = ground arith

-- After a granted retry the next malformed response ends the run with the exhausted event of the
-- tool that the first one named, whatever it names itself and whether or not time is left: there is no
-- second retry.
pub retry_once :
    (s : RetryState) (first second : Chunk) (allowed again : Bool)
    → (handle_malformed s first allowed).1 ≡ true
    → ((handle_malformed (handle_malformed s first allowed).0 second again).1 ≡ false)
      × ((handle_malformed (handle_malformed s first allowed).0 second again).2
          ≡ some (exhausted_event (or_text first.tool "the requested tool")))
retry_once s first second allowed again h =
    let stop = no_second_try s first second allowed again h in
    (
      ap (λ (o : RetryState × Bool × Option TerminalEvent). o.1) stop,
      ap (λ (o : RetryState × Bool × Option TerminalEvent). o.2) stop
          ∙ ap (λ t. some (exhausted_event t)) (granted_tool s first allowed h),
    )

only_match-some : (l : List Spec) (x : Spec) → only_match l ≡ some x → l ≡ x ∷ []
unfolding only_match
only_match-some [] x h = cc
only_match-some (y ∷ []) x h = cc
only_match-some (y ∷ z ∷ l) x h = cc

-- A granted retry offers the model exactly one tool: the only advertised one that carries the
-- name of the malformed call.
pub retry_narrows :
    (s : RetryState) (error : Chunk) (allowed : Bool)
    → (handle_malformed s error allowed).1 ≡ true
    → (spec : Spec) × (request_tools (handle_malformed s error allowed).0 ≡ spec ∷ [])
      × (keep (λ x. str_eq (provider_tool_name x) (or_text error.tool "")) s.tool_specs ≡ spec ∷ [])
unfolding handle_malformed request_tools
retry_narrows s error allowed h =
    elim (Option-cases (matching_spec s.tool_specs (or_text error.tool ""))) [
      | inl none' ↦ absurd (ground (arith, h, none'))
      | inr (spec, one) ↦
          (spec, ground (arith, h, one), only_match-some _ spec (unfold matching_spec in one))
    ]

single_call :
    (calls : List (Option String)) (tool : Option String)
    → is_single_call calls tool ≡ true
    → (c : Option String) × (calls ≡ c ∷ []) × (tool ≡ some (or_text c ""))
unfolding is_single_call
single_call [] tool h = cc
single_call (c ∷ []) none h = cc
single_call (c ∷ []) (some t) h = (c, refl, ground (arith, eq_iff (or_text c "") t))
single_call (c ∷ d ∷ rest) tool h = cc

-- A correction is accepted only if the response was one call of the tool under correction, with
-- no text and no error chunk; the policy is then idle again.
pub correction_accepted :
    (s : RetryState) (buffered : List Chunk) (calls : List (Option String)) (blank : Bool)
    → (validate_correction s buffered calls blank).1 ≡ none
    → ((c : Option String) × (calls ≡ c ∷ []) × (s.tool ≡ some (or_text c "")))
      × (any is_error buffered ≡ false)
      × (blank ≡ true)
      × (is_active (validate_correction s buffered calls blank).0 ≡ false)
unfolding validate_correction is_active
correction_accepted s buffered calls blank h =
    let one : is_single_call calls s.tool ≡ true = ground (arith, h) in
    (single_call calls s.tool one, ground (arith, h), ground (arith, h), ground (arith, h))
