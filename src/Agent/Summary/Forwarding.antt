-- ===== src/Agent/Summary/Forwarding.antt =====
-- `ReasoningSummaryEventForwarder` of execution_engine/reasoning_summary_events.py. What
-- `emit_event` gets is kept in `emitted`; `now` is `time.monotonic()`.
use Prim.Native.String.{◌++◌ as str_append}
use execution_engine.Common.{
  ℕ, ◌+◌, String, str_eq, Bool, true, false, not, ◌&&◌, ◌||◌, Option, none, some, List, [], ◌∷◌,
  ◌++◌, ltb, if◌then◌else◌,
}

-- the events, each with its text or reason, the provider and the model
pub data SummaryEvent : Type 0 where
  summary_delta summary_completed summary_unavailable : String → String → String → SummaryEvent

pub record Forwarder : Type 0 where
  pub provider : String
  pub model : String
  pub min_interval : ℕ
  pub delta_buffer : String
  pub last_emit : ℕ
  pub emitted : List SummaryEvent

unfoldable pub new_forwarder : String → String → ℕ → Forwarder
new_forwarder provider model min_interval = record {
  provider = provider;
  model = model;
  min_interval = min_interval;
  delta_buffer = "";
  last_emit = 0;
  emitted = [];
}

unfoldable pub emit : SummaryEvent → Forwarder → Forwarder
emit e f = record f { emitted = f.emitted ++ e ∷ [] }

-- `provider or self.provider`
unfoldable pub event_provider : Option String → Forwarder → String
event_provider none f = f.provider
event_provider (some p) f = if str_eq p "" then f.provider else p

-- `text.rstrip().endswith((".", "!", "?", "\n"))`, of the library, is a parameter
module _ (ends_sentence : String → Bool) where
  -- the two early returns of `flush`
  unfoldable pub holds_back : Bool → ℕ → Forwarder → Bool
  holds_back force now f =
      str_eq f.delta_buffer ""
      || (not force && ltb now (f.last_emit + f.min_interval) && not (ends_sentence f.delta_buffer))

  unfoldable pub flush : Bool → ℕ → Forwarder → Forwarder
  unfolding holds_back emit
  flush force now f =
      let f' = emit (summary_delta f.delta_buffer f.provider f.model) f in
      if holds_back force now f then f else record f' { delta_buffer = ""; last_emit = now }

  unfoldable pub add_delta : String → ℕ → Forwarder → Forwarder
  unfolding flush
  add_delta text now f =
      if str_eq text ""
      then f
      else flush false now (record f { delta_buffer = str_append f.delta_buffer text })

  unfoldable pub complete : String → Option String → ℕ → Forwarder → Forwarder
  unfolding flush emit event_provider
  complete text provider now f =
      let f' = flush true now f in
      if str_eq text ""
      then f'
      else emit (summary_completed text (event_provider provider f) f.model) f'

  unfoldable pub unavailable : String → Option String → ℕ → Forwarder → Forwarder
  unfolding flush emit event_provider
  unavailable reason provider now f =
      emit (summary_unavailable reason (event_provider provider f) f.model) (flush true now f)
