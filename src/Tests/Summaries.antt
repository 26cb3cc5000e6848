-- ===== src/Tests/Summaries.antt =====
-- The forwarding of reasoning summaries, at a small input.
use execution_engine.Common.{◌≡◌, String, str_eq, Bool, none, true, List, [], ◌∷◌, refl}
use execution_engine.Agent.Summary.Forwarding.{summary_delta, new_forwarder, add_delta, complete}
use execution_engine.Agent.Summary.Lossless.{
  SummaryCall, adds, flushes, forwarded, received, run, complete-forwards,
}

abbrev is_stop : String → Bool
is_stop text = str_eq text "Done."

abbrev calls : List SummaryCall
calls = adds "Do" 100 ∷ adds "ne." 150 ∷ adds "More" 160 ∷ []

-- the worker flushes before the answer goes on
abbrev flushed_calls : List SummaryCall
flushed_calls = adds "Do" 100 ∷ flushes true 120 ∷ adds "More" 160 ∷ []

full_stop_flushes :
    (run is_stop calls (new_forwarder "openai" "m" 400)).emitted
    ≡ summary_delta "Done." "openai" "m" ∷ []
unfolding run add_delta new_forwarder
full_stop_flushes = refl

complete-forwards_example :
    (forwarded
        (complete is_stop "all" none 170
          (run is_stop flushed_calls (new_forwarder "openai" "m" 400))).emitted
      ≡ received flushed_calls)
    × ((complete is_stop "all" none 170
          (run is_stop flushed_calls (new_forwarder "openai" "m" 400))).delta_buffer
        ≡ "")
complete-forwards_example = complete-forwards is_stop "openai" "m" 400 flushed_calls "all" none 170
