-- ===== src/Agent/Usage/Accounting.antt =====
-- `ProviderUsageAccumulator` of execution_engine/agent/stream_usage.py. The accumulator is its
-- dictionary `_usage`.
use execution_engine.Common.{
  ℕ, ◌+◌, String, str_eq, Bool, ◌||◌, Option, none, some, List, [], ◌∷◌, is_some, get_or,
  if◌then◌else◌,
}
use execution_engine.Common.Dict.{lookup, insert}

-- a value of a usage dictionary: an `int` that is no `bool`, or anything else
pub data UsageValue : Type 0 where
  whole negative : ℕ → UsageValue
  other : UsageValue

-- an event of the stream; `usage` is there if it is a dictionary
pub record StreamEvent : Type 0 where
  pub type : String
  pub usage : Option (List (String × UsageValue))

abbrev pub Counts : Type 0
Counts = List (String × ℕ)

abbrev pub usage_keys : List String
usage_keys = "input_tokens" ∷ "output_tokens" ∷ "tool_calls" ∷ "reasoning_tokens" ∷ []

-- `merged.get(key, 0)`
unfoldable pub count : String → Counts → ℕ
count key u = get_or (lookup key u) 0

-- one key of `_merge_usage`; `max(value, 0)` of a negative value is 0
unfoldable pub add_value : String → Option UsageValue → Counts → Counts
unfolding count
add_value key none u = u
add_value key (some other) u = u
add_value key (some (whole n)) u = insert key (count key u + n) u
add_value key (some (negative n)) u = insert key (count key u + 0) u

unfoldable pub add_values : List String → List (String × UsageValue) → Counts → Counts
unfolding add_value
add_values [] values u = u
add_values (key ∷ keys) values u = add_values keys values (add_value key (lookup key values) u)

unfoldable pub merge_usage : Counts → Option (List (String × UsageValue)) → Counts
unfolding add_values
merge_usage u none = u
merge_usage u (some values) = add_values usage_keys values u

-- `event.get("type") in {"final", "error"}`
unfoldable pub ends_stream : StreamEvent → Bool
ends_stream e = str_eq e.type "final" || str_eq e.type "error"

unfoldable pub collect : Counts → List StreamEvent → Counts
unfolding merge_usage ends_stream
collect u [] = u
collect u (e ∷ events) = collect (if ends_stream e then merge_usage u e.usage else u) events

-- the `reasoning_tokens` entry is reported only if it was ever counted
unfoldable pub reasoning_entry : Counts → List (String × UsageValue)
unfolding count
reasoning_entry u =
    if is_some (lookup "reasoning_tokens" u)
    then ("reasoning_tokens", whole (count "reasoning_tokens" u)) ∷ []
    else []

unfoldable pub reported : Counts → List (String × UsageValue)
unfolding count reasoning_entry
reported u =
    ("input_tokens", whole (count "input_tokens" u))
    ∷ ("output_tokens", whole (count "output_tokens" u))
    ∷ ("tool_calls", whole (count "tool_calls" u))
    ∷ reasoning_entry u

unfoldable pub terminal : StreamEvent → Counts → Counts × StreamEvent
unfolding reported
terminal e [] = ([], e)
terminal e (x ∷ u) = ([], record e { usage = some (reported (x ∷ u)) })

unfoldable pub finish : StreamEvent → Counts → Counts × StreamEvent
unfolding terminal ends_stream
finish e u = if ends_stream e then terminal e u else (u, e)

unfoldable pub observe : StreamEvent → Counts → Counts × StreamEvent
unfolding collect finish
observe e u = finish e (collect u (e ∷ []))

-- `ProviderUsageAccumulator(initial_usage)`
unfoldable pub new_accumulator : Option (List (String × UsageValue)) → Counts
unfolding merge_usage
new_accumulator initial = merge_usage [] initial
