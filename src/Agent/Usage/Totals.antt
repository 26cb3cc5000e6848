-- ===== src/Agent/Usage/Totals.antt =====
-- The totals of execution_engine/agent/stream_usage.py.
use execution_engine.Common.{
  ℕ, ◌+◌, ◌≡◌, String, str_eq, eq_iff, true, Option, none, some, List, [], ◌∷◌, refl, arith,
  contains, IsDistinct, Option-cases, inl, inr, ◌∙◌, ap, if◌then◌else◌, get_or,
}
use execution_engine.Common.Dict.{lookup, lookup-insert}
use execution_engine.Agent.Usage.Accounting.{
  UsageValue, whole, negative, other, StreamEvent, Counts, usage_keys, count, add_value, add_values,
  merge_usage, ends_stream, collect, reported, terminal, finish,
}

-- what a usage dictionary says of a key
unfoldable pub value_of : Option UsageValue → ℕ
value_of (some (whole n)) = n
value_of _ = 0

-- what an event adds to a key
unfoldable pub added : String → StreamEvent → ℕ
unfolding value_of
added key e = elim e.usage [
  | none ↦ 0
  | some values ↦ if ends_stream e then value_of (lookup key values) else 0
]

unfoldable pub total : String → List StreamEvent → ℕ
unfolding added
total key [] = 0
total key (e ∷ events) = added key e + total key events

count-add_value :
    (key k : String) (v : Option UsageValue) (u : Counts)
    → count k (add_value key v u) ≡ count k u + (if str_eq key k then value_of v else 0)
unfolding count add_value value_of
count-add_value key k none u = ground arith
count-add_value key k (some other) u = ground arith
count-add_value key k (some (whole n)) u =
    ground (arith, lookup-insert key k (get_or (lookup key u) 0 + n) u, eq_iff key k)
count-add_value key k (some (negative n)) u =
    ground (arith, lookup-insert key k (get_or (lookup key u) 0 + 0) u, eq_iff key k)

count-add_values :
    (keys : List String) (k : String) (values : List (String × UsageValue)) (u : Counts)
    → IsDistinct keys
    → count k (add_values keys values u)
      ≡ count k u + (if contains keys k then value_of (lookup k values) else 0)
unfolding add_values contains
count-add_values [] k values u d = ground arith
count-add_values (key ∷ keys) k values u d =
    let v = lookup key values in
    ground (
      arith,
      count-add_values keys k values (add_value key v u) d.1,
      count-add_value key k v u,
      eq_iff key k,
      d.0,
    )

usage_keys-IsDistinct : IsDistinct usage_keys
unfolding contains
usage_keys-IsDistinct = (refl, (refl, (refl, (refl, tt))))

count-step :
    (k : String) (u : Counts) (e : StreamEvent)
    → contains usage_keys k ≡ true
    → count k (if ends_stream e then merge_usage u e.usage else u) ≡ count k u + added k e
unfolding merge_usage added
count-step k u e known = elim (Option-cases e.usage) [
  | inl bare ↦ ground (arith, bare)
  | inr (values, told) ↦
      ground (arith, told, known, count-add_values usage_keys k values u usage_keys-IsDistinct)
]

count-collect :
    (k : String) (u : Counts) (events : List StreamEvent)
    → contains usage_keys k ≡ true
    → count k (collect u events) ≡ count k u + total k events
unfolding collect total
count-collect k u [] known = omega arith
count-collect k u (e ∷ events) known =
    let u' = if ends_stream e then merge_usage u e.usage else u in
    omega (arith, count-collect k u' events known, count-step k u e known)

lookup-reported :
    (k : String) (u : Counts)
    → contains ("input_tokens" ∷ "output_tokens" ∷ "tool_calls" ∷ []) k ≡ true
    → lookup k (reported u) ≡ some (whole (count k u))
unfolding contains lookup reported
lookup-reported k u known =
    ground (arith, known, eq_iff "input_tokens" k, eq_iff "output_tokens" k, eq_iff "tool_calls" k)

base_key-known :
    (k : String)
    → contains ("input_tokens" ∷ "output_tokens" ∷ "tool_calls" ∷ []) k ≡ true
    → contains usage_keys k ≡ true
unfolding contains
base_key-known k known = ground (arith, known)

-- When a final or error event ends a stream of which some usage was counted, the event reports,
-- for input tokens, output tokens and tool calls, the count at the start plus what the final and
-- error events of the stream add, a negative value as 0; and the accumulator is empty again.
pub finish-total :
    (k : String) (start : Counts) (events : List StreamEvent) (last : StreamEvent) (x : String × ℕ)
    (rest : Counts)
    → contains ("input_tokens" ∷ "output_tokens" ∷ "tool_calls" ∷ []) k ≡ true
    → ends_stream last ≡ true
    → collect start events ≡ x ∷ rest
    → ((finish last (collect start events)).0 ≡ [])
      × ((finish last (collect start events)).1.usage ≡ some (reported (collect start events)))
      × (lookup k (reported (collect start events)) ≡ some (whole (count k start + total k events)))
unfolding finish terminal
finish-total k start events last x rest known ends some_usage = (
  ground (arith, ends, some_usage),
  ground (arith, ends, some_usage),
  lookup-reported k (collect start events) known
      ∙ ap (λ n. some (whole n)) (count-collect k start events (base_key-known k known)),
)
