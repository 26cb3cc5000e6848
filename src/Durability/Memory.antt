-- ===== src/Durability/Memory.antt =====
-- A Redis in memory, at one instant: it keeps every law of `Redis`, so theorems over any Redis
-- apply to it.
use execution_engine.Common.{
  ℕ, String, Bool, true, false, Option, none, some, List, [], ◌∷◌, ◌≡◌, ◌≢◌, refl, arith, ap,
  eq_iff, str_eq, contains-discard, add, discard, leb, if◌then◌else◌, inl, inr, Bool-cases,
}
use execution_engine.Durability.Records.{
  Value, Field, name, num, Key, run_states_key, pending_runs_key, event_last_seq_key,
  terminal_commits_key, terminal_pending_key, event_hash_key, event_pending_key, run_lock_key,
  authority_key, resume_key,
}
use execution_engine.Durability.Redis.{
  Redis, SameAt, Frame, StringLaws, HashLaws, SetLaws, field_eq, has_field, Laws,
}

abbrev pub key_same : Key → Key → Bool
key_same run_states_key run_states_key = true
key_same pending_runs_key pending_runs_key = true
key_same event_last_seq_key event_last_seq_key = true
key_same terminal_commits_key terminal_commits_key = true
key_same terminal_pending_key terminal_pending_key = true
key_same (event_hash_key a) (event_hash_key b) = str_eq a b
key_same (event_pending_key a) (event_pending_key b) = str_eq a b
key_same (run_lock_key a) (run_lock_key b) = str_eq a b
key_same (authority_key a) (authority_key b) = str_eq a b
key_same (resume_key a) (resume_key b) = str_eq a b
key_same _ _ = false

field_eq_iff : (f g : Field) → field_eq f g ≡ true → f ≡ g
field_eq_iff (name a) (name b) h = ground (arith, eq_iff a b)
field_eq_iff (name a) (num b) h = ground arith
field_eq_iff (num a) (name b) h = ground arith
field_eq_iff (num a) (num b) h = ground arith

field_eq_self : (f : Field) → field_eq f f ≡ true
field_eq_self (name a) = ground (arith, eq_iff a a)
field_eq_self (num a) = ground arith

key_same→eq : (k j : Key) → key_same k j ≡ true → k ≡ j
key_same→eq run_states_key run_states_key h = refl
key_same→eq pending_runs_key pending_runs_key h = refl
key_same→eq event_last_seq_key event_last_seq_key h = refl
key_same→eq terminal_commits_key terminal_commits_key h = refl
key_same→eq terminal_pending_key terminal_pending_key h = refl
key_same→eq (event_hash_key a) (event_hash_key b) h = ground (arith, eq_iff a b)
key_same→eq (event_pending_key a) (event_pending_key b) h = ground (arith, eq_iff a b)
key_same→eq (run_lock_key a) (run_lock_key b) h = ground (arith, eq_iff a b)
key_same→eq (authority_key a) (authority_key b) h = ground (arith, eq_iff a b)
key_same→eq (resume_key a) (resume_key b) h = ground (arith, eq_iff a b)
key_same→eq _ _ h = ground arith

key_same_ne : (k j : Key) → k ≢ j → key_same k j ≡ false
key_same_ne k j h = elim (Bool-cases (key_same k j)) [
  | inl e ↦ absurd (h (key_same→eq k j e))
  | inr e ↦ e
]

key_same_self : (k : Key) → key_same k k ≡ true
key_same_self (event_hash_key a) = ground (arith, eq_iff a a)
key_same_self (event_pending_key a) = ground (arith, eq_iff a a)
key_same_self (run_lock_key a) = ground (arith, eq_iff a a)
key_same_self (authority_key a) = ground (arith, eq_iff a a)
key_same_self (resume_key a) = ground (arith, eq_iff a a)
key_same_self _ = refl

-- one map for each kind of value
pub record Memory : Type 0 where
  pub strings : Key → Option Value
  pub hashes : Key → List (Field × Value)
  pub sets : Key → List String
  pub sorted : Key → List (Field × ℕ)

-- `f` with the value at `k` replaced
abbrev pub at {ℓ} : {A : Type ℓ} → (Key → A) → Key → A → Key → A
at f k a j = if key_same k j then a else f j

abbrev pub find : Field → List (Field × Value) → Option Value
find f [] = none
find f ((g, v) ∷ d) = if field_eq g f then some v else find f d

abbrev pub put : Field → Value → List (Field × Value) → List (Field × Value)
put f v [] = (f, v) ∷ []
put f v ((g, w) ∷ d) = if field_eq g f then (g, v) ∷ d else (g, w) ∷ put f v d

abbrev pub without : Field → List (Field × Value) → List (Field × Value)
without f [] = []
without f ((g, w) ∷ d) = let rest = without f d in if field_eq g f then rest else (g, w) ∷ rest

abbrev pub drop_member : Field → List (Field × ℕ) → List (Field × ℕ)
drop_member f [] = []
drop_member f ((g, n) ∷ d) =
    let rest = drop_member f d in if field_eq g f then rest else (g, n) ∷ rest

abbrev pub insert_member : Field → ℕ → List (Field × ℕ) → List (Field × ℕ)
insert_member f n [] = (f, n) ∷ []
insert_member f n ((g, m) ∷ d) =
    if leb n m then (f, n) ∷ (g, m) ∷ d else (g, m) ∷ insert_member f n d

find-put : (f : Field) (v : Value) (d : List (Field × Value)) → find f (put f v d) ≡ some v
find-put f v [] = ground (arith, field_eq_self f)
find-put f v ((g, w) ∷ d) = ground (arith, find-put f v d)

find-put_ne :
    (f g : Field) (v : Value) (d : List (Field × Value)) → f ≢ g → find g (put f v d) ≡ find g d
find-put_ne f g v [] h = ground (arith, field_eq_iff f g)
find-put_ne f g v ((i, w) ∷ d) h =
    ground (arith, find-put_ne f g v d, field_eq_iff i f, field_eq_iff i g)

find-without : (f : Field) (d : List (Field × Value)) → find f (without f d) ≡ none
find-without f [] = refl
find-without f ((g, w) ∷ d) = ground (arith, find-without f d)

find-without_ne : (f g : Field) (d : List (Field × Value)) → f ≢ g → find g (without f d) ≡ find g d
find-without_ne f g [] h = refl
find-without_ne f g ((i, w) ∷ d) h =
    ground (arith, find-without_ne f g d, field_eq_iff i f, field_eq_iff i g)

abbrev pub members : List (Field × ℕ) → List Field
members [] = []
members ((f, n) ∷ d) = f ∷ members d

abbrev set_nx_memory : Memory → Key → Value → Memory × Bool
set_nx_memory s k v = elim (s.strings k) [
  | none ↦ (record s { strings = at s.strings k (some v) }, true)
  | some w ↦ (s, false)
]

abbrev hsetnx_memory : Memory → Key → Field → Value → Memory × Bool
hsetnx_memory s k f v = elim (find f (s.hashes k)) [
  | none ↦ (record s { hashes = at s.hashes k (put f v (s.hashes k)) }, true)
  | some w ↦ (s, false)
]

-- expiry is no event of one instant
abbrev pub memory : Redis
memory = record {
  State = Memory;
  get = λ s k. s.strings k;
  set = λ s k v. record s { strings = at s.strings k (some v) };
  set_nx = set_nx_memory;
  delete = λ s k. record s { strings = at s.strings k none };
  expire = λ s k n. s;
  hget = λ s k f. find f (s.hashes k);
  hset = λ s k f v. record s { hashes = at s.hashes k (put f v (s.hashes k)) };
  hsetnx = hsetnx_memory;
  hdel = λ s k f. record s { hashes = at s.hashes k (without f (s.hashes k)) };
  hgetall = λ s k. s.hashes k;
  smembers = λ s k. s.sets k;
  sadd = λ s k a. record s { sets = at s.sets k (add a (s.sets k)) };
  srem = λ s k a. record s { sets = at s.sets k (discard a (s.sets k)) };
  zmembers = λ s k. members (s.sorted k);
  zadd = λ s k f n. record s {
    sorted = at s.sorted k (insert_member f n (drop_member f (s.sorted k)));
  };
  zrem = λ s k f. record s { sorted = at s.sorted k (drop_member f (s.sorted k)) };
}

at_ne {ℓ} : {A : Type ℓ} (f : Key → A) (k : Key) (a : A) (j : Key) → k ≢ j → at f k a j ≡ f j
at_ne f k a j h = rw (key_same_ne k j h)

-- two memories agree at a key
same_memory :
    (s t : Memory) (j : Key)
    → s.strings j ≡ t.strings j
    → s.hashes j ≡ t.hashes j
    → s.sets j ≡ t.sets j
    → s.sorted j ≡ t.sorted j
    → SameAt memory j s t
same_memory s t j a b c d = record {
  get_same = a;
  hget_same = λ f. ap (find f) b;
  hgetall_same = b;
  smembers_same = c;
  zmembers_same = ap members d;
}

same_nx : (s : Memory) (k j : Key) (v : Value) → k ≢ j → SameAt memory j (set_nx_memory s k v).0 s
same_nx s k j v h =
    same_memory (set_nx_memory s k v).0 s j (ground (arith, key_same_ne k j h)) (ground arith)
      (ground arith) (ground arith)

same_hnx :
    (s : Memory) (k j : Key) (f : Field) (v : Value)
    → k ≢ j
    → SameAt memory j (hsetnx_memory s k f v).0 s
same_hnx s k j f v h =
    same_memory (hsetnx_memory s k f v).0 s j (ground arith) (ground (arith, key_same_ne k j h))
      (ground arith) (ground arith)

memory_frame : Frame memory
memory_frame = record {
  set_other = λ s k j v h. same_memory _ s j (at_ne s.strings k (some v) j h) refl refl refl;
  set_nx_other = same_nx;
  delete_other = λ s k j h. same_memory _ s j (at_ne s.strings k none j h) refl refl refl;
  expire_other = λ s k j n h. same_memory s s j refl refl refl refl;
  hset_other = λ s k j f v h. same_memory _ s j refl (at_ne s.hashes k _ j h) refl refl;
  hsetnx_other = same_hnx;
  hdel_other = λ s k j f h. same_memory _ s j refl (at_ne s.hashes k _ j h) refl refl;
  sadd_other = λ s k j a h. same_memory _ s j refl refl (at_ne s.sets k _ j h) refl;
  srem_other = λ s k j a h. same_memory _ s j refl refl (at_ne s.sets k _ j h) refl;
  zadd_other = λ s k j f n h. same_memory _ s j refl refl refl (at_ne s.sorted k _ j h);
  zrem_other = λ s k j f h. same_memory _ s j refl refl refl (at_ne s.sorted k _ j h);
}

memory_strings : StringLaws memory
memory_strings = record {
  get-set = λ s k v. ground (arith, key_same_self k);
  get-set_nx_free = λ s k v h. ground (arith, key_same_self k, h);
  set_nx_free = λ s k v h. ground (arith, h);
  set_nx_taken = λ s k v w h. ground (arith, h);
  get-delete = λ s k. ground (arith, key_same_self k);
  get-expire = λ s k n. refl;
}

memory_hashes : HashLaws memory
memory_hashes = record {
  hget-hset = λ s k f v. rw (key_same_self k) (find-put f v (s.hashes k));
  hget-hset_ne = λ s k f g v h. rw (key_same_self k) (find-put_ne f g v (s.hashes k) h);
  hsetnx_free = λ s k f v h. ground (arith, h);
  hsetnx_taken = λ s k f v w h. ground (arith, h);
  hget-hdel = λ s k f. rw (key_same_self k) (find-without f (s.hashes k));
  hget-hdel_ne = λ s k f g h. rw (key_same_self k) (find-without_ne f g (s.hashes k) h);
}

has_field-drop_member :
    (f : Field) (d : List (Field × ℕ)) (g : Field)
    → has_field (members (drop_member f d)) g
      ≡ (if field_eq f g then false else has_field (members d) g)
has_field-drop_member f [] g = ground arith
has_field-drop_member f ((i, n) ∷ d) g = ground (
  arith,
  has_field-drop_member f d g,
  field_eq_iff i f,
  field_eq_iff i g,
  field_eq_iff f g,
  field_eq_self f,
)

memory_sets : SetLaws memory
memory_sets = record {
  contains-srem = λ s k a b. rw (key_same_self k) (contains-discard a (s.sets k) b);
  has_field-zrem = λ s k f g. rw (key_same_self k) (has_field-drop_member f (s.sorted k) g);
}

-- The laws are not vacuous: this memory keeps all of them.
pub memory_laws : Laws memory
memory_laws = record {
  frame = memory_frame;
  strings = memory_strings;
  hashes = memory_hashes;
  sets = memory_sets;
}
