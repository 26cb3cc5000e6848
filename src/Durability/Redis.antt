-- ===== src/Durability/Redis.antt =====
-- Redis, which is no code of the repository: the commands of `RedisLike` in
-- execution_engine/durability.py as an interface, and their documented behaviour as laws.
use execution_engine.Common.{
  ℕ, String, str_eq, nat_eq, Bool, true, false, ◌||◌, Option, none, some, List, [], ◌∷◌, ◌≡◌, ◌≢◌,
  contains, if◌then◌else◌,
}
use execution_engine.Durability.Records.{Value, Field, name, num, Key}

abbrev pub field_eq : Field → Field → Bool
field_eq (name a) (name b) = str_eq a b
field_eq (num a) (num b) = nat_eq a b
field_eq _ _ = false

-- whether a field is among the members of a sorted set
abbrev pub has_field : List Field → Field → Bool
has_field [] g = false
has_field (f ∷ fs) g = field_eq f g || has_field fs g

pub record Redis : Type 1 where
  pub State : Type 0
  pub get : State → Key → Option Value
  -- `set` without `nx`
  pub set : State → Key → Value → State
  -- `set` with `nx`: the new state, and whether the key was written
  pub set_nx : State → Key → Value → State × Bool
  pub delete : State → Key → State
  pub expire : State → Key → ℕ → State
  pub hget : State → Key → Field → Option Value
  pub hset : State → Key → Field → Value → State
  pub hsetnx : State → Key → Field → Value → State × Bool
  pub hdel : State → Key → Field → State
  pub hgetall : State → Key → List (Field × Value)
  pub smembers : State → Key → List String
  pub sadd : State → Key → String → State
  pub srem : State → Key → String → State
  -- the members of a sorted set, by score
  pub zmembers : State → Key → List Field
  pub zadd : State → Key → Field → ℕ → State
  pub zrem : State → Key → Field → State

module _ (r : Redis) where
  open r use {
    State, get, set, set_nx, delete, expire, hget, hset, hsetnx, hdel, hgetall, smembers, sadd,
    srem, zmembers, zadd, zrem,
  }

  -- Two states hold the same under one key.
  pub record SameAt (k : Key) (s t : State) : Type 0 where
    pub get_same : get s k ≡ get t k
    pub hget_same : (f : Field) → hget s k f ≡ hget t k f
    pub hgetall_same : hgetall s k ≡ hgetall t k
    pub smembers_same : smembers s k ≡ smembers t k
    pub zmembers_same : zmembers s k ≡ zmembers t k

  -- A command leaves all keys but its own alone.
  pub record Frame : Type 0 where
    pub set_other : (s : State) (k j : Key) (v : Value) → k ≢ j → SameAt j (set s k v) s
    pub set_nx_other : (s : State) (k j : Key) (v : Value) → k ≢ j → SameAt j (set_nx s k v).0 s
    pub delete_other : (s : State) (k j : Key) → k ≢ j → SameAt j (delete s k) s
    pub expire_other : (s : State) (k j : Key) (n : ℕ) → k ≢ j → SameAt j (expire s k n) s
    pub hset_other :
        (s : State) (k j : Key) (f : Field) (v : Value) → k ≢ j → SameAt j (hset s k f v) s
    pub hsetnx_other :
        (s : State) (k j : Key) (f : Field) (v : Value) → k ≢ j → SameAt j (hsetnx s k f v).0 s
    pub hdel_other : (s : State) (k j : Key) (f : Field) → k ≢ j → SameAt j (hdel s k f) s
    pub sadd_other : (s : State) (k j : Key) (a : String) → k ≢ j → SameAt j (sadd s k a) s
    pub srem_other : (s : State) (k j : Key) (a : String) → k ≢ j → SameAt j (srem s k a) s
    pub zadd_other : (s : State) (k j : Key) (f : Field) (n : ℕ) → k ≢ j → SameAt j (zadd s k f n) s
    pub zrem_other : (s : State) (k j : Key) (f : Field) → k ≢ j → SameAt j (zrem s k f) s

  -- Strings: SET, SET NX, DEL, EXPIRE with a positive time, at the instant of the command.
  pub record StringLaws : Type 0 where
    pub get-set : (s : State) (k : Key) (v : Value) → get (set s k v) k ≡ some v
    pub get-set_nx_free :
        (s : State) (k : Key) (v : Value) → get s k ≡ none → get (set_nx s k v).0 k ≡ some v
    pub set_nx_free : (s : State) (k : Key) (v : Value) → get s k ≡ none → (set_nx s k v).1 ≡ true
    pub set_nx_taken :
        (s : State) (k : Key) (v w : Value) → get s k ≡ some w → set_nx s k v ≡ (s, false)
    pub get-delete : (s : State) (k : Key) → get (delete s k) k ≡ none
    pub get-expire : (s : State) (k : Key) (n : ℕ) → get (expire s k n) k ≡ get s k

  -- Hashes.
  pub record HashLaws : Type 0 where
    pub hget-hset : (s : State) (k : Key) (f : Field) (v : Value) → hget (hset s k f v) k f ≡ some v
    pub hget-hset_ne :
        (s : State) (k : Key) (f g : Field) (v : Value)
        → f ≢ g
        → hget (hset s k f v) k g ≡ hget s k g
    pub hsetnx_free :
        (s : State) (k : Key) (f : Field) (v : Value)
        → hget s k f ≡ none
        → hsetnx s k f v ≡ (hset s k f v, true)
    pub hsetnx_taken :
        (s : State) (k : Key) (f : Field) (v w : Value)
        → hget s k f ≡ some w
        → hsetnx s k f v ≡ (s, false)
    pub hget-hdel : (s : State) (k : Key) (f : Field) → hget (hdel s k f) k f ≡ none
    pub hget-hdel_ne :
        (s : State) (k : Key) (f g : Field) → f ≢ g → hget (hdel s k f) k g ≡ hget s k g

  -- Sets and sorted sets: the removal of a member leaves the others.
  pub record SetLaws : Type 0 where
    pub contains-srem :
        (s : State) (k : Key) (a b : String)
        → contains (smembers (srem s k a) k) b
          ≡ (if str_eq a b then false else contains (smembers s k) b)
    pub has_field-zrem :
        (s : State) (k : Key) (f g : Field)
        → has_field (zmembers (zrem s k f) k) g
          ≡ (if field_eq f g then false else has_field (zmembers s k) g)

  pub record Laws : Type 0 where
    pub frame : Frame
    pub strings : StringLaws
    pub hashes : HashLaws
    pub sets : SetLaws
