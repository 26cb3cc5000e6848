-- ===== src/Durability/Ownership.antt =====
-- What the execution locks of execution_engine/durability.py promise: a table of owners, and the
-- refinement of that table by the store.
use mathlib.Core.Path.{fun_ext}
use execution_engine.Common.{
  ℕ, ◌+◌, String, str_eq, eq_iff, Bool, true, false, not, Option, none, some, List, [], ◌∷◌, ◌&&◌,
  ◌≡◌, ◌∙◌, refl, subst, ap, inl, inr, arith, keep, is_some, if◌then◌else◌, Bool-cases,
  str_eq_false→ne,
}
use execution_engine.Durability.Records.{Value, owner_name, run_lock_key}
use execution_engine.Durability.Redis.{Redis, Laws}
use execution_engine.Durability.Store.{
  DurabilityStore, holds, acquire_run_lock, run_lock_deadline, renew_run_locks, run_lock_owner,
  run_has_lock, release_run_lock, owner_text,
}
use execution_engine.Durability.Locks.{
  run_lock_key_ne, deadline_of-drop, deadline_of-set, get-renew_locks, lost-renew_locks,
}

-- the calls of any engines, in any order, and the expiry of a lock in Redis at any moment
pub data LockCall : Type 0 where
  acquire : ℕ → String → String → ℕ → LockCall
  renew : List String → String → ℕ → LockCall
  release : String → String → LockCall
  who : String → LockCall
  deadline : String → String → LockCall
  lapse : String → LockCall

pub data Answer : Type 0 where
  acquired : Bool → Answer
  lost : List String → Answer
  held_by : Bool → Option String → Answer
  until : ℕ → Answer
  silence : Answer

-- who owns each run, and until when each engine of this process may trust its lock
pub record LockTable : Type 0 where
  pub owner_of : String → Option String
  pub deadline_of : String → String → ℕ

abbrev pub owns : Option String → String → Bool
owns none owner = false
owns (some o) owner = str_eq o owner

-- the promise, call by call: a run without an owner may be acquired and no other; only the owner
-- releases; a renewal names the runs that are not the caller's and changes no owner
abbrev pub promise : LockTable → LockCall → LockTable × Answer
promise t (acquire now id owner ttl) = elim (t.owner_of id) [
  | some _ ↦ (t, acquired false)
  | none ↦ (
    record {
      owner_of = λ j. if str_eq id j then some owner else t.owner_of j;
      deadline_of = λ j p. if str_eq id j && str_eq owner p then now + ttl else t.deadline_of j p;
    },
    acquired true,
  )
]
promise t (renew ids owner ttl) = (t, lost (keep (λ id. not (owns (t.owner_of id) owner)) ids))
promise t (release id owner) = (
  record {
    owner_of = λ j. if str_eq id j && owns (t.owner_of id) owner then none else t.owner_of j;
    deadline_of = λ j p. if str_eq id j && str_eq owner p then 0 else t.deadline_of j p;
  },
  silence,
)
promise t (who id) = (t, held_by (is_some (t.owner_of id)) (t.owner_of id))
promise t (deadline id owner) = (t, until (t.deadline_of id owner))
promise t (lapse id) =
    (record t { owner_of = λ j. if str_eq id j then none else t.owner_of j }, silence)

unfoldable pub replay : LockTable → List LockCall → List Answer
replay t [] = []
replay t (c ∷ cs) = (promise t c).1 ∷ replay (promise t c).0 cs

abbrev pub lock_value : Option String → Option Value
lock_value none = none
lock_value (some o) = some (owner_name o)

holds-lock_value : (o : Option String) (owner : String) → holds (lock_value o) owner ≡ owns o owner
unfolding holds
holds-lock_value none owner = refl
holds-lock_value (some o) owner = refl

module _ (r : Redis) where
  open r use {State, get, delete}

  -- the store's own method for each call
  abbrev pub serve : DurabilityStore r → LockCall → DurabilityStore r × Answer
  serve s (acquire now id owner ttl) =
      let (s', b) = acquire_run_lock r s now id owner ttl in (s', acquired b)
  serve s (renew ids owner ttl) =
      let (s', ids') = renew_run_locks r s ids owner ttl in (s', lost ids')
  serve s (release id owner) = (release_run_lock r s id owner, silence)
  serve s (who id) = (s, held_by (run_has_lock r s id) (run_lock_owner r s id))
  serve s (deadline id owner) = (s, until (run_lock_deadline r s id owner))
  serve s (lapse id) = (record s { db = delete s.db (run_lock_key id) }, silence)

  unfoldable pub serve_all : DurabilityStore r → List LockCall → List Answer
  serve_all s [] = []
  serve_all s (c ∷ cs) = (serve s c).1 ∷ serve_all (serve s c).0 cs

  pub record Represents (s : DurabilityStore r) (t : LockTable) : Type 0 where
    pub owners : (id : String) → get s.db (run_lock_key id) ≡ lock_value (t.owner_of id)
    pub deadlines : (id owner : String) → run_lock_deadline r s id owner ≡ t.deadline_of id owner

module _ (r : Redis) (laws : Laws r) where
  open r use {State, get, set_nx, delete}

  get-delete_any :
      (db : State) (i j : String)
      → get (delete db (run_lock_key i)) (run_lock_key j)
        ≡ (if str_eq i j then none else get db (run_lock_key j))
  get-delete_any db i j = elim (Bool-cases (str_eq i j)) [
    | inl same ↦
        rw ((eq_iff i j).0 same, (eq_iff j j).1 refl) (laws.strings.get-delete db (run_lock_key j))
    | inr other ↦ rw other (
        (laws.frame.delete_other db (run_lock_key i) (run_lock_key j)
          (run_lock_key_ne i j (str_eq_false→ne i j other))).get_same)
  ]

  get-set_nx_any :
      (db : State) (i j owner : String)
      → get db (run_lock_key i) ≡ none
      → get (set_nx db (run_lock_key i) (owner_name owner)).0 (run_lock_key j)
        ≡ (if str_eq i j then some (owner_name owner) else get db (run_lock_key j))
  get-set_nx_any db i j owner free = elim (Bool-cases (str_eq i j)) [
    | inl same ↦
        rw ((eq_iff i j).0 same, (eq_iff j j).1 refl)
          (laws.strings.get-set_nx_free db (run_lock_key j) (owner_name owner)
            (subst (λ k. get db (run_lock_key k) ≡ none) ((eq_iff i j).0 same) free))
    | inr other ↦ rw other (
        (laws.frame.set_nx_other db (run_lock_key i) (run_lock_key j) (owner_name owner)
          (run_lock_key_ne i j (str_eq_false→ne i j other))).get_same)
  ]

  -- the store after a call represents the table after it, and both answer alike
  abbrev Kept : DurabilityStore r × Answer → LockTable × Answer → Type 0
  Kept x y = Represents r x.0 y.0 × (x.1 ≡ y.1)

  acquire-Kept :
      (s : DurabilityStore r) (t : LockTable) (now : ℕ) (id owner : String) (ttl : ℕ)
      → Represents r s t
      → Kept (serve r s (acquire now id owner ttl)) (promise t (acquire now id owner ttl))
  unfolding acquire_run_lock run_lock_deadline
  acquire-Kept s t now id owner ttl h = of (t.owner_of id) refl
    where
      of :
          (o : Option String)
          → t.owner_of id ≡ o
          → Kept (serve r s (acquire now id owner ttl)) (elim o [
            | some _ ↦ (t, acquired false)
            | none ↦ (
              record {
                owner_of = λ j. if str_eq id j then some owner else t.owner_of j;
                deadline_of =
                    λ j p. if str_eq id j && str_eq owner p then now + ttl else t.deadline_of j p;
              },
              acquired true,
            )
          ])
      of (some o) e =
          let held = h.owners id ∙ ap lock_value e in
          let refused =
            laws.strings.set_nx_taken s.db (run_lock_key id) (owner_name owner) (owner_name o)
              held in
          (
            record {
              owners =
                  λ j. ap (λ (x : State × Bool). get x.0 (run_lock_key j)) refused ∙ h.owners j;
              deadlines = λ j p. ground (arith, refused, h.deadlines j p);
            },
            ground (arith, refused),
          )
      of none e =
          let free = h.owners id ∙ ap lock_value e in
          let won = laws.strings.set_nx_free s.db (run_lock_key id) (owner_name owner) free in
          (
            record {
              owners = λ j. ground (arith, get-set_nx_any s.db id j owner free, h.owners j);
              deadlines = λ j p. ground (
                arith,
                won,
                deadline_of-set id owner j p (now + ttl) s.lock_deadlines,
                h.deadlines j p,
              );
            },
            ground (arith, won),
          )

  release-Kept :
      (s : DurabilityStore r) (t : LockTable) (id owner : String)
      → Represents r s t
      → Kept (serve r s (release id owner)) (promise t (release id owner))
  unfolding release_run_lock run_lock_deadline
  release-Kept s t id owner h =
      let own = ap (λ v. holds v owner) (h.owners id) ∙ holds-lock_value (t.owner_of id) owner in
      (
        record {
          owners = λ j. ground (arith, own, get-delete_any s.db id j, h.owners j);
          deadlines = λ j p.
              ground (arith, deadline_of-drop id owner j p s.lock_deadlines, h.deadlines j p);
        },
        refl,
      )

  renew-Kept :
      (s : DurabilityStore r) (t : LockTable) (ids : List String) (owner : String) (ttl : ℕ)
      → Represents r s t
      → Kept (serve r s (renew ids owner ttl)) (promise t (renew ids owner ttl))
  unfolding renew_run_locks run_lock_deadline
  renew-Kept s t ids owner ttl h = (
    record {
      owners = λ j. get-renew_locks r laws s.db ids owner ttl j ∙ h.owners j;
      deadlines = h.deadlines;
    },
    ap lost (
        lost-renew_locks r laws s.db ids owner ttl
        ∙ ap (λ (f : String → Bool). keep f ids)
            (fun_ext (λ i.
              ap (λ v. not (holds v owner)) (h.owners i)
              ∙ ap not (holds-lock_value (t.owner_of i) owner)))),
  )

  who-Kept :
      (s : DurabilityStore r) (t : LockTable) (id : String)
      → Represents r s t
      → Kept (serve r s (who id)) (promise t (who id))
  unfolding run_has_lock run_lock_owner owner_text
  who-Kept s t id h = (
    h,
    ap
          (λ (o : Option Value).
            held_by (is_some o) (elim o [ none ↦ none | some v ↦ some (owner_text v) ]))
          (h.owners id)
        ∙ of (t.owner_of id),
  )
    where
      of :
          (o : Option String)
          → held_by
              (is_some (lock_value o))
              (elim (lock_value o) [ none ↦ none | some v ↦ some (owner_text v) ])
            ≡ held_by (is_some o) o
      of none = refl
      of (some o) = refl

  serve-Kept :
      (s : DurabilityStore r) (t : LockTable) (c : LockCall)
      → Represents r s t
      → Kept (serve r s c) (promise t c)
  unfolding run_lock_deadline
  serve-Kept s t (acquire now id owner ttl) h = acquire-Kept s t now id owner ttl h
  serve-Kept s t (renew ids owner ttl) h = renew-Kept s t ids owner ttl h
  serve-Kept s t (release id owner) h = release-Kept s t id owner h
  serve-Kept s t (who id) h = who-Kept s t id h
  serve-Kept s t (deadline id owner) h = (h, ap until (h.deadlines id owner))
  serve-Kept s t (lapse id) h = (
    record {
      owners = λ j. ground (arith, get-delete_any s.db id j, h.owners j);
      deadlines = h.deadlines;
    },
    refl,
  )

  -- From a store that represents a table of owners and deadlines, any sequence of calls by any
  -- engines, with locks expiring in Redis at any moment between them, is answered as the table
  -- answers it: a lock has one owner, only a free lock is acquired, only its owner releases it, and
  -- a renewal names the lost runs.
  pub serve_all-replay :
      (s : DurabilityStore r) (t : LockTable) (calls : List LockCall)
      → Represents r s t
      → serve_all r s calls ≡ replay t calls
  unfolding serve_all replay
  serve_all-replay s t [] h = refl
  serve_all-replay s t (c ∷ cs) h =
      let kept = serve-Kept s t c h in
      cc (kept.1, serve_all-replay (serve r s c).0 (promise t c).0 cs kept.0)
