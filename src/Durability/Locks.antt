-- ===== src/Durability/Locks.antt =====
-- The execution locks of execution_engine/durability.py, over any Redis that keeps its documented
-- behaviour.
use mathlib.Core.Path.{fun_ext}
use execution_engine.Common.{
  ℕ, ◌+◌, String, str_eq, eq_iff, Bool, true, false, not, Option, none, some, List, [], ◌∷◌, ◌&&◌,
  ◌≡◌, ◌≢◌, ◌∙◌, ◌⊎◌, inl, inr, refl, ap, arith, keep, if◌then◌else◌, Bool-cases, Option-cases,
  str_eq_false→ne,
}
use execution_engine.Durability.Records.{Value, owner_name, run_lock_key}
use execution_engine.Durability.Redis.{Redis, Laws}
use execution_engine.Durability.Store.{
  DurabilityStore, Deadlines, deadline_of, drop_deadline, set_deadline, holds, acquire_run_lock,
  run_lock_deadline, renew_locks, renew_run_locks, run_lock_owner, run_has_lock, release_run_lock,
}

pub run_lock_key_ne : (i j : String) → i ≢ j → run_lock_key i ≢ run_lock_key j
run_lock_key_ne i j h e = ground arith

pub deadline_of-drop :
    (i o j p : String) (d : Deadlines)
    → deadline_of j p (drop_deadline i o d)
      ≡ (if str_eq i j && str_eq o p then 0 else deadline_of j p d)
unfolding deadline_of drop_deadline
deadline_of-drop i o j p [] = ground arith
deadline_of-drop i o j p ((k, q, t) ∷ d) = ground (
  arith,
  deadline_of-drop i o j p d,
  eq_iff k i,
  eq_iff q o,
  eq_iff k j,
  eq_iff q p,
  eq_iff i j,
  eq_iff o p,
)

pub deadline_of-set :
    (i o j p : String) (t : ℕ) (d : Deadlines)
    → deadline_of j p (set_deadline i o t d)
      ≡ (if str_eq i j && str_eq o p then t else deadline_of j p d)
unfolding deadline_of set_deadline
deadline_of-set i o j p t d = ground (arith, deadline_of-drop i o j p d)

module _ (r : Redis) (laws : Laws r) where
  open r use {State, get, set_nx, delete, expire}

  acquired_free :
      (db : State) (id : String) (v : Value)
      → (set_nx db (run_lock_key id) v).1 ≡ true
      → get db (run_lock_key id) ≡ none
  acquired_free db id v h = elim (Option-cases (get db (run_lock_key id))) [
    | inl free ↦ free
    | inr (w, taken) ↦ cc (laws.strings.set_nx_taken db (run_lock_key id) v w taken, h)
  ]

  -- Once a lock is acquired, its key names the owner and the local deadline is the start of the
  -- request plus the time to live; a further attempt, by any owner, fails and changes nothing.
  pub acquire-excludes :
      (s : DurabilityStore r) (now ttl : ℕ) (id owner : String) (now' ttl' : ℕ) (rival : String)
      → (acquire_run_lock r s now id owner ttl).1 ≡ true
      → (run_lock_owner r (acquire_run_lock r s now id owner ttl).0 id ≡ some owner)
        × (run_lock_deadline r (acquire_run_lock r s now id owner ttl).0 id owner ≡ now + ttl)
        × (acquire_run_lock r (acquire_run_lock r s now id owner ttl).0 now' id rival ttl'
            ≡ ((acquire_run_lock r s now id owner ttl).0, false))
  unfolding acquire_run_lock run_lock_owner run_lock_deadline
  acquire-excludes s now ttl id owner now' ttl' rival h =
      let free = acquired_free s.db id (owner_name owner) h in
      let held = laws.strings.get-set_nx_free s.db (run_lock_key id) (owner_name owner) free in
      let db' = (set_nx s.db (run_lock_key id) (owner_name owner)).0 in
      let refused =
        laws.strings.set_nx_taken db' (run_lock_key id) (owner_name rival) (owner_name owner)
          held in
      (
        ground (arith, held),
        ground (
          arith,
          h,
          deadline_of-set id owner id owner (now + ttl) s.lock_deadlines,
          eq_iff id id,
          eq_iff owner owner,
        ),
        ground (arith, refused),
      )

  -- A release by the owner frees the lock and forgets the local deadline.
  pub release-own :
      (s : DurabilityStore r) (id owner : String)
      → get s.db (run_lock_key id) ≡ some (owner_name owner)
      → (run_has_lock r (release_run_lock r s id owner) id ≡ false)
        × (run_lock_deadline r (release_run_lock r s id owner) id owner ≡ 0)
  unfolding release_run_lock run_has_lock run_lock_deadline
  release-own s id owner h = (
    ground (arith, h, eq_iff owner owner, laws.strings.get-delete s.db (run_lock_key id)),
    ground (
      arith,
      deadline_of-drop id owner id owner s.lock_deadlines,
      eq_iff id id,
      eq_iff owner owner,
    ),
  )

  -- A release never removes a replacement's lock, nor the lock of another run: the owner of every
  -- lock that the caller does not hold is as before.
  pub release-keeps-others :
      (s : DurabilityStore r) (id owner j : String)
      → (id ≢ j) ⊎ (holds (get s.db (run_lock_key id)) owner ≡ false)
      → run_lock_owner r (release_run_lock r s id owner) j ≡ run_lock_owner r s j
  unfolding release_run_lock run_lock_owner
  release-keeps-others s id owner j (inl ne) =
      let same =
        laws.frame.delete_other s.db (run_lock_key id) (run_lock_key j) (run_lock_key_ne id j ne) in
      ground (arith, same.get_same)
  release-keeps-others s id owner j (inr h) = rw h

  get-expire_any :
      (db : State) (i j : String) (n : ℕ)
      → get (expire db (run_lock_key i) n) (run_lock_key j) ≡ get db (run_lock_key j)
  get-expire_any db i j n = elim (Bool-cases (str_eq i j)) [
    | inl same ↦ rw ((eq_iff i j).0 same) (laws.strings.get-expire db (run_lock_key j) n)
    | inr other ↦
        (laws.frame.expire_other db (run_lock_key i) (run_lock_key j) n
          (run_lock_key_ne i j (str_eq_false→ne i j other))).get_same
  ]

  pub get-renew_locks :
      (db : State) (ids : List String) (owner : String) (ttl : ℕ) (j : String)
      → get (renew_locks r db ids owner ttl).0 (run_lock_key j) ≡ get db (run_lock_key j)
  unfolding renew_locks
  get-renew_locks db [] owner ttl j = refl
  get-renew_locks db (id ∷ ids) owner ttl j =
      elim (Bool-cases (holds (get db (run_lock_key id)) owner)) [
        | inl mine ↦ rw mine (
            get-renew_locks (expire db (run_lock_key id) ttl) ids owner ttl j
            ∙ get-expire_any db id j ttl)
        | inr other ↦ rw other (get-renew_locks db ids owner ttl j)
      ]

  pub lost-renew_locks :
      (db : State) (ids : List String) (owner : String) (ttl : ℕ)
      → (renew_locks r db ids owner ttl).1
        ≡ keep (λ id. not (holds (get db (run_lock_key id)) owner)) ids
  unfolding renew_locks keep
  lost-renew_locks db [] owner ttl = refl
  lost-renew_locks db (id ∷ ids) owner ttl =
      elim (Bool-cases (holds (get db (run_lock_key id)) owner)) [
        | inl mine ↦ rw mine (
            lost-renew_locks (expire db (run_lock_key id) ttl) ids owner ttl
            ∙ ap (λ (f : String → Bool). keep f ids)
                (fun_ext (λ i.
                  ap (λ (v : Option Value). not (holds v owner)) (get-expire_any db id i ttl))))
        | inr other ↦ rw other (ap (λ l. id ∷ l) (lost-renew_locks db ids owner ttl))
      ]

  -- A renewal reports exactly the runs whose lock does not name the caller, in the order asked,
  -- and changes the owner of no lock.
  pub renew-exact :
      (s : DurabilityStore r) (ids : List String) (owner : String) (ttl : ℕ) (j : String)
      → ((renew_run_locks r s ids owner ttl).1
          ≡ keep (λ id. not (holds (get s.db (run_lock_key id)) owner)) ids)
        × (run_lock_owner r (renew_run_locks r s ids owner ttl).0 j ≡ run_lock_owner r s j)
  unfolding renew_run_locks run_lock_owner
  renew-exact s ids owner ttl j = (
    lost-renew_locks s.db ids owner ttl,
    rw (get-renew_locks s.db ids owner ttl j, run_lock_owner),
  )
