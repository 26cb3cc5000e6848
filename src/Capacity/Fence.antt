-- ===== src/Capacity/Fence.antt =====
-- The authority of execution_engine/capacity.py from its grant to its deadline.
use execution_engine.Common.{
  ℕ, ◌+◌, ◌<◌, ◌≡◌, ◌⊎◌, Bool-cases, inl, inr, String, Bool, true, false, not, ◌&&◌, Option, none,
  some, refl, arith, sym, ap, ◌∙◌, is_some, opt_eq, opt_eq→eq, Option-cases, leb,
}
use execution_engine.Durability.Records.{Authority}
use execution_engine.Registry.State.{RunState}
use execution_engine.Capacity.Lease.{
  Lease, absent, not_positive, remaining_ms, Grant, Reply, answered, http_status, transport_error,
  raised, accepted, lease_deadline, has_expired, lose, is_cleanup, authority_request_hook,
  adopt_deadline, take_renewal, renew_round,
}
use execution_engine.Capacity.Dispatch.{
  execute, decide_blocked, with_deadline, decide_granted, decide_grant, decide,
}

-- A deadline that is accepted lies ahead, and is the time of the request plus a positive remaining
-- time that the control plane stated: the time that the answer took is not given back.
pub lease_deadline-conservative :
    (lease : Lease) (request_started now t : ℕ)
    → lease_deadline lease request_started now ≡ accepted (some t)
    → (n : ℕ) × (lease ≡ remaining_ms n) × (0 < n) × (t ≡ request_started + n) × (now < t)
unfolding lease_deadline
lease_deadline-conservative absent s now t h = absurd (ground (arith, h))
lease_deadline-conservative not_positive s now t h = absurd (ground (arith, h))
lease_deadline-conservative (remaining_ms n) s now t h =
    (n, refl, ground (arith, h), ground (arith, h), ground (arith, h))

-- From its deadline on, every request under an authority is refused but those that clean up, and
-- the authority is lost: later requests that do not clean up are refused too, at whatever time.
pub expired_authority_fences :
    (has_part : String → String → Bool) (a : Authority) (path later : String) (now then : ℕ)
    → has_expired a now ≡ true
    → is_cleanup has_part later ≡ false
    → ((authority_request_hook has_part a path now).1 ≡ is_cleanup has_part path)
      × ((authority_request_hook has_part
            (authority_request_hook has_part a path now).0
            later
            then).1
          ≡ false)
unfolding authority_request_hook has_expired lose
expired_authority_fences has_part a path later now then late work =
    (ground (arith, late), ground (arith, late, work))

adopt_deadline-keeps :
    (a a' : Authority) (lease : Lease) (started now : ℕ)
    → adopt_deadline a (lease_deadline lease started now) ≡ some a'
    → (has_expired a' now ≡ false) × ((is_some a.deadline && not (is_some a'.deadline)) ≡ false)
unfolding adopt_deadline lease_deadline has_expired
adopt_deadline-keeps a a' absent started now h = (ground (arith, h), ground (arith, h))
adopt_deadline-keeps a a' not_positive started now h = absurd (ground (arith, h))
adopt_deadline-keeps a a' (remaining_ms n) started now h = (ground (arith, h), ground (arith, h))

take_renewal-keeps :
    (a a' : Authority) (r : Reply) (started now : ℕ)
    → take_renewal a r started now ≡ some a'
    → (has_expired a' now ≡ false) × ((is_some a.deadline && not (is_some a'.deadline)) ≡ false)
unfolding take_renewal
take_renewal-keeps a a' (answered g) started now h =
    adopt_deadline-keeps a a' g.lease started now (ground (arith, h))
take_renewal-keeps a a' (http_status code) started now h = (ground (arith, h), ground (arith, h))
take_renewal-keeps a a' transport_error started now h = (ground (arith, h), ground (arith, h))
take_renewal-keeps a a' raised started now h = (ground (arith, h), ground (arith, h))

-- A round of renewal that goes on leaves an authority whose deadline, if it has one, is still
-- ahead, and an authority that had a deadline still has one.
pub renew_round-keeps :
    (a : Authority) (r : Reply) (woken started now : ℕ)
    → (renew_round a r woken started now).1 ≡ true
    → (has_expired (renew_round a r woken started now).0 now ≡ false)
      × ((is_some a.deadline && not (is_some (renew_round a r woken started now).0.deadline))
          ≡ false)
unfolding renew_round
renew_round-keeps a r woken started now h = elim (Option-cases (take_renewal a r started now)) [
  | inl none' ↦ absurd (ground (arith, h, none'))
  | inr (a', taken) ↦
      let kept = take_renewal-keeps a a' r started now taken in
      ground (arith, h, taken, kept.0, kept.1)
]

with_deadline-live :
    (enabled : Bool) (wall now sent : ℕ) (s : RunState) (n : ℕ) (lease : Lease) (a : Authority)
    → with_deadline enabled wall now sent s n (lease_deadline lease sent now) ≡ execute (some a)
    → (a.run_id ≡ s.run_id) × (a.generation ≡ n) × (a.lost ≡ false) × (has_expired a now ≡ false)
unfolding with_deadline lease_deadline has_expired
with_deadline-live enabled wall now sent s n absent a h =
    (ground (arith, h), ground (arith, h), ground (arith, h), ground (arith, h))
with_deadline-live enabled wall now sent s n not_positive a h = absurd (ground (arith, h))
with_deadline-live enabled wall now sent s n (remaining_ms m) a h =
    (ground (arith, h), ground (arith, h), ground (arith, h), ground (arith, h))

granted-live :
    (enabled : Bool) (wall now sent : ℕ) (s : RunState) (g : Grant) (a : Authority)
    → decide_granted enabled wall now sent s g ≡ execute (some a)
    → (g.status ≡ some "granted")
      × (g.generation ≡ some a.generation)
      × (0 < a.generation)
      × (a.run_id ≡ s.run_id)
      × (has_expired a now ≡ false)
unfolding decide_granted
granted-live enabled wall now sent s g a h = elim (Option-cases g.generation) [
  | inl bare ↦ absurd (ground (arith, h, bare))
  | inr (n, some_generation) ↦
      let granted : opt_eq g.status (some "granted") ≡ true = ground (arith, h, some_generation) in
      let positive : leb 1 n ≡ true = ground (arith, h, some_generation) in
      let (run, same, _, live) =
        with_deadline-live enabled wall now sent s n g.lease a
          (ground (arith, h, some_generation, granted, positive)) in
      (
        opt_eq→eq g.status (some "granted") granted,
        some_generation ∙ ap some (sym same),
        ground (arith, positive, same),
        run,
        live,
      )
]

granted-authority :
    (enabled : Bool) (wall now sent : ℕ) (s : RunState) (g : Grant) (d : Option Authority)
    → decide_granted enabled wall now sent s g ≡ execute d
    → (a : Authority) × (d ≡ some a)
unfolding decide_granted with_deadline
granted-authority enabled wall now sent s g none h = ground (arith, h)
granted-authority enabled wall now sent s g (some a) h = (a, refl)

answered-route :
    (enabled : Bool) (wall now sent : ℕ) (s : RunState) (g : Grant) (d : Option Authority)
    → decide_grant enabled wall now sent s g ≡ execute d
    → ((enabled ≡ false) × (d ≡ none))
      ⊎ ((enabled ≡ true) × (decide_granted enabled wall now sent s g ≡ execute d))
unfolding decide_grant decide_blocked
answered-route enabled wall now sent s g d h = elim (Bool-cases enabled) [
  | inl on ↦ inr (on, ground (arith, h, on))
  | inr off ↦ inl (off, ground (arith, h, off))
]

-- With capacity enabled a run executes only under an authority; and an authority is there only if
-- the control plane has answered that it grants the run, with a positive generation, which the
-- authority carries, and with a lease that has not run out.
pub decide-granted :
    (enabled : Bool) (wall now sent : ℕ) (s : RunState) (r : Reply) (d : Option Authority)
    → decide enabled wall now sent s r ≡ execute d
    → ((enabled ≡ false) × (d ≡ none))
      ⊎ ((a : Authority) × (g : Grant) × (enabled ≡ true)
          × (d ≡ some a)
          × (r ≡ answered g)
          × (g.status ≡ some "granted")
          × (g.generation ≡ some a.generation)
          × (0 < a.generation)
          × (a.run_id ≡ s.run_id)
          × (has_expired a now ≡ false))
unfolding decide
decide-granted enabled wall now sent s (answered g) d h =
    elim (answered-route enabled wall now sent s g d h) [
      | inl off ↦ inl off
      | inr (on, granted) ↦
          let (a, one) = granted-authority enabled wall now sent s g d granted in
          let (status, generation, positive, run, live) =
            granted-live enabled wall now sent s g a (granted ∙ ap execute one) in
          inr (a, g, on, one, refl, status, generation, positive, run, live)
    ]
decide-granted enabled wall now sent s (http_status code) d h = absurd (ground (arith, h))
decide-granted enabled wall now sent s transport_error d h = absurd (ground (arith, h))
decide-granted enabled wall now sent s raised d h = absurd (ground (arith, h))
