-- ===== src/Capacity/Lease.antt =====
-- The deadline of an authority in execution_engine/capacity.py: `lease_deadline`, the request hook
-- and one round of `_renew`. Times are milliseconds of
-- `time.monotonic()`.
use execution_engine.Common.{
  ℕ, ◌+◌, String, Bool, true, false, not, ◌&&◌, ◌||◌, Option, none, some, leb, nat_eq, opt_eq, any,
  [], ◌∷◌, is_some, if◌then◌else◌,
}
use execution_engine.Durability.Records.{Authority}

-- `result["leaseRemainingMs"]`: not there, no positive `int`, or one
pub data Lease : Type 0 where
  absent not_positive : Lease
  remaining_ms : ℕ → Lease

-- what the engine reads of an answer to `capacity`; a field of another type than expected is `none`
pub record Grant : Type 0 where
  pub contract_version : Option ℕ
  pub status : Option String
  pub generation : Option ℕ
  pub lease : Lease

-- an answer, an HTTP error status, another HTTP error (of a renewal, a timeout too), or any other
-- exception
pub data Reply : Type 0 where
  answered : Grant → Reply
  http_status : ℕ → Reply
  transport_error raised : Reply

-- the deadline, if the lease has one, or a `RuntimeError`
pub data LeaseResult : Type 0 where
  accepted : Option ℕ → LeaseResult
  rejected : LeaseResult

unfoldable pub lease_deadline : Lease → ℕ → ℕ → LeaseResult
lease_deadline absent request_started now = accepted none
lease_deadline not_positive request_started now = rejected
lease_deadline (remaining_ms n) request_started now =
    if leb n 0
    then rejected
    else if leb (request_started + n) now
    then rejected
    else accepted (some (request_started + n))

-- `authority.deadline is not None and now >= authority.deadline`
unfoldable pub has_expired : Authority → ℕ → Bool
has_expired a now = elim a.deadline [ none ↦ false | some t ↦ leb t now ]

unfoldable pub lose : Authority → Authority
lose a = record a { lost = true }

-- `part in path`, of the library, is a parameter
module _ (has_part : String → String → Bool) where
  unfoldable pub is_cleanup : String → Bool
  is_cleanup path =
      any (λ part. has_part part path)
        ("/events" ∷ "/commit" ∷ "/operations/finish" ∷ "/release" ∷ [])

  -- `authority_request_hook`: the authority, and whether the request goes out with its headers
  unfoldable pub authority_request_hook : Authority → String → ℕ → Authority × Bool
  unfolding has_expired lose is_cleanup
  authority_request_hook a path now =
      let a' = if has_expired a now then lose a else a in
      (a', not (a'.lost && not (is_cleanup path)))

-- a 5xx status or no status at all
unfoldable pub is_transient : Reply → Bool
is_transient (answered g) = false
is_transient (http_status code) = leb 500 code
is_transient transport_error = true
is_transient raised = false

unfoldable pub is_renewed : Grant → Bool
is_renewed g =
    opt_eq g.status (some "ok") && (elim g.contract_version [ none ↦ false | some v ↦ nat_eq v 1 ])

-- the new deadline of a renewal; a confirmed lease may not lose its deadline
unfoldable pub adopt_deadline : Authority → LeaseResult → Option Authority
adopt_deadline a rejected = none
adopt_deadline a (accepted d) =
    if is_some a.deadline && not (is_some d) then none else some (record a { deadline = d })

-- the answer to a renewal that was sent at `started` and came at `now`; `none` loses the authority
unfoldable pub take_renewal : Authority → Reply → ℕ → ℕ → Option Authority
unfolding has_expired lease_deadline is_transient is_renewed adopt_deadline
take_renewal a (answered g) started now =
    if is_renewed g then adopt_deadline a (lease_deadline g.lease started now) else none
take_renewal a r started now =
    if is_transient r && is_some a.deadline && not (has_expired a now) then some a else none

-- one round of the loop of `_renew`, that begins at `woken` and sends its request at `started`
unfoldable pub renew_round : Authority → Reply → ℕ → ℕ → ℕ → Authority × Bool
unfolding take_renewal lose
renew_round a r woken started now =
    if has_expired a woken || has_expired a started
    then (lose a, false)
    else elim (take_renewal a r started now) [ none ↦ (lose a, false) | some a' ↦ (a', true) ]
