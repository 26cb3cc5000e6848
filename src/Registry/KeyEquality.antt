-- ===== src/Registry/KeyEquality.antt =====
-- The comparison of run identities, and the registry dictionary that it keys.
use execution_engine.Common.{
  ◌≡◌, eq_iff, true, some, List, [], ◌∷◌, arith, eq_refl, opt_eq→eq, opt_eq_self,
}
use execution_engine.Registry.Identity.{RunKey, head_eq, tail_eq, key_eq, runs_get, runs_set}
use execution_engine.Registry.State.{Ref}

head_eq_self : (a : RunKey) → head_eq a a ≡ true
unfolding head_eq
head_eq_self a = simp (eq_refl, opt_eq_self)

tail_eq_self : (a : RunKey) → tail_eq a a ≡ true
unfolding tail_eq
tail_eq_self a = simp opt_eq_self

pub key_eq_self : (a : RunKey) → key_eq a a ≡ true
unfolding key_eq
key_eq_self a = simp (head_eq_self, tail_eq_self)

head_eq→eq :
    (a b : RunKey)
    → head_eq a b ≡ true
    → (a.scope_type ≡ b.scope_type)
      × (a.workspace_id ≡ b.workspace_id)
      × (a.target_id ≡ b.target_id)
      × (a.target_type ≡ b.target_type)
      × (a.session_id ≡ b.session_id)
      × (a.message_id ≡ b.message_id)
      × (a.run_id ≡ b.run_id)
unfolding head_eq
head_eq→eq a b h = (
  (eq_iff a.scope_type b.scope_type).0 (ground (arith, h)),
  (eq_iff a.workspace_id b.workspace_id).0 (ground (arith, h)),
  opt_eq→eq a.target_id b.target_id (ground (arith, h)),
  opt_eq→eq a.target_type b.target_type (ground (arith, h)),
  (eq_iff a.session_id b.session_id).0 (ground (arith, h)),
  (eq_iff a.message_id b.message_id).0 (ground (arith, h)),
  (eq_iff a.run_id b.run_id).0 (ground (arith, h)),
)

tail_eq→eq :
    (a b : RunKey)
    → tail_eq a b ≡ true
    → (a.workflow_id ≡ b.workflow_id)
      × (a.execution_id ≡ b.execution_id)
      × (a.workflow_session_id ≡ b.workflow_session_id)
      × (a.executor_role ≡ b.executor_role)
      × (a.parent_run_id ≡ b.parent_run_id)
      × (a.agent_id ≡ b.agent_id)
      × (a.trigger_id ≡ b.trigger_id)
unfolding tail_eq
tail_eq→eq a b h = (
  opt_eq→eq a.workflow_id b.workflow_id (ground (arith, h)),
  opt_eq→eq a.execution_id b.execution_id (ground (arith, h)),
  opt_eq→eq a.workflow_session_id b.workflow_session_id (ground (arith, h)),
  opt_eq→eq a.executor_role b.executor_role (ground (arith, h)),
  opt_eq→eq a.parent_run_id b.parent_run_id (ground (arith, h)),
  opt_eq→eq a.agent_id b.agent_id (ground (arith, h)),
  opt_eq→eq a.trigger_id b.trigger_id (ground (arith, h)),
)

-- Keys that compare as equal are equal.
pub key_eq→eq : (a b : RunKey) → key_eq a b ≡ true → a ≡ b
unfolding key_eq
key_eq→eq a b h =
    let p = head_eq→eq a b (ground (arith, h)) in
    let q = tail_eq→eq a b (ground (arith, h)) in
    λ i. record {
      scope_type = p.0 i;
      workspace_id = p.1 i;
      target_id = p.2 i;
      target_type = p.3 i;
      session_id = p.4 i;
      message_id = p.5 i;
      run_id = p.6 i;
      workflow_id = q.0 i;
      execution_id = q.1 i;
      workflow_session_id = q.2 i;
      executor_role = q.3 i;
      parent_run_id = q.4 i;
      agent_id = q.5 i;
      trigger_id = q.6 i;
    }

pub runs_get-runs_set :
    (k : RunKey) (v : Ref) (d : List (RunKey × Ref)) → runs_get k (runs_set k v d) ≡ some v
unfolding runs_get runs_set
runs_get-runs_set k v [] = ground (arith, key_eq_self k)
runs_get-runs_set k v ((j, w) ∷ d) = ground (arith, runs_get-runs_set k v d)
