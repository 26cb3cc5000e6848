-- ===== src/Registry/Steps/Keeps.antt =====
-- Which operations of the registry leave its scheduler alone.
use execution_engine.Common.{ℕ, ◌-◌, ◌≡◌, ◌∙◌, String, Bool, List, [], ◌∷◌, refl, arith}
use execution_engine.Durability.Redis.{Redis}
use execution_engine.Registry.Identity.{RunKey}
use execution_engine.Registry.State.{
  RunState, Ref, Settings, Registry, put_object, forget_local_run,
}
use execution_engine.Registry.Scheduling.{persist_state, note_resume}
use execution_engine.Registry.Draining.{
  release_claim, release_claims, release_unscheduled_claims, release_one, release_round,
  cancel_owned_run,
}
use execution_engine.Registry.Completion.{register, drop_one, drop_old, cleanup_terminal_runs}
use execution_engine.Registry.Lifecycle.{get_or_create}

module _ {r : Redis} where
  pub sched-put_object :
      (ref : Ref) (s : RunState) (g : Registry r) → (put_object ref s g).sched ≡ g.sched
  unfolding put_object
  sched-put_object ref s g = refl

  pub sched-forget_local_run :
      (id : String) (g : Registry r) → (forget_local_run id g).sched ≡ g.sched
  unfolding forget_local_run
  sched-forget_local_run id g = refl

  pub sched-register :
      (cfg : Settings) (now : ℕ) (uuid : ℕ → String) (s : RunState) (g : Registry r)
      → (register cfg now uuid s g).sched ≡ g.sched
  unfolding register
  sched-register cfg now uuid s g = refl

  pub sched-persist_state :
      (cfg : Settings) (now : ℕ) (ref : Ref) (g : Registry r)
      → (persist_state cfg now ref g).sched ≡ g.sched
  unfolding persist_state
  sched-persist_state cfg now ref g = ground arith

  pub sched-note_resume :
      (now : ℕ) (cfg : Settings) (ref : Ref) (g : Registry r)
      → (note_resume cfg now ref g).sched ≡ g.sched
  unfolding note_resume
  sched-note_resume now cfg ref g = ground arith

  sched-release_claim : (ref : Ref) (g : Registry r) → (release_claim ref g).sched ≡ g.sched
  unfolding release_claim
  sched-release_claim ref g = ground arith

  sched-release_claims :
      (runs : List (RunKey × Ref)) (g : Registry r) → (release_claims runs g).sched ≡ g.sched
  unfolding release_claims
  sched-release_claims [] g = refl
  sched-release_claims ((k, ref) ∷ rest) g =
      sched-release_claims rest (release_claim ref g) ∙ sched-release_claim ref g

  pub sched-release_unscheduled_claims :
      (g : Registry r) → (release_unscheduled_claims g).sched ≡ g.sched
  unfolding release_unscheduled_claims
  sched-release_unscheduled_claims g = ground (arith, sched-release_claims g.runs g)

  sched-release_one :
      (fails : String → Bool) (id : String) (g : Registry r)
      → (release_one fails id g).sched ≡ g.sched
  unfolding release_one
  sched-release_one fails id g = ground arith

  pub sched-release_round :
      (fails : String → Bool) (ids : List String) (g : Registry r)
      → (release_round fails ids g).sched ≡ g.sched
  unfolding release_round
  sched-release_round fails [] g = refl
  sched-release_round fails (id ∷ ids) g =
      sched-release_round fails ids (release_one fails id g) ∙ sched-release_one fails id g

  pub sched-cancel_owned_run :
      (cfg : Settings) (now : ℕ) (id : String) (g : Registry r)
      → (cancel_owned_run cfg now id g).sched ≡ g.sched
  unfolding cancel_owned_run
  sched-cancel_owned_run cfg now id g = ground arith

  module _ (cfg : Settings) (now : ℕ) (uuid : ℕ → String) where
    sched-drop_one :
        (cutoff : ℕ) (key : RunKey) (ref : Ref) (g : Registry r)
        → (drop_one cfg now uuid cutoff key ref g).sched ≡ g.sched
    unfolding drop_one
    sched-drop_one cutoff key ref g = ground arith

    sched-drop_old :
        (cutoff : ℕ) (runs : List (RunKey × Ref)) (g : Registry r)
        → (drop_old cfg now uuid cutoff runs g).sched ≡ g.sched
    unfolding drop_old
    sched-drop_old cutoff [] g = refl
    sched-drop_old cutoff ((key, ref) ∷ rest) g =
        sched-drop_old cutoff rest (drop_one cfg now uuid cutoff key ref g)
        ∙ sched-drop_one cutoff key ref g

    pub sched-cleanup_terminal_runs :
        (g : Registry r) → (cleanup_terminal_runs cfg now uuid g).sched ≡ g.sched
    unfolding cleanup_terminal_runs
    sched-cleanup_terminal_runs g =
        ground (arith, sched-drop_old (now - g.terminal_run_ttl_seconds) g.runs g)

    pub sched-get_or_create :
        (key : RunKey) (g : Registry r) → (get_or_create cfg now uuid key g).0.sched ≡ g.sched
    unfolding get_or_create
    sched-get_or_create key g = ground arith
