-- ===== src/Registry/Fencing.antt =====
-- What a drain does to the runs that this replica holds and has not scheduled.
use mathlib.Core.List.{map, Memᴰ}
use execution_engine.Common.{
  ℕ, ◌≡◌, ◌∙◌, subst, String, eq_iff, true, none, some, List, [], ◌∷◌, arith, contains,
  contains-add,
}
use execution_engine.Common.Dict.{lookup, lookup-erase}
use execution_engine.Durability.Redis.{Redis}
use execution_engine.Durability.Store.{DurabilityStore}
use execution_engine.Registry.Identity.{RunKey}
use execution_engine.Registry.State.{Ref, Settings, Registry, get_by_run_id}
use execution_engine.Registry.Scheduling.{persist_state}
use execution_engine.Registry.Draining.{
  is_unscheduled, close_admission, release_claim, release_claims, start_release,
  release_unscheduled_claims, begin_drain,
}

-- the run at `ref` is fenced, queued for release and unknown to the registry
record IsFenced {r : Redis} (ref : Ref) (id : String) (g : Registry r) : Type 0 where
  lost : (g.objects ref).execution_lock_lost ≡ true
  released : contains g.drain_release_ids id ≡ true
  forgotten : lookup id g.run_id_to_key ≡ none

module _ {r : Redis} where
  release_claim-IsFenced :
      (ref at : Ref) (id : String) (g : Registry r)
      → IsFenced ref id g
      → IsFenced ref id (release_claim at g)
  unfolding release_claim
  release_claim-IsFenced ref at id g f = record {
    lost = ground (arith, f.lost);
    released =
        ground (arith, f.released, contains-add (g.objects at).run_id g.drain_release_ids id);
    forgotten = ground (arith, f.forgotten, lookup-erase (g.objects at).run_id id g.run_id_to_key);
  }

  release_claims-IsFenced :
      (runs : List (RunKey × Ref)) (ref : Ref) (id : String) (g : Registry r)
      → IsFenced ref id g
      → IsFenced ref id (release_claims runs g)
  unfolding release_claims
  release_claims-IsFenced [] ref id g f = f
  release_claims-IsFenced ((k, at) ∷ rest) ref id g f =
      release_claims-IsFenced rest ref id (release_claim at g)
        (release_claim-IsFenced ref at id g f)

  release_claim_fences :
      (ref : Ref) (g : Registry r)
      → is_unscheduled (g.objects ref) g.sched ≡ true
      → IsFenced ref (g.objects ref).run_id (release_claim ref g)
  unfolding release_claim
  release_claim_fences ref g h = record {
    lost = ground (arith, h);
    released = ground (
      arith,
      h,
      contains-add (g.objects ref).run_id g.drain_release_ids (g.objects ref).run_id,
      eq_iff (g.objects ref).run_id (g.objects ref).run_id,
    );
    forgotten = ground (
      arith,
      h,
      lookup-erase (g.objects ref).run_id (g.objects ref).run_id g.run_id_to_key,
      eq_iff (g.objects ref).run_id (g.objects ref).run_id,
    );
  }

  release_claim_waiting :
      (ref at : Ref) (g : Registry r)
      → is_unscheduled ((release_claim at g).objects ref) (release_claim at g).sched
        ≡ is_unscheduled (g.objects ref) g.sched
  unfolding release_claim
  release_claim_waiting ref at g = ground arith

  release_claim_run_id :
      (ref at : Ref) (g : Registry r)
      → ((release_claim at g).objects ref).run_id ≡ (g.objects ref).run_id
  unfolding release_claim
  release_claim_run_id ref at g = ground arith

  release_claims_fence :
      (runs : List (RunKey × Ref)) (ref : Ref) (g : Registry r)
      → Memᴰ ref (map (λ e. e.1) runs)
      → is_unscheduled (g.objects ref) g.sched ≡ true
      → IsFenced ref (g.objects ref).run_id (release_claims runs g)
  unfolding release_claims
  release_claims_fence [] ref g m h = elim m [ ]
  release_claims_fence ((k, at) ∷ rest) ref g (Memᴰ.head e) h =
      let here : IsFenced ref (g.objects ref).run_id (release_claim at g) =
        subst (λ (a : Ref). IsFenced ref (g.objects ref).run_id (release_claim a g)) e
          (release_claim_fences ref g h) in
      release_claims-IsFenced rest ref (g.objects ref).run_id (release_claim at g) here
  release_claims_fence ((k, at) ∷ rest) ref g (Memᴰ.tail m) h =
      let later =
        release_claims_fence rest ref (release_claim at g) m (release_claim_waiting ref at g ∙ h) in
      subst (λ (id : String). IsFenced ref id (release_claims rest (release_claim at g)))
        (release_claim_run_id ref at g) later

  start_release-IsFenced :
      (ref : Ref) (id : String) (g : Registry r)
      → IsFenced ref id g
      → IsFenced ref id (start_release g)
  unfolding start_release
  start_release-IsFenced ref id g f = record {
    lost = ground (arith, f.lost);
    released = ground (arith, f.released);
    forgotten = ground (arith, f.forgotten);
  }

  begin_drain-IsFenced :
      (g : Registry r) (d : DurabilityStore r) (ref : Ref)
      → g.durability_store ≡ some d
      → Memᴰ ref (map (λ e. e.1) g.runs)
      → is_unscheduled (g.objects ref) g.sched ≡ true
      → IsFenced ref (g.objects ref).run_id (begin_drain g)
  unfolding begin_drain release_unscheduled_claims
  begin_drain-IsFenced g d ref store m h =
      let g1 = record g { sched = close_admission g.sched } in
      let waits : is_unscheduled (g1.objects ref) g1.sched ≡ true =
        unfold is_unscheduled close_admission in h in
      let f = release_claims_fence g1.runs ref g1 m waits in
      subst (IsFenced ref (g.objects ref).run_id) {x = start_release (release_claims g1.runs g1)}
        (ground (arith, store))
        (start_release-IsFenced ref (g.objects ref).run_id (release_claims g1.runs g1) f)

  -- With a store, a drain hands over every run that the registry holds, that waits for a slot, an
  -- approval or other runs, and that is not scheduled: its id is to be released, the registry no
  -- longer knows it, and a task that still holds the object can persist nothing through it.
  pub begin_drain_hands_over :
      (cfg : Settings) (now : ℕ) (g : Registry r) (d : DurabilityStore r) (ref : Ref)
      → g.durability_store ≡ some d
      → Memᴰ ref (map (λ e. e.1) g.runs)
      → is_unscheduled (g.objects ref) g.sched ≡ true
      → (contains (begin_drain g).drain_release_ids (g.objects ref).run_id ≡ true)
        × (get_by_run_id (begin_drain g) (g.objects ref).run_id ≡ none)
        × (persist_state cfg now ref (begin_drain g) ≡ begin_drain g)
  begin_drain_hands_over cfg now g d ref store m h =
      let f = begin_drain-IsFenced g d ref store m h in
      (
        f.released,
        unfold get_by_run_id in ground (arith, f.forgotten),
        unfold persist_state in ground (arith, f.lost),
      )
