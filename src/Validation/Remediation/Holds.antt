-- ===== src/Validation/Remediation/Holds.antt =====
-- What the preconditions of a patch say of the evidence when no error is found.
use execution_engine.Common.{
  ℕ, ◌+◌, ◌≡◌, ◌∙◌, refl, ap, arith, String, true, Option, none, some, List, [], ◌∷◌, ◌++◌, All,
  All-weaken, any, inl, inr, Bool-cases,
}
use execution_engine.Validation.Json.{Json, bool, JsonDict, is_object, get, get_in, Python, equal}
use execution_engine.Validation.Schema.Rules.{list_of}
use execution_engine.Validation.Remediation.Targets.{is_true, is_text}
use execution_engine.Validation.Remediation.Preconditions.{
  unknown_container, Problems, ContainerKey, objects_of, each_change, container_at,
  current_containers, is_one_of, check_confirmed, source_problems, env_kinds, image_problems,
  env_problems, matching_env, container_problems, workload_change, workload_changes,
  workload_problems, config_map_keys, is_present, config_map_change, config_map_problems,
}

none_of_two : {A : Type 0} (xs ys : List A) → xs ++ ys ≡ [] → (xs ≡ []) × (ys ≡ [])
none_of_two [] ys h = (refl, h)
none_of_two (x ∷ xs) ys h = absurd (ground (arith, h))

each_change-clear :
    (check : ℕ → Json → Option Problems) (i : ℕ) (changes : List Json)
    → each_change check i changes ≡ some []
    → All (λ c. is_object c ≡ true → (j : ℕ) × (check j c ≡ some [])) changes
unfolding each_change
each_change-clear check i [] h = tt
each_change-clear check i (c ∷ cs) h = elim (Bool-cases (is_object c)) [
  | inr other ↦ (
    λ o. absurd (ground (arith, o, other)),
    each_change-clear check (i + 1) cs (ground (arith, h, other)),
  )
  | inl object ↦
      let both = of (check i c) (each_change check (i + 1) cs) (ground (arith, h, object)) in
      (λ _. (i, both.0), each_change-clear check (i + 1) cs both.1)
]
  where
    of :
        (a b : Option Problems)
        → (elim a [
          | none ↦ none
          | some found ↦ elim b [ none ↦ none | some more ↦ some (found ++ more) ]
        ])
          ≡ some []
        → (a ≡ some []) × (b ≡ some [])
    of none b e = absurd (ground (arith, e))
    of (some xs) none e = absurd (ground (arith, e))
    of (some xs) (some ys) e =
        let both = none_of_two xs ys (ground (arith, e)) in (ap some both.0, ap some both.1)

module _ (py : Python) where
  -- the one current descriptor of the name has the expected source, and `absent` stands for none
  abbrev pub SourceHolds : Json → List Json → Type 0
  SourceHolds change [] = is_text py (get_in "expected_source" change) "absent" ≡ true
  SourceHolds change (env ∷ []) =
      equal py (get_in "source" env) (get_in "expected_source" change) ≡ true
  SourceHolds change (_ ∷ _ ∷ _) = ⊥

  -- the container stands in the target, with the expected image, and with the expected source of the
  -- environment name
  pub record ContainerHolds (containers : List (ContainerKey × Json)) (change : Json) : Type 0 where
    pub container : Json
    pub found :
        container_at py (get_in "container_type" change) (get_in "container" change) containers
        ≡ some container
    pub image :
        is_text py (get_in "type" change) "set_image" ≡ true
        → equal py (get_in "image" container) (get_in "expected_image" change) ≡ true
    pub source :
        is_one_of py (get_in "type" change) env_kinds ≡ true
        → SourceHolds change (matching_env py change container)

  abbrev pub WorkloadChangeHolds : List (ContainerKey × Json) → Json → Type 0
  WorkloadChangeHolds containers change =
      is_object change ≡ true
      → is_one_of py (get_in "type" change) ("set_image" ∷ env_kinds) ≡ true
      → ContainerHolds containers change

  abbrev pub KeyChangeHolds : List Json → Json → Type 0
  KeyChangeHolds items change =
      is_object change ≡ true
      → (is_text py (get_in "type" change) "set_key" ≡ true
          → equal py (bool (is_present py (get_in "key" change) items))
              (get_in "expected_present" change)
            ≡ true)
        × (is_text py (get_in "type" change) "remove_key" ≡ true
            → is_present py (get_in "key" change) items ≡ true)

  abbrev pub Confirmed : String → JsonDict → Type 0
  Confirmed kind arguments =
      any (λ c. is_text py (get_in "type" c) kind) (objects_of (get "changes" arguments)) ≡ true
      → is_true (get "confirm_non_secret_data" arguments) ≡ true

  check_confirmed-Confirmed :
      (kind : String) (arguments : JsonDict)
      → check_confirmed py kind arguments ≡ []
      → Confirmed kind arguments
  unfolding check_confirmed
  check_confirmed-Confirmed kind arguments h asked = ground (arith, h, asked)

  source_problems-SourceHolds :
      (i : ℕ) (change : Json) (envs : List Json)
      → source_problems py i change envs ≡ []
      → SourceHolds change envs
  unfolding source_problems
  source_problems-SourceHolds i change [] h = ground (arith, h)
  source_problems-SourceHolds i change (env ∷ []) h = ground (arith, h)
  source_problems-SourceHolds i change (_ ∷ _ ∷ _) h = absurd (ground (arith, h))

  workload_change-Holds :
      (containers : List (ContainerKey × Json)) (i : ℕ) (change : Json)
      → workload_change py containers i change ≡ some []
      → is_one_of py (get_in "type" change) ("set_image" ∷ env_kinds) ≡ true
      → ContainerHolds containers change
  unfolding workload_change container_problems image_problems env_problems
  workload_change-Holds containers i change h kind =
      of (container_at py (get_in "container_type" change) (get_in "container" change) containers)
        refl (ground (arith, h, kind))
    where
      of :
          (o : Option Json)
          → container_at py (get_in "container_type" change) (get_in "container" change) containers
            ≡ o
          → (elim o [
            | none ↦ some (unknown_container i ∷ [])
            | some container ↦ some (container_problems py i change container)
          ])
            ≡ some []
          → ContainerHolds containers change
      of none found e = absurd (ground (arith, e))
      of (some container) found e =
          let both =
            none_of_two (image_problems py i change container) (env_problems py i change container)
              (ground (arith, e)) in
          record {
            container = container;
            found = found;
            image = λ t. ground (arith, both.0, t);
            source = λ t.
                source_problems-SourceHolds i change (matching_env py change container)
                  (ground (arith, both.1, t));
          }

  config_map_change-Holds :
      (items : List Json) (i : ℕ) (change : Json)
      → config_map_change py items i change ≡ some []
      → (is_text py (get_in "type" change) "set_key" ≡ true
          → equal py
              (bool (is_present py (get_in "key" change) items))
              (get_in "expected_present" change)
            ≡ true)
        × (is_text py (get_in "type" change) "remove_key" ≡ true
            → is_present py (get_in "key" change) items ≡ true)
  unfolding config_map_change
  config_map_change-Holds items i change h = (λ t. ground (arith, h, t), λ t. ground (arith, h, t))

  -- what the evidence says of the changes of a workload, and of those of a ConfigMap
  pub record WorkloadHolds (arguments : JsonDict) (target : Json) : Type 0 where
    pub confirmed : Confirmed "set_env" arguments
    pub changes :
        All (WorkloadChangeHolds (current_containers target)) (list_of (get "changes" arguments))

  pub record ConfigMapHolds (arguments : JsonDict) (facts : Json) : Type 0 where
    pub confirmed : Confirmed "set_key" arguments
    pub keys : List Json
    pub keys_read : config_map_keys (get_in "configuration" facts) ≡ some keys
    pub changes : All (KeyChangeHolds keys) (list_of (get "changes" arguments))

  pub workload_problems-Holds :
      (arguments : JsonDict) (target : Json)
      → workload_problems py arguments target ≡ some []
      → WorkloadHolds arguments target
  unfolding workload_problems workload_changes
  workload_problems-Holds arguments target h =
      of (workload_changes py arguments target) refl (ground (arith, h))
    where
      of :
          (o : Option Problems)
          → workload_changes py arguments target ≡ o
          → (elim o [
            | none ↦ none
            | some found ↦ some (check_confirmed py "set_env" arguments ++ found)
          ])
            ≡ some []
          → WorkloadHolds arguments target
      of none e k = absurd (ground (arith, k))
      of (some found) e k =
          let both =
            none_of_two (check_confirmed py "set_env" arguments) found (ground (arith, k)) in
          record {
            confirmed = check_confirmed-Confirmed "set_env" arguments both.0;
            changes =
                All-weaken _ _
                  (λ c checked object kind.
                    let (i, clear) = checked object in
                    workload_change-Holds (current_containers target) i c clear kind)
                  (list_of (get "changes" arguments))
                  (each_change-clear (workload_change py (current_containers target)) 0
                    (list_of (get "changes" arguments)) (ground (arith, e, both.1)));
          }

  pub config_map_problems-Holds :
      (arguments : JsonDict) (facts : Json)
      → config_map_problems py arguments facts ≡ some []
      → ConfigMapHolds arguments facts
  unfolding config_map_problems
  config_map_problems-Holds arguments facts =
      of (config_map_keys (get_in "configuration" facts)) refl
    where
      changes_of : List Json → Option Problems
      changes_of items =
          each_change (config_map_change py items) 0 (list_of (get "changes" arguments))

      read :
          (items : List Json)
          → config_map_keys (get_in "configuration" facts) ≡ some items
          → (o : Option Problems) → changes_of items ≡ o
          → (elim o [
            | none ↦ none
            | some found ↦ some (check_confirmed py "set_key" arguments ++ found)
          ])
            ≡ some []
          → ConfigMapHolds arguments facts
      read items keys none e k = absurd (ground (arith, k))
      read items keys (some found) e k =
          let both =
            none_of_two (check_confirmed py "set_key" arguments) found (ground (arith, k)) in
          record {
            confirmed = check_confirmed-Confirmed "set_key" arguments both.0;
            keys = items;
            keys_read = keys;
            changes =
                All-weaken _ _
                  (λ c checked object.
                    let (i, clear) = checked object in config_map_change-Holds items i c clear)
                  (list_of (get "changes" arguments))
                  (each_change-clear (config_map_change py items) 0
                    (list_of (get "changes" arguments)) (e ∙ ap some both.1));
          }

      of :
          (o : Option (List Json))
          → config_map_keys (get_in "configuration" facts) ≡ o
          → (elim o [
            | none ↦ none
            | some items ↦ elim (changes_of items) [
              | none ↦ none
              | some found ↦ some (check_confirmed py "set_key" arguments ++ found)
            ]
          ])
            ≡ some []
          → ConfigMapHolds arguments facts
      of none keys k = absurd (ground (arith, k))
      of (some items) keys k = read items keys (changes_of items) refl k
