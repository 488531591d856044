-- ===== src/Targets/Mutation.antt =====
-- registry.py, `local_mutation_target`: what a target may change on the current host.
use kor_travel_docker_manage.Common.{
  ℕ, String, Bool, true, false, ◌&&◌, ◌||◌, not, Option, some, List, [], ◌∷◌, ◌++◌, ◌≡◌, refl, ◌∙◌,
  ap, eq_iff, eq_refl, arith, inl, inr, Bool-cases, map, All, if◌then◌else◌,
}
use kor_travel_docker_manage.Common.Result.{ok, err, OnOk, OnOk-ok, OnOk-bind}
use kor_travel_docker_manage.Json.{Json, contains}
use kor_travel_docker_manage.Platform.{Platform}
use kor_travel_docker_manage.Targets.{
  TargetSpec, TargetsConfig, spec_of, dedupe_from, is_owned, owned, require_targets_on_host,
  target_name,
}
use kor_travel_docker_manage.Targets.Sequence.{
  InitStep, TargetDetails, collect, init_steps, is_group, target_sequence, target_details,
  local_mutation_target,
}

-- No text stands twice in the list.
pub AllDistinct : List String → Type 0
AllDistinct [] = Unit
AllDistinct (x ∷ xs) = (contains x xs ≡ false) × AllDistinct xs

contains-dedupe_from :
    (x : String) (seen items : List String)
    → contains x (dedupe_from seen items) ≡ (contains x items && not (contains x seen))
unfolding dedupe_from contains
contains-dedupe_from x seen [] = refl
contains-dedupe_from x seen (item ∷ items) = elim (Bool-cases (contains item seen)) [
  | inl old ↦ rw (old, contains-dedupe_from x seen items) (ground (arith, eq_iff item x, old))
  | inr fresh ↦
      rw (fresh, contains-dedupe_from x (item ∷ seen) items) (ground (arith, eq_iff item x, fresh))
]

dedupe_from-AllDistinct : (seen items : List String) → AllDistinct (dedupe_from seen items)
unfolding dedupe_from AllDistinct contains
dedupe_from-AllDistinct seen [] = tt
dedupe_from-AllDistinct seen (item ∷ items) = elim (Bool-cases (contains item seen)) [
  | inl old ↦ rw old (dedupe_from-AllDistinct seen items)
  | inr fresh ↦ rw fresh (
    contains-dedupe_from item (item ∷ seen) items ∙ ground (arith, eq_refl item),
    dedupe_from-AllDistinct (item ∷ seen) items,
  )
]

contains-append :
    (x : String) (xs ys : List String) → contains x (xs ++ ys) ≡ (contains x xs || contains x ys)
unfolding contains
contains-append x [] ys = refl
contains-append x (y ∷ xs) ys = ground (arith, contains-append x xs ys)

module _ (config : TargetsConfig) where
  -- The host owns every one of the targets.
  pub AllOwned : Option String → List String → Type 0
  AllOwned selected names = All (λ name. is_owned config selected name ≡ ok true) names

  -- One of the targets lists the service.
  pub lists : (TargetSpec → List String) → String → List String → Bool
  lists field service [] = false
  lists field service (owner ∷ sequence) =
      (elim (spec_of config owner) [ ok spec ↦ contains service (field spec) | err e ↦ false ])
      || lists field service sequence

  -- Every step belongs to one of the targets that the host owns.
  pub StepsOwned : Option String → List InitStep → Type 0
  StepsOwned selected steps = All (λ step. is_owned config selected (step.0) ≡ ok true) steps

  owned-AllOwned :
      (selected : Option String) (names : List String)
      → OnOk (AllOwned selected) (owned config selected names)
  unfolding owned AllOwned
  owned-AllOwned selected [] = OnOk-ok [] tt
  owned-AllOwned selected (name ∷ names) = OnOk-bind (is_owned config selected name) _ λ own h.
      OnOk-bind (owned config selected names) _ λ rest hr. elim (Bool-cases own) [
        | inl mine ↦
            rw mine
              (OnOk-ok (name ∷ rest) (h ∙ ap ok mine, (owned-AllOwned selected names).at rest hr))
        | inr other ↦ rw other (OnOk-ok rest ((owned-AllOwned selected names).at rest hr))
      ]

  contains-collect :
      (iterate : List String → List String) (field : TargetSpec → List String) (service : String)
      (sequence : List String)
      → OnOk
          (λ out. contains service out ≡ lists field service sequence)
          (collect iterate config field sequence)
  unfolding collect lists contains
  contains-collect iterate field service [] = OnOk-ok [] refl
  contains-collect iterate field service (owner ∷ sequence) =
      OnOk-bind (spec_of config owner) _ λ spec h.
        OnOk-bind (collect iterate config field sequence) _ λ rest hr.
          OnOk-ok (field spec ++ rest) (
            contains-append service (field spec) rest
            ∙ rw (h, (contains-collect iterate field service sequence).at rest hr) refl)

  init_steps-StepsOwned :
      (iterate : List String → List String) (selected : Option String) (sequence : List String)
      → AllOwned selected sequence
      → OnOk (StepsOwned selected) (init_steps iterate config sequence)
  unfolding init_steps AllOwned StepsOwned
  init_steps-StepsOwned iterate selected [] a = OnOk-ok [] tt
  init_steps-StepsOwned iterate selected (owner ∷ sequence) (own, a) =
      OnOk-bind (spec_of config owner) _ λ spec h.
        OnOk-bind (init_steps iterate config sequence) _ λ rest hr. OnOk-ok _ (
          add spec.init_steps rest ((init_steps-StepsOwned iterate selected sequence a).at rest hr))
    where
      add :
          (steps : List Json) (rest : List InitStep)
          → StepsOwned selected rest
          → StepsOwned selected (map (λ step. (owner, step)) steps ++ rest)
      add [] rest r = r
      add (step ∷ steps) rest r = (own, add steps rest r)

  -- The services and the steps of a sequence of targets that the host owns.
  pub record IsLocal (selected : Option String) (d : TargetDetails) : Type 0 where
    pub targets_owned : AllOwned selected d.resolved_sequence
    pub steps_owned : StepsOwned selected d.resolved_init_steps
    pub same_services :
        (service : String)
        → contains service d.resolved_services
          ≡ lists (λ spec. spec.services) service d.resolved_sequence
    pub same_runtime_services :
        (service : String)
        → contains service d.resolved_runtime_services
          ≡ lists (λ spec. spec.runtime_services) service d.resolved_sequence
    pub services_distinct : AllDistinct d.resolved_services
    pub runtime_services_distinct : AllDistinct d.resolved_runtime_services

  target_details-IsLocal :
      (iterate : List String → List String) (selected : Option String) (name : String)
      (sequence : List String)
      → AllOwned selected sequence
      → OnOk (IsLocal selected) (target_details iterate config name sequence)
  unfolding target_details contains
  target_details-IsLocal iterate selected name sequence a =
      OnOk-bind (collect iterate config (λ spec. spec.services) sequence) _ λ services hs.
        OnOk-bind (collect iterate config (λ spec. spec.runtime_services) sequence) _ λ runtime hr.
          OnOk-bind (init_steps iterate config sequence) _ λ steps hi. OnOk-ok _ (record {
            targets_owned = a;
            steps_owned = (init_steps-StepsOwned iterate selected sequence a).at steps hi;
            same_services = λ s.
                deduped s services
                ∙ (contains-collect iterate (λ spec. spec.services) s sequence).at services hs;
            same_runtime_services = λ s.
                deduped s runtime
                ∙ (contains-collect iterate (λ spec. spec.runtime_services) s sequence).at runtime
                    hr;
            services_distinct = dedupe_from-AllDistinct [] services;
            runtime_services_distinct = dedupe_from-AllDistinct [] runtime;
          })
    where
      deduped :
          (x : String) (items : List String) → contains x (dedupe_from [] items) ≡ contains x items
      deduped x items = contains-dedupe_from x [] items ∙ ground arith

module _ (iterate : List String → List String) (config : TargetsConfig) (py : Platform) (depth : ℕ)
    (current_host : String) where
  -- What `local_mutation_target` returns stays on the current host: every target of the sequence and
  -- every owner of an init step is owned by it, and the services are exactly those that the
  -- targets of the sequence list, each of them once.
  pub local_mutation_target-IsLocal :
      (target : String) (d : TargetDetails)
      → local_mutation_target iterate config py depth current_host target ≡ ok d
      → IsLocal config (some current_host) d
  unfolding local_mutation_target
  local_mutation_target-IsLocal target d h = stays.at d h
    where
      stays :
          OnOk
            (IsLocal config (some current_host))
            (local_mutation_target iterate config py depth current_host target)
      stays = OnOk-bind (target_name py config target) _ λ name hn.
          OnOk-bind (spec_of config name) _ λ spec hs.
            OnOk-bind
              (if is_group iterate config spec
                then ok tt
                else require_targets_on_host config current_host (name ∷ []))
              _
              λ u hu.
                OnOk-bind (target_sequence iterate config depth (some current_host) name) _
                  λ all_names ha.
                    OnOk-bind (owned config (some current_host) all_names) _ λ sequence hq.
                      target_details-IsLocal config iterate (some current_host) name sequence
                        ((owned-AllOwned config (some current_host) all_names).at sequence hq)
