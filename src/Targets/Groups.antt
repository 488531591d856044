-- ===== src/Targets/Groups.antt =====
-- registry.py: the services of a target by project, one group for each `docker compose` call.
pub mod Laws
use kor_travel_docker_manage.Common.{
  ℕ, String, Bool, true, false, ◌&&◌, ◌||◌, not, Option, none, some, List, [], ◌∷◌, ◌++◌, ◌==◌, any,
  keep, if◌then◌else◌,
}
use kor_travel_docker_manage.Common.Result.{Result, ok, err, ◌>>=◌, ◌>>◌}
use kor_travel_docker_manage.Json.{contains}
use kor_travel_docker_manage.Platform.{Platform}
use kor_travel_docker_manage.Targets.{
  ExternalProject, TargetSpec, TargetsConfig, TargetError, spec_of, target_name,
}
use kor_travel_docker_manage.Targets.Sequence.{sequence_for_target}

same_files : List String → List String → Bool
same_files [] [] = true
same_files (a ∷ as') (b ∷ bs) = a == b && same_files as' bs
same_files _ _ = false

-- Equality of the keys `(project, working_dir, config_files)`, or None
unfoldable pub same_project : Option ExternalProject → Option ExternalProject → Bool
unfolding same_files
same_project none none = true
same_project (some a) (some b) =
    a.project == b.project
    && a.working_dir == b.working_dir
    && same_files a.config_files b.config_files
same_project _ _ = false

pub record ServiceGroup : Type 0 where
  pub external : Option ExternalProject
  pub services : List String

-- `if service not in grouped[key]: grouped[key].append(service)`
unfoldable pub add_services : List String → List String → List String
add_services present [] = present
add_services present (service ∷ services) =
    add_services (if contains service present then present else present ++ service ∷ []) services

-- `grouped` and `order` in one list: the groups in the order of their first target
unfoldable pub join : Option ExternalProject → List String → List ServiceGroup → List ServiceGroup
unfolding add_services
join key services [] = record { external = key; services = add_services [] services } ∷ []
join key services (g ∷ groups) =
    let rest = join key services groups in
    if same_project g.external key
    then record g { services = add_services g.services services } ∷ groups
    else g ∷ rest

-- `if not services: continue`
has_services : ServiceGroup → Bool
has_services g = elim g.services [ [] ↦ false | _ ∷ _ ↦ true ]

-- external_project_for_target, which takes a name like any other
unfoldable pub external_project_for_target :
    Platform → TargetsConfig → String → Result TargetError (Option ExternalProject)
external_project_for_target py config target = do
  name ← target_name py config target
  spec ← spec_of config name
  ok spec.external

module _ (py : Platform) (config : TargetsConfig) (field : TargetSpec → List String) where
  unfoldable pub group_services :
      List String → List ServiceGroup → Result TargetError (List ServiceGroup)
  unfolding join
  group_services [] groups = ok groups
  group_services (owner ∷ sequence) groups = do
    spec ← spec_of config owner
    external ← external_project_for_target py config owner
    group_services sequence (join external (field spec) groups)

module _ (iterate : List String → List String) (config : TargetsConfig) (py : Platform) (depth : ℕ)
    (current_host : String) where
  -- service_groups_for_target
  unfoldable pub service_groups_for_target :
      (runtime_only : Bool) → String → Result TargetError (List ServiceGroup)
  unfolding has_services
  service_groups_for_target runtime_only target = do
    sequence ← sequence_for_target iterate config py depth current_host target
    groups ←
        group_services py config
          (λ spec. if runtime_only then spec.runtime_services else spec.services) sequence []
    ok (keep has_services groups)

  -- target_is_external
  unfoldable pub target_is_external : String → Result TargetError Bool
  target_is_external target = do
    groups ← service_groups_for_target false target
    ok (any (λ g. elim g.external [ none ↦ false | some p ↦ true ]) groups)
