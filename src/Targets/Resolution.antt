-- ===== src/Targets/Resolution.antt =====
-- registry.py: a name or an alias of a target, and the sequence that it leads to, in a configuration
-- that has passed the validation.
use kor_travel_docker_manage.Common.{
  ℕ, suc, String, true, false, none, List, [], ◌≡◌, refl, ◌↔◌, is_empty,
}
use kor_travel_docker_manage.Common.Result.{ok}
use kor_travel_docker_manage.Json.{contains}
use kor_travel_docker_manage.Platform.{Platform}
use kor_travel_docker_manage.Targets.{TargetSpec, TargetsConfig, spec_of, normal}
use kor_travel_docker_manage.Targets.Sequence.{is_group, sequence_for_target}
use kor_travel_docker_manage.Targets.Closure.{Reaches}
use kor_travel_docker_manage.Targets.Order.{IsIteration, IsOrdered, sequence_lem}
use kor_travel_docker_manage.Targets.Validation.{validate_references}
use kor_travel_docker_manage.Targets.Validation.Laws.{answered, alias_resolves, validated-IsWired}

module _ (iterate : List String → List String) (config : TargetsConfig) (py : Platform) (depth : ℕ)
    (current_host : String) where
  -- Where the validation of the configuration passes, every name and every alias of a target without
  -- `include`, in any spelling that is normalized to it, is answered with a sequence, on every host
  -- and for any order in which a set is iterated: it holds exactly the target, its dependencies,
  -- their dependencies, and so on, in the order of `dependency_order`.
  pub sequence_for_target_lem :
      (alias name : String) (spec : TargetSpec)
      → IsIteration iterate
      → validate_references py config ≡ ok tt
      → is_empty alias ≡ false
      → answered py (normal py alias) name config.targets ≡ true
      → spec_of config name ≡ ok spec
      → spec.include ≡ []
      → (names : List String) × (sequence_for_target iterate config py
            (suc depth)
            current_host
            alias
          ≡ ok names)
        × ((x : String) → (contains x names ≡ true) ↔ Reaches config name x)
        × IsOrdered config.dependency_order names
  unfolding sequence_for_target is_group
  sequence_for_target_lem alias name spec it valid filled own found plain =
      let (names, h, members, ordered) =
        sequence_lem iterate config depth none name spec it (validated-IsWired py config valid)
          found plain in
      (
        names,
        rw (alias_resolves py config alias name valid filled own, found, plain, h) refl,
        members,
        ordered,
      )
