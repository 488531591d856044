-- ===== src/Targets/Validation.antt =====
-- registry.py: the part of `_validate_targets_config` that checks the references between the targets
-- and their aliases. The checks of the fields of one target (`external_project`, the Dagster and the
-- origin fields) and of the wiring and the bind mounts are left out: none of them changes a value.
pub mod Laws
use kor_travel_docker_manage.Common.{
  String, Bool, true, false, ◌&&◌, ◌||◌, not, Option, none, some, List, [], ◌∷◌, ◌++◌, ◌==◌, all,
  if◌then◌else◌,
}
use kor_travel_docker_manage.Common.Result.{Result, ok, err, ◌>>=◌, ◌>>◌, guard}
use kor_travel_docker_manage.Json.{contains}
use kor_travel_docker_manage.Platform.{Platform}
use kor_travel_docker_manage.Targets.{
  TargetSpec, TargetsConfig, TargetError, spec_of, target_hosts, normal, unknown_dependency,
  unknown_include, unknown_container, alias_taken, unknown_in_order,
}

-- `name in targets`
unfoldable pub is_target : String → List (String × TargetSpec) → Bool
is_target name [] = false
is_target name ((key, spec) ∷ rest) = key == name || is_target name rest

-- `seen_aliases`
abbrev pub Owners : Type 0
Owners = List (String × String)

unfoldable pub owner_of : String → Owners → Option String
owner_of alias [] = none
owner_of alias ((a, owner) ∷ rest) = if a == alias then some owner else owner_of alias rest

-- The alias is free, or the target has it already.
unfoldable pub is_free : String → String → Owners → Bool
unfolding owner_of
is_free target alias owners = elim (owner_of alias owners) [
  | none ↦ true
  | some owner ↦ owner == target
]

module _ (py : Platform) where
  claim_aliases : String → List String → Owners → Result TargetError Owners
  claim_aliases target [] owners = ok owners
  claim_aliases target (alias ∷ aliases) owners = do
    guard (is_free target (normal py alias) owners) (alias_taken alias)
    claim_aliases target aliases ((normal py alias, target) ∷ owners)

  module _ (config : TargetsConfig) where
    -- The body of the loop over the targets
    validate_target : String × TargetSpec → Owners → Result TargetError Owners
    unfolding claim_aliases
    validate_target (name, spec) owners = do
      target_hosts config name
      guard (all (λ dep. is_target dep config.targets) spec.depends_on) (unknown_dependency name)
      guard (all (λ part. is_target part config.targets) spec.include) (unknown_include name)
      guard (all (λ c. contains c config.containers) spec.containers) (unknown_container name)
      claim_aliases name (name ∷ spec.aliases) owners

    validate_each : List (String × TargetSpec) → Owners → Result TargetError Owners
    unfolding validate_target
    validate_each [] owners = ok owners
    validate_each (item ∷ items) owners = do
      next ← validate_target item owners
      validate_each items next

    unfoldable pub validate_references : Result TargetError Unit
    unfolding validate_each
    validate_references = do
      validate_each config.targets []
      guard (all (λ name. is_target name config.targets) config.dependency_order) unknown_in_order
