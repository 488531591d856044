-- ===== src/Targets.antt =====
-- backend/src/kor_travel_docker_manager/services/registry.py: the targets of docker-targets.yml, their
-- names, hosts, dependency sequences and services. The configuration is what
-- `load_targets_config` returns; a dict is a list of its items in order.
pub mod Sequence
pub mod Groups
pub mod Closure
pub mod Order
pub mod Validation
pub mod Resolution
pub mod Mutation
use kor_travel_docker_manage.Common.{
  ℕ, suc, String, Bool, true, false, ◌&&◌, ◌||◌, not, Option, none, some, List, [], ◌∷◌, ◌++◌, ◌==◌,
  map, any, all, keep, eqb, is_empty, strip, if◌then◌else◌,
}
use kor_travel_docker_manage.Common.Result.{Result, ok, err, ◌>>=◌, ◌>>◌, guard, traverse}
use kor_travel_docker_manage.Json.{Json, str, arr, contains, list_of}
use kor_travel_docker_manage.Platform.{Platform}

pub record ExternalProject : Type 0 where
  pub project : String
  pub working_dir : String
  pub config_files : List String

-- The fields of a target that this module reads. `host` is `none` where the key is absent.
pub record TargetSpec : Type 0 where
  pub aliases : List String
  pub depends_on : List String
  pub include : List String
  pub containers : List String
  pub host : Option Json
  pub services : List String
  pub runtime_services : List String
  pub init_steps : List Json
  pub external : Option ExternalProject

-- `hosts` are the keys of `_host_specs(config)`, `containers` those of `config["containers"]`.
pub record TargetsConfig : Type 0 where
  pub version : ℕ
  pub hosts : List String
  pub containers : List String
  pub targets : List (String × TargetSpec)
  pub dependency_order : List String

-- The exceptions: a ValueError for a name, a KeyError, TargetsConfigErrors, a
-- DeploymentContractError, and the two ways in which a computation does not end.
pub data TargetError : Type 0 where
  unknown_target missing_key host_required host_malformed host_unknown : String → TargetError
  not_owned unknown_dependency unknown_include unknown_container alias_taken : String → TargetError
  closure_unfinished include_too_deep unknown_in_order : TargetError

unfoldable pub find_spec : String → List (String × TargetSpec) → Option TargetSpec
find_spec name [] = none
find_spec name ((key, spec) ∷ rest) = if key == name then some spec else find_spec name rest

-- `config["targets"][name]`
unfoldable pub spec_of : TargetsConfig → String → Result TargetError TargetSpec
unfolding find_spec
spec_of config name = elim (find_spec name config.targets) [
  | none ↦ err (missing_key name)
  | some spec ↦ ok spec
]

-- _dedupe; `seen` holds what stands in the result already.
unfoldable pub dedupe_from : (seen items : List String) → List String
dedupe_from seen [] = []
dedupe_from seen (item ∷ items) =
    let old = contains item seen in
    let rest = dedupe_from (if old then seen else item ∷ seen) items in
    if old then rest else item ∷ rest

abbrev pub dedupe : List String → List String
dedupe = dedupe_from []

distinct : List String → Bool
distinct [] = true
distinct (x ∷ xs) = not (contains x xs) && distinct xs

-- `name if isinstance(name, list) else [name]`
host_values : Json → List Json
host_values (arr xs) = list_of xs
host_values v = v ∷ []

as_name : String → Json → Result TargetError String
as_name target (str s) = ok s
as_name target _ = err (host_malformed target)

is_all : Json → Bool
is_all (str s) = s == "all"
is_all _ = false

declared_hosts : TargetsConfig → String → Json → Result TargetError (List String)
unfolding host_values as_name distinct
declared_hosts config target value = do
  names ← traverse (as_name target) (host_values value)
  guard (not (elim names [ [] ↦ true | _ ∷ _ ↦ false ]) && distinct names) (host_malformed target)
  guard (all (λ name. contains name config.hosts) names) (host_unknown target)
  ok names

hosts_of : TargetsConfig → String → Option Json → Result TargetError (List String)
unfolding declared_hosts is_all
hosts_of config target none =
    if eqb config.version 1 then ok config.hosts else err (host_required target)
hosts_of config target (some value) =
    if is_all value then ok config.hosts else declared_hosts config target value

-- target_hosts
unfoldable pub target_hosts : TargetsConfig → String → Result TargetError (List String)
unfolding hosts_of
target_hosts config target = do spec ← spec_of config target; hosts_of config target spec.host

-- `selected in target_hosts(name, config)`, where `selected` may be None
unfoldable pub is_owned : TargetsConfig → Option String → String → Result TargetError Bool
is_owned config selected name = do
  hosts ← target_hosts config name
  ok (elim selected [ none ↦ false | some host ↦ contains host hosts ])

-- `[name for name in names if selected in target_hosts(name, config)]`
unfoldable pub owned :
    TargetsConfig → Option String → List String → Result TargetError (List String)
owned config selected [] = ok []
owned config selected (name ∷ names) = do
  own ← is_owned config selected name
  rest ← owned config selected names
  ok (if own then name ∷ rest else rest)

-- _require_targets_on_host
unfoldable pub require_targets_on_host :
    TargetsConfig → String → List String → Result TargetError Unit
require_targets_on_host config selected [] = ok tt
require_targets_on_host config selected (name ∷ names) = do
  own ← is_owned config (some selected) name
  guard own (not_owned name)
  require_targets_on_host config selected names

module _ (py : Platform) where
  -- `str(name).strip().lower()`
  abbrev pub normal : String → String
  normal name = py.lower (strip name)

  unfoldable pub answers_to : String → String × TargetSpec → Bool
  answers_to normalized (name, spec) =
      normalized == normal name || any (λ a. normalized == normal a) spec.aliases

  unfoldable pub first_name :
      String → String → List (String × TargetSpec) → Result TargetError String
  unfolding answers_to
  first_name target normalized [] = err (unknown_target target)
  first_name target normalized (item ∷ items) =
      if answers_to normalized item then ok (item.0) else first_name target normalized items

  -- _target_name_from_config; a target that is None or empty means "all".
  unfoldable pub target_name : TargetsConfig → String → Result TargetError String
  unfolding first_name
  target_name config target =
      first_name target (normal (if is_empty target then "all" else target)) config.targets

  -- require_local_targets, on the host that `current_host` returns
  unfoldable pub require_local_targets :
      TargetsConfig → String → List String → Result TargetError Unit
  require_local_targets config selected targets = do
    names ← traverse (target_name config) targets
    require_targets_on_host config selected names
