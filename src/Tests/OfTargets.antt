-- ===== src/Tests/OfTargets.antt =====
-- The theorems on targets, applied to a configuration with a database, a service that depends on it,
-- and a service of another project that depends on both.
use kor_travel_docker_manage.Common.{
  true, false, Option, none, some, List, [], ◌∷◌, String, ◌≡◌, refl, ◌↔◌, strip, is_empty,
}
use kor_travel_docker_manage.Common.Result.{ok}
use kor_travel_docker_manage.Json.{str, contains}
use kor_travel_docker_manage.Targets.{
  ExternalProject, TargetSpec, TargetsConfig, spec_of, target_hosts, normal, answers_to,
  target_name, dedupe_from, is_owned, owned, require_targets_on_host,
}
use kor_travel_docker_manage.Targets.Sequence.{
  sorted, close, is_group, target_sequence, collect, sequence_for_target, target_details,
  init_steps, local_mutation_target, TargetDetails,
}
use kor_travel_docker_manage.Targets.Groups.{
  ServiceGroup, same_project, join, group_services, external_project_for_target,
  service_groups_for_target,
}
use kor_travel_docker_manage.Targets.Groups.Laws.{AllDiffer, serves, asks, service_groups_lem}
use kor_travel_docker_manage.Targets.Closure.{Reaches}
use kor_travel_docker_manage.Targets.Order.{IsIteration, IsOrdered}
use kor_travel_docker_manage.Targets.Validation.{is_target, owner_of, is_free, validate_references}
use kor_travel_docker_manage.Targets.Validation.Laws.{answered}
use kor_travel_docker_manage.Targets.Mutation.{IsLocal, local_mutation_target-IsLocal}
use kor_travel_docker_manage.Targets.Resolution.{sequence_for_target_lem}
use kor_travel_docker_manage.Tests.Samples.{sample_platform}

abbrev other_project : ExternalProject
other_project = record {
  project = "map-stack";
  working_dir = "/srv/map";
  config_files = "compose.yml" ∷ [];
}

abbrev database : TargetSpec
database = record {
  aliases = "postgres" ∷ [];
  depends_on = [];
  include = [];
  containers = "db" ∷ [];
  host = some (str "all");
  services = "postgres" ∷ [];
  runtime_services = "postgres" ∷ [];
  init_steps = [];
  external = none;
}

abbrev geo : TargetSpec
geo = record {
  aliases = "geo-api" ∷ [];
  depends_on = "db" ∷ [];
  include = [];
  containers = [];
  host = some (str "main");
  services = "geo-migrate" ∷ "geo-api" ∷ [];
  runtime_services = "geo-api" ∷ [];
  init_steps = str "migrate" ∷ [];
  external = none;
}

abbrev map_stack : TargetSpec
map_stack = record {
  aliases = [];
  depends_on = "geo" ∷ "db" ∷ [];
  include = [];
  containers = [];
  host = some (str "main");
  services = "map-api" ∷ [];
  runtime_services = "map-api" ∷ [];
  init_steps = [];
  external = some other_project;
}

abbrev config : TargetsConfig
config = record {
  version = 2;
  hosts = "main" ∷ "spare" ∷ [];
  containers = "db" ∷ [];
  targets = ("map", map_stack) ∷ ("geo", geo) ∷ ("db", database) ∷ [];
  dependency_order = "db" ∷ "geo" ∷ "map" ∷ [];
}

-- A set that is iterated as it was filled.
abbrev as_filled : List String → List String
as_filled names = names

as_filled-IsIteration : IsIteration as_filled
as_filled-IsIteration = record { visits = λ names x. refl }

config_valid : validate_references sample_platform config ≡ ok tt
unfolding validate_references target_hosts spec_of contains is_target owner_of is_free strip
config_valid = refl

config_answered :
    answered sample_platform (normal sample_platform " geo-api ") "geo" config.targets ≡ true
unfolding answered answers_to strip
config_answered = refl

sequence_for_target_lem_example :
    (names : List String) × (sequence_for_target as_filled config sample_platform 1 "main"
        " geo-api "
      ≡ ok names)
    × ((x : String) → (contains x names ≡ true) ↔ Reaches config "geo" x)
    × IsOrdered config.dependency_order names
unfolding spec_of is_empty
sequence_for_target_lem_example =
    sequence_for_target_lem as_filled config sample_platform 0 "main" " geo-api " "geo" geo
      as_filled-IsIteration config_valid refl config_answered refl refl

map_sequence :
    sequence_for_target as_filled config sample_platform 1 "main" "map"
    ≡ ok ("db" ∷ "geo" ∷ "map" ∷ [])
unfolding sequence_for_target target_name target_sequence spec_of close sorted contains is_empty
    strip
map_sequence = refl

abbrev map_groups : List ServiceGroup
map_groups =
    record { external = none; services = "postgres" ∷ "geo-migrate" ∷ "geo-api" ∷ [] }
    ∷ record { external = some other_project; services = "map-api" ∷ [] }
    ∷ []

map_grouped :
    service_groups_for_target as_filled config sample_platform 1 "main" false "map" ≡ ok map_groups
unfolding service_groups_for_target group_services join same_project spec_of contains
    external_project_for_target target_name strip is_empty
map_grouped = rw map_sequence refl

service_groups_lem_example :
    AllDiffer map_groups
    × ((key : Option ExternalProject) (service : String)
        → serves key service map_groups
          ≡ asks sample_platform config
              (λ spec. spec.services)
              key
              service
              ("db" ∷ "geo" ∷ "map" ∷ []))
service_groups_lem_example =
    service_groups_lem as_filled config sample_platform 1 "main" false "map"
      ("db" ∷ "geo" ∷ "map" ∷ []) map_groups map_sequence map_grouped

abbrev geo_details : TargetDetails
geo_details = record {
  id = "geo";
  resolved_sequence = "db" ∷ "geo" ∷ [];
  resolved_services = "postgres" ∷ "geo-migrate" ∷ "geo-api" ∷ [];
  resolved_runtime_services = "postgres" ∷ "geo-api" ∷ [];
  resolved_init_steps = ("geo", str "migrate") ∷ [];
}

geo_local : local_mutation_target as_filled config sample_platform 1 "main" "geo" ≡ ok geo_details
unfolding local_mutation_target target_name is_group require_targets_on_host is_owned target_hosts
    owned target_sequence target_details collect init_steps dedupe_from spec_of close sorted
    contains is_empty strip
geo_local = refl

local_mutation_target-IsLocal_example : IsLocal config (some "main") geo_details
local_mutation_target-IsLocal_example =
    local_mutation_target-IsLocal as_filled config sample_platform 1 "main" "geo" geo_details
      geo_local
