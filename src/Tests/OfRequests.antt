-- ===== src/Tests/OfRequests.antt =====
-- The theorems on requests, applied to a request for a new revision of Map.
use kor_travel_docker_manage.Common.{
  true, false, none, some, [], ◌∷◌, String, ◌≡◌, refl, strip, len, is_empty, has_break, is_hex_word,
  arith,
}
use kor_travel_docker_manage.Common.Result.{ok, err}
use kor_travel_docker_manage.Json.{str, obj, Fields, field, end, get, only, contains}
use kor_travel_docker_manage.Checks.{is_timestamp}
use kor_travel_docker_manage.Executions.Files.{is_loose}
use kor_travel_docker_manage.Targets.{
  TargetSpec, TargetsConfig, spec_of, target_hosts, target_name, is_owned, require_targets_on_host,
  require_local_targets,
}
use kor_travel_docker_manage.Requests.{
  RequestError, RuntimePinRequest, type_error, request_schema, is_uuid4,
}
use kor_travel_docker_manage.Requests.RoundTrip.{IsRequest}
use kor_travel_docker_manage.Requests.Files.{
  RequestFile, Slot, absent, present, RequestHost, open_verified, read_request, new_file,
  exclusive_write, write_request, clear_request, discard_request,
}
use kor_travel_docker_manage.Requests.Files.Laws.{
  IsOwnDirectory, IsWritten, LacksId, write_request-IsWritten, written_request_lem,
  discard_request-keeps, no_id_blocks,
}
use kor_travel_docker_manage.Tests.Samples.{sample_platform, first_map, today}

abbrev request_id : String
request_id = "01234567-89ab-4cde-8f01-23456789abcd"

abbrev zeros : String
zeros = "0000000000000000000000000000000000000000000000000000000000000000"

abbrev ones : String
ones = "1111111111111111111111111111111111111111111111111111111111111111"

abbrev request : RuntimePinRequest
request = record {
  request_id = request_id;
  role = "map";
  revision = first_map;
  reason = "new release";
  requested_by = "admin";
  requested_at = today;
  base_pinset_sha256 = zeros;
  prospective_pinset_sha256 = ones;
  audit_event_id = str "event";
}

request-IsRequest : IsRequest sample_platform request
unfolding is_uuid4 is_hex_word is_timestamp strip len is_empty has_break
request-IsRequest = record {
  id = refl;
  of_role = refl;
  of_revision = refl;
  of_reason = record { not_empty = refl; fits = ground arith; one_line = refl };
  of_actor = record { not_empty = refl; fits = ground arith; one_line = refl };
  at = refl;
  base = refl;
  target = refl;
  changes = refl;
}

abbrev source_target : String → TargetSpec
source_target alias = record {
  aliases = alias ∷ [];
  depends_on = [];
  include = [];
  containers = [];
  host = some (str "main");
  services = [];
  runtime_services = [];
  init_steps = [];
  external = none;
}

abbrev config : TargetsConfig
config = record {
  version = 2;
  hosts = "main" ∷ [];
  containers = [];
  targets = ("map", source_target "kor-map") ∷ ("pinvi", source_target "kor-pinvi") ∷ [];
  dependency_order = "map" ∷ "pinvi" ∷ [];
}

abbrev host : RequestHost
host = record {
  parent = record { reachable = true; is_directory = true; owner = 1000; mode = 448 };
  euid = 1000;
  can_create = true;
  can_write = true;
  can_unlink = true;
  partial = record {
    can_open = true;
    regular = true;
    links = 1;
    mode = 384;
    owner = 1000;
    can_read = true;
    is_large = false;
    content = none;
  };
}

host-IsOwnDirectory : IsOwnDirectory host
unfolding is_loose
host-IsOwnDirectory = record { reached = refl; tight = refl; own = refl }

map_is_local : require_local_targets sample_platform config "main" ("map" ∷ []) ≡ ok tt
unfolding require_local_targets target_name require_targets_on_host is_owned target_hosts spec_of
    contains strip is_empty
map_is_local = refl

both_are_local : require_local_targets sample_platform config "main" ("map" ∷ "pinvi" ∷ []) ≡ ok tt
unfolding require_local_targets target_name require_targets_on_host is_owned target_hosts spec_of
    contains strip is_empty
both_are_local = refl

abbrev same : Slot → Slot
same slot = slot

request_is_written :
    write_request sample_platform config "main" host same request absent
    ≡ (ok tt, present (new_file sample_platform host request))
unfolding write_request read_request open_verified exclusive_write
request_is_written = rw (write_request, map_is_local) refl

write_request-IsWritten_example :
    IsWritten sample_platform host request absent absent
      (write_request sample_platform config "main" host same request absent)
write_request-IsWritten_example =
    write_request-IsWritten sample_platform config "main" host same request absent

request_is_read :
    read_request sample_platform host (present (new_file sample_platform host request))
    ≡ ok (some request)
request_is_read =
    (written_request_lem sample_platform config "main" host same request absent
      (present (new_file sample_platform host request)) "other" request-IsRequest
      host-IsOwnDirectory (omega arith) refl refl request_is_written).0

discard_request-keeps_example :
    (e : RequestError) × (discard_request sample_platform config "main" host
        (present (new_file sample_platform host request))
      ≡ (err e, present (new_file sample_platform host request)))
discard_request-keeps_example =
    discard_request-keeps sample_platform config "main" host request
      (present (new_file sample_platform host request)) request_is_read

-- A document with nothing but its schema.
abbrev bare : Fields
bare = field "schema" (str request_schema) end

abbrev bare_file : RequestFile
bare_file = record {
  can_open = true;
  regular = true;
  links = 1;
  mode = 384;
  owner = 1000;
  can_read = true;
  is_large = false;
  content = some (obj bare);
}

bare_file-LacksId : LacksId host bare_file bare
unfolding open_verified is_loose only contains get
bare_file-LacksId = record {
  verified = refl;
  opened = refl;
  small = refl;
  content = refl;
  known = refl;
  schema = refl;
  missing = refl;
}

no_id_blocks_example :
    (discard_request sample_platform config "main" host (present bare_file)
      ≡ (err type_error, present bare_file))
    × ((expected : String)
        → clear_request sample_platform config "main" host expected (present bare_file)
          ≡ (err type_error, present bare_file))
    × ((meanwhile : Slot → Slot) (r : RuntimePinRequest)
        → (e : RequestError) × (write_request sample_platform config "main" host meanwhile r
              (present bare_file)
            ≡ (err e, present bare_file)))
no_id_blocks_example =
    no_id_blocks sample_platform config "main" host bare_file bare bare_file-LacksId both_are_local
