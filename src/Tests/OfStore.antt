-- ===== src/Tests/OfStore.antt =====
-- The theorems on the registry's files, applied to a store that holds the first sample registry.
use kor_travel_docker_manage.Common.{
  true, false, eq_iff, none, some, ◌≡◌, ◌≢◌, refl, arith, strip, len, is_empty, has_break,
}
use mathlib.Core.Bool.{false≢true}
use kor_travel_docker_manage.Common.Result.{ok}
use kor_travel_docker_manage.Checks.{is_timestamp}
use kor_travel_docker_manage.Pins.Registry.{
  RuntimePinRegistry, is_blocked_pinset, effective_blocked_pinsets,
}
use kor_travel_docker_manage.Pins.Document.{to_payload}
use kor_travel_docker_manage.Pins.Document.RoundTrip.{document_roundtrip}
use kor_travel_docker_manage.Pins.Files.{File, Host, Store, load, parse_file, read_content, written}
use kor_travel_docker_manage.Pins.Store.{
  current, verify, rotate_runtime_pin_pair, rollback_runtime_pin,
}
use kor_travel_docker_manage.Pins.Store.Laws.{IsReady, load-fresh, parse_file-written}
use kor_travel_docker_manage.Pins.Rotation.Undo.{RollbackRequest, IsRollbackRequest}
use kor_travel_docker_manage.Pins.Store.Undo.{rotation_undone}
use kor_travel_docker_manage.Pins.Store.Verified.{rotation_verified}
use kor_travel_docker_manage.Pins.Store.Cached.{IsCoherent, content_of, load-eq-parse_file}
use kor_travel_docker_manage.Tests.Samples.{
  sample_platform, first_registry, second_registry, to_second, today, first_pinset,
}
use kor_travel_docker_manage.Tests.OfPins.{first_registry-IsRegistry, rotates, IsText-operator}

abbrev pub host : Host
host = record {
  euid = some 1000;
  insecure_env = false;
  local_pair = true;
  in_install_root = false;
  is_seed = false;
  can_preserve = true;
  can_write = true;
  can_publish = true;
}

abbrev pub first_file : File
first_file = written sample_platform host 1 (to_payload first_registry)

abbrev pub first_store : Store
first_store = record {
  registry = some first_file;
  preserved = λ digest. none;
  public = none;
  cache = none;
  next_stamp = 2;
}

abbrev pub first_loaded : Store
first_loaded = record first_store { cache = some (1, first_registry) }

pub host-IsReady : IsReady host
host-IsReady = record {
  is_local = refl;
  outside = refl;
  no_seed = refl;
  preserves = refl;
  writes = refl;
  publishes = refl;
}

pub parses : parse_file sample_platform host (some first_file) ≡ ok first_registry
parses =
    parse_file-written sample_platform host 1 first_registry first_registry-IsRegistry (omega arith)

pub loads : load sample_platform host first_store ≡ (ok first_registry, first_loaded)
unfolding written
loads =
    load-fresh sample_platform host first_file (λ digest. none) none 2 first_registry refl parses

abbrev undo : RollbackRequest
undo = record { rotated_by = "operator"; reason = "operator"; at = today }

undo-IsRollbackRequest : IsRollbackRequest sample_platform undo
unfolding is_timestamp strip len is_empty has_break
undo-IsRollbackRequest = record {
  by = IsText-operator;
  reason = record { not_empty = refl; fits = omega arith; one_line = refl };
  at = refl;
}

moves : second_registry.pinset_sha256 ≢ first_registry.pinset_sha256
moves e = false≢true ((eq_iff second_registry.pinset_sha256 first_registry.pinset_sha256).1 e)

rotation_undone_example :
    ((rotate_runtime_pin_pair sample_platform host today to_second first_store).0
      ≡ ok second_registry)
    × ((r : RuntimePinRegistry) × ((rollback_runtime_pin sample_platform host today first_pinset
            "operator" "operator"
            (rotate_runtime_pin_pair sample_platform host today to_second first_store).1).0
          ≡ ok r)
        × (r.map_revision ≡ first_registry.map_revision)
        × (r.pinvi_revision ≡ first_registry.pinvi_revision)
        × (r.pinset_sha256 ≡ first_pinset)
        × (r.blocked_pinsets ≡ second_registry.blocked_pinsets))
unfolding is_blocked_pinset effective_blocked_pinsets
rotation_undone_example =
    rotation_undone sample_platform host today to_second undo first_registry second_registry
      first_store first_loaded host-IsReady first_registry-IsRegistry (omega arith) (omega arith)
      undo-IsRollbackRequest loads rotates moves refl

rotation_verified_example :
    (verify sample_platform host
      (rotate_runtime_pin_pair sample_platform host today to_second first_store).1).0
    ≡ ok (record {
      registry = second_registry;
      published_copy = current;
      current_is_blocked = false;
    })
rotation_verified_example =
    rotation_verified sample_platform host today to_second first_registry second_registry
      first_store first_loaded host-IsReady first_registry-IsRegistry (omega arith) (omega arith)
      loads rotates moves

reads : content_of sample_platform host first_file ≡ ok first_registry
unfolding read_content to_payload written
reads = document_roundtrip sample_platform first_registry first_registry-IsRegistry

first_loaded-IsCoherent : IsCoherent sample_platform host first_loaded
first_loaded-IsCoherent f stamp r there cached same = cc (reads, there, cached)

load-eq-parse_file_example :
    (load sample_platform host first_loaded).0 ≡ parse_file sample_platform host (some first_file)
unfolding written
load-eq-parse_file_example =
    load-eq-parse_file sample_platform host first_loaded first_file first_loaded-IsCoherent refl
      refl
