-- ===== src/Tests/OfPairs.antt =====
-- The theorems on pair rotations, applied to a disk that holds the first sample registries.
use kor_travel_docker_manage.Common.{
  true, false, Option, none, some, [], ◌∷◌, ◌≡◌, ◌≢◌, refl, arith, eq_iff, inl, inr, ends_with,
  strip, len, is_empty, has_break, is_hex_word,
}
use kor_travel_docker_manage.Common.Result.{ok, err}
use kor_travel_docker_manage.Checks.{
  is_whole_timestamp, require_digest, require_revision, timestamp, text,
}
use kor_travel_docker_manage.Pins.Registry.{RuntimePinRegistry}
use kor_travel_docker_manage.Pins.Registry.Laws.{IsRegistry}
use kor_travel_docker_manage.Pins.Files.{File, load, written}
use kor_travel_docker_manage.Pins.Document.{to_payload}
use kor_travel_docker_manage.Pins.Store.Laws.{
  assert_writable_target-ok, assert_integrity-written, load-fresh, parse_file-written,
}
use kor_travel_docker_manage.Errors.{different_target_pending}
use kor_travel_docker_manage.Executions.RoundTrip.{executions_roundtrip}
use kor_travel_docker_manage.Tests.OfPins
use kor_travel_docker_manage.Pins.Rotation.{build_pair_rotation}
use kor_travel_docker_manage.Executions.{
  ExecutionBinding, RuntimeExecutionRegistry, new_binding, new_execution_registry,
  new_execution_binding, execution_identity, bind_next, rotate_execution_source_binding,
  current_matches, ends_elsewhere, is_unconditionally_blocked_current,
}
use kor_travel_docker_manage.Executions.Document.{executions_to_payload}
use kor_travel_docker_manage.Executions.Files.{
  Directory, StateFile, private_mode, state_file, is_loose, is_foreign, assert_registry_parent,
  assert_registry_file, read_executions, load_executions,
}
use kor_travel_docker_manage.Pairs.{
  RuntimePairRotation, new_pair_rotation, pair_from_payload, pair_to_payload,
}
use kor_travel_docker_manage.Pairs.RoundTrip.{IsPair, pair_roundtrip}
use kor_travel_docker_manage.Pairs.Files.{Site, require_private_parent, read_intent}
use kor_travel_docker_manage.Pairs.Disk.{Disk}
use kor_travel_docker_manage.Pairs.Transaction.{
  Times, PairRequest, rotation_request, rolled_back_executions, RollbackRequest, normalized,
  rotate_pair_with_execution, rotate_single_role_with_execution, rollback_with_execution,
}
use kor_travel_docker_manage.Pairs.Outcome.{IsPublished, IsTarget, Outcome}
use kor_travel_docker_manage.Pairs.Atomic.{rotation_outcome}
use kor_travel_docker_manage.Pairs.Retry.{IsReadySite, IsSafe, read_pending}
use kor_travel_docker_manage.Pairs.Conflict.{other_target_refused}
use kor_travel_docker_manage.Pairs.Completion.{
  Completed, target-IsPair, rotation_completes_on_retry,
}
use kor_travel_docker_manage.Pairs.Agreement.{
  Agrees, RollsBack, rotated_pair-Agrees, rollback_lands,
}
use kor_travel_docker_manage.Pairs.Fresh.{rotation_completes}
use kor_travel_docker_manage.Pairs.Rollback.{IsRollbackTarget, rollback_completes}
use kor_travel_docker_manage.Pairs.Terminal.{IsRefusal, single_role_refused}
use kor_travel_docker_manage.Tests.Samples.{
  sample_platform, first_registry, second_registry, second_map, first_pinvi, first_pinset,
  back_to_first, today,
}
use kor_travel_docker_manage.Tests.OfPins.{first_registry-IsRegistry, second_registry-IsRegistry}
use kor_travel_docker_manage.Tests.OfStore.{
  host, first_file, first_store, host-IsReady, loads, parses,
}
use kor_travel_docker_manage.Tests.OfExecutions.{
  old_manager, executions, first_bound, executions-IsExecutionRegistry, terminal,
  terminal-IsExecutionRegistry, terminal-IsStored,
}

abbrev ready : Site
ready = record {
  process = host;
  executions_insecure = false;
  intent_insecure = false;
  can_write_executions = true;
  can_publish_executions = true;
  can_tighten = true;
  can_write_intent = true;
  can_unlink_intent = true;
  can_sync_intent = true;
}

-- The process stops before the execution registry is written.
abbrev stopping : Site
stopping = record ready { can_write_executions = false }

abbrev folder : Directory
folder = record { reachable = true; is_directory = true; owner = 1000; mode = 448 }

abbrev at : Times
at = record { rotated_at = today; bound_at = today; created_at = today; published_at = today }

abbrev execution_file : RuntimeExecutionRegistry → StateFile
execution_file r = state_file host private_mode (executions_to_payload r)

abbrev disk_with : RuntimeExecutionRegistry → Option StateFile → Disk
disk_with r intent = record {
  pins = first_store;
  executions = record {
    private_root = folder;
    public_root = folder;
    registry = some (execution_file r);
    public = none;
  };
  intent_root = folder;
  intent = intent;
}

abbrev start : Disk
start = disk_with executions none

abbrev to_second_pair : PairRequest
to_second_pair = record {
  map_revision = second_map;
  pinvi_revision = first_pinvi;
  manager_source_revision = old_manager;
  reason = "next release";
  rotated_by = "operator";
  block_previous = false;
}

abbrev second_bound : ExecutionBinding
second_bound = record {
  source_pinset_sha256 = second_registry.pinset_sha256;
  map_revision = second_registry.map_revision;
  pinvi_revision = second_registry.pinvi_revision;
  manager_source_revision = old_manager;
  execution_identity_sha256 = "bbbbbbdddddd0000000000000000000000000000000000000000000000000000";
  bound_at = today;
  bound_by = "operator";
  reason = "next release";
}

abbrev second_executions : RuntimeExecutionRegistry
second_executions = record {
  current = second_bound;
  history = first_bound ∷ second_bound ∷ [];
  blocked_executions = [];
}

abbrev target : RuntimePairRotation
target = record {
  created_at = today;
  pin_registry = second_registry;
  execution_registry = second_executions;
}

ready-IsReadySite : IsReadySite ready
ready-IsReadySite = record {
  process = host-IsReady;
  writes = refl;
  publishes = refl;
  unlinks = refl;
  syncs = refl;
}

start-IsSafe : IsSafe ready start
unfolding assert_registry_parent require_private_parent is_loose is_foreign
start-IsSafe = record {
  registry =
      assert_writable_target-ok sample_platform host first_file host-IsReady
        (assert_integrity-written sample_platform host 1 (to_payload first_registry));
  private_root = refl;
  public_root = refl;
  intent_root = refl;
}

loaded_first-IsRegistry :
    (r : RuntimePinRegistry)
    → (load sample_platform host first_store).0 ≡ ok r
    → IsRegistry sample_platform r
loaded_first-IsRegistry r h =
    let same : r ≡ first_registry = cc (loads, h) in rw same first_registry-IsRegistry

ends_today : ends_with b'Z' today ≡ true
unfolding ends_with
ends_today = refl

rotation_completes_on_retry_example :
    Completed sample_platform stopping ready at at to_second_pair start
      (rotate_pair_with_execution sample_platform stopping at to_second_pair start)
rotation_completes_on_retry_example =
    rotation_completes_on_retry sample_platform stopping ready at at to_second_pair start refl refl
      ready-IsReadySite start-IsSafe ends_today loaded_first-IsRegistry

rotation_outcome_example :
    Outcome sample_platform stopping at to_second_pair start
      (rotate_pair_with_execution sample_platform stopping at to_second_pair start)
rotation_outcome_example = rotation_outcome sample_platform stopping at to_second_pair start refl

first_load : (load sample_platform host first_store).0 ≡ ok first_registry
first_load = rw loads refl

first_executions :
    load_executions sample_platform host folder (some (execution_file executions)) ≡ ok executions
unfolding load_executions read_executions state_file assert_registry_parent assert_registry_file
    is_loose is_foreign executions_to_payload
first_executions = executions_roundtrip sample_platform executions executions-IsExecutionRegistry tt

second_built :
    build_pair_rotation sample_platform today first_registry (rotation_request to_second_pair)
    ≡ ok second_registry
second_built = OfPins.rotates

second_bound_ok :
    rotate_execution_source_binding sample_platform today executions second_registry old_manager
      "operator" "next release"
    ≡ ok second_executions
unfolding rotate_execution_source_binding bind_next new_execution_binding execution_identity
    new_binding new_execution_registry ends_elsewhere require_digest require_revision timestamp text
    is_hex_word is_whole_timestamp strip len is_empty has_break current_matches
second_bound_ok = refl

target-IsTarget : IsTarget sample_platform ready at to_second_pair start target
unfolding new_pair_rotation
target-IsTarget = record {
  current = first_registry;
  loaded = first_load;
  built = second_built;
  executions = executions;
  loaded_executions = first_executions;
  bound = second_bound_ok;
  agrees = refl;
}

target-IsPair_ready : IsPair sample_platform target
target-IsPair_ready =
    target-IsPair sample_platform ready at to_second_pair start target ends_today target-IsTarget
      loaded_first-IsRegistry

pair_roundtrip_example : pair_from_payload sample_platform (pair_to_payload target) ≡ ok target
pair_roundtrip_example = pair_roundtrip sample_platform target target-IsPair_ready

abbrev pending_file : StateFile
pending_file = state_file host private_mode (pair_to_payload target)

abbrev waiting : Disk
waiting = disk_with executions (some pending_file)

waiting-IsSafe : IsSafe ready waiting
waiting-IsSafe = record {
  registry = start-IsSafe.registry;
  private_root = start-IsSafe.private_root;
  public_root = start-IsSafe.public_root;
  intent_root = start-IsSafe.intent_root;
}

pending_read : read_intent sample_platform ready folder (some pending_file) ≡ ok (some target)
pending_read =
    read_pending sample_platform ready at target folder target-IsPair_ready start-IsSafe.intent_root

rotation_completes_example :
    let r = rotate_pair_with_execution sample_platform ready at to_second_pair start in
    (r.0 ≡ ok second_registry) × IsPublished sample_platform ready at target r.1
rotation_completes_example =
    rotation_completes sample_platform ready at to_second_pair start target ready-IsReadySite refl
      start-IsSafe refl target-IsTarget

rotated_pair-Agrees_example :
    Agrees sample_platform ready at old_manager second_registry
      (rotate_pair_with_execution sample_platform ready at to_second_pair start).1
rotated_pair-Agrees_example =
    rotated_pair-Agrees sample_platform ready at to_second_pair start second_registry refl (
      (rotation_completes sample_platform ready at to_second_pair start target ready-IsReadySite
        refl start-IsSafe refl target-IsTarget).0)

terminal_read :
    load_executions sample_platform host folder (some (execution_file terminal)) ≡ ok terminal
unfolding load_executions read_executions state_file assert_registry_parent assert_registry_file
    is_loose is_foreign executions_to_payload
terminal_read =
    executions_roundtrip sample_platform terminal terminal-IsExecutionRegistry terminal-IsStored

single_role_refused_example : IsRefusal (disk_with terminal none) (
    rotate_single_role_with_execution sample_platform ready at
      (record {
        role = "map";
        revision = second_map;
        manager_source_revision = old_manager;
        reason = "next release";
        rotated_by = "operator";
        block_previous = false;
      })
      (disk_with terminal none))
unfolding is_unconditionally_blocked_current
single_role_refused_example =
    single_role_refused sample_platform ready at
      (record {
        role = "map";
        revision = second_map;
        manager_source_revision = old_manager;
        reason = "next release";
        rotated_by = "operator";
        block_previous = false;
      })
      (disk_with terminal none) first_registry refl first_load (inr (terminal, terminal_read, refl))

-- The pins have gone ahead to the second registry, and the executions are still at the first one.
abbrev ahead_file : File
ahead_file = written sample_platform host 5 (to_payload second_registry)

abbrev ahead : Disk
ahead = record start {
  pins = record {
    registry = some ahead_file;
    preserved = λ digest. some first_file;
    public = none;
    cache = none;
    next_stamp = 6;
  };
}

abbrev undo : RollbackRequest
undo = record {
  pinset_sha256 = first_pinset;
  manager_source_revision = old_manager;
  reason = "undo";
  rotated_by = "operator";
}

other_map : target.pin_registry.map_revision ≢ first_pinvi
other_map e = cc ((eq_iff target.pin_registry.map_revision first_pinvi).1 e)

other_pinset : target.pin_registry.pinset_sha256 ≢ first_pinset
other_pinset e = cc ((eq_iff target.pin_registry.pinset_sha256 first_pinset).1 e)

undo_digest : is_hex_word 64 (normalized sample_platform ready at undo) ≡ true
unfolding is_hex_word strip
undo_digest = refl

undo_other : target.pin_registry.pinset_sha256 ≢ normalized sample_platform ready at undo
unfolding strip
undo_other = other_pinset

other_target_refused_example :
    (rotate_pair_with_execution sample_platform ready at
        (record to_second_pair { map_revision = first_pinvi })
        waiting
      ≡ (err different_target_pending, waiting))
    × (rollback_with_execution sample_platform ready at undo waiting
        ≡ (err different_target_pending, waiting))
other_target_refused_example =
    other_target_refused sample_platform ready at
      (record to_second_pair { map_revision = first_pinvi }) undo target waiting refl pending_read
      (inl other_map) undo_digest (inl undo_other)

abbrev healed : RuntimePairRotation
healed = record {
  created_at = today;
  pin_registry = back_to_first;
  execution_registry = executions;
}

ahead_loads :
    load sample_platform host ahead.pins
    ≡ (ok second_registry, record ahead.pins { cache = some (5, second_registry) })
unfolding written
ahead_loads =
    load-fresh sample_platform host ahead_file (λ digest. some first_file) none 6 second_registry
      refl
      (parse_file-written sample_platform host 5 second_registry second_registry-IsRegistry
        (omega arith))

ahead-IsSafe : IsSafe ready ahead
ahead-IsSafe = record {
  registry =
      assert_writable_target-ok sample_platform host ahead_file host-IsReady
        (assert_integrity-written sample_platform host 5 (to_payload second_registry));
  private_root = start-IsSafe.private_root;
  public_root = start-IsSafe.public_root;
  intent_root = start-IsSafe.intent_root;
}

healed-IsRollbackTarget : IsRollbackTarget sample_platform ready at undo ahead healed
unfolding new_pair_rotation rolled_back_executions current_matches is_hex_word strip
healed-IsRollbackTarget = record {
  named = refl;
  current = second_registry;
  loaded = rw ahead_loads refl;
  built = rw (ahead_loads, parses) OfPins.rolls_back;
  executions = executions;
  loaded_executions = first_executions;
  bound = refl;
  agrees = refl;
}

rollback_lands_example :
    RollsBack sample_platform ready at undo ahead back_to_first
      (rollback_with_execution sample_platform ready at undo ahead).1
rollback_lands_example = rollback_lands sample_platform ready at undo ahead back_to_first refl (
    (rollback_completes sample_platform ready at undo ahead healed ready-IsReadySite refl
      ahead-IsSafe refl healed-IsRollbackTarget).0)
