-- ===== src/Pins/Store.antt =====
-- The operations of runtime_pin_registry.py on the files: publish, write, rotate, block and roll
-- back, and the read-only verification. What was written before an error stays written.
pub mod Laws
pub mod Landing
pub mod Undo
pub mod Cached
pub mod Verified
use kor_travel_docker_manage.Common.{
  ℕ, ◌+◌, String, Bool, true, false, ◌&&◌, ◌||◌, not, Option, none, some, ◌==◌, if◌then◌else◌,
}
use kor_travel_docker_manage.Common.Result.{Result, ok, err, ◌>>=◌, ◌>>◌, guard}
use kor_travel_docker_manage.Checks.{require_digest}
use kor_travel_docker_manage.Errors.{
  Error, targets_not_local, write_failed, publish_failed, role_unknown,
}
use kor_travel_docker_manage.Json.{Json, Fields, str, obj, end, field, remove}
use kor_travel_docker_manage.Platform.{Platform}
use kor_travel_docker_manage.Pins.Registry.{RuntimePinRegistry, is_unconditionally_blocked_pinset}
use kor_travel_docker_manage.Pins.Document.{from_payload, to_payload, payload_fields}
use kor_travel_docker_manage.Pins.Files.{
  File, Host, Store, load, parse_file, read_document, written, assert_writable_target,
}
use kor_travel_docker_manage.Pins.Rotation.{
  RotationRequest, build_pair_rotation, build_role_rotation, build_block, build_rollback,
}

-- The payload of the published copy: `to_payload()` and `published_at`.
abbrev pub published_payload : RuntimePinRegistry → String → Json
published_payload r now = obj (payload_fields r (field "published_at" (str now) end))

abbrev pub update : (String → Option File) → String → File → String → Option File
update files k f j = if j == k then some f else files j

module _ (py : Platform) (host : Host) (now : String) where
  -- publish_runtime_pins, inside the handler of write_runtime_pin_registry
  publish : RuntimePinRegistry → Store → Result Error Unit × Store
  publish r s =
      if not host.local_pair
      then (err targets_not_local, s)
      else if not host.can_publish
      then (err publish_failed, s)
      else (
        ok tt,
        record s {
          public = some (written py host s.next_stamp (published_payload r now));
          next_stamp = s.next_stamp + 1;
        },
      )

  -- The replacement of the registry file, the cleared cache, and the published copy.
  replace : RuntimePinRegistry → Bool → Store → Result Error Unit × Store
  unfolding publish
  replace r wants_publish s =
      if not host.can_write
      then (err write_failed, s)
      else let s' : Store = record s {
        registry = some (written py host s.next_stamp (to_payload r));
        cache = none;
        next_stamp = s.next_stamp + 1;
      } in
        if wants_publish then publish r s' else (ok tt, s')

  -- The previous registry, if it can be read and differs, is kept under its digest.
  preserve :
      RuntimePinRegistry → Result Error RuntimePinRegistry → Store → Result Error Unit × Store
  preserve r (err e) s = (ok tt, s)
  preserve r (ok previous) s =
      if previous.pinset_sha256 == r.pinset_sha256
      then (ok tt, s)
      else if not host.can_preserve
      then (err write_failed, s)
      else (
        ok tt,
        record s {
          preserved =
              update s.preserved previous.pinset_sha256
                (written py host s.next_stamp (to_payload previous));
          next_stamp = s.next_stamp + 1;
        },
      )

  then_replace : RuntimePinRegistry → Bool → Result Error Unit × Store → Result Error Unit × Store
  unfolding replace
  then_replace r wants_publish (ok _, s) = replace r wants_publish s
  then_replace r wants_publish (err e, s) = (err e, s)

  write_checked :
      RuntimePinRegistry
      → (wants_publish preserve_previous : Bool) → Result Error Unit
      → Store
      → Result Error Unit × Store
  unfolding preserve then_replace
  write_checked r wants_publish preserve_previous (err e) s = (err e, s)
  write_checked r wants_publish false (ok _) s = replace r wants_publish s
  write_checked r wants_publish true (ok _) s = elim s.registry [
    | none ↦ replace r wants_publish s
    | some f ↦
        let (previous, s') = load py host s in then_replace r wants_publish (preserve r previous s')
  ]

  -- write_runtime_pin_registry
  unfoldable pub write :
      RuntimePinRegistry
      → (wants_publish preserve_previous : Bool) → Store
      → Result Error Unit × Store
  unfolding write_checked
  write r wants_publish preserve_previous s =
      write_checked r wants_publish preserve_previous (assert_writable_target host s.registry) s

  finish : RuntimePinRegistry → Result Error Unit × Store → Result Error RuntimePinRegistry × Store
  finish r (ok _, s) = (ok r, s)
  finish r (err e, s) = (err e, s)

  write_built :
      (preserve_previous : Bool)
      → Result Error RuntimePinRegistry × Store
      → Result Error RuntimePinRegistry × Store
  unfolding finish
  write_built preserve_previous (err e, s) = (err e, s)
  write_built preserve_previous (ok r, s) = finish r (write r true preserve_previous s)

  build_from :
      (RuntimePinRegistry → Store → Result Error RuntimePinRegistry)
      → Result Error RuntimePinRegistry × Store
      → Result Error RuntimePinRegistry × Store
  build_from build (err e, s) = (err e, s)
  build_from build (ok current, s) = (build current s, s)

  load_guarded : Result Error Unit → Store → Result Error RuntimePinRegistry × Store
  load_guarded (err e) s = (err e, s)
  load_guarded (ok _) s = load py host s

  -- The common course of the mutations: guard, load, build.
  prepare :
      (RuntimePinRegistry → Store → Result Error RuntimePinRegistry)
      → Store
      → Result Error RuntimePinRegistry × Store
  unfolding build_from load_guarded
  prepare build s = build_from build (load_guarded (assert_writable_target host s.registry) s)

  unfoldable pub rotate_runtime_pin_pair :
      RotationRequest → Store → Result Error RuntimePinRegistry × Store
  unfolding write_built prepare
  rotate_runtime_pin_pair q s =
      write_built true (prepare (λ current _. build_pair_rotation py now current q) s)

  unfoldable pub rotate_runtime_pin :
      (role revision reason rotated_by : String) (block_previous : Bool)
      → Option String
      → Store
      → Result Error RuntimePinRegistry × Store
  unfolding write_built prepare
  rotate_runtime_pin role revision reason rotated_by block_previous block_reason s =
      if role == "map" || role == "pinvi"
      then write_built true (
          prepare
            (λ current _.
              build_role_rotation py now current role revision reason rotated_by block_previous
                block_reason)
            s)
      else (err role_unknown, s)

  -- A pinset that is blocked without condition already is answered without a write.
  block_loaded :
      (pinset reason : String)
      → (m p phase : Option String) → Result Error RuntimePinRegistry × Store
      → Result Error RuntimePinRegistry × Store
  unfolding write_built
  block_loaded pinset reason m p phase (err e, s) = (err e, s)
  block_loaded pinset reason m p phase (ok current, s) =
      let built = build_block py now current pinset reason m p phase in
      if is_unconditionally_blocked_pinset current pinset
      then (built, s)
      else write_built false (built, s)

  unfoldable pub block_runtime_pinset :
      (pinset reason : String)
      → (m p phase : Option String) → Store
      → Result Error RuntimePinRegistry × Store
  unfolding block_loaded load_guarded
  block_runtime_pinset pinset reason m p phase s =
      block_loaded pinset reason m p phase (load_guarded (assert_writable_target host s.registry) s)

  -- build_runtime_pin_rollback, with the preserved copy read from its file
  unfoldable pub prepare_rollback :
      (pinset rotated_by reason : String) → Store → Result Error RuntimePinRegistry × Store
  unfolding prepare
  prepare_rollback pinset rotated_by reason s =
      prepare
        (λ current s'.
          build_rollback py now current pinset rotated_by reason
            (λ d. parse_file py host (s'.preserved d)))
        s

  unfoldable pub rollback_runtime_pin :
      (pinset rotated_by reason : String) → Store → Result Error RuntimePinRegistry × Store
  unfolding write_built prepare_rollback
  rollback_runtime_pin pinset rotated_by reason s =
      write_built true (prepare_rollback pinset rotated_by reason s)

-- What verify_runtime_pin_registry says of the published copy.
pub data Published : Type 0 where
  missing malformed current stale : Published

module _ (py : Platform) (host : Host) where
  compare_published : RuntimePinRegistry → Result Error RuntimePinRegistry → Published
  compare_published r (ok p) = if p.pinset_sha256 == r.pinset_sha256 then current else stale
  compare_published r (err e) = malformed

  without_time : Json → Json
  without_time (obj fs) = obj (remove "published_at" fs)
  without_time v = v

  published_document : RuntimePinRegistry → Result Error Json → Published
  unfolding compare_published without_time
  published_document r (ok document) = compare_published r (from_payload py (without_time document))
  published_document r (err e) = missing

  unfoldable pub published_state : RuntimePinRegistry → Option File → Published
  unfolding published_document
  published_state r file = published_document r (read_document host file)

-- The parts of verify_runtime_pin_registry's report that are not copied from the registry.
pub record Report : Type 0 where
  pub registry : RuntimePinRegistry
  pub published_copy : Published
  pub current_is_blocked : Bool

module _ (py : Platform) (host : Host) where
  report : Option File → Result Error RuntimePinRegistry → Result Error Report
  report public r = do
    registry ← r
    ok (record {
      registry = registry;
      published_copy = published_state py host registry public;
      current_is_blocked = is_unconditionally_blocked_pinset registry registry.pinset_sha256;
    })

  unfoldable pub verify : Store → Result Error Report × Store
  unfolding report
  verify s = let (r, s') = load py host s in (report s'.public r, s')
