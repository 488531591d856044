-- ===== src/Pins/Entries.antt =====
-- BlockedPinset and PinRotation of runtime_pin_registry.py: the entries of the block list and of
-- the rotation history, their `__post_init__` checks and their payloads.
pub mod Laws
pub mod RoundTrip
use kor_travel_docker_manage.Common.{
  ℕ, String, Option, none, some, List, [], ◌∷◌, ◌==◌, if◌then◌else◌,
}
use kor_travel_docker_manage.Common.Result.{Result, ok, err, ◌>>=◌, ◌>>◌, guard}
use kor_travel_docker_manage.Checks.{
  text_value, require_text, require_revision, require_digest, require_timestamp,
}
use kor_travel_docker_manage.Errors.{
  Error, blocked_not_object, blocked_unknown_fields, blocked_digest_differs,
  history_entry_not_object, history_unknown_fields,
}
use kor_travel_docker_manage.Json.{Json, Fields, null, str, obj, end, field, get, only}
use kor_travel_docker_manage.Platform.{Platform}
use kor_travel_docker_manage.Release.{compute_pinset_sha256, release_version}

abbrev pub max_reason_length : ℕ
max_reason_length = 500

abbrev pub max_actor_length : ℕ
max_actor_length = 200

pub record BlockedPinset : Type 0 where
  pub pinset_sha256 : String
  pub map_revision : String
  pub pinvi_revision : String
  pub reason : String
  pub blocked_at : String
  pub phase : Option String

pub record PinRotation : Type 0 where
  pub pinset_sha256 : String
  pub rotated_at : String
  pub rotated_by : String
  pub reason : String
  pub supersedes_pinset_sha256 : Option String

-- `str | None` as JSON
abbrev pub optional : Option String → Json
optional none = null
optional (some s) = str s

-- `if self.phase is not None: _require_text(self.phase, ...)`
unfoldable pub optional_text : Json → String → ℕ → Result Error (Option String)
optional_text null name n = ok none
optional_text v name n = do require_text v name n; ok (some (text_value v))

unfoldable pub optional_digest : Json → String → Result Error (Option String)
optional_digest null name = ok none
optional_digest v name = do digest ← require_digest v name; ok (some digest)

module _ (py : Platform) where
  -- BlockedPinset(...) with its `__post_init__`: the digest is computed again from the revisions.
  unfoldable pub new_blocked_pinset :
      (pinset_sha256 map_revision pinvi_revision reason blocked_at phase : Json)
      → Result Error BlockedPinset
  new_blocked_pinset pinset_sha256 map_revision pinvi_revision reason blocked_at phase = do
    pinset ← require_digest pinset_sha256 "blocked_pinsets[].pinset_sha256"
    map_rev ← require_revision map_revision "blocked_pinsets[].map_revision"
    pinvi_rev ← require_revision pinvi_revision "blocked_pinsets[].pinvi_revision"
    require_text reason "blocked_pinsets[].reason" max_reason_length
    at ← require_timestamp py blocked_at "blocked_pinsets[].blocked_at"
    scope ← optional_text phase "blocked_pinsets[].phase" max_actor_length
    expected ← compute_pinset_sha256 py release_version map_rev pinvi_rev
    guard (pinset == expected) blocked_digest_differs
    ok (record {
      pinset_sha256 = pinset;
      map_revision = map_rev;
      pinvi_revision = pinvi_rev;
      reason = text_value reason;
      blocked_at = at;
      phase = scope;
    })

  -- BlockedPinset.from_payload
  unfoldable pub blocked_from_payload : Json → Result Error BlockedPinset
  unfolding new_blocked_pinset
  blocked_from_payload (obj payload) = do
    guard
        (only
          ("pinset_sha256" ∷ "map_revision" ∷ "pinvi_revision" ∷ "reason" ∷ "blocked_at" ∷ "phase"
            ∷ [])
          payload)
        blocked_unknown_fields
    new_blocked_pinset (get "pinset_sha256" payload) (get "map_revision" payload)
        (get "pinvi_revision" payload) (get "reason" payload) (get "blocked_at" payload)
        (get "phase" payload)
  blocked_from_payload _ = err blocked_not_object

  -- PinRotation(...) with its `__post_init__`
  unfoldable pub new_pin_rotation :
      (pinset_sha256 rotated_at rotated_by reason supersedes : Json) → Result Error PinRotation
  new_pin_rotation pinset_sha256 rotated_at rotated_by reason supersedes = do
    pinset ← require_digest pinset_sha256 "history[].pinset_sha256"
    at ← require_timestamp py rotated_at "history[].rotated_at"
    require_text rotated_by "history[].rotated_by" max_actor_length
    require_text reason "history[].reason" max_reason_length
    previous ← optional_digest supersedes "history[].supersedes_pinset_sha256"
    ok (record {
      pinset_sha256 = pinset;
      rotated_at = at;
      rotated_by = text_value rotated_by;
      reason = text_value reason;
      supersedes_pinset_sha256 = previous;
    })

  -- PinRotation.from_payload
  unfoldable pub rotation_from_payload : Json → Result Error PinRotation
  unfolding new_pin_rotation
  rotation_from_payload (obj payload) = do
    guard
        (only
          ("pinset_sha256" ∷ "rotated_at" ∷ "rotated_by" ∷ "reason" ∷ "supersedes_pinset_sha256"
            ∷ [])
          payload)
        history_unknown_fields
    new_pin_rotation (get "pinset_sha256" payload) (get "rotated_at" payload)
        (get "rotated_by" payload) (get "reason" payload) (get "supersedes_pinset_sha256" payload)
  rotation_from_payload _ = err history_entry_not_object

-- The last field of a payload, which is left out where the value is `None`.
abbrev pub optional_field : String → Option String → Fields
optional_field name none = end
optional_field name (some s) = field name (str s) end

-- BlockedPinset.to_payload
unfoldable pub blocked_to_payload : BlockedPinset → Json
blocked_to_payload e = obj (
    field "pinset_sha256" (str e.pinset_sha256) (
      field "map_revision" (str e.map_revision) (
        field "pinvi_revision" (str e.pinvi_revision) (
          field "reason" (str e.reason)
            (field "blocked_at" (str e.blocked_at) (optional_field "phase" e.phase))))))

-- PinRotation.to_payload
unfoldable pub rotation_to_payload : PinRotation → Json
rotation_to_payload e = obj (
    field "pinset_sha256" (str e.pinset_sha256) (
      field "rotated_at" (str e.rotated_at) (
        field "rotated_by" (str e.rotated_by) (
          field "reason" (str e.reason)
            (optional_field "supersedes_pinset_sha256" e.supersedes_pinset_sha256)))))
