-- ===== src/Pins/Entries/RoundTrip.antt =====
-- The payloads of the entries: what `to_payload` writes, the strict parsers read back, and what they
-- return is well formed.
use kor_travel_docker_manage.Common.{String, Option, none, some, ◌≡◌, refl, ◌∙◌}
use kor_travel_docker_manage.Common.Result.{ok, OnOk, OnOk-err, OnOk-guard}
use kor_travel_docker_manage.Json.{Json, str, obj, get, only}
use kor_travel_docker_manage.Platform.{Platform}
use kor_travel_docker_manage.Pins.Entries.{
  BlockedPinset, PinRotation, optional, new_blocked_pinset, new_pin_rotation, blocked_from_payload,
  rotation_from_payload, blocked_to_payload, rotation_to_payload,
}
use kor_travel_docker_manage.Pins.Entries.Laws.{
  IsBlockedPinset, IsPinRotation, new_blocked_pinset-eq-ok, new_pin_rotation-eq-ok,
  new_blocked_pinset-IsBlockedPinset, new_pin_rotation-IsPinRotation,
}

module _ (py : Platform) where
  blocked_parsed :
      (d m p r t : String) (phase : Option String)
      → blocked_from_payload py (
          blocked_to_payload (record {
            pinset_sha256 = d;
            map_revision = m;
            pinvi_revision = p;
            reason = r;
            blocked_at = t;
            phase = phase;
          }))
        ≡ new_blocked_pinset py (str d) (str m) (str p) (str r) (str t) (optional phase)
  unfolding blocked_from_payload blocked_to_payload only get
  blocked_parsed d m p r t none = refl
  blocked_parsed d m p r t (some f) = refl

  rotation_parsed :
      (d t b r : String) (previous : Option String)
      → rotation_from_payload py (
          rotation_to_payload (record {
            pinset_sha256 = d;
            rotated_at = t;
            rotated_by = b;
            reason = r;
            supersedes_pinset_sha256 = previous;
          }))
        ≡ new_pin_rotation py (str d) (str t) (str b) (str r) (optional previous)
  unfolding rotation_from_payload rotation_to_payload only get
  rotation_parsed d t b r none = refl
  rotation_parsed d t b r (some s) = refl

  -- What `to_payload` writes, the strict parser reads back.
  pub blocked_roundtrip :
      (e : BlockedPinset)
      → IsBlockedPinset py e
      → blocked_from_payload py (blocked_to_payload e) ≡ ok e
  blocked_roundtrip e v =
      blocked_parsed e.pinset_sha256 e.map_revision e.pinvi_revision e.reason e.blocked_at e.phase
      ∙ new_blocked_pinset-eq-ok py e v

  pub rotation_roundtrip :
      (e : PinRotation)
      → IsPinRotation py e
      → rotation_from_payload py (rotation_to_payload e) ≡ ok e
  rotation_roundtrip e v =
      rotation_parsed e.pinset_sha256 e.rotated_at e.rotated_by e.reason e.supersedes_pinset_sha256
      ∙ new_pin_rotation-eq-ok py e v

  pub blocked_from_payload-IsBlockedPinset :
      (v : Json) → OnOk (IsBlockedPinset py) (blocked_from_payload py v)
  unfolding blocked_from_payload
  blocked_from_payload-IsBlockedPinset (obj payload) =
      OnOk-guard (only _ payload) _ _ λ known. new_blocked_pinset-IsBlockedPinset py _ _ _ _ _ _
  blocked_from_payload-IsBlockedPinset _ = OnOk-err _

  pub rotation_from_payload-IsPinRotation :
      (v : Json) → OnOk (IsPinRotation py) (rotation_from_payload py v)
  unfolding rotation_from_payload
  rotation_from_payload-IsPinRotation (obj payload) =
      OnOk-guard (only _ payload) _ _ λ known. new_pin_rotation-IsPinRotation py _ _ _ _ _
  rotation_from_payload-IsPinRotation _ = OnOk-err _
