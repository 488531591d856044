-- ===== src/Requests/RoundTrip.antt =====
-- The parser of a request and its payload.
use kor_travel_docker_manage.Common.{true, false, ◌||◌, ◌≡◌, refl, ◌==◌, is_hex_word}
use kor_travel_docker_manage.Common.Result.{ok}
use kor_travel_docker_manage.Json.{Json, null, bool, int, real, str, arr, obj, get, only, contains}
use kor_travel_docker_manage.Platform.{Platform}
use kor_travel_docker_manage.Checks.{IsText, require_text-eq-ok, is_timestamp}
use kor_travel_docker_manage.Requests.{
  RuntimePinRequest, is_uuid4, match_text, match_role, as_text, new_request, request_fields,
  request_from_payload, audit_fields, request_to_payload,
}

pub record IsRequest (py : Platform) (r : RuntimePinRequest) : Type 0 where
  pub id : is_uuid4 r.request_id ≡ true
  pub of_role : (r.role == "map" || r.role == "pinvi") ≡ true
  pub of_revision : is_hex_word 40 r.revision ≡ true
  pub of_reason : IsText 500 r.reason
  pub of_actor : IsText 200 r.requested_by
  pub at : is_timestamp py r.requested_at ≡ true
  pub base : is_hex_word 64 r.base_pinset_sha256 ≡ true
  pub target : is_hex_word 64 r.prospective_pinset_sha256 ≡ true
  pub changes : (r.base_pinset_sha256 == r.prospective_pinset_sha256) ≡ false

only-audit_fields : (audit : Json) → only request_fields (audit_fields audit) ≡ true
unfolding only contains audit_fields
only-audit_fields null = refl
only-audit_fields (bool b) = refl
only-audit_fields (int n) = refl
only-audit_fields (real x) = refl
only-audit_fields (str s) = refl
only-audit_fields (arr xs) = refl
only-audit_fields (obj fs) = refl

get-audit_fields : (audit : Json) → get "audit_event_id" (audit_fields audit) ≡ audit
unfolding get audit_fields
get-audit_fields null = refl
get-audit_fields (bool b) = refl
get-audit_fields (int n) = refl
get-audit_fields (real x) = refl
get-audit_fields (str s) = refl
get-audit_fields (arr xs) = refl
get-audit_fields (obj fs) = refl

module _ (py : Platform) where
  -- The parser reads back, unchanged, every well-formed request that `to_payload` has written.
  pub request_roundtrip :
      (r : RuntimePinRequest)
      → IsRequest py r
      → request_from_payload py (request_to_payload r) ≡ ok r
  unfolding request_from_payload request_to_payload new_request match_text match_role as_text only
      contains get
  request_roundtrip r v =
      rw
        (
          only-audit_fields r.audit_event_id,
          v.id,
          v.of_role,
          v.of_revision,
          require_text-eq-ok r.reason "reason" 500 v.of_reason,
          require_text-eq-ok r.requested_by "requested_by" 200 v.of_actor,
          v.at,
          v.base,
          v.target,
          v.changes,
          get-audit_fields r.audit_event_id,
        )
        refl
