-- ===== src/Requests.antt =====
-- backend/src/kor_travel_docker_manager/services/runtime_pin_request.py: the request for a rotation
-- that the user interface leaves for root, its checks, its parser and its payload.
pub mod RoundTrip
pub mod Files
use Prim.Native.Char.{code}
use kor_travel_docker_manage.Common.{
  String, Bool, true, false, ◌&&◌, ◌||◌, not, List, [], ◌∷◌, ◌==◌, eqb, is_hex, is_hex_word,
  if◌then◌else◌,
}
use kor_travel_docker_manage.Common.Result.{Result, ok, err, ◌>>=◌, ◌>>◌, guard}
use kor_travel_docker_manage.Errors.{Error}
use kor_travel_docker_manage.Json.{Json, null, str, obj, Fields, end, field, get, only}
use kor_travel_docker_manage.Platform.{Platform}
use kor_travel_docker_manage.Checks.{require_text, is_timestamp, text_value}
use kor_travel_docker_manage.Pins.Document.{is_text}
use kor_travel_docker_manage.Targets.{TargetError}

-- The exceptions. `type_error` is the TypeError of a pattern that is matched against a value that is
-- no text, which is no RuntimePinRequestError; `not_local` is raised by `require_local_targets`,
-- `write_interrupted` and `unlink_failed` are OSErrors of a write and of `unlink`.
pub data RequestError : Type 0 where
  not_object unknown_fields schema_unsupported type_error id_invalid role_invalid : RequestError
  revision_invalid timestamp_invalid base_invalid prospective_invalid no_change : RequestError
  text_refused : Error → RequestError
  cannot_open parent_unreachable parent_loose not_regular many_links file_loose : RequestError
  wrong_owner unreadable too_large not_json already_pending cannot_create : RequestError
  write_interrupted still_readable unlink_failed : RequestError
  not_local : TargetError → RequestError

-- `audit_event_id` is passed on unchecked; None is `null`.
pub record RuntimePinRequest : Type 0 where
  pub request_id : String
  pub role : String
  pub revision : String
  pub reason : String
  pub requested_by : String
  pub requested_at : String
  pub base_pinset_sha256 : String
  pub prospective_pinset_sha256 : String
  pub audit_event_id : Json

-- A text of the shape `t`, in which `x` stands for `[0-9a-f]` and `v` for `[89ab]`.
has_shape : String → String → Bool
has_shape String.[] s = elim s [ String.[] ↦ true | String.◌∷◌ c rest ↦ false ]
has_shape (String.◌∷◌ t ts) String.[] = false
has_shape (String.◌∷◌ t ts) (String.◌∷◌ c s) =
    (if eqb (code t) b'x'
      then is_hex (code c)
      else if eqb (code t) b'v'
      then eqb (code c) b'8' || eqb (code c) b'9' || eqb (code c) b'a' || eqb (code c) b'b'
      else eqb (code c) (code t))
    && has_shape ts s

-- _UUID4
unfoldable pub is_uuid4 : String → Bool
unfolding has_shape
is_uuid4 s = has_shape "xxxxxxxx-xxxx-4xxx-vxxx-xxxxxxxxxxxx" s

-- `if PATTERN.fullmatch(value) is None: raise ...`
unfoldable pub match_text : (String → Bool) → RequestError → Json → Result RequestError String
match_text test e (str s) = if test s then ok s else err e
match_text test e _ = err type_error

-- `value not in RUNTIME_SOURCE_ROLES`, a tuple
unfoldable pub match_role : Json → Result RequestError String
match_role (str s) = if s == "map" || s == "pinvi" then ok s else err role_invalid
match_role _ = err role_invalid

unfoldable pub as_text : Result Error String → Json → Result RequestError String
as_text (ok checked) v = ok (text_value v)
as_text (err e) v = err (text_refused e)

-- RuntimePinRequest(...) with its `__post_init__`; the arguments are as `from_payload` finds them.
unfoldable pub new_request :
    Platform
    → (request_id role revision reason requested_by requested_at base prospective audit : Json)
    → Result RequestError RuntimePinRequest
new_request py request_id role revision reason requested_by requested_at base prospective audit = do
  the_id ← match_text is_uuid4 id_invalid request_id
  the_role ← match_role role
  the_revision ← match_text (is_hex_word 40) revision_invalid revision
  the_reason ← as_text (require_text reason "reason" 500) reason
  the_actor ← as_text (require_text requested_by "requested_by" 200) requested_by
  the_time ← match_text (is_timestamp py) timestamp_invalid requested_at
  the_base ← match_text (is_hex_word 64) base_invalid base
  the_target ← match_text (is_hex_word 64) prospective_invalid prospective
  guard (not (the_base == the_target)) no_change
  ok (record {
    request_id = the_id;
    role = the_role;
    revision = the_revision;
    reason = the_reason;
    requested_by = the_actor;
    requested_at = the_time;
    base_pinset_sha256 = the_base;
    prospective_pinset_sha256 = the_target;
    audit_event_id = audit;
  })

abbrev pub request_schema : String
request_schema = "kor-travel-docker-manager.runtime-pin-request.v1"

abbrev pub request_fields : List String
request_fields =
    "schema" ∷ "request_id" ∷ "role" ∷ "revision" ∷ "reason" ∷ "requested_by" ∷ "requested_at"
    ∷ "base_pinset_sha256" ∷ "prospective_pinset_sha256" ∷ "audit_event_id" ∷ []

-- RuntimePinRequest.from_payload
unfoldable pub request_from_payload : Platform → Json → Result RequestError RuntimePinRequest
request_from_payload py (obj payload) = do
  guard (only request_fields payload) unknown_fields
  guard (is_text request_schema (get "schema" payload)) schema_unsupported
  new_request py (get "request_id" payload) (get "role" payload) (get "revision" payload)
      (get "reason" payload) (get "requested_by" payload) (get "requested_at" payload)
      (get "base_pinset_sha256" payload) (get "prospective_pinset_sha256" payload)
      (get "audit_event_id" payload)
request_from_payload py _ = err not_object

-- `if self.audit_event_id is not None: payload["audit_event_id"] = self.audit_event_id`
unfoldable pub audit_fields : Json → Fields
audit_fields null = end
audit_fields v = field "audit_event_id" v end

-- RuntimePinRequest.to_payload
unfoldable pub request_to_payload : RuntimePinRequest → Json
unfolding audit_fields
request_to_payload r = obj (
    field "schema" (str request_schema) (
      field "request_id" (str r.request_id) (
        field "role" (str r.role) (
          field "revision" (str r.revision) (
            field "reason" (str r.reason) (
              field "requested_by" (str r.requested_by) (
                field "requested_at" (str r.requested_at) (
                  field "base_pinset_sha256" (str r.base_pinset_sha256) (
                    field "prospective_pinset_sha256" (str r.prospective_pinset_sha256)
                      (audit_fields r.audit_event_id))))))))))
