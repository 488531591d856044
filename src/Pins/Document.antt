-- ===== src/Pins/Document.antt =====
-- The strict parser and the wire shape of runtime_pin_registry.py: `_parse_sources`,
-- RuntimePinRegistry.from_payload and RuntimePinRegistry.to_payload.
pub mod RoundTrip
use kor_travel_docker_manage.Common.{
  String, Bool, true, false, ◌&&◌, Option, List, [], ◌∷◌, ◌==◌, map,
}
use kor_travel_docker_manage.Common.Result.{Result, ok, err, ◌>>=◌, ◌>>◌, guard, traverse}
use kor_travel_docker_manage.Checks.{require_revision}
use kor_travel_docker_manage.Errors.{
  Error, document_not_object, document_unknown_fields, schema_unsupported, version_not_integer,
  history_not_list, blocked_not_list, sources_not_pair, source_not_object, source_fields_differ,
  source_url_not_canonical,
}
use kor_travel_docker_manage.Json.{
  Json, ℤ, Fields, null, int, str, arr, obj, end, field, nil, get, get_or, has, only, items,
  list_of,
}
use kor_travel_docker_manage.Platform.{Platform}
use kor_travel_docker_manage.Release.{map_url, pinvi_url}
use kor_travel_docker_manage.Pins.Entries.{
  BlockedPinset, PinRotation, blocked_from_payload, blocked_to_payload, rotation_from_payload,
  rotation_to_payload,
}
use kor_travel_docker_manage.Pins.Registry.{RuntimePinRegistry, new_registry}

abbrev pub schema : String
schema = "kor-travel-docker-manager.runtime-pin-registry.v1"

-- `value == "text"` for a JSON value
abbrev pub is_text : String → Json → Bool
is_text s (str t) = t == s
is_text s _ = false

-- The body of the loop of `_parse_sources`, for one role.
parse_source : (role url name : String) → Json → Result Error String
parse_source role url name (obj entry) = do
  guard
      (only ("role" ∷ "url" ∷ "revision" ∷ []) entry
        && (has "role" entry && (has "url" entry && has "revision" entry)))
      source_fields_differ
  guard (is_text role (get "role" entry)) sources_not_pair
  guard (is_text url (get "url" entry)) source_url_not_canonical
  require_revision (get "revision" entry) name
parse_source role url name _ = err source_not_object

parse_pair : List Json → Result Error (String × String)
unfolding parse_source
parse_pair (first ∷ second ∷ []) = do
  m ← parse_source "map" map_url "sources[map].revision" first
  p ← parse_source "pinvi" pinvi_url "sources[pinvi].revision" second
  ok (m, p)
parse_pair _ = err sources_not_pair

unfoldable pub parse_sources : Json → Result Error (String × String)
unfolding parse_pair
parse_sources (arr xs) = parse_pair (list_of xs)
parse_sources _ = err sources_not_pair

-- `isinstance(value, int) and not isinstance(value, bool)`
unfoldable pub as_integer : Json → Result Error ℤ
as_integer (int n) = ok n
as_integer _ = err version_not_integer

unfoldable pub as_list : Json → Error → Result Error (List Json)
as_list (arr xs) e = ok (list_of xs)
as_list _ e = err e

abbrev known_fields : List String
known_fields =
    "schema" ∷ "release_version" ∷ "sources" ∷ "pinset_sha256" ∷ "rotated_at" ∷ "rotated_by"
    ∷ "reason" ∷ "history" ∷ "blocked_pinsets" ∷ []

module _ (py : Platform) where
  -- RuntimePinRegistry.from_payload
  unfoldable pub from_payload : Json → Result Error RuntimePinRegistry
  unfolding parse_sources as_integer as_list
  from_payload (obj payload) = do
    guard (only known_fields payload) document_unknown_fields
    guard (is_text schema (get "schema" payload)) schema_unsupported
    version ← as_integer (get "release_version" payload)
    revisions ← parse_sources (get "sources" payload)
    history_payload ← as_list (get_or "history" (arr nil) payload) history_not_list
    blocked_payload ← as_list (get_or "blocked_pinsets" (arr nil) payload) blocked_not_list
    history ← traverse (rotation_from_payload py) history_payload
    blocked ← traverse (blocked_from_payload py) blocked_payload
    new_registry py version (str revisions.0) (str revisions.1) (get "pinset_sha256" payload)
        (get "rotated_at" payload) (get "rotated_by" payload) (get "reason" payload) history blocked
  from_payload _ = err document_not_object

abbrev source_entry : (role url revision : String) → Json
source_entry role url revision =
    obj (field "role" (str role) (field "url" (str url) (field "revision" (str revision) end)))

-- RuntimePinRegistry.to_payload, its fields in order and what follows them
unfoldable pub payload_fields : RuntimePinRegistry → Fields → Fields
payload_fields r rest = field "schema" (str schema) (
    field "release_version" (int r.release_version) (
      field "sources"
        (arr (
          items (
            source_entry "map" map_url r.map_revision
            ∷ source_entry "pinvi" pinvi_url r.pinvi_revision
            ∷ [])))
        (field "pinset_sha256" (str r.pinset_sha256) (
          field "rotated_at" (str r.rotated_at) (
            field "rotated_by" (str r.rotated_by) (
              field "reason" (str r.reason) (
                field "history" (arr (items (map rotation_to_payload r.history))) (
                  field "blocked_pinsets" (arr (items (map blocked_to_payload r.blocked_pinsets)))
                    rest))))))))

unfoldable pub to_payload : RuntimePinRegistry → Json
unfolding payload_fields
to_payload r = obj (payload_fields r end)
