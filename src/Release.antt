-- ===== src/Release.antt =====
-- backend/src/kor_travel_docker_manager/services/pinned_runtime_release.py: the two pinned source
-- repositories, and the digest that names a pair of their revisions.
use kor_travel_docker_manage.Common.{
  String, true, Option, none, some, List, [], ◌∷◌, ◌≡◌, ◌==◌, is_hex_word, if◌then◌else◌, map,
}
use kor_travel_docker_manage.Common.Result.{Result, ok, err, ◌>>=◌, ◌>>◌, guard}
use kor_travel_docker_manage.Errors.{
  Error, source_role_invalid, source_url_differs, source_revision_invalid,
}
use kor_travel_docker_manage.Json.{Json, ℤ, int, str, arr, obj, end, field, items}
use kor_travel_docker_manage.Platform.{Platform}

abbrev pub release_version : ℤ
release_version = ℤ.pos 5

abbrev pub map_url : String
map_url = "https://github.com/digitie/kor-travel-map.git"

abbrev pub pinvi_url : String
pinvi_url = "https://github.com/digitie/pinvi.git"

-- CANONICAL_RUNTIME_SOURCE_URLS.get(role)
unfoldable pub canonical_source_url : String → Option String
canonical_source_url role =
    if role == "map" then some map_url else if role == "pinvi" then some pinvi_url else none

pub record SourceSpec : Type 0 where
  pub role : String
  pub canonical_url : String
  pub revision : String

check_spec : Option String → SourceSpec → Result Error SourceSpec
check_spec none spec = err source_role_invalid
check_spec (some url) spec = do
  guard (spec.canonical_url == url) source_url_differs
  guard (is_hex_word 40 spec.revision) source_revision_invalid
  ok spec

-- PinnedRuntimeSourceSpec.__post_init__
new_source_spec : SourceSpec → Result Error SourceSpec
unfolding canonical_source_url check_spec
new_source_spec spec = check_spec (canonical_source_url spec.role) spec

-- PinnedRuntimeSourceSpec.to_payload
abbrev pub source_payload : SourceSpec → Json
source_payload spec = obj (
    field "role" (str spec.role)
      (field "url" (str spec.canonical_url) (field "revision" (str spec.revision) end)))

unfoldable pub source_specs_for : String → String → Result Error (List SourceSpec)
unfolding new_source_spec
source_specs_for map_revision pinvi_revision = do
  map_spec ←
      new_source_spec (record { role = "map"; canonical_url = map_url; revision = map_revision })
  pinvi_spec ←
      new_source_spec
        (record { role = "pinvi"; canonical_url = pinvi_url; revision = pinvi_revision })
  ok (map_spec ∷ pinvi_spec ∷ [])

-- The document that `canonical_pinset_bytes` encodes.
abbrev pub pinset_document : ℤ → List SourceSpec → Json
pinset_document version sources =
    obj (
      field "version" (int version)
        (field "sources" (arr (items (map source_payload sources))) end))

abbrev pub canonical_pinset_sha256 : Platform → ℤ → List SourceSpec → String
canonical_pinset_sha256 py version sources = py.sha256 (pinset_document version sources)

-- runtime_pin_registry._compute_pinset_sha256
unfoldable pub compute_pinset_sha256 : Platform → ℤ → String → String → Result Error String
unfolding source_specs_for
compute_pinset_sha256 py version map_revision pinvi_revision = do
  sources ← source_specs_for map_revision pinvi_revision
  ok (canonical_pinset_sha256 py version sources)

-- The digest of a pair of well-formed revisions.
abbrev pub pair_digest : Platform → ℤ → String → String → String
pair_digest py version map_revision pinvi_revision = canonical_pinset_sha256 py version (
    record { role = "map"; canonical_url = map_url; revision = map_revision }
    ∷ record { role = "pinvi"; canonical_url = pinvi_url; revision = pinvi_revision }
    ∷ [])

-- For two well-formed revisions the digest exists and is that of the two source documents.
pub compute_pinset_sha256-eq :
    (py : Platform) (version : ℤ) (m p : String)
    → is_hex_word 40 m ≡ true
    → is_hex_word 40 p ≡ true
    → compute_pinset_sha256 py version m p ≡ ok (pair_digest py version m p)
unfolding compute_pinset_sha256
compute_pinset_sha256-eq py version m p hm hp = rw (hm, hp)
