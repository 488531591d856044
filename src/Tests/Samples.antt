-- ===== src/Tests/Samples.antt =====
-- A platform whose digest is short enough to compute, and registries on it.
use kor_travel_docker_manage.Common.{
  ℕ, zero, suc, String, true, false, ◌||◌, none, some, [], ◌∷◌, if◌then◌else◌, leb, ◌&&◌,
  is_hex_word,
}
use kor_travel_docker_manage.Json.{Json, Items, Fields, str, arr, obj, nil, cons, end, field}
use kor_travel_docker_manage.Platform.{Platform}
use kor_travel_docker_manage.Release.{release_version}
use kor_travel_docker_manage.Pins.Entries.{BlockedPinset}
use kor_travel_docker_manage.Pins.Registry.{RuntimePinRegistry}
use kor_travel_docker_manage.Pins.Rotation.{RotationRequest}

-- The first `k` characters of `s`, then what `rest` makes.
abbrev start : ℕ → String → String → String
start zero s rest = rest
start (suc k) String.[] rest = rest
start (suc k) (String.◌∷◌ c s) rest = String.◌∷◌ c (start k s rest)

-- Six characters of every revision and digest in a document.
abbrev mutual
  marks : Json → String → String
  marks (str s) rest =
      let short = start 6 s rest in if is_hex_word 40 s || is_hex_word 64 s then short else rest
  marks (arr xs) rest = items_marks xs rest
  marks (obj fs) rest = fields_marks fs rest
  marks _ rest = rest

  items_marks : Items → String → String
  items_marks nil rest = rest
  items_marks (cons x xs) rest = marks x (items_marks xs rest)

  fields_marks : Fields → String → String
  fields_marks end rest = rest
  fields_marks (field k v fs) rest = marks v (fields_marks fs rest)

abbrev zeros : String
zeros = "0000000000000000000000000000000000000000000000000000000000000000"

-- ASCII digits, the marks filled up to 64 digits, and documents of one size.
abbrev pub sample_platform : Platform
sample_platform = record {
  is_decimal = λ c. leb 48 c && leb c 57;
  sha256 = λ document. start 64 (marks document zeros) "";
  encoded_size = λ document. 4096;
  lower = λ s. s;
}

abbrev pub first_map : String
first_map = "aaaaaaaaaaaaaaaaaaaaaaaaaaaaaaaaaaaaaaaa"

abbrev pub second_map : String
second_map = "bbbbbbbbbbbbbbbbbbbbbbbbbbbbbbbbbbbbbbbb"

abbrev pub first_pinvi : String
first_pinvi = "cccccccccccccccccccccccccccccccccccccccc"

abbrev pub first_pinset : String
first_pinset = "aaaaaacccccc0000000000000000000000000000000000000000000000000000"

abbrev pub today : String
today = "2026-09-01T10:00:00Z"

abbrev pub first_registry : RuntimePinRegistry
first_registry = record {
  release_version = release_version;
  map_revision = first_map;
  pinvi_revision = first_pinvi;
  pinset_sha256 = first_pinset;
  rotated_at = "2026-08-30T09:00:00Z";
  rotated_by = "operator";
  reason = "first release";
  history = [];
  blocked_pinsets = [];
}

abbrev pub to_second : RotationRequest
to_second = record {
  map_revision = second_map;
  pinvi_revision = first_pinvi;
  reason = "next release";
  rotated_by = "operator";
  block_previous = false;
  block_reason = none;
}

abbrev pub second_registry : RuntimePinRegistry
second_registry = record {
  release_version = release_version;
  map_revision = second_map;
  pinvi_revision = first_pinvi;
  pinset_sha256 = "bbbbbbcccccc0000000000000000000000000000000000000000000000000000";
  rotated_at = today;
  rotated_by = "operator";
  reason = "next release";
  history =
      record {
        pinset_sha256 = "bbbbbbcccccc0000000000000000000000000000000000000000000000000000";
        rotated_at = today;
        rotated_by = "operator";
        reason = "next release";
        supersedes_pinset_sha256 = some first_pinset;
      }
      ∷ [];
  blocked_pinsets = [];
}

-- The request that also blocks what it supersedes.
abbrev pub to_second_closing : RotationRequest
to_second_closing = record to_second { block_previous = true }

abbrev pub first_blocked : BlockedPinset
first_blocked = record {
  pinset_sha256 = first_pinset;
  map_revision = first_map;
  pinvi_revision = first_pinvi;
  reason = "next release";
  blocked_at = today;
  phase = none;
}

abbrev pub second_closing : RuntimePinRegistry
second_closing = record second_registry { blocked_pinsets = first_blocked ∷ [] }

-- The first registry, with its own pinset blocked.
abbrev pub first_closed : RuntimePinRegistry
first_closed = record first_registry { blocked_pinsets = first_blocked ∷ [] }

abbrev pub back_to_first : RuntimePinRegistry
back_to_first = record first_registry {
  rotated_at = today;
  reason = "undo";
  history =
      record {
        pinset_sha256 = "bbbbbbcccccc0000000000000000000000000000000000000000000000000000";
        rotated_at = today;
        rotated_by = "operator";
        reason = "next release";
        supersedes_pinset_sha256 = some first_pinset;
      }
      ∷ record {
        pinset_sha256 = first_pinset;
        rotated_at = today;
        rotated_by = "operator";
        reason = "undo";
        supersedes_pinset_sha256 =
            some "bbbbbbcccccc0000000000000000000000000000000000000000000000000000";
      }
      ∷ [];
}
