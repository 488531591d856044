-- ===== src/Tests/OfPins.antt =====
-- The theorems on pin registries, applied to the sample registries.
use kor_travel_docker_manage.Common.{
  true, false, none, ◌≡◌, refl, arith, strip, len, is_empty, has_break, is_hex_word,
}
use kor_travel_docker_manage.Common.Result.{ok}
use kor_travel_docker_manage.Checks.{
  IsText, is_timestamp, require_revision, require_digest, require_timestamp, require_text,
}
use kor_travel_docker_manage.Release.{compute_pinset_sha256}
use kor_travel_docker_manage.Pins.Entries.{
  new_pin_rotation, new_blocked_pinset, optional_digest, optional_text,
}
use kor_travel_docker_manage.Pins.Registry.{
  new_registry, is_blocked_pinset, effective_blocked_pinsets, is_unconditionally_blocked_pinset,
}
use kor_travel_docker_manage.Pins.Registry.Laws.{IsRegistry}
use kor_travel_docker_manage.Pins.Document.{from_payload, to_payload}
use kor_travel_docker_manage.Pins.Document.RoundTrip.{from_payload-IsRegistry, document_roundtrip}
use kor_travel_docker_manage.Pins.Rotation.{
  next_blocked, next_history, build_registry, build_pair_rotation, build_block, block_with,
  build_rollback,
}
use kor_travel_docker_manage.Pins.Rotation.Landing.{
  LandsOn, pair_rotation_lands, pair_rotation_closes,
}
use kor_travel_docker_manage.Pins.Rotation.Blocking.{BlocksOnly, block_lands}
use kor_travel_docker_manage.Pins.Rotation.Kept.{pair_rotation_stays-IsRegistry}
use kor_travel_docker_manage.Tests.Samples.{
  to_second_closing, second_closing, first_closed, back_to_first, sample_platform, second_map,
  first_pinvi, first_pinset, today, first_registry, to_second, second_registry,
}

pub IsText-operator : IsText 200 "operator"
unfolding strip len is_empty has_break
IsText-operator = record { not_empty = refl; fits = omega arith; one_line = refl }

IsText-first : IsText 500 "first release"
unfolding strip len is_empty has_break
IsText-first = record { not_empty = refl; fits = omega arith; one_line = refl }

pub first_registry-IsRegistry : IsRegistry sample_platform first_registry
unfolding is_hex_word is_timestamp
first_registry-IsRegistry = record {
  version = refl;
  map_rev = refl;
  pinvi_rev = refl;
  digest = refl;
  at = refl;
  by = IsText-operator;
  reason = IsText-first;
  history_fits = omega arith;
  blocked_fits = omega arith;
  names_pair = refl;
  history = tt;
  blocked = tt;
}

pub rotates :
    build_pair_rotation sample_platform today first_registry to_second ≡ ok second_registry
unfolding build_pair_rotation build_block block_with build_rollback next_blocked next_history
    build_registry new_registry new_pin_rotation new_blocked_pinset compute_pinset_sha256
    require_revision require_digest require_timestamp require_text is_hex_word is_timestamp strip
    len is_empty has_break is_blocked_pinset effective_blocked_pinsets optional_digest optional_text
    is_unconditionally_blocked_pinset
rotates = refl

rotates_closing :
    build_pair_rotation sample_platform today first_registry to_second_closing ≡ ok second_closing
unfolding build_pair_rotation build_block block_with build_rollback next_blocked next_history
    build_registry new_registry new_pin_rotation new_blocked_pinset compute_pinset_sha256
    require_revision require_digest require_timestamp require_text is_hex_word is_timestamp strip
    len is_empty has_break is_blocked_pinset effective_blocked_pinsets optional_digest optional_text
    is_unconditionally_blocked_pinset
rotates_closing = refl

blocks :
    build_block sample_platform today first_registry first_pinset "next release" none none none
    ≡ ok first_closed
unfolding build_pair_rotation build_block block_with build_rollback next_blocked next_history
    build_registry new_registry new_pin_rotation new_blocked_pinset compute_pinset_sha256
    require_revision require_digest require_timestamp require_text is_hex_word is_timestamp strip
    len is_empty has_break is_blocked_pinset effective_blocked_pinsets optional_digest optional_text
    is_unconditionally_blocked_pinset
blocks = refl

pub rolls_back :
    build_rollback sample_platform today second_registry first_pinset "operator" "undo"
      (λ d. ok first_registry)
    ≡ ok back_to_first
unfolding build_pair_rotation build_block block_with build_rollback next_blocked next_history
    build_registry new_registry new_pin_rotation new_blocked_pinset compute_pinset_sha256
    require_revision require_digest require_timestamp require_text is_hex_word is_timestamp strip
    len is_empty has_break is_blocked_pinset effective_blocked_pinsets optional_digest optional_text
    is_unconditionally_blocked_pinset
rolls_back = refl

pub second_registry-IsRegistry : IsRegistry sample_platform second_registry
second_registry-IsRegistry =
    pair_rotation_stays-IsRegistry sample_platform today first_registry to_second second_registry
      first_registry-IsRegistry rotates

pair_rotation_lands_example :
    LandsOn sample_platform today first_registry second_map first_pinvi second_registry
pair_rotation_lands_example =
    pair_rotation_lands sample_platform today first_registry to_second second_registry rotates

pair_rotation_closes_example :
    (is_unconditionally_blocked_pinset second_closing first_pinset ≡ true)
    × (is_blocked_pinset second_closing second_closing.pinset_sha256 ≡ false)
pair_rotation_closes_example =
    pair_rotation_closes sample_platform today first_registry to_second_closing second_closing refl
      rotates_closing

block_lands_example : BlocksOnly first_registry first_pinset none first_closed
block_lands_example =
    block_lands sample_platform today first_registry first_pinset "next release" none none none
      first_closed blocks

document_roundtrip_example :
    from_payload sample_platform (to_payload first_registry) ≡ ok first_registry
document_roundtrip_example =
    document_roundtrip sample_platform first_registry first_registry-IsRegistry

reads_back : from_payload sample_platform (to_payload first_registry) ≡ ok first_registry
reads_back = document_roundtrip sample_platform first_registry first_registry-IsRegistry

from_payload-IsRegistry_example : IsRegistry sample_platform first_registry
from_payload-IsRegistry_example =
    from_payload-IsRegistry sample_platform (to_payload first_registry) first_registry reads_back
