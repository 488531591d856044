-- ===== src/Pins/Registry.antt =====
-- RuntimePinRegistry of runtime_pin_registry.py: the registry with its `__post_init__` checks, and
-- the block list with the floor that the code owns.
pub mod Laws
use kor_travel_docker_manage.Common.{
  ℕ, String, Bool, true, false, ◌&&◌, not, Option, none, some, List, [], ◌∷◌, ◌++◌, ◌==◌, length,
  any, keep, ltb, eqb,
}
use kor_travel_docker_manage.Common.Result.{Result, ok, err, ◌>>=◌, ◌>>◌, guard}
use kor_travel_docker_manage.Checks.{
  text_value, require_text, require_revision, require_digest, require_timestamp,
}
use kor_travel_docker_manage.Errors.{
  Error, unsupported_version, history_too_long, blocked_too_long, pinset_digest_differs,
}
use kor_travel_docker_manage.Json.{Json, ℤ}
use kor_travel_docker_manage.Platform.{Platform}
use kor_travel_docker_manage.Release.{compute_pinset_sha256, release_version}
use kor_travel_docker_manage.Pins.Entries.{
  BlockedPinset, PinRotation, max_reason_length, max_actor_length,
}

abbrev pub max_history_entries : ℕ
max_history_entries = 500

abbrev pub max_blocked_entries : ℕ
max_blocked_entries = 500

pub record RuntimePinRegistry : Type 0 where
  pub release_version : ℤ
  pub map_revision : String
  pub pinvi_revision : String
  pub pinset_sha256 : String
  pub rotated_at : String
  pub rotated_by : String
  pub reason : String
  pub history : List PinRotation
  pub blocked_pinsets : List BlockedPinset

-- `version == 5`
abbrev pub is_supported : ℤ → Bool
is_supported (ℤ.pos n) = eqb n 5
is_supported (ℤ.negsuc n) = false

module _ (py : Platform) where
  -- RuntimePinRegistry(...) with its `__post_init__`
  unfoldable pub new_registry :
      (version : ℤ) (map_revision pinvi_revision pinset_sha256 rotated_at rotated_by reason : Json)
      → List PinRotation
      → List BlockedPinset
      → Result Error RuntimePinRegistry
  new_registry version map_rev pinvi_rev pinset rotated_at rotated_by reason history blocked = do
    guard (is_supported version) unsupported_version
    m ← require_revision map_rev "sources[map].revision"
    p ← require_revision pinvi_rev "sources[pinvi].revision"
    digest ← require_digest pinset "pinset_sha256"
    at ← require_timestamp py rotated_at "rotated_at"
    require_text rotated_by "rotated_by" max_actor_length
    require_text reason "reason" max_reason_length
    guard (not (ltb max_history_entries (length history))) history_too_long
    guard (not (ltb max_blocked_entries (length blocked))) blocked_too_long
    expected ← compute_pinset_sha256 py version m p
    guard (digest == expected) pinset_digest_differs
    ok (record {
      release_version = version;
      map_revision = m;
      pinvi_revision = p;
      pinset_sha256 = digest;
      rotated_at = at;
      rotated_by = text_value rotated_by;
      reason = text_value reason;
      history = history;
      blocked_pinsets = blocked;
    })

-- _CODE_ENFORCED_BLOCKED_PINSETS
abbrev pub d9_pinset : String
d9_pinset = "d9aded44779114ed0595d3a4fb50908efb56b57c85148faf3083b0087a35e898"

abbrev pub d9_entry : BlockedPinset
d9_entry = record {
  pinset_sha256 = d9_pinset;
  map_revision = "14d18230e5a9ff21caf26d6abe37aed1e4944685";
  pinvi_revision = "93296aee5d47676e6b9b79303bf417c598a273ac";
  phase = some "map_runtime_ready";
  reason =
      "lifecycle receipt schema 도입 전 PinVi role topology failure로 끝난 historical candidate (코드가 강제하는 차단 하한선)";
  blocked_at = "2026-08-27T09:26:00Z";
}

abbrev pub code_enforced : List BlockedPinset
code_enforced = d9_entry ∷ []

-- equality of two `str | None`
abbrev pub same_phase : Option String → Option String → Bool
same_phase none none = true
same_phase none (some b) = false
same_phase (some a) none = false
same_phase (some a) (some b) = a == b

abbrev pub is_none : Option String → Bool
is_none none = true
is_none (some s) = false

-- `(entry.pinset_sha256, entry.phase) in declared`
is_declared : List BlockedPinset → BlockedPinset → Bool
is_declared declared e =
    any (λ d. d.pinset_sha256 == e.pinset_sha256 && same_phase d.phase e.phase) declared

unfoldable pub effective_blocked_pinsets : RuntimePinRegistry → List BlockedPinset
unfolding is_declared
effective_blocked_pinsets r =
    r.blocked_pinsets ++ keep (λ e. not (is_declared r.blocked_pinsets e)) code_enforced

unfoldable pub is_blocked_pinset : RuntimePinRegistry → String → Bool
unfolding effective_blocked_pinsets
is_blocked_pinset r pinset = any (λ e. e.pinset_sha256 == pinset) (effective_blocked_pinsets r)

unfoldable pub is_unconditionally_blocked_pinset : RuntimePinRegistry → String → Bool
unfolding effective_blocked_pinsets
is_unconditionally_blocked_pinset r pinset =
    any (λ e. e.pinset_sha256 == pinset && is_none e.phase) (effective_blocked_pinsets r)
