-- ===== src/Pins/Rotation.antt =====
-- The operations of runtime_pin_registry.py that build the next registry and write nothing:
-- build_registry, build_runtime_pin_pair_rotation, and the pure parts of block_runtime_pinset,
-- build_runtime_pin_rollback and rotate_runtime_pin. `now` is the reading of `utc_timestamp()`.
pub mod Laws
pub mod Blocks
pub mod Landing
pub mod Rollback
pub mod Undo
pub mod Kept
pub mod Blocking
use kor_travel_docker_manage.Common.{
  String, Bool, true, false, ◌&&◌, ◌||◌, not, Option, none, some, List, [], ◌∷◌, ◌++◌, ◌==◌, any,
  is_empty, take_last, if◌then◌else◌,
}
use kor_travel_docker_manage.Common.Result.{Result, ok, err, ◌>>=◌, ◌>>◌, guard}
use kor_travel_docker_manage.Checks.{require_text, require_revision, require_digest}
use kor_travel_docker_manage.Errors.{
  Error, rotation_changes_nothing, rotation_target_blocked, role_unknown, pair_rotation_required,
  block_needs_revisions, rollback_to_current, rollback_target_blocked, preserved_digest_differs,
}
use kor_travel_docker_manage.Json.{ℤ, null, str}
use kor_travel_docker_manage.Platform.{Platform}
use kor_travel_docker_manage.Release.{compute_pinset_sha256}
use kor_travel_docker_manage.Pins.Entries.{
  BlockedPinset, PinRotation, max_reason_length, new_blocked_pinset, new_pin_rotation, optional,
}
use kor_travel_docker_manage.Pins.Registry.{
  RuntimePinRegistry, max_history_entries, new_registry, is_blocked_pinset,
  is_unconditionally_blocked_pinset,
}

-- `a or b` for `a : str | None`
abbrev pub or_else : Option String → String → String
or_else none b = b
or_else (some a) b = if is_empty a then b else a

-- `(map_revision, pinvi_revision) == (current.map_revision, current.pinvi_revision)`
abbrev pub is_current_pair : RuntimePinRegistry → (m p : String) → Bool
is_current_pair current m p = m == current.map_revision && p == current.pinvi_revision

-- The list as it is, the code's floor, or an entry that this rotation adds.
abbrev pub is_closed_target : RuntimePinRegistry → List BlockedPinset → String → Bool
is_closed_target current blocked pinset =
    is_blocked_pinset current pinset || any (λ e. e.pinset_sha256 == pinset) blocked

-- What an operator gives to a rotation.
pub record RotationRequest : Type 0 where
  pub map_revision : String
  pub pinvi_revision : String
  pub reason : String
  pub rotated_by : String
  pub block_previous : Bool
  pub block_reason : Option String

module _ (py : Platform) (now : String) where
  -- build_registry with `rotated_at` given: the digest is computed, never written by hand.
  unfoldable pub build_registry :
      (version : ℤ) (map_revision pinvi_revision rotated_by reason : String)
      → List PinRotation
      → List BlockedPinset
      → Result Error RuntimePinRegistry
  build_registry version map_revision pinvi_revision rotated_by reason history blocked = do
    m ← require_revision (str map_revision) "sources[map].revision"
    p ← require_revision (str pinvi_revision) "sources[pinvi].revision"
    digest ← compute_pinset_sha256 py version m p
    new_registry py version (str m) (str p) (str digest) (str now) (str rotated_by) (str reason)
        history blocked

  -- The block list of the next registry: the current pinset joins it on request, unless it is
  -- blocked without condition already.
  unfoldable pub next_blocked :
      RuntimePinRegistry → RotationRequest → Result Error (List BlockedPinset)
  next_blocked current q =
      if q.block_previous && not (is_unconditionally_blocked_pinset current current.pinset_sha256)
      then (do
        reason ←
            require_text (str (or_else q.block_reason q.reason)) "block reason" max_reason_length
        entry ←
            new_blocked_pinset py (str current.pinset_sha256) (str current.map_revision)
              (str current.pinvi_revision) (str reason) (str now) null
        ok (current.blocked_pinsets ++ entry ∷ []))
      else ok current.blocked_pinsets

  -- `(*current.history, PinRotation(...))[-_MAX_HISTORY_ENTRIES:]`
  unfoldable pub next_history :
      RuntimePinRegistry → (pinset rotated_by reason : String) → Result Error (List PinRotation)
  next_history current pinset rotated_by reason = do
    entry ←
        new_pin_rotation py (str pinset) (str now) (str rotated_by) (str reason)
          (str current.pinset_sha256)
    ok (take_last max_history_entries (current.history ++ entry ∷ []))

  -- build_runtime_pin_pair_rotation
  unfoldable pub build_pair_rotation :
      RuntimePinRegistry → RotationRequest → Result Error RuntimePinRegistry
  build_pair_rotation current q = do
    m ← require_revision (str q.map_revision) "map revision"
    p ← require_revision (str q.pinvi_revision) "pinvi revision"
    guard (not (is_current_pair current m p)) rotation_changes_nothing
    blocked ← next_blocked current q
    next_pinset ← compute_pinset_sha256 py current.release_version m p
    guard (not (is_closed_target current blocked next_pinset)) rotation_target_blocked
    history ← next_history current next_pinset q.rotated_by q.reason
    build_registry current.release_version m p q.rotated_by q.reason history blocked

  -- rotate_runtime_pin between the load and the write: one role of a pair. (The test of the role
  -- itself stands before the load.)
  unfoldable pub build_role_rotation :
      RuntimePinRegistry
      → (role revision reason rotated_by : String) (block_previous : Bool) → Option String
      → Result Error RuntimePinRegistry
  build_role_rotation current role revision reason rotated_by block_previous block_reason = do
    guard (not (is_unconditionally_blocked_pinset current current.pinset_sha256))
        pair_rotation_required
    rev ← require_revision (str revision) "revision"
    build_pair_rotation current (record {
      map_revision = if role == "map" then rev else current.map_revision;
      pinvi_revision = if role == "pinvi" then rev else current.pinvi_revision;
      reason = reason;
      rotated_by = rotated_by;
      block_previous = block_previous;
      block_reason = block_reason;
    })

  -- `map_revision or current.map_revision`, which applies to the current pinset only
  abbrev pub or_current : Bool → Option String → String → Option String
  or_current is_current given own = if is_current then some (or_else given own) else given

  unfoldable pub block_with :
      RuntimePinRegistry
      → (pinset reason : String) → Option String
      → (m p : Option String) → Result Error RuntimePinRegistry
  block_with current pinset reason phase (some m) (some p) =
      if is_unconditionally_blocked_pinset current pinset then ok current else (do
        entry ←
            new_blocked_pinset py (str pinset) (str m) (str p) (str reason) (str now)
              (optional phase)
        new_registry py current.release_version (str current.map_revision)
            (str current.pinvi_revision) (str current.pinset_sha256) (str current.rotated_at)
            (str current.rotated_by) (str current.reason) current.history
            (current.blocked_pinsets ++ entry ∷ []))
  block_with current pinset reason phase _ _ = err block_needs_revisions

  -- block_runtime_pinset between the load and the write
  unfoldable pub build_block :
      RuntimePinRegistry
      → (pinset_sha256 reason : String) (map_revision pinvi_revision phase : Option String)
      → Result Error RuntimePinRegistry
  unfolding block_with
  build_block current pinset_sha256 reason map_revision pinvi_revision phase = do
    pinset ← require_digest (str pinset_sha256) "pinset_sha256"
    let is_current = pinset == current.pinset_sha256
    block_with current pinset reason phase (or_current is_current map_revision current.map_revision)
        (or_current is_current pinvi_revision current.pinvi_revision)

  -- build_runtime_pin_rollback after the load; `preserved` reads the copy that is kept under the
  -- digest.
  unfoldable pub build_rollback :
      RuntimePinRegistry
      → (pinset_sha256 rotated_by reason : String) → (String → Result Error RuntimePinRegistry)
      → Result Error RuntimePinRegistry
  build_rollback current pinset_sha256 rotated_by reason read_preserved = do
    pinset ← require_digest (str pinset_sha256) "pinset_sha256"
    guard (not (pinset == current.pinset_sha256)) rollback_to_current
    guard (not (is_blocked_pinset current pinset)) rollback_target_blocked
    preserved ← read_preserved pinset
    guard (preserved.pinset_sha256 == pinset) preserved_digest_differs
    history ← next_history current pinset rotated_by reason
    build_registry preserved.release_version preserved.map_revision preserved.pinvi_revision
        rotated_by reason history current.blocked_pinsets
