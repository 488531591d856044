-- ===== src/Pins/Rotation/Undo.antt =====
-- The rollback to a pinset that a rotation superseded: what it builds, and that it succeeds.
use kor_travel_docker_manage.Common.{
  String, true, false, some, [], ◌∷◌, ◌++◌, ◌≡◌, ◌≢◌, ◌==◌, eq_iff, eq_refl, arith, All-append,
  All-drop, length, ◌-◌, take_last, length-take_last,
}
use kor_travel_docker_manage.Common.Result.{Result, ok}
use kor_travel_docker_manage.Checks.{IsText, is_timestamp, require_digest, require_revision}
use kor_travel_docker_manage.Errors.{Error}
use kor_travel_docker_manage.Platform.{Platform}
use kor_travel_docker_manage.Release.{
  release_version, compute_pinset_sha256, compute_pinset_sha256-eq,
}
use kor_travel_docker_manage.Pins.Entries.{PinRotation, max_reason_length, max_actor_length}
use kor_travel_docker_manage.Pins.Entries.Laws.{IsPinRotation, new_pin_rotation-eq-ok}
use kor_travel_docker_manage.Pins.Registry.{
  RuntimePinRegistry, max_history_entries, is_blocked_pinset,
}
use kor_travel_docker_manage.Pins.Registry.Laws.{IsRegistry, new_registry-eq-ok}
use kor_travel_docker_manage.Pins.Rotation.{build_registry, next_history, build_rollback}

-- What an operator gives to a rollback, and the time at which it runs.
pub record RollbackRequest : Type 0 where
  pub rotated_by : String
  pub reason : String
  pub at : String

module _ (py : Platform) where
  -- The request passes the checks of the audit entry.
  pub record IsRollbackRequest (q : RollbackRequest) : Type 0 where
    pub by : IsText max_actor_length q.rotated_by
    pub reason : IsText max_reason_length q.reason
    pub at : is_timestamp py q.at ≡ true

  -- The registry that a rollback from `next` to `current` builds.
  rollback_entry : (current next : RuntimePinRegistry) → RollbackRequest → PinRotation
  rollback_entry current next q = record {
    pinset_sha256 = current.pinset_sha256;
    rotated_at = q.at;
    rotated_by = q.rotated_by;
    reason = q.reason;
    supersedes_pinset_sha256 = some next.pinset_sha256;
  }

  unfoldable pub rolled_back :
      (current next : RuntimePinRegistry) → RollbackRequest → RuntimePinRegistry
  unfolding rollback_entry
  rolled_back current next q = record current {
    rotated_at = q.at;
    rotated_by = q.rotated_by;
    reason = q.reason;
    history = take_last max_history_entries (next.history ++ rollback_entry current next q ∷ []);
    blocked_pinsets = next.blocked_pinsets;
  }

  rollback_entry-IsPinRotation :
      (current next : RuntimePinRegistry) (q : RollbackRequest)
      → IsRegistry py current
      → IsRegistry py next
      → IsRollbackRequest q
      → IsPinRotation py (rollback_entry current next q)
  unfolding rollback_entry
  rollback_entry-IsPinRotation current next q v w h = record {
    digest = v.digest;
    at = h.at;
    by = h.by;
    reason = h.reason;
    supersedes = w.digest;
  }

  pub rolled_back-IsRegistry :
      (current next : RuntimePinRegistry) (q : RollbackRequest)
      → IsRegistry py current
      → IsRegistry py next
      → IsRollbackRequest q
      → IsRegistry py (rolled_back current next q)
  unfolding rolled_back
  rolled_back-IsRegistry current next q v w h =
      let e = rollback_entry current next q in
      record {
        version = v.version;
        map_rev = v.map_rev;
        pinvi_rev = v.pinvi_rev;
        digest = v.digest;
        at = h.at;
        by = h.by;
        reason = h.reason;
        history_fits = length-take_last max_history_entries (next.history ++ e ∷ []);
        blocked_fits = w.blocked_fits;
        names_pair = v.names_pair;
        history =
            All-drop (IsPinRotation py) (length (next.history ++ e ∷ []) - max_history_entries)
              (next.history ++ e ∷ [])
              (All-append (IsPinRotation py) next.history (e ∷ []) w.history
                (rollback_entry-IsPinRotation current next q v w h, tt));
        blocked = w.blocked;
      }

  own_digest :
      (r : RuntimePinRegistry)
      → IsRegistry py r
      → compute_pinset_sha256 py r.release_version r.map_revision r.pinvi_revision
        ≡ ok r.pinset_sha256
  own_digest r v =
      rw (v.version, v.names_pair)
        (compute_pinset_sha256-eq py release_version r.map_revision r.pinvi_revision v.map_rev
          v.pinvi_rev)

  -- The rollback is built from a preserved copy of `current`.
  pub build_rollback-eq-ok :
      (current next : RuntimePinRegistry) (q : RollbackRequest)
      (read_preserved : String → Result Error RuntimePinRegistry)
      → IsRegistry py current
      → IsRegistry py next
      → IsRollbackRequest q
      → next.pinset_sha256 ≢ current.pinset_sha256
      → is_blocked_pinset next current.pinset_sha256 ≡ false
      → read_preserved current.pinset_sha256 ≡ ok current
      → build_rollback py q.at next current.pinset_sha256 q.rotated_by q.reason read_preserved
        ≡ ok (rolled_back current next q)
  unfolding build_rollback build_registry next_history require_digest require_revision rolled_back
  build_rollback-eq-ok current next q read_preserved v w h differs free copy =
      let other : (current.pinset_sha256 == next.pinset_sha256) ≡ false =
        ground (arith, eq_iff current.pinset_sha256 next.pinset_sha256) in
      rw
        (
          v.digest,
          other,
          free,
          copy,
          eq_refl current.pinset_sha256,
          new_pin_rotation-eq-ok py (rollback_entry current next q)
              (rollback_entry-IsPinRotation current next q v w h),
          v.map_rev,
          v.pinvi_rev,
          own_digest current v,
        )
        (new_registry-eq-ok py (rolled_back current next q)
          (rolled_back-IsRegistry current next q v w h))
