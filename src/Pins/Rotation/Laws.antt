-- ===== src/Pins/Rotation/Laws.antt =====
-- What the operations that build the next registry return.
use kor_travel_docker_manage.Common.{
  String, ◌&&◌, not, Option, none, some, List, [], ◌∷◌, ◌++◌, ◌≡◌, ◌==◌, All, All-append, All-drop,
  length, ◌-◌, Bool-cases, inl, inr,
}
use kor_travel_docker_manage.Common.Result.{
  Result, ok, OnOk, OnOk-ok, OnOk-err, OnOk-bind, OnOk-guard,
}
use kor_travel_docker_manage.Checks.{
  require_text, require_revision, require_revision-eq, require_digest,
}
use kor_travel_docker_manage.Errors.{Error}
use kor_travel_docker_manage.Json.{ℤ, null, str}
use kor_travel_docker_manage.Platform.{Platform}
use kor_travel_docker_manage.Release.{compute_pinset_sha256}
use kor_travel_docker_manage.Pins.Entries.{
  BlockedPinset, PinRotation, max_reason_length, new_blocked_pinset, new_pin_rotation, optional,
}
use kor_travel_docker_manage.Pins.Entries.Laws.{
  IsBlockedPinset, IsPinRotation, new_blocked_pinset-IsBlockedPinset,
  new_pin_rotation-IsPinRotation,
}
use kor_travel_docker_manage.Pins.Registry.{
  RuntimePinRegistry, max_history_entries, is_blocked_pinset, is_unconditionally_blocked_pinset,
}
use kor_travel_docker_manage.Pins.Registry.Laws.{
  IsRegistry, new_registry-IsRegistry, new_registry-fields,
}
use kor_travel_docker_manage.Pins.Rotation.{
  RotationRequest, build_registry, next_blocked, next_history, build_pair_rotation, build_block,
  block_with, build_rollback, is_current_pair, is_closed_target,
}

module _ (py : Platform) (now : String) where
  -- The registry that build_registry returns, in terms of its arguments.
  pub record IsBuilt (m p : String) (hs : List PinRotation) (bs : List BlockedPinset)
      (r : RuntimePinRegistry) : Type 0 where
    pub map_rev : r.map_revision ≡ m
    pub pinvi_rev : r.pinvi_revision ≡ p
    pub history : r.history ≡ hs
    pub blocked : r.blocked_pinsets ≡ bs

  pub build_registry-IsBuilt :
      (version : ℤ) (m p by reason : String) (history : List PinRotation)
      (blocked : List BlockedPinset)
      → OnOk
          (λ r.
            IsBuilt m p history blocked r
            × (compute_pinset_sha256 py version m p ≡ ok r.pinset_sha256))
          (build_registry py now version m p by reason history blocked)
  unfolding build_registry
  build_registry-IsBuilt version m p by reason history blocked =
      OnOk-bind (require_revision (str m) _) _ λ m' hm.
        OnOk-bind (require_revision (str p) _) _ λ p' hp.
          OnOk-bind (compute_pinset_sha256 py version m' p') _ λ d hd. record {
            at = λ r h.
                let em = (require_revision-eq (str m) _ hm).0 in
                let ep = (require_revision-eq (str p) _ hp).0 in
                let f =
                  (new_registry-fields py version (str m') (str p') (str d) (str now) (str by)
                      (str reason) history blocked).at
                    r h in
                (
                  record {
                    map_rev = cc (em, f.0);
                    pinvi_rev = cc (ep, f.1);
                    history = f.3;
                    blocked = f.4;
                  },
                  cc (em, ep, hd, f.2),
                );
          }

  build_registry-IsRegistry :
      (version : ℤ) (m p by reason : String) (history : List PinRotation)
      (blocked : List BlockedPinset)
      → All (IsPinRotation py) history
      → All (IsBlockedPinset py) blocked
      → OnOk (IsRegistry py) (build_registry py now version m p by reason history blocked)
  unfolding build_registry
  build_registry-IsRegistry version m p by reason history blocked hh hb =
      OnOk-bind (require_revision (str m) _) _ λ m' hm.
        OnOk-bind (require_revision (str p) _) _ λ p' hp.
          OnOk-bind (compute_pinset_sha256 py version m' p') _
            λ d hd. new_registry-IsRegistry py version _ _ _ _ _ _ history blocked hh hb

  next_blocked-All :
      (current : RuntimePinRegistry) (q : RotationRequest)
      → IsRegistry py current
      → OnOk (All (IsBlockedPinset py)) (next_blocked py now current q)
  unfolding next_blocked
  next_blocked-All current q v =
      elim (Bool-cases (
        q.block_previous
        && not (is_unconditionally_blocked_pinset current current.pinset_sha256))) [
          | inl asked ↦ rw asked (
              OnOk-bind (require_text _ _ max_reason_length) _ λ reason hr.
                OnOk-bind
                  (new_blocked_pinset py (str current.pinset_sha256) (str current.map_revision)
                    (str current.pinvi_revision) (str reason) (str now) null)
                  _
                  λ e he. OnOk-ok _ (
                    All-append (IsBlockedPinset py) current.blocked_pinsets (e ∷ []) v.blocked
                      ((new_blocked_pinset-IsBlockedPinset py _ _ _ _ _ _).at e he, tt)))
          | inr rest ↦ rw rest (OnOk-ok _ v.blocked)
        ]

  next_history-All :
      (current : RuntimePinRegistry) (pinset by reason : String)
      → IsRegistry py current
      → OnOk (All (IsPinRotation py)) (next_history py now current pinset by reason)
  unfolding next_history
  next_history-All current pinset by reason v =
      OnOk-bind
        (new_pin_rotation py (str pinset) (str now) (str by) (str reason)
          (str current.pinset_sha256))
        _
        λ e he. OnOk-ok _ (
          All-drop (IsPinRotation py) (length (current.history ++ e ∷ []) - max_history_entries)
            (current.history ++ e ∷ [])
            (All-append (IsPinRotation py) current.history (e ∷ []) v.history
              ((new_pin_rotation-IsPinRotation py _ _ _ _ _).at e he, tt)))

  -- A rotation of a well-formed registry is well formed.
  pub build_pair_rotation-IsRegistry :
      (current : RuntimePinRegistry) (q : RotationRequest)
      → IsRegistry py current
      → OnOk (IsRegistry py) (build_pair_rotation py now current q)
  unfolding build_pair_rotation
  build_pair_rotation-IsRegistry current q v =
      OnOk-bind (require_revision (str q.map_revision) _) _ λ m hm.
        OnOk-bind (require_revision (str q.pinvi_revision) _) _ λ p hp.
          OnOk-guard (not (is_current_pair current m p)) _ _ λ changes.
            OnOk-bind (next_blocked py now current q) _ λ blocked hb.
              OnOk-bind (compute_pinset_sha256 py current.release_version m p) _ λ d hd.
                OnOk-guard (not (is_closed_target current blocked d)) _ _ λ free.
                  OnOk-bind (next_history py now current d q.rotated_by q.reason) _ λ history hh.
                    build_registry-IsRegistry current.release_version m p q.rotated_by q.reason
                      history blocked
                      ((next_history-All current d q.rotated_by q.reason v).at history hh)
                      ((next_blocked-All current q v).at blocked hb)

  -- A rollback of a well-formed registry is well formed, whatever the preserved copy holds.
  pub build_rollback-IsRegistry :
      (current : RuntimePinRegistry) (pinset by reason : String)
      (read_preserved : String → Result Error RuntimePinRegistry)
      → IsRegistry py current
      → OnOk (IsRegistry py) (build_rollback py now current pinset by reason read_preserved)
  unfolding build_rollback
  build_rollback-IsRegistry current pinset by reason read_preserved v =
      OnOk-bind (require_digest (str pinset) _) _ λ d hd.
        OnOk-guard (not (d == current.pinset_sha256)) _ _ λ other.
          OnOk-guard (not (is_blocked_pinset current d)) _ _ λ free.
            OnOk-bind (read_preserved d) _ λ preserved hp.
              OnOk-guard (preserved.pinset_sha256 == d) _ _ λ same.
                OnOk-bind (next_history py now current d by reason) _ λ history hh.
                  build_registry-IsRegistry preserved.release_version preserved.map_revision
                    preserved.pinvi_revision by reason history current.blocked_pinsets
                    ((next_history-All current d by reason v).at history hh) v.blocked

  -- Blocking a pinset of a well-formed registry gives a well-formed one.
  pub build_block-IsRegistry :
      (current : RuntimePinRegistry) (pinset reason : String) (m p phase : Option String)
      → IsRegistry py current
      → OnOk (IsRegistry py) (build_block py now current pinset reason m p phase)
  unfolding build_block
  build_block-IsRegistry current pinset reason m p phase v =
      OnOk-bind (require_digest (str pinset) _) _ λ d hd. checked d _ _
    where
      checked :
          (d : String) (m p : Option String)
          → OnOk (IsRegistry py) (block_with py now current d reason phase m p)
      checked d (some m) (some p) =
          elim (Bool-cases (is_unconditionally_blocked_pinset current d)) [
            | inl already ↦ rw already (OnOk-ok current v)
            | inr open_still ↦ rw open_still (
                OnOk-bind
                  (new_blocked_pinset py (str d) (str m) (str p) (str reason) (str now)
                    (optional phase))
                  _
                  λ e he.
                    new_registry-IsRegistry py current.release_version _ _ _ _ _ _ current.history
                      (current.blocked_pinsets ++ e ∷ []) v.history
                      (All-append (IsBlockedPinset py) current.blocked_pinsets (e ∷ []) v.blocked
                        ((new_blocked_pinset-IsBlockedPinset py _ _ _ _ _ _).at e he, tt)))
          ]
      checked d (some m) none = OnOk-err _
      checked d none p = OnOk-err _
