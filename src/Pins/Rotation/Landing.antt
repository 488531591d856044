-- ===== src/Pins/Rotation/Landing.antt =====
-- Where a rotation of the pair lands.
use kor_travel_docker_manage.Common.{
  String, true, false, ◌&&◌, not, some, List, [], ◌∷◌, ◌≡◌, sym, ap, ◌∙◌, ◌==◌, eq_refl, arith, any,
  any-append, last?, last?-take_last, Bool-cases, inl, inr,
}
use kor_travel_docker_manage.Common.Result.{ok, OnOk, OnOk-ok, OnOk-bind, OnOk-guard}
use kor_travel_docker_manage.Checks.{require_text, require_revision, require_revision-eq}
use kor_travel_docker_manage.Json.{null, str}
use kor_travel_docker_manage.Platform.{Platform}
use kor_travel_docker_manage.Release.{compute_pinset_sha256}
use kor_travel_docker_manage.Pins.Entries.{
  BlockedPinset, PinRotation, max_reason_length, new_blocked_pinset, new_pin_rotation,
}
use kor_travel_docker_manage.Pins.Entries.Laws.{new_blocked_pinset-fields, new_pin_rotation-fields}
use kor_travel_docker_manage.Pins.Registry.{
  RuntimePinRegistry, max_history_entries, is_blocked_pinset, is_none,
  is_unconditionally_blocked_pinset,
}
use kor_travel_docker_manage.Pins.Registry.Laws.{
  is_blocked_pinset-eq, is_unconditionally_blocked_pinset-eq,
}
use kor_travel_docker_manage.Pins.Rotation.{
  RotationRequest, next_blocked, next_history, build_pair_rotation, is_current_pair,
  is_closed_target,
}
use kor_travel_docker_manage.Pins.Rotation.Laws.{build_registry-IsBuilt}
use kor_travel_docker_manage.Pins.Rotation.Blocks.{
  Extends, Extends-append, KeepsBlocks, KeepsBlocks-of_Extends,
}

module _ (py : Platform) (now : String) where
  next_blocked-Extends :
      (current : RuntimePinRegistry) (q : RotationRequest)
      → OnOk
          (λ bs.
            Extends current.blocked_pinsets bs
            × (q.block_previous ≡ true
                → any (λ e. e.pinset_sha256 == current.pinset_sha256 && is_none e.phase) bs ≡ true))
          (next_blocked py now current q)
  unfolding next_blocked
  next_blocked-Extends current q =
      elim (Bool-cases (
        q.block_previous
        && not (is_unconditionally_blocked_pinset current current.pinset_sha256))) [
          | inl asked ↦ rw asked (
              OnOk-bind (require_text _ _ max_reason_length) _ λ reason hr.
                OnOk-bind
                  (new_blocked_pinset py (str current.pinset_sha256) (str current.map_revision)
                    (str current.pinvi_revision) (str reason) (str now) null)
                  _
                  λ e he. OnOk-ok _ (
                    Extends-append current.blocked_pinsets e,
                    λ _.
                        any-append _ current.blocked_pinsets (e ∷ [])
                        ∙ ground (
                          arith,
                          eq_refl current.pinset_sha256,
                          (new_blocked_pinset-fields py _ _ _ _ _ _).at e he,
                        ),
                  ))
          | inr rest ↦ rw rest (
              OnOk-ok _ (
                λ test h. h,
                λ h.
                    ground
                      (arith, is_unconditionally_blocked_pinset-eq current current.pinset_sha256),
              ))
        ]

  -- The history entry that an operation appends comes last.
  next_history-last :
      (current : RuntimePinRegistry) (pinset by reason : String)
      → OnOk
          (λ hs.
            (e : PinRotation) × (last? hs ≡ some e)
            × (e.pinset_sha256 ≡ pinset)
            × (e.rotated_at ≡ now)
            × (e.supersedes_pinset_sha256 ≡ some current.pinset_sha256))
          (next_history py now current pinset by reason)
  unfolding next_history
  next_history-last current pinset by reason =
      OnOk-bind
        (new_pin_rotation py (str pinset) (str now) (str by) (str reason)
          (str current.pinset_sha256))
        _
        λ e he.
          let f = (new_pin_rotation-fields py _ _ _ _ _).at e he in
          OnOk-ok _ (
            e,
            last?-take_last max_history_entries current.history e (omega arith),
            ground (arith, f),
            ground (arith, f),
            ground (arith, f),
          )

  -- Where an operation that moves the current pinset lands.
  pub record LandsOn (current : RuntimePinRegistry) (m p : String) (next : RuntimePinRegistry)
      : Type 0 where
    pub map_rev : next.map_revision ≡ m
    pub pinvi_rev : next.pinvi_revision ≡ p
    pub not_blocked : is_blocked_pinset next next.pinset_sha256 ≡ false
    pub keeps : KeepsBlocks current next
    pub recorded :
        (e : PinRotation) × (last? next.history ≡ some e)
        × (e.pinset_sha256 ≡ next.pinset_sha256)
        × (e.rotated_at ≡ now)
        × (e.supersedes_pinset_sha256 ≡ some current.pinset_sha256)

  open_target :
      (current next : RuntimePinRegistry) (bs : List BlockedPinset) (d : String)
      → next.blocked_pinsets ≡ bs
      → next.pinset_sha256 ≡ d
      → not (is_closed_target current bs d) ≡ true
      → is_blocked_pinset next next.pinset_sha256 ≡ false
  open_target current next bs d hb hd free =
      rw (is_blocked_pinset-eq next next.pinset_sha256, hb, hd)
        (ground (arith, is_blocked_pinset-eq current d))

  pair_rotation-OnOk :
      (current : RuntimePinRegistry) (q : RotationRequest)
      → OnOk
          (λ r.
            LandsOn current q.map_revision q.pinvi_revision r
            × (q.block_previous ≡ true
                → is_unconditionally_blocked_pinset r current.pinset_sha256 ≡ true))
          (build_pair_rotation py now current q)
  unfolding build_pair_rotation
  pair_rotation-OnOk current q = OnOk-bind (require_revision (str q.map_revision) _) _ λ m hm.
      OnOk-bind (require_revision (str q.pinvi_revision) _) _ λ p hp.
        OnOk-guard (not (is_current_pair current m p)) _ _ λ changes.
          OnOk-bind (next_blocked py now current q) _ λ bs hb.
            OnOk-bind (compute_pinset_sha256 py current.release_version m p) _ λ d hd.
              OnOk-guard (not (is_closed_target current bs d)) _ _ λ free.
                OnOk-bind (next_history py now current d q.rotated_by q.reason) _ λ hs hh. record {
                  at = λ r h.
                      let (built, digest) =
                        (build_registry-IsBuilt py now current.release_version m p q.rotated_by
                            q.reason hs bs).at
                          r h in
                      let (more, closes) = (next_blocked-Extends current q).at bs hb in
                      let same : r.pinset_sha256 ≡ d = cc (hd, digest) in
                      let (e, is_last, names, at, supersedes) =
                        (next_history-last current d q.rotated_by q.reason).at hs hh in
                      (
                        record {
                          map_rev =
                              cc (built.map_rev, (require_revision-eq (str q.map_revision) _ hm).0);
                          pinvi_rev = cc (
                            built.pinvi_rev,
                            (require_revision-eq (str q.pinvi_revision) _ hp).0,
                          );
                          not_blocked = open_target current r bs d built.blocked same free;
                          keeps = KeepsBlocks-of_Extends current r (rw built.blocked more);
                          recorded = (
                            e,
                            ap last? built.history ∙ is_last,
                            names ∙ sym same,
                            at,
                            supersedes,
                          );
                        },
                        λ asked.
                            is_unconditionally_blocked_pinset-eq r current.pinset_sha256
                            ∙ rw built.blocked (closes asked),
                      );
                }

  -- A pair rotation that succeeds has exactly the requested revisions, its pinset is not blocked,
  -- no block is lost, and the last history entry names the new pinset and the one it supersedes.
  pub pair_rotation_lands :
      (current : RuntimePinRegistry) (q : RotationRequest) (next : RuntimePinRegistry)
      → build_pair_rotation py now current q ≡ ok next
      → LandsOn current q.map_revision q.pinvi_revision next
  pair_rotation_lands current q next h = ((pair_rotation-OnOk current q).at next h).0

  -- A pair rotation that succeeds and was asked to block the previous pinset has blocked it without
  -- condition, while its own target is not blocked.
  pub pair_rotation_closes :
      (current : RuntimePinRegistry) (q : RotationRequest) (next : RuntimePinRegistry)
      → q.block_previous ≡ true
      → build_pair_rotation py now current q ≡ ok next
      → (is_unconditionally_blocked_pinset next current.pinset_sha256 ≡ true)
        × (is_blocked_pinset next next.pinset_sha256 ≡ false)
  pair_rotation_closes current q next asked h =
      let (lands, closes) = (pair_rotation-OnOk current q).at next h in
      (closes asked, lands.not_blocked)
