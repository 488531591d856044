-- ===== src/Pins/Rotation/Rollback.antt =====
-- Where a rollback lands.
use kor_travel_docker_manage.Common.{String, false, not, ◌≡◌, refl, ◌∙◌, ◌==◌, eq_iff, arith}
use kor_travel_docker_manage.Common.Result.{Result, ok, OnOk, OnOk-bind, OnOk-guard}
use kor_travel_docker_manage.Checks.{require_digest, require_digest-eq}
use kor_travel_docker_manage.Errors.{Error}
use kor_travel_docker_manage.Json.{str}
use kor_travel_docker_manage.Platform.{Platform}
use kor_travel_docker_manage.Release.{compute_pinset_sha256}
use kor_travel_docker_manage.Pins.Registry.{RuntimePinRegistry, is_blocked_pinset}
use kor_travel_docker_manage.Pins.Rotation.{next_history, build_rollback}
use kor_travel_docker_manage.Pins.Rotation.Laws.{IsBuilt, build_registry-IsBuilt}

module _ (py : Platform) (now : String) where
  pub rollback-OnOk :
      (current : RuntimePinRegistry) (pinset by reason : String)
      (read_preserved : String → Result Error RuntimePinRegistry)
      → OnOk
          (λ r.
            (preserved : RuntimePinRegistry) × (read_preserved pinset ≡ ok preserved)
            × (preserved.pinset_sha256 ≡ pinset)
            × (r.blocked_pinsets ≡ current.blocked_pinsets)
            × (is_blocked_pinset current pinset ≡ false)
            × (compute_pinset_sha256 py preserved.release_version preserved.map_revision
                  preserved.pinvi_revision
                ≡ ok r.pinset_sha256)
            × IsBuilt py now preserved.map_revision preserved.pinvi_revision r.history
                current.blocked_pinsets r)
          (build_rollback py now current pinset by reason read_preserved)
  unfolding build_rollback
  rollback-OnOk current pinset by reason read_preserved =
      OnOk-bind (require_digest (str pinset) _) _ λ d hd.
        OnOk-guard (not (d == current.pinset_sha256)) _ _ λ other.
          OnOk-guard (not (is_blocked_pinset current d)) _ _ λ free.
            OnOk-bind (read_preserved d) _ λ preserved hp.
              OnOk-guard (preserved.pinset_sha256 == d) _ _ λ same.
                OnOk-bind (next_history py now current d by reason) _ λ hs hh. record {
                  at = λ r h.
                      let (built, digest) =
                        (build_registry-IsBuilt py now preserved.release_version
                            preserved.map_revision preserved.pinvi_revision by reason hs
                            current.blocked_pinsets).at
                          r h in
                      let named : d ≡ pinset = cc ((require_digest-eq (str pinset) _ hd).0) in
                      (
                        preserved,
                        cc (named, hp),
                        (eq_iff preserved.pinset_sha256 d).0 same ∙ named,
                        built.blocked,
                        rw (← named) (ground arith),
                        digest,
                        record {
                          map_rev = built.map_rev;
                          pinvi_rev = built.pinvi_rev;
                          history = refl;
                          blocked = built.blocked;
                        },
                      );
                }
