-- ===== src/Pins/Rotation/Blocking.antt =====
-- What block_runtime_pinset does to a registry.
use mathlib.Core.Path.{subst}
use kor_travel_docker_manage.Common.{
  String, true, false, ◌||◌, not, Option, none, some, [], ◌∷◌, ◌++◌, ◌≡◌, refl, ◌∙◌, ◌==◌, eq_refl,
  arith, any-append, Bool-cases, inl, inr, is_hex_word, is_empty,
}
use kor_travel_docker_manage.Common.Result.{ok, OnOk, OnOk-ok, OnOk-err, OnOk-bind}
use kor_travel_docker_manage.Checks.{require_digest, require_digest-eq}
use kor_travel_docker_manage.Json.{str}
use kor_travel_docker_manage.Platform.{Platform}
use kor_travel_docker_manage.Pins.Entries.{BlockedPinset, new_blocked_pinset, optional}
use kor_travel_docker_manage.Pins.Entries.Laws.{new_blocked_pinset-fields}
use kor_travel_docker_manage.Pins.Registry.{
  RuntimePinRegistry, new_registry, is_blocked_pinset, is_none, is_unconditionally_blocked_pinset,
}
use kor_travel_docker_manage.Pins.Registry.Laws.{
  new_registry-fields, is_blocked_pinset-eq, is_unconditionally_blocked_pinset-eq,
}
use kor_travel_docker_manage.Pins.Rotation.{build_block, block_with}
use kor_travel_docker_manage.Pins.Rotation.Blocks.{
  Extends-append, KeepsBlocks, KeepsBlocks-of_Extends, final-blocked,
}

-- What blocking a pinset does to the registry.
pub record BlocksOnly (current : RuntimePinRegistry) (pinset : String) (phase : Option String)
    (r : RuntimePinRegistry) : Type 0 where
  pub keeps : KeepsBlocks current r
  pub map_rev : r.map_revision ≡ current.map_revision
  pub pinvi_rev : r.pinvi_revision ≡ current.pinvi_revision
  pub digest : r.pinset_sha256 ≡ current.pinset_sha256
  pub history : r.history ≡ current.history
  pub now_blocked : is_blocked_pinset r pinset ≡ true
  pub now_final : (not (is_none phase) || is_unconditionally_blocked_pinset r pinset) ≡ true

is_none-optional : (a b : Option String) → optional a ≡ optional b → is_none a ≡ is_none b
is_none-optional none none h = refl
is_none-optional none (some b) h = cc
is_none-optional (some a) none h = cc
is_none-optional (some a) (some b) h = refl

module _ (py : Platform) (now : String) where
  block-OnOk :
      (current : RuntimePinRegistry) (pinset reason : String) (phase m p : Option String)
      → OnOk (BlocksOnly current pinset phase) (block_with py now current pinset reason phase m p)
  unfolding block_with
  block-OnOk current pinset reason phase (some m) (some p) =
      elim (Bool-cases (is_unconditionally_blocked_pinset current pinset)) [
        | inl already ↦ rw already (
            OnOk-ok current (record {
              keeps = KeepsBlocks-of_Extends current current (λ test h. h);
              map_rev = refl;
              pinvi_rev = refl;
              digest = refl;
              history = refl;
              now_blocked = final-blocked current pinset already;
              now_final = ground (arith, already);
            }))
        | inr open_still ↦ rw open_still (
            OnOk-bind
              (new_blocked_pinset py (str pinset) (str m) (str p) (str reason) (str now)
                (optional phase))
              _ λ e he. record { at = λ r h. appended r e he h })
      ]
    where
      appended :
          (r : RuntimePinRegistry) (e : BlockedPinset)
          → new_blocked_pinset py
              (str pinset)
              (str m)
              (str p)
              (str reason)
              (str now)
              (optional phase)
            ≡ ok e
          → new_registry py current.release_version
              (str current.map_revision)
              (str current.pinvi_revision)
              (str current.pinset_sha256)
              (str current.rotated_at)
              (str current.rotated_by)
              (str current.reason)
              current.history
              (current.blocked_pinsets ++ e ∷ [])
            ≡ ok r
          → BlocksOnly current pinset phase r
      appended r e he h =
          let f = (new_registry-fields py _ _ _ _ _ _ _ _ _).at r h in
          let (names, scope) = (new_blocked_pinset-fields py _ _ _ _ _ _).at e he in
          record {
            keeps =
                KeepsBlocks-of_Extends current r
                  (rw f.4 (Extends-append current.blocked_pinsets e));
            map_rev = cc (f.0);
            pinvi_rev = cc (f.1);
            digest = cc (f.2);
            history = f.3;
            now_blocked =
                is_blocked_pinset-eq r pinset
                ∙ rw (f.4, any-append) (ground (arith, names, eq_refl pinset));
            now_final = elim (Bool-cases (is_none phase)) [
              | inl unscoped ↦
                  rw (unscoped, is_unconditionally_blocked_pinset-eq r pinset, f.4, any-append)
                    (ground (
                      arith,
                      names,
                      is_none-optional e.phase phase scope,
                      unscoped,
                      eq_refl pinset,
                    ))
              | inr scoped ↦ rw scoped refl
            ];
          }
  block-OnOk current pinset reason phase (some m) none = OnOk-err _
  block-OnOk current pinset reason phase none p = OnOk-err _

  build_block-OnOk :
      (current : RuntimePinRegistry) (pinset reason : String) (m p phase : Option String)
      → OnOk (BlocksOnly current pinset phase) (build_block py now current pinset reason m p phase)
  unfolding build_block
  build_block-OnOk current pinset reason m p phase =
      OnOk-bind (require_digest (str pinset) _) _ λ d hd. record {
        at = λ r h.
            subst (λ s. BlocksOnly current s phase r) (cc ((require_digest-eq (str pinset) _ hd).0))
              ((block-OnOk current d reason phase _ _).at r h);
      }

  -- Blocking a pinset, where it succeeds, leaves the current revisions, their digest and the
  -- history alone, loses no block, and blocks the pinset: without condition if no phase is given.
  pub block_lands :
      (current : RuntimePinRegistry) (pinset reason : String) (m p phase : Option String)
      (next : RuntimePinRegistry)
      → build_block py now current pinset reason m p phase ≡ ok next
      → BlocksOnly current pinset phase next
  block_lands current pinset reason m p phase next h =
      (build_block-OnOk current pinset reason m p phase).at next h

  -- A pinset that is blocked without condition is not entered again: with both revisions given the
  -- registry comes back as it is.
  pub block_again :
      (current : RuntimePinRegistry) (pinset reason m p : String) (phase : Option String)
      → is_hex_word 64 pinset ≡ true
      → is_empty m ≡ false
      → is_empty p ≡ false
      → is_unconditionally_blocked_pinset current pinset ≡ true
      → build_block py now current pinset reason (some m) (some p) phase ≡ ok current
  unfolding build_block require_digest
  block_again current pinset reason m p phase digest hm hp final =
      elim (Bool-cases (pinset == current.pinset_sha256)) [
        | inl own ↦ rw (digest, own, hm, hp, final)
        | inr other ↦ rw (digest, other, final)
      ]
