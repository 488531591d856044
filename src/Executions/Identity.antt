-- ===== src/Executions/Identity.antt =====
-- backend/src/kor_travel_docker_manager/services/runtime_execution_identity.py: the digest of a
-- source pinset with a Manager revision.
use kor_travel_docker_manage.Common.{String, true, ◌==◌, eq_refl, ◌≡◌, arith, is_hex_word}
use kor_travel_docker_manage.Common.Result.{Result, ok, ◌>>=◌, ◌>>◌, guard, OnOk}
use kor_travel_docker_manage.Errors.{
  Error, identity_pinset_invalid, identity_manager_invalid, identity_digest_invalid,
  identity_digest_differs,
}
use kor_travel_docker_manage.Json.{Json, ℤ, int, str, obj, end, field}
use kor_travel_docker_manage.Platform.{Platform}

-- The document that canonical_execution_identity_bytes encodes.
abbrev pub execution_document : (pinset manager : String) → Json
execution_document pinset manager = obj (
    field "version" (int (ℤ.pos 6)) (
      field "source_pinset"
        (obj (field "version" (int (ℤ.pos 5)) (field "sha256" (str pinset) end)))
        (field "manager"
          (obj (
            field "url" (str "https://github.com/digitie/kor-travel-docker-manager.git")
              (field "source_revision" (str manager) end)))
          end)))

module _ (py : Platform) where
  abbrev pub execution_digest : (pinset manager : String) → String
  execution_digest pinset manager = py.sha256 (execution_document pinset manager)

  -- canonical_execution_identity_sha256
  canonical_identity : (pinset manager : String) → Result Error String
  canonical_identity pinset manager = do
    guard (is_hex_word 64 pinset) identity_pinset_invalid
    guard (is_hex_word 40 manager) identity_manager_invalid
    ok (execution_digest pinset manager)

  -- ExecutionIdentityV6.build(...).execution_identity_sha256: the digest is computed for the
  -- argument, and again by `__post_init__`.
  unfoldable pub execution_identity : (pinset manager : String) → Result Error String
  unfolding canonical_identity
  execution_identity pinset manager = do
    given ← canonical_identity pinset manager
    expected ← canonical_identity pinset manager
    guard (is_hex_word 64 given) identity_digest_invalid
    guard (given == expected) identity_digest_differs
    ok given

  -- An identity that was computed is the digest of its two parts, which are well formed.
  pub execution_identity_lem :
      (pinset manager : String)
      → OnOk
          (λ d. (d ≡ execution_digest pinset manager) × (is_hex_word 64 d ≡ true))
          (execution_identity pinset manager)
  unfolding execution_identity canonical_identity
  execution_identity_lem pinset manager = ground arith

  pub execution_identity-eq-ok :
      (pinset manager : String)
      → is_hex_word 64 pinset ≡ true
      → is_hex_word 40 manager ≡ true
      → is_hex_word 64 (execution_digest pinset manager) ≡ true
      → execution_identity pinset manager ≡ ok (execution_digest pinset manager)
  unfolding execution_identity canonical_identity
  execution_identity-eq-ok pinset manager hp hm hd =
      rw (hp, hm, hd, eq_refl (execution_digest pinset manager))
