-- ===== src/Pairs.antt =====
-- backend/src/kor_travel_docker_manager/services/runtime_pair_rotation.py: the intent that holds the
-- two target registries of a rotation, its checks, its strict parser and its payload.
pub mod RoundTrip
pub mod Files
pub mod Disk
pub mod Rules
pub mod Transaction
pub mod Outcome
pub mod Publication
pub mod Atomic
pub mod Retry
pub mod Conflict
pub mod Kept
pub mod Completion
pub mod Agreement
pub mod Terminal
pub mod Fresh
pub mod Rollback
use kor_travel_docker_manage.Common.{
  String, Bool, true, false, ◌&&◌, ◌||◌, not, [], ◌∷◌, ◌==◌, ends_with, if◌then◌else◌,
}
use kor_travel_docker_manage.Common.Result.{Result, ok, err, ◌>>=◌, ◌>>◌, guard}
use kor_travel_docker_manage.Errors.{
  Error, source_role_invalid, source_url_differs, source_revision_invalid, identity_pinset_invalid,
  identity_manager_invalid, identity_digest_invalid, identity_digest_differs, pair_binding_differs,
  pair_revisions_differ, pair_malformed, pair_schema_unsupported, pair_timestamp_invalid,
  pair_target_invalid,
}
use kor_travel_docker_manage.Json.{Json, str, obj, end, field, get}
use kor_travel_docker_manage.Platform.{Platform}
use kor_travel_docker_manage.Pins.Registry.{RuntimePinRegistry}
use kor_travel_docker_manage.Pins.Document.{is_text, from_payload, to_payload}
use kor_travel_docker_manage.Executions.{RuntimeExecutionRegistry}
use kor_travel_docker_manage.Executions.Document.{
  exactly, executions_from_payload, executions_to_payload,
}

pub record RuntimePairRotation : Type 0 where
  pub created_at : String
  pub pin_registry : RuntimePinRegistry
  pub execution_registry : RuntimeExecutionRegistry

-- RuntimePairRotation(...) with its `__post_init__`
unfoldable pub new_pair_rotation :
    String → RuntimePinRegistry → RuntimeExecutionRegistry → Result Error RuntimePairRotation
new_pair_rotation created_at pins executions = do
  guard (executions.current.source_pinset_sha256 == pins.pinset_sha256) pair_binding_differs
  guard
      (not (
        not (executions.current.map_revision == pins.map_revision)
        || not (executions.current.pinvi_revision == pins.pinvi_revision)))
      pair_revisions_differ
  ok (record { created_at = created_at; pin_registry = pins; execution_registry = executions })

abbrev pub pair_schema : String
pair_schema = "kor-travel-docker-manager.runtime-pair-rotation.v1"

-- An exception of the two registries' own classes is raised anew; a bare DeploymentContractError of
-- pinned_runtime_release.py or runtime_execution_identity.py is not caught.
abbrev target_error : Error → Error
target_error source_role_invalid = source_role_invalid
target_error source_url_differs = source_url_differs
target_error source_revision_invalid = source_revision_invalid
target_error identity_pinset_invalid = identity_pinset_invalid
target_error identity_manager_invalid = identity_manager_invalid
target_error identity_digest_invalid = identity_digest_invalid
target_error identity_digest_differs = identity_digest_differs
target_error _ = pair_target_invalid

as_target : {A : Type 0} → Result Error A → Result Error A
as_target (ok a) = ok a
as_target (err e) = err (target_error e)

pair_timestamp : Json → Result Error String
pair_timestamp (str s) = if ends_with b'Z' s then ok s else err pair_timestamp_invalid
pair_timestamp _ = err pair_timestamp_invalid

-- RuntimePairRotation.from_payload
unfoldable pub pair_from_payload : Platform → Json → Result Error RuntimePairRotation
unfolding as_target pair_timestamp
pair_from_payload py (obj payload) = do
  guard (exactly ("schema" ∷ "created_at" ∷ "pin_registry" ∷ "execution_registry" ∷ []) payload)
      pair_malformed
  guard (is_text pair_schema (get "schema" payload)) pair_schema_unsupported
  created_at ← pair_timestamp (get "created_at" payload)
  pins ← as_target (from_payload py (get "pin_registry" payload))
  executions ← as_target (executions_from_payload py (get "execution_registry" payload))
  new_pair_rotation created_at pins executions
pair_from_payload py _ = err pair_malformed

-- RuntimePairRotation.to_payload
unfoldable pub pair_to_payload : RuntimePairRotation → Json
pair_to_payload t = obj (
    field "schema" (str pair_schema) (
      field "created_at" (str t.created_at) (
        field "pin_registry" (to_payload t.pin_registry)
          (field "execution_registry" (executions_to_payload t.execution_registry) end))))

-- _same_requested_target
abbrev pub same_requested_target : RuntimePairRotation → (m p : String) → Bool
same_requested_target pending m p =
    pending.pin_registry.map_revision == m && pending.pin_registry.pinvi_revision == p
