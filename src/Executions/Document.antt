-- ===== src/Executions/Document.antt =====
-- backend/src/kor_travel_docker_manager/services/runtime_execution_registry.py: the strict parsers
-- and the payloads.
use kor_travel_docker_manage.Common.{
  String, Bool, ◌&&◌, Option, none, some, List, [], ◌∷◌, map, all,
}
use kor_travel_docker_manage.Common.Result.{Result, ok, err, ◌>>=◌, ◌>>◌, guard, traverse}
use kor_travel_docker_manage.Checks.{text, require_revision, require_digest, timestamp}
use kor_travel_docker_manage.Errors.{
  Error, binding_fields_invalid, blocked_fields_invalid, execution_document_invalid,
  execution_schema_unsupported, lifecycle_not_lists,
}
use kor_travel_docker_manage.Json.{
  Json, Fields, null, str, arr, obj, end, field, get, has, only, list_of, items,
}
use kor_travel_docker_manage.Platform.{Platform}
use kor_travel_docker_manage.Pins.Entries.{optional, optional_field}
use kor_travel_docker_manage.Pins.Document.{is_text}
use kor_travel_docker_manage.Executions.{
  ExecutionBinding, BlockedExecution, RuntimeExecutionRegistry, max_text, new_binding,
  new_blocked_execution, new_execution_registry,
}

abbrev pub execution_schema : String
execution_schema = "kor-travel-docker-manager.runtime-execution-registry.v1"

-- `set(payload) == known`
unfoldable pub exactly : List String → Fields → Bool
exactly known payload = only known payload && all (λ k. has k payload) known

abbrev binding_fields : List String
binding_fields =
    "source_pinset_sha256" ∷ "map_revision" ∷ "pinvi_revision" ∷ "manager_source_revision"
    ∷ "execution_identity_sha256" ∷ "bound_at" ∷ "bound_by" ∷ "reason" ∷ []

abbrev blocked_fields : List String
blocked_fields =
    "execution_identity_sha256" ∷ "source_pinset_sha256" ∷ "manager_source_revision" ∷ "reason"
    ∷ "blocked_at" ∷ "phase" ∷ []

-- `_text(phase, ...) if phase is not None else None`
unfoldable pub trimmed_phase : Json → Result Error (Option String)
trimmed_phase null = ok none
trimmed_phase v = do phase ← text v "blocked_executions[].phase" max_text; ok (some phase)

unfoldable pub lifecycle : Json → Result Error (List Json)
lifecycle (arr xs) = ok (list_of xs)
lifecycle _ = err lifecycle_not_lists

module _ (py : Platform) where
  -- ExecutionBinding.from_payload
  unfoldable pub binding_from_payload : Json → Result Error ExecutionBinding
  unfolding exactly
  binding_from_payload (obj payload) = do
    guard (exactly binding_fields payload) binding_fields_invalid
    new_binding py (get "source_pinset_sha256" payload) (get "map_revision" payload)
        (get "pinvi_revision" payload) (get "manager_source_revision" payload)
        (get "execution_identity_sha256" payload) (get "bound_at" payload) (get "bound_by" payload)
        (get "reason" payload)
  binding_from_payload _ = err binding_fields_invalid

  -- BlockedExecution.from_payload, which strips the reason and the phase
  unfoldable pub blocked_execution_from_payload : Json → Result Error BlockedExecution
  unfolding trimmed_phase
  blocked_execution_from_payload (obj payload) = do
    guard (only blocked_fields payload) blocked_fields_invalid
    identity ←
        require_digest (get "execution_identity_sha256" payload)
          "blocked_executions[].execution_identity_sha256"
    pinset ←
        require_digest (get "source_pinset_sha256" payload)
          "blocked_executions[].source_pinset_sha256"
    manager ←
        require_revision (get "manager_source_revision" payload)
          "blocked_executions[].manager_source_revision"
    reason ← text (get "reason" payload) "blocked_executions[].reason" max_text
    at ← timestamp py (get "blocked_at" payload) "blocked_executions[].blocked_at"
    phase ← trimmed_phase (get "phase" payload)
    new_blocked_execution py (str identity) (str pinset) (str manager) (str reason) (str at)
        (optional phase)
  blocked_execution_from_payload _ = err blocked_fields_invalid

  -- RuntimeExecutionRegistry.from_payload
  unfoldable pub executions_from_payload : Json → Result Error RuntimeExecutionRegistry
  unfolding lifecycle
  executions_from_payload (obj payload) = do
    guard (exactly ("schema" ∷ "current" ∷ "history" ∷ "blocked_executions" ∷ []) payload)
        execution_document_invalid
    guard (is_text execution_schema (get "schema" payload)) execution_schema_unsupported
    history_payload ← lifecycle (get "history" payload)
    blocked_payload ← lifecycle (get "blocked_executions" payload)
    current ← binding_from_payload (get "current" payload)
    history ← traverse binding_from_payload history_payload
    blocked ← traverse blocked_execution_from_payload blocked_payload
    new_execution_registry current history blocked
  executions_from_payload _ = err execution_document_invalid

-- ExecutionBinding.to_payload
unfoldable pub binding_to_payload : ExecutionBinding → Json
binding_to_payload e = obj (
    field "source_pinset_sha256" (str e.source_pinset_sha256) (
      field "map_revision" (str e.map_revision) (
        field "pinvi_revision" (str e.pinvi_revision) (
          field "manager_source_revision" (str e.manager_source_revision) (
            field "execution_identity_sha256" (str e.execution_identity_sha256) (
              field "bound_at" (str e.bound_at)
                (field "bound_by" (str e.bound_by) (field "reason" (str e.reason) end))))))))

-- BlockedExecution.to_payload
unfoldable pub blocked_execution_to_payload : BlockedExecution → Json
blocked_execution_to_payload e = obj (
    field "execution_identity_sha256" (str e.execution_identity_sha256) (
      field "source_pinset_sha256" (str e.source_pinset_sha256) (
        field "manager_source_revision" (str e.manager_source_revision) (
          field "reason" (str e.reason)
            (field "blocked_at" (str e.blocked_at) (optional_field "phase" e.phase))))))

-- RuntimeExecutionRegistry.to_payload
unfoldable pub executions_to_payload : RuntimeExecutionRegistry → Json
executions_to_payload r = obj (
    field "schema" (str execution_schema) (
      field "current" (binding_to_payload r.current) (
        field "history" (arr (items (map binding_to_payload r.history))) (
          field "blocked_executions"
            (arr (items (map blocked_execution_to_payload r.blocked_executions))) end))))
