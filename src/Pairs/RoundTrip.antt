-- ===== src/Pairs/RoundTrip.antt =====
-- The strict parser of the intent and its payload.
use kor_travel_docker_manage.Common.{true, ◌≡◌, refl, eq_iff, All, ends_with}
use kor_travel_docker_manage.Common.Result.{ok}
use kor_travel_docker_manage.Json.{get, has, only}
use kor_travel_docker_manage.Platform.{Platform}
use kor_travel_docker_manage.Pins.Registry.Laws.{IsRegistry}
use kor_travel_docker_manage.Pins.Document.RoundTrip.{document_roundtrip}
use kor_travel_docker_manage.Executions.Document.{exactly}
use kor_travel_docker_manage.Executions.Laws.{IsExecutionRegistry}
use kor_travel_docker_manage.Executions.RoundTrip.{IsStored, executions_roundtrip}
use kor_travel_docker_manage.Pairs.{
  RuntimePairRotation, new_pair_rotation, pair_from_payload, pair_to_payload,
}

-- The two registries are well formed, and the current execution is that of the pins.
pub record IsPair (py : Platform) (t : RuntimePairRotation) : Type 0 where
  pub pins : IsRegistry py t.pin_registry
  pub executions : IsExecutionRegistry py t.execution_registry
  pub trimmed : All (IsStored py) t.execution_registry.blocked_executions
  pub at : ends_with b'Z' t.created_at ≡ true
  pub source : t.execution_registry.current.source_pinset_sha256 ≡ t.pin_registry.pinset_sha256
  pub map_rev : t.execution_registry.current.map_revision ≡ t.pin_registry.map_revision
  pub pinvi_rev : t.execution_registry.current.pinvi_revision ≡ t.pin_registry.pinvi_revision

module _ (py : Platform) where
  new_pair_rotation-eq-ok :
      (t : RuntimePairRotation)
      → IsPair py t
      → new_pair_rotation t.created_at t.pin_registry t.execution_registry ≡ ok t
  unfolding new_pair_rotation
  new_pair_rotation-eq-ok t v =
      rw ((eq_iff _ _).1 v.source, (eq_iff _ _).1 v.map_rev, (eq_iff _ _).1 v.pinvi_rev) refl

  -- The parser reads back, unchanged, every well-formed intent that `to_payload` has written.
  pub pair_roundtrip :
      (t : RuntimePairRotation) → IsPair py t → pair_from_payload py (pair_to_payload t) ≡ ok t
  unfolding pair_from_payload pair_to_payload exactly only has get
  pair_roundtrip t v =
      rw
        (
          v.at,
          document_roundtrip py t.pin_registry v.pins,
          executions_roundtrip py t.execution_registry v.executions v.trimmed,
        )
        (new_pair_rotation-eq-ok t v)
