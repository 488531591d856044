-- ===== src/Pins/Rotation/Kept.antt =====
-- The mutations of the pin registry keep it well formed.
use kor_travel_docker_manage.Common.{String, Option, ◌≡◌}
use kor_travel_docker_manage.Common.Result.{Result, ok}
use kor_travel_docker_manage.Errors.{Error}
use kor_travel_docker_manage.Platform.{Platform}
use kor_travel_docker_manage.Pins.Registry.{RuntimePinRegistry}
use kor_travel_docker_manage.Pins.Registry.Laws.{IsRegistry}
use kor_travel_docker_manage.Pins.Rotation.{
  RotationRequest, build_pair_rotation, build_block, build_rollback,
}
use kor_travel_docker_manage.Pins.Rotation.Laws.{
  build_pair_rotation-IsRegistry, build_rollback-IsRegistry, build_block-IsRegistry,
}

module _ (py : Platform) (now : String) where
  -- A pair rotation of a well-formed registry, where it succeeds, gives a well-formed one.
  pub pair_rotation_stays-IsRegistry :
      (current : RuntimePinRegistry) (q : RotationRequest) (next : RuntimePinRegistry)
      → IsRegistry py current
      → build_pair_rotation py now current q ≡ ok next
      → IsRegistry py next
  pair_rotation_stays-IsRegistry current q next v h =
      (build_pair_rotation-IsRegistry py now current q v).at next h

  -- Blocking a pinset in a well-formed registry, where it succeeds, gives a well-formed one.
  pub block_stays-IsRegistry :
      (current : RuntimePinRegistry) (pinset reason : String) (m p phase : Option String)
      (next : RuntimePinRegistry)
      → IsRegistry py current
      → build_block py now current pinset reason m p phase ≡ ok next
      → IsRegistry py next
  block_stays-IsRegistry current pinset reason m p phase next v h =
      (build_block-IsRegistry py now current pinset reason m p phase v).at next h

  -- A rollback of a well-formed registry, where it succeeds, gives a well-formed one, whatever the
  -- preserved copy that it read.
  pub rollback_stays-IsRegistry :
      (current : RuntimePinRegistry) (pinset by reason : String)
      (read_preserved : String → Result Error RuntimePinRegistry) (next : RuntimePinRegistry)
      → IsRegistry py current
      → build_rollback py now current pinset by reason read_preserved ≡ ok next
      → IsRegistry py next
  rollback_stays-IsRegistry current pinset by reason read_preserved next v h =
      (build_rollback-IsRegistry py now current pinset by reason read_preserved v).at next h
