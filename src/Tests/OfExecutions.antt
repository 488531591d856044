-- ===== src/Tests/OfExecutions.antt =====
-- The theorems on the execution registry, applied to a registry for the first sample pinset.
use kor_travel_docker_manage.Common.{
  ◌≢◌, String, false, none, some, [], ◌∷◌, ◌≡◌, ◌⊎◌, refl, arith, strip, len, is_empty, has_break,
  is_hex_word, All,
}
use kor_travel_docker_manage.Common.Result.{ok}
use kor_travel_docker_manage.Checks.{
  is_whole_timestamp, require_digest, require_revision, timestamp, text,
}
use kor_travel_docker_manage.Pins.Registry.{RuntimePinRegistry}
use kor_travel_docker_manage.Executions.{
  ExecutionBinding, RuntimeExecutionRegistry, new_binding, new_blocked_execution,
  new_execution_registry, new_execution_binding, execution_identity, bind_next,
  rebind_execution_registry, rotate_execution_source_binding, block_current_execution,
  current_matches, ends_elsewhere, is_unconditionally_blocked_current, is_recorded_phase,
  optional_phase,
}
use kor_travel_docker_manage.Executions.Document.{executions_from_payload, executions_to_payload}
use kor_travel_docker_manage.Executions.Laws.{IsBinding, IsExecutionRegistry}
use kor_travel_docker_manage.Executions.RoundTrip.{
  IsStored, executions_roundtrip, executions_from_payload-IsExecutionRegistry,
}
use kor_travel_docker_manage.Executions.Rebind.{Advances, rebind_lem, rotate_lem}
use kor_travel_docker_manage.Executions.Blocks.{Blocks, block_lem, block-IsExecutionRegistry}
use kor_travel_docker_manage.Tests.Samples.{sample_platform, first_registry, second_registry, today}

abbrev pub old_manager : String
old_manager = "dddddddddddddddddddddddddddddddddddddddd"

abbrev pub new_manager : String
new_manager = "eeeeeeeeeeeeeeeeeeeeeeeeeeeeeeeeeeeeeeee"

abbrev pub bound : RuntimePinRegistry → (manager identity : String) → ExecutionBinding
bound pins manager identity = record {
  source_pinset_sha256 = pins.pinset_sha256;
  map_revision = pins.map_revision;
  pinvi_revision = pins.pinvi_revision;
  manager_source_revision = manager;
  execution_identity_sha256 = identity;
  bound_at = today;
  bound_by = "operator";
  reason = "release";
}

abbrev pub first_bound : ExecutionBinding
first_bound =
    bound first_registry old_manager
      "aaaaaadddddd0000000000000000000000000000000000000000000000000000"

abbrev moved_bound : ExecutionBinding
moved_bound =
    bound first_registry new_manager
      "aaaaaaeeeeee0000000000000000000000000000000000000000000000000000"

abbrev second_bound : ExecutionBinding
second_bound =
    bound second_registry old_manager
      "bbbbbbdddddd0000000000000000000000000000000000000000000000000000"

abbrev pub executions : RuntimeExecutionRegistry
executions = record { current = first_bound; history = first_bound ∷ []; blocked_executions = [] }

abbrev moved : RuntimeExecutionRegistry
moved = record {
  current = moved_bound;
  history = first_bound ∷ moved_bound ∷ [];
  blocked_executions = [];
}

abbrev rotated : RuntimeExecutionRegistry
rotated = record {
  current = second_bound;
  history = first_bound ∷ second_bound ∷ [];
  blocked_executions = [];
}

abbrev pub closed : RuntimeExecutionRegistry
closed = record executions {
  blocked_executions =
      record {
        execution_identity_sha256 = first_bound.execution_identity_sha256;
        source_pinset_sha256 = first_bound.source_pinset_sha256;
        manager_source_revision = old_manager;
        reason = "boot failed";
        blocked_at = today;
        phase = some "pinvi";
      }
      ∷ [];
}

-- The first execution, blocked without condition.
abbrev pub terminal : RuntimeExecutionRegistry
terminal = record executions {
  blocked_executions =
      record {
        execution_identity_sha256 = first_bound.execution_identity_sha256;
        source_pinset_sha256 = first_bound.source_pinset_sha256;
        manager_source_revision = old_manager;
        reason = "boot failed";
        blocked_at = today;
        phase = none;
      }
      ∷ [];
}

rebinds :
    rebind_execution_registry sample_platform today executions first_registry new_manager "operator"
      "release"
    ≡ ok moved
unfolding rebind_execution_registry rotate_execution_source_binding bind_next new_execution_binding
    execution_identity new_binding new_execution_registry ends_elsewhere require_digest
    require_revision timestamp text is_hex_word is_whole_timestamp strip len is_empty has_break
    current_matches block_current_execution new_blocked_execution is_unconditionally_blocked_current
    is_recorded_phase optional_phase
rebinds = refl

rotates :
    rotate_execution_source_binding sample_platform today executions second_registry old_manager
      "operator" "release"
    ≡ ok rotated
unfolding rebind_execution_registry rotate_execution_source_binding bind_next new_execution_binding
    execution_identity new_binding new_execution_registry ends_elsewhere require_digest
    require_revision timestamp text is_hex_word is_whole_timestamp strip len is_empty has_break
    current_matches block_current_execution new_blocked_execution is_unconditionally_blocked_current
    is_recorded_phase optional_phase
rotates = refl

blocks :
    block_current_execution sample_platform today executions "boot failed" (some "pinvi")
    ≡ ok closed
unfolding rebind_execution_registry rotate_execution_source_binding bind_next new_execution_binding
    execution_identity new_binding new_execution_registry ends_elsewhere require_digest
    require_revision timestamp text is_hex_word is_whole_timestamp strip len is_empty has_break
    current_matches block_current_execution new_blocked_execution is_unconditionally_blocked_current
    is_recorded_phase optional_phase
blocks = refl

ends : block_current_execution sample_platform today executions "boot failed" none ≡ ok terminal
unfolding new_execution_registry ends_elsewhere require_digest require_revision timestamp text
    is_hex_word is_whole_timestamp strip len is_empty has_break block_current_execution
    new_blocked_execution is_unconditionally_blocked_current is_recorded_phase optional_phase
    execution_identity
ends = refl

first_bound-IsBinding : IsBinding sample_platform first_bound
unfolding is_hex_word is_whole_timestamp strip len is_empty has_break
first_bound-IsBinding = record {
  source = refl;
  map_rev = refl;
  pinvi_rev = refl;
  manager = refl;
  identity = refl;
  digest = refl;
  at = refl;
  by = record { not_empty = refl; fits = omega arith; one_line = refl };
  reason = record { not_empty = refl; fits = omega arith; one_line = refl };
}

pub executions-IsExecutionRegistry : IsExecutionRegistry sample_platform executions
unfolding ends_elsewhere
executions-IsExecutionRegistry = record {
  current = first_bound-IsBinding;
  history = (first_bound-IsBinding, tt);
  blocked = tt;
  history_fits = omega arith;
  blocked_fits = omega arith;
  ends = refl;
}

closed-IsExecutionRegistry : IsExecutionRegistry sample_platform closed
closed-IsExecutionRegistry =
    block-IsExecutionRegistry sample_platform today executions "boot failed" (some "pinvi") closed
      executions-IsExecutionRegistry blocks

pub closed-IsStored : All (IsStored sample_platform) closed.blocked_executions
unfolding strip
closed-IsStored = (
  record {
    valid = closed-IsExecutionRegistry.blocked.0;
    reason_trimmed = refl;
    phase_trimmed = refl;
  },
  tt,
)

pub terminal-IsExecutionRegistry : IsExecutionRegistry sample_platform terminal
terminal-IsExecutionRegistry =
    block-IsExecutionRegistry sample_platform today executions "boot failed" none terminal
      executions-IsExecutionRegistry ends

pub terminal-IsStored : All (IsStored sample_platform) terminal.blocked_executions
unfolding strip
terminal-IsStored = (
  record {
    valid = terminal-IsExecutionRegistry.blocked.0;
    reason_trimmed = refl;
    phase_trimmed = tt;
  },
  tt,
)

rebind_lem_example :
    (executions.current.source_pinset_sha256 ≡ first_registry.pinset_sha256)
    × (executions.current.map_revision ≡ first_registry.map_revision)
    × (executions.current.pinvi_revision ≡ first_registry.pinvi_revision)
    × (((executions.current.manager_source_revision ≡ new_manager) × (moved ≡ executions))
        ⊎ ((executions.current.manager_source_revision ≢ new_manager)
            × Advances sample_platform executions first_registry new_manager moved))
rebind_lem_example =
    rebind_lem sample_platform today executions first_registry new_manager "operator" "release"
      moved rebinds

rotate_lem_example :
    (current_matches executions second_registry old_manager ≡ false)
    × Advances sample_platform executions second_registry old_manager rotated
rotate_lem_example =
    rotate_lem sample_platform today executions second_registry old_manager "operator" "release"
      rotated rotates

block_lem_example : Blocks sample_platform executions (some "pinvi") closed
block_lem_example =
    block_lem sample_platform today executions "boot failed" (some "pinvi") closed blocks

reads_back : executions_from_payload sample_platform (executions_to_payload closed) ≡ ok closed
reads_back = executions_roundtrip sample_platform closed closed-IsExecutionRegistry closed-IsStored

executions_roundtrip_example :
    executions_from_payload sample_platform (executions_to_payload closed) ≡ ok closed
executions_roundtrip_example =
    executions_roundtrip sample_platform closed closed-IsExecutionRegistry closed-IsStored

executions_from_payload-IsExecutionRegistry_example : IsExecutionRegistry sample_platform closed
executions_from_payload-IsExecutionRegistry_example =
    executions_from_payload-IsExecutionRegistry sample_platform (executions_to_payload closed)
      closed reads_back
