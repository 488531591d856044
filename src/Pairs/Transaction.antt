-- ===== src/Pairs/Transaction.antt =====
-- The transactions of runtime_pair_rotation.py over both registries: both targets are built, the
-- intent is stored, both registries are written, and the intent is removed.
use kor_travel_docker_manage.Common.{
  String, Bool, true, ◌||◌, not, Option, none, some, ◌==◌, strip, is_hex_word, if◌then◌else◌,
}
use kor_travel_docker_manage.Common.Result.{Result, ok, err, guard}
use kor_travel_docker_manage.Errors.{
  Error, targets_not_local, different_target_pending, pair_role_unknown, terminal_pinset_needs_pair,
  terminal_execution_needs_pair, rollback_digest_invalid,
}
use kor_travel_docker_manage.Platform.{Platform}
use kor_travel_docker_manage.Pins.Registry.{RuntimePinRegistry, is_unconditionally_blocked_pinset}
use kor_travel_docker_manage.Pins.Files.{load}
use kor_travel_docker_manage.Pins.Rotation.{RotationRequest, build_pair_rotation}
use kor_travel_docker_manage.Pins.Store.{write, prepare_rollback}
use kor_travel_docker_manage.Executions.{
  RuntimeExecutionRegistry, current_matches, is_unconditionally_blocked_current,
  rotate_execution_source_binding,
}
use kor_travel_docker_manage.Executions.Files.{load_executions, write_executions}
use kor_travel_docker_manage.Pairs.{RuntimePairRotation, new_pair_rotation, same_requested_target}
use kor_travel_docker_manage.Pairs.Files.{Site, execution_host}
use kor_travel_docker_manage.Pairs.Disk.{
  Action, ◌>>=◌, ◌>>◌, lift, look, on_pins, on_executions, load_pending, store_intent, clear_intent,
}

-- The readings of `utc_timestamp()`: of the rotated pins, the bound execution, the intent and the
-- published copy.
pub record Times : Type 0 where
  pub rotated_at : String
  pub bound_at : String
  pub created_at : String
  pub published_at : String

pub record PairRequest : Type 0 where
  pub map_revision : String
  pub pinvi_revision : String
  pub manager_source_revision : String
  pub reason : String
  pub rotated_by : String
  pub block_previous : Bool

pub record RoleRequest : Type 0 where
  pub role : String
  pub revision : String
  pub manager_source_revision : String
  pub reason : String
  pub rotated_by : String
  pub block_previous : Bool

pub record RollbackRequest : Type 0 where
  pub pinset_sha256 : String
  pub manager_source_revision : String
  pub reason : String
  pub rotated_by : String

-- The arguments of build_runtime_pin_pair_rotation, of which `block_reason` is left out.
abbrev pub rotation_request : PairRequest → RotationRequest
rotation_request q = record {
  map_revision = q.map_revision;
  pinvi_revision = q.pinvi_revision;
  reason = q.reason;
  rotated_by = q.rotated_by;
  block_previous = q.block_previous;
  block_reason = none;
}

-- What a single-role rotation asks of the pair.
abbrev pub with_role : RoleRequest → RuntimePinRegistry → PairRequest
with_role q current = record {
  map_revision = if q.role == "map" then q.revision else current.map_revision;
  pinvi_revision = if q.role == "pinvi" then q.revision else current.pinvi_revision;
  manager_source_revision = q.manager_source_revision;
  reason = q.reason;
  rotated_by = q.rotated_by;
  block_previous = q.block_previous;
}

module _ (py : Platform) (site : Site) (times : Times) where
  abbrev pub load_pins : Action RuntimePinRegistry
  load_pins = on_pins (load py site.process)

  abbrev pub load_current_executions : Action RuntimeExecutionRegistry
  load_current_executions = look λ d.
      load_executions py (execution_host site).process d.executions.private_root
        d.executions.registry

  -- _publish_rotation_target, and the same steps at the end of rotate_pair_with_execution
  unfoldable pub publish_rotation_target : RuntimePairRotation → Action RuntimePinRegistry
  publish_rotation_target target = do
    on_pins (write py site.process times.published_at target.pin_registry true true)
    on_executions (write_executions (execution_host site) target.execution_registry)
    clear_intent site
    lift (ok target.pin_registry)

  -- The target is checked and stored as the intent.
  unfoldable pub intend : RuntimePinRegistry → RuntimeExecutionRegistry → Action RuntimePairRotation
  intend pins executions = do
    target ← lift (new_pair_rotation times.created_at pins executions)
    store_intent site target
    lift (ok target)

  -- Both targets of a rotation, from what the files hold.
  unfoldable pub prepare_pair : PairRequest → RuntimePinRegistry → Action RuntimePairRotation
  unfolding intend
  prepare_pair q current = do
    pins ← lift (build_pair_rotation py times.rotated_at current (rotation_request q))
    executions ← load_current_executions
    next ← lift (
        rotate_execution_source_binding py times.bound_at executions pins q.manager_source_revision
          q.rotated_by q.reason)
    intend pins next

  -- A pending intent for the same revisions is taken up again; another one is refused.
  unfoldable pub resume :
      (map_revision pinvi_revision : String)
      → Action RuntimePairRotation
      → Option RuntimePairRotation
      → Action RuntimePairRotation
  resume m p prepare none = prepare
  resume m p prepare (some pending) =
      lift (if same_requested_target pending m p then ok pending else err different_target_pending)

  abbrev require_local_targets : Action Unit
  require_local_targets = lift (guard site.process.local_pair targets_not_local)

  unfoldable pub rotate_pair_with_execution : PairRequest → Action RuntimePinRegistry
  unfolding resume prepare_pair publish_rotation_target
  rotate_pair_with_execution q = do
    require_local_targets
    pending ← load_pending py site
    target ←
        resume q.map_revision q.pinvi_revision (do current ← load_pins; prepare_pair q current)
          pending
    publish_rotation_target target

  -- A pinset or an execution that is blocked without condition is left by a pair rotation only.
  unfoldable pub refuse_terminal : RuntimePinRegistry → Action Unit
  refuse_terminal current = do
    lift (
        guard (not (is_unconditionally_blocked_pinset current current.pinset_sha256))
          terminal_pinset_needs_pair)
    executions ← load_current_executions
    lift (guard (not (is_unconditionally_blocked_current executions)) terminal_execution_needs_pair)

  unfoldable pub rotate_single_role_with_execution : RoleRequest → Action RuntimePinRegistry
  unfolding resume prepare_pair publish_rotation_target refuse_terminal
  rotate_single_role_with_execution q = do
    require_local_targets
    lift (guard (q.role == "map" || q.role == "pinvi") pair_role_unknown)
    current ← load_pins
    pending ← load_pending py site
    target ←
        resume (with_role q current).map_revision (with_role q current).pinvi_revision
          (do refuse_terminal current; prepare_pair (with_role q current) current) pending
    publish_rotation_target target

  -- An execution registry that matches the pins of a rollback already is kept as it is.
  unfoldable pub rolled_back_executions :
      RollbackRequest
      → RuntimePinRegistry
      → RuntimeExecutionRegistry
      → Result Error RuntimeExecutionRegistry
  rolled_back_executions q pins executions =
      if current_matches executions pins q.manager_source_revision
      then ok executions
      else rotate_execution_source_binding py times.bound_at executions pins
          q.manager_source_revision q.rotated_by q.reason

  unfoldable pub prepare_pair_rollback : RollbackRequest → String → Action RuntimePairRotation
  unfolding rolled_back_executions intend
  prepare_pair_rollback q pinset = do
    pins ← on_pins (prepare_rollback py site.process times.rotated_at pinset q.rotated_by q.reason)
    executions ← load_current_executions
    next ← lift (rolled_back_executions q pins executions)
    intend pins next

  -- A pending rollback to the same digest under the same Manager is taken up again.
  unfoldable pub resume_rollback :
      RollbackRequest → String → Option RuntimePairRotation → Action RuntimePairRotation
  unfolding prepare_pair_rollback
  resume_rollback q pinset none = prepare_pair_rollback q pinset
  resume_rollback q pinset (some pending) = lift (
      if not (pending.pin_registry.pinset_sha256 == pinset)
        || not (
            pending.execution_registry.current.manager_source_revision == q.manager_source_revision)
      then err different_target_pending
      else ok pending)

  -- The digits of the digest may be given in upper case.
  abbrev pub normalized : RollbackRequest → String
  normalized q = py.lower (strip q.pinset_sha256)

  unfoldable pub rollback_with_execution : RollbackRequest → Action RuntimePinRegistry
  unfolding resume_rollback publish_rotation_target
  rollback_with_execution q = do
    require_local_targets
    lift (guard (is_hex_word 64 (normalized q)) rollback_digest_invalid)
    pending ← load_pending py site
    target ← resume_rollback q (normalized q) pending
    publish_rotation_target target
