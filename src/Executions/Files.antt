-- ===== src/Executions/Files.antt =====
-- backend/src/kor_travel_docker_manager/services/runtime_execution_registry.py: the files of the
-- execution registry, their checks, the load, the two writes and the verification, and the revision
-- of the installed Manager. `lstat` of a symbolic link is neither a directory nor a regular file.
-- The directories exist, so that `mkdir` does nothing.
use kor_travel_docker_manage.Common.{
  ℕ, String, Bool, true, false, ◌&&◌, ◌||◌, not, Option, none, some, ltb, eqb, if◌then◌else◌,
  length, strip,
}
use Prim.Native.Nat.{◌/◌, ◌%◌}
use kor_travel_docker_manage.Common.Result.{Result, ok, err, ◌>>=◌, ◌>>◌, guard}
use kor_travel_docker_manage.Checks.{require_revision}
use kor_travel_docker_manage.Errors.{
  Error, execution_directory_unsafe, execution_file_unsafe, execution_file_unreadable,
  execution_document_not_object, execution_write_failed, targets_not_local,
  install_root_uninspectable, install_root_unsafe, provenance_unsafe, provenance_unopened,
  provenance_changed, provenance_too_large, provenance_not_text,
}
use kor_travel_docker_manage.Json.{Json, str, obj}
use kor_travel_docker_manage.Json.Equality.{same_json}
use kor_travel_docker_manage.Platform.{Platform}
use kor_travel_docker_manage.Pins.Files.{Host, insecure_mode_allowed}
use kor_travel_docker_manage.Pins.Store.{Published, missing, malformed, current, stale}
use kor_travel_docker_manage.Executions.{
  RuntimeExecutionRegistry, is_unconditionally_blocked_current,
}
use kor_travel_docker_manage.Executions.Document.{executions_from_payload, executions_to_payload}

pub record Directory : Type 0 where
  pub reachable : Bool
  pub is_directory : Bool
  pub owner : ℕ
  pub mode : ℕ

-- `content` is what reading, decoding and `json.loads` give, if anything.
pub record StateFile : Type 0 where
  pub reachable : Bool
  pub regular : Bool
  pub owner : ℕ
  pub mode : ℕ
  pub content : Option Json

-- `mode & 0o022`
unfoldable pub is_loose : ℕ → Bool
is_loose mode = not (eqb (mode / 2 % 2) 0) || not (eqb (mode / 16 % 2) 0)

-- `expected_owner is not None and metadata.st_uid != expected_owner`
unfoldable pub is_foreign : Option ℕ → ℕ → Bool
is_foreign none owner = false
is_foreign (some euid) owner = not (eqb owner euid)

-- 0o600 and 0o644
abbrev pub private_mode : ℕ
private_mode = 384

abbrev pub public_mode : ℕ
public_mode = 420

-- _assert_registry_parent
unfoldable pub assert_registry_parent : Host → Directory → Result Error Unit
assert_registry_parent host d = do
  guard d.reachable execution_directory_unsafe
  guard
      (not (
        not d.is_directory
        || is_foreign host.euid d.owner
        || is_loose d.mode && not (insecure_mode_allowed host)))
      execution_directory_unsafe

-- _assert_registry_file
unfoldable pub assert_registry_file : Host → Option StateFile → Result Error Unit
assert_registry_file host none = err execution_file_unsafe
assert_registry_file host (some f) = do
  guard f.reachable execution_file_unsafe
  guard
      (not (
        not f.regular
        || is_foreign host.euid f.owner
        || is_loose f.mode && not (insecure_mode_allowed host)))
      execution_file_unsafe

execution_content : Option Json → Result Error Json
execution_content none = err execution_file_unreadable
execution_content (some (obj fs)) = ok (obj fs)
execution_content (some _) = err execution_document_not_object

content_of : Option StateFile → Option Json
content_of none = none
content_of (some f) = f.content

-- _read
unfoldable pub read_executions : Host → Directory → Option StateFile → Result Error Json
unfolding execution_content content_of
read_executions host parent file = do
  assert_registry_parent host parent
  assert_registry_file host file
  execution_content (content_of file)

-- load_runtime_execution_registry
unfoldable pub load_executions :
    Platform → Host → Directory → Option StateFile → Result Error RuntimeExecutionRegistry
load_executions py host parent file = do
  document ← read_executions host parent file
  executions_from_payload py document

-- The file that `atomic_write_json` leaves behind.
unfoldable pub state_file : Host → ℕ → Json → StateFile
state_file host mode payload = record {
  reachable = true;
  regular = true;
  owner = elim host.euid [ none ↦ 0 | some u ↦ u ];
  mode = mode;
  content = some payload;
}

-- _write, where `can_write` says whether the atomic replacement succeeds
unfoldable pub write_state :
    Host → Directory → (can_write : Bool) (mode : ℕ) → Json → Result Error StateFile
write_state host parent can_write mode payload = do
  assert_registry_parent host parent
  guard can_write execution_write_failed
  ok (state_file host mode payload)

-- The files of the execution registry and their directories.
pub record ExecutionStore : Type 0 where
  pub private_root : Directory
  pub public_root : Directory
  pub registry : Option StateFile
  pub public : Option StateFile

-- The process, with the environment variable of this registry as `insecure_env`, and whether each
-- of the two writes succeeds.
pub record ExecutionHost : Type 0 where
  pub process : Host
  pub can_write : Bool
  pub can_publish : Bool

keep_registry : Result Error StateFile → ExecutionStore → Result Error Unit × ExecutionStore
keep_registry (err e) s = (err e, s)
keep_registry (ok f) s = (ok tt, record s { registry = some f })

keep_public : Result Error StateFile → ExecutionStore → Result Error Unit × ExecutionStore
keep_public (err e) s = (err e, s)
keep_public (ok f) s = (ok tt, record s { public = some f })

module _ (host : ExecutionHost) (r : RuntimeExecutionRegistry) where
  write_public : Result Error Unit × ExecutionStore → Result Error Unit × ExecutionStore
  unfolding keep_public
  write_public (err e, s) = (err e, s)
  write_public (ok _, s) =
      keep_public
        (write_state host.process s.public_root host.can_publish public_mode
          (executions_to_payload r))
        s

  -- write_runtime_execution_registry
  unfoldable pub write_executions : ExecutionStore → Result Error Unit × ExecutionStore
  unfolding write_public keep_registry
  write_executions s =
      if not host.process.local_pair
      then (err targets_not_local, s)
      else write_public (
          keep_registry
            (write_state host.process s.private_root host.can_write private_mode
              (executions_to_payload r))
            s)

-- What verify_runtime_execution_registry reports.
pub record ExecutionReport : Type 0 where
  pub registry : RuntimeExecutionRegistry
  pub public_copy : Published
  pub current_is_blocked : Bool
  pub blocked_count : ℕ
  pub history_length : ℕ

-- `public_state`, from the load of the public copy and whether its path exists
unfoldable pub public_state :
    RuntimeExecutionRegistry → Result Error RuntimeExecutionRegistry → Option StateFile → Published
public_state r (ok published) file =
    if same_json (executions_to_payload published) (executions_to_payload r) then current else stale
public_state r (err e) none = missing
public_state r (err e) (some f) = malformed

unfoldable pub verify_executions : Platform → Host → ExecutionStore → Result Error ExecutionReport
verify_executions py host s = do
  registry ← load_executions py host s.private_root s.registry
  ok (record {
    registry = registry;
    public_copy = public_state registry (load_executions py host s.public_root s.public) s.public;
    current_is_blocked = is_unconditionally_blocked_current registry;
    blocked_count = length registry.blocked_executions;
    history_length = length registry.history;
  })

-- The revision file of the installed Manager. `opens` and `same_inode` say what happens between
-- `lstat` and `fstat`; `size` is the number of bytes, and `decoded` their text, if they are UTF-8.
pub record ProvenanceFile : Type 0 where
  pub reachable : Bool
  pub regular : Bool
  pub owner : ℕ
  pub mode : ℕ
  pub opens : Bool
  pub same_inode : Bool
  pub size : ℕ
  pub decoded : Option String

-- _read_trusted_text
unfoldable pub read_trusted_text : ProvenanceFile → (uid mode : ℕ) → Result Error String
read_trusted_text f uid mode = do
  guard f.reachable provenance_unopened
  guard (not (not f.regular || not (eqb f.owner uid) || not (eqb f.mode mode))) provenance_unsafe
  guard f.opens provenance_unopened
  guard f.same_inode provenance_changed
  guard (not (ltb 1000000 f.size)) provenance_too_large
  elim f.decoded [ none ↦ err provenance_not_text | some t ↦ ok t ]

-- trusted_manager_source_revision. `root` is what `stat` says of the directory of the installation.
unfoldable pub trusted_manager_source_revision : Directory → ProvenanceFile → Result Error String
trusted_manager_source_revision root f = do
  guard root.reachable install_root_uninspectable
  guard (not (not root.is_directory || not (eqb root.owner 0) || is_loose root.mode))
      install_root_unsafe
  text ← read_trusted_text f 0 public_mode
  require_revision (str (strip text)) "trusted Manager source revision"
