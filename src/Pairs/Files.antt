-- ===== src/Pairs/Files.antt =====
-- The intent's file in runtime_pair_rotation.py: the checks of the file and of its directory, the
-- read and the write.
use kor_travel_docker_manage.Common.{Bool, ◌&&◌, ◌||◌, not, Option, none, some, eqb, if◌then◌else◌}
use kor_travel_docker_manage.Common.Result.{Result, ok, err, ◌>>=◌, ◌>>◌, guard}
use kor_travel_docker_manage.Errors.{
  Error, intent_unsafe, intent_directory_unsafe, intent_unreadable, intent_write_failed,
}
use kor_travel_docker_manage.Json.{Json}
use kor_travel_docker_manage.Platform.{Platform}
use kor_travel_docker_manage.Pins.Files.{Host, insecure_mode_allowed}
use kor_travel_docker_manage.Executions.Files.{
  Directory, StateFile, ExecutionHost, is_loose, is_foreign, private_mode, state_file,
}
use kor_travel_docker_manage.Pairs.{RuntimePairRotation, pair_from_payload, pair_to_payload}

-- The process; the environment variables of the other two modules, `insecure_env` of the process
-- being that of the pin registry; and which system calls succeed: the two writes of the execution
-- registry, `chmod` of the intent's directory, the write of the intent, its `unlink`, and the
-- `fsync` of the directory after that.
pub record Site : Type 0 where
  pub process : Host
  pub executions_insecure : Bool
  pub intent_insecure : Bool
  pub can_write_executions : Bool
  pub can_publish_executions : Bool
  pub can_tighten : Bool
  pub can_write_intent : Bool
  pub can_unlink_intent : Bool
  pub can_sync_intent : Bool

abbrev pub execution_host : Site → ExecutionHost
execution_host site = record {
  process = record site.process { insecure_env = site.executions_insecure };
  can_write = site.can_write_executions;
  can_publish = site.can_publish_executions;
}

abbrev pub intent_host : Site → Host
intent_host site = record site.process { insecure_env = site.intent_insecure }

-- _require_private_parent
unfoldable pub require_private_parent : Site → Directory → Result Error Unit
require_private_parent site d = do
  guard d.reachable intent_directory_unsafe
  guard
      (not (
        not d.is_directory
        || is_foreign site.process.euid d.owner
        || is_loose d.mode && not (insecure_mode_allowed (intent_host site))))
      intent_directory_unsafe

-- _require_root_private_file
unfoldable pub require_private_file : Site → Option StateFile → Result Error Unit
require_private_file site none = err intent_unsafe
require_private_file site (some f) = do
  guard f.reachable intent_unsafe
  guard
      (not (
        not f.regular
        || is_foreign site.process.euid f.owner
        || not (eqb f.mode private_mode) && not (insecure_mode_allowed (intent_host site))))
      intent_unsafe

intent_content : Option Json → Result Error Json
intent_content none = err intent_unreadable
intent_content (some v) = ok v

-- load_pending_runtime_pair_rotation; a file of which `exists()` is false is `none`.
unfoldable pub read_intent :
    Platform → Site → Directory → Option StateFile → Result Error (Option RuntimePairRotation)
unfolding intent_content
read_intent py site root none = ok none
read_intent py site root (some f) = do
  require_private_parent site root
  require_private_file site (some f)
  payload ← intent_content f.content
  pending ← pair_from_payload py payload
  ok (some pending)

-- `os.chmod(path.parent, 0o700)`, whose failure is ignored
abbrev pub tightened : Site → Directory → Directory
tightened site root = record root { mode = if site.can_tighten then 448 else root.mode }

-- The rest of _atomic_write
unfoldable pub write_intent : Site → Directory → RuntimePairRotation → Result Error StateFile
write_intent site root target = do
  require_private_parent site root
  guard site.can_write_intent intent_write_failed
  ok (state_file site.process private_mode (pair_to_payload target))
