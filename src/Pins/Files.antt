-- ===== src/Pins/Files.antt =====
-- The files of runtime_pin_registry.py: integrity checks, reading, the cached load and the atomic
-- write. A file is what `lstat`, `stat` and `open` tell of it.
use kor_travel_docker_manage.Common.{
  ℕ, ◌*◌, String, Bool, true, false, ◌&&◌, ◌||◌, not, Option, none, some, ltb, eqb, if◌then◌else◌,
}
use kor_travel_docker_manage.Common.Result.{Result, ok, err, ◌>>=◌, ◌>>◌, guard}
use kor_travel_docker_manage.Errors.{
  Error, file_missing, file_unreadable, file_uninspectable, file_not_regular, file_owner_unexpected,
  file_writable_by_others, file_too_large, file_not_json, document_not_object, targets_not_local,
  inside_install_root, packaged_seed,
}
use kor_travel_docker_manage.Json.{Json, obj}
use kor_travel_docker_manage.Platform.{Platform}
use kor_travel_docker_manage.Pins.Registry.{RuntimePinRegistry}
use kor_travel_docker_manage.Pins.Document.{from_payload}

abbrev pub max_registry_bytes : ℕ
max_registry_bytes = 16 * 1024 * 1024

-- `loose` is `mode & 0o022`; `stamp` stands for (mtime, size, inode); `content` is what
-- `json.loads` gives, if anything. `accessible` is false where the calls raise an OSError other
-- than FileNotFoundError.
pub record File : Type 0 where
  pub accessible : Bool
  pub regular : Bool
  pub owner : ℕ
  pub loose : Bool
  pub size : ℕ
  pub stamp : ℕ
  pub content : Option Json

-- The process and its surroundings. `local_pair`: `require_local_targets("map", "pinvi")` passes.
-- The last three say whether the atomic writes succeed.
pub record Host : Type 0 where
  pub euid : Option ℕ
  pub insecure_env : Bool
  pub local_pair : Bool
  pub in_install_root : Bool
  pub is_seed : Bool
  pub can_preserve : Bool
  pub can_write : Bool
  pub can_publish : Bool

-- The registry file, the preserved copies by digest, the published copy, `_CACHE` for the one
-- path, and the next stamp that the file system gives out.
pub record Store : Type 0 where
  pub registry : Option File
  pub preserved : String → Option File
  pub public : Option File
  pub cache : Option (ℕ × RuntimePinRegistry)
  pub next_stamp : ℕ

-- _insecure_mode_allowed
unfoldable pub insecure_mode_allowed : Host → Bool
insecure_mode_allowed host = elim host.euid [
  | none ↦ host.insecure_env
  | some u ↦ not (eqb u 0) && host.insecure_env
]

is_expected_owner : Host → ℕ → Bool
is_expected_owner host owner = elim host.euid [ none ↦ true | some u ↦ eqb owner 0 || eqb owner u ]

-- _assert_registry_file_integrity
unfoldable pub assert_integrity : Host → Option File → Result Error Unit
unfolding insecure_mode_allowed is_expected_owner
assert_integrity host none = err file_missing
assert_integrity host (some f) = do
  guard f.accessible file_uninspectable
  guard f.regular file_not_regular
  guard (is_expected_owner host f.owner) file_owner_unexpected
  guard (not (f.loose && not (insecure_mode_allowed host))) file_writable_by_others
  ok tt

as_object : Option Json → Result Error Json
as_object none = err file_not_json
as_object (some (obj fs)) = ok (obj fs)
as_object (some _) = err document_not_object

unfoldable pub read_content : Option File → Result Error Json
unfolding as_object
read_content none = err file_missing
read_content (some f) = do
  guard f.accessible file_unreadable
  guard (not (ltb max_registry_bytes f.size)) file_too_large
  as_object f.content

-- _read_registry_document
unfoldable pub read_document : Host → Option File → Result Error Json
unfolding assert_integrity read_content as_object
read_document host file = do assert_integrity host file; read_content file

unfoldable pub parse_file : Platform → Host → Option File → Result Error RuntimePinRegistry
unfolding read_document
parse_file py host file = do document ← read_document host file; from_payload py document

-- A registry that was read from the file is remembered under the file's stamp.
remember : ℕ → Result Error RuntimePinRegistry → Store → Result Error RuntimePinRegistry × Store
remember stamp (ok r) s = (ok r, record s { cache = some (stamp, r) })
remember stamp (err e) s = (err e, s)

load_fresh : Platform → Host → File → Store → Result Error RuntimePinRegistry × Store
unfolding remember
load_fresh py host f s = remember f.stamp (parse_file py host (some f)) s

load_cached :
    Platform
    → Host
    → File
    → Option (ℕ × RuntimePinRegistry)
    → Store
    → Result Error RuntimePinRegistry × Store
unfolding load_fresh
load_cached py host f none s = load_fresh py host f s
load_cached py host f (some (stamp, r)) s =
    if eqb stamp f.stamp
    then ((assert_integrity host (some f) >> ok r), s)
    else load_fresh py host f s

load_from : Platform → Host → Option File → Store → Result Error RuntimePinRegistry × Store
unfolding load_cached
load_from py host none s = (err file_missing, record s { cache = none })
load_from py host (some f) s =
    if f.accessible
    then load_cached py host f s.cache s
    else (err file_unreadable, record s { cache = none })

-- load_runtime_pin_registry
unfoldable pub load : Platform → Host → Store → Result Error RuntimePinRegistry × Store
unfolding load_from
load py host s = load_from py host s.registry s

-- The file that `atomic_write_json` leaves behind: mode 0600 or 0644, owned by this process.
unfoldable pub written : Platform → Host → ℕ → Json → File
written py host stamp payload = record {
  accessible = true;
  regular = true;
  owner = elim host.euid [ none ↦ 0 | some u ↦ u ];
  loose = false;
  size = py.encoded_size payload;
  stamp = stamp;
  content = some payload;
}

-- _assert_registry_is_writable_target
unfoldable pub assert_writable_target : Host → Option File → Result Error Unit
assert_writable_target host file = do
  guard host.local_pair targets_not_local
  guard (not host.in_install_root) inside_install_root
  guard (not host.is_seed) packaged_seed
  elim file [ none ↦ ok tt | some f ↦ assert_integrity host (some f) ]
