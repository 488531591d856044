-- ===== src/Requests/Files.antt =====
-- runtime_pin_request.py: the request's file, its checks, and the operations on it.
pub mod Laws
use kor_travel_docker_manage.Common.{
  ℕ, String, Bool, true, false, ◌&&◌, ◌||◌, not, Option, none, some, [], ◌∷◌, ◌==◌, eqb, leb, ltb,
  ◌+◌, if◌then◌else◌,
}
use kor_travel_docker_manage.Common.Result.{Result, ok, err, ◌>>=◌, ◌>>◌, guard}
use kor_travel_docker_manage.Json.{Json}
use kor_travel_docker_manage.Platform.{Platform}
use kor_travel_docker_manage.Executions.Files.{Directory, is_loose}
use kor_travel_docker_manage.Targets.{TargetsConfig, TargetError, require_local_targets}
use kor_travel_docker_manage.Requests.{
  RequestError, RuntimePinRequest, type_error, cannot_open, parent_unreachable, parent_loose,
  not_regular, many_links, file_loose, wrong_owner, unreadable, too_large, not_json,
  already_pending, cannot_create, write_interrupted, still_readable, unlink_failed, not_local,
  request_from_payload, request_to_payload,
}

-- A file, with the results of the system calls on it. `content` is the document that the first
-- `_MAX_REQUEST_BYTES + 1` bytes hold, and `is_large` that there are so many.
pub record RequestFile : Type 0 where
  pub can_open : Bool
  pub regular : Bool
  pub links : ℕ
  pub mode : ℕ
  pub owner : ℕ
  pub can_read : Bool
  pub is_large : Bool
  pub content : Option Json

-- What stands under the path of the request.
pub data Slot : Type 0 where
  absent symlink : Slot
  present : RequestFile → Slot

-- The process, and the system calls that create, write and remove the file: `can_write` stands for
-- writing, syncing and `chmod` of the new file, of which a failure leaves `partial`, whatever has
-- been written by then.
pub record RequestHost : Type 0 where
  pub parent : Directory
  pub euid : ℕ
  pub can_create : Bool
  pub can_write : Bool
  pub can_unlink : Bool
  pub partial : RequestFile

-- _open_verified_request_file; `none` is a FileNotFoundError.
unfoldable pub open_verified : RequestHost → Slot → Result RequestError (Option RequestFile)
open_verified host absent = ok none
open_verified host symlink = err cannot_open
open_verified host (present f) = do
  guard f.can_open cannot_open
  guard host.parent.reachable parent_unreachable
  guard (not (is_loose host.parent.mode)) parent_loose
  guard f.regular not_regular
  guard (eqb f.links 1) many_links
  guard (not (is_loose f.mode)) file_loose
  guard (eqb f.owner 0 || eqb f.owner host.parent.owner) wrong_owner
  ok (some f)

unfoldable pub parse_content : Platform → Option Json → Result RequestError RuntimePinRequest
parse_content py none = err not_json
parse_content py (some v) = request_from_payload py v

-- read_runtime_pin_request
unfoldable pub read_request :
    Platform → RequestHost → Slot → Result RequestError (Option RuntimePinRequest)
unfolding parse_content
read_request py host slot = do
  opened ← open_verified host slot
  elim opened [
    | none ↦ ok none
    | some f ↦ (do
      guard f.can_read unreadable
      guard (not f.is_large) too_large
      r ← parse_content py f.content
      ok (some r))
  ]

-- _MAX_REQUEST_BYTES
abbrev pub max_request_bytes : ℕ
max_request_bytes = 65536

-- The document that the first `_MAX_REQUEST_BYTES + 1` of `size` bytes hold: a text that ends with
-- "}\n" is still a document where nothing but the line break is cut off.
unfoldable pub readable_part : ℕ → Json → Option Json
readable_part size v = if leb size (max_request_bytes + 2) then some v else none

-- The file that _exclusive_write_json leaves. The texts of a request are bounded without the white
-- space around them, and `audit_event_id` is not, so that it may be too large to be read.
unfoldable pub new_file : Platform → RequestHost → RuntimePinRequest → RequestFile
unfolding readable_part
new_file py host r = record {
  can_open = true;
  regular = true;
  links = 1;
  mode = 384;
  owner = host.euid;
  can_read = true;
  is_large = ltb max_request_bytes (py.encoded_size (request_to_payload r));
  content = readable_part (py.encoded_size (request_to_payload r)) (request_to_payload r);
}

-- _exclusive_write_json. Where the file cannot be written it is unlinked, which may fail too.
unfoldable pub exclusive_write :
    Platform → RequestHost → RuntimePinRequest → Slot → Result RequestError Unit × Slot
exclusive_write py host r absent =
    if not host.can_create
    then (err cannot_create, absent)
    else if host.can_write
    then (ok tt, present (new_file py host r))
    else if host.can_unlink
    then (err write_interrupted, absent)
    else (err unlink_failed, present host.partial)
exclusive_write py host r slot = (err already_pending, slot)

unfoldable pub as_local : Result TargetError Unit → Result RequestError Unit
as_local (ok u) = ok u
as_local (err e) = err (not_local e)

-- `target.unlink(missing_ok=True)`, then `answer`
unfoldable pub unlinked : {A : Type 0} → RequestHost → A → Slot → Result RequestError A × Slot
unlinked host answer slot =
    if host.can_unlink then (ok answer, absent) else (err unlink_failed, slot)

module _ (py : Platform) (config : TargetsConfig) (selected : String) (host : RequestHost) where
  -- write_runtime_pin_request with `replace_existing` false, its default. `meanwhile` is what other
  -- processes do between the read and the exclusive creation.
  unfoldable pub write_request :
      (meanwhile : Slot → Slot) → RuntimePinRequest → Slot → Result RequestError Unit × Slot
  unfolding as_local
  write_request meanwhile r slot =
      elim (as_local (require_local_targets py config selected (r.role ∷ []))) [
        | err e ↦ (err e, slot)
        | ok u ↦ elim (read_request py host slot) [
          | err e ↦ (err e, slot)
          | ok existing ↦ elim existing [
            | some q ↦ (err already_pending, slot)
            | none ↦ exclusive_write py host r (meanwhile slot)
          ]
        ]
      ]

  -- clear_runtime_pin_request
  unfoldable pub clear_request : String → Slot → Result RequestError Bool × Slot
  unfolding as_local unlinked
  clear_request expected slot = elim (read_request py host slot) [
    | err e ↦ (err e, slot)
    | ok existing ↦ elim existing [
      | none ↦ (ok false, slot)
      | some q ↦
          if not (q.request_id == expected)
          then (ok false, slot)
          else elim (as_local (require_local_targets py config selected (q.role ∷ []))) [
            | err e ↦ (err e, slot)
            | ok u ↦ unlinked host true slot
          ]
    ]
  ]

  -- What `discard` does where the read and the parser end with an error: all but a TypeError are
  -- caught.
  unfoldable pub discard_failed : RequestError → Slot → Result RequestError Bool × Slot
  unfolding unlinked
  discard_failed type_error slot = (err type_error, slot)
  discard_failed e slot = unlinked host true slot

  -- discard_unreadable_runtime_pin_request; the answer says whether a path is returned.
  unfoldable pub discard_request : Slot → Result RequestError Bool × Slot
  unfolding as_local unlinked parse_content discard_failed
  discard_request slot =
      elim (as_local (require_local_targets py config selected ("map" ∷ "pinvi" ∷ []))) [
        | err e ↦ (err e, slot)
        | ok u ↦ elim slot [
          | absent ↦ (ok false, absent)
          | symlink ↦ unlinked host true symlink
          | present f ↦
              if not f.can_read
              then unlinked host true (present f)
              else elim (parse_content py f.content) [
                | ok r ↦ (err still_readable, present f)
                | err e ↦ discard_failed e (present f)
              ]
        ]
      ]
