-- ===== src/Auth/Sessions.antt =====
-- backend/src/kor_travel_docker_manager/services/auth_service.py: the admin sessions, as signed
-- cookies and rows of `admin_sessions`. Times are microseconds.
pub mod Laws
use kor_travel_docker_manage.Common.{
  ℕ, ◌+◌, String, Bool, true, false, ◌&&◌, ◌||◌, not, Option, none, some, List, [], ◌∷◌, ◌==◌, len,
  strip, leb, ltb, append, first_chars, is_empty, split_on, if◌then◌else◌,
}
use Prim.Native.Nat.{◌/◌}
use Prim.Native.Char.{code}
use kor_travel_docker_manage.Common.Result.{Result, ok, err}
use kor_travel_docker_manage.Json.{ℤ, Json, Fields, null, bool, int, str, obj, end, field, get}
use kor_travel_docker_manage.Auth.{
  Request, text_or, client_ip_hash_of, user_agent_hash_of, safe_header,
}

-- What the service takes from Python's standard library: HMAC and SHA-256 in their encodings, and
-- `base64` with `json` as one way there and one way back, which may fail.
pub record Codec : Type 0 where
  pub sign : (value secret : String) → String
  pub hash_value : String → String
  pub encode : Json → String
  pub decode : String → Option Json

-- The TypeError of `hmac.compare_digest`, which takes no text that is not ASCII; `sign` gives ASCII.
pub data SessionError : Type 0 where
  signature_not_ascii : SessionError

-- `KTDM_SESSION_SECRET` and the result of admin_username.
pub record Environment : Type 0 where
  pub secret_variable : String
  pub admin_username : String

-- A row of `admin_sessions`.
pub record AdminSession : Type 0 where
  pub session_id_hash : String
  pub username : String
  pub expires_at : ℕ
  pub revoked_at : Option ℕ
  pub client_ip_hash : Option String
  pub user_agent_hash : Option String
  pub origin : Option String

pub record AdminSessionContext : Type 0 where
  pub username : String
  pub session_id_hash : String
  pub expires_at : ℕ

-- SESSION_TTL_SECONDS, in microseconds
abbrev pub session_ttl : ℕ
session_ttl = 28800000000

-- `int(moment.timestamp())`
abbrev pub epoch : ℕ → ℕ
epoch t = t / 1000000

-- signature.isascii()
unfoldable pub is_ascii : String → Bool
is_ascii String.[] = true
is_ascii (String.◌∷◌ c s) = ltb (code c) 128 && is_ascii s

-- _session_secret
unfoldable pub session_secret : Environment → Option String
session_secret env =
    let value = strip env.secret_variable in if leb 32 (len value) then some value else none

-- `select(AdminSession).where(session_id_hash == ...).first()`
unfoldable pub find_session : String → List AdminSession → Option AdminSession
find_session hash [] = none
find_session hash (s ∷ ss) = if s.session_id_hash == hash then some s else find_session hash ss

-- `row.revoked_at = utcnow()` where it is not set yet, of the row that is found
unfoldable pub mark_revoked : String → ℕ → List AdminSession → List AdminSession
mark_revoked hash now [] = []
mark_revoked hash now (s ∷ ss) =
    let rest = mark_revoked hash now ss in
    if s.session_id_hash == hash
    then elim s.revoked_at [ none ↦ record s { revoked_at = some now } ∷ ss | some t ↦ s ∷ ss ]
    else s ∷ rest

module _ (py : Codec) where
  -- _session_fingerprint
  unfoldable pub session_fingerprint : Request → String → String
  session_fingerprint r secret =
      py.sign (append "fingerprint:" (first_chars 300 (text_or r.user_agent))) secret

  -- The payload of create_admin_session.
  abbrev pub session_payload : (fingerprint session_id username : String) (now : ℕ) → Json
  session_payload fingerprint session_id username now = obj (
      field "aud" (str "kor-travel-docker-manager-dashboard") (
        field "exp" (int (ℤ.pos (epoch (now + session_ttl)))) (
          field "fp" (str fingerprint) (
            field "iat" (int (ℤ.pos (epoch now))) (
              field "sid" (str session_id)
                (field "sub" (str username) (field "v" (int (ℤ.pos 1)) end)))))))

  -- create_admin_session with the random session id: the cookie and the rows, or no secret
  unfoldable pub create_admin_session :
      Environment
      → Request
      → (username session_id : String) → ℕ
      → List AdminSession
      → Option (String × List AdminSession)
  unfolding session_secret session_fingerprint
  create_admin_session env r username session_id now rows = elim (session_secret env) [
    | none ↦ none
    | some secret ↦
        let payload_part =
          py.encode (session_payload (session_fingerprint r secret) session_id username now) in
        some (
          append payload_part (append "." (py.sign payload_part secret)),
          record {
            session_id_hash = py.hash_value session_id;
            username = username;
            expires_at = now + session_ttl;
            revoked_at = none;
            client_ip_hash = client_ip_hash_of py.hash_value r;
            user_agent_hash = user_agent_hash_of py.hash_value r;
            origin = safe_header r.origin_header 255;
          }
              ∷ rows,
        )
  ]

  only_object : Option Json → Option Fields
  only_object none = none
  only_object (some (obj fs)) = some fs
  only_object (some v) = none

  decode_parts : String → String × List String → Result SessionError (Option Fields)
  unfolding only_object
  decode_parts secret (payload_part, []) = ok none
  decode_parts secret (payload_part, signature ∷ []) =
      if not (is_ascii signature)
      then err signature_not_ascii
      else if py.sign payload_part secret == signature
      then ok (only_object (py.decode payload_part))
      else ok none
  decode_parts secret (payload_part, signature ∷ more ∷ rest) = ok none

  -- _decode_session_cookie; 46 is "."
  unfoldable pub decode_session_cookie : String → String → Result SessionError (Option Fields)
  unfolding decode_parts
  decode_session_cookie value secret = decode_parts secret (split_on 46 value)

  abbrev pub is_text_of : Json → String → Bool
  is_text_of (str t) s = t == s
  is_text_of v s = false

  -- `isinstance(value, int)` and `value <= bound`; a `bool` is an `int`, and `true` is 1.
  abbrev pub is_int_at_most : Json → ℕ → Bool
  is_int_at_most (int (ℤ.pos n)) bound = leb n bound
  is_int_at_most (int (ℤ.negsuc n)) bound = true
  is_int_at_most (bool b) bound = leb (if b then 1 else 0) bound
  is_int_at_most v bound = false

  -- `isinstance(value, int)` and `value > bound`
  abbrev pub is_int_above : Json → ℕ → Bool
  is_int_above (int (ℤ.pos n)) bound = ltb bound n
  is_int_above (int (ℤ.negsuc n)) bound = false
  is_int_above (bool b) bound = ltb bound (if b then 1 else 0)
  is_int_above v bound = false

  -- `payload.get("v") == SESSION_VERSION`, which `true` and 1.0 pass too
  abbrev pub is_version : Json → Bool
  is_version (int (ℤ.pos n)) = leb n 1 && leb 1 n
  is_version (bool b) = b
  is_version (Json.real text) = text == "1.0"
  is_version v = false

  abbrev pub session_id_of : Json → Option String
  session_id_of (str s) = some s
  session_id_of v = none

  -- The tests of validate_session_cookie on the payload.
  unfoldable pub is_current_payload : Environment → Request → String → ℕ → Fields → Bool
  unfolding session_fingerprint
  is_current_payload env r secret now payload =
      is_text_of (get "aud" payload) "kor-travel-docker-manager-dashboard"
      && (is_version (get "v" payload)
          && (is_text_of (get "sub" payload) env.admin_username
              && (is_int_above (get "exp" payload) (epoch now)
                  && (is_int_at_most (get "iat" payload) (epoch now + 60)
                      && (is_text_of (get "fp" payload) (session_fingerprint r secret))))))

  -- The row of the session, unless it is revoked or has expired.
  unfoldable pub live_session : String → ℕ → List AdminSession → Option AdminSessionContext
  unfolding find_session
  live_session hash now rows = elim (find_session hash rows) [
    | none ↦ none
    | some s ↦ elim s.revoked_at [
      | some t ↦ none
      | none ↦
          if leb s.expires_at now
          then none
          else some (record {
            username = s.username;
            session_id_hash = s.session_id_hash;
            expires_at = s.expires_at;
          })
    ]
  ]

  -- The payload of a cookie that is not empty, where there is a secret.
  unfoldable pub cookie_payload :
      Environment → String → Result SessionError (Option (String × Fields))
  unfolding session_secret decode_session_cookie
  cookie_payload env value = if is_empty value then ok none else elim (session_secret env) [
    | none ↦ ok none
    | some secret ↦ elim (decode_session_cookie value secret) [
      | err e ↦ err e
      | ok none ↦ ok none
      | ok (some payload) ↦ ok (some (secret, payload))
    ]
  ]

  -- validate_session_cookie
  unfoldable pub validate_session_cookie :
      Environment
      → String
      → Request
      → ℕ
      → List AdminSession
      → Result SessionError (Option AdminSessionContext)
  unfolding cookie_payload is_current_payload live_session
  validate_session_cookie env value r now rows = elim (cookie_payload env value) [
    | err e ↦ err e
    | ok none ↦ ok none
    | ok (some (secret, payload)) ↦ elim (session_id_of (get "sid" payload)) [
      | none ↦ ok none
      | some session_id ↦
          if is_current_payload env r secret now payload && not (is_empty session_id)
          then ok (live_session (py.hash_value session_id) now rows)
          else ok none
    ]
  ]

  -- revoke_admin_session: the hash that it returns, and the rows
  unfoldable pub revoke_admin_session :
      Environment
      → String
      → ℕ
      → List AdminSession
      → Result SessionError (Option String) × List AdminSession
  unfolding cookie_payload mark_revoked
  revoke_admin_session env value now rows = elim (cookie_payload env value) [
    | err e ↦ (err e, rows)
    | ok none ↦ (ok none, rows)
    | ok (some (secret, payload)) ↦ elim (session_id_of (get "sid" payload)) [
      | none ↦ (ok none, rows)
      | some session_id ↦
          (ok (some (py.hash_value session_id)), mark_revoked (py.hash_value session_id) now rows)
    ]
  ]
