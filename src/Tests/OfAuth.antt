-- ===== src/Tests/OfAuth.antt =====
-- The theorems on the login audit and the rate limit, applied to a small log.
use kor_travel_docker_manage.Common.{
  split_on, ◌<◌, is_empty, len, strip, ℕ, ◌≤◌, String, true, false, Option, none, some, List, [],
  ◌∷◌, ◌≡◌, refl, arith, strip, is_empty, first_chars, has_char, starts_with, tail, len, length,
}
use kor_travel_docker_manage.Common.Result.{ok}
use kor_travel_docker_manage.Json.{null, str, Fields, get}
use kor_travel_docker_manage.Auth.{
  Request, LoginAuditEvent, AuditLog, NewEvent, new_event, record_login_audit_event,
  check_login_rate_limit, failures, latest_of, earliest_of, retry_after, client_ip,
  sanitize_local_path,
}
use kor_travel_docker_manage.Auth.Sessions.{
  Codec, Environment, AdminSession, AdminSessionContext, session_payload, session_secret, is_ascii,
  find_session, live_session, cookie_payload, decode_session_cookie, is_current_payload,
  session_fingerprint, validate_session_cookie, revoke_admin_session,
}
use kor_travel_docker_manage.Auth.Sessions.Laws.{revoked_stays_out, accepted_is_live}
use kor_travel_docker_manage.Auth.Audit.{IsAuditLog, Records, record_login_audit_event_lem}
use kor_travel_docker_manage.Auth.Limit.{NotAfter, limit_expires, success_resets, limit_is_bounded}
use kor_travel_docker_manage.Auth.Paths.{
  IsLocalPath, sanitize_local_path-IsLocalPath, client_ip_behind_proxy,
}

abbrev row : (id at : ℕ) (outcome : String) → Option String → LoginAuditEvent
row id at outcome reason = record {
  id = id;
  occurred_at = at;
  event_type = "login";
  outcome = outcome;
  attempted_username = some "admin";
  reason = reason;
  next_path = none;
  client_ip_hash = some "c1";
  user_agent_hash = none;
  origin = none;
  request_path = some "/api/v1/auth/login";
  session_id_hash = none;
  detail_json = null;
}

abbrev failure : (id at : ℕ) → LoginAuditEvent
failure id at = row id at "failed" (some "invalid_credentials")

-- Five failures, a minute apart.
abbrev five : List LoginAuditEvent
five =
    failure 5 1240000000
    ∷ failure 4 1180000000
    ∷ failure 3 1120000000
    ∷ failure 2 1060000000
    ∷ failure 1 1000000000
    ∷ []

five-NotAfter : NotAfter 1300000000 five
five-NotAfter = (omega arith, (omega arith, (omega arith, (omega arith, (omega arith, tt)))))

limits : check_login_rate_limit (some "c1") 1300000000 five ≡ some 300
unfolding check_login_rate_limit failures latest_of earliest_of retry_after
limits = refl

limit_is_bounded_example : (5 ≤ length (failures "c1" 1300000000 five)) × (1 ≤ 300) × (300 ≤ 600)
limit_is_bounded_example = limit_is_bounded "c1" 1300000000 300 five five-NotAfter limits

limit_expires_example : check_login_rate_limit (some "c1") 1900000000 five ≡ none
limit_expires_example =
    limit_expires (some "c1") 1900000000 1300000000 five five-NotAfter (omega arith)

success_resets_example :
    check_login_rate_limit (some "c1") 1300000000 (row 6 1300000000 "succeeded" none ∷ five) ≡ none
success_resets_example =
    success_resets "c1" 1300000000 (row 6 1300000000 "succeeded" none) five refl refl five-NotAfter

abbrev log : AuditLog
log = record { rows = failure 2 1060000000 ∷ failure 1 1000000000 ∷ []; next_id = 3 }

log-IsAuditLog : IsAuditLog log
log-IsAuditLog = record {
  descending = ((omega arith, tt), (tt, tt));
  fresh = (omega arith, (omega arith, tt));
}

abbrev request : Request
request = record {
  client_host = some "127.0.0.1";
  from_trusted_proxy = true;
  forwarded_for = some "10.9.9.9, 203.0.113.7";
  real_ip = none;
  user_agent = some "curl";
  origin_header = none;
  url_path = "/api/v1/auth/login";
}

abbrev failed : NewEvent
failed = record {
  event_type = "login";
  outcome = "failed";
  attempted_username = some "admin";
  reason = some "invalid_credentials";
  next_path = none;
  session_id_hash = none;
  detail = null;
}

record_login_audit_event_example :
    Records 1 log
      (new_event (λ s. s) request failed 3 1100000000)
      (record_login_audit_event (λ s. s) 2 log request failed 1100000000)
record_login_audit_event_example =
    record_login_audit_event_lem (λ s. s) 1 log request failed 1100000000 log-IsAuditLog

client_ip_behind_proxy_example : client_ip request ≡ some (first_chars 128 (strip " 203.0.113.7"))
unfolding has_char is_empty strip
client_ip_behind_proxy_example =
    client_ip_behind_proxy request "10.9.9.9" " 203.0.113.7" refl refl refl refl

root-IsLocalPath : IsLocalPath "/"
unfolding starts_with tail has_char len
root-IsLocalPath = record {
  slash = refl;
  one_slash = refl;
  no_backslash = refl;
  fits = omega arith;
}

sanitize_local_path_example : IsLocalPath (sanitize_local_path (some "//evil.example") "/")
sanitize_local_path_example =
    sanitize_local_path-IsLocalPath (some "//evil.example") "/" root-IsLocalPath

-- The payload of a session that starts at second 1000.
abbrev bare_codec : Codec
bare_codec = record {
  sign = λ value secret. "s";
  hash_value = λ s. s;
  encode = λ payload. "p";
  decode = λ part. none;
}

-- Signatures and encodings that are short enough to compute.
abbrev codec : Codec
codec = record {
  sign = λ value secret. "s";
  hash_value = λ s. s;
  encode = λ payload. "p";
  decode = λ part. some (session_payload bare_codec "s" "id" "admin" 1000000000);
}

abbrev environment : Environment
environment = record {
  secret_variable = "0123456789012345678901234567890123456789";
  admin_username = "admin";
}

abbrev session : AdminSession
session = record {
  session_id_hash = "id";
  username = "admin";
  expires_at = 29800000000;
  revoked_at = none;
  client_ip_hash = none;
  user_agent_hash = none;
  origin = none;
}

abbrev context : AdminSessionContext
context = record { username = "admin"; session_id_hash = "id"; expires_at = 29800000000 }

accepts :
    validate_session_cookie codec environment "p.s" request 2000000000 (session ∷ [])
    ≡ ok (some context)
unfolding validate_session_cookie cookie_payload session_secret decode_session_cookie split_on strip
    is_ascii len is_empty get is_current_payload session_fingerprint live_session find_session
accepts = refl

revokes :
    (revoke_admin_session codec environment "p.s" 2000000000 (session ∷ [])).0 ≡ ok (some "id")
unfolding revoke_admin_session cookie_payload session_secret decode_session_cookie split_on strip
    is_ascii len is_empty get
revokes = refl

revoked_stays_out_example :
    validate_session_cookie codec environment "p.s" request 2100000000
      (revoke_admin_session codec environment "p.s" 2000000000 (session ∷ [])).1
    ≡ ok none
revoked_stays_out_example =
    revoked_stays_out codec environment "p.s" "id" request 2000000000 2100000000 (session ∷ [])
      revokes

accepted_is_live_example :
    (secret : String) × (payload : Fields) × (session_id : String) × (s : AdminSession)
    × (cookie_payload codec environment "p.s" ≡ ok (some (secret, payload)))
    × (is_current_payload codec environment request secret 2000000000 payload ≡ true)
    × (get "sid" payload ≡ str session_id)
    × (is_empty session_id ≡ false)
    × (find_session session_id (session ∷ []) ≡ some s)
    × (s.revoked_at ≡ none)
    × (2000000000 < s.expires_at)
    × ("id" ≡ session_id)
    × ("admin" ≡ s.username)
    × (29800000000 ≡ s.expires_at)
accepted_is_live_example =
    accepted_is_live codec environment "p.s" request 2000000000 (session ∷ []) context accepts
