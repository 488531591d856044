-- ===== src/Auth.antt =====
-- backend/src/kor_travel_docker_manager/services/auth_service.py: who asks, the login audit with its
-- retention, and the login rate limit that is counted from it. Times are microseconds.
pub mod Limit
pub mod Audit
pub mod Paths
pub mod Sessions
use kor_travel_docker_manage.Common.{
  ℕ, zero, suc, ◌+◌, ◌-◌, max, String, Bool, true, false, ◌&&◌, ◌||◌, not, Option, none, some, List,
  [], ◌∷◌, ◌==◌, length, any, keep, last?, ltb, leb, map, strip, is_empty, first_chars, has_char,
  starts_with, tail, split_on, if◌then◌else◌,
}
use Prim.Native.Nat.{◌/◌}
use kor_travel_docker_manage.Json.{Json}

-- What the service reads of a request. `from_trusted_proxy` is `_request_from_trusted_proxy`, which
-- asks the library `ipaddress` and the environment.
pub record Request : Type 0 where
  pub client_host : Option String
  pub from_trusted_proxy : Bool
  pub forwarded_for : Option String
  pub real_ip : Option String
  pub user_agent : Option String
  pub origin_header : Option String
  pub url_path : String

-- A row of `login_audit_events`, without the UUID that the service never reads.
pub record LoginAuditEvent : Type 0 where
  pub id : ℕ
  pub occurred_at : ℕ
  pub event_type : String
  pub outcome : String
  pub attempted_username : Option String
  pub reason : Option String
  pub next_path : Option String
  pub client_ip_hash : Option String
  pub user_agent_hash : Option String
  pub origin : Option String
  pub request_path : Option String
  pub session_id_hash : Option String
  pub detail_json : Json

-- The table, newest row first, and the next value of the autoincrement key.
pub record AuditLog : Type 0 where
  pub rows : List LoginAuditEvent
  pub next_id : ℕ

-- The arguments of record_login_audit_event; `detail` has the request's id joined already.
pub record NewEvent : Type 0 where
  pub event_type : String
  pub outcome : String
  pub attempted_username : Option String
  pub reason : Option String
  pub next_path : Option String
  pub session_id_hash : Option String
  pub detail : Json

-- a text that is not empty, for Python's `if value`
abbrev pub truthy : Option String → Bool
truthy none = false
truthy (some s) = not (is_empty s)

abbrev pub text_or : Option String → String
text_or none = ""
text_or (some s) = s

-- `[part.strip() for part in forwarded.split(",") if part.strip()]`
unfoldable pub forwarded_parts : String → List String
forwarded_parts forwarded =
    let (first, rest) = split_on 44 forwarded in
    keep (λ part. not (is_empty part)) (map strip (first ∷ rest))

-- _client_ip
unfoldable pub client_ip : Request → Option String
unfolding forwarded_parts
client_ip r =
    let by_real_ip =
      if truthy r.real_ip
      then some (first_chars 128 (strip (text_or r.real_ip)))
      else r.client_host in
    if not r.from_trusted_proxy
    then r.client_host
    else if truthy r.forwarded_for
    then elim (last? (forwarded_parts (text_or r.forwarded_for))) [
      | none ↦ by_real_ip
      | some part ↦ some (first_chars 128 part)
    ]
    else by_real_ip

-- login_bucket_is_shared_fallback
unfoldable pub login_bucket_is_shared_fallback : Request → Bool
login_bucket_is_shared_fallback r =
    (truthy r.forwarded_for || truthy r.real_ip) && not r.from_trusted_proxy

-- _safe_value
unfoldable pub safe_value : Option String → ℕ → Option String
safe_value none most = none
safe_value (some s) most =
    let trimmed = strip s in if is_empty trimmed then none else some (first_chars most trimmed)

-- _safe_header
unfoldable pub safe_header : Option String → ℕ → Option String
unfolding safe_value
safe_header value most =
    safe_value (if truthy value then some (strip (text_or value)) else none) most

module _ (hash_value : String → String) where
  -- _client_ip_hash
  unfoldable pub client_ip_hash_of : Request → Option String
  unfolding client_ip
  client_ip_hash_of r =
      if truthy (client_ip r) then some (hash_value (text_or (client_ip r))) else none

  -- _user_agent_hash
  unfoldable pub user_agent_hash_of : Request → Option String
  user_agent_hash_of r =
      if truthy r.user_agent
      then some (hash_value (first_chars 500 (text_or r.user_agent)))
      else none

  -- The row that record_login_audit_event adds.
  unfoldable pub new_event : Request → NewEvent → (id now : ℕ) → LoginAuditEvent
  unfolding safe_value safe_header client_ip_hash_of user_agent_hash_of
  new_event r e id now = record {
    id = id;
    occurred_at = now;
    event_type = e.event_type;
    outcome = e.outcome;
    attempted_username = safe_value e.attempted_username 120;
    reason = safe_value e.reason 80;
    next_path = safe_value e.next_path 500;
    client_ip_hash = client_ip_hash_of r;
    user_agent_hash = user_agent_hash_of r;
    origin = safe_header r.origin_header 255;
    request_path = safe_value (some r.url_path) 500;
    session_id_hash = e.session_id_hash;
    detail_json = e.detail;
  }

-- `select(id).order_by(id.desc()).offset(n).limit(1)` of a table that stands newest first
unfoldable pub nth_id : ℕ → List LoginAuditEvent → Option ℕ
nth_id n [] = none
nth_id zero (e ∷ es) = some e.id
nth_id (suc n) (e ∷ es) = nth_id n es

-- _prune_login_audit_events; a limit below zero does what 0 does.
unfoldable pub prune : ℕ → List LoginAuditEvent → List LoginAuditEvent
unfolding nth_id
prune zero rows = rows
prune (suc n) rows = elim (nth_id n rows) [
  | none ↦ rows
  | some threshold ↦ keep (λ e. not (ltb e.id threshold)) rows
]

-- record_login_audit_event
unfoldable pub record_login_audit_event :
    (hash_value : String → String) (max_rows : ℕ) → AuditLog → Request → NewEvent → ℕ → AuditLog
unfolding new_event prune
record_login_audit_event hash_value max_rows log r e now = record {
  rows = prune max_rows (new_event hash_value r e log.next_id now ∷ log.rows);
  next_id = log.next_id + 1;
}

-- LOGIN_FAILURE_WINDOW_SECONDS, in microseconds
abbrev pub window : ℕ
window = 600000000

abbrev pub failure_limit : ℕ
failure_limit = 5

abbrev pub is_some_text : Option String → String → Bool
is_some_text none s = false
is_some_text (some t) s = t == s

abbrev pub is_login_of : String → LoginAuditEvent → Bool
is_login_of client e = is_some_text e.client_ip_hash client && e.event_type == "login"

-- `occurred_at >= window_start`
abbrev pub is_success : (client : String) (now : ℕ) → LoginAuditEvent → Bool
is_success client now e =
    is_login_of client e && (e.outcome == "succeeded" && leb now (e.occurred_at + window))

unfoldable pub latest_of : List LoginAuditEvent → Option ℕ
latest_of [] = none
latest_of (e ∷ es) = elim (latest_of es) [
  | none ↦ some e.occurred_at
  | some t ↦ some (max e.occurred_at t)
]

unfoldable pub earliest_of : LoginAuditEvent → List LoginAuditEvent → ℕ
earliest_of e [] = e.occurred_at
earliest_of e (f ∷ fs) =
    let rest = earliest_of f fs in if ltb rest e.occurred_at then rest else e.occurred_at

abbrev pub is_counted_reason : Option String → Bool
is_counted_reason r = is_some_text r "invalid_credentials" || is_some_text r "misconfigured"

-- `occurred_at > max(window_start, last_success)`
abbrev pub is_failure : (client : String) (now : ℕ) → Option ℕ → LoginAuditEvent → Bool
is_failure client now last e =
    is_login_of client e
    && (is_counted_reason e.reason
        && (ltb now (e.occurred_at + window)
            && elim last [ none ↦ true | some t ↦ ltb t e.occurred_at ]))

unfoldable pub failures : (client : String) (now : ℕ) → List LoginAuditEvent → List LoginAuditEvent
unfolding latest_of
failures client now rows =
    keep (is_failure client now (latest_of (keep (is_success client now) rows))) rows

unfoldable pub retry_after : ℕ → List LoginAuditEvent → Option ℕ
unfolding earliest_of
retry_after now [] = none
retry_after now (e ∷ es) =
    if ltb (length (e ∷ es)) failure_limit
    then none
    else some (max ((earliest_of e es + window - now) / 1000000) 1)

-- check_login_rate_limit, of the hashed address
unfoldable pub check_login_rate_limit : Option String → ℕ → List LoginAuditEvent → Option ℕ
unfolding failures retry_after
check_login_rate_limit none now rows = none
check_login_rate_limit (some client) now rows = retry_after now (failures client now rows)

-- sanitize_local_path; 47 is "/" and 92 is "\"
unfoldable pub sanitize_local_path : Option String → String → String
sanitize_local_path value fallback =
    if not (truthy value)
    then fallback
    else if not (starts_with 47 (text_or value))
        || ((starts_with 47 (text_or value) && starts_with 47 (tail (text_or value)))
            || has_char 92 (text_or value))
    then fallback
    else first_chars 500 (text_or value)
