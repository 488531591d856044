-- ===== src/Executions.antt =====
-- backend/src/kor_travel_docker_manager/services/runtime_execution_identity.py and
-- runtime_execution_registry.py: the identity of an execution (a source pinset bound to a Manager
-- revision), the validated entries and registry, and the operations on the registry.
mod Identity
pub mod Document
pub mod Files
pub mod Stored
pub mod RoundTrip
pub mod Laws
pub mod Rebind
pub mod Blocks
unfoldable pub use Identity.{execution_document, execution_digest, execution_identity}
use kor_travel_docker_manage.Common.{
  ℕ, String, Bool, true, false, ◌&&◌, ◌||◌, not, Option, none, some, List, [], ◌∷◌, ◌++◌, ◌==◌,
  length, any, last?, ltb, take_last, if◌then◌else◌,
}
use kor_travel_docker_manage.Common.Result.{Result, ok, err, ◌>>=◌, ◌>>◌, guard}
use kor_travel_docker_manage.Checks.{text_value, text, require_revision, require_digest, timestamp}
use kor_travel_docker_manage.Errors.{
  Error, binding_identity_differs, blocked_identity_differs, lifecycle_too_long,
  history_not_at_current, rebind_source_differs, binding_unchanged,
}
use kor_travel_docker_manage.Json.{Json, null, str}
use kor_travel_docker_manage.Platform.{Platform}
use kor_travel_docker_manage.Pins.Entries.{optional}
use kor_travel_docker_manage.Pins.Registry.{RuntimePinRegistry, is_none, same_phase}

abbrev pub max_text : ℕ
max_text = 500

abbrev pub max_history : ℕ
max_history = 500

abbrev pub max_blocked : ℕ
max_blocked = 500

pub record ExecutionBinding : Type 0 where
  pub source_pinset_sha256 : String
  pub map_revision : String
  pub pinvi_revision : String
  pub manager_source_revision : String
  pub execution_identity_sha256 : String
  pub bound_at : String
  pub bound_by : String
  pub reason : String

pub record BlockedExecution : Type 0 where
  pub execution_identity_sha256 : String
  pub source_pinset_sha256 : String
  pub manager_source_revision : String
  pub reason : String
  pub blocked_at : String
  pub phase : Option String

pub record RuntimeExecutionRegistry : Type 0 where
  pub current : ExecutionBinding
  pub history : List ExecutionBinding
  pub blocked_executions : List BlockedExecution

-- `if self.phase is not None: _text(self.phase, ...)`
unfoldable pub optional_phase : Json → Result Error (Option String)
optional_phase null = ok none
optional_phase v = do text v "blocked_executions[].phase" max_text; ok (some (text_value v))

module _ (py : Platform) where
  -- ExecutionBinding(...) with its `__post_init__`. The last comparison is with `!=`, so a value
  -- that is no text differs.
  unfoldable pub new_binding :
      (pinset map_revision pinvi_revision manager identity bound_at bound_by reason : Json)
      → Result Error ExecutionBinding
  new_binding pinset map_revision pinvi_revision manager identity bound_at bound_by reason = do
    source ← require_digest pinset "source_pinset_sha256"
    m ← require_revision map_revision "map_revision"
    p ← require_revision pinvi_revision "pinvi_revision"
    revision ← require_revision manager "manager_source_revision"
    at ← timestamp py bound_at "bound_at"
    text bound_by "bound_by" max_text
    text reason "reason" max_text
    expected ← execution_identity py source revision
    guard (text_value identity == expected) binding_identity_differs
    ok (record {
      source_pinset_sha256 = source;
      map_revision = m;
      pinvi_revision = p;
      manager_source_revision = revision;
      execution_identity_sha256 = text_value identity;
      bound_at = at;
      bound_by = text_value bound_by;
      reason = text_value reason;
    })

  -- BlockedExecution(...) with its `__post_init__`
  unfoldable pub new_blocked_execution :
      (identity pinset manager reason blocked_at phase : Json) → Result Error BlockedExecution
  new_blocked_execution identity pinset manager reason blocked_at phase = do
    own ← require_digest identity "blocked_executions[].execution_identity_sha256"
    source ← require_digest pinset "blocked_executions[].source_pinset_sha256"
    revision ← require_revision manager "blocked_executions[].manager_source_revision"
    text reason "blocked_executions[].reason" max_text
    at ← timestamp py blocked_at "blocked_executions[].blocked_at"
    scope ← optional_phase phase
    expected ← execution_identity py source revision
    guard (own == expected) blocked_identity_differs
    ok (record {
      execution_identity_sha256 = own;
      source_pinset_sha256 = source;
      manager_source_revision = revision;
      reason = text_value reason;
      blocked_at = at;
      phase = scope;
    })

-- `history and history[-1].execution_identity_sha256 != current.execution_identity_sha256`
unfoldable pub ends_elsewhere : List ExecutionBinding → ExecutionBinding → Bool
ends_elsewhere history current = elim (last? history) [
  | none ↦ false
  | some e ↦ not (e.execution_identity_sha256 == current.execution_identity_sha256)
]

-- RuntimeExecutionRegistry(...) with its `__post_init__`
unfoldable pub new_execution_registry :
    ExecutionBinding
    → List ExecutionBinding
    → List BlockedExecution
    → Result Error RuntimeExecutionRegistry
new_execution_registry current history blocked = do
  guard (not (ltb max_history (length history) || ltb max_blocked (length blocked)))
      lifecycle_too_long
  guard (not (ends_elsewhere history current)) history_not_at_current
  ok (record { current = current; history = history; blocked_executions = blocked })

-- RuntimeExecutionRegistry.current_matches
unfoldable pub current_matches : RuntimeExecutionRegistry → RuntimePinRegistry → String → Bool
current_matches r pins manager =
    r.current.source_pinset_sha256 == pins.pinset_sha256
    && r.current.map_revision == pins.map_revision
    && r.current.pinvi_revision == pins.pinvi_revision
    && r.current.manager_source_revision == manager

-- An entry for the identity, with the scope that `test` accepts.
abbrev pub is_entry : (Option String → Bool) → String → BlockedExecution → Bool
is_entry test identity e = e.execution_identity_sha256 == identity && test e.phase

unfoldable pub is_unconditionally_blocked_current : RuntimeExecutionRegistry → Bool
is_unconditionally_blocked_current r =
    any (is_entry is_none r.current.execution_identity_sha256) r.blocked_executions

-- The test of has_block_for_current: `phase` absent accepts every entry.
abbrev pub accepts_phase : Option String → Option String → Bool
accepts_phase phase scope = is_none phase || (is_none scope || same_phase scope phase)

unfoldable pub has_block_for_current : RuntimeExecutionRegistry → Option String → Bool
has_block_for_current r phase =
    any (is_entry (accepts_phase phase) r.current.execution_identity_sha256) r.blocked_executions

-- `phase is not None and any(entry for the identity and the phase)`
unfoldable pub is_recorded_phase : RuntimeExecutionRegistry → Option String → Bool
is_recorded_phase r none = false
is_recorded_phase r (some phase) =
    any (is_entry (λ scope. same_phase scope (some phase)) r.current.execution_identity_sha256)
      r.blocked_executions

module _ (py : Platform) (now : String) where
  unfoldable pub new_execution_binding :
      RuntimePinRegistry → (manager bound_by reason : String) → Result Error ExecutionBinding
  new_execution_binding pins manager bound_by reason = do
    identity ← execution_identity py pins.pinset_sha256 manager
    new_binding py (str pins.pinset_sha256) (str pins.map_revision) (str pins.pinvi_revision)
        (str manager) (str identity) (str now) (str bound_by) (str reason)

  unfoldable pub migrate_execution_registry :
      RuntimePinRegistry
      → (manager bound_by reason : String) → Result Error RuntimeExecutionRegistry
  migrate_execution_registry pins manager bound_by reason = do
    current ← new_execution_binding pins manager bound_by reason
    new_execution_registry current (current ∷ []) []

  -- The common end of a rebind and of a source rotation.
  unfoldable pub bind_next :
      RuntimeExecutionRegistry
      → RuntimePinRegistry
      → (manager bound_by reason : String) → Result Error RuntimeExecutionRegistry
  bind_next r pins manager bound_by reason = do
    current ← new_execution_binding pins manager bound_by reason
    new_execution_registry current (take_last max_history (r.history ++ current ∷ []))
        r.blocked_executions

  unfoldable pub rebind_execution_registry :
      RuntimeExecutionRegistry
      → RuntimePinRegistry
      → (manager bound_by reason : String) → Result Error RuntimeExecutionRegistry
  rebind_execution_registry r pins manager bound_by reason =
      if not (r.current.source_pinset_sha256 == pins.pinset_sha256)
        || not (r.current.map_revision == pins.map_revision)
        || not (r.current.pinvi_revision == pins.pinvi_revision)
      then err rebind_source_differs
      else if r.current.manager_source_revision == manager
      then ok r
      else bind_next r pins manager bound_by reason

  unfoldable pub rotate_execution_source_binding :
      RuntimeExecutionRegistry
      → RuntimePinRegistry
      → (manager bound_by reason : String) → Result Error RuntimeExecutionRegistry
  rotate_execution_source_binding r pins manager bound_by reason =
      if current_matches r pins manager
      then err binding_unchanged
      else bind_next r pins manager bound_by reason

  unfoldable pub block_current_execution :
      RuntimeExecutionRegistry → String → Option String → Result Error RuntimeExecutionRegistry
  block_current_execution r reason phase =
      if is_unconditionally_blocked_current r
      then ok r
      else if is_recorded_phase r phase
      then ok r
      else (do
        entry ←
            new_blocked_execution py (str r.current.execution_identity_sha256)
              (str r.current.source_pinset_sha256) (str r.current.manager_source_revision)
              (str reason) (str now) (optional phase)
        new_execution_registry r.current r.history (r.blocked_executions ++ entry ∷ []))
