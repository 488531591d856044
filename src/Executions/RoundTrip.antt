-- ===== src/Executions/RoundTrip.antt =====
-- The strict parser of the execution registry and its payloads.
use kor_travel_docker_manage.Common.{
  String, Option, none, some, ◌≡◌, refl, sym, ◌∙◌, eq_iff, map, All, strip,
}
use kor_travel_docker_manage.Common.Result.{
  ok, traverse, traverse_roundtrip, traverse-All, OnOk, OnOk-err, OnOk-bind, OnOk-guard,
}
use kor_travel_docker_manage.Checks.{text, text-eq-ok, require_revision, require_digest, timestamp}
use kor_travel_docker_manage.Json.{Json, str, obj, get, has, only, list_of-items}
use kor_travel_docker_manage.Platform.{Platform}
use kor_travel_docker_manage.Pins.Entries.{optional}
use kor_travel_docker_manage.Pins.Document.{is_text}
use kor_travel_docker_manage.Executions.{
  ExecutionBinding, BlockedExecution, RuntimeExecutionRegistry, max_text, new_blocked_execution,
  optional_phase,
}
use kor_travel_docker_manage.Executions.Identity.{execution_identity-eq-ok}
use kor_travel_docker_manage.Executions.Document.{
  binding_from_payload, blocked_execution_from_payload, executions_from_payload, binding_to_payload,
  blocked_execution_to_payload, executions_to_payload, trimmed_phase, lifecycle, exactly,
}
use kor_travel_docker_manage.Executions.Laws.{
  IsPhase, IsBinding, IsBlockedExecution, IsExecutionRegistry, new_binding-IsBinding,
  new_binding-eq-ok, new_blocked_execution-IsBlockedExecution, new_execution_registry_lem,
  new_execution_registry-eq-ok,
}

-- A text that the parser would not strip.
abbrev pub IsTrimmed : Option String → Type 0
IsTrimmed none = Unit
IsTrimmed (some s) = strip s ≡ s

-- A well-formed entry whose texts have no white space around them.
pub record IsStored (py : Platform) (e : BlockedExecution) : Type 0 where
  pub valid : IsBlockedExecution py e
  pub reason_trimmed : strip e.reason ≡ e.reason
  pub phase_trimmed : IsTrimmed e.phase

trimmed_phase-eq-ok :
    (o : Option String) → IsPhase o → IsTrimmed o → trimmed_phase (optional o) ≡ ok o
unfolding trimmed_phase
trimmed_phase-eq-ok none h t = refl
trimmed_phase-eq-ok (some s) h t = rw (text-eq-ok s "blocked_executions[].phase" max_text h, t) refl

optional_phase-eq-ok : (o : Option String) → IsPhase o → optional_phase (optional o) ≡ ok o
unfolding optional_phase
optional_phase-eq-ok none h = refl
optional_phase-eq-ok (some s) h = rw (text-eq-ok s "blocked_executions[].phase" max_text h) refl

module _ (py : Platform) where
  binding_roundtrip :
      (e : ExecutionBinding)
      → IsBinding py e
      → binding_from_payload py (binding_to_payload e) ≡ ok e
  unfolding binding_from_payload binding_to_payload exactly only has get
  binding_roundtrip e v = new_binding-eq-ok py e v

  new_blocked_execution-eq-ok :
      (e : BlockedExecution)
      → IsBlockedExecution py e
      → new_blocked_execution py
          (str e.execution_identity_sha256)
          (str e.source_pinset_sha256)
          (str e.manager_source_revision)
          (str e.reason)
          (str e.blocked_at)
          (optional e.phase)
        ≡ ok e
  unfolding new_blocked_execution require_digest require_revision timestamp
  new_blocked_execution-eq-ok e v = rw (
    v.digest,
    v.source,
    v.manager,
    text-eq-ok e.reason "blocked_executions[].reason" max_text v.reason,
    v.at,
    optional_phase-eq-ok e.phase v.phase,
    execution_identity-eq-ok py e.source_pinset_sha256 e.manager_source_revision v.source v.manager
        (rw (sym v.identity) v.digest),
    (eq_iff _ _).1 v.identity,
  )

  -- The payload of an entry, read field by field.
  blocked_parsed :
      (i s m r t : String) (phase : Option String)
      → let e : BlockedExecution = record {
        execution_identity_sha256 = i;
        source_pinset_sha256 = s;
        manager_source_revision = m;
        reason = r;
        blocked_at = t;
        phase = phase;
      } in
        IsStored py e
        → blocked_execution_from_payload py (blocked_execution_to_payload e)
          ≡ new_blocked_execution py (str i) (str s) (str m) (str r) (str t) (optional phase)
  unfolding blocked_execution_from_payload blocked_execution_to_payload only get require_digest
      require_revision timestamp
  blocked_parsed i s m r t none v = rw (
    v.valid.digest,
    v.valid.source,
    v.valid.manager,
    text-eq-ok r "blocked_executions[].reason" max_text v.valid.reason,
    v.reason_trimmed,
    v.valid.at,
  )
  blocked_parsed i s m r t (some f) v = rw (
    v.valid.digest,
    v.valid.source,
    v.valid.manager,
    text-eq-ok r "blocked_executions[].reason" max_text v.valid.reason,
    v.reason_trimmed,
    v.valid.at,
    trimmed_phase-eq-ok (some f) v.valid.phase v.phase_trimmed,
  )

  blocked_roundtrip :
      (e : BlockedExecution)
      → IsStored py e
      → blocked_execution_from_payload py (blocked_execution_to_payload e) ≡ ok e
  blocked_roundtrip e v =
      blocked_parsed e.execution_identity_sha256 e.source_pinset_sha256 e.manager_source_revision
        e.reason e.blocked_at e.phase v
      ∙ new_blocked_execution-eq-ok e v.valid

  -- The parser reads back, unchanged, every well-formed execution registry that `to_payload` has
  -- written and whose block list has no text with white space around it.
  pub executions_roundtrip :
      (r : RuntimeExecutionRegistry)
      → IsExecutionRegistry py r
      → All (IsStored py) r.blocked_executions
      → executions_from_payload py (executions_to_payload r) ≡ ok r
  unfolding executions_from_payload executions_to_payload exactly only has get lifecycle
  executions_roundtrip r v stored =
      rw
        (
          list_of-items (map binding_to_payload r.history),
          list_of-items (map blocked_execution_to_payload r.blocked_executions),
          binding_roundtrip r.current v.current,
          traverse_roundtrip (binding_from_payload py) binding_to_payload (IsBinding py)
              binding_roundtrip r.history v.history,
          traverse_roundtrip (blocked_execution_from_payload py) blocked_execution_to_payload
              (IsStored py) blocked_roundtrip r.blocked_executions stored,
        )
        (new_execution_registry-eq-ok py r v)

  binding_from_payload-IsBinding : (v : Json) → OnOk (IsBinding py) (binding_from_payload py v)
  unfolding binding_from_payload
  binding_from_payload-IsBinding (obj payload) =
      OnOk-guard (exactly _ payload) _ _ λ known. new_binding-IsBinding py _ _ _ _ _ _ _ _
  binding_from_payload-IsBinding _ = OnOk-err _

  blocked_execution_from_payload-IsBlockedExecution :
      (v : Json) → OnOk (IsBlockedExecution py) (blocked_execution_from_payload py v)
  unfolding blocked_execution_from_payload
  blocked_execution_from_payload-IsBlockedExecution (obj payload) =
      OnOk-guard (only _ payload) _ _ λ known.
        OnOk-bind (require_digest (get "execution_identity_sha256" payload) _) _ λ i hi.
          OnOk-bind (require_digest (get "source_pinset_sha256" payload) _) _ λ s hs.
            OnOk-bind (require_revision (get "manager_source_revision" payload) _) _ λ m hm.
              OnOk-bind (text (get "reason" payload) _ max_text) _ λ r hr.
                OnOk-bind (timestamp py (get "blocked_at" payload) _) _ λ t ht.
                  OnOk-bind (trimmed_phase (get "phase" payload)) _ λ p hp. record {
                    at =
                        λ e h. ((new_blocked_execution-IsBlockedExecution py _ _ _ _ _ _).at e h).0;
                  }
  blocked_execution_from_payload-IsBlockedExecution _ = OnOk-err _

  parsed-IsExecutionRegistry :
      (v : Json) → OnOk (IsExecutionRegistry py) (executions_from_payload py v)
  unfolding executions_from_payload
  parsed-IsExecutionRegistry (obj payload) = OnOk-guard (exactly _ payload) _ _ λ known.
      OnOk-guard (is_text _ (get "schema" payload)) _ _ λ supported.
        OnOk-bind (lifecycle (get "history" payload)) _ λ hs hhs.
          OnOk-bind (lifecycle (get "blocked_executions" payload)) _ λ bs hbs.
            OnOk-bind (binding_from_payload py (get "current" payload)) _ λ current hc.
              OnOk-bind (traverse (binding_from_payload py) hs) _ λ history hh.
                OnOk-bind (traverse (blocked_execution_from_payload py) bs) _ λ blocked hb. record {
                  at = λ r h.
                      ((new_execution_registry_lem py current history blocked).at r h).3
                        ((binding_from_payload-IsBinding _).at current hc)
                        ((traverse-All _ (IsBinding py) binding_from_payload-IsBinding hs).at
                          history hh)
                        ((traverse-All _ (IsBlockedExecution py)
                            blocked_execution_from_payload-IsBlockedExecution bs).at
                          blocked hb);
                }
  parsed-IsExecutionRegistry _ = OnOk-err _

  -- Whatever the document, an execution registry that the parser returns is well formed: every
  -- identity is the digest of its pinset and Manager revision, the lists are not too long, and a
  -- history ends at the current execution.
  pub executions_from_payload-IsExecutionRegistry :
      (document : Json) (r : RuntimeExecutionRegistry)
      → executions_from_payload py document ≡ ok r
      → IsExecutionRegistry py r
  executions_from_payload-IsExecutionRegistry document r h =
      (parsed-IsExecutionRegistry document).at r h
