-- ===== src/Executions/Stored.antt =====
-- The parser strips the texts of the block list, so what it returns can be written and read again.
use kor_travel_docker_manage.Common.{
  String, Option, none, some, ◌≡◌, refl, sym, ◌==◌, ◌∙◌, ap, arith, List, All, strip, strip-strip,
}
use kor_travel_docker_manage.Common.Result.{
  ok, traverse, traverse-All, OnOk, OnOk-ok, OnOk-err, OnOk-bind, OnOk-guard,
}
use kor_travel_docker_manage.Checks.{
  text, text_value, text-IsText, require_revision, require_digest, timestamp,
}
use kor_travel_docker_manage.Json.{Json, null, obj, get, only}
use kor_travel_docker_manage.Platform.{Platform}
use kor_travel_docker_manage.Pins.Entries.{optional}
use kor_travel_docker_manage.Pins.Document.{is_text}
use kor_travel_docker_manage.Executions.{
  ExecutionBinding, BlockedExecution, RuntimeExecutionRegistry, max_text, new_blocked_execution,
  new_execution_registry, optional_phase,
}
use kor_travel_docker_manage.Executions.Identity.{execution_identity}
use kor_travel_docker_manage.Executions.Document.{
  binding_from_payload, blocked_execution_from_payload, executions_from_payload, trimmed_phase,
  lifecycle, exactly,
}
use kor_travel_docker_manage.Executions.Laws.{
  new_blocked_execution-IsBlockedExecution, new_execution_registry_lem,
}
use kor_travel_docker_manage.Executions.RoundTrip.{IsTrimmed, IsStored}

text-strip : (v : Json) (name : String) {t : String} → text v name max_text ≡ ok t → strip t ≡ t
text-strip v name h =
    let e = (text-IsText v name max_text h).2 in ap strip e ∙ strip-strip (text_value v) ∙ sym e

trimmed_phase-IsTrimmed : (v : Json) → OnOk IsTrimmed (trimmed_phase v)
unfolding trimmed_phase
trimmed_phase-IsTrimmed null = OnOk-ok none tt
trimmed_phase-IsTrimmed v =
    OnOk-bind (text v _ max_text) _ λ p hp. OnOk-ok (some p) (text-strip v _ hp)

same_phase-IsTrimmed : (o p : Option String) → optional o ≡ optional p → IsTrimmed p → IsTrimmed o
same_phase-IsTrimmed none p e h = tt
same_phase-IsTrimmed (some s) none e h = ground arith
same_phase-IsTrimmed (some s) (some t) e h = ground arith

module _ (py : Platform) where
  new_blocked_execution-reason :
      (identity pinset manager reason at phase : Json)
      → OnOk
          (λ e. e.reason ≡ text_value reason)
          (new_blocked_execution py identity pinset manager reason at phase)
  unfolding new_blocked_execution
  new_blocked_execution-reason identity pinset manager reason at phase =
      OnOk-bind (require_digest identity _) _ λ i hi. OnOk-bind (require_digest pinset _) _ λ s hs.
        OnOk-bind (require_revision manager _) _ λ c hc.
          OnOk-bind (text reason _ max_text) _ λ v hv. OnOk-bind (timestamp py at _) _ λ t ht.
            OnOk-bind (optional_phase phase) _ λ f hf.
              OnOk-bind (execution_identity py s c) _
                λ d hd. OnOk-guard (i == d) _ _ λ same. OnOk-ok _ refl

  blocked-IsStored : (v : Json) → OnOk (IsStored py) (blocked_execution_from_payload py v)
  unfolding blocked_execution_from_payload
  blocked-IsStored (obj payload) = OnOk-guard (only _ payload) _ _ λ known.
      OnOk-bind (require_digest (get "execution_identity_sha256" payload) _) _ λ i hi.
        OnOk-bind (require_digest (get "source_pinset_sha256" payload) _) _ λ s hs.
          OnOk-bind (require_revision (get "manager_source_revision" payload) _) _ λ m hm.
            OnOk-bind (text (get "reason" payload) _ max_text) _ λ r hr.
              OnOk-bind (timestamp py (get "blocked_at" payload) _) _ λ t ht.
                OnOk-bind (trimmed_phase (get "phase" payload)) _ λ p hp. record {
                  at = λ e h.
                      let kept = (new_blocked_execution-IsBlockedExecution py _ _ _ _ _ _).at e h in
                      record {
                        valid = kept.0;
                        reason_trimmed =
                            rw ((new_blocked_execution-reason _ _ _ _ _ _).at e h)
                              (text-strip (get "reason" payload) _ hr);
                        phase_trimmed =
                            same_phase-IsTrimmed e.phase p (kept.2)
                              ((trimmed_phase-IsTrimmed (get "phase" payload)).at p hp);
                      };
                }
  blocked-IsStored _ = OnOk-err _

  IsStored-after :
      (current : ExecutionBinding) (history : List ExecutionBinding)
      (blocked : List BlockedExecution) (r : RuntimeExecutionRegistry)
      → new_execution_registry current history blocked ≡ ok r
      → All (IsStored py) blocked
      → All (IsStored py) r.blocked_executions
  IsStored-after current history blocked r h stored =
      rw (((new_execution_registry_lem py current history blocked).at r h).2) stored

  -- A registry that the parser returns has no text with white space around it in its block list.
  pub executions_from_payload-IsStored :
      (v : Json) → OnOk (λ r. All (IsStored py) r.blocked_executions) (executions_from_payload py v)
  unfolding executions_from_payload
  executions_from_payload-IsStored (obj payload) = OnOk-guard (exactly _ payload) _ _ λ known.
      OnOk-guard (is_text _ (get "schema" payload)) _ _ λ supported.
        OnOk-bind (lifecycle (get "history" payload)) _ λ hs hhs.
          OnOk-bind (lifecycle (get "blocked_executions" payload)) _ λ bs hbs.
            OnOk-bind (binding_from_payload py (get "current" payload)) _ λ current hc.
              OnOk-bind (traverse (binding_from_payload py) hs) _ λ history hh.
                OnOk-bind (traverse (blocked_execution_from_payload py) bs) _ λ blocked hb. record {
                  at = λ r h.
                      IsStored-after current history blocked r h
                        ((traverse-All _ (IsStored py) blocked-IsStored bs).at blocked hb);
                }
  executions_from_payload-IsStored _ = OnOk-err _
