-- ===== src/Executions/Laws.antt =====
-- What the constructors of the execution registry have checked.
use kor_travel_docker_manage.Common.{
  String, Bool, true, false, not, ◌||◌, Option, none, some, List, ◌≡◌, refl, sym, ◌∙◌, ◌==◌, eq_iff,
  ◌≤◌, arith, is_hex_word, All, length, ltb, or-eq-false, not_ltb→le, le→not_ltb,
}
use kor_travel_docker_manage.Common.Result.{ok, OnOk, OnOk-ok, OnOk-bind, OnOk-guard}
use kor_travel_docker_manage.Checks.{
  IsText, is_whole_timestamp, text, text_value, text-IsText, text-eq-ok, require_revision,
  require_revision-eq, require_digest, require_digest-eq, timestamp, timestamp-eq,
}
use kor_travel_docker_manage.Json.{Json, str}
use kor_travel_docker_manage.Platform.{Platform}
use kor_travel_docker_manage.Pins.Entries.{optional}
use kor_travel_docker_manage.Executions.{
  ExecutionBinding, BlockedExecution, RuntimeExecutionRegistry, max_text, max_history, max_blocked,
  optional_phase, new_binding, new_blocked_execution, ends_elsewhere, new_execution_registry,
}
use kor_travel_docker_manage.Executions.Identity.{
  execution_digest, execution_identity, execution_identity_lem, execution_identity-eq-ok,
}

abbrev pub IsPhase : Option String → Type 0
IsPhase none = Unit
IsPhase (some s) = IsText max_text s

optional_phase-IsPhase : (v : Json) {o : Option String} → optional_phase v ≡ ok o → IsPhase o
unfolding optional_phase text
optional_phase-IsPhase v h = ground arith

optional_phase-keeps : (v : Json) {o : Option String} → optional_phase v ≡ ok o → optional o ≡ v
unfolding optional_phase text
optional_phase-keeps v h = ground arith

not-eq : {b : Bool} → not b ≡ true → b ≡ false
not-eq h = ground arith

module _ (py : Platform) where
  -- A binding's identity is the digest of its pinset and Manager revision.
  pub record IsBinding (e : ExecutionBinding) : Type 0 where
    pub source : is_hex_word 64 e.source_pinset_sha256 ≡ true
    pub map_rev : is_hex_word 40 e.map_revision ≡ true
    pub pinvi_rev : is_hex_word 40 e.pinvi_revision ≡ true
    pub manager : is_hex_word 40 e.manager_source_revision ≡ true
    pub identity :
        e.execution_identity_sha256
        ≡ execution_digest py e.source_pinset_sha256 e.manager_source_revision
    pub digest : is_hex_word 64 e.execution_identity_sha256 ≡ true
    pub at : is_whole_timestamp py e.bound_at ≡ true
    pub by : IsText max_text e.bound_by
    pub reason : IsText max_text e.reason

  pub record IsBlockedExecution (e : BlockedExecution) : Type 0 where
    pub source : is_hex_word 64 e.source_pinset_sha256 ≡ true
    pub manager : is_hex_word 40 e.manager_source_revision ≡ true
    pub identity :
        e.execution_identity_sha256
        ≡ execution_digest py e.source_pinset_sha256 e.manager_source_revision
    pub digest : is_hex_word 64 e.execution_identity_sha256 ≡ true
    pub at : is_whole_timestamp py e.blocked_at ≡ true
    pub reason : IsText max_text e.reason
    pub phase : IsPhase e.phase

  -- The lists are within their bounds, and a history ends at the current execution.
  pub record IsExecutionRegistry (r : RuntimeExecutionRegistry) : Type 0 where
    pub current : IsBinding r.current
    pub history : All IsBinding r.history
    pub blocked : All IsBlockedExecution r.blocked_executions
    pub history_fits : length r.history ≤ max_history
    pub blocked_fits : length r.blocked_executions ≤ max_blocked
    pub ends : ends_elsewhere r.history r.current ≡ false

  pub new_binding-IsBinding :
      (pinset m p manager identity at by reason : Json)
      → OnOk IsBinding (new_binding py pinset m p manager identity at by reason)
  unfolding new_binding
  new_binding-IsBinding pinset m p manager identity at by reason =
      OnOk-bind (require_digest pinset _) _ λ s hs. OnOk-bind (require_revision m _) _ λ a ha.
        OnOk-bind (require_revision p _) _ λ b hb. OnOk-bind (require_revision manager _) _ λ c hc.
          OnOk-bind (timestamp py at _) _ λ t ht. OnOk-bind (text by _ max_text) _ λ u hu.
            OnOk-bind (text reason _ max_text) _ λ v hv.
              OnOk-bind (execution_identity py s c) _ λ d hd.
                OnOk-guard (text_value identity == d) _ _ λ same. OnOk-ok _ (record {
                  source = (require_digest-eq pinset _ hs).1;
                  map_rev = (require_revision-eq m _ ha).1;
                  pinvi_rev = (require_revision-eq p _ hb).1;
                  manager = (require_revision-eq manager _ hc).1;
                  identity = (eq_iff _ _).0 same ∙ ((execution_identity_lem py s c).at d hd).0;
                  digest = rw ((eq_iff _ _).0 same) (((execution_identity_lem py s c).at d hd).1);
                  at = (timestamp-eq py at _ ht).1;
                  by = (text-IsText by _ max_text hu).0;
                  reason = (text-IsText reason _ max_text hv).0;
                })

  -- The constructor keeps what it is given.
  pub new_binding-fields :
      (pinset m p manager identity at by reason : Json)
      → OnOk
          (λ e.
            (str e.source_pinset_sha256 ≡ pinset)
            × (str e.map_revision ≡ m)
            × (str e.pinvi_revision ≡ p)
            × (str e.manager_source_revision ≡ manager))
          (new_binding py pinset m p manager identity at by reason)
  unfolding new_binding
  new_binding-fields pinset m p manager identity at by reason =
      OnOk-bind (require_digest pinset _) _ λ s hs. OnOk-bind (require_revision m _) _ λ a ha.
        OnOk-bind (require_revision p _) _ λ b hb. OnOk-bind (require_revision manager _) _ λ c hc.
          OnOk-bind (timestamp py at _) _ λ t ht. OnOk-bind (text by _ max_text) _ λ u hu.
            OnOk-bind (text reason _ max_text) _ λ v hv.
              OnOk-bind (execution_identity py s c) _ λ d hd.
                OnOk-guard (text_value identity == d) _ _ λ same. OnOk-ok _ (
                  sym ((require_digest-eq pinset _ hs).0),
                  sym ((require_revision-eq m _ ha).0),
                  sym ((require_revision-eq p _ hb).0),
                  sym ((require_revision-eq manager _ hc).0),
                )

  pub new_blocked_execution-IsBlockedExecution :
      (identity pinset manager reason at phase : Json)
      → OnOk
          (λ e.
            IsBlockedExecution e
            × (str e.execution_identity_sha256 ≡ identity)
            × (optional e.phase ≡ phase))
          (new_blocked_execution py identity pinset manager reason at phase)
  unfolding new_blocked_execution
  new_blocked_execution-IsBlockedExecution identity pinset manager reason at phase =
      OnOk-bind (require_digest identity _) _ λ i hi. OnOk-bind (require_digest pinset _) _ λ s hs.
        OnOk-bind (require_revision manager _) _ λ c hc.
          OnOk-bind (text reason _ max_text) _ λ v hv. OnOk-bind (timestamp py at _) _ λ t ht.
            OnOk-bind (optional_phase phase) _ λ f hf.
              OnOk-bind (execution_identity py s c) _ λ d hd. OnOk-guard (i == d) _ _ λ same.
                OnOk-ok _ (
                  record {
                    source = (require_digest-eq pinset _ hs).1;
                    manager = (require_revision-eq manager _ hc).1;
                    identity = (eq_iff _ _).0 same ∙ ((execution_identity_lem py s c).at d hd).0;
                    digest = (require_digest-eq identity _ hi).1;
                    at = (timestamp-eq py at _ ht).1;
                    reason = (text-IsText reason _ max_text hv).0;
                    phase = optional_phase-IsPhase phase hf;
                  },
                  sym ((require_digest-eq identity _ hi).0),
                  optional_phase-keeps phase hf,
                )

  pub new_execution_registry_lem :
      (current : ExecutionBinding) (history : List ExecutionBinding)
      (blocked : List BlockedExecution)
      → OnOk
          (λ r.
            (r.current ≡ current)
            × (r.history ≡ history)
            × (r.blocked_executions ≡ blocked)
            × (IsBinding current
                → All IsBinding history
                → All IsBlockedExecution blocked
                → IsExecutionRegistry r))
          (new_execution_registry current history blocked)
  unfolding new_execution_registry
  new_execution_registry_lem current history blocked =
      OnOk-guard (not (ltb max_history (length history) || ltb max_blocked (length blocked))) _ _
        λ fit. OnOk-guard (not (ends_elsewhere history current)) _ _ λ ends.
          let (h, b) = or-eq-false _ _ (not-eq fit) in
          OnOk-ok _ (
            refl,
            refl,
            refl,
            λ hc hh hb. record {
              current = hc;
              history = hh;
              blocked = hb;
              history_fits = not_ltb→le max_history _ h;
              blocked_fits = not_ltb→le max_blocked _ b;
              ends = not-eq ends;
            },
          )

  pub new_execution_registry-eq-ok :
      (r : RuntimeExecutionRegistry)
      → IsExecutionRegistry r
      → new_execution_registry r.current r.history r.blocked_executions ≡ ok r
  unfolding new_execution_registry
  new_execution_registry-eq-ok r v =
      rw (le→not_ltb _ _ v.history_fits, le→not_ltb _ _ v.blocked_fits, v.ends)

  pub new_binding-eq-ok :
      (e : ExecutionBinding)
      → IsBinding e
      → new_binding py
          (str e.source_pinset_sha256)
          (str e.map_revision)
          (str e.pinvi_revision)
          (str e.manager_source_revision)
          (str e.execution_identity_sha256)
          (str e.bound_at)
          (str e.bound_by)
          (str e.reason)
        ≡ ok e
  unfolding new_binding require_digest require_revision timestamp
  new_binding-eq-ok e v = rw (
    v.source,
    v.map_rev,
    v.pinvi_rev,
    v.manager,
    v.at,
    text-eq-ok e.bound_by "bound_by" max_text v.by,
    text-eq-ok e.reason "reason" max_text v.reason,
    execution_identity-eq-ok py e.source_pinset_sha256 e.manager_source_revision v.source v.manager
        (rw (sym v.identity) v.digest),
    (eq_iff _ _).1 v.identity,
  )
