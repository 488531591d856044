-- ===== src/Executions/Blocks.antt =====
-- What block_current_execution does to the execution registry.
use kor_travel_docker_manage.Common.{
  String, Bool, true, ◌||◌, Option, none, some, List, [], ◌∷◌, ◌++◌, ◌≡◌, refl, sym, ap, ◌==◌,
  eq_iff, arith, All-append, any, any-append, length, ◌≤◌, Bool-cases, inl, inr,
}
use kor_travel_docker_manage.Common.Result.{ok, OnOk, OnOk-ok, OnOk-bind, OnOk-if}
use kor_travel_docker_manage.Json.{str}
use kor_travel_docker_manage.Platform.{Platform}
use kor_travel_docker_manage.Pins.Entries.{optional}
use kor_travel_docker_manage.Pins.Registry.{is_none, same_phase}
use kor_travel_docker_manage.Executions.{
  BlockedExecution, RuntimeExecutionRegistry, new_blocked_execution, new_execution_registry,
  block_current_execution, is_unconditionally_blocked_current, is_recorded_phase,
  has_block_for_current, is_entry,
}
use kor_travel_docker_manage.Executions.Laws.{
  IsBlockedExecution, IsExecutionRegistry, new_blocked_execution-IsBlockedExecution,
  new_execution_registry_lem,
}

-- The block is on record, for the phase given; nothing else is lost or moved.
pub record Blocks (py : Platform) (r : RuntimeExecutionRegistry) (phase : Option String)
    (next : RuntimeExecutionRegistry) : Type 0 where
  pub same_current : next.current ≡ r.current
  pub same_history : next.history ≡ r.history
  pub keeps :
      (added : List BlockedExecution) × (next.blocked_executions ≡ r.blocked_executions ++ added)
      × (length added ≤ 1)
  pub found : has_block_for_current next phase ≡ true
  pub settled : (is_unconditionally_blocked_current next || is_recorded_phase next phase) ≡ true

append-nil : {A : Type 0} (xs : List A) → xs ++ [] ≡ xs
append-nil [] = refl
append-nil (x ∷ xs) = ap (λ ys. x ∷ ys) (append-nil xs)

any-imp :
    {A : Type 0} (p q : A → Bool) (xs : List A)
    → ((x : A) → p x ≡ true → q x ≡ true)
    → any p xs ≡ true
    → any q xs ≡ true
any-imp p q [] h e = e
any-imp p q (x ∷ xs) h e = ground (arith, h x, any-imp p q xs h)

same_phase-eq : (o phase : Option String) → optional o ≡ optional phase → same_phase o phase ≡ true
same_phase-eq none none h = refl
same_phase-eq none (some b) h = cc
same_phase-eq (some a) none h = cc
same_phase-eq (some a) (some b) h = (eq_iff a b).1 (cc (h))

-- An entry of the phase, or without one, is found for the phase.
settled-found :
    (r : RuntimeExecutionRegistry) (phase : Option String)
    → (is_unconditionally_blocked_current r || is_recorded_phase r phase) ≡ true
    → has_block_for_current r phase ≡ true
unfolding is_unconditionally_blocked_current is_recorded_phase has_block_for_current
settled-found r none h =
    any-imp (is_entry is_none r.current.execution_identity_sha256) _ r.blocked_executions
      (λ e he. ground (arith, he)) (ground (arith, h))
settled-found r (some phase) h = elim (Bool-cases (is_unconditionally_blocked_current r)) [
  | inl final ↦
      any-imp (is_entry is_none r.current.execution_identity_sha256) _ r.blocked_executions
        (λ e he. ground (arith, he)) final
  | inr scoped ↦
      any-imp
        (is_entry (λ scope. same_phase scope (some phase)) r.current.execution_identity_sha256) _
        r.blocked_executions (λ e he. ground (arith, he)) (ground (arith, h, scoped))
]

-- The entry that is appended settles the phase.
appended-settled :
    (r : RuntimeExecutionRegistry) (phase : Option String) (es : List BlockedExecution)
    (e : BlockedExecution)
    → r.blocked_executions ≡ es ++ e ∷ []
    → (e.execution_identity_sha256 == r.current.execution_identity_sha256) ≡ true
    → same_phase e.phase phase ≡ true
    → (is_unconditionally_blocked_current r || is_recorded_phase r phase) ≡ true
unfolding is_unconditionally_blocked_current is_recorded_phase
appended-settled r none es e h own scope = rw (h, any-append) (ground (arith, own, scope))
appended-settled r (some phase) es e h own scope =
    rw (h, any-append, any-append) (ground (arith, own, scope))

module _ (py : Platform) (now : String) where
  unmoved :
      (r : RuntimeExecutionRegistry) (phase : Option String)
      → (is_unconditionally_blocked_current r || is_recorded_phase r phase) ≡ true
      → Blocks py r phase r
  unmoved r phase h = record {
    same_current = refl;
    same_history = refl;
    keeps = ([], sym (append-nil r.blocked_executions), omega arith);
    found = settled-found r phase h;
    settled = h;
  }

  block-OnOk :
      (r : RuntimeExecutionRegistry) (reason : String) (phase : Option String)
      → OnOk (Blocks py r phase) (block_current_execution py now r reason phase)
  unfolding block_current_execution
  block-OnOk r reason phase =
      OnOk-if (is_unconditionally_blocked_current r) _ _
        (λ final. OnOk-ok r (unmoved r phase (ground (arith, final))))
        λ _.
          OnOk-if (is_recorded_phase r phase) _ _
            (λ recorded. OnOk-ok r (unmoved r phase (ground (arith, recorded))))
            λ _.
              OnOk-bind
                (new_blocked_execution py (str r.current.execution_identity_sha256)
                  (str r.current.source_pinset_sha256) (str r.current.manager_source_revision)
                  (str reason) (str now) (optional phase))
                _ λ e he. record { at = λ next h. appended next e he h }
    where
      appended :
          (next : RuntimeExecutionRegistry) (e : BlockedExecution)
          → new_blocked_execution py
              (str r.current.execution_identity_sha256)
              (str r.current.source_pinset_sha256)
              (str r.current.manager_source_revision)
              (str reason)
              (str now)
              (optional phase)
            ≡ ok e
          → new_execution_registry r.current r.history (r.blocked_executions ++ e ∷ []) ≡ ok next
          → Blocks py r phase next
      appended next e he h =
          let f = (new_execution_registry_lem py r.current r.history _).at next h in
          let (entry, own, scope) =
            (new_blocked_execution-IsBlockedExecution py _ _ _ _ _ _).at e he in
          let settles =
            appended-settled next phase r.blocked_executions e (f.2)
              (rw (f.0) ((eq_iff _ _).1 (cc (own)))) (same_phase-eq e.phase phase scope) in
          record {
            same_current = f.0;
            same_history = f.1;
            keeps = (e ∷ [], f.2, omega arith);
            found = settled-found next phase settles;
            settled = settles;
          }

  -- Blocking the current execution, where it succeeds, leaves the current execution and the history
  -- alone, adds at most one entry at the end of the block list, and has then a block on record that is
  -- found for the phase given.
  pub block_lem :
      (r : RuntimeExecutionRegistry) (reason : String) (phase : Option String)
      (next : RuntimeExecutionRegistry)
      → block_current_execution py now r reason phase ≡ ok next
      → Blocks py r phase next
  block_lem r reason phase next h = (block-OnOk r reason phase).at next h

  -- A second block for the same phase, with any reason and at any time, changes nothing: a retry does
  -- not make the list longer.
  pub block_twice :
      (r : RuntimeExecutionRegistry) (reason again later : String) (phase : Option String)
      (next : RuntimeExecutionRegistry)
      → block_current_execution py now r reason phase ≡ ok next
      → block_current_execution py later next again phase ≡ ok next
  unfolding block_current_execution
  block_twice r reason again later phase next h =
      ground (arith, (block_lem r reason phase next h).settled)

  valid-OnOk :
      (r : RuntimeExecutionRegistry) (reason : String) (phase : Option String)
      → IsExecutionRegistry py r
      → OnOk (IsExecutionRegistry py) (block_current_execution py now r reason phase)
  unfolding block_current_execution
  valid-OnOk r reason phase v =
      OnOk-if (is_unconditionally_blocked_current r) _ _ (λ final. OnOk-ok r v)
        λ _.
          OnOk-if (is_recorded_phase r phase) _ _ (λ recorded. OnOk-ok r v)
            λ _.
              OnOk-bind
                (new_blocked_execution py (str r.current.execution_identity_sha256)
                  (str r.current.source_pinset_sha256) (str r.current.manager_source_revision)
                  (str reason) (str now) (optional phase))
                _
                λ e he. record {
                  at = λ next h.
                      let entry =
                        ((new_blocked_execution-IsBlockedExecution py _ _ _ _ _ _).at e he).0 in
                      ((new_execution_registry_lem py r.current r.history _).at next h).3 v.current
                        v.history
                        (All-append (IsBlockedExecution py) r.blocked_executions (e ∷ []) v.blocked
                          (entry, tt));
                }

  -- Blocking the current execution of a well-formed registry gives a well-formed one.
  pub block-IsExecutionRegistry :
      (r : RuntimeExecutionRegistry) (reason : String) (phase : Option String)
      (next : RuntimeExecutionRegistry)
      → IsExecutionRegistry py r
      → block_current_execution py now r reason phase ≡ ok next
      → IsExecutionRegistry py next
  block-IsExecutionRegistry r reason phase next v h = (valid-OnOk r reason phase v).at next h
