-- ===== src/Executions/Rebind.antt =====
-- What a rebind and a source rotation do to the execution registry.
use kor_travel_docker_manage.Common.{
  ◌⊎◌, inl, inr, String, Bool, true, false, not, ◌||◌, some, [], ◌∷◌, ◌++◌, ◌≡◌, ◌≢◌, refl, ◌∙◌,
  ◌==◌, eq_iff, arith, All-append, All-drop, last?, last?-take_last, any,
}
use kor_travel_docker_manage.Common.Result.{ok, OnOk, OnOk-ok, OnOk-err, OnOk-bind, OnOk-if}
use kor_travel_docker_manage.Platform.{Platform}
use kor_travel_docker_manage.Pins.Registry.{RuntimePinRegistry, is_none}
use kor_travel_docker_manage.Executions.{
  ExecutionBinding, RuntimeExecutionRegistry, max_history, new_execution_binding, bind_next,
  rebind_execution_registry, rotate_execution_source_binding, current_matches,
  is_unconditionally_blocked_current, is_entry,
}
use kor_travel_docker_manage.Executions.Identity.{execution_digest, execution_identity}
use kor_travel_docker_manage.Executions.Laws.{
  IsBinding, IsExecutionRegistry, new_binding-IsBinding, new_binding-fields,
  new_execution_registry_lem,
}

-- A binding to the pins and to the Manager.
record BindsTo (py : Platform) (pins : RuntimePinRegistry) (revision : String)
    (e : ExecutionBinding) : Type 0 where
  valid : IsBinding py e
  source : e.source_pinset_sha256 ≡ pins.pinset_sha256
  map_rev : e.map_revision ≡ pins.map_revision
  pinvi_rev : e.pinvi_revision ≡ pins.pinvi_revision
  manager : e.manager_source_revision ≡ revision

-- The registry has gone on to a new execution, which its history ends at; every recorded block is
-- kept, and the new execution is blocked only if the list names its own digest.
pub record Advances (py : Platform) (r : RuntimeExecutionRegistry) (pins : RuntimePinRegistry)
    (revision : String) (next : RuntimeExecutionRegistry) : Type 0 where
  pub matches : current_matches next pins revision ≡ true
  pub ends : last? next.history ≡ some next.current
  pub keeps : next.blocked_executions ≡ r.blocked_executions
  pub blocked :
      is_unconditionally_blocked_current next
      ≡ any
          (is_entry is_none (execution_digest py pins.pinset_sha256 revision))
          r.blocked_executions

abbrev moved : RuntimeExecutionRegistry → RuntimePinRegistry → Bool
moved r pins =
    not (r.current.source_pinset_sha256 == pins.pinset_sha256)
    || not (r.current.map_revision == pins.map_revision)
    || not (r.current.pinvi_revision == pins.pinvi_revision)

unmoved :
    (r : RuntimeExecutionRegistry) (pins : RuntimePinRegistry)
    → moved r pins ≡ false
    → (r.current.source_pinset_sha256 ≡ pins.pinset_sha256)
      × (r.current.map_revision ≡ pins.map_revision)
      × (r.current.pinvi_revision ≡ pins.pinvi_revision)
unmoved r pins same = (
  (eq_iff _ _).0 (ground (arith, same)),
  (eq_iff _ _).0 (ground (arith, same)),
  (eq_iff _ _).0 (ground (arith, same)),
)

module _ (py : Platform) (now : String) where
  new_execution_binding_lem :
      (pins : RuntimePinRegistry) (manager by reason : String)
      → OnOk (BindsTo py pins manager) (new_execution_binding py now pins manager by reason)
  unfolding new_execution_binding
  new_execution_binding_lem pins manager by reason =
      OnOk-bind (execution_identity py pins.pinset_sha256 manager) _ λ d hd. record {
        at = λ e he.
            let f = (new_binding-fields py _ _ _ _ _ _ _ _).at e he in
            record {
              valid = (new_binding-IsBinding py _ _ _ _ _ _ _ _).at e he;
              source = cc (f.0);
              map_rev = cc (f.1);
              pinvi_rev = cc (f.2);
              manager = cc (f.3);
            };
      }

  matches-eq :
      (r : RuntimeExecutionRegistry) (pins : RuntimePinRegistry) (manager : String)
      → BindsTo py pins manager r.current
      → current_matches r pins manager ≡ true
  unfolding current_matches
  matches-eq r pins manager b = ground (
    arith,
    (eq_iff _ _).1 b.source,
    (eq_iff _ _).1 b.map_rev,
    (eq_iff _ _).1 b.pinvi_rev,
    (eq_iff _ _).1 b.manager,
  )

  identity-eq :
      (pins : RuntimePinRegistry) (manager : String) (e : ExecutionBinding)
      → BindsTo py pins manager e
      → e.execution_identity_sha256 ≡ execution_digest py pins.pinset_sha256 manager
  identity-eq pins manager e b = b.valid.identity ∙ rw (b.source, b.manager)

  bind_next_lem :
      (r : RuntimeExecutionRegistry) (pins : RuntimePinRegistry) (manager by reason : String)
      → OnOk (Advances py r pins manager) (bind_next py now r pins manager by reason)
  unfolding bind_next is_unconditionally_blocked_current
  bind_next_lem r pins manager by reason =
      OnOk-bind (new_execution_binding py now pins manager by reason) _ λ e he. record {
        at = λ next h.
            let b = (new_execution_binding_lem pins manager by reason).at e he in
            let f = (new_execution_registry_lem py e _ _).at next h in
            record {
              matches = matches-eq next pins manager (rw (f.0) b);
              ends = rw (f.0, f.1) (last?-take_last max_history r.history e (omega arith));
              keeps = f.2;
              blocked = rw (f.0, f.2, identity-eq pins manager e b);
            };
      }

  -- A rebind succeeds only for the pins that the current execution is bound to. It returns the
  -- registry as it is where the current execution is bound to the Manager's revision too, and
  -- advances to a new execution where it is not.
  pub rebind_lem :
      (r : RuntimeExecutionRegistry) (pins : RuntimePinRegistry) (manager by reason : String)
      (next : RuntimeExecutionRegistry)
      → rebind_execution_registry py now r pins manager by reason ≡ ok next
      → (r.current.source_pinset_sha256 ≡ pins.pinset_sha256)
        × (r.current.map_revision ≡ pins.map_revision)
        × (r.current.pinvi_revision ≡ pins.pinvi_revision)
        × (((r.current.manager_source_revision ≡ manager) × (next ≡ r))
            ⊎ ((r.current.manager_source_revision ≢ manager) × Advances py r pins manager next))
  unfolding rebind_execution_registry
  rebind_lem r pins manager by reason next h = rebound.at next h
    where
      Rebound : RuntimeExecutionRegistry → Type 0
      Rebound n =
          (r.current.source_pinset_sha256 ≡ pins.pinset_sha256)
          × (r.current.map_revision ≡ pins.map_revision)
          × (r.current.pinvi_revision ≡ pins.pinvi_revision)
          × (((r.current.manager_source_revision ≡ manager) × (n ≡ r))
              ⊎ ((r.current.manager_source_revision ≢ manager) × Advances py r pins manager n))

      rebound : OnOk Rebound (rebind_execution_registry py now r pins manager by reason)
      rebound =
          OnOk-if (moved r pins) _ _ (λ _. OnOk-err _)
            λ same.
              OnOk-if (r.current.manager_source_revision == manager) _ _
                (λ bound. OnOk-ok r (
                  (unmoved r pins same).0,
                  (unmoved r pins same).1,
                  (unmoved r pins same).2,
                  inl ((eq_iff _ _).0 bound, refl),
                ))
                λ fresh. record {
                  at = λ n hn. (
                    (unmoved r pins same).0,
                    (unmoved r pins same).1,
                    (unmoved r pins same).2,
                    inr (
                      λ e. ground (arith, fresh, (eq_iff _ _).1 e),
                      (bind_next_lem r pins manager by reason).at n hn,
                    ),
                  );
                }

  -- A source rotation succeeds only where the current execution is not bound to the pins and to the
  -- Manager yet, and then advances to a new execution.
  pub rotate_lem :
      (r : RuntimeExecutionRegistry) (pins : RuntimePinRegistry) (manager by reason : String)
      (next : RuntimeExecutionRegistry)
      → rotate_execution_source_binding py now r pins manager by reason ≡ ok next
      → (current_matches r pins manager ≡ false) × Advances py r pins manager next
  unfolding rotate_execution_source_binding
  rotate_lem r pins manager by reason next h = rotated.at next h
    where
      rotated :
          OnOk
            (λ n. (current_matches r pins manager ≡ false) × Advances py r pins manager n)
            (rotate_execution_source_binding py now r pins manager by reason)
      rotated =
          OnOk-if (current_matches r pins manager) _ _ (λ _. OnOk-err _)
            λ fresh. record {
              at = λ n hn. (fresh, (bind_next_lem r pins manager by reason).at n hn);
            }

  bind_next-valid :
      (r : RuntimeExecutionRegistry) (pins : RuntimePinRegistry) (manager by reason : String)
      → IsExecutionRegistry py r
      → OnOk (IsExecutionRegistry py) (bind_next py now r pins manager by reason)
  unfolding bind_next
  bind_next-valid r pins manager by reason v =
      OnOk-bind (new_execution_binding py now pins manager by reason) _ λ e he. record {
        at = λ next h.
            let b = (new_execution_binding_lem pins manager by reason).at e he in
            ((new_execution_registry_lem py e _ _).at next h).3 b.valid
              (All-drop (IsBinding py) _ (r.history ++ e ∷ [])
                (All-append (IsBinding py) r.history (e ∷ []) v.history (b.valid, tt)))
              v.blocked;
      }

  -- A rebind of a well-formed registry gives a well-formed one.
  pub rebind-IsExecutionRegistry :
      (r : RuntimeExecutionRegistry) (pins : RuntimePinRegistry) (manager by reason : String)
      (next : RuntimeExecutionRegistry)
      → IsExecutionRegistry py r
      → rebind_execution_registry py now r pins manager by reason ≡ ok next
      → IsExecutionRegistry py next
  unfolding rebind_execution_registry
  rebind-IsExecutionRegistry r pins manager by reason next v h = rebound.at next h
    where
      rebound :
          OnOk (IsExecutionRegistry py) (rebind_execution_registry py now r pins manager by reason)
      rebound =
          OnOk-if (moved r pins) _ _ (λ _. OnOk-err _)
            λ same.
              OnOk-if (r.current.manager_source_revision == manager) _ _ (λ bound. OnOk-ok r v)
                λ _. bind_next-valid r pins manager by reason v

  -- A source rotation of a well-formed registry gives a well-formed one.
  pub rotate-IsExecutionRegistry :
      (r : RuntimeExecutionRegistry) (pins : RuntimePinRegistry) (manager by reason : String)
      (next : RuntimeExecutionRegistry)
      → IsExecutionRegistry py r
      → rotate_execution_source_binding py now r pins manager by reason ≡ ok next
      → IsExecutionRegistry py next
  unfolding rotate_execution_source_binding
  rotate-IsExecutionRegistry r pins manager by reason next v h = rotated.at next h
    where
      rotated :
          OnOk
            (IsExecutionRegistry py)
            (rotate_execution_source_binding py now r pins manager by reason)
      rotated =
          OnOk-if (current_matches r pins manager) _ _ (λ _. OnOk-err _)
            λ fresh. bind_next-valid r pins manager by reason v
