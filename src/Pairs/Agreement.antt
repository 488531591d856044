-- ===== src/Pairs/Agreement.antt =====
-- Where a transaction over both registries succeeds, the execution it publishes is bound to the pins
-- that it publishes.
use kor_travel_docker_manage.Common.{
  String, true, Option, none, ◌≡◌, arith, Bool-cases, inl, inr, is_hex_word,
}
use kor_travel_docker_manage.Common.Result.{Result, ok, err, guard}
use kor_travel_docker_manage.Errors.{Error, targets_not_local, rollback_digest_invalid}
use kor_travel_docker_manage.Platform.{Platform}
use kor_travel_docker_manage.Pins.Registry.{RuntimePinRegistry}
use kor_travel_docker_manage.Pins.Store.{prepare_rollback}
use kor_travel_docker_manage.Executions.{RuntimeExecutionRegistry, current_matches}
use kor_travel_docker_manage.Executions.Files.{load_executions}
use kor_travel_docker_manage.Executions.Rebind.{rotate_lem}
use kor_travel_docker_manage.Pairs.{RuntimePairRotation, new_pair_rotation}
use kor_travel_docker_manage.Pairs.Files.{Site, execution_host, read_intent}
use kor_travel_docker_manage.Pairs.Disk.{
  Disk, Action, continue, ◌>>=◌, lift, load_pending, store_intent,
}
use kor_travel_docker_manage.Pairs.Rules.{bind_rule, pure_rule, pins_rule}
use kor_travel_docker_manage.Pairs.Outcome.{
  IsPublished, IsTarget, Outcome, refused, interrupted, published, unsynced,
}
use kor_travel_docker_manage.Pairs.Atomic.{rotation_outcome, new_pair_rotation-eq}
use kor_travel_docker_manage.Pairs.Publication.{publish_rule}
use kor_travel_docker_manage.Pairs.Transaction.{
  Times, PairRequest, RollbackRequest, load_current_executions, intend, publish_rotation_target,
  rolled_back_executions, prepare_pair_rollback, resume_rollback, normalized,
  rotate_pair_with_execution, rollback_with_execution,
}

module _ (py : Platform) (site : Site) (times : Times) where
  -- The published registries belong together, and the pins are those that were returned.
  pub record Agrees (manager : String) (pins : RuntimePinRegistry) (d : Disk) : Type 0 where
    pub target : RuntimePairRotation
    pub returned : target.pin_registry ≡ pins
    pub done : IsPublished py site times target d
    pub matches : current_matches target.execution_registry target.pin_registry manager ≡ true

  target-matches :
      (q : PairRequest) (d : Disk) (t : RuntimePairRotation)
      → IsTarget py site times q d t
      → current_matches t.execution_registry t.pin_registry q.manager_source_revision ≡ true
  target-matches q d t target =
      (rotate_lem py times.bound_at target.executions t.pin_registry q.manager_source_revision
        q.rotated_by q.reason t.execution_registry target.bound).1.matches

  outcome-Agrees :
      (q : PairRequest) (d : Disk) (run : Result Error RuntimePinRegistry × Disk)
      (pins : RuntimePinRegistry)
      → Outcome py site times q d run
      → run.0 ≡ ok pins
      → Agrees q.manager_source_revision pins run.1
  outcome-Agrees q d run pins (refused e d' same) h = ground arith
  outcome-Agrees q d run pins (interrupted e t d' target waits) h = ground arith
  outcome-Agrees q d run pins (unsynced t d' target done) h = ground arith
  outcome-Agrees q d run pins (published t d' target done) h = record {
    target = t;
    returned = cc;
    done = done;
    matches = target-matches q d t target;
  }

  -- Where no intent is pending and a pair rotation succeeds, the pins that it returns are on the disk
  -- with an execution that is bound to them and to the Manager's revision, in the private and the
  -- public copy of each registry, and no intent is left.
  pub rotated_pair-Agrees :
      (q : PairRequest) (d : Disk) (pins : RuntimePinRegistry)
      → d.intent ≡ none
      → (rotate_pair_with_execution py site times q d).0 ≡ ok pins
      → Agrees q.manager_source_revision pins (rotate_pair_with_execution py site times q d).1
  rotated_pair-Agrees q d pins free h =
      outcome-Agrees q d _ pins (rotation_outcome py site times q d free) h

  -- What a rollback publishes, and the executions that it found.
  pub record RollsBack (q : RollbackRequest) (d : Disk) (pins : RuntimePinRegistry) (d' : Disk)
      : Type 0 where
    pub agrees : Agrees q.manager_source_revision pins d'
    pub found : RuntimeExecutionRegistry
    pub loaded :
        load_executions py
          (execution_host site).process
          d.executions.private_root
          d.executions.registry
        ≡ ok found
    pub healed :
        current_matches found pins q.manager_source_revision ≡ true
        → agrees.target.execution_registry ≡ found

  rolled_back_executions-lem :
      (q : RollbackRequest) (pins : RuntimePinRegistry) (found next : RuntimeExecutionRegistry)
      → rolled_back_executions py site times q pins found ≡ ok next
      → (current_matches next pins q.manager_source_revision ≡ true)
        × (current_matches found pins q.manager_source_revision ≡ true → next ≡ found)
  unfolding rolled_back_executions
  rolled_back_executions-lem q pins found next h =
      elim (Bool-cases (current_matches found pins q.manager_source_revision)) [
        | inl kept ↦ let same : next ≡ found = ground arith in (rw same kept, λ _. same)
        | inr moved ↦ (
          (rotate_lem py times.bound_at found pins q.manager_source_revision q.rotated_by q.reason
              next (ground arith)).1.matches,
          λ kept. ground arith,
        )
      ]

  -- A run that returns pins has rolled back to them.
  abbrev Succeeds : RollbackRequest → Disk → Result Error RuntimePinRegistry × Disk → Type 0
  Succeeds q d r = (pins : RuntimePinRegistry) → r.0 ≡ ok pins → RollsBack q d pins r.1

  fails : (q : RollbackRequest) (d d' : Disk) (x : Error) → Succeeds q d (err x, d')
  fails q d d' x pins h = ground arith

  published-RollsBack :
      (q : RollbackRequest) (d d' : Disk) (found : RuntimeExecutionRegistry)
      (t : RuntimePairRotation)
      → load_executions py
          (execution_host site).process
          d.executions.private_root
          d.executions.registry
        ≡ ok found
      → rolled_back_executions py site times q t.pin_registry found ≡ ok t.execution_registry
      → IsPublished py site times t d'
      → Succeeds q d (ok t.pin_registry, d')
  published-RollsBack q d d' found t loaded bound done pins h =
      let same : t.pin_registry ≡ pins = cc in
      let (matches, healed) =
        rolled_back_executions-lem q t.pin_registry found t.execution_registry bound in
      record {
        agrees = record { target = t; returned = same; done = done; matches = matches };
        found = found;
        loaded = loaded;
        healed = λ kept. healed (rw same kept);
      }

  intend-Succeeds :
      (q : RollbackRequest) (start d : Disk) (found next : RuntimeExecutionRegistry)
      (pins : RuntimePinRegistry)
      → load_executions py
          (execution_host site).process
          start.executions.private_root
          start.executions.registry
        ≡ ok found
      → rolled_back_executions py site times q pins found ≡ ok next
      → Succeeds q start
          (continue (publish_rotation_target py site times) (intend py site times pins next d))
  unfolding intend
  intend-Succeeds q start d found next pins loaded bound =
      pure_rule (λ r. Succeeds q start (continue (publish_rotation_target py site times) r))
        (λ t. store_intent site t >>= λ value. lift (ok t)) d
        (new_pair_rotation times.created_at pins next) (λ x h. fails q start d x)
        λ t agrees.
          bind_rule (λ r. Succeeds q start (continue (publish_rotation_target py site times) r))
            (λ value. lift (ok t)) d (store_intent site t) (λ x d' h. fails q start d' x)
            λ value d' h.
              publish_rule py site times (Succeeds q start) t d' (λ x e same. fails q start e x)
                (λ e done. fails q start e _)
                λ e done.
                  published-RollsBack q start e found t loaded
                    (let (own_pins, own_next) =
                        new_pair_rotation-eq times.created_at pins next t agrees in
                      rw (own_pins, own_next) bound)
                    done

  prepare_pair_rollback-Succeeds :
      (q : RollbackRequest) (d : Disk) (pinset : String)
      → Succeeds q d (
          continue
            (publish_rotation_target py site times)
            (prepare_pair_rollback py site times q pinset d))
  unfolding prepare_pair_rollback
  prepare_pair_rollback-Succeeds q d pinset =
      pins_rule Q bind_pins d
        (prepare_rollback py site.process times.rotated_at pinset q.rotated_by q.reason)
        (λ x s h. fails q d _ x)
        λ pins s h.
          pure_rule Q (bind_executions pins) (record d { pins = s })
            (load_executions py (execution_host site).process d.executions.private_root
              d.executions.registry)
            (λ x e. fails q d _ x)
            λ found loaded.
              pure_rule Q (intend py site times pins) (record d { pins = s })
                (rolled_back_executions py site times q pins found) (λ x e. fails q d _ x)
                λ next bound.
                  intend-Succeeds q d (record d { pins = s }) found next pins loaded bound
    where
      Q : Result Error RuntimePairRotation × Disk → Type 0
      Q r = Succeeds q d (continue (publish_rotation_target py site times) r)

      bind_executions : RuntimePinRegistry → RuntimeExecutionRegistry → Action RuntimePairRotation
      bind_executions pins found =
          lift (rolled_back_executions py site times q pins found) >>= intend py site times pins

      bind_pins : RuntimePinRegistry → Action RuntimePairRotation
      bind_pins pins = load_current_executions py site times >>= bind_executions pins

  -- Where no intent is pending and a rollback succeeds, its pins are on the disk with an execution
  -- that is bound to them and to the Manager's revision. Executions that were bound to them
  -- already, as after a rotation of the pins alone, are published as they were found.
  pub rollback_lands :
      (q : RollbackRequest) (d : Disk) (pins : RuntimePinRegistry)
      → d.intent ≡ none
      → (rollback_with_execution py site times q d).0 ≡ ok pins
      → RollsBack q d pins (rollback_with_execution py site times q d).1
  unfolding rollback_with_execution resume_rollback read_intent
  rollback_lands q d pins free h =
      pure_rule (Succeeds q d) after_guard d (guard site.process.local_pair targets_not_local)
        (λ x e. fails q d d x)
        (λ value e.
          pure_rule (Succeeds q d) after_digest d
            (guard (is_hex_word 64 (normalized py site times q)) rollback_digest_invalid)
            (λ x e'. fails q d d x)
            λ value' e'.
              pure_rule (Succeeds q d) after_read d (read_intent py site d.intent_root d.intent)
                (λ x e''. fails q d d x)
                λ pending e''.
                  let absent : pending ≡ none = ground arith in
                  rw absent (prepare_pair_rollback-Succeeds q d (normalized py site times q)))
        pins h
    where
      after_read : Option RuntimePairRotation → Action RuntimePinRegistry
      after_read pending =
          resume_rollback py site times q (normalized py site times q) pending
          >>= publish_rotation_target py site times

      after_digest : Unit {0} → Action RuntimePinRegistry
      after_digest value = load_pending py site >>= after_read

      after_guard : Unit {0} → Action RuntimePinRegistry
      after_guard value =
          lift (guard (is_hex_word 64 (normalized py site times q)) rollback_digest_invalid)
          >>= after_digest
