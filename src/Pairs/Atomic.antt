-- ===== src/Pairs/Atomic.antt =====
-- Whichever step of a pair rotation fails, both registries change or the intent stays.
use kor_travel_docker_manage.Common.{String, Option, none, ◌≡◌, refl, ◌∙◌, arith}
use kor_travel_docker_manage.Common.Result.{Result, ok, err, guard}
use kor_travel_docker_manage.Errors.{Error, targets_not_local}
use kor_travel_docker_manage.Platform.{Platform}
use kor_travel_docker_manage.Pins.Registry.{RuntimePinRegistry}
use kor_travel_docker_manage.Pins.Files.{Store, load}
use kor_travel_docker_manage.Pins.Rotation.{build_pair_rotation}
use kor_travel_docker_manage.Executions.{RuntimeExecutionRegistry, rotate_execution_source_binding}
use kor_travel_docker_manage.Executions.Files.{load_executions}
use kor_travel_docker_manage.Pairs.{RuntimePairRotation, new_pair_rotation}
use kor_travel_docker_manage.Pairs.Files.{Site, execution_host, read_intent}
use kor_travel_docker_manage.Pairs.Disk.{
  Disk, Action, continue, ◌>>=◌, lift, load_pending, store_intent,
}
use kor_travel_docker_manage.Pairs.Rules.{
  bind_rule, pure_rule, pins_rule, store_intent-ok, store_intent-err,
}
use kor_travel_docker_manage.Pairs.Transaction.{
  Times, PairRequest, rotation_request, publish_rotation_target, intend, prepare_pair, resume,
  load_pins, load_current_executions, rotate_pair_with_execution,
}
use kor_travel_docker_manage.Pairs.Outcome.{
  SameFiles, IsPending, IsTarget, Outcome, refused, interrupted, published, unsynced,
}
use kor_travel_docker_manage.Pairs.Publication.{publish_rule}

pub new_pair_rotation-eq :
    (at : String) (pins : RuntimePinRegistry) (next : RuntimeExecutionRegistry)
    (t : RuntimePairRotation)
    → new_pair_rotation at pins next ≡ ok t
    → (t.pin_registry ≡ pins) × (t.execution_registry ≡ next)
unfolding new_pair_rotation
new_pair_rotation-eq at pins next t h = ground arith

pub SameFiles-refl : (d : Disk) → SameFiles d d
SameFiles-refl d = record {
  registry = refl;
  preserved = refl;
  public = refl;
  executions = refl;
  intent = refl;
}

module _ (py : Platform) (site : Site) (times : Times) where
  publish-Outcome :
      (q : PairRequest) (start : Disk) (t : RuntimePairRotation) (d : Disk)
      → IsTarget py site times q start t
      → IsPending py site times t d
      → Outcome py site times q start (publish_rotation_target py site times t d)
  publish-Outcome q start t d target waits =
      publish_rule py site times (Outcome py site times q start) t d
        (λ x d' same. interrupted x t d' target (record { intent = same ∙ waits.intent }))
        (λ d' done. unsynced t d' target done) λ d' done. published t d' target done

  -- A load of the pins changes only what is remembered.
  pub load-SameFiles :
      (d : Disk) (s : Store) (r : Result Error RuntimePinRegistry)
      → load py site.process d.pins ≡ (r, s)
      → SameFiles d (record d { pins = s })
  unfolding load
  load-SameFiles d s r h = record {
    registry = ground arith;
    preserved = ground arith;
    public = ground arith;
    executions = refl;
    intent = refl;
  }

  pub new_pair_rotation-IsTarget :
      (q : PairRequest) (start : Disk) (current pins : RuntimePinRegistry)
      (executions next : RuntimeExecutionRegistry) (t : RuntimePairRotation)
      → (load py site.process start.pins).0 ≡ ok current
      → build_pair_rotation py times.rotated_at current (rotation_request q) ≡ ok pins
      → load_executions py
          (execution_host site).process
          start.executions.private_root
          start.executions.registry
        ≡ ok executions
      → rotate_execution_source_binding py times.bound_at executions pins q.manager_source_revision
          q.rotated_by q.reason
        ≡ ok next
      → new_pair_rotation times.created_at pins next ≡ ok t
      → IsTarget py site times q start t
  new_pair_rotation-IsTarget q start current pins executions next t loaded built read bound agrees =
      let (own_pins, own_next) = new_pair_rotation-eq times.created_at pins next t agrees in
      record {
        current = current;
        loaded = loaded;
        built = rw own_pins built;
        executions = executions;
        loaded_executions = read;
        bound = rw (own_pins, own_next) bound;
        agrees = cc (agrees, own_pins, own_next);
      }

  -- The targets are built and checked in turn, and then stored; every error before that leaves the
  -- disk alone.
  prepare_pair_rule :
      (Q : Result Error RuntimePairRotation × Disk → Type 0) (q : PairRequest) (start d : Disk)
      (current : RuntimePinRegistry)
      → start.executions ≡ d.executions
      → (load py site.process start.pins).0 ≡ ok current
      → ((x : Error) → Q (err x, d))
      → ((t : RuntimePairRotation)
          → IsTarget py site times q start t
          → Q ((store_intent site t >>= λ value. lift (ok t)) d))
      → Q (prepare_pair py site times q current d)
  unfolding prepare_pair
  prepare_pair_rule Q q start d current same loaded refuse store =
      pure_rule Q bind_pins d (build_pair_rotation py times.rotated_at current (rotation_request q))
        (λ x h. refuse x)
        λ pins built.
          pure_rule Q (bind_executions pins) d
            (load_executions py (execution_host site).process d.executions.private_root
              d.executions.registry)
            (λ x h. refuse x)
            λ executions read.
              pure_rule Q (intend py site times pins) d
                (rotate_execution_source_binding py times.bound_at executions pins
                  q.manager_source_revision q.rotated_by q.reason)
                (λ x h. refuse x)
                λ next bound.
                  pure_rule Q (λ t. store_intent site t >>= λ value. lift (ok t)) d
                    (new_pair_rotation times.created_at pins next) (λ x h. refuse x)
                    λ t agrees. store t (
                      new_pair_rotation-IsTarget q start current pins executions next t loaded built
                        (rw same read) bound agrees)
    where
      bind_executions : RuntimePinRegistry → RuntimeExecutionRegistry → Action RuntimePairRotation
      bind_executions pins executions =
          lift (
            rotate_execution_source_binding py times.bound_at executions pins
              q.manager_source_revision q.rotated_by q.reason)
          >>= intend py site times pins

      bind_pins : RuntimePinRegistry → Action RuntimePairRotation
      bind_pins pins = load_current_executions py site times >>= bind_executions pins

  from_files_rule :
      (Q : Result Error RuntimePairRotation × Disk → Type 0) (q : PairRequest) (d : Disk)
      → ((x : Error) (r : Result Error RuntimePinRegistry) (s : Store)
          → load py site.process d.pins ≡ (r, s)
          → Q (err x, record d { pins = s }))
      → ((t : RuntimePairRotation) (r : Result Error RuntimePinRegistry) (s : Store)
          → load py site.process d.pins ≡ (r, s)
          → IsTarget py site times q d t
          → Q ((store_intent site t >>= λ value. lift (ok t)) (record d { pins = s })))
      → Q ((load_pins py site times >>= prepare_pair py site times q) d)
  from_files_rule Q q d refuse store =
      pins_rule Q (prepare_pair py site times q) d (load py site.process)
        (λ x s h. refuse x (err x) s h)
        λ current s h.
          prepare_pair_rule Q q d (record d { pins = s }) current refl (rw h refl)
            (λ x. refuse x (ok current) s h) λ t target. store t (ok current) s h target

  -- What a pair rotation comes to where no intent is pending: an error that leaves the disk as it is,
  -- but for what a load remembers, or the store of the intent and the publication.
  pub rotation_rule :
      (Q : Result Error RuntimePinRegistry × Disk → Type 0) (q : PairRequest) (d : Disk)
      → d.intent ≡ none
      → ((x : Error) → Q (err x, d))
      → ((x : Error) (r : Result Error RuntimePinRegistry) (s : Store)
          → load py site.process d.pins ≡ (r, s)
          → Q (err x, record d { pins = s }))
      → ((t : RuntimePairRotation) (r : Result Error RuntimePinRegistry) (s : Store)
          → load py site.process d.pins ≡ (r, s)
          → IsTarget py site times q d t
          → Q (
              continue
                (publish_rotation_target py site times)
                ((store_intent site t >>= λ value. lift (ok t)) (record d { pins = s }))))
      → Q (rotate_pair_with_execution py site times q d)
  unfolding rotate_pair_with_execution read_intent
  rotation_rule Q q d free early refuse store =
      pure_rule Q after_guard d (guard site.process.local_pair targets_not_local) (λ x h. early x)
        λ value h.
          pure_rule Q after_read d (read_intent py site d.intent_root d.intent) (λ x e. early x)
            λ pending e.
              let absent : pending ≡ none = ground arith in
              rw absent (
                from_files_rule (λ r. Q (continue (publish_rotation_target py site times) r)) q d
                  refuse store)
    where
      after_read : Option RuntimePairRotation → Action RuntimePinRegistry
      after_read pending =
          resume py site times q.map_revision q.pinvi_revision
            (load_pins py site times >>= prepare_pair py site times q) pending
          >>= publish_rotation_target py site times

      after_guard : Unit {0} → Action RuntimePinRegistry
      after_guard value = load_pending py site >>= after_read

  store-Outcome :
      (q : PairRequest) (start d : Disk) (t : RuntimePairRotation)
      → SameFiles start d
      → IsTarget py site times q start t
      → Outcome py site times q start (
          continue
            (publish_rotation_target py site times)
            ((store_intent site t >>= λ value. lift (ok t)) d))
  store-Outcome q start d t same target =
      bind_rule
        (λ r. Outcome py site times q start (continue (publish_rotation_target py site times) r))
        (λ value. lift (ok t)) d (store_intent site t)
        (λ x d' h. rw (store_intent-err site t d d' x h) (
          refused x _ (record {
            registry = same.registry;
            preserved = same.preserved;
            public = same.public;
            executions = same.executions;
            intent = same.intent;
          })))
        λ value d' h.
          publish-Outcome q start t d' target
            (record { intent = rw (store_intent-ok site t d d' h) refl })

  -- A pair rotation, where no intent is pending, ends in one of four ways, whichever steps fail: refused
  -- with every file as it was; failed with the target of both registries held by the intent;
  -- succeeded with all four documents published and no intent left; or the same with an error of
  -- the last `fsync`.
  pub rotation_outcome :
      (q : PairRequest) (d : Disk)
      → d.intent ≡ none
      → Outcome py site times q d (rotate_pair_with_execution py site times q d)
  rotation_outcome q d free =
      rotation_rule (Outcome py site times q d) q d free (λ x. refused x d (SameFiles-refl d))
        (λ x r s h. refused x _ (load-SameFiles d s r h))
        λ t r s h target. store-Outcome q d _ t (load-SameFiles d s r h) target
