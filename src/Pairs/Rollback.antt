-- ===== src/Pairs/Rollback.antt =====
-- A rollback whose target can be built succeeds on a site where the writes succeed.
use kor_travel_docker_manage.Common.{true, Option, none, some, ◌≡◌, refl, ◌∙◌, ap, is_hex_word}
use kor_travel_docker_manage.Common.Result.{Result, ok, guard}
use kor_travel_docker_manage.Errors.{Error, targets_not_local, rollback_digest_invalid}
use kor_travel_docker_manage.Platform.{Platform}
use kor_travel_docker_manage.Pins.Registry.{RuntimePinRegistry}
use kor_travel_docker_manage.Pins.Files.{Store, load, parse_file, assert_writable_target}
use kor_travel_docker_manage.Pins.Rotation.{build_rollback}
use kor_travel_docker_manage.Pins.Store.Laws.{load-registry}
use kor_travel_docker_manage.Pins.Store.Landing.{prepare_rollback-eq}
use kor_travel_docker_manage.Executions.{RuntimeExecutionRegistry}
use kor_travel_docker_manage.Executions.Files.{load_executions, private_mode, state_file}
use kor_travel_docker_manage.Pairs.{RuntimePairRotation, new_pair_rotation, pair_to_payload}
use kor_travel_docker_manage.Pairs.Files.{Site, execution_host, read_intent, tightened}
use kor_travel_docker_manage.Pairs.Disk.{
  Disk, Action, continue, ◌>>=◌, lift, load_pending, store_intent,
}
use kor_travel_docker_manage.Pairs.Outcome.{IsPublished}
use kor_travel_docker_manage.Pairs.Retry.{IsReadySite, IsSafe, publish-Completes}
use kor_travel_docker_manage.Pairs.Kept.{tightened-safe}
use kor_travel_docker_manage.Pairs.Fresh.{store_intent-eq}
use kor_travel_docker_manage.Pairs.Transaction.{
  Times, RollbackRequest, load_current_executions, intend, publish_rotation_target,
  rolled_back_executions, prepare_pair_rollback, resume_rollback, normalized,
  rollback_with_execution,
}

module _ (py : Platform) (site : Site) (times : Times) (q : RollbackRequest) where
  -- The target is what the registries and the preserved copy on the disk lead to.
  pub record IsRollbackTarget (d : Disk) (t : RuntimePairRotation) : Type 0 where
    pub named : is_hex_word 64 (normalized py site times q) ≡ true
    pub current : RuntimePinRegistry
    pub loaded : (load py site.process d.pins).0 ≡ ok current
    pub built :
        build_rollback py times.rotated_at current
          (normalized py site times q)
          q.rotated_by
          q.reason
          (λ p. parse_file py site.process ((load py site.process d.pins).1.preserved p))
        ≡ ok t.pin_registry
    pub executions : RuntimeExecutionRegistry
    pub loaded_executions :
        load_executions py
          (execution_host site).process
          d.executions.private_root
          d.executions.registry
        ≡ ok executions
    pub bound :
        rolled_back_executions py site times q t.pin_registry executions ≡ ok t.execution_registry
    pub agrees : new_pair_rotation times.created_at t.pin_registry t.execution_registry ≡ ok t

  publish : Result Error RuntimePairRotation × Disk → Result Error RuntimePinRegistry × Disk
  publish = continue (publish_rotation_target py site times)

  bind_executions : RuntimePinRegistry → RuntimeExecutionRegistry → Action RuntimePairRotation
  bind_executions pins executions =
      lift (rolled_back_executions py site times q pins executions) >>= intend py site times pins

  bind_pins : RuntimePinRegistry → Action RuntimePairRotation
  unfolding bind_executions
  bind_pins pins = load_current_executions py site times >>= bind_executions pins

  after_read : Option RuntimePairRotation → Action RuntimePinRegistry
  after_read pending =
      resume_rollback py site times q (normalized py site times q) pending
      >>= publish_rotation_target py site times

  after_digest : Unit {0} → Action RuntimePinRegistry
  unfolding after_read
  after_digest value = load_pending py site >>= after_read

  after_guard : Unit {0} → Action RuntimePinRegistry
  unfolding after_digest
  after_guard value =
      lift (guard (is_hex_word 64 (normalized py site times q)) rollback_digest_invalid)
      >>= after_digest

  prepare-target :
      (d d' : Disk) (t : RuntimePairRotation) (target : IsRollbackTarget d t)
      → assert_writable_target site.process d.pins.registry ≡ ok tt
      → store_intent site t (record d { pins = (load py site.process d.pins).1 }) ≡ (ok tt, d')
      → prepare_pair_rollback py site times q (normalized py site times q) d ≡ (ok t, d')
  unfolding prepare_pair_rollback intend bind_pins bind_executions
  prepare-target d d' t target safe stored =
      let d1 : Disk = record d { pins = (load py site.process d.pins).1 } in
      ap
        (λ (x : Result Error RuntimePinRegistry × Store).
          continue bind_pins (x.0, record d { pins = x.1 }))
        (prepare_rollback-eq py site.process times.rotated_at (normalized py site times q)
          q.rotated_by q.reason d.pins target.current t.pin_registry safe target.loaded
          target.built)
      ∙ ap (λ x. continue (bind_executions t.pin_registry) (x, d1)) target.loaded_executions
      ∙ ap (λ x. continue (intend py site times t.pin_registry) (x, d1)) target.bound
      ∙ ap (λ x. continue (λ u. store_intent site u >>= λ value. lift (ok u)) (x, d1)) target.agrees
      ∙ ap (λ x. continue (λ value. lift (ok t)) x) stored

  rollback-target :
      (d d' : Disk) (t : RuntimePairRotation) (target : IsRollbackTarget d t)
      → site.process.local_pair ≡ true
      → d.intent ≡ none
      → assert_writable_target site.process d.pins.registry ≡ ok tt
      → store_intent site t (record d { pins = (load py site.process d.pins).1 }) ≡ (ok tt, d')
      → rollback_with_execution py site times q d ≡ publish_rotation_target py site times t d'
  unfolding rollback_with_execution resume_rollback read_intent publish after_guard after_digest
      after_read
  rollback-target d d' t target is_local free safe stored =
      ap (λ b. continue after_guard (guard b targets_not_local, d)) is_local
      ∙ ap (λ b. continue after_digest (guard b rollback_digest_invalid, d)) target.named
      ∙ ap (λ o. continue after_read (read_intent py site d.intent_root o, d)) free
      ∙ ap publish (prepare-target d d' t target safe stored)

  -- On a site that is ready and can write the intent, a rollback whose target the registries and the
  -- preserved copy on the disk lead to succeeds: the target's registry is returned, all four
  -- documents are published, and no intent is left.
  pub rollback_completes :
      (d : Disk) (t : RuntimePairRotation)
      → IsReadySite site
      → site.can_write_intent ≡ true
      → IsSafe site d
      → d.intent ≡ none
      → IsRollbackTarget d t
      → let r = rollback_with_execution py site times q d in
        (r.0 ≡ ok t.pin_registry) × IsPublished py site times t r.1
  rollback_completes d t ready writes safe free target =
      let loaded_store = (load py site.process d.pins).1 in
      let root = tightened-safe site site d.intent_root safe.intent_root in
      let after : Disk = record d {
        pins = loaded_store;
        intent_root = tightened site d.intent_root;
        intent = some (state_file site.process private_mode (pair_to_payload t));
      } in
      rw
        (rollback-target d after t target ready.process.is_local free safe.registry
          (store_intent-eq site t (record d { pins = loaded_store }) root writes))
        (publish-Completes py site times t after ready
          (record {
            registry = rw (load-registry py site.process d.pins) safe.registry;
            private_root = safe.private_root;
            public_root = safe.public_root;
            intent_root = root;
          })
          refl)
