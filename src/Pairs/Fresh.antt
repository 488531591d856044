-- ===== src/Pairs/Fresh.antt =====
-- A pair rotation whose target can be built succeeds on a site where the writes succeed.
use kor_travel_docker_manage.Common.{true, Option, none, some, ◌≡◌, refl, ◌∙◌, ap, arith}
use kor_travel_docker_manage.Common.Result.{Result, ok, guard}
use kor_travel_docker_manage.Errors.{Error, targets_not_local}
use kor_travel_docker_manage.Platform.{Platform}
use kor_travel_docker_manage.Pins.Registry.{RuntimePinRegistry}
use kor_travel_docker_manage.Pins.Files.{Store, load}
use kor_travel_docker_manage.Pins.Store.Laws.{load-registry}
use kor_travel_docker_manage.Executions.{RuntimeExecutionRegistry, rotate_execution_source_binding}
use kor_travel_docker_manage.Executions.Files.{private_mode, state_file}
use kor_travel_docker_manage.Pairs.{RuntimePairRotation, pair_to_payload}
use kor_travel_docker_manage.Pairs.Files.{
  Site, read_intent, require_private_parent, tightened, write_intent,
}
use kor_travel_docker_manage.Pairs.Disk.{
  Disk, Action, continue, ◌>>=◌, lift, load_pending, store_intent,
}
use kor_travel_docker_manage.Pairs.Outcome.{IsTarget, IsPublished}
use kor_travel_docker_manage.Pairs.Retry.{IsReadySite, IsSafe, publish-Completes}
use kor_travel_docker_manage.Pairs.Kept.{tightened-safe}
use kor_travel_docker_manage.Pairs.Transaction.{
  Times, PairRequest, load_pins, load_current_executions, intend, publish_rotation_target,
  prepare_pair, resume, rotate_pair_with_execution,
}

pub store_intent-eq :
    (site : Site) (t : RuntimePairRotation) (d : Disk)
    → require_private_parent site (tightened site d.intent_root) ≡ ok tt
    → site.can_write_intent ≡ true
    → store_intent site t d ≡ (
      ok tt,
      record d {
        intent_root = tightened site d.intent_root;
        intent = some (state_file site.process private_mode (pair_to_payload t));
      },
    )
unfolding store_intent write_intent
store_intent-eq site t d safe writes = ground arith

module _ (py : Platform) (site : Site) (times : Times) (q : PairRequest) where
  publish : Result Error RuntimePairRotation × Disk → Result Error RuntimePinRegistry × Disk
  publish = continue (publish_rotation_target py site times)

  bind_executions : RuntimePinRegistry → RuntimeExecutionRegistry → Action RuntimePairRotation
  bind_executions pins executions =
      lift (
        rotate_execution_source_binding py times.bound_at executions pins q.manager_source_revision
          q.rotated_by q.reason)
      >>= intend py site times pins

  bind_pins : RuntimePinRegistry → Action RuntimePairRotation
  unfolding bind_executions
  bind_pins pins = load_current_executions py site times >>= bind_executions pins

  after_read : Option RuntimePairRotation → Action RuntimePinRegistry
  after_read pending =
      resume py site times q.map_revision q.pinvi_revision
        (load_pins py site times >>= prepare_pair py site times q) pending
      >>= publish_rotation_target py site times

  after_guard : Unit {0} → Action RuntimePinRegistry
  unfolding after_read
  after_guard value = load_pending py site >>= after_read

  prepare-target :
      (d d' : Disk) (t : RuntimePairRotation) (start : Disk)
      (target : IsTarget py site times q start t)
      → start.executions ≡ d.executions
      → store_intent site t d ≡ (ok tt, d')
      → prepare_pair py site times q target.current d ≡ (ok t, d')
  unfolding prepare_pair intend bind_pins bind_executions
  prepare-target d d' t start target same stored =
      ap (λ x. continue bind_pins (x, d)) target.built
      ∙ ap (λ x. continue (bind_executions t.pin_registry) (x, d))
          (rw same at target.loaded_executions)
      ∙ ap (λ x. continue (intend py site times t.pin_registry) (x, d)) target.bound
      ∙ ap (λ x. continue (λ u. store_intent site u >>= λ value. lift (ok u)) (x, d)) target.agrees
      ∙ ap (λ x. continue (λ value. lift (ok t)) x) stored

  rotate-target :
      (d d' : Disk) (t : RuntimePairRotation) (s : Store) (target : IsTarget py site times q d t)
      → site.process.local_pair ≡ true
      → d.intent ≡ none
      → load py site.process d.pins ≡ (ok target.current, s)
      → store_intent site t (record d { pins = s }) ≡ (ok tt, d')
      → rotate_pair_with_execution py site times q d ≡ publish_rotation_target py site times t d'
  unfolding rotate_pair_with_execution resume read_intent publish after_guard after_read
  rotate-target d d' t s target is_local free loaded stored =
      ap (λ b. continue after_guard (guard b targets_not_local, d)) is_local
      ∙ ap (λ o. continue after_read (read_intent py site d.intent_root o, d)) free
      ∙ ap
          (λ (x : Result Error RuntimePinRegistry × Store).
            publish (continue (prepare_pair py site times q) (x.0, record d { pins = x.1 })))
          loaded
      ∙ ap publish (prepare-target (record d { pins = s }) d' t d target refl stored)

  -- Where no intent is pending, the checks of the directories and of the registry's file pass, and every
  -- write succeeds, a rotation whose target the two registries on the disk lead to succeeds: the
  -- target's registry is returned, all four documents are published, and no intent is left.
  pub rotation_completes :
      (d : Disk) (t : RuntimePairRotation)
      → IsReadySite site
      → site.can_write_intent ≡ true
      → IsSafe site d
      → d.intent ≡ none
      → IsTarget py site times q d t
      → let r = rotate_pair_with_execution py site times q d in
        (r.0 ≡ ok t.pin_registry) × IsPublished py site times t r.1
  rotation_completes d t ready writes safe free target =
      let loaded_store = (load py site.process d.pins).1 in
      let root = tightened-safe site site d.intent_root safe.intent_root in
      let after : Disk = record d {
        pins = loaded_store;
        intent_root = tightened site d.intent_root;
        intent = some (state_file site.process private_mode (pair_to_payload t));
      } in
      rw
        (rotate-target d after t loaded_store target ready.process.is_local free
          (ap (λ x. (x, loaded_store)) target.loaded)
          (store_intent-eq site t (record d { pins = loaded_store }) root writes))
        (publish-Completes py site times t after ready
          (record {
            registry = rw (load-registry py site.process d.pins) safe.registry;
            private_root = safe.private_root;
            public_root = safe.public_root;
            intent_root = root;
          })
          refl)
