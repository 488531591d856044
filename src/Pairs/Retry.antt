-- ===== src/Pairs/Retry.antt =====
-- A pending intent is completed by the same command on a host where the writes succeed.
use kor_travel_docker_manage.Common.{true, Option, some, ◌≡◌, refl, ◌∙◌, ap, eq_refl, arith}
use kor_travel_docker_manage.Common.Result.{Result, ok, err, guard}
use kor_travel_docker_manage.Errors.{Error, targets_not_local}
use kor_travel_docker_manage.Platform.{Platform}
use kor_travel_docker_manage.Pins.Registry.{RuntimePinRegistry}
use kor_travel_docker_manage.Pins.Files.{assert_writable_target}
use kor_travel_docker_manage.Pins.Store.{write}
use kor_travel_docker_manage.Pins.Store.Laws.{IsReady}
use kor_travel_docker_manage.Pins.Store.Landing.{Lands, write-Lands, write_on_ready}
use kor_travel_docker_manage.Executions.{RuntimeExecutionRegistry}
use kor_travel_docker_manage.Executions.Files.{
  Directory, ExecutionStore, ExecutionHost, assert_registry_parent, is_foreign, private_mode,
  state_file, write_state, write_executions,
}
use kor_travel_docker_manage.Pairs.{RuntimePairRotation, pair_to_payload, same_requested_target}
use kor_travel_docker_manage.Pairs.Files.{
  Site, execution_host, read_intent, require_private_parent, require_private_file,
}
use kor_travel_docker_manage.Pairs.Disk.{
  Disk, Action, continue, ◌>>=◌, ◌>>◌, lift, on_executions, load_pending, clear_intent,
}
use kor_travel_docker_manage.Pairs.RoundTrip.{IsPair, pair_roundtrip}
use kor_travel_docker_manage.Pairs.Rules.{bind_rule, pins_rule, executions_rule, clear_intent-ok}
use kor_travel_docker_manage.Pairs.Outcome.{IsPublished}
use kor_travel_docker_manage.Pairs.Publication.{IsPublished-eq}
use kor_travel_docker_manage.Pairs.Transaction.{
  Times, PairRequest, publish_rotation_target, resume, load_pins, prepare_pair,
  rotate_pair_with_execution,
}

-- A site on which the guards pass and the writes of a resumed transaction succeed.
pub record IsReadySite (site : Site) : Type 0 where
  pub process : IsReady site.process
  pub writes : site.can_write_executions ≡ true
  pub publishes : site.can_publish_executions ≡ true
  pub unlinks : site.can_unlink_intent ≡ true
  pub syncs : site.can_sync_intent ≡ true

-- The directories and the registry's file pass the checks of owner and mode.
pub record IsSafe (site : Site) (d : Disk) : Type 0 where
  pub registry : assert_writable_target site.process d.pins.registry ≡ ok tt
  pub private_root :
      assert_registry_parent (execution_host site).process d.executions.private_root ≡ ok tt
  pub public_root :
      assert_registry_parent (execution_host site).process d.executions.public_root ≡ ok tt
  pub intent_root : require_private_parent site d.intent_root ≡ ok tt

write_executions_on_ready :
    (host : ExecutionHost) (r : RuntimeExecutionRegistry) (s : ExecutionStore)
    → host.process.local_pair ≡ true
    → host.can_write ≡ true
    → host.can_publish ≡ true
    → assert_registry_parent host.process s.private_root ≡ ok tt
    → assert_registry_parent host.process s.public_root ≡ ok tt
    → (write_executions host r s).0 ≡ ok tt
unfolding write_executions write_state
write_executions_on_ready host r s is_local writes publishes private public = ground arith

require_private_file-written :
    (site : Site) (t : RuntimePairRotation)
    → require_private_file site (some (state_file site.process private_mode (pair_to_payload t)))
      ≡ ok tt
unfolding require_private_file state_file is_foreign
require_private_file-written site t = ground arith

module _ (py : Platform) (site : Site) (times : Times) where
  clear_on_ready :
      (t : RuntimePairRotation) (d : Disk)
      → IsReadySite site
      → require_private_parent site d.intent_root ≡ ok tt
      → d.intent ≡ some (state_file site.process private_mode (pair_to_payload t))
      → (clear_intent site d).0 ≡ ok tt
  unfolding clear_intent
  clear_on_ready t d ready safe there =
      let file : require_private_file site d.intent ≡ ok tt =
        rw there (require_private_file-written site t) in
      ground arith

  pub read_pending :
      (t : RuntimePairRotation) (root : Directory)
      → IsPair py t
      → require_private_parent site root ≡ ok tt
      → read_intent py site root (some (state_file site.process private_mode (pair_to_payload t)))
        ≡ ok (some t)
  unfolding read_intent state_file
  read_pending t root v safe =
      rw (safe, require_private_file-written site t, pair_roundtrip py t v) refl

  -- The target's registry is returned, and the target is on the disk.
  abbrev Completes : RuntimePairRotation → Result Error RuntimePinRegistry × Disk → Type 0
  Completes t r = (r.0 ≡ ok t.pin_registry) × IsPublished py site times t r.1

  contradiction :
      {A : Type 0} {P : Type 0} (e : Error) (r : Result Error A) (a : A) → r ≡ err e → r ≡ ok a → P
  contradiction e r a failed went = cc

  clear-Completes :
      (t : RuntimePairRotation) (d : Disk) (e : ExecutionStore)
      → IsReadySite site
      → require_private_parent site d.intent_root ≡ ok tt
      → d.intent ≡ some (state_file site.process private_mode (pair_to_payload t))
      → Lands py site.process times.published_at t.pin_registry d.pins
      → write_executions (execution_host site) t.execution_registry e ≡ (ok tt, d.executions)
      → Completes t ((clear_intent site >>= λ value. lift (ok t.pin_registry)) d)
  clear-Completes t d e ready safe there lands w =
      bind_rule (Completes t) (λ value. lift (ok t.pin_registry)) d (clear_intent site)
        (λ x d' h.
          contradiction x (clear_intent site d).0 tt (rw h refl)
            (clear_on_ready t d ready safe there))
        λ value d' h.
          (refl, IsPublished-eq py site times t d d' e lands w (clear_intent-ok site d d' h))

  -- A target is published from any safe disk that holds it as the intent.
  pub publish-Completes :
      (t : RuntimePairRotation) (d : Disk)
      → IsReadySite site
      → IsSafe site d
      → d.intent ≡ some (state_file site.process private_mode (pair_to_payload t))
      → Completes t (publish_rotation_target py site times t d)
  unfolding publish_rotation_target
  publish-Completes t d ready safe there =
      pins_rule (Completes t)
        (λ value. on_executions write_next >> (clear_intent site >> lift (ok t.pin_registry))) d
        (write py site.process times.published_at t.pin_registry true true)
        (λ x s h.
          contradiction x
            (write py site.process times.published_at t.pin_registry true true d.pins).0 tt
            (rw h refl)
            (write_on_ready py site.process times.published_at t.pin_registry d.pins ready.process
              safe.registry))
        λ value s h.
          executions_rule (Completes t) (λ value'. clear_intent site >> lift (ok t.pin_registry))
            (record d { pins = s }) write_next
            (λ x e w. contradiction x (write_next d.executions).0 tt (rw w refl) (
              write_executions_on_ready (execution_host site) t.execution_registry d.executions
                ready.process.is_local ready.writes ready.publishes safe.private_root
                safe.public_root))
            λ value' e w.
              clear-Completes t (record d { pins = s; executions = e }) d.executions ready
                safe.intent_root there
                (write-Lands py site.process times.published_at t.pin_registry d.pins s h) w
    where
      write_next : ExecutionStore → Result Error Unit × ExecutionStore
      write_next = write_executions (execution_host site) t.execution_registry

  -- A pair rotation with an intent pending goes straight on to the test of the target.
  pub rotate-pending :
      (q : PairRequest) (t : RuntimePairRotation) (d : Disk)
      → site.process.local_pair ≡ true
      → read_intent py site d.intent_root d.intent ≡ ok (some t)
      → rotate_pair_with_execution py site times q d
        ≡ (resume py site times q.map_revision q.pinvi_revision
                (load_pins py site times >>= prepare_pair py site times q)
                (some t)
              >>= publish_rotation_target py site times)
            d
  unfolding rotate_pair_with_execution
  rotate-pending q t d is_local read =
      ap (λ b. continue after_guard (guard b targets_not_local, d)) is_local
      ∙ ap (λ r. continue after_read (r, d)) read
    where
      after_read : Option RuntimePairRotation → Action RuntimePinRegistry
      after_read pending =
          resume py site times q.map_revision q.pinvi_revision
            (load_pins py site times >>= prepare_pair py site times q) pending
          >>= publish_rotation_target py site times

      after_guard : Unit {0} → Action RuntimePinRegistry
      after_guard value = load_pending py site >>= after_read

  -- Where an intent is pending, a pair rotation for the same revisions on a site that is ready publishes
  -- the intent's target, returns its registry and removes the intent, whatever else is on the disk,
  -- whatever the Manager's revision is by now, and whoever asks and why.
  pub resumed_rotation_completes :
      (q : PairRequest) (t : RuntimePairRotation) (d : Disk)
      → IsReadySite site
      → IsSafe site d
      → IsPair py t
      → d.intent ≡ some (state_file site.process private_mode (pair_to_payload t))
      → t.pin_registry.map_revision ≡ q.map_revision
      → t.pin_registry.pinvi_revision ≡ q.pinvi_revision
      → let r = rotate_pair_with_execution py site times q d in
        (r.0 ≡ ok t.pin_registry) × IsPublished py site times t r.1
  unfolding resume
  resumed_rotation_completes q t d ready safe v there same_map same_pinvi =
      let read : read_intent py site d.intent_root d.intent ≡ ok (some t) =
        rw there (read_pending t d.intent_root v safe.intent_root) in
      let same : same_requested_target t q.map_revision q.pinvi_revision ≡ true =
        rw (same_map, same_pinvi, eq_refl q.map_revision, eq_refl q.pinvi_revision) refl in
      rw (rotate-pending q t d ready.process.is_local read, resume, same)
        (publish-Completes t d ready safe there)
