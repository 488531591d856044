-- ===== src/Pairs/Publication.antt =====
-- The publication of a target stops with the intent in place, or has published all of it.
use kor_travel_docker_manage.Common.{true, none, ◌≡◌, refl, inl, inr}
use kor_travel_docker_manage.Common.Result.{Result, ok, err}
use kor_travel_docker_manage.Errors.{Error, intent_not_cleared}
use kor_travel_docker_manage.Platform.{Platform}
use kor_travel_docker_manage.Pins.Registry.{RuntimePinRegistry}
use kor_travel_docker_manage.Pins.Store.{write}
use kor_travel_docker_manage.Executions.Files.{ExecutionStore, write_executions}
use kor_travel_docker_manage.Pairs.{RuntimePairRotation}
use kor_travel_docker_manage.Pairs.Files.{Site, execution_host}
use kor_travel_docker_manage.Pairs.Disk.{Disk, ◌>>=◌, ◌>>◌, lift, on_executions, clear_intent}
use kor_travel_docker_manage.Pairs.Rules.{
  bind_rule, pins_rule, executions_rule, write_executions-eq, clear_intent-ok, clear_intent-err,
}
use kor_travel_docker_manage.Pins.Store.Landing.{Lands, write-Lands}
use kor_travel_docker_manage.Pairs.Transaction.{Times, publish_rotation_target}
use kor_travel_docker_manage.Pairs.Outcome.{IsPublished}

module _ (py : Platform) (site : Site) (times : Times) where
  -- The disk after the three writes and the removal of the intent.
  pub IsPublished-eq :
      (t : RuntimePairRotation) (d d' : Disk) (e : ExecutionStore)
      → Lands py site.process times.published_at t.pin_registry d.pins
      → write_executions (execution_host site) t.execution_registry e ≡ (ok tt, d.executions)
      → d' ≡ record d { intent = none }
      → IsPublished py site times t d'
  IsPublished-eq t d d' e lands w gone =
      let eq = write_executions-eq (execution_host site) t.execution_registry e d.executions w in
      rw gone (record {
        stamp = lands.stamp;
        registry = lands.registry;
        public_stamp = lands.public_stamp;
        public = lands.public;
        executions = rw eq refl;
        public_executions = rw eq refl;
        no_intent = refl;
      })

  clear_rule :
      (Q : Result Error RuntimePinRegistry × Disk → Type 0) (t : RuntimePairRotation) (d : Disk)
      (e : ExecutionStore)
      → Lands py site.process times.published_at t.pin_registry d.pins
      → write_executions (execution_host site) t.execution_registry e ≡ (ok tt, d.executions)
      → ((x : Error) → Q (err x, d))
      → ((d' : Disk) → IsPublished py site times t d' → Q (err intent_not_cleared, d'))
      → ((d' : Disk) → IsPublished py site times t d' → Q (ok t.pin_registry, d'))
      → Q ((clear_intent site >>= λ value. lift (ok t.pin_registry)) d)
  clear_rule Q t d e lands w stops cleared done =
      bind_rule Q (λ value. lift (ok t.pin_registry)) d (clear_intent site)
        (λ x d' h. elim (clear_intent-err site d d' x h) [
          | inl same ↦ rw same (stops x)
          | inr (is, gone) ↦ rw is (cleared d' (IsPublished-eq t d d' e lands w gone))
        ])
        λ value d' h. done d' (IsPublished-eq t d d' e lands w (clear_intent-ok site d d' h))

  -- The publication of a target stops with the intent where it was, or has published all of it.
  pub publish_rule :
      (Q : Result Error RuntimePinRegistry × Disk → Type 0) (t : RuntimePairRotation) (d : Disk)
      → ((x : Error) (d' : Disk) → d'.intent ≡ d.intent → Q (err x, d'))
      → ((d' : Disk) → IsPublished py site times t d' → Q (err intent_not_cleared, d'))
      → ((d' : Disk) → IsPublished py site times t d' → Q (ok t.pin_registry, d'))
      → Q (publish_rotation_target py site times t d)
  unfolding publish_rotation_target
  publish_rule Q t d stops cleared done =
      pins_rule Q
        (λ value. on_executions write_next >> (clear_intent site >> lift (ok t.pin_registry))) d
        (write py site.process times.published_at t.pin_registry true true)
        (λ x s h. stops x _ refl)
        λ value s h.
          executions_rule Q (λ value'. clear_intent site >> lift (ok t.pin_registry))
            (record d { pins = s }) write_next (λ x e w. stops x _ refl)
            λ value' e w.
              clear_rule Q t (record d { pins = s; executions = e }) d.executions
                (write-Lands py site.process times.published_at t.pin_registry d.pins s h) w
                (λ x. stops x _ refl) cleared done
    where
      write_next : ExecutionStore → Result Error Unit × ExecutionStore
      write_next = write_executions (execution_host site) t.execution_registry
