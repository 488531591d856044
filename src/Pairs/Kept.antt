-- ===== src/Pairs/Kept.antt =====
-- A pair rotation leaves the disk in a state from which another process can go on.
use kor_travel_docker_manage.Common.{
  ℕ, String, true, Option, none, some, ◌≡◌, sym, ap, arith, inl, inr,
}
use kor_travel_docker_manage.Common.Result.{Result, ok, err}
use kor_travel_docker_manage.Errors.{Error}
use kor_travel_docker_manage.Json.{Json}
use kor_travel_docker_manage.Platform.{Platform}
use kor_travel_docker_manage.Pins.Registry.{RuntimePinRegistry}
use kor_travel_docker_manage.Pins.Document.{to_payload}
use kor_travel_docker_manage.Pins.Files.{
  Store, load, assert_integrity, assert_writable_target, written,
}
use kor_travel_docker_manage.Pins.Store.{write}
use kor_travel_docker_manage.Pins.Store.Laws.{IsReady, load-registry}
use kor_travel_docker_manage.Pins.Store.Landing.{write-registry}
use kor_travel_docker_manage.Executions.{RuntimeExecutionRegistry}
use kor_travel_docker_manage.Executions.Files.{
  Directory, StateFile, ExecutionStore, ExecutionHost, is_loose, write_state, write_executions,
}
use kor_travel_docker_manage.Pairs.{RuntimePairRotation}
use kor_travel_docker_manage.Pairs.Files.{Site, execution_host, require_private_parent, tightened}
use kor_travel_docker_manage.Pairs.Disk.{
  Disk, ◌>>=◌, ◌>>◌, continue, lift, on_executions, store_intent, clear_intent,
}
use kor_travel_docker_manage.Pairs.Rules.{
  bind_rule, pins_rule, executions_rule, clear_intent-ok, clear_intent-err, store_intent-ok,
  store_intent-err,
}
use kor_travel_docker_manage.Pairs.Retry.{IsSafe}
use kor_travel_docker_manage.Pairs.Transaction.{
  Times, PairRequest, publish_rotation_target, rotate_pair_with_execution,
}
use kor_travel_docker_manage.Pairs.Atomic.{rotation_rule}

-- A private directory passes the check of whoever owns it.
pub tightened-safe :
    (site other : Site) (root : Directory)
    → require_private_parent site root ≡ ok tt
    → require_private_parent site (tightened other root) ≡ ok tt
unfolding require_private_parent is_loose
tightened-safe site other root safe = ground arith

write_executions-roots :
    (host : ExecutionHost) (r : RuntimeExecutionRegistry) (s : ExecutionStore)
    → let after = (write_executions host r s).1 in
      (after.private_root ≡ s.private_root) × (after.public_root ≡ s.public_root)
unfolding write_executions write_state
write_executions-roots host r s = ground arith

module _ (py : Platform) (site other : Site) (same : site.process.euid ≡ other.process.euid) where
  written-safe :
      (stamp : ℕ) (v : Json)
      → IsReady site.process
      → assert_writable_target site.process (some (written py other.process stamp v)) ≡ ok tt
  unfolding assert_writable_target assert_integrity written
  written-safe stamp v ready = ground arith

  write-safe :
      (now : String) (r : RuntimePinRegistry) (s : Store)
      → IsReady site.process
      → assert_writable_target site.process s.registry ≡ ok tt
      → assert_writable_target site.process (write py other.process now r true true s).1.registry
        ≡ ok tt
  write-safe now r s ready safe = elim (write-registry py other.process now r s) [
    | inl old ↦ rw old safe
    | inr (stamp, new) ↦ rw new (written-safe stamp (to_payload r) ready)
  ]

  Safe : {A : Type 0} → Result Error A × Disk → Type 0
  Safe r = IsSafe site r.1

  pins-IsSafe :
      (d : Disk) (s : Store)
      → IsSafe site d
      → assert_writable_target site.process s.registry ≡ ok tt
      → IsSafe site (record d { pins = s })
  pins-IsSafe d s safe registry = record {
    registry = registry;
    private_root = safe.private_root;
    public_root = safe.public_root;
    intent_root = safe.intent_root;
  }

  executions-IsSafe :
      (d : Disk) (r : RuntimeExecutionRegistry) (x : Result Error Unit) (e : ExecutionStore)
      → IsSafe site d
      → write_executions (execution_host other) r d.executions ≡ (x, e)
      → IsSafe site (record d { executions = e })
  executions-IsSafe d r x e safe h =
      let (private, public) = write_executions-roots (execution_host other) r d.executions in
      let after = sym (ap (λ (t : Result Error Unit × ExecutionStore). t.1) h) in
      record {
        registry = safe.registry;
        private_root = rw (after, private) safe.private_root;
        public_root = rw (after, public) safe.public_root;
        intent_root = safe.intent_root;
      }

  cleared-IsSafe : (d : Disk) → IsSafe site d → IsSafe site (record d { intent = none })
  cleared-IsSafe d safe = record {
    registry = safe.registry;
    private_root = safe.private_root;
    public_root = safe.public_root;
    intent_root = safe.intent_root;
  }

  clear-Safe :
      (t : RuntimePairRotation) (d : Disk)
      → IsSafe site d
      → Safe ((clear_intent other >>= λ value. lift (ok t.pin_registry)) d)
  unfolding Safe
  clear-Safe t d safe =
      bind_rule Safe (λ value. lift (ok t.pin_registry)) d (clear_intent other)
        (λ x d' h. elim (clear_intent-err other d d' x h) [
          | inl stays ↦ rw stays safe
          | inr (is, gone) ↦ rw gone (cleared-IsSafe d safe)
        ])
        λ value d' h. rw (clear_intent-ok other d d' h) (cleared-IsSafe d safe)

  publish-Safe :
      (times : Times) (t : RuntimePairRotation) (d : Disk)
      → IsReady site.process
      → IsSafe site d
      → Safe (publish_rotation_target py other times t d)
  unfolding Safe publish_rotation_target
  publish-Safe times t d ready safe =
      pins_rule Safe
        (λ value. on_executions write_next >> (clear_intent other >> lift (ok t.pin_registry))) d
        (write py other.process times.published_at t.pin_registry true true)
        (λ x s h. pins-IsSafe d s safe (after (err x) s h))
        λ value s h.
          executions_rule Safe (λ value'. clear_intent other >> lift (ok t.pin_registry))
            (record d { pins = s }) write_next
            (λ x e w.
              executions-IsSafe (record d { pins = s }) t.execution_registry (err x) e
                (pins-IsSafe d s safe (after (ok value) s h)) w)
            λ value' e w.
              clear-Safe t (record d { pins = s; executions = e })
                (executions-IsSafe (record d { pins = s }) t.execution_registry (ok value') e
                  (pins-IsSafe d s safe (after (ok value) s h)) w)
    where
      write_next : ExecutionStore → Result Error Unit × ExecutionStore
      write_next = write_executions (execution_host other) t.execution_registry

      after :
          (x : Result Error Unit) (s : Store)
          → write py other.process times.published_at t.pin_registry true true d.pins ≡ (x, s)
          → assert_writable_target site.process s.registry ≡ ok tt
      after x s h =
          rw (sym (ap (λ (p : Result Error Unit × Store). p.1) h))
            (write-safe times.published_at t.pin_registry d.pins ready safe.registry)

  intended-IsSafe :
      (t : RuntimePairRotation) (d : Disk) (intent : Option StateFile)
      → IsSafe site d
      → IsSafe site (record d { intent_root = tightened other d.intent_root; intent = intent })
  intended-IsSafe t d intent safe = record {
    registry = safe.registry;
    private_root = safe.private_root;
    public_root = safe.public_root;
    intent_root = tightened-safe site other d.intent_root safe.intent_root;
  }

  -- Whatever another process of the same user has done, the checks of owner and mode still pass.
  pub rotation-IsSafe :
      (times : Times) (q : PairRequest) (d : Disk)
      → IsReady site.process
      → IsSafe site d
      → d.intent ≡ none
      → IsSafe site (rotate_pair_with_execution py other times q d).1
  unfolding Safe
  rotation-IsSafe times q d ready safe free =
      rotation_rule py other times Safe q d free (λ x. safe) (λ x r s h. loaded-IsSafe s r h)
        λ t r s h target.
          bind_rule (λ x. Safe (continue (publish_rotation_target py other times) x))
            (λ value. lift (ok t)) (record d { pins = s }) (store_intent other t)
            (λ x d' e.
              rw (store_intent-err other t (record d { pins = s }) d' x e)
                (intended-IsSafe t (record d { pins = s }) d.intent (loaded-IsSafe s r h)))
            λ value d' e. publish-Safe times t d' ready (
              rw (store_intent-ok other t (record d { pins = s }) d' e)
                (intended-IsSafe t (record d { pins = s }) _ (loaded-IsSafe s r h)))
    where
      loaded-IsSafe :
          (s : Store) (r : Result Error RuntimePinRegistry)
          → load py other.process d.pins ≡ (r, s)
          → IsSafe site (record d { pins = s })
      loaded-IsSafe s r h = pins-IsSafe d s safe (
          rw
            (
              sym (ap (λ (p : Result Error RuntimePinRegistry × Store). p.1.registry) h),
              load-registry py other.process d.pins,
            )
            safe.registry)
