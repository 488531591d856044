-- ===== src/Pins/Store/Landing.antt =====
-- What a write of the pin registry leaves in its files, on any host.
use kor_travel_docker_manage.Common.{
  ℕ, suc, String, true, Option, none, some, ◌≡◌, refl, ◌∙◌, ap, arith, ◌⊎◌, inl, inr, Bool-cases,
}
use kor_travel_docker_manage.Common.Result.{Result, ok, err}
use kor_travel_docker_manage.Errors.{Error}
use kor_travel_docker_manage.Platform.{Platform}
use kor_travel_docker_manage.Pins.Registry.{RuntimePinRegistry}
use kor_travel_docker_manage.Pins.Document.{to_payload}
use kor_travel_docker_manage.Pins.Files.{
  File, Host, Store, load, parse_file, written, assert_writable_target,
}
use kor_travel_docker_manage.Pins.Rotation.{build_rollback}
use kor_travel_docker_manage.Pins.Store.{
  build_from, load_guarded, prepare_rollback, write, replace, preserve, then_replace, write_checked,
  published_payload,
}
use kor_travel_docker_manage.Pins.Store.Laws.{IsReady, load-registry}

module _ (py : Platform) (host : Host) (now : String) where
  -- The registry and its published copy are on the disk.
  pub record Lands (r : RuntimePinRegistry) (s : Store) : Type 0 where
    pub stamp : ℕ
    pub registry : s.registry ≡ some (written py host stamp (to_payload r))
    pub public_stamp : ℕ
    pub public : s.public ≡ some (written py host public_stamp (published_payload r now))

  replace-Lands :
      (r : RuntimePinRegistry) (s s' : Store)
      → replace py host now r true s ≡ (ok tt, s')
      → Lands r s'
  unfolding write
  replace-Lands r s s' h = record {
    stamp = s.next_stamp;
    registry = ground arith;
    public_stamp = suc s.next_stamp;
    public = ground arith;
  }

  then_replace-Lands :
      (r : RuntimePinRegistry) (x : Result Error Unit × Store) (s' : Store)
      → then_replace py host now r true x ≡ (ok tt, s')
      → Lands r s'
  unfolding write
  then_replace-Lands r (ok a, s) s' h = replace-Lands r s s' h
  then_replace-Lands r (err e, s) s' h = ground arith

  over_previous : RuntimePinRegistry → Store → Result Error Unit × Store
  unfolding write
  over_previous r s =
      then_replace py host now r true (preserve py host now r (load py host s).0 (load py host s).1)

  -- The guarded write replaces the file, after the previous registry was kept if there is one.
  checked_rule :
      (Q : Result Error Unit × Store → Type 0) (r : RuntimePinRegistry) (s : Store)
      → Q (replace py host now r true s)
      → Q (over_previous r s)
      → Q (write_checked py host now r true true (ok tt) s)
  unfolding write over_previous
  checked_rule Q r s fresh over =
      elim s.registry
        as (λ file.
          Q (elim file [ none ↦ replace py host now r true s | some f ↦ over_previous r s ])) [
            | none ↦ fresh
            | some f ↦ over
          ]

  checked-Lands :
      (r : RuntimePinRegistry) (checked : Result Error Unit) (s s' : Store)
      → write_checked py host now r true true checked s ≡ (ok tt, s')
      → Lands r s'
  unfolding write over_previous
  checked-Lands r (err e) s s' h = ground arith
  checked-Lands r (ok a) s s' h =
      checked_rule (λ x. x ≡ (ok tt, s') → Lands r s') r s (replace-Lands r s s')
        (then_replace-Lands r _ s') h

  -- A write that succeeds has replaced the registry and published it.
  pub write-Lands :
      (r : RuntimePinRegistry) (s s' : Store)
      → write py host now r true true s ≡ (ok tt, s')
      → Lands r s'
  unfolding write
  write-Lands r s s' h = checked-Lands r (assert_writable_target host s.registry) s s' h

  replace_on_ready :
      (r : RuntimePinRegistry) (s : Store) → IsReady host → (replace py host now r true s).0 ≡ ok tt
  unfolding write
  replace_on_ready r s ready = ground arith

  then_replace_on_ready :
      (r : RuntimePinRegistry) (previous : Result Error RuntimePinRegistry) (s : Store)
      → IsReady host
      → (then_replace py host now r true (preserve py host now r previous s)).0 ≡ ok tt
  unfolding write
  then_replace_on_ready r (err e) s ready = replace_on_ready r s ready
  then_replace_on_ready r (ok previous) s ready = ground arith

  -- A host that is ready completes every write that passes the guard.
  pub write_on_ready :
      (r : RuntimePinRegistry) (s : Store)
      → IsReady host
      → assert_writable_target host s.registry ≡ ok tt
      → (write py host now r true true s).0 ≡ ok tt
  unfolding write over_previous
  write_on_ready r s ready free = rw free (
      checked_rule (λ x. x.0 ≡ ok tt) r s (replace_on_ready r s ready)
        (then_replace_on_ready r (load py host s).0 (load py host s).1 ready))

  then_replace-registry :
      (r : RuntimePinRegistry) (file : Option File) (x : Result Error Unit × Store)
      → x.1.registry ≡ file
      → let after = (then_replace py host now r true x).1.registry in
        (after ≡ file) ⊎ ((stamp : ℕ) × (after ≡ some (written py host stamp (to_payload r))))
  unfolding write
  then_replace-registry r file (ok a, s) there = elim (Bool-cases host.can_write) [
    | inl can ↦ inr (s.next_stamp, ground arith)
    | inr cannot ↦ inl (ground arith)
  ]
  then_replace-registry r file (err e, s) there = inl there

  preserve-registry :
      (r : RuntimePinRegistry) (previous : Result Error RuntimePinRegistry) (s : Store)
      → (preserve py host now r previous s).1.registry ≡ s.registry
  unfolding write
  preserve-registry r (err e) s = refl
  preserve-registry r (ok previous) s = ground arith

  checked-registry :
      (r : RuntimePinRegistry) (checked : Result Error Unit) (s : Store)
      → let after = (write_checked py host now r true true checked s).1.registry in
        (after ≡ s.registry) ⊎ ((stamp : ℕ) × (after ≡ some (written py host stamp (to_payload r))))
  unfolding write over_previous
  checked-registry r (err e) s = inl refl
  checked-registry r (ok a) s =
      checked_rule
        (λ x.
          (x.1.registry ≡ s.registry)
          ⊎ ((stamp : ℕ) × (x.1.registry ≡ some (written py host stamp (to_payload r)))))
        r s (then_replace-registry r s.registry (ok tt, s) refl)
        (then_replace-registry r s.registry
          (preserve py host now r (load py host s).0 (load py host s).1)
          (preserve-registry r (load py host s).0 (load py host s).1 ∙ load-registry py host s))

  -- Whatever fails, the registry's file is the old one or the new one.
  pub write-registry :
      (r : RuntimePinRegistry) (s : Store)
      → let after = (write py host now r true true s).1.registry in
        (after ≡ s.registry) ⊎ ((stamp : ℕ) × (after ≡ some (written py host stamp (to_payload r))))
  unfolding write
  write-registry r s = checked-registry r (assert_writable_target host s.registry) s

  -- The preparation of a rollback, where the guard passes and the load succeeds.
  pub prepare_rollback-eq :
      (pinset rotated_by reason : String) (s : Store) (current pins : RuntimePinRegistry)
      → assert_writable_target host s.registry ≡ ok tt
      → (load py host s).0 ≡ ok current
      → build_rollback py now current pinset rotated_by reason
          (λ d. parse_file py host ((load py host s).1.preserved d))
        ≡ ok pins
      → prepare_rollback py host now pinset rotated_by reason s ≡ (ok pins, (load py host s).1)
  unfolding prepare_rollback build_from load_guarded
  prepare_rollback-eq pinset rotated_by reason s current pins safe loaded built =
      ap (λ c. build_from py host now build (load_guarded py host now c s)) safe
      ∙ ap (λ r. build_from py host now build (r, (load py host s).1)) loaded
      ∙ ap (λ r. (r, (load py host s).1)) built
    where
      build : RuntimePinRegistry → Store → Result Error RuntimePinRegistry
      build r s' =
          build_rollback py now r pinset rotated_by reason
            (λ d. parse_file py host (s'.preserved d))
