-- ===== src/Pairs/Conflict.antt =====
-- A pending intent refuses the commands with another target.
use kor_travel_docker_manage.Common.{
  String, true, false, not, ◌||◌, Option, some, ◌≡◌, ◌≢◌, refl, ◌∙◌, ap, ◌==◌, eq_iff, arith, ◌⊎◌,
  inl, inr, Bool-cases, is_hex_word,
}
use kor_travel_docker_manage.Common.Result.{ok, err, guard}
use kor_travel_docker_manage.Errors.{
  targets_not_local, different_target_pending, rollback_digest_invalid,
}
use kor_travel_docker_manage.Platform.{Platform}
use kor_travel_docker_manage.Pins.Registry.{RuntimePinRegistry}
use kor_travel_docker_manage.Pairs.{RuntimePairRotation, same_requested_target}
use kor_travel_docker_manage.Pairs.Files.{Site, read_intent}
use kor_travel_docker_manage.Pairs.Disk.{Disk, Action, continue, ◌>>=◌, ◌>>◌, lift, load_pending}
use kor_travel_docker_manage.Pairs.Transaction.{
  Times, PairRequest, RollbackRequest, normalized, resume_rollback, rollback_with_execution,
  publish_rotation_target, resume, rotate_pair_with_execution,
}
use kor_travel_docker_manage.Pairs.Retry.{rotate-pending}

neq_false : (a b : String) → a ≢ b → (a == b) ≡ false
neq_false a b other = elim (Bool-cases (a == b)) [
  | inl same ↦ absurd (other ((eq_iff a b).0 same))
  | inr differs ↦ differs
]

module _ (py : Platform) (site : Site) (times : Times) where
  -- A rollback with an intent pending goes straight on to the test of the target.
  rollback-pending :
      (q : RollbackRequest) (t : RuntimePairRotation) (d : Disk)
      → site.process.local_pair ≡ true
      → is_hex_word 64 (normalized py site times q) ≡ true
      → read_intent py site d.intent_root d.intent ≡ ok (some t)
      → rollback_with_execution py site times q d
        ≡ (resume_rollback py site times q (normalized py site times q) (some t)
              >>= publish_rotation_target py site times)
            d
  unfolding rollback_with_execution
  rollback-pending q t d is_local digest read =
      ap (λ b. continue after_guard (guard b targets_not_local, d)) is_local
      ∙ ap (λ b. continue after_digest (guard b rollback_digest_invalid, d)) digest
      ∙ ap (λ r. continue after_read (r, d)) read
    where
      after_read : Option RuntimePairRotation → Action RuntimePinRegistry
      after_read pending =
          resume_rollback py site times q (normalized py site times q) pending
          >>= publish_rotation_target py site times

      after_digest : Unit {0} → Action RuntimePinRegistry
      after_digest value = load_pending py site >>= after_read

      after_guard : Unit {0} → Action RuntimePinRegistry
      after_guard value =
          lift (guard (is_hex_word 64 (normalized py site times q)) rollback_digest_invalid)
          >> (load_pending py site >>= after_read)

  same_requested_target-differs :
      (t : RuntimePairRotation) (m p : String)
      → (t.pin_registry.map_revision ≢ m) ⊎ (t.pin_registry.pinvi_revision ≢ p)
      → same_requested_target t m p ≡ false
  same_requested_target-differs t m p (inl other) =
      ground (arith, neq_false t.pin_registry.map_revision m other)
  same_requested_target-differs t m p (inr other) =
      ground (arith, neq_false t.pin_registry.pinvi_revision p other)

  -- Where an intent is pending, a command with another target is refused and changes nothing: a pair
  -- rotation that asks for another revision of either source, and a rollback, under a well-formed
  -- digest, to another pinset or under another revision of the Manager.
  pub other_target_refused :
      (q : PairRequest) (b : RollbackRequest) (t : RuntimePairRotation) (d : Disk)
      → site.process.local_pair ≡ true
      → read_intent py site d.intent_root d.intent ≡ ok (some t)
      → (t.pin_registry.map_revision ≢ q.map_revision)
        ⊎ (t.pin_registry.pinvi_revision ≢ q.pinvi_revision)
      → is_hex_word 64 (normalized py site times b) ≡ true
      → (t.pin_registry.pinset_sha256 ≢ normalized py site times b)
        ⊎ (t.execution_registry.current.manager_source_revision ≢ b.manager_source_revision)
      → (rotate_pair_with_execution py site times q d ≡ (err different_target_pending, d))
        × (rollback_with_execution py site times b d ≡ (err different_target_pending, d))
  unfolding resume resume_rollback
  other_target_refused q b t d is_local read other digest other_back = (
    rw
        (
          rotate-pending py site times q t d is_local read,
          resume,
          same_requested_target-differs t q.map_revision q.pinvi_revision other,
        )
        refl,
    rw (rollback-pending b t d is_local digest read, resume_rollback, differs other_back) refl,
  )
    where
      differs :
          (t.pin_registry.pinset_sha256 ≢ normalized py site times b)
            ⊎ (t.execution_registry.current.manager_source_revision ≢ b.manager_source_revision)
          → (not (t.pin_registry.pinset_sha256 == normalized py site times b)
              || not (
                  t.execution_registry.current.manager_source_revision
                  == b.manager_source_revision))
            ≡ true
      differs (inl o) =
          ground (arith, neq_false t.pin_registry.pinset_sha256 (normalized py site times b) o)
      differs (inr o) = ground (
        arith,
        neq_false t.execution_registry.current.manager_source_revision b.manager_source_revision o,
      )
