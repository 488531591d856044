-- ===== src/Pairs/Completion.antt =====
-- An interrupted rotation, followed by the same command: the transaction as a whole.
use kor_travel_docker_manage.Common.{
  ℕ, String, true, Option, none, some, ◌≡◌, refl, sym, ◌∙◌, ap, ◌⊎◌, inl, inr, ends_with, eq_iff,
  arith, All,
}
use kor_travel_docker_manage.Common.Result.{Result, ok, err, OnOk, OnOk-bind}
use kor_travel_docker_manage.Errors.{Error}
use kor_travel_docker_manage.Platform.{Platform}
use kor_travel_docker_manage.Pins.Registry.{RuntimePinRegistry}
use kor_travel_docker_manage.Pins.Registry.Laws.{IsRegistry}
use kor_travel_docker_manage.Pins.Files.{Host, load}
use kor_travel_docker_manage.Json.{Json}
use kor_travel_docker_manage.Pins.Rotation.Laws.{build_pair_rotation-IsRegistry}
use kor_travel_docker_manage.Pins.Rotation.Landing.{pair_rotation_lands}
use kor_travel_docker_manage.Executions.{RuntimeExecutionRegistry}
use kor_travel_docker_manage.Executions.Files.{
  Directory, StateFile, load_executions, read_executions, private_mode, state_file,
}
use kor_travel_docker_manage.Executions.Laws.{IsExecutionRegistry}
use kor_travel_docker_manage.Executions.RoundTrip.{
  IsStored, executions_from_payload-IsExecutionRegistry,
}
use kor_travel_docker_manage.Executions.Stored.{executions_from_payload-IsStored}
use kor_travel_docker_manage.Executions.Rebind.{rotate_lem, rotate-IsExecutionRegistry}
use kor_travel_docker_manage.Pairs.{RuntimePairRotation, new_pair_rotation, pair_to_payload}
use kor_travel_docker_manage.Pairs.RoundTrip.{IsPair}
use kor_travel_docker_manage.Pairs.Files.{Site, execution_host}
use kor_travel_docker_manage.Pairs.Disk.{Disk}
use kor_travel_docker_manage.Pairs.Outcome.{
  SameFiles, IsPublished, IsTarget, Outcome, refused, interrupted, published, unsynced,
}
use kor_travel_docker_manage.Pairs.Atomic.{rotation_outcome}
use kor_travel_docker_manage.Pairs.Retry.{IsReadySite, IsSafe, resumed_rotation_completes}
use kor_travel_docker_manage.Pairs.Kept.{rotation-IsSafe}
use kor_travel_docker_manage.Pairs.Transaction.{
  Times, PairRequest, rotation_request, rotate_pair_with_execution,
}

new_pair_rotation-checks :
    (at : String) (t : RuntimePairRotation)
    → new_pair_rotation at t.pin_registry t.execution_registry ≡ ok t
    → (t.created_at ≡ at)
      × (t.execution_registry.current.source_pinset_sha256 ≡ t.pin_registry.pinset_sha256)
      × (t.execution_registry.current.map_revision ≡ t.pin_registry.map_revision)
      × (t.execution_registry.current.pinvi_revision ≡ t.pin_registry.pinvi_revision)
unfolding new_pair_rotation
new_pair_rotation-checks at t h = ground (
  arith,
  eq_iff t.execution_registry.current.source_pinset_sha256 t.pin_registry.pinset_sha256,
  eq_iff t.execution_registry.current.map_revision t.pin_registry.map_revision,
  eq_iff t.execution_registry.current.pinvi_revision t.pin_registry.pinvi_revision,
)

module _ (py : Platform) (site : Site) (times : Times) where
  loaded_executions-lem :
      (parent : Directory) (file : Option StateFile) (r : RuntimeExecutionRegistry)
      → load_executions py (execution_host site).process parent file ≡ ok r
      → IsExecutionRegistry py r × All (IsStored py) r.blocked_executions
  unfolding load_executions
  loaded_executions-lem parent file r h = parsed.at r h
    where
      parsed :
          OnOk
            (λ n. IsExecutionRegistry py n × All (IsStored py) n.blocked_executions)
            (load_executions py (execution_host site).process parent file)
      parsed = OnOk-bind (read_executions (execution_host site).process parent file) _ λ v hv.
          record {
            at = λ n hn. (
              executions_from_payload-IsExecutionRegistry py v n hn,
              (executions_from_payload-IsStored py v).at n hn,
            );
          }

  -- What a rotation stores as its intent can be read back.
  pub target-IsPair :
      (q : PairRequest) (d : Disk) (t : RuntimePairRotation)
      → ends_with b'Z' times.created_at ≡ true
      → IsTarget py site times q d t
      → ((r : RuntimePinRegistry) → (load py site.process d.pins).0 ≡ ok r → IsRegistry py r)
      → IsPair py t
  target-IsPair q d t utc target valid =
      let checks = new_pair_rotation-checks times.created_at t target.agrees in
      let read = loaded_executions-lem _ _ target.executions target.loaded_executions in
      let next =
        rotate_lem py times.bound_at target.executions t.pin_registry q.manager_source_revision
          q.rotated_by q.reason t.execution_registry target.bound in
      record {
        pins =
            (build_pair_rotation-IsRegistry py times.rotated_at target.current (rotation_request q)
                (valid target.current target.loaded)).at
              t.pin_registry target.built;
        executions =
            rotate-IsExecutionRegistry py times.bound_at target.executions t.pin_registry
              q.manager_source_revision q.rotated_by q.reason t.execution_registry (read.0)
              target.bound;
        trimmed = rw next.1.keeps (read.1);
        at = rw (checks.0) utc;
        source = checks.1;
        map_rev = checks.2;
        pinvi_rev = checks.3;
      }

state_file-eq :
    (a b : Host) (mode : ℕ) (v : Json) → a.euid ≡ b.euid → state_file a mode v ≡ state_file b mode v
unfolding state_file
state_file-eq a b mode v e =
    ap
      (λ (u : Option ℕ). record {
        reachable = true;
        regular = true;
        owner = elim u [ none ↦ 0 | some x ↦ x ];
        mode = mode;
        content = some v;
      })
      e

-- The first run and the second one, on two sites and at two times, of one user.
module _ (py : Platform) (first second : Site) (at then_at : Times) where
  -- The run was refused and left every file as it was; or it had a target, and has published it, or
  -- the second run has returned its registry and published it.
  unfoldable pub Completed : PairRequest → Disk → Result Error RuntimePinRegistry × Disk → Type 0
  Completed q d run =
      let again = rotate_pair_with_execution py second then_at q run.1 in
      (SameFiles d run.1 × ((e : Error) × (run.0 ≡ err e)))
      ⊎ ((t : RuntimePairRotation) × IsTarget py first at q d t
          × (IsPublished py first at t run.1
              ⊎ ((again.0 ≡ ok t.pin_registry) × IsPublished py second then_at t again.1)))

  Completed-by_outcome :
      (q : PairRequest) (d : Disk) (run : Result Error RuntimePinRegistry × Disk)
      → first.process.euid ≡ second.process.euid
      → IsReadySite second
      → IsSafe second run.1
      → ((t : RuntimePairRotation) → IsTarget py first at q d t → IsPair py t)
      → Outcome py first at q d run
      → Completed q d run
  unfolding Completed
  Completed-by_outcome q d run user ready safe pair (refused e d' same) = inl (same, (e, refl))
  Completed-by_outcome q d run user ready safe pair (published t d' target done) =
      inr (t, target, inl done)
  Completed-by_outcome q d run user ready safe pair (unsynced t d' target done) =
      inr (t, target, inl done)
  Completed-by_outcome q d run user ready safe pair (interrupted e t d' target waits) =
      let lands =
        pair_rotation_lands py at.rotated_at target.current (rotation_request q) t.pin_registry
          target.built in
      inr (
        t,
        target,
        inr (
            resumed_rotation_completes py second then_at q t d' ready safe (pair t target)
              (waits.intent
                ∙ ap some (
                    state_file-eq first.process second.process private_mode (pair_to_payload t)
                      user))
              lands.map_rev lands.pinvi_rev),
      )

  -- The transaction as a whole: a pair rotation is run where no intent is pending, its steps failing
  -- where they may, and then once more on a site of the same user that is ready. Either the first
  -- run was refused and changed no file, or it had a target, and the first run or the second has
  -- published all four documents of that target and left no intent, and where it was the second,
  -- that has returned the target's registry.
  pub rotation_completes_on_retry :
      (q : PairRequest) (d : Disk)
      → d.intent ≡ none
      → first.process.euid ≡ second.process.euid
      → IsReadySite second
      → IsSafe second d
      → ends_with b'Z' at.created_at ≡ true
      → ((r : RuntimePinRegistry) → (load py first.process d.pins).0 ≡ ok r → IsRegistry py r)
      → Completed q d (rotate_pair_with_execution py first at q d)
  rotation_completes_on_retry q d free user ready safe utc valid =
      Completed-by_outcome q d _ user ready
        (rotation-IsSafe py second first (sym user) at q d ready.process safe free)
        (λ t target. target-IsPair py first at q d t utc target valid)
        (rotation_outcome py first at q d free)
