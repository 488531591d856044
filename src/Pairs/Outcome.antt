-- ===== src/Pairs/Outcome.antt =====
-- What a pair rotation can leave on the disk, whichever of its steps fails.
use kor_travel_docker_manage.Common.{ℕ, none, some, ◌≡◌}
use kor_travel_docker_manage.Common.Result.{Result, ok, err}
use kor_travel_docker_manage.Errors.{Error, intent_not_cleared}
use kor_travel_docker_manage.Platform.{Platform}
use kor_travel_docker_manage.Pins.Registry.{RuntimePinRegistry}
use kor_travel_docker_manage.Pins.Document.{to_payload}
use kor_travel_docker_manage.Pins.Files.{load, written}
use kor_travel_docker_manage.Pins.Rotation.{build_pair_rotation}
use kor_travel_docker_manage.Pins.Store.{published_payload}
use kor_travel_docker_manage.Executions.{RuntimeExecutionRegistry, rotate_execution_source_binding}
use kor_travel_docker_manage.Executions.Document.{executions_to_payload}
use kor_travel_docker_manage.Executions.Files.{
  private_mode, public_mode, load_executions, state_file,
}
use kor_travel_docker_manage.Pairs.{RuntimePairRotation, new_pair_rotation, pair_to_payload}
use kor_travel_docker_manage.Pairs.Files.{Site, execution_host}
use kor_travel_docker_manage.Pairs.Disk.{Disk}
use kor_travel_docker_manage.Pairs.Transaction.{Times, PairRequest, rotation_request}

-- The same files hold the same documents. What a load remembers and the mode of the intent's
-- directory may differ.
pub record SameFiles (d d' : Disk) : Type 0 where
  pub registry : d'.pins.registry ≡ d.pins.registry
  pub preserved : d'.pins.preserved ≡ d.pins.preserved
  pub public : d'.pins.public ≡ d.pins.public
  pub executions : d'.executions ≡ d.executions
  pub intent : d'.intent ≡ d.intent

module _ (py : Platform) (site : Site) (times : Times) where
  -- The intent on the disk is the target.
  pub record IsPending (t : RuntimePairRotation) (d : Disk) : Type 0 where
    pub intent : d.intent ≡ some (state_file site.process private_mode (pair_to_payload t))

  -- All four documents are those of the target, and no intent is left.
  pub record IsPublished (t : RuntimePairRotation) (d : Disk) : Type 0 where
    pub stamp : ℕ
    pub registry :
        d.pins.registry ≡ some (written py site.process stamp (to_payload t.pin_registry))
    pub public_stamp : ℕ
    pub public :
        d.pins.public
        ≡ some (
            written py site.process public_stamp
              (published_payload t.pin_registry times.published_at))
    pub executions :
        d.executions.registry
        ≡ some (
            state_file
              (execution_host site).process
              private_mode
              (executions_to_payload t.execution_registry))
    pub public_executions :
        d.executions.public
        ≡ some (
            state_file
              (execution_host site).process
              public_mode
              (executions_to_payload t.execution_registry))
    pub no_intent : d.intent ≡ none

  -- The target is what the two registries on the disk lead to.
  pub record IsTarget (q : PairRequest) (d : Disk) (t : RuntimePairRotation) : Type 0 where
    pub current : RuntimePinRegistry
    pub loaded : (load py site.process d.pins).0 ≡ ok current
    pub built :
        build_pair_rotation py times.rotated_at current (rotation_request q) ≡ ok t.pin_registry
    pub executions : RuntimeExecutionRegistry
    pub loaded_executions :
        load_executions py
          (execution_host site).process
          d.executions.private_root
          d.executions.registry
        ≡ ok executions
    pub bound :
        rotate_execution_source_binding py times.bound_at executions t.pin_registry
          q.manager_source_revision q.rotated_by q.reason
        ≡ ok t.execution_registry
    pub agrees : new_pair_rotation times.created_at t.pin_registry t.execution_registry ≡ ok t

  -- The ends of a run from the disk `d`.
  pub data Outcome (q : PairRequest) (d : Disk)
      : Result Error RuntimePinRegistry × Disk → Type 0 where
    refused : (e : Error) (d' : Disk) → SameFiles d d' → Outcome q d (err e, d')
    interrupted :
        (e : Error) (t : RuntimePairRotation) (d' : Disk)
        → IsTarget q d t
        → IsPending t d'
        → Outcome q d (err e, d')
    published :
        (t : RuntimePairRotation) (d' : Disk)
        → IsTarget q d t
        → IsPublished t d'
        → Outcome q d (ok t.pin_registry, d')
    unsynced :
        (t : RuntimePairRotation) (d' : Disk)
        → IsTarget q d t
        → IsPublished t d'
        → Outcome q d (err intent_not_cleared, d')
