-- ===== src/Pairs/Disk.antt =====
-- The files that a pair rotation works on, and the steps of runtime_pair_rotation.py on them. An
-- action takes the disk and gives a result and the disk; what it wrote before an error stays. The
-- intent and the two registries keep their files in directories of their own, as where the paths are
-- set by the environment; the default paths share one directory, whose mode the `chmod` of the
-- intent's directory then sets to 0700 for the registries as well.
use kor_travel_docker_manage.Common.{not, Option, none, some, if◌then◌else◌}
use kor_travel_docker_manage.Common.Result.{Result, ok, err}
use kor_travel_docker_manage.Errors.{Error, intent_not_cleared, rotation_incomplete}
use kor_travel_docker_manage.Platform.{Platform}
use kor_travel_docker_manage.Pins.Files.{Store}
use kor_travel_docker_manage.Executions.Files.{Directory, StateFile, ExecutionStore}
use kor_travel_docker_manage.Pairs.{RuntimePairRotation}
use kor_travel_docker_manage.Pairs.Files.{
  Site, require_private_parent, require_private_file, read_intent, tightened, write_intent,
}

pub record Disk : Type 0 where
  pub pins : Store
  pub executions : ExecutionStore
  pub intent_root : Directory
  pub intent : Option StateFile

abbrev pub Action : Type 0 → Type 0
Action A = Disk → Result Error A × Disk

abbrev pub continue :
    {A B : Type 0} → (A → Action B) → Result Error A × Disk → Result Error B × Disk
continue f (ok a, d) = f a d
continue f (err e, d) = (err e, d)

module _ {A B : Type 0} where
  infixl 5 ◌>>=◌
  abbrev pub ◌>>=◌ : (m : Action A) (f : A → Action B) → Action B
  ◌>>=◌ m f d = continue f (m d)

infixl 5 ◌>>◌
abbrev pub ◌>>◌ : {A B : Type 0} (m : Action A) (n : Action B) → Action B
m >> n = m >>= λ value. n

abbrev pub lift : {A : Type 0} → Result Error A → Action A
lift r d = (r, d)

-- A test or a read of the disk.
abbrev pub look : {A : Type 0} → (Disk → Result Error A) → Action A
look f d = (f d, d)

-- An action on the pin registry's files, and one on those of the execution registry.
abbrev pub on_pins : {A : Type 0} → (Store → Result Error A × Store) → Action A
on_pins m d = let (r, s) = m d.pins in (r, record d { pins = s })

abbrev pub on_executions :
    {A : Type 0} → (ExecutionStore → Result Error A × ExecutionStore) → Action A
on_executions m d = let (r, s) = m d.executions in (r, record d { executions = s })

-- require_no_pending_runtime_pair_rotation, on what the load of the intent gives
abbrev none_pending : Option RuntimePairRotation → Result Error Unit
none_pending none = ok tt
none_pending (some t) = err rotation_incomplete

module _ (py : Platform) (site : Site) where
  -- load_pending_runtime_pair_rotation
  abbrev pub load_pending : Action (Option RuntimePairRotation)
  load_pending = look λ d. read_intent py site d.intent_root d.intent

  -- require_no_pending_runtime_pair_rotation
  unfoldable pub require_no_pending : Action Unit
  require_no_pending = do pending ← load_pending; lift (none_pending pending)

module _ (site : Site) where
  keep_intent : Result Error StateFile → Action Unit
  keep_intent (err e) d = (err e, d)
  keep_intent (ok f) d = (ok tt, record d { intent = some f })

  -- _atomic_write at the path of the intent
  unfoldable pub store_intent : RuntimePairRotation → Action Unit
  unfolding keep_intent
  store_intent target d =
      let root = tightened site d.intent_root in
      keep_intent (write_intent site root target) (record d { intent_root = root })

  -- The removal of the file, which an error of the `fsync` does not undo.
  unlink_intent : Action Unit
  unlink_intent d =
      if not site.can_unlink_intent
      then (err intent_not_cleared, d)
      else if not site.can_sync_intent
      then (err intent_not_cleared, record d { intent = none })
      else (ok tt, record d { intent = none })

  -- _clear_pending_runtime_pair_rotation
  unfoldable pub clear_intent : Action Unit
  unfolding unlink_intent
  clear_intent = do
    look λ d. require_private_parent site d.intent_root
    look λ d. require_private_file site d.intent
    unlink_intent
