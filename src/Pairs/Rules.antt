-- ===== src/Pairs/Rules.antt =====
-- Proof rules for the actions of Pairs/Disk: what a `do` block ends in, step by step.
use kor_travel_docker_manage.Common.{some, none, ◌≡◌, refl, ◌⊎◌, arith}
use kor_travel_docker_manage.Common.Result.{Result, ok, err}
use kor_travel_docker_manage.Errors.{Error, intent_not_cleared}
use kor_travel_docker_manage.Pins.Files.{Store}
use kor_travel_docker_manage.Executions.{RuntimeExecutionRegistry}
use kor_travel_docker_manage.Executions.Document.{executions_to_payload}
use kor_travel_docker_manage.Executions.Files.{
  ExecutionStore, ExecutionHost, private_mode, public_mode, state_file, write_state,
  write_executions,
}
use kor_travel_docker_manage.Pairs.Files.{Site, tightened, write_intent}
use kor_travel_docker_manage.Pairs.{RuntimePairRotation, pair_to_payload}
use kor_travel_docker_manage.Pairs.Disk.{
  Disk, Action, continue, ◌>>=◌, lift, on_pins, on_executions, store_intent, clear_intent,
}

module _ {ℓ} {A B : Type 0} (Q : Result Error B × Disk → Type ℓ) (f : A → Action B) (d : Disk) where
  -- What holds of every error of `m`, and of every run of `f` after it, holds of both in turn.
  pub bind_rule :
      (m : Action A)
      → ((e : Error) (d' : Disk) → m d ≡ (err e, d') → Q (err e, d'))
      → ((a : A) (d' : Disk) → m d ≡ (ok a, d') → Q (f a d'))
      → Q ((m >>= f) d)
  bind_rule m failed went = split (m d) refl
    where
      split : (r : Result Error A × Disk) → m d ≡ r → Q (continue f r)
      split (ok a, d') e = went a d' e
      split (err x, d') e = failed x d' e

  pub pure_rule :
      (r : Result Error A)
      → ((e : Error) → r ≡ err e → Q (err e, d))
      → ((a : A) → r ≡ ok a → Q (f a d))
      → Q ((lift r >>= f) d)
  pure_rule (ok a) failed went = went a refl
  pure_rule (err e) failed went = failed e refl

  pub pins_rule :
      (m : Store → Result Error A × Store)
      → ((e : Error) (s : Store) → m d.pins ≡ (err e, s) → Q (err e, record d { pins = s }))
      → ((a : A) (s : Store) → m d.pins ≡ (ok a, s) → Q (f a (record d { pins = s })))
      → Q ((on_pins m >>= f) d)
  pins_rule m failed went = split (m d.pins) refl
    where
      split :
          (r : Result Error A × Store)
          → m d.pins ≡ r
          → Q (continue f (r.0, record d { pins = r.1 }))
      split (ok a, s) e = went a s e
      split (err x, s) e = failed x s e

  pub executions_rule :
      (m : ExecutionStore → Result Error A × ExecutionStore)
      → ((e : Error) (s : ExecutionStore)
          → m d.executions ≡ (err e, s)
          → Q (err e, record d { executions = s }))
      → ((a : A) (s : ExecutionStore)
          → m d.executions ≡ (ok a, s)
          → Q (f a (record d { executions = s })))
      → Q ((on_executions m >>= f) d)
  executions_rule m failed went = split (m d.executions) refl
    where
      split :
          (r : Result Error A × ExecutionStore)
          → m d.executions ≡ r
          → Q (continue f (r.0, record d { executions = r.1 }))
      split (ok a, s) e = went a s e
      split (err x, s) e = failed x s e

-- Both copies, after a write that succeeds.
pub write_executions-eq :
    (host : ExecutionHost) (r : RuntimeExecutionRegistry) (s s' : ExecutionStore)
    → write_executions host r s ≡ (ok tt, s')
    → s' ≡ record s {
      registry = some (state_file host.process private_mode (executions_to_payload r));
      public = some (state_file host.process public_mode (executions_to_payload r));
    }
unfolding write_executions write_state
write_executions-eq host r s s' h = ground arith

-- The removal of the intent: done; not done; or done, and then an error.
pub clear_intent-ok :
    (site : Site) (d d' : Disk)
    → clear_intent site d ≡ (ok tt, d')
    → d' ≡ record d { intent = none }
unfolding clear_intent
clear_intent-ok site d d' h = ground arith

pub clear_intent-err :
    (site : Site) (d d' : Disk) (e : Error)
    → clear_intent site d ≡ (err e, d')
    → (d' ≡ d) ⊎ ((e ≡ intent_not_cleared) × (d' ≡ record d { intent = none }))
unfolding clear_intent
clear_intent-err site d d' e h = ground arith

-- The intent is stored, in a directory that was made private before that in any case.
pub store_intent-ok :
    (site : Site) (t : RuntimePairRotation) (d d' : Disk)
    → store_intent site t d ≡ (ok tt, d')
    → d' ≡ record d {
      intent_root = tightened site d.intent_root;
      intent = some (state_file site.process private_mode (pair_to_payload t));
    }
unfolding store_intent write_intent
store_intent-ok site t d d' h = ground arith

pub store_intent-err :
    (site : Site) (t : RuntimePairRotation) (d d' : Disk) (e : Error)
    → store_intent site t d ≡ (err e, d')
    → d' ≡ record d { intent_root = tightened site d.intent_root }
unfolding store_intent write_intent
store_intent-err site t d d' e h = ground arith
