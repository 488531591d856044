-- ===== src/Pairs/Terminal.antt =====
-- A rotation of a single role does not leave a terminal state.
use kor_travel_docker_manage.Common.{
  true, not, ◌||◌, Option, none, ◌≡◌, ◌==◌, refl, ap, arith, ◌⊎◌, inl, inr,
}
use kor_travel_docker_manage.Common.Result.{Result, ok, err, guard}
use kor_travel_docker_manage.Errors.{
  Error, targets_not_local, pair_role_unknown, terminal_pinset_needs_pair,
  terminal_execution_needs_pair,
}
use kor_travel_docker_manage.Platform.{Platform}
use kor_travel_docker_manage.Pins.Registry.{RuntimePinRegistry, is_unconditionally_blocked_pinset}
use kor_travel_docker_manage.Pins.Files.{Store, load}
use kor_travel_docker_manage.Executions.{
  RuntimeExecutionRegistry, is_unconditionally_blocked_current,
}
use kor_travel_docker_manage.Executions.Files.{load_executions}
use kor_travel_docker_manage.Pairs.{RuntimePairRotation}
use kor_travel_docker_manage.Pairs.Files.{Site, execution_host, read_intent}
use kor_travel_docker_manage.Pairs.Disk.{Disk, Action, continue, ◌>>=◌, ◌>>◌, lift, load_pending}
use kor_travel_docker_manage.Pairs.Rules.{pure_rule, pins_rule}
use kor_travel_docker_manage.Pairs.Outcome.{SameFiles}
use kor_travel_docker_manage.Pairs.Atomic.{SameFiles-refl, load-SameFiles}
use kor_travel_docker_manage.Pairs.Transaction.{
  Times, RoleRequest, with_role, load_pins, load_current_executions, prepare_pair, resume,
  refuse_terminal, publish_rotation_target, rotate_single_role_with_execution,
}

-- The run raised an error and left every file as it was.
abbrev pub IsRefusal : {A : Type 0} → Disk → Result Error A × Disk → Type 0
IsRefusal d r = SameFiles d r.1 × ((e : Error) × (r.0 ≡ err e))

IsRefusal-continue :
    {A B : Type 0} (d : Disk) (f : A → Action B) (r : Result Error A × Disk)
    → IsRefusal d r
    → IsRefusal d (continue f r)
IsRefusal-continue d f (ok a, d') (same, (e, h)) = ground arith
IsRefusal-continue d f (err x, d') (same, (e, h)) = (same, (x, refl))

module _ (py : Platform) (site : Site) (times : Times) where
  -- The current pinset or the current execution is blocked without condition.
  abbrev pub IsTerminal : RuntimePinRegistry → Disk → Type 0
  IsTerminal current d =
      (is_unconditionally_blocked_pinset current current.pinset_sha256 ≡ true)
      ⊎ ((r : RuntimeExecutionRegistry) × (load_executions py (execution_host site).process
              d.executions.private_root d.executions.registry
            ≡ ok r)
          × (is_unconditionally_blocked_current r ≡ true))

  refuse_terminal-stops :
      (current : RuntimePinRegistry) (start d : Disk) (next : Action RuntimePairRotation)
      → SameFiles start d
      → IsTerminal current d
      → IsRefusal start ((refuse_terminal py site times current >> next) d)
  unfolding refuse_terminal
  refuse_terminal-stops current start d next same (inl blocked) = rw blocked (same, (_, refl))
  refuse_terminal-stops current start d next same (inr (r, read, blocked)) =
      pure_rule Q after_pinset d
        (guard (not (is_unconditionally_blocked_pinset current current.pinset_sha256))
          terminal_pinset_needs_pair)
        (λ x h. (same, (x, refl)))
        λ value h.
          pure_rule Q test d
            (load_executions py (execution_host site).process d.executions.private_root
              d.executions.registry)
            (λ x e. (same, (x, refl)))
            λ found e.
              let stops : is_unconditionally_blocked_current found ≡ true = cc in
              rw stops (same, (_, refl))
    where
      Q : Result Error Unit × Disk → Type 0
      Q x = IsRefusal start (continue (λ v. next) x)

      test : RuntimeExecutionRegistry → Action Unit
      test found =
          lift
            (guard (not (is_unconditionally_blocked_current found)) terminal_execution_needs_pair)

      after_pinset : Unit {0} → Action Unit
      after_pinset value = load_current_executions py site times >>= test

  -- Where no intent is pending and the current pinset or the current execution is blocked without
  -- condition, a rotation of a single role raises an error and changes no file, whatever revision
  -- it asks for.
  pub single_role_refused :
      (q : RoleRequest) (d : Disk) (current : RuntimePinRegistry)
      → d.intent ≡ none
      → (load py site.process d.pins).0 ≡ ok current
      → IsTerminal current d
      → IsRefusal d (rotate_single_role_with_execution py site times q d)
  unfolding rotate_single_role_with_execution resume read_intent
  single_role_refused q d current free loaded terminal =
      pure_rule (IsRefusal d) after_guard d (guard site.process.local_pair targets_not_local)
        (λ x h. (SameFiles-refl d, (x, refl)))
        λ value h.
          pure_rule (IsRefusal d) after_role d
            (guard (q.role == "map" || q.role == "pinvi") pair_role_unknown)
            (λ x h'. (SameFiles-refl d, (x, refl)))
            λ value' h'.
              pins_rule (IsRefusal d) after_load d (load py site.process)
                (λ x s e. (load-SameFiles py site times d s (err x) e, (x, refl)))
                λ found s e.
                  let same = load-SameFiles py site times d s (ok found) e in
                  let own : found ≡ current =
                    cc (loaded, ap (λ (p : Result Error RuntimePinRegistry × Store). p.0) e) in
                  pure_rule (IsRefusal d) (after_read found) (record d { pins = s })
                    (read_intent py site d.intent_root d.intent) (λ x e'. (same, (x, refl)))
                    λ pending e'.
                      let absent : pending ≡ none = ground arith in
                      rw (absent, own)
                        (IsRefusal-continue d (publish_rotation_target py site times)
                          (continue (λ v. prepare_pair py site times (with_role q current) current)
                            (refuse_terminal py site times current (record d { pins = s })))
                          (refuse_terminal-stops current d (record d { pins = s })
                            (prepare_pair py site times (with_role q current) current) same
                            terminal))
    where
      after_read : RuntimePinRegistry → Option RuntimePairRotation → Action RuntimePinRegistry
      after_read found pending =
          resume py site times (with_role q found).map_revision (with_role q found).pinvi_revision
            (refuse_terminal py site times found
              >> prepare_pair py site times (with_role q found) found)
            pending
          >>= publish_rotation_target py site times

      after_load : RuntimePinRegistry → Action RuntimePinRegistry
      after_load found = load_pending py site >>= after_read found

      after_role : Unit {0} → Action RuntimePinRegistry
      after_role value = load_pins py site times >>= after_load

      after_guard : Unit {0} → Action RuntimePinRegistry
      after_guard value =
          lift (guard (q.role == "map" || q.role == "pinvi") pair_role_unknown) >>= after_role
