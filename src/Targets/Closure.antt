-- ===== src/Targets/Closure.antt =====
-- The while loop of `_target_sequence_from_config` ends, and finds exactly what the target depends on.
use kor_travel_docker_manage.Common.{
  ℕ, zero, suc, ◌+◌, ◌≤◌, String, Bool, true, false, ◌||◌, some, List, [], ◌∷◌, ◌≡◌, refl, sym,
  ◌==◌, eq_iff, eq_refl, arith, length, ◌↔◌, inl, inr, Bool-cases, if◌then◌else◌,
}
use kor_travel_docker_manage.Common.Result.{ok, Result-cases}
use kor_travel_docker_manage.Json.{contains}
use kor_travel_docker_manage.Targets.{TargetSpec, TargetsConfig, find_spec, spec_of}
use kor_travel_docker_manage.Targets.Sequence.{reversed, close, total_dependencies, closure_fuel}

contains-reversed :
    (x : String) (xs out : List String)
    → contains x (reversed xs out) ≡ (contains x xs || contains x out)
unfolding contains
contains-reversed x [] out = refl
contains-reversed x (y ∷ ys) out = rw (contains-reversed x ys (y ∷ out)) (ground arith)

length-reversed : (xs out : List String) → length (reversed xs out) ≡ length xs + length out
length-reversed [] out = omega arith
length-reversed (x ∷ xs) out = omega (arith, length-reversed xs (x ∷ out))

-- The dependencies of the targets outside the closure.
pending : List String → List (String × TargetSpec) → ℕ
pending closure [] = 0
pending closure ((name, spec) ∷ rest) =
    (if contains name closure then 0 else length spec.depends_on) + pending closure rest

pending-total :
    (targets : List (String × TargetSpec)) → pending [] targets ≡ total_dependencies targets
unfolding pending contains
pending-total [] = refl
pending-total ((name, spec) ∷ rest) = rw (pending-total rest) refl

pending-grows :
    (name : String) (closure : List String) (targets : List (String × TargetSpec))
    → pending (name ∷ closure) targets ≤ pending closure targets
unfolding pending contains
pending-grows name closure [] = omega arith
pending-grows name closure ((key, spec) ∷ rest) = ground (arith, pending-grows name closure rest)

pending-add :
    (name : String) (spec : TargetSpec) (closure : List String)
    (targets : List (String × TargetSpec))
    → contains name closure ≡ false
    → find_spec name targets ≡ some spec
    → pending (name ∷ closure) targets + length spec.depends_on ≤ pending closure targets
unfolding pending contains find_spec
pending-add name spec closure [] fresh found = ground arith
pending-add name spec closure ((key, s) ∷ rest) fresh found = ground (
  arith,
  pending-add name spec closure rest fresh,
  pending-grows name closure rest,
  eq_iff key name,
  eq_refl name,
)

fits_not : (n m : ℕ) → suc n + m ≤ 0 → ⊥
fits_not n m h = omega arith

module _ (config : TargetsConfig) where
  -- What a target depends on, itself included.
  pub data Reaches (start : String) : String → Type 0 where
    here : Reaches start start
    further :
        (name dep : String) (spec : TargetSpec)
        → Reaches start name
        → spec_of config name ≡ ok spec
        → contains dep spec.depends_on ≡ true
        → Reaches start dep

  -- Every dependency of a target is a target.
  pub record IsWired : Type 0 where
    pub known :
        (name dep : String) (spec : TargetSpec)
        → spec_of config name ≡ ok spec
        → contains dep spec.depends_on ≡ true
        → (s : TargetSpec) × (spec_of config dep ≡ ok s)

  spec_of-find :
      (name : String) (spec : TargetSpec)
      → spec_of config name ≡ ok spec
      → find_spec name config.targets ≡ some spec
  unfolding spec_of
  spec_of-find name spec h = ground arith

  known_next :
      IsWired
      → (name : String) (spec : TargetSpec) (stack : List String)
      → ((x : String)
          → contains x (name ∷ stack) ≡ true
          → (s : TargetSpec) × (spec_of config x ≡ ok s))
      → spec_of config name ≡ ok spec
      → (x : String) → contains x (reversed spec.depends_on stack) ≡ true
      → (s : TargetSpec) × (spec_of config x ≡ ok s)
  unfolding contains
  known_next wired name spec stack known found x m =
      elim (Bool-cases (contains x spec.depends_on)) [
        | inl dep ↦ wired.known name x spec found dep
        | inr other ↦ known x (ground (arith, contains-reversed x spec.depends_on stack, m))
      ]

  -- With the fuel of the stack and of the pending dependencies, the loop ends.
  close_ends :
      IsWired
      → (fuel : ℕ) (stack closure : List String)
      → ((x : String) → contains x stack ≡ true → (s : TargetSpec) × (spec_of config x ≡ ok s))
      → length stack + pending closure config.targets ≤ fuel
      → (result : List String) × (close config fuel stack closure ≡ ok result)
  unfolding close contains
  close_ends wired fuel [] closure known fits = (closure, refl)
  close_ends wired zero (name ∷ stack) closure known fits = absurd (fits_not (length stack) _ fits)
  close_ends wired (suc fuel) (name ∷ stack) closure known fits =
      elim (Bool-cases (contains name closure)) [
        | inl old ↦
            let (result, h) =
              close_ends wired fuel stack closure (λ x m. known x (ground (arith, m)))
                (omega arith) in
            (result, rw (close, old) h)
        | inr fresh ↦
            let (spec, found) = known name (rw (contains, eq_refl name) refl) in
            let (result, h) =
              close_ends wired fuel (reversed spec.depends_on stack) (name ∷ closure)
                (λ x m. known_next wired name spec stack known found x m)
                (omega (
                  arith,
                  length-reversed spec.depends_on stack,
                  pending-add name spec closure config.targets fresh (spec_of-find name spec found),
                )) in
            (result, rw (close, fresh, found) h)
      ]

  -- The loop adds only what the start depends on.
  close_sound :
      (start : String) (fuel : ℕ) (stack closure result : List String)
      → ((x : String) → contains x stack ≡ true → Reaches start x)
      → ((x : String) → contains x closure ≡ true → Reaches start x)
      → close config fuel stack closure ≡ ok result
      → (x : String) → contains x result ≡ true
      → Reaches start x
  unfolding close contains
  close_sound start fuel [] closure result up done h x m = done x (ground (arith, h, m))
  close_sound start zero (name ∷ stack) closure result up done h x m = ground arith
  close_sound start (suc fuel) (name ∷ stack) closure result up done h x m =
      elim (Bool-cases (contains name closure)) [
        | inl old ↦
            close_sound start fuel stack closure result (λ y i. up y (ground (arith, i))) done
              (rw (close, old) at h) x m
        | inr fresh ↦ elim (Result-cases (spec_of config name)) [
          | inl (spec, found) ↦
              close_sound start fuel (reversed spec.depends_on stack) (name ∷ closure) result
                (λ y i. elim (Bool-cases (contains y spec.depends_on)) [
                  | inl dep ↦ further name y spec (up name (rw (eq_refl name) refl)) found dep
                  | inr other ↦ up y (ground (arith, contains-reversed y spec.depends_on stack, i))
                ])
                (λ y i. elim (Bool-cases (name == y)) [
                  | inl same ↦ up y (ground (arith, same))
                  | inr other ↦ done y (ground (arith, other, i))
                ])
                (rw (close, fresh, found) at h) x m
          | inr (e, failed) ↦ ground (arith, failed)
        ]
      ]

  -- The dependencies of the names in `from` all pass the test.
  abbrev Covers : List String → (String → Bool) → Type 0
  Covers from test =
      (name dep : String) (spec : TargetSpec)
      → contains name from ≡ true
      → spec_of config name ≡ ok spec
      → contains dep spec.depends_on ≡ true
      → test dep ≡ true

  abbrev seen : (stack closure : List String) → String → Bool
  seen stack closure x = contains x stack || contains x closure

  seen-old :
      (name x : String) (stack closure : List String)
      → contains name closure ≡ true
      → seen (name ∷ stack) closure x ≡ true
      → seen stack closure x ≡ true
  unfolding contains
  seen-old name x stack closure old h = ground (arith, eq_iff name x)

  seen-next :
      (name x : String) (spec : TargetSpec) (stack closure : List String)
      → seen (name ∷ stack) closure x ≡ true
      → seen (reversed spec.depends_on stack) (name ∷ closure) x ≡ true
  unfolding contains
  seen-next name x spec stack closure h =
      rw (contains-reversed x spec.depends_on stack) (ground arith)

  Covers-next :
      (name : String) (spec : TargetSpec) (stack closure : List String)
      → spec_of config name ≡ ok spec
      → Covers closure (seen (name ∷ stack) closure)
      → Covers (name ∷ closure) (seen (reversed spec.depends_on stack) (name ∷ closure))
  unfolding contains
  Covers-next name spec stack closure found covers n dep s m at d = elim (Bool-cases (name == n)) [
    | inl same ↦
        let own : n ≡ name = sym ((eq_iff name n).0 same) in
        let spec_eq : s ≡ spec = cc (own, at, found) in
        rw (contains-reversed dep spec.depends_on stack) (ground (arith, spec_eq, d))
    | inr other ↦ seen-next name dep spec stack closure (covers n dep s (ground (arith, m)) at d)
  ]

  -- What was pushed is in the result, and so are the dependencies of all that is in it.
  close_complete :
      (fuel : ℕ) (stack closure result : List String)
      → Covers closure (seen stack closure)
      → close config fuel stack closure ≡ ok result
      → Covers result (λ x. contains x result)
        × ((x : String) → seen stack closure x ≡ true → contains x result ≡ true)
  unfolding close contains
  close_complete fuel [] closure result covers h =
      let same : closure ≡ result = ground arith in rw (sym same) (covers, λ x m. m)
  close_complete zero (name ∷ stack) closure result covers h = ground arith
  close_complete (suc fuel) (name ∷ stack) closure result covers h =
      elim (Bool-cases (contains name closure)) [
        | inl old ↦
            let (all_in, pushed) =
              close_complete fuel stack closure result
                (λ n dep s m at d. seen-old name dep stack closure old (covers n dep s m at d))
                (rw (close, old) at h) in
            (all_in, λ x m. pushed x (seen-old name x stack closure old m))
        | inr fresh ↦ elim (Result-cases (spec_of config name)) [
          | inl (spec, found) ↦
              let (all_in, pushed) =
                close_complete fuel (reversed spec.depends_on stack) (name ∷ closure) result
                  (Covers-next name spec stack closure found covers)
                  (rw (close, fresh, found) at h) in
              (all_in, λ x m. pushed x (seen-next name x spec stack closure m))
          | inr (e, failed) ↦ ground (arith, failed)
        ]
      ]

  only-start : (x start : String) → contains x (start ∷ []) ≡ true → x ≡ start
  unfolding contains
  only-start x start m = sym ((eq_iff start x).0 (ground arith))

  Reaches-result :
      (start : String) (result : List String)
      → contains start result ≡ true
      → Covers result (λ x. contains x result)
      → (x : String) → Reaches start x
      → contains x result ≡ true
  Reaches-result start result own covers x here = own
  Reaches-result start result own covers x (further name dep spec r found d) =
      covers name dep spec (Reaches-result start result own covers name r) found d

  -- Where every dependency of a target is a target, the loop of a target ends within its fuel, and the
  -- closure holds exactly the target, its dependencies, their dependencies, and so on.
  pub closure_lem :
      (start : String) (spec : TargetSpec)
      → IsWired
      → spec_of config start ≡ ok spec
      → (result : List String) × (close config (closure_fuel config) (start ∷ []) [] ≡ ok result)
        × ((x : String) → (contains x result ≡ true) ↔ Reaches start x)
  unfolding contains
  closure_lem start spec wired found =
      let (result, h) =
        close_ends wired (closure_fuel config) (start ∷ []) []
          (λ x m. (spec, rw (only-start x start m) found))
          (omega (arith, pending-total config.targets)) in
      let (covers, pushed) =
        close_complete (closure_fuel config) (start ∷ []) [] result
          (λ n dep s m at d. ground (arith, m)) h in
      let own = pushed start (rw (eq_refl start) refl) in
      (
        result,
        h,
        λ x. (
          close_sound start (closure_fuel config) (start ∷ []) [] result
              (λ y m. rw (only-start y start m) here) (λ y m. ground (arith, m)) h x,
          Reaches-result start result own covers x,
        ),
      )
