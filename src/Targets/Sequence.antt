-- ===== src/Targets/Sequence.antt =====
-- registry.py: the dependency closure of a target, its order, and what is derived from the sequence.
use kor_travel_docker_manage.Common.{
  ℕ, zero, suc, ◌+◌, String, Bool, true, false, Option, none, some, List, [], ◌∷◌, ◌++◌, ◌==◌, map,
  length, leb, if◌then◌else◌,
}
use kor_travel_docker_manage.Common.Result.{Result, ok, err, ◌>>=◌, ◌>>◌, traverse}
use kor_travel_docker_manage.Json.{Json, contains}
use kor_travel_docker_manage.Platform.{Platform}
use kor_travel_docker_manage.Targets.{
  TargetSpec, TargetsConfig, TargetError, closure_unfinished, include_too_deep, spec_of, dedupe,
  owned, require_targets_on_host, target_name,
}

abbrev pub concat : {A : Type 0} → List (List A) → List A
concat [] = []
concat (xs ∷ xss) = xs ++ concat xss

abbrev pub reversed : {A : Type 0} → List A → List A → List A
reversed [] out = out
reversed (x ∷ xs) out = reversed xs (x ∷ out)

-- The position of a name in the order, or the length of the order.
unfoldable pub rank : List String → String → ℕ
rank [] name = 0
rank (x ∷ xs) name = let rest = rank xs name in if x == name then 0 else suc rest

unfoldable pub insert : List String → String → List String → List String
unfolding rank
insert order name [] = name ∷ []
insert order name (other ∷ rest) =
    let later = insert order name rest in
    if leb (rank order name) (rank order other) then name ∷ other ∷ rest else other ∷ later

-- `sorted(names, key=...)`, which keeps the order of names of one rank
unfoldable pub sorted : List String → List String → List String
unfolding insert
sorted order [] = []
sorted order (name ∷ names) = insert order name (sorted order names)

module _ (config : TargetsConfig) where
  -- The while loop: the stack, its top first, and the closure so far.
  unfoldable pub close : ℕ → (stack closure : List String) → Result TargetError (List String)
  close fuel [] closure = ok closure
  close zero (name ∷ stack) closure = err closure_unfinished
  close (suc fuel) (name ∷ stack) closure = elim (contains name closure) [
    | true ↦ close fuel stack closure
    | false ↦
        spec_of config name >>= λ spec. close fuel (reversed spec.depends_on stack) (name ∷ closure)
  ]

-- The number of the dependencies of all targets: each of them is pushed once at most.
abbrev pub total_dependencies : List (String × TargetSpec) → ℕ
total_dependencies [] = 0
total_dependencies ((name, spec) ∷ rest) = length spec.depends_on + total_dependencies rest

abbrev pub closure_fuel : TargetsConfig → ℕ
closure_fuel config = suc (total_dependencies config.targets)

-- A row of `[{"target": owner, **step} for ...]`
abbrev pub InitStep : Type 0
InitStep = String × Json

-- What `_target_details` adds to the target's own fields.
pub record TargetDetails : Type 0 where
  pub id : String
  pub resolved_sequence : List String
  pub resolved_services : List String
  pub resolved_runtime_services : List String
  pub resolved_init_steps : List InitStep

-- `iterate` is the order in which a set of texts is iterated.
module _ (iterate : List String → List String) (config : TargetsConfig) where
  unfoldable pub closure_sequence : String → Result TargetError (List String)
  closure_sequence name = do
    closure ← close config (closure_fuel config) (name ∷ []) []
    ok (sorted config.dependency_order (iterate closure))

  unfoldable pub is_group : TargetSpec → Bool
  is_group spec = elim spec.include [ [] ↦ false | _ ∷ _ ↦ true ]

  -- _target_sequence_from_config; `depth` bounds the nesting of `include`.
  unfoldable pub target_sequence :
      (depth : ℕ) → Option String → String → Result TargetError (List String)
  unfolding closure_sequence is_group
  target_sequence zero selected name = err include_too_deep
  target_sequence (suc depth) selected name = do
    spec ← spec_of config name
    elim (is_group spec) [
      | true ↦ (do
        parts ← traverse (target_sequence depth selected) spec.include
        owned config selected (dedupe (concat parts)))
      | false ↦ closure_sequence name
    ]

  -- `[item for owner in sequence for item in targets[owner].get(field, [])]`
  unfoldable pub collect :
      {A : Type 0} → (TargetSpec → List A) → List String → Result TargetError (List A)
  collect field [] = ok []
  collect field (owner ∷ sequence) = do
    spec ← spec_of config owner
    rest ← collect field sequence
    ok (field spec ++ rest)

  unfoldable pub init_steps : List String → Result TargetError (List InitStep)
  init_steps [] = ok []
  init_steps (owner ∷ sequence) = do
    spec ← spec_of config owner
    rest ← init_steps sequence
    ok (map (λ step. (owner, step)) spec.init_steps ++ rest)

  -- _target_details, of a sequence that is given
  unfoldable pub target_details : String → List String → Result TargetError TargetDetails
  unfolding init_steps
  target_details name sequence = do
    services ← collect (λ spec. spec.services) sequence
    runtime ← collect (λ spec. spec.runtime_services) sequence
    steps ← init_steps sequence
    ok (record {
      id = name;
      resolved_sequence = sequence;
      resolved_services = dedupe services;
      resolved_runtime_services = dedupe runtime;
      resolved_init_steps = steps;
    })

  module _ (py : Platform) (depth : ℕ) (current_host : String) where
    -- local_mutation_target
    unfoldable pub local_mutation_target : String → Result TargetError TargetDetails
    unfolding is_group
    local_mutation_target target = do
      name ← target_name py config target
      spec ← spec_of config name
      if is_group spec then ok tt else require_targets_on_host config current_host (name ∷ [])
      all_names ← target_sequence depth (some current_host) name
      sequence ← owned config (some current_host) all_names
      target_details name sequence

    -- _config_and_sequence, whose host is read only for a target with `include`
    unfoldable pub sequence_for_target : String → Result TargetError (List String)
    unfolding is_group
    sequence_for_target target = do
      name ← target_name py config target
      spec ← spec_of config name
      target_sequence depth (if is_group spec then some current_host else none) name

    -- services_for_target and runtime_services_for_target
    unfoldable pub services_for_target :
        (runtime_only : Bool) → String → Result TargetError (List String)
    services_for_target runtime_only target = do
      sequence ← sequence_for_target target
      services ←
          collect (λ spec. if runtime_only then spec.runtime_services else spec.services) sequence
      ok (dedupe services)

    -- init_steps_for_target
    unfoldable pub init_steps_for_target : String → Result TargetError (List InitStep)
    unfolding init_steps
    init_steps_for_target target = do sequence ← sequence_for_target target; init_steps sequence
