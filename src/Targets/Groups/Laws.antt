-- ===== src/Targets/Groups/Laws.antt =====
-- The groups hold exactly the services of the sequence, each under its own project.
use kor_travel_docker_manage.Common.{
  ℕ, String, Bool, true, false, ◌&&◌, ◌||◌, Option, none, some, List, [], ◌∷◌, ◌++◌, ◌≡◌, refl, sym,
  ◌∙◌, ap, eq_refl, eq_iff, arith, inl, inr, Bool-cases, any, keep, if◌then◌else◌,
}
use kor_travel_docker_manage.Common.Result.{Result, ok, err, Result-cases}
use kor_travel_docker_manage.Json.{contains}
use kor_travel_docker_manage.Platform.{Platform}
use kor_travel_docker_manage.Targets.{
  ExternalProject, TargetSpec, TargetsConfig, TargetError, spec_of,
}
use kor_travel_docker_manage.Targets.Sequence.{sequence_for_target}
use kor_travel_docker_manage.Targets.Groups.{
  same_files, same_project, ServiceGroup, add_services, join, has_services, group_services,
  external_project_for_target, service_groups_for_target,
}

-- A group for the project holds the service.
abbrev pub in_group : Option ExternalProject → String → ServiceGroup → Bool
in_group key service g = same_project g.external key && contains service g.services

abbrev pub serves : Option ExternalProject → String → List ServiceGroup → Bool
serves key service groups = any (in_group key service) groups

-- A target of the sequence has the service, in the project.
pub asks :
    Platform
    → TargetsConfig
    → (TargetSpec → List String)
    → Option ExternalProject
    → String
    → List String
    → Bool
asks py config field key service [] = false
asks py config field key service (owner ∷ sequence) =
    (elim (external_project_for_target py config owner) [
      | ok external ↦ same_project external key
      | err e ↦ false
    ])
      && (elim (spec_of config owner) [ ok spec ↦ contains service (field spec) | err e ↦ false ])
    || asks py config field key service sequence

same_files-eq : (a b : List String) → same_files a b ≡ true → a ≡ b
unfolding same_files
same_files-eq [] [] h = refl
same_files-eq [] (b ∷ bs) h = ground arith
same_files-eq (a ∷ r) [] h = ground arith
same_files-eq (a ∷ r) (b ∷ bs) h = ground (arith, eq_iff a b, same_files-eq r bs)

same_project-eq : (a b : Option ExternalProject) → same_project a b ≡ true → a ≡ b
unfolding same_project
same_project-eq none none h = refl
same_project-eq none (some b) h = ground arith
same_project-eq (some a) none h = ground arith
same_project-eq (some a) (some b) h = ground (
  arith,
  eq_iff a.project b.project,
  eq_iff a.working_dir b.working_dir,
  same_files-eq a.config_files b.config_files,
)

same_files_refl : (a : List String) → same_files a a ≡ true
unfolding same_files
same_files_refl [] = refl
same_files_refl (a ∷ r) = rw (eq_refl a, same_files_refl r) refl

same_project_refl : (a : Option ExternalProject) → same_project a a ≡ true
unfolding same_project
same_project_refl none = refl
same_project_refl (some a) =
    rw (eq_refl a.project, eq_refl a.working_dir, same_files_refl a.config_files) refl

same_project-flip :
    (a b : Option ExternalProject) → same_project a b ≡ false → same_project b a ≡ false
same_project-flip a b h = elim (Bool-cases (same_project b a)) [
  | inl same ↦ cc (h, same_project-eq b a same, same_project_refl a)
  | inr differs ↦ differs
]

contains-append :
    (x : String) (xs ys : List String) → contains x (xs ++ ys) ≡ (contains x xs || contains x ys)
unfolding contains
contains-append x [] ys = refl
contains-append x (y ∷ xs) ys = ground (arith, contains-append x xs ys)

contains-add_services :
    (x : String) (present services : List String)
    → contains x (add_services present services) ≡ (contains x present || contains x services)
unfolding join contains
contains-add_services x present [] = ground arith
contains-add_services x present (service ∷ services) =
    elim (Bool-cases (contains service present)) [
      | inl old ↦
          rw (old, contains-add_services x present services) (ground (arith, eq_iff service x, old))
      | inr fresh ↦
          rw (fresh, contains-add_services x (present ++ service ∷ []) services)
            (ground (arith, contains-append x present (service ∷ [])))
    ]

serves-join :
    (key other : Option ExternalProject) (service : String) (services : List String)
    (groups : List ServiceGroup)
    → serves other service (join key services groups)
      ≡ (serves other service groups || same_project key other && contains service services)
unfolding join contains
serves-join key other service services [] =
    rw (contains-add_services service [] services) (ground arith)
serves-join key other service services (g ∷ groups) =
    elim (Bool-cases (same_project g.external key)) [
      | inl same ↦
          let own = same_project-eq g.external key same in
          rw (same, contains-add_services service g.services services)
            (ground (arith, ap (λ k. same_project k other) own))
      | inr differs ↦ rw (differs, serves-join key other service services groups) (ground arith)
    ]

module _ (py : Platform) (config : TargetsConfig) (field : TargetSpec → List String) where
  serves-group_services :
      (sequence : List String) (groups out : List ServiceGroup)
      → group_services py config field sequence groups ≡ ok out
      → (key : Option ExternalProject) (service : String)
      → serves key service out
        ≡ (serves key service groups || asks py config field key service sequence)
  unfolding group_services asks
  serves-group_services [] groups out h key service =
      let same : groups ≡ out = ground arith in rw same (ground arith)
  serves-group_services (owner ∷ sequence) groups out h key service =
      elim (Result-cases (spec_of config owner)) [
        | inl (spec, found) ↦ elim (Result-cases (external_project_for_target py config owner)) [
          | inl (external, project) ↦
              serves-group_services sequence (join external (field spec) groups) out
                (rw (found, project) at h) key service
              ∙ rw (found, project, serves-join external key service (field spec) groups)
                  (ground arith)
          | inr (e, failed) ↦ ground (arith, found, failed)
        ]
        | inr (e, failed) ↦ ground (arith, failed)
      ]

-- No two groups are for one project.
abbrev pub AllDiffer : List ServiceGroup → Type 0
AllDiffer [] = Unit
AllDiffer (g ∷ groups) =
    (any (λ other. same_project other.external g.external) groups ≡ false) × AllDiffer groups

any-join :
    (key other : Option ExternalProject) (services : List String) (groups : List ServiceGroup)
    → same_project key other ≡ false
    → any (λ g. same_project g.external other) groups ≡ false
    → any (λ g. same_project g.external other) (join key services groups) ≡ false
unfolding join
any-join key other services [] differs h = ground (arith, differs)
any-join key other services (g ∷ groups) differs h =
    ground (arith, any-join key other services groups differs, differs)

AllDiffer-join :
    (key : Option ExternalProject) (services : List String) (groups : List ServiceGroup)
    → AllDiffer groups
    → AllDiffer (join key services groups)
unfolding join
AllDiffer-join key services [] d = (refl, tt)
AllDiffer-join key services (g ∷ groups) (fresh, d) =
    elim (Bool-cases (same_project g.external key)) [
      | inl same ↦ rw same (fresh, d)
      | inr differs ↦ rw differs (
        any-join key g.external services groups (same_project-flip g.external key differs) fresh,
        AllDiffer-join key services groups d,
      )
    ]

AllDiffer-group_services :
    (py : Platform) (config : TargetsConfig) (field : TargetSpec → List String)
    (sequence : List String) (groups out : List ServiceGroup)
    → group_services py config field sequence groups ≡ ok out
    → AllDiffer groups
    → AllDiffer out
unfolding group_services
AllDiffer-group_services py config field [] groups out h d =
    let same : groups ≡ out = ground arith in rw (sym same) d
AllDiffer-group_services py config field (owner ∷ sequence) groups out h d =
    elim (Result-cases (spec_of config owner)) [
      | inl (spec, found) ↦ elim (Result-cases (external_project_for_target py config owner)) [
        | inl (external, project) ↦
            AllDiffer-group_services py config field sequence (join external (field spec) groups)
              out (rw (found, project) at h) (AllDiffer-join external (field spec) groups d)
        | inr (e, failed) ↦ ground (arith, found, failed)
      ]
      | inr (e, failed) ↦ ground (arith, failed)
    ]

serves-keep :
    (key : Option ExternalProject) (service : String) (groups : List ServiceGroup)
    → serves key service (keep has_services groups) ≡ serves key service groups
unfolding service_groups_for_target contains
serves-keep key service [] = refl
serves-keep key service (g ∷ groups) = ground (arith, serves-keep key service groups)

any-keep :
    (test : ServiceGroup → Bool) (groups : List ServiceGroup)
    → any test groups ≡ false
    → any test (keep has_services groups) ≡ false
any-keep test [] h = refl
any-keep test (g ∷ groups) h = ground (arith, any-keep test groups)

AllDiffer-keep :
    (groups : List ServiceGroup) → AllDiffer groups → AllDiffer (keep has_services groups)
AllDiffer-keep [] d = tt
AllDiffer-keep (g ∷ groups) (fresh, d) = elim (Bool-cases (has_services g)) [
  | inl some_in ↦ rw some_in (
    any-keep (λ other. same_project other.external g.external) groups fresh,
    AllDiffer-keep groups d,
  )
  | inr empty ↦ rw empty (AllDiffer-keep groups d)
]

module _ (iterate : List String → List String) (config : TargetsConfig) (py : Platform) (depth : ℕ)
    (current_host : String) where
  -- Where the groups of a target are found, no two of them are for one project, and a group for a
  -- project holds a service exactly when a target of the sequence that belongs to the project lists it.
  pub service_groups_lem :
      (runtime_only : Bool) (target : String) (sequence : List String) (groups : List ServiceGroup)
      → sequence_for_target iterate config py depth current_host target ≡ ok sequence
      → service_groups_for_target iterate config py depth current_host runtime_only target
        ≡ ok groups
      → AllDiffer groups
        × ((key : Option ExternalProject) (service : String)
            → serves key service groups
              ≡ asks py config
                  (λ spec. if runtime_only then spec.runtime_services else spec.services)
                  key
                  service
                  sequence)
  unfolding service_groups_for_target
  service_groups_lem runtime_only target sequence groups found h =
      elim (Result-cases (group_services py config field sequence [])) [
        | inl (all_groups, grouped) ↦
            let kept : keep has_services all_groups ≡ groups =
              ok_eq _ _ (rw (found, grouped) at h) in
            rw (sym kept) (
              AllDiffer-keep all_groups
                  (AllDiffer-group_services py config field sequence [] all_groups grouped tt),
              λ key service.
                  serves-keep key service all_groups
                  ∙ serves-group_services py config field sequence [] all_groups grouped key
                      service,
            )
        | inr (e, failed) ↦ absurd (err_ok e groups (rw (found, failed) at h))
      ]
    where
      field : TargetSpec → List String
      field spec = if runtime_only then spec.runtime_services else spec.services

      err_ok :
          (e : TargetError) (b : List ServiceGroup)
          → ◌≡◌ {A = Result TargetError (List ServiceGroup)} (err e) (ok b)
          → ⊥
      err_ok e b c = cc

      ok_eq :
          (a b : List ServiceGroup)
          → ◌≡◌ {A = Result TargetError (List ServiceGroup)} (ok a) (ok b)
          → a ≡ b
      ok_eq a b e = cc
