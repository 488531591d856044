-- ===== src/Targets/Validation/Laws.antt =====
-- What a configuration that passes the validation guarantees.
use kor_travel_docker_manage.Common.{
  String, Bool, true, false, ◌&&◌, ◌||◌, some, List, [], ◌∷◌, ◌≡◌, refl, sym, ◌∙◌, ap, ◌==◌,
  eq_refl, eq_iff, arith, inl, inr, Bool-cases, any, all, is_empty,
}
use kor_travel_docker_manage.Common.Result.{ok, Result-cases, OnOk, OnOk-ok, OnOk-bind, OnOk-guard}
use kor_travel_docker_manage.Json.{contains}
use kor_travel_docker_manage.Platform.{Platform}
use kor_travel_docker_manage.Targets.{
  TargetSpec, TargetsConfig, find_spec, spec_of, target_hosts, normal, answers_to, first_name,
  target_name,
}
use kor_travel_docker_manage.Targets.Closure.{IsWired}
use kor_travel_docker_manage.Targets.Validation.{
  is_target, Owners, owner_of, is_free, claim_aliases, validate_target, validate_each,
  validate_references,
}

all-contains :
    (test : String → Bool) (names : List String) (x : String)
    → all test names ≡ true
    → contains x names ≡ true
    → test x ≡ true
unfolding contains
all-contains test [] x h m = ground arith
all-contains test (y ∷ names) x h m = elim (Bool-cases (y == x)) [
  | inl same ↦ let e = (eq_iff y x).0 same in rw (sym e) (ground (arith, h))
  | inr other ↦ all-contains test names x (ground (arith, h)) (ground (arith, other, m))
]

is_target-find :
    (name : String) (targets : List (String × TargetSpec))
    → is_target name targets ≡ true
    → (spec : TargetSpec) × (find_spec name targets ≡ some spec)
unfolding is_target find_spec
is_target-find name [] h = ground arith
is_target-find name ((key, spec) ∷ rest) h = elim (Bool-cases (key == name)) [
  | inl same ↦ (spec, rw same refl)
  | inr other ↦
      let (s, found) = is_target-find name rest (ground (arith, other, h)) in (s, rw other found)
]

module _ (py : Platform) where
  claim_aliases-keeps :
      (target : String) (aliases : List String) (owners : Owners) (a o : String)
      → owner_of a owners ≡ some o
      → OnOk (λ out. owner_of a out ≡ some o) (claim_aliases py target aliases owners)
  unfolding validate_references owner_of is_free
  claim_aliases-keeps target [] owners a o h = OnOk-ok owners h
  claim_aliases-keeps target (alias ∷ aliases) owners a o h =
      OnOk-guard (is_free target (normal py alias) owners) _ _ λ free.
        claim_aliases-keeps target aliases ((normal py alias, target) ∷ owners) a o
          (ground (arith, free, h, eq_iff (normal py alias) a, eq_iff o target))

  claim_aliases-owns :
      (target : String) (aliases : List String) (owners : Owners) (a : String)
      → any (λ x. a == normal py x) aliases ≡ true
      → OnOk (λ out. owner_of a out ≡ some target) (claim_aliases py target aliases owners)
  unfolding validate_references owner_of is_free
  claim_aliases-owns target [] owners a h = ground arith
  claim_aliases-owns target (alias ∷ aliases) owners a h =
      OnOk-guard (is_free target (normal py alias) owners) _ _ λ free.
        elim (Bool-cases (a == normal py alias)) [
          | inl same ↦
              claim_aliases-keeps target aliases ((normal py alias, target) ∷ owners) a target
                (ground (arith, eq_iff a (normal py alias), eq_refl (normal py alias), same))
          | inr other ↦
              claim_aliases-owns target aliases ((normal py alias, target) ∷ owners) a
                (ground (arith, other, h))
        ]

  -- A target of the name answers to the text.
  unfoldable pub answered : String → String → List (String × TargetSpec) → Bool
  answered a name [] = false
  answered a name (item ∷ items) = answers_to py a item && item.0 == name || answered a name items

  module _ (config : TargetsConfig) where
    -- The dependencies are targets, no owner of a text changes, and the target owns its names.
    record Validates (name : String) (spec : TargetSpec) (owners out : Owners) : Type 0 where
      wired : all (λ dep. is_target dep config.targets) spec.depends_on ≡ true
      keeps : (a o : String) → owner_of a owners ≡ some o → owner_of a out ≡ some o
      owns : (a : String) → answers_to py a (name, spec) ≡ true → owner_of a out ≡ some name

    validate_target-Validates :
        (name : String) (spec : TargetSpec) (owners : Owners)
        → OnOk (Validates name spec owners) (validate_target py config (name, spec) owners)
    unfolding validate_references answers_to
    validate_target-Validates name spec owners = OnOk-bind (target_hosts config name) _ λ hosts hh.
        OnOk-guard (all (λ dep. is_target dep config.targets) spec.depends_on) _ _ λ wired.
          OnOk-guard (all (λ part. is_target part config.targets) spec.include) _ _ λ parts.
            OnOk-guard (all (λ c. contains c config.containers) spec.containers) _ _ λ held.
              record {
                at = λ out h. record {
                  wired = wired;
                  keeps = λ a o kept.
                      (claim_aliases-keeps name (name ∷ spec.aliases) owners a o kept).at out h;
                  owns = λ a m. (claim_aliases-owns name (name ∷ spec.aliases) owners a m).at out h;
                };
              }

    validate_each-keeps :
        (items : List (String × TargetSpec)) (owners : Owners) (a o : String)
        → owner_of a owners ≡ some o
        → OnOk (λ out. owner_of a out ≡ some o) (validate_each py config items owners)
    unfolding validate_references
    validate_each-keeps [] owners a o h = OnOk-ok owners h
    validate_each-keeps ((name, spec) ∷ items) owners a o h =
        OnOk-bind (validate_target py config (name, spec) owners) _ λ next hn.
          validate_each-keeps items next a o
            (((validate_target-Validates name spec owners).at next hn).keeps a o h)

    validate_each-owns :
        (items : List (String × TargetSpec)) (owners : Owners) (a n : String)
        → answered a n items ≡ true
        → OnOk (λ out. owner_of a out ≡ some n) (validate_each py config items owners)
    unfolding validate_references answered
    validate_each-owns [] owners a n h = ground arith
    validate_each-owns ((name, spec) ∷ items) owners a n h =
        OnOk-bind (validate_target py config (name, spec) owners) _ λ next hn.
          elim (Bool-cases (answers_to py a (name, spec) && name == n)) [
            | inl own ↦ validate_each-keeps items next a n (
                ((validate_target-Validates name spec owners).at next hn).owns a
                  (ground (arith, own))
                ∙ ap some ((eq_iff name n).0 (ground (arith, own))))
            | inr other ↦ validate_each-owns items next a n (ground (arith, other, h))
          ]

    validate_each-wired :
        (items : List (String × TargetSpec)) (owners : Owners) (name : String) (spec : TargetSpec)
        → find_spec name items ≡ some spec
        → OnOk
            (λ out. all (λ dep. is_target dep config.targets) spec.depends_on ≡ true)
            (validate_each py config items owners)
    unfolding validate_references find_spec
    validate_each-wired [] owners name spec found = ground arith
    validate_each-wired ((key, s) ∷ items) owners name spec found =
        OnOk-bind (validate_target py config (key, s) owners) _ λ next hn.
          elim (Bool-cases (key == name)) [
            | inl same ↦
                let own : s ≡ spec = ground (arith, same, found) in
                record {
                  at = λ out h.
                      rw (sym own) (((validate_target-Validates key s owners).at next hn).wired);
                }
            | inr other ↦ validate_each-wired items next name spec (ground (arith, other, found))
          ]

    validated :
        validate_references py config ≡ ok tt
        → (out : Owners) × (validate_each py config config.targets [] ≡ ok out)
    unfolding validate_references
    validated h = elim (Result-cases (validate_each py config config.targets [])) [
      | inl each ↦ each
      | inr (e, failed) ↦ ground (arith, failed)
    ]

    -- Where the validation passes, every dependency of a target is a target.
    pub validated-IsWired : validate_references py config ≡ ok tt → IsWired config
    unfolding spec_of
    validated-IsWired h = record {
      known = λ name dep spec found d.
          let (out, each) = validated h in
          let (s, there) = is_target-find dep config.targets (
            all-contains (λ x. is_target x config.targets) spec.depends_on dep
              ((validate_each-wired config.targets [] name spec (found_spec name spec found)).at out
                each)
              d) in
          (s, rw (spec_of, there) refl);
    }
      where
        found_spec :
            (name : String) (spec : TargetSpec)
            → spec_of config name ≡ ok spec
            → find_spec name config.targets ≡ some spec
        found_spec name spec f = ground arith

    first_name-answered :
        (target a n : String) (items : List (String × TargetSpec))
        → answered a n items ≡ true
        → (m : String) × (first_name py target a items ≡ ok m) × (answered a m items ≡ true)
    unfolding first_name answered
    first_name-answered target a n [] h = ground arith
    first_name-answered target a n ((name, spec) ∷ items) h =
        elim (Bool-cases (answers_to py a (name, spec))) [
          | inl own ↦ (name, rw own refl, rw (own, eq_refl name) refl)
          | inr other ↦
              let (m, first, there) =
                first_name-answered target a n items (ground (arith, other, h)) in
              (m, rw other first, ground (arith, there))
        ]

    -- Where the validation passes, a name or an alias leads to its own target, whichever other targets
    -- there are, in any case of its letters and with any white space around it that `str.lower`
    -- and `str.strip` remove.
    pub alias_resolves :
        (alias name : String)
        → validate_references py config ≡ ok tt
        → is_empty alias ≡ false
        → answered (normal py alias) name config.targets ≡ true
        → target_name py config alias ≡ ok name
    unfolding target_name
    alias_resolves alias name h filled own =
        let (out, each) = validated h in
        let (m, first, there) =
          first_name-answered alias (normal py alias) name config.targets own in
        let a = (validate_each-owns config.targets [] (normal py alias) name own).at out each in
        let b = (validate_each-owns config.targets [] (normal py alias) m there).at out each in
        let same : m ≡ name = cc (a, b) in rw (filled, first, same) refl
