-- ===== src/Targets/Order.antt =====
-- The sequence of a target: its dependency closure, sorted by `dependency_order`.
use kor_travel_docker_manage.Common.{
  ℕ, suc, ◌≤◌, String, true, false, ◌||◌, Option, List, [], ◌∷◌, ◌≡◌, refl, ◌∙◌, ◌==◌, arith, ◌↔◌,
  inl, inr, Bool-cases, leb, All,
}
use kor_travel_docker_manage.Common.Result.{ok}
use kor_travel_docker_manage.Json.{contains}
use kor_travel_docker_manage.Targets.{TargetSpec, TargetsConfig, spec_of}
use kor_travel_docker_manage.Targets.Sequence.{rank, insert, sorted, target_sequence}
use kor_travel_docker_manage.Targets.Closure.{Reaches, IsWired, closure_lem}

module _ (order : List String) where
  -- No name stands before one of a lower rank.
  abbrev pub IsOrdered : List String → Type 0
  IsOrdered [] = Unit
  IsOrdered (x ∷ xs) = All (λ y. rank order x ≤ rank order y) xs × IsOrdered xs

  contains-insert :
      (x name : String) (names : List String)
      → contains x (insert order name names) ≡ (name == x || contains x names)
  unfolding sorted contains
  contains-insert x name [] = refl
  contains-insert x name (other ∷ rest) = ground (arith, contains-insert x name rest)

  contains-sorted :
      (x : String) (names : List String) → contains x (sorted order names) ≡ contains x names
  unfolding sorted contains
  contains-sorted x [] = refl
  contains-sorted x (name ∷ names) =
      contains-insert x name (sorted order names) ∙ rw (contains-sorted x names) refl

  All-insert :
      (n : ℕ) (name : String) (names : List String)
      → n ≤ rank order name
      → All (λ y. n ≤ rank order y) names
      → All (λ y. n ≤ rank order y) (insert order name names)
  unfolding sorted
  All-insert n name [] h a = (h, tt)
  All-insert n name (other ∷ rest) h (first, a) =
      elim (Bool-cases (leb (rank order name) (rank order other))) [
        | inl before ↦ rw before (h, (first, a))
        | inr after ↦ rw after (first, All-insert n name rest h a)
      ]

  All-lower :
      (n m : ℕ) (names : List String)
      → n ≤ m
      → All (λ y. m ≤ rank order y) names
      → All (λ y. n ≤ rank order y) names
  All-lower n m [] h a = tt
  All-lower n m (x ∷ xs) h (first, a) = (omega arith, All-lower n m xs h a)

  leb-le : (n m : ℕ) → leb n m ≡ true → n ≤ m
  leb-le n m h = ground arith

  leb-ge : (n m : ℕ) → leb n m ≡ false → m ≤ n
  leb-ge n m h = ground arith

  insert-IsOrdered :
      (name : String) (names : List String) → IsOrdered names → IsOrdered (insert order name names)
  unfolding sorted
  insert-IsOrdered name [] h = (tt, tt)
  insert-IsOrdered name (other ∷ rest) (a, h) =
      elim (Bool-cases (leb (rank order name) (rank order other))) [
        | inl before ↦
            let le = leb-le _ _ before in rw before ((le, All-lower _ _ rest le a), (a, h))
        | inr after ↦
            rw after (All-insert _ name rest (leb-ge _ _ after) a, insert-IsOrdered name rest h)
      ]

  sorted-IsOrdered : (names : List String) → IsOrdered (sorted order names)
  unfolding sorted
  sorted-IsOrdered [] = tt
  sorted-IsOrdered (name ∷ names) = insert-IsOrdered name _ (sorted-IsOrdered names)

-- The iteration of a set visits its elements.
pub record IsIteration (iterate : List String → List String) : Type 0 where
  pub visits : (names : List String) (x : String) → contains x (iterate names) ≡ contains x names

module _ (iterate : List String → List String) (config : TargetsConfig) where
  -- The sequence of a target without `include`, where every dependency of a target is a target, is
  -- found for any order in which the set is iterated: it holds exactly the target, its
  -- dependencies, their dependencies, and so on, in the order of `dependency_order`.
  pub sequence_lem :
      (depth : ℕ) (selected : Option String) (start : String) (spec : TargetSpec)
      → IsIteration iterate
      → IsWired config
      → spec_of config start ≡ ok spec
      → spec.include ≡ []
      → (names : List String) × (target_sequence iterate config (suc depth) selected start
          ≡ ok names)
        × ((x : String) → (contains x names ≡ true) ↔ Reaches config start x)
        × IsOrdered config.dependency_order names
  unfolding target_sequence
  sequence_lem depth selected start spec it wired found plain =
      let (closure, h, members) = closure_lem config start spec wired found in
      let names = sorted config.dependency_order (iterate closure) in
      let same = λ (x : String).
        contains-sorted config.dependency_order x (iterate closure) ∙ it.visits closure x in
      (
        names,
        rw (found, plain, h) refl,
        λ x. (λ m. (members x).0 (rw same at m), λ r. same x ∙ (members x).1 r),
        sorted-IsOrdered config.dependency_order (iterate closure),
      )
