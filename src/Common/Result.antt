-- ===== src/Common/Result.antt =====
-- A function that may raise returns a `Result`, with the exceptions of its module as `E`.
use mathlib.Core.Path.{◌≡◌, refl, subst}
use mathlib.Core.Logic.{◌⊎◌, inl, inr}
use mathlib.Core.Bool.{Bool, true, false}
use mathlib.Core.List.{List, [], ◌∷◌, map}
use kor_travel_docker_manage.Common.Lists.{All}
use kor_travel_docker_manage.Common.Tests.{if◌then◌else◌}

pub data Result {ℓ} (E A : Type ℓ) : Type ℓ where
  ok : A → Result E A
  err : E → Result E A

-- `if not test: raise e`
abbrev pub guard : {E : Type 0} (test : Bool) (e : E) → Result E Unit
guard test e = if test then ok tt else err e

module _ {ℓ} {E A B : Type ℓ} where
  infixl 5 ◌>>=◌
  abbrev pub ◌>>=◌ : (m : Result E A) (f : A → Result E B) → Result E B
  m >>= f = elim m [ ok value ↦ f value | err raised ↦ err raised ]

infixl 5 ◌>>◌
abbrev pub ◌>>◌ {ℓ} : {E A B : Type ℓ} (first : Result E A) (second : Result E B) → Result E B
first >> second = first >>= λ value. second

-- `tuple(f(x) for x in xs)`, where `f` may raise
abbrev pub traverse : {E A B : Type 0} → (A → Result E B) → List A → Result E (List B)
traverse f [] = ok []
traverse f (x ∷ xs) = do y ← f x; ys ← traverse f xs; ok (y ∷ ys)

-- What holds of the value, where the action returns one.
pub record OnOk {ℓ} {E A : Type ℓ} (P : A → Type ℓ) (m : Result E A) : Type ℓ where
  pub at : (a : A) → m ≡ ok a → P a

ok_injective {ℓ} : {E A : Type ℓ} (a b : A) → ◌≡◌ {A = Result E A} (ok a) (ok b) → a ≡ b
ok_injective a b e = cc

pub OnOk-ok {ℓ} : {E A : Type ℓ} {P : A → Type ℓ} (a : A) → P a → OnOk {E = E} P (ok a)
OnOk-ok {P} a h = record { at = λ b e. subst P (ok_injective a b e) h }

pub OnOk-err {ℓ} : {E A : Type ℓ} {P : A → Type ℓ} (e : E) → OnOk P (err e)
OnOk-err e = record { at = λ a h. cc }

pub OnOk-bind {ℓ} :
    {E A B : Type ℓ} {P : B → Type ℓ} (m : Result E A) (f : A → Result E B)
    → ((a : A) → m ≡ ok a → OnOk P (f a))
    → OnOk P (m >>= f)
OnOk-bind (ok a) f h = h a refl
OnOk-bind (err e) f h = OnOk-err e

pub OnOk-guard :
    {E B : Type 0} {P : B → Type 0} (test : Bool) (e : E) (k : Result E B)
    → (test ≡ true → OnOk P k)
    → OnOk P (guard test e >> k)
OnOk-guard true e k h = h refl
OnOk-guard false e k h = OnOk-err e

pub OnOk-if :
    {E A : Type 0} {P : A → Type 0} (test : Bool) (x y : Result E A)
    → (test ≡ true → OnOk P x)
    → (test ≡ false → OnOk P y)
    → OnOk P (if test then x else y)
OnOk-if true x y h k = h refl
OnOk-if false x y h k = k refl

pub traverse_roundtrip :
    {E A V : Type 0} (parse : V → Result E A) (print : A → V) (P : A → Type 0)
    → ((a : A) → P a → parse (print a) ≡ ok a)
    → (xs : List A) → All P xs
    → traverse parse (map print xs) ≡ ok xs
traverse_roundtrip parse print P back [] h = refl
traverse_roundtrip parse print P back (x ∷ xs) h =
    rw (back x h.0, traverse_roundtrip parse print P back xs h.1)

pub traverse-All :
    {E A V : Type 0} (parse : V → Result E A) (P : A → Type 0)
    → ((v : V) → OnOk P (parse v))
    → (vs : List V) → OnOk (All P) (traverse parse vs)
traverse-All parse P checks [] = OnOk-ok [] tt
traverse-All parse P checks (v ∷ vs) = OnOk-bind (parse v) _ λ a ha.
    OnOk-bind (traverse parse vs) _
      λ bs hbs. OnOk-ok (a ∷ bs) ((checks v).at a ha, (traverse-All parse P checks vs).at bs hbs)

pub Result-cases :
    {E A : Type 0} (r : Result E A) → ((a : A) × (r ≡ ok a)) ⊎ ((e : E) × (r ≡ err e))
Result-cases (ok a) = inl (a, refl)
Result-cases (err e) = inr (e, refl)
