-- ===== src/Json.antt =====
-- JSON documents as `json.loads` returns them: the values that the registries' strict parsers take.
pub mod Equality
use kor_travel_docker_manage.Common.{
  ℕ, String, Bool, true, false, ◌||◌, List, [], ◌∷◌, ◌≡◌, refl, ap, ◌==◌, if◌then◌else◌,
}

-- An `int`; `negsuc n` is -(n + 1).
pub data ℤ : Type 0 where
  pos : ℕ → ℤ
  negsuc : ℕ → ℤ

-- `real` is a `float`, which the program never computes with.
mutual
  pub data Json : Type 0 where
    null : Json
    bool : Bool → Json
    int : ℤ → Json
    real : String → Json
    str : String → Json
    arr : Items → Json
    obj : Fields → Json

  pub data Items : Type 0 where
    nil : Items
    cons : Json → Items → Items

  pub data Fields : Type 0 where
    end : Fields
    field : String → Json → Fields → Fields

abbrev pub list_of : Items → List Json
list_of nil = []
list_of (cons x xs) = x ∷ list_of xs

abbrev pub items : List Json → Items
items [] = nil
items (x ∷ xs) = cons x (items xs)

pub list_of-items : (xs : List Json) → list_of (items xs) ≡ xs
list_of-items [] = refl
list_of-items (x ∷ xs) = ap (λ ys. x ∷ ys) (list_of-items xs)

-- payload.get(key)
unfoldable pub get : String → Fields → Json
get k end = null
get k (field j v fs) = if j == k then v else get k fs

-- `payload.get(key, default)`, and `payload[key]` where the key is known to be there
unfoldable pub get_or : String → Json → Fields → Json
get_or k d end = d
get_or k d (field j v fs) = if j == k then v else get_or k d fs

unfoldable pub contains : String → List String → Bool
contains k [] = false
contains k (j ∷ js) = j == k || contains k js

-- `set(payload) - known` is empty
unfoldable pub only : List String → Fields → Bool
unfolding contains
only known end = true
only known (field k v fs) = if contains k known then only known fs else false

unfoldable pub has : String → Fields → Bool
has k end = false
has k (field j v fs) = j == k || has k fs

-- payload.pop(key, None)
unfoldable pub remove : String → Fields → Fields
remove k end = end
remove k (field j v fs) = let rest = remove k fs in if j == k then rest else field j v rest
