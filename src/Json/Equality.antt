-- ===== src/Json/Equality.antt =====
-- `==` of two documents, as the verification uses it: on payloads of one shape, which hold texts,
-- lists and objects with their fields in one order, and no numbers.
use kor_travel_docker_manage.Common.{Bool, true, false, ◌&&◌, ◌==◌, ◌≡◌, refl, eq_refl, eqb, arith}
use kor_travel_docker_manage.Json.{
  ℤ, Json, Items, Fields, null, bool, int, real, str, arr, obj, nil, cons, end, field,
}

same_bool : Bool → Bool → Bool
same_bool true b = b
same_bool false true = false
same_bool false false = true

same_int : ℤ → ℤ → Bool
same_int (ℤ.pos n) (ℤ.pos m) = eqb n m
same_int (ℤ.negsuc n) (ℤ.negsuc m) = eqb n m
same_int _ _ = false

unfoldable mutual
  unfolding same_bool same_int

  pub same_json : Json → Json → Bool
  same_json null null = true
  same_json (bool a) (bool b) = same_bool a b
  same_json (int a) (int b) = same_int a b
  same_json (real a) (real b) = a == b
  same_json (str a) (str b) = a == b
  same_json (arr xs) (arr ys) = same_items xs ys
  same_json (obj fs) (obj gs) = same_fields fs gs
  same_json _ _ = false

  pub same_items : Items → Items → Bool
  same_items nil nil = true
  same_items (cons x xs) (cons y ys) = same_json x y && same_items xs ys
  same_items _ _ = false

  pub same_fields : Fields → Fields → Bool
  same_fields end end = true
  same_fields (field j v fs) (field k w gs) = j == k && same_json v w && same_fields fs gs
  same_fields _ _ = false

same_bool_refl : (b : Bool) → same_bool b b ≡ true
unfolding same_bool
same_bool_refl true = refl
same_bool_refl false = refl

same_int_refl : (n : ℤ) → same_int n n ≡ true
unfolding same_int
same_int_refl (ℤ.pos n) = ground arith
same_int_refl (ℤ.negsuc n) = ground arith

mutual
  unfolding same_json

  -- A document is equal to itself.
  pub same_json_refl : (v : Json) → same_json v v ≡ true
  same_json_refl null = refl
  same_json_refl (bool b) = same_bool_refl b
  same_json_refl (int n) = same_int_refl n
  same_json_refl (real s) = eq_refl s
  same_json_refl (str s) = eq_refl s
  same_json_refl (arr xs) = same_items_refl xs
  same_json_refl (obj fs) = same_fields_refl fs

  same_items_refl : (xs : Items) → same_items xs xs ≡ true
  same_items_refl nil = refl
  same_items_refl (cons x xs) = rw (same_json_refl x, same_items_refl xs) refl

  same_fields_refl : (fs : Fields) → same_fields fs fs ≡ true
  same_fields_refl end = refl
  same_fields_refl (field k v fs) = rw (eq_refl k, same_json_refl v, same_fields_refl fs) refl
