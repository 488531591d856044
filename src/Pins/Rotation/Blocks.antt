-- ===== src/Pins/Rotation/Blocks.antt =====
-- The block list of a registry only grows: what was blocked stays blocked.
use kor_travel_docker_manage.Common.{
  String, Bool, true, ◌&&◌, List, [], ◌∷◌, ◌++◌, ◌≡◌, ◌∙◌, ◌==◌, arith, any, any-append,
}
use kor_travel_docker_manage.Pins.Entries.{BlockedPinset}
use kor_travel_docker_manage.Pins.Registry.{
  RuntimePinRegistry, is_blocked_pinset, is_none, is_unconditionally_blocked_pinset,
}
use kor_travel_docker_manage.Pins.Registry.Laws.{
  is_blocked_pinset-eq, is_unconditionally_blocked_pinset-eq,
}

-- Every test that some entry of `l` passes, some entry of `bigger` passes.
abbrev pub Extends : List BlockedPinset → List BlockedPinset → Type 0
Extends l bigger = (test : BlockedPinset → Bool) → any test l ≡ true → any test bigger ≡ true

pub Extends-append : (l : List BlockedPinset) (e : BlockedPinset) → Extends l (l ++ e ∷ [])
Extends-append l e test h = any-append test l (e ∷ []) ∙ ground arith

-- Whatever was blocked stays blocked, and so does what was blocked without condition.
pub record KeepsBlocks (current next : RuntimePinRegistry) : Type 0 where
  pub blocked : (p : String) → is_blocked_pinset current p ≡ true → is_blocked_pinset next p ≡ true
  pub final :
      (p : String)
      → is_unconditionally_blocked_pinset current p ≡ true
      → is_unconditionally_blocked_pinset next p ≡ true

pub KeepsBlocks-of_Extends :
    (current next : RuntimePinRegistry)
    → Extends current.blocked_pinsets next.blocked_pinsets
    → KeepsBlocks current next
KeepsBlocks-of_Extends current next more = record {
  blocked = λ p h. ground (
    arith,
    is_blocked_pinset-eq current p,
    is_blocked_pinset-eq next p,
    more (λ e. e.pinset_sha256 == p),
  );
  final = λ p h. ground (
    arith,
    is_unconditionally_blocked_pinset-eq current p,
    is_unconditionally_blocked_pinset-eq next p,
    more (λ e. e.pinset_sha256 == p && is_none e.phase),
  );
}

any-weaken :
    (p : String) (l : List BlockedPinset)
    → any (λ e. e.pinset_sha256 == p && is_none e.phase) l ≡ true
    → any (λ e. e.pinset_sha256 == p) l ≡ true
any-weaken p [] h = cc
any-weaken p (e ∷ l) h = ground (arith, any-weaken p l)

-- What is blocked without condition is blocked.
pub final-blocked :
    (r : RuntimePinRegistry) (p : String)
    → is_unconditionally_blocked_pinset r p ≡ true
    → is_blocked_pinset r p ≡ true
final-blocked r p h = ground (
  arith,
  is_blocked_pinset-eq r p,
  is_unconditionally_blocked_pinset-eq r p,
  any-weaken p r.blocked_pinsets,
)
