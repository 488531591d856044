-- ===== src/Common/Trim.antt =====
-- `strip` removes nothing from a text that it has stripped.
use Prim.Native.Char.{code}
use Prim.Native.String.{String}
use mathlib.Core.Path.{◌≡◌, refl, ◌∙◌, ap}
use mathlib.Core.Bool.{◌&&◌}
use mathlib.Core.Logic.{inl, inr}
use kor_travel_docker_manage.Common.Tests.{Bool-cases}
use kor_travel_docker_manage.Common.Text.{is_space, is_empty, lstrip, rstrip, strip}

rstrip_again : (s : String) → rstrip (rstrip s) ≡ rstrip s
unfolding rstrip
rstrip_again String.[] = refl
rstrip_again (String.◌∷◌ c s) = elim (Bool-cases (is_space (code c) && is_empty (rstrip s))) [
  | inl blank ↦ rw blank refl
  | inr kept ↦ rw (kept, rstrip, rstrip_again s, kept) refl
]

-- What is left begins with no space.
lstrip-rstrip : (s : String) → lstrip (rstrip (lstrip s)) ≡ rstrip (lstrip s)
unfolding lstrip rstrip
lstrip-rstrip String.[] = refl
lstrip-rstrip (String.◌∷◌ c s) = elim (Bool-cases (is_space (code c))) [
  | inl space ↦ rw space (lstrip-rstrip s)
  | inr other ↦ rw (other, rstrip, other, lstrip, other) refl
]

pub strip-strip : (s : String) → strip (strip s) ≡ strip s
unfolding strip
strip-strip s = ap rstrip (lstrip-rstrip s) ∙ rstrip_again (lstrip s)
