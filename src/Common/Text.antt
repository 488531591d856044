-- ===== src/Common/Text.antt =====
-- Python's text operations that the program uses, over the code points of a `str`.
use Prim.Native.Nat.{ℕ, zero, suc}
use Prim.Native.Char.{code}
use Prim.Native.String.{String}
use mathlib.Core.Bool.{Bool, true, false, ◌&&◌, ◌||◌}
use mathlib.Core.List.{List, [], ◌∷◌}
use kor_travel_docker_manage.Common.Tests.{leb, eqb, if◌then◌else◌}

-- len(text)
unfoldable pub len : String → ℕ
len String.[] = 0
len (String.◌∷◌ c s) = suc (len s)

unfoldable pub is_empty : String → Bool
is_empty String.[] = true
is_empty (String.◌∷◌ c s) = false

between : ℕ → ℕ → ℕ → Bool
between lo hi c = leb lo c && leb c hi

-- The code points that `str.isspace` accepts, which `str.strip()` removes.
unfoldable pub is_space : ℕ → Bool
unfolding between
is_space c =
    between 9 13 c
    || between 28 32 c
    || eqb c 133
    || eqb c 160
    || eqb c 5760
    || between 8192 8202 c
    || eqb c 8232
    || eqb c 8233
    || eqb c 8239
    || eqb c 8287
    || eqb c 12288

unfoldable pub lstrip : String → String
unfolding is_space
lstrip String.[] = String.[]
lstrip (String.◌∷◌ c s) = let rest = lstrip s in if is_space (code c) then rest else String.◌∷◌ c s

unfoldable pub rstrip : String → String
unfolding is_space is_empty
rstrip String.[] = String.[]
rstrip (String.◌∷◌ c s) =
    let rest = rstrip s in
    if is_space (code c) && is_empty rest then String.[] else String.◌∷◌ c rest

-- text.strip()
unfoldable pub strip : String → String
unfolding lstrip rstrip
strip s = rstrip (lstrip s)

-- any(character in text for character in ("\n", "\r", "\x00"))
unfoldable pub has_break : String → Bool
has_break String.[] = false
has_break (String.◌∷◌ c s) = eqb (code c) 10 || eqb (code c) 13 || eqb (code c) 0 || has_break s

-- [0-9a-f]
unfoldable pub is_hex : ℕ → Bool
unfolding between
is_hex c = between b'0' b'9' c || between b'a' b'f' c

-- `[0-9a-f]{n}` against the whole text
unfoldable pub is_hex_word : ℕ → String → Bool
unfolding is_hex
is_hex_word zero String.[] = true
is_hex_word zero (String.◌∷◌ c s) = false
is_hex_word (suc n) String.[] = false
is_hex_word (suc n) (String.◌∷◌ c s) = is_hex (code c) && is_hex_word n s

-- `text[:n]`
unfoldable pub first_chars : ℕ → String → String
first_chars zero s = String.[]
first_chars (suc n) String.[] = String.[]
first_chars (suc n) (String.◌∷◌ c s) = String.◌∷◌ c (first_chars n s)

-- `chr(n) in text`
unfoldable pub has_char : ℕ → String → Bool
has_char n String.[] = false
has_char n (String.◌∷◌ c s) = eqb (code c) n || has_char n s

-- The text starts with `chr(n)`.
unfoldable pub starts_with : ℕ → String → Bool
starts_with n String.[] = false
starts_with n (String.◌∷◌ c s) = eqb (code c) n

-- `text.endswith(chr(n))`
unfoldable pub ends_with : ℕ → String → Bool
unfolding is_empty
ends_with n String.[] = false
ends_with n (String.◌∷◌ c s) =
    let rest = ends_with n s in if is_empty s then eqb (code c) n else rest

-- The text without its first character.
unfoldable pub tail : String → String
tail String.[] = String.[]
tail (String.◌∷◌ c s) = s

-- `text.split(chr(n))`: the first part, and the others
unfoldable pub split_on : ℕ → String → String × List String
split_on n String.[] = (String.[], [])
split_on n (String.◌∷◌ c s) =
    let (first, rest) = split_on n s in
    if eqb (code c) n then (String.[], first ∷ rest) else (String.◌∷◌ c first, rest)

abbrev pub append : String → String → String
append String.[] t = t
append (String.◌∷◌ c s) t = String.◌∷◌ c (append s t)
