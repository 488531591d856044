-- ===== src/Checks.antt =====
-- The field checks of services/runtime_pin_registry.py (`_require_*`) and of
-- services/runtime_execution_registry.py (`_text`, `_revision`, `_digest`, `_timestamp`). They take
-- any JSON value, as the dataclasses' `__post_init__` methods do.
use Prim.Native.Char.{code}
use kor_travel_docker_manage.Common.{
  ℕ, String, Bool, true, false, ◌&&◌, ◌||◌, ◌≡◌, Option, none, some, ltb, eqb, is_empty, len, strip,
  has_break, is_hex_word, if◌then◌else◌, arith, ◌≤◌,
}
use kor_travel_docker_manage.Common.Result.{Result, ok, err}
use kor_travel_docker_manage.Errors.{
  Error, not_text, text_is_empty, text_too_long, not_single_line, text_invalid, not_revision,
  not_digest, not_timestamp,
}
use kor_travel_docker_manage.Json.{Json, str}
use kor_travel_docker_manage.Platform.{Platform}

-- A `str` field keeps the value that it was given: the checks below only look at it.
abbrev pub text_value : Json → String
text_value (str s) = s
text_value _ = ""

-- _require_text: the stripped text
unfoldable pub require_text : Json → String → ℕ → Result Error String
require_text (str value) name max_length =
    let text = strip value in
    if is_empty text
    then err (text_is_empty name)
    else if ltb max_length (len text)
    then err (text_too_long name)
    else if has_break text
    then err (not_single_line name)
    else ok text
require_text _ name max_length = err (not_text name)

-- runtime_execution_registry._text
unfoldable pub text : Json → String → ℕ → Result Error String
text (str value) name max_length =
    let stripped = strip value in
    if is_empty stripped || ltb max_length (len stripped) || has_break stripped
    then err (text_invalid name)
    else ok stripped
text _ name max_length = err (not_text name)

unfoldable pub require_revision : Json → String → Result Error String
require_revision (str value) name =
    if is_hex_word 40 value then ok value else err (not_revision name)
require_revision _ name = err (not_revision name)

unfoldable pub require_digest : Json → String → Result Error String
require_digest (str value) name = if is_hex_word 64 value then ok value else err (not_digest name)
require_digest _ name = err (not_digest name)

module _ (py : Platform) where
  -- The text after a prefix of the shape `t`, in which `d` stands for `\d`.
  after_shape : String → String → Option String
  after_shape String.[] s = some s
  after_shape (String.◌∷◌ t ts) String.[] = none
  after_shape (String.◌∷◌ t ts) (String.◌∷◌ c s) =
      let rest = after_shape ts s in
      if (if eqb (code t) b'd' then py.is_decimal (code c) else eqb (code c) (code t))
      then rest
      else none

  -- `\d*Z`
  digits_then_z : String → Bool
  digits_then_z String.[] = false
  digits_then_z (String.◌∷◌ c s) =
      let rest = digits_then_z s in
      if py.is_decimal (code c) then rest else eqb (code c) b'Z' && is_empty s

  -- `(?:\.\d+)?Z`
  zone : String → Bool
  zone String.[] = false
  zone (String.◌∷◌ c String.[]) = eqb (code c) b'Z'
  zone (String.◌∷◌ c (String.◌∷◌ d s)) =
      eqb (code c) b'.' && py.is_decimal (code d) && digits_then_z s

  -- _TIMESTAMP of runtime_pin_registry.py
  unfoldable pub is_timestamp : String → Bool
  unfolding after_shape digits_then_z zone
  is_timestamp s = elim (after_shape "dddd-dd-ddTdd:dd:dd" s) [ none ↦ false | some r ↦ zone r ]

  -- _TIMESTAMP of runtime_execution_registry.py, which has no fraction
  unfoldable pub is_whole_timestamp : String → Bool
  unfolding after_shape
  is_whole_timestamp s = elim (after_shape "dddd-dd-ddTdd:dd:ddZ" s) [
    | none ↦ false
    | some r ↦ is_empty r
  ]

  unfoldable pub require_timestamp : Json → String → Result Error String
  require_timestamp (str value) name =
      if is_timestamp value then ok value else err (not_timestamp name)
  require_timestamp _ name = err (not_timestamp name)

  -- runtime_execution_registry._timestamp
  unfoldable pub timestamp : Json → String → Result Error String
  timestamp (str value) name =
      if is_whole_timestamp value then ok value else err (not_timestamp name)
  timestamp _ name = err (not_timestamp name)

-- What a text field of at most `n` characters has passed.
pub record IsText (n : ℕ) (s : String) : Type 0 where
  pub not_empty : is_empty (strip s) ≡ false
  pub fits : len (strip s) ≤ n
  pub one_line : has_break (strip s) ≡ false

pub require_text-IsText :
    (v : Json) (name : String) (n : ℕ) {t : String}
    → require_text v name n ≡ ok t
    → IsText n (text_value v) × (v ≡ str (text_value v)) × (t ≡ strip (text_value v))
unfolding require_text
require_text-IsText v name n h = ground arith

pub require_text-eq-ok :
    (s name : String) (n : ℕ) → IsText n s → require_text (str s) name n ≡ ok (strip s)
unfolding require_text
require_text-eq-ok s name n h = ground arith

pub text-IsText :
    (v : Json) (name : String) (n : ℕ) {t : String}
    → text v name n ≡ ok t
    → IsText n (text_value v) × (v ≡ str (text_value v)) × (t ≡ strip (text_value v))
unfolding text
text-IsText v name n h = ground arith

pub text-eq-ok : (s name : String) (n : ℕ) → IsText n s → text (str s) name n ≡ ok (strip s)
unfolding text
text-eq-ok s name n h = ground arith

pub require_revision-eq :
    (v : Json) (name : String) {t : String}
    → require_revision v name ≡ ok t
    → (v ≡ str t) × (is_hex_word 40 t ≡ true)
unfolding require_revision
require_revision-eq v name h = ground arith

pub require_digest-eq :
    (v : Json) (name : String) {t : String}
    → require_digest v name ≡ ok t
    → (v ≡ str t) × (is_hex_word 64 t ≡ true)
unfolding require_digest
require_digest-eq v name h = ground arith

module _ (py : Platform) where
  pub require_timestamp-eq :
      (v : Json) (name : String) {t : String}
      → require_timestamp py v name ≡ ok t
      → (v ≡ str t) × (is_timestamp py t ≡ true)
  unfolding require_timestamp
  require_timestamp-eq v name h = ground arith

  pub timestamp-eq :
      (v : Json) (name : String) {t : String}
      → timestamp py v name ≡ ok t
      → (v ≡ str t) × (is_whole_timestamp py t ≡ true)
  unfolding timestamp
  timestamp-eq v name h = ground arith
