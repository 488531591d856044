-- ===== src/Platform.antt =====
-- What the registries take from Python's standard library and do not implement themselves.
use kor_travel_docker_manage.Common.{ℕ, String, Bool, true, ◌≡◌, is_hex_word}
use kor_travel_docker_manage.Json.{Json}

-- `is_decimal` is the class `\d` of `re`, which holds every Unicode decimal digit. `sha256` is
-- `hashlib.sha256(json.dumps(document, sort_keys=True, ...)).hexdigest()`, and `encoded_size` the
-- number of bytes of a document that `atomic_write_json` or `_exclusive_write_json` writes. `lower` is `str.lower`.
pub record Platform : Type 0 where
  pub is_decimal : ℕ → Bool
  pub sha256 : Json → String
  pub encoded_size : Json → ℕ
  pub lower : String → String

-- A hexadecimal digest of SHA-256 has 64 lower-case digits.
abbrev pub IsHexDigest : Platform → Type 0
IsHexDigest py = (document : Json) → is_hex_word 64 (py.sha256 document) ≡ true
