-- ===== src/Auth/Paths.antt =====
-- The texts that a request brings: the path to go on to after a login, and the address of the client.
use Prim.Native.Char.{Char, code}
use kor_travel_docker_manage.Common.{
  ℕ, zero, suc, ◌≤◌, eqb, String, true, false, ◌&&◌, ◌||◌, not, Option, some, List, [], ◌∷◌, ◌++◌,
  ◌≡◌, refl, ap, ◌∙◌, arith, keep, keep-append, last?, last?-append, map, strip, is_empty, len,
  first_chars, has_char, starts_with, tail, split_on, append, Bool-cases, inl, inr,
}
use kor_travel_docker_manage.Auth.{
  Request, truthy, text_or, forwarded_parts, client_ip, sanitize_local_path,
}

-- A path on the same site: one slash at the start, no backslash, and not too long.
pub record IsLocalPath (s : String) : Type 0 where
  pub slash : starts_with 47 s ≡ true
  pub one_slash : starts_with 47 (tail s) ≡ false
  pub no_backslash : has_char 92 s ≡ false
  pub fits : len s ≤ 500

first_chars-has_char :
    (n k : ℕ) (s : String) → has_char k s ≡ false → has_char k (first_chars n s) ≡ false
unfolding first_chars has_char
first_chars-has_char zero k s h = refl
first_chars-has_char (suc n) k String.[] h = refl
first_chars-has_char (suc n) k (String.◌∷◌ c s) h = ground (arith, h, first_chars-has_char n k s)

len-first_chars : (n : ℕ) (s : String) → len (first_chars n s) ≤ n
unfolding first_chars len
len-first_chars zero s = omega arith
len-first_chars (suc n) String.[] = omega arith
len-first_chars (suc n) (String.◌∷◌ c s) = omega (arith, len-first_chars n s)

starts_with-first_chars :
    (n k : ℕ) (s : String) → starts_with k (first_chars (suc n) s) ≡ starts_with k s
unfolding first_chars starts_with
starts_with-first_chars n k String.[] = refl
starts_with-first_chars n k (String.◌∷◌ c s) = refl

tail-first_chars :
    (n k : ℕ) (s : String)
    → starts_with k (tail (first_chars (suc (suc n)) s)) ≡ starts_with k (tail s)
unfolding first_chars tail
tail-first_chars n k String.[] = refl
tail-first_chars n k (String.◌∷◌ c s) = starts_with-first_chars n k s

-- Whatever path a request asks for, the sanitized one is a path on the same site, where the fallback
-- is.
pub sanitize_local_path-IsLocalPath :
    (value : Option String) (fallback : String)
    → IsLocalPath fallback
    → IsLocalPath (sanitize_local_path value fallback)
unfolding sanitize_local_path
sanitize_local_path-IsLocalPath value fallback v = elim (Bool-cases (truthy value)) [
  | inr missing ↦ rw missing v
  | inl given ↦
      elim (Bool-cases (
        not (starts_with 47 (text_or value))
        || ((starts_with 47 (text_or value) && starts_with 47 (tail (text_or value)))
            || has_char 92 (text_or value)))) [
              | inl refused ↦ rw (given, refused) v
              | inr accepted ↦
                  rw (given, accepted)
                    (record {
                      slash =
                          starts_with-first_chars 499 47 (text_or value) ∙ ground (arith, accepted);
                      one_slash =
                          tail-first_chars 498 47 (text_or value) ∙ ground (arith, accepted);
                      no_backslash =
                          first_chars-has_char 500 92 (text_or value) (ground (arith, accepted));
                      fits = len-first_chars 500 (text_or value);
                    })
            ]
]

-- `text.split(",")` as one list
abbrev parts : String → List String
parts s = (split_on 44 s).0 ∷ (split_on 44 s).1

split_on-none : (t : String) → has_char 44 t ≡ false → split_on 44 t ≡ (t, [])
unfolding split_on has_char
split_on-none String.[] h = refl
split_on-none (String.◌∷◌ c t) h = ground (arith, h, split_on-none t)

-- A character joins the first part.
abbrev extend : Char → List String → List String
extend c [] = []
extend c (p ∷ ps) = String.◌∷◌ c p ∷ ps

-- What a proxy adds behind a comma is the last part, whatever stands before.
parts-append :
    (s t : String) → has_char 44 t ≡ false → parts (append s (append "," t)) ≡ parts s ++ t ∷ []
unfolding split_on
parts-append String.[] t h = rw (split_on-none t h) refl
parts-append (String.◌∷◌ c s) t h =
    let rest = parts-append s t h in
    elim (Bool-cases (eqb (code c) 44)) [
      | inl comma ↦ rw comma (ap (λ ps. String.[] ∷ ps) rest)
      | inr other ↦ rw other (ap (extend c) rest)
    ]

map-append : {A B : Type 0} (f : A → B) (xs ys : List A) → map f (xs ++ ys) ≡ map f xs ++ map f ys
map-append f [] ys = refl
map-append f (x ∷ xs) ys = ap (λ zs. f x ∷ zs) (map-append f xs ys)

not_empty : (s t : String) → is_empty (append s (append "," t)) ≡ false
unfolding is_empty
not_empty String.[] t = refl
not_empty (String.◌∷◌ c s) t = refl

last_kept :
    (xs : List String) (t : String)
    → is_empty (strip t) ≡ false
    → last? (keep (λ part. not (is_empty part)) (map strip (xs ++ t ∷ []))) ≡ some (strip t)
last_kept xs t there =
    rw
      (
        map-append strip xs (t ∷ []),
        keep-append (λ part. not (is_empty part)) (map strip xs) (strip t ∷ []),
        there,
      )
      (last?-append (keep (λ part. not (is_empty part)) (map strip xs)) (strip t))

last_part :
    (claimed seen : String)
    → has_char 44 seen ≡ false
    → is_empty (strip seen) ≡ false
    → last? (forwarded_parts (append claimed (append "," seen))) ≡ some (strip seen)
unfolding forwarded_parts
last_part claimed seen one there =
    ap (λ ps. last? (keep (λ part. not (is_empty part)) (map strip ps)))
      (parts-append claimed seen one)
    ∙ last_kept (parts claimed) seen there

-- Behind a trusted proxy, which appends the address it saw to `X-Forwarded-For`, the client's address
-- is the one that the proxy appended, whatever the client itself has written into the header.
pub client_ip_behind_proxy :
    (r : Request) (claimed seen : String)
    → r.from_trusted_proxy ≡ true
    → r.forwarded_for ≡ some (append claimed (append "," seen))
    → has_char 44 seen ≡ false
    → is_empty (strip seen) ≡ false
    → client_ip r ≡ some (first_chars 128 (strip seen))
unfolding client_ip forwarded_parts
client_ip_behind_proxy r claimed seen trusted header one there =
    rw (trusted, header, not_empty claimed seen, last_part claimed seen one there) refl
