-- ===== src/Pins/Store/Cached.antt =====
-- The cache of load_runtime_pin_registry: a load that answers from the cache answers as the file.
use kor_travel_docker_manage.Common.{
  ℕ, true, Option, none, some, ◌≡◌, refl, sym, ap, ◌∙◌, arith, eqb_iff, eqb, Bool-cases, inl, inr,
}
use kor_travel_docker_manage.Common.Result.{Result, ok, ◌>>=◌, ◌>>◌}
use kor_travel_docker_manage.Errors.{Error}
use kor_travel_docker_manage.Platform.{Platform}
use kor_travel_docker_manage.Pins.Registry.{RuntimePinRegistry}
use kor_travel_docker_manage.Pins.Document.{from_payload}
use kor_travel_docker_manage.Pins.Files.{
  File, Host, Store, assert_integrity, read_content, parse_file, read_document, load,
}

module _ (py : Platform) (host : Host) where
  abbrev pub content_of : File → Result Error RuntimePinRegistry
  content_of f = do document ← read_content (some f); from_payload py document

  -- What is remembered under the stamp of the present file is what the file holds. (The stamp is
  -- mtime, size and inode: a file system may break this, and then the cache is wrong.)
  abbrev pub IsCoherent : Store → Type 0
  IsCoherent s =
      (f : File) (stamp : ℕ) (r : RuntimePinRegistry)
      → s.registry ≡ some f
      → s.cache ≡ some (stamp, r)
      → f.stamp ≡ stamp
      → content_of f ≡ ok r

  parse_file-eq :
      (f : File) → parse_file py host (some f) ≡ (assert_integrity host (some f) >> content_of f)
  unfolding parse_file read_document
  parse_file-eq f = ground arith

  loads_as_file :
      (file : Option File) (cache : Option (ℕ × RuntimePinRegistry)) (s : Store)
      → s.registry ≡ file
      → s.cache ≡ cache
      → IsCoherent s
      → (f : File) → file ≡ some f
      → f.accessible ≡ true
      → (load py host s).0 ≡ parse_file py host (some f)
  unfolding load
  loads_as_file file none s there cached h f is_f readable = ground arith
  loads_as_file file (some (stamp, r)) s there cached h f is_f readable =
      elim (Bool-cases (eqb stamp f.stamp)) [
        | inl hit ↦
            let held = h f stamp r (there ∙ is_f) cached (sym ((eqb_iff stamp f.stamp).0 hit)) in
            ground (arith, parse_file-eq f, held)
        | inr miss ↦ ground arith
      ]

  -- For a file that can be inspected, a load with a coherent cache gives exactly what reading,
  -- checking and parsing the file gives: errors included.
  pub load-eq-parse_file :
      (s : Store) (f : File)
      → IsCoherent s
      → s.registry ≡ some f
      → f.accessible ≡ true
      → (load py host s).0 ≡ parse_file py host s.registry
  load-eq-parse_file s f h there readable =
      loads_as_file s.registry s.cache s refl refl h f there readable
      ∙ ap (parse_file py host) (sym there)
