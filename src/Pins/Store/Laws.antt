-- ===== src/Pins/Store/Laws.antt =====
-- Files that this program has written read back, and what a successful write leaves on the disk.
use kor_travel_docker_manage.Common.{
  ℕ, ◌+◌, ◌≤◌, String, true, false, Option, none, some, ◌≡◌, ◌≢◌, refl, eq_iff, arith, le→not_ltb,
}
use kor_travel_docker_manage.Common.Result.{ok}
use kor_travel_docker_manage.Json.{Json, Fields, obj}
use kor_travel_docker_manage.Platform.{Platform}
use kor_travel_docker_manage.Pins.Registry.{RuntimePinRegistry}
use kor_travel_docker_manage.Pins.Registry.Laws.{IsRegistry}
use kor_travel_docker_manage.Pins.Document.{to_payload}
use kor_travel_docker_manage.Pins.Document.RoundTrip.{document_roundtrip}
use kor_travel_docker_manage.Pins.Files.{
  File, Host, Store, max_registry_bytes, assert_integrity, read_document, parse_file, load, written,
  assert_writable_target,
}
use kor_travel_docker_manage.Pins.Store.{write, update, published_payload}

-- A host on which the guards pass and the writes succeed.
pub record IsReady (host : Host) : Type 0 where
  pub is_local : host.local_pair ≡ true
  pub outside : host.in_install_root ≡ false
  pub no_seed : host.is_seed ≡ false
  pub preserves : host.can_preserve ≡ true
  pub writes : host.can_write ≡ true
  pub publishes : host.can_publish ≡ true

module _ (py : Platform) (host : Host) where
  pub assert_integrity-written :
      (stamp : ℕ) (v : Json) → assert_integrity host (some (written py host stamp v)) ≡ ok tt
  unfolding assert_integrity written
  assert_integrity-written stamp v = ground arith

  pub read_document-written :
      (stamp : ℕ) (fs : Fields)
      → py.encoded_size (obj fs) ≤ max_registry_bytes
      → read_document host (some (written py host stamp (obj fs))) ≡ ok (obj fs)
  unfolding read_document
  read_document-written stamp fs fits =
      rw (assert_integrity-written stamp (obj fs))
        (unfold written in rw (le→not_ltb max_registry_bytes (py.encoded_size (obj fs)) fits))

  -- A registry that was written is read back.
  pub parse_file-written :
      (stamp : ℕ) (r : RuntimePinRegistry)
      → IsRegistry py r
      → py.encoded_size (to_payload r) ≤ max_registry_bytes
      → parse_file py host (some (written py host stamp (to_payload r))) ≡ ok r
  unfolding parse_file to_payload
  parse_file-written stamp r v fits =
      rw (read_document-written stamp _ fits) (document_roundtrip py r v)

  -- A load with no cached value reads the file.
  pub load-fresh :
      (f : File) (preserved : String → Option File) (public : Option File) (next : ℕ)
      (r : RuntimePinRegistry)
      → f.accessible ≡ true
      → parse_file py host (some f) ≡ ok r
      → load py host (record {
        registry = some f;
        preserved = preserved;
        public = public;
        cache = none;
        next_stamp = next;
      })
        ≡ (
          ok r,
          record {
            registry = some f;
            preserved = preserved;
            public = public;
            cache = some (f.stamp, r);
            next_stamp = next;
          },
        )
  unfolding load
  load-fresh f preserved public next r readable parsed = rw (parsed, readable)

  -- A load leaves the files alone, and after a load that succeeds the next one gives the same.
  pub load-registry : (s : Store) → (load py host s).1.registry ≡ s.registry
  unfolding load
  load-registry s = ground arith

  parse_file-integrity :
      (file : Option File) (r : RuntimePinRegistry)
      → parse_file py host file ≡ ok r
      → assert_integrity host file ≡ ok tt
  unfolding parse_file read_document
  parse_file-integrity file r h = ground arith

  -- What a successful load has found out and left behind.
  pub record Loaded (s : Store) (r : RuntimePinRegistry) (s' : Store) : Type 0 where
    pub file : File
    pub is_there : s.registry ≡ some file
    pub readable : file.accessible ≡ true
    pub safe : assert_integrity host (some file) ≡ ok tt
    pub after : s' ≡ record s { cache = some (file.stamp, r) }

  Loaded-from_file :
      (file : Option File) (cache : Option (ℕ × RuntimePinRegistry)) (s s' : Store)
      (r : RuntimePinRegistry)
      → s.registry ≡ file
      → s.cache ≡ cache
      → load py host s ≡ (ok r, s')
      → Loaded s r s'
  unfolding load
  Loaded-from_file none cache s s' r there cached h = ground arith
  Loaded-from_file (some f) none s s' r there cached h = record {
    file = f;
    is_there = there;
    readable = ground arith;
    safe = ground (arith, parse_file-integrity (some f) r);
    after = ground arith;
  }
  Loaded-from_file (some f) (some (stamp, c)) s s' r there cached h = record {
    file = f;
    is_there = there;
    readable = ground arith;
    safe = ground (arith, parse_file-integrity (some f) r);
    after = ground arith;
  }

  pub load-Loaded :
      (s s' : Store) (r : RuntimePinRegistry) → load py host s ≡ (ok r, s') → Loaded s r s'
  load-Loaded s s' r h = Loaded-from_file s.registry s.cache s s' r refl refl h

  cached_again :
      (f : File) (s : Store) (r : RuntimePinRegistry)
      → s.registry ≡ some f
      → f.accessible ≡ true
      → assert_integrity host (some f) ≡ ok tt
      → load py host (record s { cache = some (f.stamp, r) })
        ≡ (ok r, record s { cache = some (f.stamp, r) })
  unfolding load
  cached_again f s r there readable safe = ground arith

  -- After a load that succeeds, the next load gives the same registry and leaves the store as it is.
  pub load_again :
      (s s' : Store) (r : RuntimePinRegistry)
      → load py host s ≡ (ok r, s')
      → load py host s' ≡ (ok r, s')
  load_again s s' r h =
      let l = load-Loaded s s' r h in
      rw l.after (cached_again l.file s r l.is_there l.readable l.safe)

  -- The store after a successful write that keeps the previous registry and publishes the new one.
  unfoldable pub stored : RuntimePinRegistry → RuntimePinRegistry → String → Store → Store
  stored previous r now s = record {
    registry = some (written py host (s.next_stamp + 1) (to_payload r));
    preserved =
        update s.preserved previous.pinset_sha256
          (written py host s.next_stamp (to_payload previous));
    public = some (written py host (s.next_stamp + 1 + 1) (published_payload r now));
    cache = none;
    next_stamp = s.next_stamp + 1 + 1 + 1;
  }

  pub assert_writable_target-ok :
      (f : File)
      → IsReady host
      → assert_integrity host (some f) ≡ ok tt
      → assert_writable_target host (some f) ≡ ok tt
  unfolding assert_writable_target
  assert_writable_target-ok f ready safe = ground arith

  -- A write over a readable registry with another digest succeeds on a host that is ready.
  pub write-eq-ok :
      (now : String) (r previous : RuntimePinRegistry) (f : File) (s s' : Store)
      → IsReady host
      → s.registry ≡ some f
      → assert_integrity host (some f) ≡ ok tt
      → load py host s ≡ (ok previous, s')
      → previous.pinset_sha256 ≢ r.pinset_sha256
      → write py host now r true true s ≡ (ok tt, stored previous r now s')
  unfolding write stored
  write-eq-ok now r previous f s s' ready file safe loaded differs =
      ground (
        arith,
        eq_iff previous.pinset_sha256 r.pinset_sha256,
        assert_writable_target-ok f ready safe,
      )

  -- The next load after such a write gives the new registry.
  pub load-stored :
      (now : String) (r previous : RuntimePinRegistry) (s : Store)
      → IsRegistry py r
      → py.encoded_size (to_payload r) ≤ max_registry_bytes
      → load py host (stored previous r now s)
        ≡ (ok r, record (stored previous r now s) { cache = some (s.next_stamp + 1, r) })
  unfolding stored written
  load-stored now r previous s v fits =
      load-fresh (written py host (s.next_stamp + 1) (to_payload r)) _ _ _ r refl
        (parse_file-written (s.next_stamp + 1) r v fits)
