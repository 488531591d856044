-- ===== src/Requests/Files/Laws.antt =====
-- The request's file: what a write, a cancellation and a discard do to it.
use mathlib.Core.Path.{subst}
use kor_travel_docker_manage.Common.{
  String, ◌+◌, ◌≤◌, leb, ltb, true, false, ◌||◌, some, [], ◌∷◌, ◌≡◌, refl, sym, ◌∙◌, ap, ◌==◌,
  eq_refl, eqb, arith, ◌⊎◌, inl, inr, Bool-cases, Option-cases,
}
use kor_travel_docker_manage.Common.Result.{Result, ok, err, Result-cases}
use kor_travel_docker_manage.Json.{null, obj, Fields, get, only}
use kor_travel_docker_manage.Platform.{Platform}
use kor_travel_docker_manage.Pins.Document.{is_text}
use kor_travel_docker_manage.Executions.Files.{is_loose}
use kor_travel_docker_manage.Targets.{TargetsConfig, TargetError, require_local_targets}
use kor_travel_docker_manage.Requests.{
  RequestError, RuntimePinRequest, cannot_create, write_interrupted, unlink_failed,
  request_to_payload, type_error, already_pending, still_readable, not_local, match_text,
  new_request, request_fields, request_schema, request_from_payload,
}
use kor_travel_docker_manage.Requests.RoundTrip.{IsRequest, request_roundtrip}
use kor_travel_docker_manage.Requests.Files.{
  RequestFile, Slot, absent, symlink, present, RequestHost, open_verified, parse_content,
  max_request_bytes, readable_part, read_request, new_file, exclusive_write, write_request,
  clear_request, discard_request,
}

-- The process owns the directory of the request, which nobody else may change.
pub record IsOwnDirectory (host : RequestHost) : Type 0 where
  pub reached : host.parent.reachable ≡ true
  pub tight : is_loose host.parent.mode ≡ false
  pub own : eqb host.euid host.parent.owner ≡ true

-- The document of the request is not too large to be read.
abbrev pub Fits : Platform → RuntimePinRequest → Type 0
Fits py r = py.encoded_size (request_to_payload r) ≤ max_request_bytes

-- What a write that ended with `res` has left in the slot.
pub record IsWritten (py : Platform) (host : RequestHost) (r : RuntimePinRequest)
    (before found : Slot) (res : Result RequestError Unit × Slot) : Type 0 where
  pub on_ok : res.0 ≡ ok tt → (found ≡ absent) × (res.1 ≡ present (new_file py host r))
  pub on_err :
      (e : RequestError)
      → res.0 ≡ err e
      → (res.1 ≡ before)
        ⊎ ((res.1 ≡ found)
            ⊎ ((found ≡ absent)
                × (host.can_write ≡ false)
                × (host.can_unlink ≡ false)
                × (res.1 ≡ present host.partial)))

refused-IsWritten :
    (py : Platform) (host : RequestHost) (r : RuntimePinRequest) (before found : Slot)
    (e : RequestError)
    → IsWritten py host r before found (err e, before)
refused-IsWritten py host r before found e = record {
  on_ok = λ h. ground arith;
  on_err = λ c h. inl refl;
}

stays-IsWritten :
    (py : Platform) (host : RequestHost) (r : RuntimePinRequest) (before found : Slot)
    (e : RequestError)
    → IsWritten py host r before found (err e, found)
stays-IsWritten py host r before found e = record {
  on_ok = λ h. ground arith;
  on_err = λ c h. inr (inl refl);
}

exclusive_write-IsWritten :
    (py : Platform) (host : RequestHost) (r : RuntimePinRequest) (before found : Slot)
    → IsWritten py host r before found (exclusive_write py host r found)
unfolding exclusive_write
exclusive_write-IsWritten py host r before symlink = stays-IsWritten py host r before symlink _
exclusive_write-IsWritten py host r before (present f) =
    stays-IsWritten py host r before (present f) _
exclusive_write-IsWritten py host r before absent = elim (Bool-cases host.can_create) [
  | inr failed ↦
      ended _ (ground (arith, failed)) (stays-IsWritten py host r before absent cannot_create)
  | inl made ↦ elim (Bool-cases host.can_write) [
    | inl written ↦
        ended (ok tt, present (new_file py host r)) (ground (arith, made, written))
          record { on_ok = λ h. (refl, refl); on_err = λ c h. ground arith }
    | inr cut ↦ elim (Bool-cases host.can_unlink) [
      | inl gone ↦
          ended _ (ground (arith, made, cut, gone))
            (stays-IsWritten py host r before absent write_interrupted)
      | inr left ↦
          ended (err unlink_failed, present host.partial) (ground (arith, made, cut, left))
            record { on_ok = λ h. ground arith; on_err = λ c h. inr (inr (refl, cut, left, refl)) }
    ]
  ]
]
  where
    ended :
        (res : Result RequestError Unit × Slot)
        → exclusive_write py host r absent ≡ res
        → IsWritten py host r before absent res
        → IsWritten py host r before absent (exclusive_write py host r absent)
    ended res e w = subst (λ x. IsWritten py host r before absent x) (sym e) w

-- The file holds a document of the request's schema without an identifier.
pub record LacksId (host : RequestHost) (f : RequestFile) (payload : Fields) : Type 0 where
  pub verified : open_verified host (present f) ≡ ok (some f)
  pub opened : f.can_read ≡ true
  pub small : f.is_large ≡ false
  pub content : f.content ≡ some (obj payload)
  pub known : only request_fields payload ≡ true
  pub schema : is_text request_schema (get "schema" payload) ≡ true
  pub missing : get "request_id" payload ≡ null

module _ (py : Platform) (config : TargetsConfig) (selected : String) (host : RequestHost) where
  -- Whatever other processes do between the read and the creation, a write never replaces a request:
  -- it succeeds only where the path is free at the creation, and leaves the request there then;
  -- with an error it leaves the path as it was or as the others have left it, or, where the path
  -- was free and both the write and the unlink of what it has written fail, the partial file.
  pub write_request-IsWritten :
      (meanwhile : Slot → Slot) (r : RuntimePinRequest) (slot : Slot)
      → IsWritten py host r slot
          (meanwhile slot)
          (write_request py config selected host meanwhile r slot)
  unfolding write_request
  write_request-IsWritten meanwhile r slot =
      elim (Result-cases (require_local_targets py config selected (r.role ∷ []))) [
        | inr (e, foreign) ↦
            rw (write_request, foreign) (refused-IsWritten py host r slot (meanwhile slot) _)
        | inl (u, here) ↦ elim (Result-cases (read_request py host slot)) [
          | inr (e, failed) ↦
              rw (write_request, here, failed) (refused-IsWritten py host r slot (meanwhile slot) e)
          | inl (existing, found) ↦ elim (Option-cases existing) [
            | inl free ↦
                rw (write_request, here, found, free)
                  (exclusive_write-IsWritten py host r slot (meanwhile slot))
            | inr (q, there) ↦
                rw (write_request, here, found, there)
                  (refused-IsWritten py host r slot (meanwhile slot) already_pending)
          ]
        ]
      ]

  read_request-new_file :
      (r : RuntimePinRequest)
      → IsRequest py r
      → IsOwnDirectory host
      → Fits py r
      → read_request py host (present (new_file py host r)) ≡ ok (some r)
  unfolding read_request open_verified parse_content new_file readable_part is_loose
  read_request-new_file r v d fits =
      let trusted : (eqb host.euid 0 || eqb host.euid host.parent.owner) ≡ true =
        ground (arith, d.own) in
      let small : ltb max_request_bytes (py.encoded_size (request_to_payload r)) ≡ false =
        ground (arith, fits) in
      let whole : leb (py.encoded_size (request_to_payload r)) (max_request_bytes + 2) ≡ true =
        ground (arith, fits) in
      rw (d.reached, d.tight, trusted, small, whole, request_roundtrip py r v) refl

  clear_request-differs :
      (r : RuntimePinRequest) (slot : Slot) (other : String)
      → read_request py host slot ≡ ok (some r)
      → (r.request_id == other) ≡ false
      → clear_request py config selected host other slot ≡ (ok false, slot)
  unfolding clear_request
  clear_request-differs r slot other reads differs = rw (clear_request, reads, differs) refl

  clear_request-same :
      (r : RuntimePinRequest) (slot : Slot)
      → read_request py host slot ≡ ok (some r)
      → host.can_unlink ≡ true
      → require_local_targets py config selected (r.role ∷ []) ≡ ok tt
      → clear_request py config selected host r.request_id slot ≡ (ok true, absent)
  unfolding clear_request
  clear_request-same r slot reads removable here =
      rw (clear_request, reads, eq_refl r.request_id, here, removable) refl

  write_request-local :
      (meanwhile : Slot → Slot) (r : RuntimePinRequest) (slot : Slot)
      → (write_request py config selected host meanwhile r slot).0 ≡ ok tt
      → require_local_targets py config selected (r.role ∷ []) ≡ ok tt
  unfolding write_request
  write_request-local meanwhile r slot h =
      elim (Result-cases (require_local_targets py config selected (r.role ∷ []))) [
        | inl (u, here) ↦ here
        | inr (e, foreign) ↦ absurd (refused e foreign)
      ]
    where
      stops :
          (e : TargetError)
          → require_local_targets py config selected (r.role ∷ []) ≡ err e
          → (write_request py config selected host meanwhile r slot).0 ≡ err (not_local e)
      stops e foreign = rw (write_request, foreign) refl

      refused :
          (e : TargetError) → require_local_targets py config selected (r.role ∷ []) ≡ err e → ⊥
      refused e foreign = let failed = stops e foreign in cc (h, failed)

  pub written_request_lem :
      (meanwhile : Slot → Slot) (r : RuntimePinRequest) (slot after : Slot) (other : String)
      → IsRequest py r
      → IsOwnDirectory host
      → Fits py r
      → host.can_unlink ≡ true
      → (r.request_id == other) ≡ false
      → write_request py config selected host meanwhile r slot ≡ (ok tt, after)
      → (read_request py host after ≡ ok (some r))
        × (clear_request py config selected host other after ≡ (ok false, after))
        × (clear_request py config selected host r.request_id after ≡ (ok true, absent))
  written_request_lem meanwhile r slot after other v d fits removable differs h =
      rw stands (reads, kept, removed)
    where
      reads : read_request py host (present (new_file py host r)) ≡ ok (some r)
      reads = read_request-new_file r v d fits

      stands : after ≡ present (new_file py host r)
      stands =
          sym (ap (λ p. p.1) h)
          ∙ ((write_request-IsWritten meanwhile r slot).on_ok (ap (λ p. p.0) h)).1

      kept :
          clear_request py config selected host other (present (new_file py host r))
          ≡ (ok false, present (new_file py host r))
      kept = clear_request-differs r (present (new_file py host r)) other reads differs

      removed :
          clear_request py config selected host r.request_id (present (new_file py host r))
          ≡ (ok true, absent)
      removed =
          clear_request-same r (present (new_file py host r)) reads removable
            (write_request-local meanwhile r slot (ap (λ p. p.0) h))

  read_request-parses :
      (f : RequestFile) (r : RuntimePinRequest)
      → read_request py host (present f) ≡ ok (some r)
      → (f.can_read ≡ true) × (parse_content py f.content ≡ ok r)
  unfolding read_request open_verified
  read_request-parses f r h = ground arith

  -- A discard never removes a request that can be read: it raises an error, and the file stays.
  pub discard_request-keeps :
      (r : RuntimePinRequest) (slot : Slot)
      → read_request py host slot ≡ ok (some r)
      → (e : RequestError) × (discard_request py config selected host slot ≡ (err e, slot))
  unfolding discard_request read_request open_verified
  discard_request-keeps r absent h = absurd (ground arith)
  discard_request-keeps r symlink h = absurd (ground arith)
  discard_request-keeps r (present f) h =
      let (opened, parses) = read_request-parses f r h in
      elim (Result-cases (require_local_targets py config selected ("map" ∷ "pinvi" ∷ []))) [
        | inr (e, foreign) ↦ (not_local e, rw (discard_request, foreign) refl)
        | inl (u, here) ↦
            (still_readable, rw (discard_request, here) (ground (arith, opened, parses)))
      ]

  request_from_payload-no_id :
      (payload : Fields)
      → only request_fields payload ≡ true
      → is_text request_schema (get "schema" payload) ≡ true
      → get "request_id" payload ≡ null
      → request_from_payload py (obj payload) ≡ err type_error
  unfolding request_from_payload new_request match_text
  request_from_payload-no_id payload known schema missing = rw (known, schema, missing) refl

  parse_content-no_id :
      (f : RequestFile) (payload : Fields)
      → LacksId host f payload
      → parse_content py f.content ≡ err type_error
  unfolding parse_content
  parse_content-no_id f payload l =
      rw l.content (request_from_payload-no_id payload l.known l.schema l.missing)

  read_request-no_id :
      (f : RequestFile) (payload : Fields)
      → LacksId host f payload
      → read_request py host (present f) ≡ err type_error
  unfolding read_request
  read_request-no_id f payload l =
      let parses = parse_content-no_id f payload l in
      rw l.verified (ground (arith, l.opened, l.small, parses))

  -- A file that holds a document of the request's schema without an identifier blocks the path: a
  -- write, a cancellation and also a discard, of which the last two raise a TypeError, leave it there.
  pub no_id_blocks :
      (f : RequestFile) (payload : Fields)
      → LacksId host f payload
      → require_local_targets py config selected ("map" ∷ "pinvi" ∷ []) ≡ ok tt
      → (discard_request py config selected host (present f) ≡ (err type_error, present f))
        × ((expected : String)
            → clear_request py config selected host expected (present f)
              ≡ (err type_error, present f))
        × ((meanwhile : Slot → Slot) (r : RuntimePinRequest)
            → (e : RequestError) × (write_request py config selected host meanwhile r (present f)
                ≡ (err e, present f)))
  unfolding discard_request clear_request write_request
  no_id_blocks f payload l here = (
    rw (discard_request, here) (ground (arith, l.opened, parse_content-no_id f payload l)),
    λ expected. rw (clear_request, read_request-no_id f payload l) refl,
    λ meanwhile r. elim (Result-cases (require_local_targets py config selected (r.role ∷ []))) [
      | inr (e, foreign) ↦ (not_local e, rw (write_request, foreign) refl)
      | inl (u, own) ↦ (type_error, rw (write_request, own, read_request-no_id f payload l) refl)
    ],
  )
