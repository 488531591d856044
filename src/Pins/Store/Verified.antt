-- ===== src/Pins/Store/Verified.antt =====
-- What verify_runtime_pin_registry reports after a rotation.
use kor_travel_docker_manage.Common.{
  ℕ, ◌+◌, ◌≤◌, String, false, some, ◌≡◌, ◌≢◌, refl, eq_refl, arith,
}
use kor_travel_docker_manage.Common.Result.{ok}
use kor_travel_docker_manage.Json.{str, end, field, remove}
use kor_travel_docker_manage.Platform.{Platform}
use kor_travel_docker_manage.Pins.Registry.{
  RuntimePinRegistry, is_blocked_pinset, is_unconditionally_blocked_pinset,
}
use kor_travel_docker_manage.Pins.Registry.Laws.{IsRegistry}
use kor_travel_docker_manage.Pins.Document.{to_payload, payload_fields}
use kor_travel_docker_manage.Pins.Document.RoundTrip.{document_roundtrip}
use kor_travel_docker_manage.Pins.Files.{Host, Store, max_registry_bytes, load, written}
use kor_travel_docker_manage.Pins.Rotation.{RotationRequest, build_pair_rotation}
use kor_travel_docker_manage.Pins.Rotation.Laws.{build_pair_rotation-IsRegistry}
use kor_travel_docker_manage.Pins.Rotation.Blocks.{final-blocked}
use kor_travel_docker_manage.Pins.Rotation.Landing.{pair_rotation_lands}
use kor_travel_docker_manage.Pins.Store.{
  current, published_payload, published_state, verify, rotate_runtime_pin_pair,
}
use kor_travel_docker_manage.Pins.Store.Laws.{IsReady, read_document-written, load-stored, stored}
use kor_travel_docker_manage.Pins.Store.Undo.{rotation_stores}

without_published_at :
    (r : RuntimePinRegistry) (now : String)
    → remove "published_at" (payload_fields r (field "published_at" (str now) end))
      ≡ payload_fields r end
unfolding remove payload_fields
without_published_at r now = refl

not_final :
    (r : RuntimePinRegistry)
    → is_blocked_pinset r r.pinset_sha256 ≡ false
    → is_unconditionally_blocked_pinset r r.pinset_sha256 ≡ false
not_final r free = ground (arith, final-blocked r r.pinset_sha256)

module _ (py : Platform) (host : Host) where
  published_state-written :
      (stamp : ℕ) (r : RuntimePinRegistry) (now : String)
      → IsRegistry py r
      → py.encoded_size (published_payload r now) ≤ max_registry_bytes
      → published_state py host r (some (written py host stamp (published_payload r now))) ≡ current
  unfolding published_state to_payload
  published_state-written stamp r now v fits = rw (
    read_document-written py host stamp (payload_fields r (field "published_at" (str now) end))
        fits,
    without_published_at r now,
    document_roundtrip py r v,
    eq_refl r.pinset_sha256,
  )

  -- After a rotation that succeeds, the verification reports the rotated registry, a published
  -- copy that is current, and a pinset that is not blocked without condition. The host lets the
  -- writes through, the two digests differ, and the documents are not too large to be read.
  pub rotation_verified :
      (now : String) (q : RotationRequest) (before next : RuntimePinRegistry) (s s' : Store)
      → IsReady host
      → IsRegistry py before
      → py.encoded_size (to_payload next) ≤ max_registry_bytes
      → py.encoded_size (published_payload next now) ≤ max_registry_bytes
      → load py host s ≡ (ok before, s')
      → build_pair_rotation py now before q ≡ ok next
      → next.pinset_sha256 ≢ before.pinset_sha256
      → (verify py host (rotate_runtime_pin_pair py host now q s).1).0
        ≡ ok (record { registry = next; published_copy = current; current_is_blocked = false })
  unfolding verify stored
  rotation_verified now q before next s s' ready v fits fits_public loaded built differs =
      let w = (build_pair_rotation-IsRegistry py now before q v).at next built in
      let rotated = rotation_stores py host now q before next s s' ready loaded built differs in
      let reloaded = load-stored py host now next before s' w fits in
      let free = (pair_rotation_lands py now before q next built).not_blocked in
      rw (
        rotated,
        reloaded,
        published_state-written (s'.next_stamp + 1 + 1) next now w fits_public,
        not_final next free,
      )
