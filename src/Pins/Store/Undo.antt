-- ===== src/Pins/Store/Undo.antt =====
-- A rotation of the pair followed by a rollback to the digest that it superseded.
use kor_travel_docker_manage.Common.{
  ◌≤◌, String, false, some, ◌≡◌, ◌≢◌, refl, sym, ap, ◌∙◌, eq_refl, arith,
}
use kor_travel_docker_manage.Common.Result.{ok}
use kor_travel_docker_manage.Platform.{Platform}
use kor_travel_docker_manage.Pins.Registry.{RuntimePinRegistry, is_blocked_pinset}
use kor_travel_docker_manage.Pins.Registry.Laws.{IsRegistry}
use kor_travel_docker_manage.Pins.Document.{to_payload}
use kor_travel_docker_manage.Pins.Files.{Host, Store, max_registry_bytes, parse_file, load, written}
use kor_travel_docker_manage.Pins.Rotation.{RotationRequest, build_pair_rotation}
use kor_travel_docker_manage.Pins.Rotation.Laws.{build_pair_rotation-IsRegistry}
use kor_travel_docker_manage.Pins.Store.{rotate_runtime_pin_pair, rollback_runtime_pin}
use kor_travel_docker_manage.Pins.Store.Laws.{
  IsReady, parse_file-written, load-stored, stored, assert_writable_target-ok, write-eq-ok,
  load_again, load-Loaded,
}
use kor_travel_docker_manage.Pins.Rotation.Undo.{
  RollbackRequest, IsRollbackRequest, rolled_back, build_rollback-eq-ok,
}

module _ (py : Platform) (host : Host) where
  abbrev Fits : RuntimePinRegistry → Type 0
  Fits r = py.encoded_size (to_payload r) ≤ max_registry_bytes

  pub rotation_stores :
      (now : String) (q : RotationRequest) (current next : RuntimePinRegistry) (s s' : Store)
      → IsReady host
      → load py host s ≡ (ok current, s')
      → build_pair_rotation py now current q ≡ ok next
      → next.pinset_sha256 ≢ current.pinset_sha256
      → rotate_runtime_pin_pair py host now q s ≡ (ok next, stored py host current next now s')
  unfolding rotate_runtime_pin_pair
  rotation_stores now q current next s s' ready loaded built differs =
      let l = load-Loaded py host s s' current loaded in
      let there : s'.registry ≡ some l.file = ap (λ (t : Store). t.registry) l.after ∙ l.is_there in
      ground (
        arith,
        l.is_there,
        assert_writable_target-ok py host l.file ready l.safe,
        write-eq-ok py host now next current l.file s' s' ready there l.safe
            (load_again py host s s' current loaded) (λ e. differs (sym e)),
      )

  rollback_from :
      (current next : RuntimePinRegistry) (q : RollbackRequest) (s s' : Store)
      → IsReady host
      → IsRegistry py current
      → IsRegistry py next
      → IsRollbackRequest py q
      → next.pinset_sha256 ≢ current.pinset_sha256
      → is_blocked_pinset next current.pinset_sha256 ≡ false
      → load py host s ≡ (ok next, s')
      → parse_file py host (s'.preserved current.pinset_sha256) ≡ ok current
      → (rollback_runtime_pin py host q.at current.pinset_sha256 q.rotated_by q.reason s).0
        ≡ ok (rolled_back py current next q)
  unfolding rollback_runtime_pin rolled_back
  rollback_from current next q s s' ready v w h differs free loaded copy =
      let l = load-Loaded py host s s' next loaded in
      let there : s'.registry ≡ some l.file = ap (λ (t : Store). t.registry) l.after ∙ l.is_there in
      let r = rolled_back py current next q in
      ground (
        arith,
        l.is_there,
        assert_writable_target-ok py host l.file ready l.safe,
        build_rollback-eq-ok py current next q (λ d. parse_file py host (s'.preserved d)) v w h
            differs free copy,
        write-eq-ok py host q.at r next l.file s' s' ready there l.safe
            (load_again py host s s' next loaded) differs,
      )

  stored_loads :
      (now : String) (current next : RuntimePinRegistry) (s : Store)
      → IsRegistry py next
      → Fits next
      → (t : Store) × (load py host (stored py host current next now s) ≡ (ok next, t))
        × (t.preserved current.pinset_sha256
            ≡ some (written py host s.next_stamp (to_payload current)))
  unfolding stored
  stored_loads now current next s w fits =
      (_, load-stored py host now next current s w fits, rw (eq_refl current.pinset_sha256))

  -- A rotation can be undone. Where the registry that is loaded is well formed, the rotation of it can
  -- be built, has another digest and does not block the old one, the host lets the writes through,
  -- both documents are small enough to be read, and the rollback's texts and time pass the audit
  -- checks, the rotation succeeds, and from the files that it leaves the rollback to the superseded
  -- digest succeeds and brings back the revisions and the digest, with the block list of the rotated
  -- registry.
  pub rotation_undone :
      (now : String) (q : RotationRequest) (back : RollbackRequest)
      (current next : RuntimePinRegistry) (s s' : Store)
      → IsReady host
      → IsRegistry py current
      → Fits current
      → Fits next
      → IsRollbackRequest py back
      → load py host s ≡ (ok current, s')
      → build_pair_rotation py now current q ≡ ok next
      → next.pinset_sha256 ≢ current.pinset_sha256
      → is_blocked_pinset next current.pinset_sha256 ≡ false
      → ((rotate_runtime_pin_pair py host now q s).0 ≡ ok next)
        × ((r : RuntimePinRegistry) × ((rollback_runtime_pin py host back.at current.pinset_sha256
                back.rotated_by back.reason
                (rotate_runtime_pin_pair py host now q s).1).0
              ≡ ok r)
            × (r.map_revision ≡ current.map_revision)
            × (r.pinvi_revision ≡ current.pinvi_revision)
            × (r.pinset_sha256 ≡ current.pinset_sha256)
            × (r.blocked_pinsets ≡ next.blocked_pinsets))
  rotation_undone now q back current next s s' ready v fits_c fits_n ok_back loaded built differs
        free =
      let w = (build_pair_rotation-IsRegistry py now current q v).at next built in
      let rotated = rotation_stores now q current next s s' ready loaded built differs in
      let (t, loads, copy) = stored_loads now current next s' w fits_n in
      let kept : parse_file py host (t.preserved current.pinset_sha256) ≡ ok current =
        rw copy (parse_file-written py host s'.next_stamp current v fits_c) in
      rw rotated (
        refl,
        (
          rolled_back py current next back,
          rollback_from current next back (stored py host current next now s') t ready v w ok_back
              differs free loads kept,
          unfold rolled_back in refl,
          unfold rolled_back in refl,
          unfold rolled_back in refl,
          unfold rolled_back in refl,
        ),
      )
