-- ===== src/Pins/Document/RoundTrip.antt =====
-- The strict parser accepts only well-formed registries, and reads back every registry that
-- `to_payload` writes.
use kor_travel_docker_manage.Common.{◌≡◌, map}
use kor_travel_docker_manage.Common.Result.{
  ok, traverse, traverse_roundtrip, traverse-All, OnOk, OnOk-err, OnOk-bind, OnOk-guard,
}
use kor_travel_docker_manage.Checks.{require_revision}
use kor_travel_docker_manage.Json.{Json, obj, arr, nil, get, get_or, has, only, list_of-items}
use kor_travel_docker_manage.Platform.{Platform}
use kor_travel_docker_manage.Pins.Entries.{
  blocked_from_payload, blocked_to_payload, rotation_from_payload, rotation_to_payload,
}
use kor_travel_docker_manage.Pins.Entries.Laws.{IsBlockedPinset, IsPinRotation}
use kor_travel_docker_manage.Pins.Entries.RoundTrip.{
  blocked_roundtrip, rotation_roundtrip, blocked_from_payload-IsBlockedPinset,
  rotation_from_payload-IsPinRotation,
}
use kor_travel_docker_manage.Pins.Registry.{RuntimePinRegistry}
use kor_travel_docker_manage.Pins.Registry.Laws.{
  IsRegistry, new_registry-IsRegistry, new_registry-eq-ok,
}
use kor_travel_docker_manage.Pins.Document.{
  parse_sources, as_integer, as_list, is_text, from_payload, to_payload,
}

module _ (py : Platform) where
  parsed-IsRegistry : (v : Json) → OnOk (IsRegistry py) (from_payload py v)
  unfolding from_payload
  parsed-IsRegistry (obj payload) = OnOk-guard (only _ payload) _ _ λ known.
      OnOk-guard (is_text _ (get "schema" payload)) _ _ λ supported.
        OnOk-bind (as_integer (get "release_version" payload)) _ λ version hv.
          OnOk-bind (parse_sources (get "sources" payload)) _ λ revisions hr.
            OnOk-bind (as_list (get_or "history" (arr nil) payload) _) _ λ hs hhs.
              OnOk-bind (as_list (get_or "blocked_pinsets" (arr nil) payload) _) _ λ bs hbs.
                OnOk-bind (traverse (rotation_from_payload py) hs) _ λ history hh.
                  OnOk-bind (traverse (blocked_from_payload py) bs) _ λ blocked hb.
                    new_registry-IsRegistry py version _ _ _ _ _ _ history blocked
                      ((traverse-All _ (IsPinRotation py) (rotation_from_payload-IsPinRotation py)
                          hs).at
                        history hh)
                      ((traverse-All _ (IsBlockedPinset py)
                          (blocked_from_payload-IsBlockedPinset py) bs).at
                        blocked hb)
  parsed-IsRegistry _ = OnOk-err _

  -- Whatever the document, a registry that the parser returns is well formed: its fields and
  -- entries have the required shape, its digest and those of its block list are those of their
  -- revisions, and its lists are not too long.
  pub from_payload-IsRegistry :
      (document : Json) (r : RuntimePinRegistry) → from_payload py document ≡ ok r → IsRegistry py r
  from_payload-IsRegistry document r h = (parsed-IsRegistry document).at r h

  -- The parser reads back, unchanged, every well-formed registry that `to_payload` has written.
  pub document_roundtrip :
      (r : RuntimePinRegistry) → IsRegistry py r → from_payload py (to_payload r) ≡ ok r
  unfolding from_payload to_payload only get has require_revision get_or
  document_roundtrip r v =
      rw
        (
          v.map_rev,
          v.pinvi_rev,
          list_of-items (map rotation_to_payload r.history),
          list_of-items (map blocked_to_payload r.blocked_pinsets),
          traverse_roundtrip (rotation_from_payload py) rotation_to_payload (IsPinRotation py)
              (rotation_roundtrip py) r.history v.history,
          traverse_roundtrip (blocked_from_payload py) blocked_to_payload (IsBlockedPinset py)
              (blocked_roundtrip py) r.blocked_pinsets v.blocked,
        )
        (new_registry-eq-ok py r v)
