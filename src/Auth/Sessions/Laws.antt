-- ===== src/Auth/Sessions/Laws.antt =====
-- A revoked session stays out, and what a cookie must pass to be accepted.
use kor_travel_docker_manage.Common.{
  ℕ, ◌<◌, String, true, none, some, List, [], ◌∷◌, ◌==◌, ◌≡◌, refl, ◌∙◌, ap, ◌⊎◌, false, eq_iff,
  is_empty, arith, Option-cases, Bool-cases, inl, inr,
}
use kor_travel_docker_manage.Common.Result.{ok, err, Result-cases}
use kor_travel_docker_manage.Json.{Json, str, Fields, get}
use kor_travel_docker_manage.Auth.{Request}
use kor_travel_docker_manage.Auth.Sessions.{
  Codec, SessionError, Environment, AdminSession, AdminSessionContext, find_session, mark_revoked,
  live_session, cookie_payload, session_id_of, is_current_payload, validate_session_cookie,
  revoke_admin_session,
}

find_session-hash :
    (hash : String) (rows : List AdminSession) (s : AdminSession)
    → find_session hash rows ≡ some s
    → s.session_id_hash ≡ hash
unfolding find_session
find_session-hash hash [] s h = ground arith
find_session-hash hash (row ∷ rows) s h =
    ground (arith, eq_iff row.session_id_hash hash, find_session-hash hash rows s)

module _ (py : Codec) where
  session_id_of-eq : (v : Json) (id : String) → session_id_of py v ≡ some id → v ≡ str id
  session_id_of-eq v id h = ground arith

  revoked-out :
      (hash : String) (at now : ℕ) (rows : List AdminSession)
      → live_session py hash now (mark_revoked hash at rows) ≡ none
  unfolding live_session find_session mark_revoked
  revoked-out hash at now [] = refl
  revoked-out hash at now (s ∷ ss) = elim (Bool-cases (s.session_id_hash == hash)) [
    | inl own ↦ elim (Option-cases s.revoked_at) [
      | inl live ↦ ground (arith, own, live)
      | inr (t, done) ↦ ground (arith, own, done)
    ]
    | inr other ↦ ground (arith, other, revoked-out hash at now ss)
  ]

  -- What a cookie's payload is, where there is one.
  payload_cases :
      (env : Environment) (value : String)
      → ((e : SessionError) × (cookie_payload py env value ≡ err e))
        ⊎ ((cookie_payload py env value ≡ ok none)
            ⊎ ((secret : String) × (payload : Fields) × (cookie_payload py env value
                  ≡ ok (some (secret, payload)))))
  payload_cases env value = elim (Result-cases (cookie_payload py env value)) [
    | inr failed ↦ inl failed
    | inl (found, h) ↦ elim (Option-cases found) [
      | inl nothing ↦ inr (inl (h ∙ ap ok nothing))
      | inr ((secret, payload), there) ↦ inr (inr (secret, payload, h ∙ ap ok there))
    ]
  ]

  -- After a logout that names a session, its cookie is refused, whoever sends it and whenever.
  pub revoked_stays_out :
      (env : Environment) (value hash : String) (r : Request) (at now : ℕ)
      (rows : List AdminSession)
      → (revoke_admin_session py env value at rows).0 ≡ ok (some hash)
      → validate_session_cookie py env value r now (revoke_admin_session py env value at rows).1
        ≡ ok none
  unfolding validate_session_cookie revoke_admin_session
  revoked_stays_out env value hash r at now rows h = elim (payload_cases env value) [
    | inl (e, failed) ↦ absurd (ground (arith, failed, h))
    | inr (inl nothing) ↦ absurd (ground (arith, nothing, h))
    | inr (inr (secret, payload, decoded)) ↦
        elim (Option-cases (session_id_of py (get "sid" payload))) [
          | inl unnamed ↦ absurd (ground (arith, decoded, unnamed, h))
          | inr (id, named) ↦
              ground (arith, decoded, named, revoked-out (py.hash_value id) at now rows)
        ]
  ]

  -- A cookie that is accepted has a payload under a valid signature whose tests pass at this time and
  -- for this client. The session that the payload names is on record, not revoked and not expired,
  -- and the context that is returned is that of its row.
  pub accepted_is_live :
      (env : Environment) (value : String) (r : Request) (now : ℕ) (rows : List AdminSession)
      (c : AdminSessionContext)
      → validate_session_cookie py env value r now rows ≡ ok (some c)
      → (secret : String) × (payload : Fields) × (session_id : String) × (s : AdminSession)
        × (cookie_payload py env value ≡ ok (some (secret, payload)))
        × (is_current_payload py env r secret now payload ≡ true)
        × (get "sid" payload ≡ str session_id)
        × (is_empty session_id ≡ false)
        × (find_session (py.hash_value session_id) rows ≡ some s)
        × (s.revoked_at ≡ none)
        × (now < s.expires_at)
        × (c.session_id_hash ≡ py.hash_value session_id)
        × (c.username ≡ s.username)
        × (c.expires_at ≡ s.expires_at)
  unfolding validate_session_cookie live_session
  accepted_is_live env value r now rows c h = elim (payload_cases env value) [
    | inl (e, failed) ↦ absurd (ground (arith, failed, h))
    | inr (inl nothing) ↦ absurd (ground (arith, nothing, h))
    | inr (inr (secret, payload, decoded)) ↦
        elim (Option-cases (session_id_of py (get "sid" payload))) [
          | inl unnamed ↦ absurd (ground (arith, decoded, unnamed, h))
          | inr (id, named) ↦ elim (Option-cases (find_session (py.hash_value id) rows)) [
            | inl missing ↦ absurd (ground (arith, decoded, named, missing, h))
            | inr (s, found) ↦
                let own = find_session-hash (py.hash_value id) rows s found in
                (
                  secret,
                  payload,
                  id,
                  s,
                  decoded,
                  ground (arith, decoded, named, found, h),
                  session_id_of-eq (get "sid" payload) id named,
                  ground (arith, decoded, named, found, h),
                  found,
                  ground (arith, decoded, named, found, h),
                  ground (arith, decoded, named, found, h),
                  ground (arith, decoded, named, found, h, own),
                  ground (arith, decoded, named, found, h),
                  ground (arith, decoded, named, found, h),
                )
          ]
        ]
  ]
