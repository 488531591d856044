-- ===== src/Pins/Registry/Laws.antt =====
-- A registry that exists has passed every check, and what the block list says of a pinset.
use kor_travel_docker_manage.Common.{
  ◌≤◌, String, Bool, true, ◌&&◌, ◌||◌, not, List, [], ◌∷◌, ◌≡◌, refl, sym, ◌∙◌, ◌==◌, eq_iff, arith,
  length, any, any-append, keep, ltb, is_hex_word, All, le→not_ltb,
}
use kor_travel_docker_manage.Common.Result.{ok, OnOk, OnOk-ok, OnOk-bind, OnOk-guard}
use kor_travel_docker_manage.Checks.{
  IsText, is_timestamp, require_text, require_text-IsText, require_text-eq-ok, require_revision,
  require_revision-eq, require_digest, require_digest-eq, require_timestamp, require_timestamp-eq,
}
use kor_travel_docker_manage.Json.{Json, ℤ, str}
use kor_travel_docker_manage.Platform.{Platform}
use kor_travel_docker_manage.Release.{
  release_version, compute_pinset_sha256, compute_pinset_sha256-eq, pair_digest,
}
use kor_travel_docker_manage.Pins.Entries.{
  BlockedPinset, PinRotation, max_reason_length, max_actor_length,
}
use kor_travel_docker_manage.Pins.Entries.Laws.{IsBlockedPinset, IsPinRotation}
use kor_travel_docker_manage.Pins.Registry.{
  RuntimePinRegistry, new_registry, is_supported, max_history_entries, max_blocked_entries,
  code_enforced, d9_entry, is_declared, effective_blocked_pinsets, is_blocked_pinset,
  is_unconditionally_blocked_pinset, is_none,
}

is_supported-eq : (v : ℤ) → is_supported v ≡ true → v ≡ release_version
is_supported-eq v h = ground arith

module _ (py : Platform) where
  -- The fields of a registry and of all its entries are well formed, and the digest is that of the
  -- two revisions.
  pub record IsRegistry (r : RuntimePinRegistry) : Type 0 where
    pub version : r.release_version ≡ release_version
    pub map_rev : is_hex_word 40 r.map_revision ≡ true
    pub pinvi_rev : is_hex_word 40 r.pinvi_revision ≡ true
    pub digest : is_hex_word 64 r.pinset_sha256 ≡ true
    pub at : is_timestamp py r.rotated_at ≡ true
    pub by : IsText max_actor_length r.rotated_by
    pub reason : IsText max_reason_length r.reason
    pub history_fits : length r.history ≤ max_history_entries
    pub blocked_fits : length r.blocked_pinsets ≤ max_blocked_entries
    pub names_pair :
        r.pinset_sha256 ≡ pair_digest py release_version r.map_revision r.pinvi_revision
    pub history : All (IsPinRotation py) r.history
    pub blocked : All (IsBlockedPinset py) r.blocked_pinsets

  pub new_registry-IsRegistry :
      (version : ℤ) (m p d t b s : Json) (history : List PinRotation) (blocked : List BlockedPinset)
      → All (IsPinRotation py) history
      → All (IsBlockedPinset py) blocked
      → OnOk IsRegistry (new_registry py version m p d t b s history blocked)
  unfolding new_registry
  new_registry-IsRegistry version m p d t b s history blocked vh vb =
      OnOk-guard (is_supported version) _ _ λ supported. OnOk-bind (require_revision m _) _ λ m' hm.
        OnOk-bind (require_revision p _) _ λ p' hp. OnOk-bind (require_digest d _) _ λ d' hd.
          OnOk-bind (require_timestamp py t _) _ λ t' ht.
            OnOk-bind (require_text b _ max_actor_length) _ λ b' hb.
              OnOk-bind (require_text s _ max_reason_length) _ λ s' hs.
                OnOk-guard (not (ltb max_history_entries (length history))) _ _ λ fh.
                  OnOk-guard (not (ltb max_blocked_entries (length blocked))) _ _ λ fb.
                    OnOk-bind (compute_pinset_sha256 py version m' p') _ λ x hx.
                      OnOk-guard (d' == x) _ _ λ same.
                        let five = is_supported-eq version supported in
                        OnOk-ok _ (record {
                          version = five;
                          map_rev = (require_revision-eq m _ hm).1;
                          pinvi_rev = (require_revision-eq p _ hp).1;
                          digest = (require_digest-eq d _ hd).1;
                          at = (require_timestamp-eq py t _ ht).1;
                          by = (require_text-IsText b _ max_actor_length hb).0;
                          reason = (require_text-IsText s _ max_reason_length hs).0;
                          history_fits = ground arith;
                          blocked_fits = ground arith;
                          names_pair = cc (
                            five,
                            (eq_iff d' x).0 same,
                            compute_pinset_sha256-eq py version m' p' (require_revision-eq m _ hm).1
                                (require_revision-eq p _ hp).1,
                          );
                          history = vh;
                          blocked = vb;
                        })

  -- The constructor keeps what it is given.
  pub new_registry-fields :
      (version : ℤ) (m p d t b s : Json) (history : List PinRotation) (blocked : List BlockedPinset)
      → OnOk
          (λ r.
            (str r.map_revision ≡ m)
            × (str r.pinvi_revision ≡ p)
            × (str r.pinset_sha256 ≡ d)
            × (r.history ≡ history)
            × (r.blocked_pinsets ≡ blocked))
          (new_registry py version m p d t b s history blocked)
  unfolding new_registry
  new_registry-fields version m p d t b s history blocked =
      OnOk-guard (is_supported version) _ _ λ supported. OnOk-bind (require_revision m _) _ λ m' hm.
        OnOk-bind (require_revision p _) _ λ p' hp. OnOk-bind (require_digest d _) _ λ d' hd.
          OnOk-bind (require_timestamp py t _) _ λ t' ht.
            OnOk-bind (require_text b _ max_actor_length) _ λ b' hb.
              OnOk-bind (require_text s _ max_reason_length) _ λ s' hs.
                OnOk-guard (not (ltb max_history_entries (length history))) _ _ λ fh.
                  OnOk-guard (not (ltb max_blocked_entries (length blocked))) _ _ λ fb.
                    OnOk-bind (compute_pinset_sha256 py version m' p') _ λ x hx.
                      OnOk-guard (d' == x) _ _ λ same. OnOk-ok _ (
                        sym (require_revision-eq m _ hm).0,
                        sym (require_revision-eq p _ hp).0,
                        sym (require_digest-eq d _ hd).0,
                        refl,
                        refl,
                      )

  -- A well-formed registry passes the checks of its constructor and comes out unchanged.
  pub new_registry-eq-ok :
      (r : RuntimePinRegistry)
      → IsRegistry r
      → new_registry py r.release_version
          (str r.map_revision)
          (str r.pinvi_revision)
          (str r.pinset_sha256)
          (str r.rotated_at)
          (str r.rotated_by)
          (str r.reason)
          r.history
          r.blocked_pinsets
        ≡ ok r
  unfolding new_registry require_digest require_revision require_timestamp
  new_registry-eq-ok r v = rw (
    v.version,
    v.map_rev,
    v.pinvi_rev,
    v.digest,
    v.at,
    require_text-eq-ok r.rotated_by "rotated_by" max_actor_length v.by,
    require_text-eq-ok r.reason "reason" max_reason_length v.reason,
    le→not_ltb max_history_entries (length r.history) v.history_fits,
    le→not_ltb max_blocked_entries (length r.blocked_pinsets) v.blocked_fits,
    compute_pinset_sha256-eq py release_version r.map_revision r.pinvi_revision v.map_rev
        v.pinvi_rev,
    (eq_iff _ _).1 v.names_pair,
  )

-- An entry of the list with the same digest as a declared one.
declared-blocked :
    (e : BlockedPinset) (p : String) (l : List BlockedPinset)
    → is_declared l e ≡ true
    → (e.pinset_sha256 == p) ≡ true
    → any (λ d. d.pinset_sha256 == p) l ≡ true
unfolding is_declared
declared-blocked e p [] h same = cc
declared-blocked e p (d ∷ l) h same = ground (
  arith,
  eq_iff d.pinset_sha256 e.pinset_sha256,
  eq_iff e.pinset_sha256 p,
  eq_iff d.pinset_sha256 p,
  λ (q : is_declared l e ≡ true). declared-blocked e p l q same,
)

-- Leaving out a declared entry of the floor changes no answer.
floor_extends :
    (q : BlockedPinset → Bool) (e : BlockedPinset) (l : List BlockedPinset)
    → (is_declared l e ≡ true → q e ≡ true → any q l ≡ true)
    → (any q l || any q (keep (λ d. not (is_declared l d)) (e ∷ []))) ≡ (any q l || any q (e ∷ []))
floor_extends q e l h = ground arith

-- A pinset is blocked exactly when the file's list or the code's floor names it.
pub is_blocked_pinset-eq :
    (r : RuntimePinRegistry) (p : String)
    → is_blocked_pinset r p ≡ (
        any (λ e. e.pinset_sha256 == p) r.blocked_pinsets
        || any (λ e. e.pinset_sha256 == p) code_enforced)
unfolding is_blocked_pinset effective_blocked_pinsets
is_blocked_pinset-eq r p =
    any-append _ r.blocked_pinsets _
    ∙ floor_extends _ d9_entry r.blocked_pinsets (declared-blocked d9_entry p r.blocked_pinsets)

-- A pinset is blocked without condition exactly when the file's list says so with no phase.
pub is_unconditionally_blocked_pinset-eq :
    (r : RuntimePinRegistry) (p : String)
    → is_unconditionally_blocked_pinset r p
      ≡ any (λ e. e.pinset_sha256 == p && is_none e.phase) r.blocked_pinsets
unfolding is_unconditionally_blocked_pinset effective_blocked_pinsets
is_unconditionally_blocked_pinset-eq r p =
    any-append _ r.blocked_pinsets _
    ∙ floor_extends (λ e. e.pinset_sha256 == p && is_none e.phase) d9_entry r.blocked_pinsets
        (λ _ q. ground (arith, q))
    ∙ ground arith
