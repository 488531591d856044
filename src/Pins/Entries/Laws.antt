-- ===== src/Pins/Entries/Laws.antt =====
-- The entries of the block list and of the history: what their constructors have checked, and that
-- a valid entry survives the way through its payload.
use kor_travel_docker_manage.Common.{
  String, Option, none, some, true, ◌≡◌, refl, sym, ◌==◌, eq_iff, arith, is_hex_word,
}
use kor_travel_docker_manage.Common.Result.{ok, OnOk, OnOk-ok, OnOk-bind, OnOk-guard}
use kor_travel_docker_manage.Checks.{
  IsText, is_timestamp, require_text, require_text-IsText, require_text-eq-ok, require_revision,
  require_revision-eq, require_digest, require_digest-eq, require_timestamp, require_timestamp-eq,
}
use kor_travel_docker_manage.Json.{Json, str}
use kor_travel_docker_manage.Platform.{Platform}
use kor_travel_docker_manage.Release.{
  release_version, compute_pinset_sha256, compute_pinset_sha256-eq, pair_digest,
}
use kor_travel_docker_manage.Pins.Entries.{
  BlockedPinset, PinRotation, optional, optional_text, optional_digest, max_reason_length,
  max_actor_length, new_blocked_pinset, new_pin_rotation,
}

abbrev pub IsOptionalText : Option String → Type 0
IsOptionalText none = Unit
IsOptionalText (some s) = IsText max_actor_length s

abbrev pub IsOptionalDigest : Option String → Type 0
IsOptionalDigest none = Unit
IsOptionalDigest (some s) = is_hex_word 64 s ≡ true

optional_text-eq-ok :
    (o : Option String) (name : String)
    → IsOptionalText o
    → optional_text (optional o) name max_actor_length ≡ ok o
unfolding optional_text
optional_text-eq-ok none name h = refl
optional_text-eq-ok (some s) name h = rw (require_text-eq-ok s name max_actor_length h)

optional_digest-eq-ok :
    (o : Option String) (name : String)
    → IsOptionalDigest o
    → optional_digest (optional o) name ≡ ok o
unfolding optional_digest require_digest
optional_digest-eq-ok none name h = refl
optional_digest-eq-ok (some s) name h = rw h

optional_text-IsOptionalText :
    (v : Json) (name : String) {o : Option String}
    → optional_text v name max_actor_length ≡ ok o
    → IsOptionalText o
unfolding optional_text require_text
optional_text-IsOptionalText v name {o} h = ground arith

optional_digest-IsOptionalDigest :
    (v : Json) (name : String) {o : Option String}
    → optional_digest v name ≡ ok o
    → IsOptionalDigest o
unfolding optional_digest require_digest
optional_digest-IsOptionalDigest v name h = ground arith

optional_text-keeps :
    (v : Json) (name : String) {o : Option String}
    → optional_text v name max_actor_length ≡ ok o
    → optional o ≡ v
unfolding optional_text require_text
optional_text-keeps v name h = ground arith

optional_digest-keeps :
    (v : Json) (name : String) {o : Option String} → optional_digest v name ≡ ok o → optional o ≡ v
unfolding optional_digest require_digest
optional_digest-keeps v name h = ground arith

module _ (py : Platform) where
  -- A well-formed block entry: its digest is that of its revisions.
  pub record IsBlockedPinset (e : BlockedPinset) : Type 0 where
    pub digest : is_hex_word 64 e.pinset_sha256 ≡ true
    pub map_rev : is_hex_word 40 e.map_revision ≡ true
    pub pinvi_rev : is_hex_word 40 e.pinvi_revision ≡ true
    pub reason : IsText max_reason_length e.reason
    pub at : is_timestamp py e.blocked_at ≡ true
    pub phase : IsOptionalText e.phase
    pub names_pair :
        e.pinset_sha256 ≡ pair_digest py release_version e.map_revision e.pinvi_revision

  pub record IsPinRotation (e : PinRotation) : Type 0 where
    pub digest : is_hex_word 64 e.pinset_sha256 ≡ true
    pub at : is_timestamp py e.rotated_at ≡ true
    pub by : IsText max_actor_length e.rotated_by
    pub reason : IsText max_reason_length e.reason
    pub supersedes : IsOptionalDigest e.supersedes_pinset_sha256

  pub new_blocked_pinset-eq-ok :
      (e : BlockedPinset)
      → IsBlockedPinset e
      → new_blocked_pinset py
          (str e.pinset_sha256)
          (str e.map_revision)
          (str e.pinvi_revision)
          (str e.reason)
          (str e.blocked_at)
          (optional e.phase)
        ≡ ok e
  unfolding new_blocked_pinset require_digest require_revision require_timestamp
  new_blocked_pinset-eq-ok e v = rw (
    v.digest,
    v.map_rev,
    v.pinvi_rev,
    require_text-eq-ok e.reason "blocked_pinsets[].reason" max_reason_length v.reason,
    v.at,
    optional_text-eq-ok e.phase "blocked_pinsets[].phase" v.phase,
    compute_pinset_sha256-eq py release_version e.map_revision e.pinvi_revision v.map_rev
        v.pinvi_rev,
    (eq_iff _ _).1 v.names_pair,
  )

  pub new_blocked_pinset-IsBlockedPinset :
      (pinset map_rev pinvi_rev reason at phase : Json)
      → OnOk IsBlockedPinset (new_blocked_pinset py pinset map_rev pinvi_rev reason at phase)
  unfolding new_blocked_pinset
  new_blocked_pinset-IsBlockedPinset pinset map_rev pinvi_rev reason at phase =
      OnOk-bind (require_digest pinset _) _ λ d hd. OnOk-bind (require_revision map_rev _) _ λ m hm.
        OnOk-bind (require_revision pinvi_rev _) _ λ p hp.
          OnOk-bind (require_text reason _ max_reason_length) _ λ r hr.
            OnOk-bind (require_timestamp py at _) _ λ t ht.
              OnOk-bind (optional_text phase _ max_actor_length) _ λ f hf.
                OnOk-bind (compute_pinset_sha256 py release_version m p) _ λ x hx.
                  OnOk-guard (d == x) _ _ λ same. OnOk-ok _ (record {
                    digest = (require_digest-eq pinset _ hd).1;
                    map_rev = (require_revision-eq map_rev _ hm).1;
                    pinvi_rev = (require_revision-eq pinvi_rev _ hp).1;
                    reason = (require_text-IsText reason _ max_reason_length hr).0;
                    at = (require_timestamp-eq py at _ ht).1;
                    phase = optional_text-IsOptionalText phase _ hf;
                    names_pair = cc (
                      (eq_iff d x).0 same,
                      compute_pinset_sha256-eq py release_version m p
                          (require_revision-eq map_rev _ hm).1
                          (require_revision-eq pinvi_rev _ hp).1,
                    );
                  })

  -- The constructor keeps what it is given.
  pub new_blocked_pinset-fields :
      (pinset map_rev pinvi_rev reason at phase : Json)
      → OnOk
          (λ e. (str e.pinset_sha256 ≡ pinset) × (optional e.phase ≡ phase))
          (new_blocked_pinset py pinset map_rev pinvi_rev reason at phase)
  unfolding new_blocked_pinset
  new_blocked_pinset-fields pinset map_rev pinvi_rev reason at phase =
      OnOk-bind (require_digest pinset _) _ λ d hd. OnOk-bind (require_revision map_rev _) _ λ m hm.
        OnOk-bind (require_revision pinvi_rev _) _ λ p hp.
          OnOk-bind (require_text reason _ max_reason_length) _ λ r hr.
            OnOk-bind (require_timestamp py at _) _ λ t ht.
              OnOk-bind (optional_text phase _ max_actor_length) _ λ f hf.
                OnOk-bind (compute_pinset_sha256 py release_version m p) _ λ x hx.
                  OnOk-guard (d == x) _ _ λ same.
                    OnOk-ok _
                      (sym (require_digest-eq pinset _ hd).0, optional_text-keeps phase _ hf)

  pub new_pin_rotation-eq-ok :
      (e : PinRotation)
      → IsPinRotation e
      → new_pin_rotation py
          (str e.pinset_sha256)
          (str e.rotated_at)
          (str e.rotated_by)
          (str e.reason)
          (optional e.supersedes_pinset_sha256)
        ≡ ok e
  unfolding new_pin_rotation require_digest require_timestamp
  new_pin_rotation-eq-ok e v = rw (
    v.digest,
    v.at,
    require_text-eq-ok e.rotated_by "history[].rotated_by" max_actor_length v.by,
    require_text-eq-ok e.reason "history[].reason" max_reason_length v.reason,
    optional_digest-eq-ok e.supersedes_pinset_sha256 "history[].supersedes_pinset_sha256"
        v.supersedes,
  )

  pub new_pin_rotation-IsPinRotation :
      (pinset at by reason supersedes : Json)
      → OnOk IsPinRotation (new_pin_rotation py pinset at by reason supersedes)
  unfolding new_pin_rotation
  new_pin_rotation-IsPinRotation pinset at by reason supersedes =
      OnOk-bind (require_digest pinset _) _ λ d hd. OnOk-bind (require_timestamp py at _) _ λ t ht.
        OnOk-bind (require_text by _ max_actor_length) _ λ b hb.
          OnOk-bind (require_text reason _ max_reason_length) _ λ r hr.
            OnOk-bind (optional_digest supersedes _) _ λ p hp. OnOk-ok _ (record {
              digest = (require_digest-eq pinset _ hd).1;
              at = (require_timestamp-eq py at _ ht).1;
              by = (require_text-IsText by _ max_actor_length hb).0;
              reason = (require_text-IsText reason _ max_reason_length hr).0;
              supersedes = optional_digest-IsOptionalDigest supersedes _ hp;
            })

  pub new_pin_rotation-fields :
      (pinset at by reason supersedes : Json)
      → OnOk
          (λ e.
            (str e.pinset_sha256 ≡ pinset)
            × (str e.rotated_at ≡ at)
            × (optional e.supersedes_pinset_sha256 ≡ supersedes))
          (new_pin_rotation py pinset at by reason supersedes)
  unfolding new_pin_rotation
  new_pin_rotation-fields pinset at by reason supersedes =
      OnOk-bind (require_digest pinset _) _ λ d hd. OnOk-bind (require_timestamp py at _) _ λ t ht.
        OnOk-bind (require_text by _ max_actor_length) _ λ b hb.
          OnOk-bind (require_text reason _ max_reason_length) _ λ r hr.
            OnOk-bind (optional_digest supersedes _) _ λ p hp. OnOk-ok _ (
              sym (require_digest-eq pinset _ hd).0,
              sym (require_timestamp-eq py at _ ht).0,
              optional_digest-keeps supersedes _ hp,
            )
