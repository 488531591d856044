-- ===== src/Auth/Audit.antt =====
-- The retention of the login audit: the newest rows stay.
use kor_travel_docker_manage.Common.{
  ℕ, zero, suc, ◌+◌, ◌≤◌, ◌<◌, String, not, none, some, List, [], ◌∷◌, ◌≡◌, refl, sym, ap, arith,
  All, keep, take, length, length-take, ltb, lt→ltb, le→not_ltb, Option-cases, inl, inr,
}
use kor_travel_docker_manage.Auth.{
  LoginAuditEvent, AuditLog, Request, NewEvent, nth_id, prune, new_event, record_login_audit_event,
}

abbrev Below : ℕ → List LoginAuditEvent → Type 0
Below bound rows = All (λ e. e.id < bound) rows

-- The newest row stands first: the keys go down.
abbrev pub Descending : List LoginAuditEvent → Type 0
Descending [] = Unit
Descending (e ∷ es) = Below e.id es × Descending es

-- The keys go down, and the next one is above them.
pub record IsAuditLog (log : AuditLog) : Type 0 where
  pub descending : Descending log.rows
  pub fresh : All (λ e. e.id < log.next_id) log.rows

nth_id-Below :
    (bound n : ℕ) (rows : List LoginAuditEvent) (t : ℕ)
    → Below bound rows
    → nth_id n rows ≡ some t
    → t < bound
unfolding nth_id
nth_id-Below bound n [] t below h = cc
nth_id-Below bound zero (e ∷ es) t below h = ground (arith, below.0, h)
nth_id-Below bound (suc n) (e ∷ es) t below h = nth_id-Below bound n es t below.1 h

keep-Below :
    (bound : ℕ) (rows : List LoginAuditEvent)
    → Below bound rows
    → keep (λ e. not (ltb e.id bound)) rows ≡ []
keep-Below bound [] below = refl
keep-Below bound (e ∷ es) below = rw (lt→ltb e.id bound below.0, keep-Below bound es below.1)

few-take : (n : ℕ) (rows : List LoginAuditEvent) → nth_id n rows ≡ none → take (suc n) rows ≡ rows
unfolding nth_id
few-take n [] h = refl
few-take zero (e ∷ es) h = cc
few-take (suc n) (e ∷ es) h = ap (λ rest. e ∷ rest) (few-take n es h)

above-take :
    (n : ℕ) (rows : List LoginAuditEvent) (t : ℕ)
    → Descending rows
    → nth_id n rows ≡ some t
    → keep (λ e. not (ltb e.id t)) rows ≡ take (suc n) rows
unfolding nth_id
above-take n [] t d h = cc
above-take zero (e ∷ es) t d h =
    let same : e.id ≡ t = ground (arith, h) in
    let dropped = keep-Below t es (rw (sym same) (d.0)) in
    rw (le→not_ltb e.id t (omega (arith, same)), dropped)
above-take (suc n) (e ∷ es) t d h =
    rw (le→not_ltb e.id t (omega (arith, nth_id-Below e.id n es t d.0 h)), above-take n es t d.1 h)

-- Pruning a table keeps exactly the newest rows, as many as the limit.
pub prune_lem :
    (n : ℕ) (rows : List LoginAuditEvent) → Descending rows → prune (suc n) rows ≡ take (suc n) rows
unfolding prune
prune_lem n rows d = elim (Option-cases (nth_id n rows)) [
  | inl few ↦ rw (prune, few) (sym (few-take n rows few))
  | inr (t, found) ↦ rw (prune, found) (above-take n rows t d found)
]

take-Below :
    (bound n : ℕ) (rows : List LoginAuditEvent) → Below bound rows → Below bound (take n rows)
take-Below bound zero rows below = tt
take-Below bound (suc n) [] below = tt
take-Below bound (suc n) (e ∷ es) below = (below.0, take-Below bound n es below.1)

take-Descending : (n : ℕ) (rows : List LoginAuditEvent) → Descending rows → Descending (take n rows)
take-Descending zero rows d = tt
take-Descending (suc n) [] d = tt
take-Descending (suc n) (e ∷ es) d = (take-Below e.id n es d.0, take-Descending n es d.1)

later-Below : (bound : ℕ) (rows : List LoginAuditEvent) → Below bound rows → Below (bound + 1) rows
later-Below bound [] below = tt
later-Below bound (e ∷ es) below = (omega (arith, below.0), later-Below bound es below.1)

-- What a record leaves in the log: the new row first, then the newest of the old ones.
pub record Records (most : ℕ) (before : AuditLog) (row : LoginAuditEvent) (after : AuditLog)
    : Type 0 where
  pub valid : IsAuditLog after
  pub rows : after.rows ≡ row ∷ take most before.rows
  pub fits : length after.rows ≤ suc most

-- Recording an event, with a limit of `most + 1` rows, puts the new row first, keeps exactly the
-- newest of the old rows, never exceeds the limit, and keeps the keys in order.
pub record_login_audit_event_lem :
    (hash_value : String → String) (most : ℕ) (log : AuditLog) (r : Request) (e : NewEvent)
    (now : ℕ)
    → IsAuditLog log
    → Records most log
        (new_event hash_value r e log.next_id now)
        (record_login_audit_event hash_value (suc most) log r e now)
unfolding record_login_audit_event new_event
record_login_audit_event_lem hash_value most log r e now v =
    let new : LoginAuditEvent = new_event hash_value r e log.next_id now in
    let pruned = prune_lem most (new ∷ log.rows) (v.fresh, v.descending) in
    record {
      valid = record {
        descending =
            rw pruned (take-Descending (suc most) (new ∷ log.rows) (v.fresh, v.descending));
        fresh = rw pruned (
            take-Below (log.next_id + 1) (suc most) (new ∷ log.rows)
              (omega arith, later-Below log.next_id log.rows v.fresh));
      };
      rows = pruned;
      fits = rw pruned (length-take (suc most) (new ∷ log.rows));
    }
