-- ===== src/Auth/Limit.antt =====
-- The login rate limit as the audit log gives it.
use kor_travel_docker_manage.Common.{
  ℕ, ◌+◌, ◌≤◌, ◌<◌, max, String, true, false, Option, none, some, List, [], ◌∷◌, ◌==◌, ◌≡◌, refl,
  arith, All, keep, length, leb, Option-cases, Bool-cases, inl, inr,
}
use kor_travel_docker_manage.Auth.{
  LoginAuditEvent, window, is_success, is_failure, is_login_of, latest_of, earliest_of, failures,
  retry_after, check_login_rate_limit,
}

-- Rows that are no later than a moment.
abbrev pub NotAfter : ℕ → List LoginAuditEvent → Type 0
NotAfter t rows = All (λ e. e.occurred_at ≤ t) rows

-- No failure counts whose time has left the window, or lies no later than the last success.
keep-none_left :
    (client : String) (now t : ℕ) (last : Option ℕ) (rows : List LoginAuditEvent)
    → NotAfter t rows
    → ((e : LoginAuditEvent) → e.occurred_at ≤ t → is_failure client now last e ≡ false)
    → keep (is_failure client now last) rows ≡ []
keep-none_left client now t last [] before h = refl
keep-none_left client now t last (e ∷ es) before h =
    rw (h e before.0, keep-none_left client now t last es before.1 h)

-- When every row has left the window, no client is limited: a lock ends by itself.
pub limit_expires :
    (client : Option String) (now t : ℕ) (rows : List LoginAuditEvent)
    → NotAfter t rows
    → t + window ≤ now
    → check_login_rate_limit client now rows ≡ none
unfolding check_login_rate_limit failures retry_after
limit_expires none now t rows before past = refl
limit_expires (some client) now t rows before past = rw (
    keep-none_left client now t (latest_of (keep (is_success client now) rows)) rows before
      (λ e h. ground (arith, h, past)))

latest_of-bound :
    (e : LoginAuditEvent) (es : List LoginAuditEvent)
    → (m : ℕ) × (latest_of (e ∷ es) ≡ some m) × (e.occurred_at ≤ m)
unfolding latest_of
latest_of-bound e es = elim (Option-cases (latest_of es)) [
  | inl nothing ↦ (e.occurred_at, ground (arith, nothing), omega arith)
  | inr (t, found) ↦ (max e.occurred_at t, ground (arith, found), omega arith)
]

-- After a success at the time of `e`, an earlier row is no counted failure.
no_failure :
    (client : String) (now : ℕ) (e : LoginAuditEvent) (rows : List LoginAuditEvent)
    → is_login_of client e ≡ true
    → (e.outcome == "succeeded") ≡ true
    → (x : LoginAuditEvent) → x.occurred_at ≤ e.occurred_at
    → is_failure client now (latest_of (keep (is_success client now) (e ∷ rows))) x ≡ false
no_failure client now e rows own succeeded x before =
    elim (Bool-cases (leb now (e.occurred_at + window))) [
      | inl recent ↦
          let (m, latest, bound) = latest_of-bound e (keep (is_success client now) rows) in
          let counted : keep (is_success client now) (e ∷ rows)
              ≡ e ∷ keep (is_success client now) rows =
            ground (arith, own, succeeded, recent) in
          rw (counted, latest) (ground (arith, before, bound))
      | inr past ↦ ground (arith, past, before)
    ]

-- A successful login that is not older than any row ends the limit of its client at once.
pub success_resets :
    (client : String) (now : ℕ) (e : LoginAuditEvent) (rows : List LoginAuditEvent)
    → is_login_of client e ≡ true
    → (e.outcome == "succeeded") ≡ true
    → NotAfter e.occurred_at rows
    → check_login_rate_limit (some client) now (e ∷ rows) ≡ none
unfolding check_login_rate_limit failures retry_after
success_resets client now e rows own succeeded before = rw (
    keep-none_left client now e.occurred_at (latest_of (keep (is_success client now) (e ∷ rows)))
      (e ∷ rows) (omega arith, before) (no_failure client now e rows own succeeded))

-- The least time of a list of rows is that of one of them.
earliest_of-bounds :
    (now : ℕ) (e : LoginAuditEvent) (es : List LoginAuditEvent)
    → All (λ x. (x.occurred_at ≤ now) × (now < x.occurred_at + window)) (e ∷ es)
    → (earliest_of e es ≤ now) × (now < earliest_of e es + window)
unfolding earliest_of
earliest_of-bounds now e [] h = h.0
earliest_of-bounds now e (f ∷ fs) h =
    let (a, b) = earliest_of-bounds now f fs h.1 in ground (arith, a, b, h.0.0, h.0.1)

failures-inside :
    (client : String) (now : ℕ) (last : Option ℕ) (rows : List LoginAuditEvent)
    → NotAfter now rows
    → All
        (λ x. (x.occurred_at ≤ now) × (now < x.occurred_at + window))
        (keep (is_failure client now last) rows)
failures-inside client now last [] before = tt
failures-inside client now last (e ∷ es) before = elim (Bool-cases (is_failure client now last e)) [
  | inl counted ↦
      rw counted
        (((before.0, ground (arith, counted)), failures-inside client now last es before.1))
  | inr other ↦ rw other (failures-inside client now last es before.1)
]

retry_after-bounds :
    (now n : ℕ) (es : List LoginAuditEvent)
    → All (λ x. (x.occurred_at ≤ now) × (now < x.occurred_at + window)) es
    → retry_after now es ≡ some n
    → (5 ≤ length es) × (1 ≤ n) × (n ≤ 600)
unfolding retry_after
retry_after-bounds now n [] h e = cc
retry_after-bounds now n (x ∷ xs) h e =
    let (a, b) = earliest_of-bounds now x xs h in ground (arith, e, a, b)

-- A limited client has at least five counted failures in the window, and is told to wait between one
-- second and the ten minutes of the window, where no row lies in the future.
pub limit_is_bounded :
    (client : String) (now n : ℕ) (rows : List LoginAuditEvent)
    → NotAfter now rows
    → check_login_rate_limit (some client) now rows ≡ some n
    → (5 ≤ length (failures client now rows)) × (1 ≤ n) × (n ≤ 600)
unfolding check_login_rate_limit failures
limit_is_bounded client now n rows before h =
    retry_after-bounds now n _ (failures-inside client now _ rows before) h
