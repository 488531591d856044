-- ===== src/Jobs/Table.antt =====
-- The table of jobs: identifiers are distinct, and what a removal, an insertion and an update leave.
use kor_travel_docker_manage.Common.{
  any-keep, keep-none, keep-swap, ℕ, String, Bool, true, false, not, ◌≤◌, ◌<◌, none, some, List, [],
  ◌∷◌, ◌++◌, ◌≡◌, refl, sym, ◌∙◌, ◌==◌, eq_iff, eq_refl, or-eq-false, arith, length, length-keep,
  any, any-append, keep, Bool-cases, inl, inr,
}
use kor_travel_docker_manage.Jobs.{
  JobRecord, Outcome, returned, raised, cancelled, is_running, is_finished, has_id, find_job,
  remove_job, put_job, settle, settle_job,
}

-- No identifier stands twice.
abbrev pub Distinct : List JobRecord → Type 0
Distinct [] = Unit
Distinct (j ∷ js) = (any (has_id j.job_id) js ≡ false) × Distinct js

pub Distinct-keep :
    (q : JobRecord → Bool) (js : List JobRecord) → Distinct js → Distinct (keep q js)
Distinct-keep q [] h = tt
Distinct-keep q (j ∷ js) h = elim (Bool-cases (q j)) [
  | inl kept ↦ rw kept ((any-keep (has_id j.job_id) q js h.0, Distinct-keep q js h.1))
  | inr out ↦ rw out (Distinct-keep q js h.1)
]

-- A job that is found has the identifier that was asked for.
pub find_job-id :
    (id : String) (js : List JobRecord) (j : JobRecord)
    → find_job id js ≡ some j
    → has_id id j ≡ true
unfolding find_job
find_job-id id [] j h = cc
find_job-id id (k ∷ js) j h = elim (Bool-cases (has_id id k)) [
  | inl own ↦ ground (arith, own, h)
  | inr other ↦ ground (arith, find_job-id id js j, other, h)
]

pub find_job-any :
    (id : String) (js : List JobRecord) (j : JobRecord)
    → find_job id js ≡ some j
    → any (has_id id) js ≡ true
unfolding find_job
find_job-any id [] j h = cc
find_job-any id (k ∷ js) j h = ground (arith, find_job-any id js j, h)

pub find_job-none :
    (id : String) (js : List JobRecord) → find_job id js ≡ none → any (has_id id) js ≡ false
unfolding find_job
find_job-none id [] h = refl
find_job-none id (k ∷ js) h = ground (arith, find_job-none id js, h)

-- Removing a finished job leaves the running ones.
pub remove_job-running :
    (id : String) (js : List JobRecord) (f : JobRecord)
    → Distinct js
    → find_job id js ≡ some f
    → is_finished f ≡ true
    → keep is_running (remove_job id js) ≡ keep is_running js
unfolding find_job remove_job
remove_job-running id [] f d h done = refl
remove_job-running id (j ∷ js) f d h done = elim (Bool-cases (has_id id j)) [
  | inl own ↦
      let alone : any (has_id id) js ≡ false = rw (sym ((eq_iff _ _).0 own)) (d.0) in
      ground (arith, own, h, done, keep-none (has_id id) js alone)
  | inr other ↦ ground (arith, other, h, remove_job-running id js f d.1, done)
]

-- Removing a finished job makes the finished ones fewer.
pub remove_job-fewer :
    (id : String) (js : List JobRecord) (f : JobRecord)
    → find_job id js ≡ some f
    → is_finished f ≡ true
    → length (keep is_finished (remove_job id js)) < length (keep is_finished js)
unfolding find_job remove_job
remove_job-fewer id [] f h done = cc
remove_job-fewer id (j ∷ js) f h done = elim (Bool-cases (has_id id j)) [
  | inl own ↦ ground (arith, own, h, done, fewer)
  | inr other ↦ ground (arith, other, h, remove_job-fewer id js f, done)
]
  where
    fewer :
        length (keep is_finished (keep (λ x. not (has_id id x)) js)) ≤ length (keep is_finished js)
    fewer =
        rw (keep-swap is_finished (λ x. not (has_id id x)) js)
          (length-keep (λ x. not (has_id id x)) (keep is_finished js))

-- Updating a job that is there keeps the identifiers.
settle-id : (o : Outcome) (now : ℕ) (j : JobRecord) → (settle o now j).job_id ≡ j.job_id
unfolding settle
settle-id (returned v) now j = refl
settle-id (raised text) now j = refl
settle-id cancelled now j = refl

settle-finished : (o : Outcome) (now : ℕ) (j : JobRecord) → is_running (settle o now j) ≡ false
unfolding settle
settle-finished (returned v) now j = refl
settle-finished (raised text) now j = refl
settle-finished cancelled now j = refl

settle_job-any :
    (id other : String) (o : Outcome) (now : ℕ) (js : List JobRecord)
    → any (has_id other) (settle_job id o now js) ≡ any (has_id other) js
unfolding settle_job
settle_job-any id other o now [] = refl
settle_job-any id other o now (j ∷ js) = elim (Bool-cases (has_id id j)) [
  | inl own ↦ rw (own, settle-id o now j)
  | inr differs ↦ rw (differs, settle_job-any id other o now js)
]

pub settle_job-Distinct :
    (id : String) (o : Outcome) (now : ℕ) (js : List JobRecord)
    → Distinct js
    → Distinct (settle_job id o now js)
unfolding settle_job
settle_job-Distinct id o now [] d = tt
settle_job-Distinct id o now (j ∷ js) d = elim (Bool-cases (has_id id j)) [
  | inl own ↦ rw (own, settle-id o now j) d
  | inr differs ↦
      rw differs ((settle_job-any id j.job_id o now js ∙ d.0, settle_job-Distinct id o now js d.1))
]

-- Of the running jobs, the one that has ended is gone.
pub settle_job-running :
    (id : String) (o : Outcome) (now : ℕ) (js : List JobRecord)
    → Distinct js
    → keep is_running (settle_job id o now js) ≡ remove_job id (keep is_running js)
unfolding settle_job remove_job
settle_job-running id o now [] d = refl
settle_job-running id o now (j ∷ js) d = elim (Bool-cases (has_id id j)) [
  | inl own ↦
      let alone : any (has_id id) js ≡ false = rw (sym ((eq_iff _ _).0 own)) (d.0) in
      let rest =
        keep-none (has_id id) (keep is_running js) (any-keep (has_id id) is_running js alone) in
      ground (arith, own, settle-finished o now j, rest)
  | inr differs ↦ ground (arith, differs, settle_job-running id o now js d.1)
]

-- A new identifier is put at the end.
pub put_job-fresh :
    (new : JobRecord) (js : List JobRecord)
    → any (has_id new.job_id) js ≡ false
    → put_job new js ≡ js ++ new ∷ []
unfolding put_job
put_job-fresh new [] h = refl
put_job-fresh new (j ∷ js) h = ground (arith, h, put_job-fresh new js)

pub ==-comm : (a b : String) → (a == b) ≡ (b == a)
==-comm a b = elim (Bool-cases (a == b)) [
  | inl same ↦ same ∙ sym ((eq_iff b a).1 (sym ((eq_iff a b).0 same)))
  | inr other ↦ elim (Bool-cases (b == a)) [
    | inl same ↦ cc (sym ((eq_iff b a).0 same), eq_refl a)
    | inr too ↦ other ∙ sym too
  ]
]

pub append-Distinct :
    (new : JobRecord) (js : List JobRecord)
    → Distinct js
    → any (has_id new.job_id) js ≡ false
    → Distinct (js ++ new ∷ [])
append-Distinct new [] d h = (refl, tt)
append-Distinct new (j ∷ js) d h =
    let (differs, rest) = or-eq-false (has_id new.job_id j) _ h in
    (
      any-append (has_id j.job_id) js (new ∷ [])
          ∙ ground (arith, d.0, ==-comm j.job_id new.job_id, differs),
      append-Distinct new js d.1 rest,
    )
