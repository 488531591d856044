-- ===== src/Jobs/Client.antt =====
-- What a client of the job runner sees: a running job stays to be found, its end frees its kind and
-- key, and a job that was admitted is found by its identifier and as the latest.
use kor_travel_docker_manage.Common.{
  any-keep, keep-append, ℕ, String, Bool, true, false, not, ◌<◌, none, some, List, [], ◌∷◌, ◌++◌,
  ◌≡◌, refl, sym, ◌∙◌, ◌==◌, any, keep, length, length-keep, last?-append, leb, Bool-cases,
  Option-cases, inl, inr, arith, eq_iff, eq_refl,
}
use kor_travel_docker_manage.Common.Result.{ok, OnOk, OnOk-ok, OnOk-guard}
use kor_travel_docker_manage.Jobs.{
  JobRecord, JobRunner, Limits, Outcome, find_job, put_job, new_job, admit, finish, evict,
  settle_job, is_running, is_for, has_id, remove_job, get_job, latest,
}
use kor_travel_docker_manage.Jobs.Table.{
  ==-comm, Distinct, find_job-any, find_job-none, put_job-fresh, settle_job-Distinct,
  settle_job-running,
}
use kor_travel_docker_manage.Jobs.Evict.{evict_lem}
use kor_travel_docker_manage.Jobs.Runs.{SingleFlight, IsRunner}

found-running :
    (id : String) (js : List JobRecord) (j : JobRecord)
    → find_job id js ≡ some j
    → is_running j ≡ true
    → find_job id (keep is_running js) ≡ some j
unfolding find_job
found-running id [] j h run = h
found-running id (k ∷ js) j h run = elim (Bool-cases (has_id id k)) [
  | inl own ↦ ground (arith, own, h, run)
  | inr other ↦ ground (arith, other, h, found-running id js j, run)
]

running-found :
    (id : String) (js : List JobRecord) (j : JobRecord)
    → Distinct js
    → find_job id (keep is_running js) ≡ some j
    → find_job id js ≡ some j
unfolding find_job
running-found id [] j d h = h
running-found id (k ∷ js) j d h = elim (Bool-cases (has_id id k)) [
  | inl own ↦ elim (Bool-cases (is_running k)) [
    | inl going ↦ ground (arith, own, h, going)
    | inr done ↦
        let alone : any (has_id id) js ≡ false = rw (sym ((eq_iff _ _).0 own)) (d.0) in
        let there = find_job-any id (keep is_running js) j (ground (arith, h, done)) in
        cc (there, any-keep (has_id id) is_running js alone)
  ]
  | inr other ↦ ground (arith, other, h, running-found id js j d.1)
]

-- The search passes over the jobs with another identifier that have been removed.
found-removed :
    (id other : String) (js : List JobRecord) (j : JobRecord)
    → (id == other) ≡ false
    → find_job id js ≡ some j
    → find_job id (remove_job other js) ≡ some j
unfolding find_job remove_job
found-removed id other [] j apart h = h
found-removed id other (k ∷ js) j apart h = elim (Bool-cases (has_id other k)) [
  | inl gone ↦
      let other_one : (other == id) ≡ false = ==-comm other id ∙ apart in
      let passed : has_id id k ≡ false = rw ((eq_iff _ _).0 gone) other_one in
      ground (arith, gone, passed, h, found-removed id other js j apart)
  | inr stays ↦ ground (arith, stays, h, found-removed id other js j apart)
]

-- A test that fails on the whole list fails on the job that is found.
found-test :
    (p : JobRecord → Bool) (id : String) (js : List JobRecord) (j : JobRecord)
    → any p js ≡ false
    → find_job id js ≡ some j
    → p j ≡ false
unfolding find_job
found-test p id [] j out h = cc
found-test p id (k ∷ js) j out h = ground (arith, out, h, found-test p id js j)

removed-fewer :
    (id : String) (js : List JobRecord)
    → any (has_id id) js ≡ true
    → length (remove_job id js) < length js
unfolding remove_job
removed-fewer id [] h = cc
removed-fewer id (j ∷ js) h =
    ground (arith, h, removed-fewer id js, length-keep (λ k. not (has_id id k)) js)

-- Without the job, none is left for its kind and key.
removed-frees :
    (id : String) (js : List JobRecord) (j : JobRecord)
    → SingleFlight js
    → find_job id js ≡ some j
    → any (is_for j.kind j.key) (remove_job id js) ≡ false
unfolding find_job remove_job
removed-frees id [] j s h = refl
removed-frees id (k ∷ js) j s h = elim (Bool-cases (has_id id k)) [
  | inl own ↦
      let same : k ≡ j = ground (arith, own, h) in
      rw own (any-keep (is_for j.kind j.key) (λ x. not (has_id id x)) js (rw (sym same) (s.0)))
  | inr other ↦
      let there : find_job id js ≡ some j = ground (arith, other, h) in
      let differs : is_for k.kind k.key j ≡ false =
        found-test (is_for k.kind k.key) id js j s.0 there in
      let rest = removed-frees id js j s.1 there in
      ground (arith, other, differs, rest, ==-comm k.kind j.kind, ==-comm k.key j.key)
]

module _ (c : Limits) where
  -- A running job is found, unchanged, after another one has ended, whatever is evicted then.
  pub running_survives :
      (r : JobRunner) (id other : String) (j : JobRecord) (o : Outcome) (now later : ℕ)
      → IsRunner c r
      → find_job id r.jobs ≡ some j
      → is_running j ≡ true
      → (id == other) ≡ false
      → find_job id (finish c r other o now later).jobs ≡ some j
  unfolding finish
  running_survives r id other j o now later v h run apart =
      elim (Option-cases (find_job other r.jobs)) [
        | inl missing ↦ rw (finish, missing) h
        | inr (k, found) ↦
            let d = settle_job-Distinct other o now r.jobs v.distinct in
            let e = evict_lem c later (settle_job other o now r.jobs) d in
            let runs = e.running_kept ∙ settle_job-running other o now r.jobs v.distinct in
            rw (finish, found)
              (running-found id (evict c later (settle_job other o now r.jobs)) j e.distinct (
                rw runs (
                  found-removed id other (keep is_running r.jobs) j apart
                    (found-running id r.jobs j h run))))
      ]

  -- When a running job has ended, however it ended, a new job for its kind and key is admitted, unless
  -- the runner is shutting down.
  pub resubmit :
      (r : JobRunner) (id new : String) (j : JobRecord) (o : Outcome) (now later start : ℕ)
      → IsRunner c r
      → r.is_closed ≡ false
      → find_job id r.jobs ≡ some j
      → is_running j ≡ true
      → (s : JobRunner) × (admit c (finish c r id o now later) j.kind j.key new start
          ≡ ok (s, new_job new j.kind j.key start))
  unfolding admit finish
  resubmit r id new j o now later start v opened h run =
      let d = settle_job-Distinct id o now r.jobs v.distinct in
      let e = evict_lem c later (settle_job id o now r.jobs) d in
      let runs = e.running_kept ∙ settle_job-running id o now r.jobs v.distinct in
      let there = found-running id r.jobs j h run in
      let frees = removed-frees id (keep is_running r.jobs) j v.single_flight there in
      let fewer = removed-fewer id (keep is_running r.jobs) (find_job-any id _ j there) in
      let after : JobRunner = finish c r id o now later in
      (
        record after { jobs = put_job (new_job new j.kind j.key start) after.jobs },
        rw (finish, h, opened, runs, frees) (ground (arith, fewer, v.running_fits)),
      )

  found-last :
      (id : String) (js : List JobRecord) (new : JobRecord)
      → find_job id js ≡ none
      → has_id id new ≡ true
      → find_job id (js ++ new ∷ []) ≡ some new
  unfolding find_job
  found-last id [] new h own = rw own refl
  found-last id (k ∷ js) new h own = ground (arith, h, found-last id js new, own)

  admit-found :
      (r : JobRunner) (kind key id : String) (now : ℕ)
      → find_job id r.jobs ≡ none
      → OnOk
          (λ x.
            (is_running x.1 ≡ true)
            × (get_job x.0 id kind key ≡ ok x.1)
            × (latest x.0 kind key ≡ some x.1))
          (admit c r kind key id now)
  unfolding admit get_job latest
  admit-found r kind key id now fresh =
      let new = new_job id kind key now in
      let jobs = put_job-fresh new r.jobs (find_job-none id r.jobs fresh) in
      OnOk-guard (not r.is_closed) _ _ λ opened.
        OnOk-guard (not (any (is_for kind key) (keep is_running r.jobs))) _ _ λ alone.
          OnOk-guard (not (leb c.max_running (length (keep is_running r.jobs)))) _ _ λ room.
            OnOk-ok _ (
              refl,
              rw (
                jobs,
                get_job,
                found-last id r.jobs new fresh (eq_refl id),
                eq_refl kind,
                eq_refl key,
              ),
              rw
                  (
                    jobs,
                    latest,
                    keep-append (is_for kind key) r.jobs (new ∷ []),
                    eq_refl kind,
                    eq_refl key,
                  )
                  (last?-append (keep (is_for kind key) r.jobs) new),
            )

  -- A job that is admitted under a new identifier is running; it is found under its identifier, kind
  -- and key, and it is the latest of its kind and key.
  pub admitted_is_found :
      (r s : JobRunner) (kind key id : String) (j : JobRecord) (now : ℕ)
      → find_job id r.jobs ≡ none
      → admit c r kind key id now ≡ ok (s, j)
      → (is_running j ≡ true) × (get_job s id kind key ≡ ok j) × (latest s kind key ≡ some j)
  admitted_is_found r s kind key id j now fresh h =
      (admit-found r kind key id now fresh).at (s, j) h
