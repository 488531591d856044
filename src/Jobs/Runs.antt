-- ===== src/Jobs/Runs.antt =====
-- The invariant of the job runner, and that every section under its lock keeps it.
use kor_travel_docker_manage.Common.{
  any-keep, keep-swap, keep-append, ℕ, String, Bool, false, not, ◌≤◌, none, List, [], ◌∷◌, ◌++◌,
  ◌≡◌, refl, ◌∙◌, arith, length, length-keep, length-append, or-eq-false, any-append, any, keep,
  leb, Bool-cases, Option-cases, inl, inr,
}
use kor_travel_docker_manage.Common.Result.{OnOk, OnOk-ok, OnOk-guard}
use kor_travel_docker_manage.Jobs.{
  JobRecord, JobRunner, Limits, Outcome, is_running, is_finished, is_for, has_id, find_job,
  remove_job, new_job, settle_job, admit, withdraw, finish,
}
use kor_travel_docker_manage.Jobs.Table.{
  ==-comm, Distinct, Distinct-keep, find_job-none, put_job-fresh, append-Distinct,
  settle_job-Distinct, settle_job-running,
}
use kor_travel_docker_manage.Jobs.Evict.{evict_lem}

-- No two jobs are for the same kind and key.
abbrev pub SingleFlight : List JobRecord → Type 0
SingleFlight [] = Unit
SingleFlight (j ∷ js) = (any (is_for j.kind j.key) js ≡ false) × SingleFlight js

SingleFlight-keep :
    (q : JobRecord → Bool) (js : List JobRecord) → SingleFlight js → SingleFlight (keep q js)
SingleFlight-keep q [] h = tt
SingleFlight-keep q (j ∷ js) h = elim (Bool-cases (q j)) [
  | inl kept ↦ rw kept ((any-keep (is_for j.kind j.key) q js h.0, SingleFlight-keep q js h.1))
  | inr out ↦ rw out (SingleFlight-keep q js h.1)
]

SingleFlight-append :
    (new : JobRecord) (js : List JobRecord)
    → SingleFlight js
    → any (is_for new.kind new.key) js ≡ false
    → SingleFlight (js ++ new ∷ [])
SingleFlight-append new [] s h = (refl, tt)
SingleFlight-append new (j ∷ js) s h = (
  any-append (is_for j.kind j.key) js (new ∷ [])
      ∙ ground (arith, s.0, h, ==-comm new.kind j.kind, ==-comm new.key j.key),
  SingleFlight-append new js s.1 (or-eq-false _ _ h).1,
)

-- The invariant: identifiers are distinct, at most one job runs for a kind and a key, and neither
-- the running jobs nor the finished ones exceed their limit.
pub record IsRunner (c : Limits) (r : JobRunner) : Type 0 where
  pub distinct : Distinct r.jobs
  pub single_flight : SingleFlight (keep is_running r.jobs)
  pub running_fits : length (keep is_running r.jobs) ≤ c.max_running
  pub finished_fits : length (keep is_finished r.jobs) ≤ c.max_finished

module _ (c : Limits) where
  pub admit-IsRunner :
      (r : JobRunner) (kind key id : String) (now : ℕ)
      → find_job id r.jobs ≡ none
      → IsRunner c r
      → OnOk (λ s. IsRunner c s.0) (admit c r kind key id now)
  unfolding admit
  admit-IsRunner r kind key id now fresh v = OnOk-guard (not r.is_closed) _ _ λ open_still.
      OnOk-guard (not (any (is_for kind key) (keep is_running r.jobs))) _ _ λ alone.
        OnOk-guard (not (leb c.max_running (length (keep is_running r.jobs)))) _ _ λ room.
          let apart = find_job-none id r.jobs fresh in
          let jobs = put_job-fresh (new_job id kind key now) r.jobs apart in
          let runs = keep-append is_running r.jobs (new_job id kind key now ∷ []) in
          let done = keep-append is_finished r.jobs (new_job id kind key now ∷ []) in
          OnOk-ok _ (record {
            distinct = rw jobs (append-Distinct (new_job id kind key now) r.jobs v.distinct apart);
            single_flight =
                rw (jobs, runs)
                  (SingleFlight-append (new_job id kind key now) (keep is_running r.jobs)
                    v.single_flight (ground (arith, alone)));
            running_fits = rw (jobs, runs, length-append) (ground (arith, room));
            finished_fits = rw (jobs, done, length-append) (ground (arith, v.finished_fits));
          })

  pub finish-IsRunner :
      (r : JobRunner) (id : String) (o : Outcome) (now later : ℕ)
      → IsRunner c r
      → IsRunner c (finish c r id o now later)
  unfolding finish remove_job
  finish-IsRunner r id o now later v = elim (Option-cases (find_job id r.jobs)) [
    | inl missing ↦ rw (finish, missing) v
    | inr (j, found) ↦
        let d = settle_job-Distinct id o now r.jobs v.distinct in
        let e = evict_lem c later (settle_job id o now r.jobs) d in
        let runs = e.running_kept ∙ settle_job-running id o now r.jobs v.distinct in
        rw (finish, found)
          (record {
            distinct = e.distinct;
            single_flight = rw runs (
                SingleFlight-keep (λ i. not (has_id id i)) (keep is_running r.jobs)
                  v.single_flight);
            running_fits = rw runs (
                omega (
                  arith,
                  length-keep (λ i. not (has_id id i)) (keep is_running r.jobs),
                  v.running_fits,
                ));
            finished_fits = e.fits;
          })
  ]

  pub withdraw-IsRunner : (r : JobRunner) (id : String) → IsRunner c r → IsRunner c (withdraw r id)
  unfolding withdraw remove_job
  withdraw-IsRunner r id v =
      let test : JobRecord → Bool = λ i. not (has_id id i) in
      let runs = keep-swap is_running test r.jobs in
      let done = keep-swap is_finished test r.jobs in
      record {
        distinct = Distinct-keep test r.jobs v.distinct;
        single_flight = rw runs (SingleFlight-keep test (keep is_running r.jobs) v.single_flight);
        running_fits =
            rw runs (omega (arith, length-keep test (keep is_running r.jobs), v.running_fits));
        finished_fits =
            rw done (omega (arith, length-keep test (keep is_finished r.jobs), v.finished_fits));
      }
