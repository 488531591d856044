-- ===== src/Jobs/Evict.antt =====
-- The eviction of finished jobs: which jobs it keeps, and that the loop's bound is reached.
use kor_travel_docker_manage.Common.{
  keep-keep, ℕ, zero, suc, String, true, false, not, ◌≤◌, none, some, List, [], ◌∷◌, ◌≡◌, refl, sym,
  ◌∙◌, ◌==◌, eq_iff, eq_refl, arith, length, any, keep, leb, leb→le, Bool-cases, Option-cases, inl,
  inr,
}
use kor_travel_docker_manage.Jobs.{
  JobRecord, Limits, is_running, is_finished, has_id, find_job, remove_job, oldest, finished_at,
  is_expired, evict_loop, evict,
}
use kor_travel_docker_manage.Jobs.Table.{
  Distinct, Distinct-keep, find_job-any, remove_job-running, remove_job-fewer,
}

apart :
    (a b : String) (js : List JobRecord)
    → any (has_id a) js ≡ false
    → any (has_id b) js ≡ true
    → (a == b) ≡ false
apart a b js out there = elim (Bool-cases (a == b)) [
  | inl same ↦ cc (out, there, (eq_iff a b).0 same)
  | inr other ↦ other
]

-- A job found in the rest is found, since no identifier stands twice.
found-later :
    (j g : JobRecord) (js : List JobRecord)
    → Distinct (j ∷ js)
    → find_job g.job_id js ≡ some g
    → find_job g.job_id (j ∷ js) ≡ some g
unfolding find_job
found-later j g js d there =
    rw (apart j.job_id g.job_id js d.0 (find_job-any g.job_id js g there)) there

-- The job to evict is one that is found, and it has finished.
pub oldest-found :
    (js : List JobRecord) (f : JobRecord)
    → Distinct js
    → oldest js ≡ some f
    → (find_job f.job_id js ≡ some f) × (is_finished f ≡ true)
unfolding oldest find_job
oldest-found [] f d h = cc
oldest-found (j ∷ js) f d h = elim (Bool-cases (is_running j)) [
  | inl going ↦
      let (there, done) = oldest-found js f d.1 (ground (arith, going, h)) in
      (found-later j f js d there, done)
  | inr done ↦ elim (Option-cases (oldest js)) [
    | inl nothing ↦ first done (ground (arith, done, nothing, h))
    | inr (g, found) ↦ elim (Bool-cases (leb (finished_at j) (finished_at g))) [
      | inl earlier ↦ first done (ground (arith, done, found, earlier, h))
      | inr not_earlier ↦
          let e = found ∙ ground (arith, done, found, not_earlier, h) in
          let (there, finished) = oldest-found js f d.1 e in (found-later j f js d there, finished)
    ]
  ]
]
  where
    first :
        is_running j ≡ false
        → j ≡ f
        → (find_job f.job_id (j ∷ js) ≡ some f) × (is_finished f ≡ true)
    first done e = rw (sym e, eq_refl j.job_id) (refl, rw done refl)

oldest-none : (js : List JobRecord) → oldest js ≡ none → length (keep is_finished js) ≡ 0
unfolding oldest
oldest-none [] h = refl
oldest-none (j ∷ js) h = elim (Bool-cases (is_running j)) [
  | inl going ↦ ground (arith, going, h, oldest-none js)
  | inr done ↦ ground (arith, done, h)
]

module _ (most : ℕ) where
  pub evict_loop-running :
      (fuel : ℕ) (js : List JobRecord)
      → Distinct js
      → (keep is_running (evict_loop fuel most js) ≡ keep is_running js)
        × Distinct (evict_loop fuel most js)
  unfolding evict_loop remove_job
  evict_loop-running zero js d = (refl, d)
  evict_loop-running (suc fuel) js d = elim (Bool-cases (leb (length (keep is_finished js)) most)) [
    | inl fits ↦ rw fits (refl, d)
    | inr over ↦ elim (Option-cases (oldest js)) [
      | inl nothing ↦ rw (over, nothing) (refl, d)
      | inr (f, found) ↦
          let (there, done) = oldest-found js f d found in
          let (rest, distinct) =
            evict_loop-running fuel (remove_job f.job_id js)
              (Distinct-keep (λ j. not (has_id f.job_id j)) js d) in
          rw (over, found) (rest ∙ remove_job-running f.job_id js f d there done, distinct)
    ]
  ]

  -- As many turns as there are finished jobs are enough to get within the bound.
  pub evict_loop-fits :
      (fuel : ℕ) (js : List JobRecord)
      → Distinct js
      → length (keep is_finished js) ≤ fuel
      → length (keep is_finished (evict_loop fuel most js)) ≤ most
  unfolding evict_loop remove_job
  evict_loop-fits zero js d h = omega (arith, h)
  evict_loop-fits (suc fuel) js d h = elim (Bool-cases (leb (length (keep is_finished js)) most)) [
    | inl fits ↦ rw fits (leb→le _ _ fits)
    | inr over ↦ elim (Option-cases (oldest js)) [
      | inl nothing ↦ rw (over, nothing) (omega (arith, oldest-none js nothing))
      | inr (f, found) ↦
          let (there, done) = oldest-found js f d found in
          rw (over, found)
            (evict_loop-fits fuel _ (Distinct-keep (λ j. not (has_id f.job_id j)) js d)
              (omega (arith, h, remove_job-fewer f.job_id js f there done)))
    ]
  ]

-- The jobs that eviction keeps: all the running ones, in their order; and no more finished ones than
-- the limit.
pub record Evicts (c : Limits) (before after : List JobRecord) : Type 0 where
  pub running_kept : keep is_running after ≡ keep is_running before
  pub distinct : Distinct after
  pub fits : length (keep is_finished after) ≤ c.max_finished

expired-finished :
    (c : Limits) (now : ℕ) (j : JobRecord) → is_running j ≡ true → not (is_expired c now j) ≡ true
unfolding is_expired
expired-finished c now j h = rw h refl

-- Eviction never drops a running job and leaves at most `max_finished` finished ones, at any time.
pub evict_lem :
    (c : Limits) (now : ℕ) (js : List JobRecord) → Distinct js → Evicts c js (evict c now js)
unfolding evict
evict_lem c now js d =
    let live = keep (λ j. not (is_expired c now j)) js in
    let distinct = Distinct-keep (λ j. not (is_expired c now j)) js d in
    let fuel = length (keep is_finished live) in
    let (running_jobs, kept) = evict_loop-running c.max_finished fuel live distinct in
    record {
      running_kept =
          running_jobs
          ∙ keep-keep is_running (λ j. not (is_expired c now j)) js (expired-finished c now);
      distinct = kept;
      fits = evict_loop-fits c.max_finished fuel live distinct (omega arith);
    }
