-- ===== src/Jobs/Reach.antt =====
-- The runner as a state machine: the sections under its lock, in any order and at any time.
use kor_travel_docker_manage.Common.{ℕ, String, not, none, ◌≡◌, refl, any, arith}
use kor_travel_docker_manage.Common.Result.{ok, OnOk, OnOk-ok, OnOk-guard}
use kor_travel_docker_manage.Jobs.{
  JobRecord, JobRunner, Limits, Outcome, find_job, admit, withdraw, keep_task, drop_task, finish,
  close, reset, new_runner, is_running,
}
use kor_travel_docker_manage.Jobs.Runs.{
  IsRunner, admit-IsRunner, finish-IsRunner, withdraw-IsRunner,
}

-- The identifier of an admitted job is new, as `uuid.uuid4` makes it.
pub data Step (c : Limits) : JobRunner → JobRunner → Type 0 where
  admitted :
      {r s : JobRunner} {j : JobRecord} (kind key id : String) (now : ℕ)
      → find_job id r.jobs ≡ none
      → admit c r kind key id now ≡ ok (s, j)
      → Step c r s
  withdrawn : {r : JobRunner} (id : String) → Step c r (withdraw r id)
  task_kept : {r : JobRunner} (id : String) → Step c r (keep_task r id)
  ended :
      {r : JobRunner} (id : String) (o : Outcome) (now later : ℕ)
      → Step c r (finish c r id o now later)
  task_dropped : {r : JobRunner} (id : String) → Step c r (drop_task r id)
  closed : {r : JobRunner} → Step c r (close r).0
  was_reset : {r s : JobRunner} → reset r ≡ ok s → Step c r s

-- The states after any number of sections, from the empty runner.
pub data Reachable (c : Limits) : JobRunner → Type 0 where
  start : Reachable c new_runner
  next : {r s : JobRunner} → Reachable c r → Step c r s → Reachable c s

module _ (c : Limits) where
  new_runner-IsRunner : IsRunner c new_runner
  new_runner-IsRunner = record {
    distinct = tt;
    single_flight = tt;
    running_fits = omega arith;
    finished_fits = omega arith;
  }

  same_jobs-IsRunner : (r s : JobRunner) → s.jobs ≡ r.jobs → IsRunner c r → IsRunner c s
  same_jobs-IsRunner r s e v = record {
    distinct = rw e (v.distinct);
    single_flight = rw e (v.single_flight);
    running_fits = rw e (v.running_fits);
    finished_fits = rw e (v.finished_fits);
  }

  reset-OnOk : (r : JobRunner) → OnOk (IsRunner c) (reset r)
  unfolding reset
  reset-OnOk r = OnOk-guard (not (any is_running r.jobs)) _ _ λ idle. OnOk-ok _ new_runner-IsRunner

  step-IsRunner : {r s : JobRunner} → Step c r s → IsRunner c r → IsRunner c s
  unfolding keep_task drop_task close
  step-IsRunner {r} {s} (admitted {j} kind key id now fresh h) v =
      (admit-IsRunner c r kind key id now fresh v).at (s, j) h
  step-IsRunner {r} (withdrawn id) v = withdraw-IsRunner c r id v
  step-IsRunner {r} (task_kept id) v = same_jobs-IsRunner r (keep_task r id) refl v
  step-IsRunner {r} (ended id o now later) v = finish-IsRunner c r id o now later v
  step-IsRunner {r} (task_dropped id) v = same_jobs-IsRunner r (drop_task r id) refl v
  step-IsRunner {r} closed v = same_jobs-IsRunner r (close r).0 refl v
  step-IsRunner {r} {s} (was_reset h) v = (reset-OnOk r).at s h

  -- In every state that the runner can reach, whatever the order of its sections: no identifier
  -- stands twice, at most one job runs for a kind and a key, and the running and the finished jobs are
  -- within their limits.
  pub reachable-IsRunner : {r : JobRunner} → Reachable c r → IsRunner c r
  reachable-IsRunner start = new_runner-IsRunner
  reachable-IsRunner (next h step) = step-IsRunner step (reachable-IsRunner h)
