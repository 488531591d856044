-- ===== src/Tests/OfJobs.antt =====
-- The theorems on the job runner, applied to a runner with one job.
use kor_travel_docker_manage.Common.{ℕ, String, false, some, List, [], ◌∷◌, ◌≡◌, refl}
use kor_travel_docker_manage.Common.Result.{ok}
use kor_travel_docker_manage.Json.{null, contains}
use kor_travel_docker_manage.Jobs.{
  JobRecord, JobRunner, succeeded, Limits, returned, raised, cancelled, new_runner, new_job,
  find_job, admit, finish, evict, keep_task, put_job,
}
use kor_travel_docker_manage.Jobs.Table.{Distinct}
use kor_travel_docker_manage.Jobs.Evict.{Evicts, evict_lem}
use kor_travel_docker_manage.Jobs.Runs.{IsRunner}
use kor_travel_docker_manage.Jobs.Reach.{
  Reachable, start, next, admitted, task_kept, ended, reachable-IsRunner,
}
use kor_travel_docker_manage.Jobs.Client.{running_survives, resubmit}

-- The limits of the module, with a short list of finished jobs.
abbrev limits : Limits
limits = record { max_finished = 1; finished_ttl_seconds = 86400; max_running = 2 }

abbrev dump : JobRecord
dump = new_job "id-1" "backup" "map" 100

abbrev other_dump : JobRecord
other_dump = new_job "id-2" "backup" "pinvi" 105

abbrev one_job : JobRunner
one_job = record { jobs = dump ∷ []; tasks = []; is_closed = false }

abbrev two_jobs : JobRunner
two_jobs = record { jobs = dump ∷ other_dump ∷ []; tasks = "id-1" ∷ []; is_closed = false }

admits : admit limits new_runner "backup" "map" "id-1" 100 ≡ ok (one_job, dump)
unfolding admit put_job
admits = refl

one_job-Reachable : Reachable limits one_job
unfolding find_job
one_job-Reachable = next start (admitted "backup" "map" "id-1" 100 refl admits)

with_task-Reachable : Reachable limits (record one_job { tasks = "id-1" ∷ [] })
unfolding keep_task contains
with_task-Reachable = next one_job-Reachable (task_kept "id-1")

admits_second :
    admit limits (record one_job { tasks = "id-1" ∷ [] }) "backup" "pinvi" "id-2" 105
    ≡ ok (two_jobs, other_dump)
unfolding admit put_job
admits_second = refl

two_jobs-Reachable : Reachable limits two_jobs
unfolding find_job
two_jobs-Reachable =
    next with_task-Reachable (admitted "backup" "pinvi" "id-2" 105 refl admits_second)

two_jobs-IsRunner : IsRunner limits two_jobs
two_jobs-IsRunner = reachable-IsRunner limits two_jobs-Reachable

reachable-IsRunner_example : IsRunner limits (finish limits two_jobs "id-1" cancelled 200 200)
reachable-IsRunner_example =
    reachable-IsRunner limits (next two_jobs-Reachable (ended "id-1" cancelled 200 200))

abbrev ended_job : String → ℕ → JobRecord
ended_job id at = record dump {
  job_id = id;
  state = succeeded;
  finished_at_unix = some at;
  result = some null;
}

abbrev three_jobs : List JobRecord
three_jobs = ended_job "id-7" 150 ∷ other_dump ∷ ended_job "id-8" 140 ∷ []

three_jobs-Distinct : Distinct three_jobs
three_jobs-Distinct = (refl, (refl, (refl, tt)))

-- The job that ended first is dropped.
evicts : evict limits 300 three_jobs ≡ ended_job "id-7" 150 ∷ other_dump ∷ []
unfolding evict
evicts = refl

evict_lem_example : Evicts limits three_jobs (evict limits 300 three_jobs)
evict_lem_example = evict_lem limits 300 three_jobs three_jobs-Distinct

running_survives_example :
    find_job "id-2" (finish limits two_jobs "id-1" (returned null) 200 200).jobs ≡ some other_dump
unfolding find_job
running_survives_example =
    running_survives limits two_jobs "id-2" "id-1" other_dump (returned null) 200 200
      two_jobs-IsRunner refl refl refl

resubmit_example :
    (s : JobRunner) × (admit limits
        (finish limits two_jobs "id-1" (raised "OSError: disk") 200 200)
        "backup"
        "map"
        "id-3"
        210
      ≡ ok (s, new_job "id-3" "backup" "map" 210))
unfolding find_job
resubmit_example =
    resubmit limits two_jobs "id-1" "id-3" dump (raised "OSError: disk") 200 200 210
      two_jobs-IsRunner refl refl refl
