-- ===== src/Jobs.antt =====
-- backend/src/kor_travel_docker_manager/services/job_runner.py: the jobs that run in the
-- background. Each section under the runner's lock is one function of the runner's state; the
-- clock, the identifiers from `uuid.uuid4` and the outcome of the submitted function are arguments.
pub mod Evict
pub mod Table
pub mod Runs
pub mod Reach
pub mod Client
use kor_travel_docker_manage.Common.{
  ℕ, zero, suc, first_chars, String, Bool, true, false, ◌&&◌, ◌||◌, not, ◌+◌, Option, none, some,
  List, [], ◌∷◌, ◌++◌, ◌==◌, length, any, keep, last?, leb, ltb, map, if◌then◌else◌,
}
use kor_travel_docker_manage.Common.Result.{Result, ok, err, ◌>>=◌, ◌>>◌, guard}
use kor_travel_docker_manage.Json.{Json, contains}

pub data JobState : Type 0 where
  running succeeded failed : JobState

-- JobConflictError with its three messages, JobNotFoundError, and the RuntimeError of reset
pub data JobError : Type 0 where
  shutting_down already_running too_many_running not_found cannot_reset : JobError

pub record JobRecord : Type 0 where
  pub job_id : String
  pub kind : String
  pub key : String
  pub state : JobState
  pub started_at_unix : ℕ
  pub finished_at_unix : Option ℕ
  pub result : Option Json
  pub error : Option String

-- The arguments of JobRunner(...).
pub record Limits : Type 0 where
  pub max_finished : ℕ
  pub finished_ttl_seconds : ℕ
  pub max_running : ℕ

-- `jobs` is the dictionary by job id, in the order of insertion; `tasks` holds the keys of the other
-- dictionary, whose values are the event loop's.
pub record JobRunner : Type 0 where
  pub jobs : List JobRecord
  pub tasks : List String
  pub is_closed : Bool

abbrev pub new_runner : JobRunner
new_runner = record { jobs = []; tasks = []; is_closed = false }

abbrev pub is_running : JobRecord → Bool
is_running j = elim j.state [ running ↦ true | succeeded ↦ false | failed ↦ false ]

abbrev pub is_finished : JobRecord → Bool
is_finished j = not (is_running j)

abbrev pub has_id : String → JobRecord → Bool
has_id id j = j.job_id == id

abbrev pub is_for : (kind key : String) → JobRecord → Bool
is_for kind key j = j.kind == kind && j.key == key

-- self._jobs.get(job_id)
unfoldable pub find_job : String → List JobRecord → Option JobRecord
find_job id [] = none
find_job id (j ∷ js) = if has_id id j then some j else find_job id js

-- self._jobs.pop(job_id, None), and `del self._jobs[job_id]` where it is there
unfoldable pub remove_job : String → List JobRecord → List JobRecord
remove_job id js = keep (λ j. not (has_id id j)) js

-- self._jobs[record.job_id] = record
unfoldable pub put_job : JobRecord → List JobRecord → List JobRecord
put_job new [] = new ∷ []
put_job new (j ∷ js) =
    let rest = put_job new js in if has_id new.job_id j then new ∷ js else j ∷ rest

-- `record.finished_at_unix or 0`
abbrev pub finished_at : JobRecord → ℕ
finished_at j = elim j.finished_at_unix [ none ↦ 0 | some t ↦ t ]

-- `finished_at_unix <= now - ttl` of a job that is not running
unfoldable pub is_expired : Limits → ℕ → JobRecord → Bool
is_expired c now j =
    is_finished j
    && elim j.finished_at_unix [ none ↦ false | some t ↦ leb (t + c.finished_ttl_seconds) now ]

-- `min(finished, key=...)`: the first of the least ones
unfoldable pub oldest : List JobRecord → Option JobRecord
oldest [] = none
oldest (j ∷ js) = if is_running j then oldest js else elim (oldest js) [
  | none ↦ some j
  | some f ↦ if leb (finished_at j) (finished_at f) then some j else some f
]

-- The `while True` loop of _evict_locked.
unfoldable pub evict_loop : ℕ → ℕ → List JobRecord → List JobRecord
unfolding remove_job oldest
evict_loop zero most js = js
evict_loop (suc fuel) most js =
    if leb (length (keep is_finished js)) most
    then js
    else elim (oldest js) [ none ↦ js | some f ↦ evict_loop fuel most (remove_job f.job_id js) ]

-- JobRunner._evict_locked; each turn of the loop removes a finished job, so their number is enough
-- fuel.
unfoldable pub evict : Limits → ℕ → List JobRecord → List JobRecord
unfolding is_expired evict_loop
evict c now js =
    let live = keep (λ j. not (is_expired c now j)) js in
    evict_loop (length (keep is_finished live)) c.max_finished live

abbrev pub new_job : (id kind key : String) → ℕ → JobRecord
new_job id kind key now = record {
  job_id = id;
  kind = kind;
  key = key;
  state = running;
  started_at_unix = now;
  finished_at_unix = none;
  result = none;
  error = none;
}

-- The first section of submit.
unfoldable pub admit :
    Limits → JobRunner → (kind key id : String) → ℕ → Result JobError (JobRunner × JobRecord)
unfolding put_job
admit c r kind key id now = do
  guard (not r.is_closed) shutting_down
  guard (not (any (is_for kind key) (keep is_running r.jobs))) already_running
  guard (not (leb c.max_running (length (keep is_running r.jobs)))) too_many_running
  ok (record r { jobs = put_job (new_job id kind key now) r.jobs }, new_job id kind key now)

-- submit where `asyncio.create_task` raises: the record is taken back.
unfoldable pub withdraw : JobRunner → String → JobRunner
unfolding remove_job
withdraw r id = record r { jobs = remove_job id r.jobs }

-- The last section of submit: `self._tasks[record.job_id] = task`
unfoldable pub keep_task : JobRunner → String → JobRunner
keep_task r id = record r { tasks = if contains id r.tasks then r.tasks else r.tasks ++ id ∷ [] }

-- The `finally` of _supervise: `self._tasks.pop(job_id, None)`
unfoldable pub drop_task : JobRunner → String → JobRunner
drop_task r id = record r { tasks = keep (λ t. not (t == id)) r.tasks }

-- How `asyncio.to_thread(run)` ends; `raised` holds the text "<type>: <message>".
pub data Outcome : Type 0 where
  returned : Json → Outcome
  raised : String → Outcome
  cancelled : Outcome

abbrev pub max_error_length : ℕ
max_error_length = 2000

-- The record that _supervise and _finish leave behind.
unfoldable pub settle : Outcome → ℕ → JobRecord → JobRecord
settle (returned v) now j = record j {
  state = succeeded;
  finished_at_unix = some now;
  result = some v;
  error = none;
}
settle (raised text) now j = record j {
  state = failed;
  finished_at_unix = some now;
  result = none;
  error = some (first_chars max_error_length text);
}
settle cancelled now j = record j {
  state = failed;
  finished_at_unix = some now;
  result = none;
  error = some "cancelled";
}

unfoldable pub settle_job : String → Outcome → ℕ → List JobRecord → List JobRecord
settle_job id o now [] = []
settle_job id o now (j ∷ js) =
    let rest = settle_job id o now js in if has_id id j then settle o now j ∷ js else j ∷ rest

-- JobRunner._finish, which reads the clock again for the eviction
unfoldable pub finish : Limits → JobRunner → String → Outcome → (now later : ℕ) → JobRunner
unfolding find_job evict settle_job
finish c r id o now later = elim (find_job id r.jobs) [
  | none ↦ r
  | some j ↦ record r { jobs = evict c later (settle_job id o now r.jobs) }
]

-- JobRunner.get
unfoldable pub get_job : JobRunner → (id kind key : String) → Result JobError JobRecord
unfolding find_job
get_job r id kind key = elim (find_job id r.jobs) [
  | none ↦ err not_found
  | some j ↦ if not (j.kind == kind) || not (j.key == key) then err not_found else ok j
]

-- JobRunner.latest
unfoldable pub latest : JobRunner → (kind key : String) → Option JobRecord
latest r kind key = last? (keep (is_for kind key) r.jobs)

-- The first section of shutdown, with the tasks to wait for and the jobs to look at afterwards.
unfoldable pub close : JobRunner → JobRunner × List String × List JobRecord
close r = (record r { is_closed = true }, r.tasks, keep is_running r.jobs)

-- The loop of shutdown, on the state after the wait: the jobs that a warning names.
unfoldable pub still_running : JobRunner → List JobRecord → List JobRecord
unfolding find_job
still_running r js =
    keep (λ j. elim (find_job j.job_id r.jobs) [ none ↦ false | some current ↦ is_running current ])
      js

-- JobRunner.reset
unfoldable pub reset : JobRunner → Result JobError JobRunner
reset r = do guard (not (any is_running r.jobs)) cannot_reset; ok new_runner
