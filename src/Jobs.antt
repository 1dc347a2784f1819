-- ===== src/Jobs.antt =====
-- jobs.c and jobs.h: the table of background and stopped jobs.
-- A `job_t *` is the index of its slot. Job ids and process group ids are positive `int`s.
pub mod Slots
pub mod Invariant
pub mod Add
pub mod Lookup
pub mod Laws
pub mod Directory
pub mod Refine
pub mod Reach
pub mod Identity
mod Tests
use mathlib.Core.Option
use mathlib.Core.Option.{Option, none, some}
use unix_shell.Base.{
  ℕ, zero, suc, ◌+◌, Bool, true, false, not, ◌&&◌, List, [], ◌∷◌, ◌++◌, ◌==◌, if◌then◌else◌,
  replicate,
}
use unix_shell.Base.Int.{ℤ, pos, negsuc}
use unix_shell.Cstring.{Text, codes}
use unix_shell.Cstring.Format.{decimal, pad_right, truncated}

abbrev pub max_jobs : ℕ
max_jobs = 64

abbrev pub job_cmd_len : ℕ
job_cmd_len = 256

-- `job_state_t`
pub data JobState : Type 0 where
  running finished stopped : JobState

-- `job_t`
pub record Job : Type 0 where
  pub pid : ℕ
  pub job_id : ℕ
  pub state : JobState
  pub status : ℕ
  pub in_use : Bool
  pub command : Text

-- `jobs_table_t`
pub record JobsTable : Type 0 where
  pub jobs : List Job
  pub next_id : ℕ

-- a slot that `memset` has cleared (JOB_RUNNING is 0)
abbrev pub cleared : Job
cleared = record { pid = 0; job_id = 0; state = running; status = 0; in_use = false; command = [] }

unfoldable pub jobs_init : JobsTable
jobs_init = record { jobs = replicate max_jobs cleared; next_id = 1 }

-- The scan that all the functions share: the first slot that passes a test.
unfoldable pub find_slot : (Job → Bool) → List Job → Option ℕ
find_slot test [] = none
find_slot test (job ∷ jobs) = if test job then some 0 else Option.map suc (find_slot test jobs)

-- a write through a `job_t *`
unfoldable pub modify : ℕ → (Job → Job) → List Job → List Job
modify i f [] = []
modify zero f (job ∷ jobs) = f job ∷ jobs
modify (suc i) f (job ∷ jobs) = job ∷ modify i f jobs

unfoldable pub write_slot : ℕ → (Job → Job) → JobsTable → JobsTable
unfolding modify
write_slot i f table = record table { jobs = modify i f table.jobs }

abbrev pub is_running : JobState → Bool
is_running running = true
is_running _ = false

abbrev pub is_finished : JobState → Bool
is_finished finished = true
is_finished _ = false

abbrev pub is_stopped : JobState → Bool
is_stopped stopped = true
is_stopped _ = false

abbrev pub is_free : Job → Bool
is_free job = not job.in_use

abbrev pub new_job : ℕ → ℕ → Text → JobState → Job
new_job id pid command state = record {
  pid = pid;
  job_id = id;
  state = state;
  status = 0;
  in_use = true;
  command = truncated job_cmd_len command;
}

-- The assigned id, or -1 if the table is full.
unfoldable pub add_at : Option ℕ → JobsTable → ℕ → Text → JobState → ℤ × JobsTable
unfolding write_slot
add_at none table pid command state = (negsuc 0, table)
add_at (some i) table pid command state = (
  pos table.next_id,
  record (write_slot i (λ _. new_job table.next_id pid command state) table) {
    next_id = table.next_id + 1;
  },
)

unfoldable pub jobs_add : JobsTable → ℕ → Text → JobState → ℤ × JobsTable
unfolding add_at find_slot
jobs_add table = add_at (find_slot is_free table.jobs) table

-- a write through the pointer that a scan returned, if it returned one
unfoldable pub write_found : Option ℕ → (Job → Job) → JobsTable → JobsTable
unfolding write_slot
write_found none f table = table
write_found (some i) f table = write_slot i f table

abbrev pub runs_as : ℕ → Job → Bool
runs_as pid job = job.in_use && job.pid == pid && is_running job.state

unfoldable pub jobs_mark_done : JobsTable → ℕ → ℕ → JobsTable
unfolding write_found find_slot
jobs_mark_done table pid status =
    write_found (find_slot (runs_as pid) table.jobs)
      (λ job. record job { state = finished; status = status }) table

abbrev pub has_id : ℤ → Job → Bool
has_id (pos n) job = job.in_use && job.job_id == n
has_id (negsuc n) job = false

abbrev pub has_pid : ℕ → Job → Bool
has_pid pid job = job.in_use && job.pid == pid

unfoldable pub jobs_find_by_id : JobsTable → ℤ → Option ℕ
unfolding find_slot
jobs_find_by_id table id = find_slot (has_id id) table.jobs

unfoldable pub jobs_find_by_pid : JobsTable → ℕ → Option ℕ
unfolding find_slot
jobs_find_by_pid table pid = find_slot (has_pid pid) table.jobs

abbrev pub release : Job → Job
release job = record job { in_use = false }

unfoldable pub jobs_remove_by_id : JobsTable → ℤ → JobsTable
unfolding jobs_find_by_id write_found
jobs_remove_by_id table id = write_found (jobs_find_by_id table id) release table

unfoldable pub jobs_remove_by_pid : JobsTable → ℕ → JobsTable
unfolding jobs_find_by_pid write_found
jobs_remove_by_pid table pid = write_found (jobs_find_by_pid table pid) release table

unfoldable pub state_name : JobState → Text
state_name running = codes "Running"
state_name finished = codes "Done"
state_name stopped = codes "Stopped"

-- What a `printf` writes, a line each.
abbrev pub job_line : ℕ → Text → Text → Text
job_line id name command =
    b'[' ∷ (decimal id ++ (codes "]  " ++ (name ++ (codes "  " ++ (command ++ b'\n' ∷ [])))))

unfoldable pub print_jobs : List Job → List Text
unfolding state_name
print_jobs [] = []
print_jobs (job ∷ jobs) =
    let line = job_line job.job_id (pad_right 7 (state_name job.state)) job.command in
    let rest = print_jobs jobs in if job.in_use then line ∷ rest else rest

unfoldable pub jobs_print : JobsTable → List Text
unfolding print_jobs
jobs_print table = print_jobs table.jobs

-- a job whose end has not been reported
abbrev pub is_reportable : Job → Bool
is_reportable job = job.in_use && is_finished job.state

unfoldable pub notify_completed : List Job → List Text × List Job
notify_completed [] = ([], [])
notify_completed (job ∷ jobs) =
    let (lines, rest) = notify_completed jobs in
    if is_reportable job
    then (job_line job.job_id (codes "Done   ") job.command ∷ lines, release job ∷ rest)
    else (lines, job ∷ rest)

-- The lines that it prints, and the table that it leaves.
unfoldable pub jobs_notify_completed : JobsTable → List Text × JobsTable
unfolding notify_completed
jobs_notify_completed table =
    let (lines, jobs) = notify_completed table.jobs in (lines, record table { jobs = jobs })

unfoldable pub clear_done : List Job → List Job
clear_done [] = []
clear_done (job ∷ jobs) = (if is_reportable job then release job else job) ∷ clear_done jobs

unfoldable pub jobs_clear_done : JobsTable → JobsTable
unfolding clear_done
jobs_clear_done table = record table { jobs = clear_done table.jobs }
