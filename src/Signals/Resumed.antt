-- ===== src/Signals/Resumed.antt =====
-- builtins.c: `fg` and `bg` among the steps of the shell, its handler and its children.
pub mod Held
pub mod Changed
pub mod Accounted
pub mod Followed
pub mod Orphaned
pub mod HalfEnded
use unix_shell.Base.{ℕ, ◌≡◌, ◌&&◌, true, none, some, All, if◌then◌else◌, Bool}
use unix_shell.Base.Int.{ℤ}
use unix_shell.Cstring.{Text}
use unix_shell.Jobs.{Job, JobsTable, running, is_stopped, write_found, jobs_find_by_id}
use unix_shell.Jobs.Reach.{set_state}
use unix_shell.Jobs.Lookup.{job_of}
use unix_shell.Signals.Leaders.{OtherBy}
use unix_shell.Signals.Interleaving.{
  State, Step, block, unblock, fork, add, wait, stop, give_up, child_ends, reap, notify, clear,
  initial, wait_foreground, stop_foreground,
}

-- `if (job->state == JOB_STOPPED) job->state = JOB_RUNNING`
abbrev pub resumed : Job → Job
resumed job = if is_stopped job.state then set_state running job else job

-- on the job that the id names
unfoldable pub resume_job : ℤ → JobsTable → JobsTable
resume_job id table = write_found (jobs_find_by_id table id) resumed table

abbrev pub resumed_by_bg : ℤ → State → State
resumed_by_bg id s = record s { jobs = resume_job id s.jobs }

-- `fg`, whose `wait_foreground_group` sees all children end
abbrev pub fg_to_end : ℤ → ℕ → State → State
fg_to_end id pid s = wait_foreground pid (record s { jobs = resume_job id s.jobs })

-- `fg`, whose `wait_foreground_group` sees a child stop
abbrev pub fg_to_stop : ℤ → Job → State → State
fg_to_stop id job s = stop_foreground job.pid job.command (record s { jobs = resume_job id s.jobs })

-- `fg` holds SIGCHLD blocked from its lookup to its return, so it is one step.
pub data Move (s : State) : State → Type 0 where
  shell : {t : State} → Step s t → Move s t
  bg : (id : ℤ) → s.blocked ≡ true → s.started ≡ none → Move s (resumed_by_bg id s)
  fg_ends :
      (id : ℤ) (job : Job)
      → s.blocked ≡ true
      → s.started ≡ none
      → job_of s.jobs id ≡ some job
      → Move s (fg_to_end id job.pid s)
  fg_stops :
      (id : ℤ) (job : Job)
      → s.blocked ≡ true
      → s.started ≡ none
      → job_of s.jobs id ≡ some job
      → Move s (fg_to_stop id job s)

abbrev pub used : Job → Bool
used j = j.in_use

abbrev pub halts : Job → Bool
halts j = j.in_use && is_stopped j.state

-- A child that stops lives; a new child has the id of no job in the table; and the leader of a
-- stopped job does not end before it is resumed.
unfoldable pub IsCalm : {s t : State} → Move s t → Type 0
IsCalm {s} (shell (fork pid b n dead silent)) = All (OtherBy used pid) s.jobs.jobs
IsCalm {s} (shell (stop pid label b e)) = s.alive pid ≡ true
IsCalm {s} (shell (child_ends pid status a)) = All (OtherBy halts pid) s.jobs.jobs
IsCalm {s} (fg_stops id job b n e) = s.alive job.pid ≡ true
IsCalm _ = Unit

pub data CalmRun : State → Type 0 where
  begin : CalmRun initial
  move : {s t : State} → CalmRun s → (m : Move s t) → IsCalm m → CalmRun t
