-- ===== src/Jobs/Tests.antt =====
-- The jobs table run on concrete jobs, and its theorems at them.
use unix_shell.Base.{ℕ, ◌≡◌, refl, ◌⊎◌, [], ◌∷◌, some, All}
use unix_shell.Base.Int.{pos, negsuc}
use unix_shell.Cstring.{codes}
use unix_shell.Jobs.{
  running, finished, stopped, JobsTable, runs_as, new_job, jobs_init, jobs_add, jobs_mark_done,
  jobs_find_by_id, jobs_remove_by_pid, jobs_notify_completed, jobs_clear_done, jobs_print,
}
use unix_shell.Cstring.Format.{decimal}
use unix_shell.Jobs.Slots.{first}
use unix_shell.Jobs.Lookup.{job_of, job_by_pid}
use unix_shell.Base.{◌<◌, arith}
use unix_shell.Jobs.Identity.{IsSame, Later, now, call, Later-IsSame}
use unix_shell.Jobs.Reach.{clear}
use unix_shell.Jobs.Reach.{Reach, init, next, add, mark_done, Reach-IsTable}
use unix_shell.Jobs.Invariant.{IsTable}
use unix_shell.Jobs.Laws.{
  IsLive, lookup_added, overriding, without, jobs_add_lem, job_of-jobs_mark_done,
  job_of-jobs_remove_by_pid,
}

-- a job in the background and a stopped one
abbrev one : JobsTable
one = (jobs_add jobs_init 500 (codes "sleep 5") running).1

abbrev two : JobsTable
two = (jobs_add one 600 (codes "vi") stopped).1

ids : ((jobs_add one 600 (codes "vi") stopped).0 ≡ pos 2) × (jobs_find_by_id two (pos 2) ≡ some 1)
unfolding jobs_init jobs_add jobs_find_by_id
ids = (refl, refl)

listing : jobs_print two ≡ codes "[1]  Running  sleep 5\n" ∷ codes "[2]  Stopped  vi\n" ∷ []
unfolding jobs_init jobs_add jobs_print decimal
listing = refl

notice : (jobs_notify_completed (jobs_mark_done two 500 0)).0 ≡ codes "[1]  Done     sleep 5\n" ∷ []
unfolding jobs_init jobs_add jobs_mark_done jobs_notify_completed decimal
notice = refl

reached : Reach two
reached = next (next init (add 500 (codes "sleep 5") running)) (add 600 (codes "vi") stopped)

Reach-IsTable_example : IsTable two
Reach-IsTable_example = Reach-IsTable reached

jobs_add_lem_example :
    All IsLive two.jobs × (jobs_add two 700 (codes "top") running ≡ (negsuc 0, two))
    ⊎ ¬ All IsLive two.jobs
      × ((jobs_add two 700 (codes "top") running).0 ≡ pos two.next_id)
      × ((n : ℕ)
          → job_of (jobs_add two 700 (codes "top") running).1 (pos n)
            ≡ lookup_added two (new_job two.next_id 700 (codes "top") running) n)
jobs_add_lem_example = jobs_add_lem two 700 (codes "top") running (Reach-IsTable reached)

job_of-jobs_mark_done_example :
    job_of (jobs_mark_done two 500 9) (pos 1)
    ≡ overriding
        (first (runs_as 500) two.jobs)
        (λ j. record j { state = finished; status = 9 })
        1
        (job_of two (pos 1))
job_of-jobs_mark_done_example = job_of-jobs_mark_done two 500 9 1 (Reach-IsTable reached)

job_of-jobs_remove_by_pid_example :
    job_of (jobs_remove_by_pid two 600) (pos 2)
    ≡ without (job_by_pid two 600) 2 (job_of two (pos 2))
job_of-jobs_remove_by_pid_example = job_of-jobs_remove_by_pid two 600 2 (Reach-IsTable reached)

-- The first job ends and is cleared, and a third one is added.
cleared_and_more :
    Later two (jobs_add (jobs_clear_done (jobs_mark_done two 500 0)) 700 (codes "top") running).1
cleared_and_more = call (call (call now (mark_done 500 0)) clear) (add 700 (codes "top") running)

two_ids : 1 < two.next_id
unfolding jobs_init jobs_add
two_ids = omega arith

Later-IsSame_example : IsSame (job_of two (pos 1)) (
    job_of
      (jobs_add (jobs_clear_done (jobs_mark_done two 500 0)) 700 (codes "top") running).1
      (pos 1))
Later-IsSame_example = Later-IsSame 1 reached cleared_and_more two_ids
