-- ===== src/Signals/Resumed/HalfEnded.antt =====
-- A foreground pipeline that is stopped when its first stage may have ended already.
use unix_shell.Base.{
  ℕ, ◌≡◌, refl, ◌∙◌, ==_refl, inl, inr, Bool, false, List, ◌∷◌, ◌++◌, none, some, All,
}
use unix_shell.Base.Int.{pos}
use unix_shell.Cstring.{Text}
use unix_shell.Executor.{Status, suspended, job_stopped, wait_foreground_group, group_stopped}
use unix_shell.Executor.Waiting.{HasEnded, wait_loop-ended}
use unix_shell.Jobs.{JobsTable, running, stopped, new_job, jobs_add, jobs_find_by_pid}
use unix_shell.Jobs.Invariant.{IsTable}
use unix_shell.Jobs.Lookup.{job_of}
use unix_shell.Jobs.Laws.{IsLive, jobs_add_lem}
use unix_shell.Signals.{Report, sigchld_handler}
use unix_shell.Signals.Interleaving.{is_waiting}
use unix_shell.Signals.Resumed.{resume_job}
use unix_shell.Signals.Resumed.Orphaned.{job_of-resume_job, handled-unreported}

-- the job that is added for the group
added-stopped :
    (table : JobsTable) (pgid : ℕ) (label : Text)
    → IsTable table
    → ¬ All IsLive table.jobs
    → job_of (jobs_add table pgid label stopped).1 (pos table.next_id)
      ≡ some (new_job table.next_id pgid label stopped)
added-stopped table pgid label t free = elim (jobs_add_lem table pgid label stopped t) [
  | inl (full, _) ↦ absurd (free full)
  | inr (_, _, lookup) ↦ lookup table.next_id ∙ rw (==_refl table.next_id) refl
]

group_stopped-added :
    (table : JobsTable) (pgid : ℕ) (label : Text) (signal : ℕ)
    → jobs_find_by_pid table pgid ≡ none
    → (group_stopped table pgid label signal).1.0 ≡ (jobs_add table pgid label stopped).1
unfolding group_stopped job_stopped
group_stopped-added table pgid label signal e = rw e refl

-- Where the table has a free slot and no job of a foreground group, members of the group end, its
-- leader or others, and then one stops: once bg has resumed the job that is added for the group, it
-- is recorded as running, and it stays so whatever the handler reaps, unless a process with the
-- leader's id is among it.
pub half_ended :
    (interactive : Bool) (table : JobsTable) (pgid : ℕ) (label : Text) (signal : ℕ)
    (ended rest : List Status) (later : List Report)
    → IsTable table
    → ¬ All IsLive table.jobs
    → jobs_find_by_pid table pgid ≡ none
    → All HasEnded ended
    → is_waiting later pgid ≡ false
    → let (code, (table', printed)) =
        wait_foreground_group interactive table pgid label (ended ++ suspended signal ∷ rest) in
      job_of (sigchld_handler (resume_job (pos table.next_id) table') later) (pos table.next_id)
      ≡ some (new_job table.next_id pgid label running)
unfolding wait_foreground_group
half_ended interactive table pgid label signal ended rest later t free missing h silent =
    rw (wait_loop-ended interactive table pgid label signal ended rest 0 false h) (
      rw (group_stopped-added table pgid label signal missing) (
        handled-unreported (resume_job (pos table.next_id) (jobs_add table pgid label stopped).1)
          later table.next_id (new_job table.next_id pgid label running)
          (job_of-resume_job (jobs_add table pgid label stopped).1 table.next_id
            (new_job table.next_id pgid label stopped) (added-stopped table pgid label t free))
          silent))
