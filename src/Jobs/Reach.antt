-- ===== src/Jobs/Reach.antt =====
-- The calls of jobs.c as steps of the table, in any order: those of the shell's own code, and those
-- of the SIGCHLD handler in between.
use unix_shell.Base.{ℕ, refl}
use unix_shell.Base.Int.{ℤ}
use unix_shell.Cstring.{Text}
use unix_shell.Jobs.{
  Job, JobState, JobsTable, write_found, has_id, has_pid, jobs_init, jobs_add, jobs_mark_done,
  jobs_find_by_id, jobs_find_by_pid, jobs_remove_by_id, jobs_remove_by_pid, jobs_notify_completed,
  jobs_clear_done,
}
use unix_shell.Jobs.Invariant.{
  IsTable, write_found-IsTable, jobs_mark_done-IsTable, jobs_remove_by_id-IsTable,
  jobs_remove_by_pid-IsTable, jobs_notify_completed-IsTable, jobs_clear_done-IsTable,
}
use unix_shell.Jobs.Add.{jobs_init-IsTable, jobs_add-IsTable}

-- `job->state = state`
abbrev pub set_state : JobState → Job → Job
set_state state job = record job { state = state }

-- The last two are the writes of `fg`, `bg` and `wait_foreground_group` through a found pointer.
pub data Step (table : JobsTable) : JobsTable → Type 0 where
  add :
      (pid : ℕ) (command : Text) (state : JobState)
      → Step table (jobs_add table pid command state).1
  mark_done : (pid status : ℕ) → Step table (jobs_mark_done table pid status)
  remove_by_id : (id : ℤ) → Step table (jobs_remove_by_id table id)
  remove_by_pid : (pid : ℕ) → Step table (jobs_remove_by_pid table pid)
  notify : Step table (jobs_notify_completed table).1
  clear : Step table (jobs_clear_done table)
  set_by_id :
      (id : ℤ) (state : JobState)
      → Step table (write_found (jobs_find_by_id table id) (set_state state) table)
  set_by_pid :
      (pid : ℕ) (state : JobState)
      → Step table (write_found (jobs_find_by_pid table pid) (set_state state) table)

pub data Reach : JobsTable → Type 0 where
  init : Reach jobs_init
  next : {t u : JobsTable} → Reach t → Step t u → Reach u

Step-IsTable : {t u : JobsTable} → Step t u → IsTable t → IsTable u
Step-IsTable {t} (add pid command state) h = jobs_add-IsTable t pid command state h
Step-IsTable {t} (mark_done pid status) h = jobs_mark_done-IsTable t pid status h
Step-IsTable {t} (remove_by_id id) h = jobs_remove_by_id-IsTable t id h
Step-IsTable {t} (remove_by_pid pid) h = jobs_remove_by_pid-IsTable t pid h
Step-IsTable {t} notify h = jobs_notify_completed-IsTable t h
Step-IsTable {t} clear h = jobs_clear_done-IsTable t h
Step-IsTable {t} (set_by_id id state) h =
    unfold jobs_find_by_id in
    write_found-IsTable (has_id id) (set_state state) t (λ j. (λ u. u, refl, refl)) h
Step-IsTable {t} (set_by_pid pid state) h =
    unfold jobs_find_by_pid in
    write_found-IsTable (has_pid pid) (set_state state) t (λ j. (λ u. u, refl, refl)) h

-- Whatever the shell and its handler call in whatever order, starting from `jobs_init`, the table
-- has its 64 slots, the live jobs have different ids, each of them assigned before, and every label
-- fits its buffer.
pub Reach-IsTable : {t : JobsTable} → Reach t → IsTable t
Reach-IsTable init = jobs_init-IsTable
Reach-IsTable (next r s) = Step-IsTable s (Reach-IsTable r)
