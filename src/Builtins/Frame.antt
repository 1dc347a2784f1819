-- ===== src/Builtins/Frame.antt =====
-- What stays of the shell while a built-in runs, and the job table's invariant in the executor.
use unix_shell.Base.{
  ℕ, ◌≡◌, refl, sym, subst, ◌∙◌, Bool, true, false, ◌||◌, List, [], ◌∷◌, Option, none, some,
}
use unix_shell.Base.Int.{ℤ}
use unix_shell.Cstring.{Text}
use unix_shell.Jobs.{
  JobState, JobsTable, has_id, has_pid, stopped, write_found, jobs_find_by_id, jobs_find_by_pid,
}
use unix_shell.Jobs.Invariant.{IsTable, write_found-IsTable, jobs_remove_by_pid-IsTable}
use unix_shell.Jobs.Add.{jobs_add-IsTable}
use unix_shell.Jobs.Reach.{set_state}
use unix_shell.Executor.{Status, exited, signaled, suspended, group_stopped, job_stopped, wait_loop}
use unix_shell.Builtins.{Shell}

pub write_by_id-IsTable :
    (table : JobsTable) (id : ℤ) (state : JobState) (i : ℕ)
    → jobs_find_by_id table id ≡ some i
    → IsTable table
    → IsTable (write_found (some i) (set_state state) table)
unfolding jobs_find_by_id
write_by_id-IsTable table id state i e t =
    subst (λ found. IsTable (write_found found (set_state state) table)) e
      (write_found-IsTable (has_id id) (set_state state) table (λ j. (λ u. u, refl, refl)) t)

pub job_stopped-IsTable :
    (table : JobsTable) (pgid : ℕ) (label : Text) (found : Option ℕ)
    → jobs_find_by_pid table pgid ≡ found
    → IsTable table
    → IsTable (job_stopped found table pgid label).1
unfolding job_stopped jobs_find_by_pid
job_stopped-IsTable table pgid label none e t = jobs_add-IsTable table pgid label stopped t
job_stopped-IsTable table pgid label (some i) e t =
    subst (λ found. IsTable (write_found found (set_state stopped) table)) e
      (write_found-IsTable (has_pid pgid) (set_state stopped) table (λ j. (λ u. u, refl, refl)) t)

pub wait_loop-IsTable :
    (interactive : Bool) (table : JobsTable) (pgid : ℕ) (label : Text) (statuses : List Status)
    (code : ℕ) (interrupted : Bool)
    → IsTable table
    → IsTable (wait_loop interactive table pgid label code interrupted statuses).1.0
unfolding wait_loop group_stopped
wait_loop-IsTable interactive table pgid label [] code i t = jobs_remove_by_pid-IsTable table pgid t
wait_loop-IsTable interactive table pgid label (suspended s ∷ statuses) code i t =
    job_stopped-IsTable table pgid label _ refl t
wait_loop-IsTable interactive table pgid label (exited s ∷ statuses) code i t =
    wait_loop-IsTable interactive table pgid label statuses _ _ t
wait_loop-IsTable interactive table pgid label (signaled s ∷ statuses) code i t =
    wait_loop-IsTable interactive table pgid label statuses _ _ t

-- What stays as it is; `leaves` says whether the shell is asked to end.
pub record Frame (leaves : Bool) (before after : Shell) : Type 0 where
  pub history : after.history ≡ before.history
  pub last_status : after.last_status ≡ before.last_status
  pub interactive : after.interactive ≡ before.interactive
  pub shell_pgid : after.shell_pgid ≡ before.shell_pgid
  pub should_exit : after.should_exit ≡ (leaves || before.should_exit)
  pub table : IsTable before.jobs → IsTable after.jobs

pub Frame-jobs :
    (s : Shell) (jobs : JobsTable)
    → (IsTable s.jobs → IsTable jobs)
    → Frame false s (record s { jobs = jobs })
Frame-jobs s jobs t = record {
  history = refl;
  last_status = refl;
  interactive = refl;
  shell_pgid = refl;
  should_exit = refl;
  table = t;
}

pub Frame-refl : (s : Shell) → Frame false s s
Frame-refl s = Frame-jobs s s.jobs (λ t. t)

pub Frame-exit : (s : Shell) → Frame true s (record s { should_exit = true })
Frame-exit s = record {
  history = refl;
  last_status = refl;
  interactive = refl;
  shell_pgid = refl;
  should_exit = refl;
  table = λ t. t;
}

pub Frame-trans : {a b c : Shell} → Frame false a b → Frame false b c → Frame false a c
Frame-trans f g = record {
  history = g.history ∙ f.history;
  last_status = g.last_status ∙ f.last_status;
  interactive = g.interactive ∙ f.interactive;
  shell_pgid = g.shell_pgid ∙ f.shell_pgid;
  should_exit = g.should_exit ∙ f.should_exit;
  table = λ t. g.table (f.table t);
}

pub Frame-same : {a b : Shell} → b ≡ a → Frame false a b
Frame-same {a} e = subst (Frame false a) (sym e) (Frame-refl a)
