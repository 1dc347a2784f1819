-- ===== src/Builtins/Resume.antt =====
-- What `fg` and `bg` do to the job table, and what they return.
pub mod Table
use unix_shell.Base.{
  ℕ, zero, suc, ◌≡◌, ◌≢◌, ◌++◌, refl, sym, ap, ◌∙◌, inl, inr, true, false, List, [], ◌∷◌, none,
  some, if◌then◌else◌, get_or, Bool-cases, Option-cases, append_assoc, get_elem?,
}
use unix_shell.Base.Int.{ℤ, pos, negsuc, is_negative}
use unix_shell.Parser.{Command}
use unix_shell.Jobs.{
  Job, JobsTable, running, is_stopped, cleared, find_slot, has_id, jobs_find_by_id, write_found,
  modify,
}
use unix_shell.Jobs.Reach.{set_state}
use unix_shell.Jobs.Lookup.{job_of, job_of-first, first-negsuc}
use unix_shell.Executor.{Status, wait_foreground_group}
use unix_shell.Cstring.{codes}
use unix_shell.Builtins.{
  neg_of_ℕ, sigcont, out, print, Process, Run, Result, arg1, parse_job_id, terminal_to, resume,
  wait_job, foreground, fg_found, builtin_fg, background, bg_found, builtin_bg, no_such_job,
}
use unix_shell.Signals.Resumed.{resumed, resume_job}
use unix_shell.Builtins.Waits.{Waits, given, given-terminal_to, terminal_to_kept, waited-Waits}
use unix_shell.Builtins.Resume.Table.{
  resume_job-found, resume_job-missing, job_of-found, job_of-negative, negative-missing,
}

module _ {W : Type 0} (sys : Process W) where
  background-resume_job :
      (id : ℤ) (cmd : Command) (run : Run W)
      → (bg_found sys cmd (jobs_find_by_id run.shell.jobs id) run).1.shell.jobs
        ≡ resume_job id run.shell.jobs
  unfolding bg_found background no_such_job
  background-resume_job id cmd run = elim (Option-cases (jobs_find_by_id run.shell.jobs id)) [
    | inl missing ↦ rw missing (sym (resume_job-missing id run.shell.jobs missing))
    | inr (i, found) ↦
        rw (resume_job-found id run.shell.jobs i found)
          (elim (Bool-cases (is_stopped (get_or run.shell.jobs.jobs i cleared).state)) [
            | inl e ↦ rw found (rw e refl)
            | inr e ↦ rw found (rw e refl)
          ])
  ]

  -- `bg` makes the job of its argument run if it is stopped, and changes no other job
  builtin_bg-resume_job :
      (cmd : Command) (run : Run W)
      → (builtin_bg sys cmd run).1.shell.jobs ≡ resume_job (parse_job_id (arg1 cmd)) run.shell.jobs
  unfolding builtin_bg
  builtin_bg-resume_job cmd run = elim (Bool-cases (is_negative (parse_job_id (arg1 cmd)))) [
    | inl e ↦ rw e (
        sym (
          resume_job-missing (parse_job_id (arg1 cmd)) run.shell.jobs
            (negative-missing (parse_job_id (arg1 cmd)) run.shell.jobs e)))
    | inr e ↦ rw e (background-resume_job (parse_job_id (arg1 cmd)) cmd run)
  ]

  -- The system behind what fg does before it waits: the job's group has the terminal, where the
  -- shell is interactive, and SIGCONT was sent to the group, where the job was stopped.
  abbrev pub awake : Job → Run W → W
  awake job run =
      let w = given sys job.pid run run.world in
      if is_stopped job.state then (sys.kill (neg_of_ℕ job.pid) sigcont w).1 else w

  foreground-Waits :
      (i : ℕ) (job : Job) (run : Run W)
      → let table =
          if is_stopped job.state
          then write_found (some i) (set_state running) run.shell.jobs
          else run.shell.jobs in
        Waits sys job.pid job.command table run
          (run.log ++ out (job.command ++ codes "\n") ∷ [])
          (awake job run)
          (foreground sys i job run)
  unfolding foreground
  foreground-Waits i job run =
      let printed = print (out (job.command ++ codes "\n") ∷ []) run in
      let shown = terminal_to sys job.pid printed in
      let (shell, log) = terminal_to_kept sys job.pid printed in
      let same = ap (λ s. s.interactive) shell in
      let world = given-terminal_to sys job.pid printed in
      elim (Bool-cases (is_stopped job.state)) [
        | inl h ↦
            let jobs = ap (λ s. write_found (some i) (set_state running) s.jobs) shell in
            rw h (
              waited-Waits sys job.pid job.command _ run _ _ (resume sys i job.pid shown) same jobs
                log (ap (λ w. (sys.kill (neg_of_ℕ job.pid) sigcont w).1) world))
        | inr h ↦ rw h (
            waited-Waits sys job.pid job.command _ run _ _ shown same (ap (λ s. s.jobs) shell) log
              world)
      ]

  -- Where a lookup by the argument of fg finds a job, fg prints the job's label, gives the terminal
  -- to the job's group in an interactive shell, and, if the job is stopped, makes it run and sends
  -- SIGCONT to its group. Behind this, it returns and leaves in the table what
  -- wait_foreground_group does with what waitpid reports of the group, and prints what that prints.
  -- In an interactive shell, the terminal goes back to the shell behind that waitpid, and no other
  -- call of the system is made.
  pub builtin_fg-Waits :
      (cmd : Command) (run : Run W) (job : Job)
      → job_of run.shell.jobs (parse_job_id (arg1 cmd)) ≡ some job
      → Waits sys job.pid job.command
          (resume_job (parse_job_id (arg1 cmd)) run.shell.jobs)
          run
          (run.log ++ out (job.command ++ codes "\n") ∷ [])
          (awake job run)
          (builtin_fg sys cmd run)
  unfolding builtin_fg fg_found
  builtin_fg-Waits cmd run job e =
      let id = parse_job_id (arg1 cmd) in
      let (i, found, here) = job_of-found run.shell.jobs id job e in
      rw (job_of-negative run.shell.jobs id job e) (
        rw (resume_job-found id run.shell.jobs i found)
          (rw found (rw here (foreground-Waits i job run))))
