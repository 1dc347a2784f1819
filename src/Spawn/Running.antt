-- ===== src/Spawn/Running.antt =====
-- What running a pipeline leaves of the shell.
use unix_shell.Base.{
  List, ◌∷◌, ◌++◌, map, ℕ, ◌≡◌, refl, ap, ◌∙◌, ◌⊎◌, inl, inr, Bool, true, false, some, All, ==_refl,
}
use unix_shell.Base.Int.{ℤ, pos, negsuc}
use unix_shell.Cstring.{Text}
use unix_shell.Parser.{Pipeline}
use unix_shell.Jobs.{JobsTable, running, new_job, job_cmd_len, jobs_add}
use unix_shell.Jobs.Invariant.{IsTable}
use unix_shell.Jobs.Add.{jobs_add-IsTable}
use unix_shell.Jobs.Lookup.{job_of}
use unix_shell.Jobs.Laws.{jobs_add_lem, IsLive}
use unix_shell.Executor.{format_pipeline_label}
use unix_shell.Builtins.{Process, Run, err, terminal_to, wait_job}
use unix_shell.Builtins.Waits.{Waits, given, given-terminal_to, terminal_to_kept, waited-Waits}
use unix_shell.Builtins.Frame.{Frame, Frame-refl, Frame-trans, Frame-same, Frame-jobs}
use unix_shell.Builtins.Effects.{terminal_to-shell, wait_job-Frame}
use unix_shell.Process.{Table}
use unix_shell.Spawn.{Kernel, Child, Spawning, spawn_pipeline}
use unix_shell.Spawn.Execute.{
  leader, announced, in_background, in_foreground, run_group, spawned_run, spawned,
  execute_pipeline,
}

module _ {W : Type 0} where
  announced-shell :
      (pgid : ℕ) (added : ℤ × JobsTable) (run : Run W)
      → (announced pgid added run).shell ≡ record run.shell { jobs = added.1 }
  unfolding announced
  announced-shell pgid (pos id, jobs) run = refl
  announced-shell pgid (negsuc n, jobs) run = refl

  in_background-Frame :
      (label : Text) (pgid : ℕ) (run : Run W)
      → Frame false run.shell (in_background label pgid run).1.shell
  unfolding in_background
  in_background-Frame label pgid run =
      rw (announced-shell pgid (jobs_add run.shell.jobs pgid label running) run)
        (Frame-jobs run.shell _ (jobs_add-IsTable run.shell.jobs pgid label running))

  module _ (sys : Process W) where
    in_foreground-Frame :
        (label : Text) (pgid : ℕ) (run : Run W)
        → Frame false run.shell (in_foreground sys label pgid run).1.shell
    unfolding in_foreground
    in_foreground-Frame label pgid run = Frame-trans (Frame-same (terminal_to-shell sys pgid run)) (
        Frame-trans (wait_job-Frame sys pgid label (terminal_to sys pgid run)) (
          Frame-same (
            terminal_to-shell sys run.shell.shell_pgid
              (wait_job sys pgid label (terminal_to sys pgid run)).1)))

    run_group-Frame :
        (background : Bool) (label : Text) (pgid : ℕ) (run : Run W)
        → Frame false run.shell (run_group sys background label pgid run).1.shell
    unfolding run_group
    run_group-Frame true label pgid run = in_background-Frame label pgid run
    run_group-Frame false label pgid run = in_foreground-Frame label pgid run

    spawned-Frame :
        (p : Pipeline) (run : Run W) (result : ℤ × Spawning W)
        → Frame false run.shell (spawned sys p run result).1.run.shell
    unfolding spawned
    spawned-Frame p run (negsuc n, s) = Frame-refl run.shell
    spawned-Frame p run (pos n, s) =
        run_group-Frame p.background _ (leader s.children) (spawned_run sys s run)

    -- Running a pipeline, however its calls end, leaves the history, the last status, the request
    -- to exit and the terminal's settings alone, and keeps the invariant of the job table.
    pub execute_pipeline-Frame :
        (kernel : Kernel W) (p : Pipeline) (run : Run W) (t : Table) (pipes : ℕ)
        → Frame false run.shell (execute_pipeline sys kernel p run t pipes).1.run.shell
    unfolding execute_pipeline
    execute_pipeline-Frame kernel p run t pipes = spawned-Frame p run _

-- The job table behind a pipeline in the background: full, and as it was, or with the new job.
abbrev pub Recorded : JobsTable → ℕ → Text → JobsTable → Type 0
Recorded jobs pgid label after =
    All IsLive jobs.jobs × (after ≡ jobs)
    ⊎ (job_of after (pos jobs.next_id) ≡ some (new_job jobs.next_id pgid label running))

jobs_add-Recorded :
    (jobs : JobsTable) (pgid : ℕ) (label : Text)
    → IsTable jobs
    → Recorded jobs pgid label (jobs_add jobs pgid label running).1
jobs_add-Recorded jobs pgid label h = elim (jobs_add_lem jobs pgid label running h) [
  | inl (full, e) ↦ inl (full, ap (λ p. p.1) e)
  | inr (_, _, lookups) ↦ inr (lookups jobs.next_id ∙ rw (==_refl jobs.next_id) refl)
]

in_background-Recorded :
    {W : Type 0} (label : Text) (pgid : ℕ) (run : Run W)
    → IsTable run.shell.jobs
    → Recorded run.shell.jobs pgid label (in_background label pgid run).1.shell.jobs
unfolding in_background
in_background-Recorded label pgid run h =
    rw (announced-shell pgid (jobs_add run.shell.jobs pgid label running) run)
      (jobs_add-Recorded run.shell.jobs pgid label h)

-- Where the invariant of the job table holds and all stages of a pipeline in the background were
-- forked, `c` first, the result is 0, and the job that the next id names is the running group of
-- `c` with the pipeline's label, or the table was full and is as it was.
pub execute_pipeline-background :
    {W : Type 0} (sys : Process W) (kernel : Kernel W) (p : Pipeline) (run : Run W) (t : Table)
    (pipes : ℕ) {n : ℕ} {s : Spawning W} {c : Child} {cs : List Child}
    → IsTable run.shell.jobs
    → p.background ≡ true
    → spawn_pipeline kernel p.commands t pipes run.world ≡ (pos n, s)
    → s.children ≡ c ∷ cs
    → let (code, e) = execute_pipeline sys kernel p run t pipes in
      (code ≡ pos 0)
      × Recorded run.shell.jobs c.pid (format_pipeline_label p job_cmd_len) e.run.shell.jobs
unfolding execute_pipeline spawned run_group leader
execute_pipeline-background sys kernel p run t pipes {n} {s} {c} h b e first =
    rw (e, spawned)
      (rw (b, run_group)
        (rw first (
          unfold in_background in refl,
          in_background-Recorded (format_pipeline_label p job_cmd_len) c.pid (spawned_run sys s run)
              h,
        )))

in_foreground-Waits :
    {W : Type 0} (sys : Process W) (label : Text) (pgid : ℕ) (run : Run W)
    → Waits sys pgid label run.shell.jobs run run.log
        (given sys pgid run run.world)
        (in_foreground sys label pgid run)
unfolding in_foreground
in_foreground-Waits sys label pgid run =
    let (shell, log) = terminal_to_kept sys pgid run in
    waited-Waits sys pgid label run.shell.jobs run run.log _ (terminal_to sys pgid run)
      (ap (λ s. s.interactive) shell) (ap (λ s. s.jobs) shell) log (given-terminal_to sys pgid run)

-- Where all stages of a pipeline in the foreground were forked, `c` first, the group of `c` gets
-- the terminal in an interactive shell. Behind this, the result, the job table and what is written
-- are those of wait_foreground_group on that group, the pipeline's label and what waitpid reports
-- of the group. In an interactive shell, the terminal goes back to the shell behind that waitpid,
-- and no other call of the system is made behind the forks.
pub execute_pipeline-foreground :
    {W : Type 0} (sys : Process W) (kernel : Kernel W) (p : Pipeline) (run : Run W) (t : Table)
    (pipes : ℕ) {n : ℕ} {s : Spawning W} {c : Child} {cs : List Child}
    → p.background ≡ false
    → spawn_pipeline kernel p.commands t pipes run.world ≡ (pos n, s)
    → s.children ≡ c ∷ cs
    → let (code, e) = execute_pipeline sys kernel p run t pipes in
      Waits sys c.pid
        (format_pipeline_label p job_cmd_len)
        run.shell.jobs
        run
        (run.log ++ map err s.errors)
        (given sys c.pid run s.world)
        (code, e.run)
unfolding execute_pipeline spawned run_group leader
execute_pipeline-foreground sys kernel p run t pipes {n} {s} {c} b e first =
    rw (e, spawned)
      (rw (b, run_group)
        (rw first (
          unfold Waits in
          unfold Waits in
          in_foreground-Waits sys (format_pipeline_label p job_cmd_len) c.pid
            (spawned_run sys s run))))
