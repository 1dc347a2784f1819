-- ===== src/Spawn/Execute.antt =====
-- executor.c: running a pipeline in the foreground or in the background.
use unix_shell.Base.{ℕ, Bool, List, [], ◌∷◌, ◌++◌, if◌then◌else◌, map}
use unix_shell.Base.Int.{ℤ, pos, negsuc}
use unix_shell.Cstring.{Text, codes}
use unix_shell.Cstring.Format.{decimal}
use unix_shell.Parser.{Pipeline}
use unix_shell.Jobs.{JobsTable, running, job_cmd_len, jobs_add}
use unix_shell.Executor.{format_pipeline_label}
use unix_shell.Builtins.{Process, out, err, Run, print, with_jobs, in_world, terminal_to, wait_job}
use unix_shell.Process.{Table}
use unix_shell.Spawn.{Kernel, Child, Spawning, spawn_pipeline}

-- The shell behind a pipeline: its state, its descriptors, the pipes so far, and the children.
pub record Executed (W : Type 0) : Type 0 where
  pub run : Run W
  pub table : Table
  pub pipes : ℕ
  pub children : List Child

-- `pids[0]`, which is set where a stage was forked
unfoldable pub leader : List Child → ℕ
leader [] = 0
leader (c ∷ cs) = c.pid

abbrev pub job_started : ℕ → ℕ → Text
job_started id pgid = b'[' ∷ (decimal id ++ (codes "] " ++ (decimal pgid ++ codes "\n")))

module _ {W : Type 0} where
  -- the line behind `jobs_add`
  unfoldable pub announced : ℕ → ℤ × JobsTable → Run W → Run W
  announced pgid (pos id, jobs) run = print (out (job_started id pgid) ∷ []) (with_jobs jobs run)
  announced pgid (negsuc n, jobs) run =
      print (err (codes "mysh: too many background jobs\n") ∷ []) (with_jobs jobs run)

  unfoldable pub in_background : Text → ℕ → Run W → ℤ × Run W
  unfolding announced
  in_background label pgid run =
      (pos 0, announced pgid (jobs_add run.shell.jobs pgid label running) run)

  module _ (sys : Process W) where
    unfoldable pub in_foreground : Text → ℕ → Run W → ℤ × Run W
    unfolding wait_job
    in_foreground label pgid run =
        let (code, run') = wait_job sys pgid label (terminal_to sys pgid run) in
        (code, terminal_to sys run.shell.shell_pgid run')

    unfoldable pub run_group : Bool → Text → ℕ → Run W → ℤ × Run W
    unfolding in_background in_foreground
    run_group background label pgid run =
        if background then in_background label pgid run else in_foreground label pgid run

    abbrev pub spawned_run : Spawning W → Run W → Run W
    spawned_run s run = print (map err s.errors) (in_world s.world run)

    abbrev pub executed : Spawning W → ℤ × Run W → ℤ × Executed W
    executed s (code, run) =
        (code, record { run = run; table = s.table; pipes = s.pipes; children = s.children })

    -- behind `spawn_pipeline`, with SIGCHLD blocked from before it to the end
    unfoldable pub spawned : Pipeline → Run W → ℤ × Spawning W → ℤ × Executed W
    unfolding run_group format_pipeline_label leader
    spawned p run (negsuc n, s) = executed s (negsuc 0, spawned_run s run)
    spawned p run (pos n, s) = executed s (
        run_group p.background (format_pipeline_label p job_cmd_len) (leader s.children)
          (spawned_run s run))

    unfoldable pub execute_pipeline : Kernel W → Pipeline → Run W → Table → ℕ → ℤ × Executed W
    unfolding spawned
    execute_pipeline kernel p run t pipes =
        spawned p run (spawn_pipeline kernel p.commands t pipes run.world)
