-- ===== src/Builtins/Tests.antt =====
-- Built-ins run in a small process, and the theorems about them at it.
use unix_shell.Base.{arith, ℕ, ◌≡◌, refl, true, false, List, [], ◌∷◌, ◌++◌, none, some}
use unix_shell.Base.Int.{ℤ, pos, negsuc}
use unix_shell.Cstring.{Text, codes, equal}
use unix_shell.Cstring.Format.{decimal, atoi}
use unix_shell.Parser.{Command, empty_command}
use unix_shell.History.{empty_history}
use unix_shell.Jobs.{JobsTable, stopped, jobs_init, jobs_add, jobs_find_by_id}
use unix_shell.Executor.{exited}
use unix_shell.Builtins.Waits.{Waits}
use unix_shell.Builtins.{out}
use unix_shell.Builtins.Resume.{builtin_fg-Waits}
use unix_shell.Signals.Resumed.{resume_job}
use unix_shell.Jobs.{Job, new_job}
use unix_shell.Builtins.{builtin_fg, arg1}
use unix_shell.Builtins.{Process, Run, parse_job_id}
use unix_shell.Builtins.Dispatch.{run_builtin, is_builtin}
use unix_shell.Builtins.Frame.{Frame}
use unix_shell.Builtins.Effects.{run_builtin-Frame}
use unix_shell.Builtins.JobSpec.{parse_job_id-decimal}

-- the signals sent so far are all the state there is
abbrev Signals : Type 0
Signals = List (ℤ × ℕ)

abbrev process : Process Signals
process = record {
  getenv = λ w name. none;
  chdir = λ dir w. (some (codes "No such file or directory"), w);
  setenv = λ name value w. (none, w);
  kill = λ target signal w. (none, w ++ (target, signal) ∷ []);
  tcsetpgrp = λ pgid w. w;
  wait_group = λ pgid w. (exited 0 ∷ [], w);
}

abbrev one_stopped : JobsTable
one_stopped = (jobs_add jobs_init 71 (codes "cat") stopped).1

abbrev start : Run Signals
start = record {
  shell = record {
    history = empty_history;
    jobs = one_stopped;
    last_status = pos 0;
    should_exit = false;
    interactive = false;
    shell_pgid = 9;
  };
  world = [];
  log = [];
}

abbrev words2 : Text → Text → Command
words2 name arg = record empty_command { args = name ∷ arg ∷ [] }

killed_group :
    (run_builtin process (words2 (codes "kill") (codes "%1")) start).1.world ≡ (negsuc 70, 15) ∷ []
unfolding run_builtin parse_job_id equal atoi jobs_find_by_id jobs_add jobs_init
killed_group = refl

-- an argument that is no number is the target 0: the shell's own process group
killed_self :
    (run_builtin process (words2 (codes "kill") (codes "abc")) start).1.world ≡ (pos 0, 15) ∷ []
unfolding run_builtin parse_job_id equal atoi
killed_self = refl

resumed :
    (run_builtin process (words2 (codes "fg") (codes "%1")) start).1.world ≡ (negsuc 70, 18) ∷ []
unfolding run_builtin parse_job_id equal atoi jobs_find_by_id jobs_add jobs_init
resumed = refl

listed_names : is_builtin (codes "kill") ≡ true
unfolding is_builtin equal
listed_names = refl

abbrev stopped_cat : Job
stopped_cat = new_job 1 71 (codes "cat") stopped

builtin_fg-Waits_example :
    Waits process 71
      (codes "cat")
      (resume_job (parse_job_id (arg1 (words2 (codes "fg") (codes "%1")))) one_stopped)
      start
      (out (codes "cat\n") ∷ [])
      ((negsuc 70, 18) ∷ [])
      (builtin_fg process (words2 (codes "fg") (codes "%1")) start)
builtin_fg-Waits_example =
    builtin_fg-Waits process (words2 (codes "fg") (codes "%1")) start stopped_cat (
      unfold parse_job_id in
      unfold atoi in unfold jobs_find_by_id in unfold jobs_add in unfold jobs_init in refl)

run_builtin-Frame_example :
    Frame true start.shell (run_builtin process (words2 (codes "exit") (codes "3")) start).1.shell
unfolding equal
run_builtin-Frame_example = run_builtin-Frame process (words2 (codes "exit") (codes "3")) start

parse_job_id-decimal_example :
    (parse_job_id (some (b'%' ∷ decimal 12)) ≡ pos 12) × (parse_job_id (some (decimal 12)) ≡ pos 12)
parse_job_id-decimal_example = parse_job_id-decimal 12 (omega arith)
