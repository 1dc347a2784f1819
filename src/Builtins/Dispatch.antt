-- ===== src/Builtins/Dispatch.antt =====
-- builtins.c: `kill`, `help`, and which built-in a name runs.
use mathlib.Core.Option.{Option, none, some}
use unix_shell.Base.{ℕ, Bool, false, ◌||◌, List, [], ◌∷◌, ◌++◌, ◌==◌, if◌then◌else◌, get_or}
use unix_shell.Base.Int.{ℤ, pos, neg_of_ℕ}
use unix_shell.Cstring.{Text, codes, equal}
use unix_shell.Cstring.Format.{atoi}
use unix_shell.Parser.{Command}
use unix_shell.Jobs.{cleared, jobs_find_by_id}
use unix_shell.Builtins.{
  Process, Run, Result, sigterm, arg1, parse_job_id, print, complain, outcome_of, no_such_job,
  outputs, builtin_exit, builtin_jobs, builtin_history, builtin_cd, builtin_export, builtin_fg,
  builtin_bg,
}

abbrev pub help_lines : List Text
help_lines =
    codes "mysh built-in commands:\n"
    ∷ codes "  cd [dir]          change the working directory (default: $HOME)\n"
    ∷ codes "  exit [code]       exit the shell (default: last command's status)\n"
    ∷ codes "  export NAME=VALUE set an environment variable for child processes\n"
    ∷ codes "  history           list previously entered commands\n"
    ∷ codes "  jobs              list background and stopped jobs\n"
    ∷ codes "  fg %jobid         resume a job in the foreground\n"
    ∷ codes "  bg %jobid         resume a stopped job in the background\n"
    ∷ codes "  kill %jobid|pid   send SIGTERM to a job or pid\n"
    ∷ codes "  help              show this message\n"
    ∷ codes "\n"
    ∷ codes "Everything else is run as an external program via fork/exec.\n"
    ∷ []

unfoldable pub is_job_spec : Text → Bool
is_job_spec [] = false
is_job_spec (c ∷ s) = c == b'%'

unfoldable pub is_builtin : Text → Bool
unfolding equal
is_builtin name =
    equal name (codes "cd")
    || equal name (codes "exit")
    || equal name (codes "export")
    || equal name (codes "history")
    || equal name (codes "jobs")
    || equal name (codes "fg")
    || equal name (codes "bg")
    || equal name (codes "kill")
    || equal name (codes "help")

module _ {W : Type 0} where
  unfoldable pub builtin_help : Run W → Result W
  unfolding outputs
  builtin_help run = (pos 0, print (outputs help_lines) run)

  module _ (sys : Process W) where
    open sys use {kill}

    unfoldable pub send_sigterm : ℤ → Run W → Result W
    unfolding outcome_of
    send_sigterm target run = outcome_of (codes "mysh: kill") (kill target sigterm run.world) run

    unfoldable pub kill_found : Command → Option ℕ → Run W → Result W
    unfolding send_sigterm no_such_job
    kill_found cmd none run = no_such_job (codes "mysh: kill") cmd run
    kill_found cmd (some i) run =
        send_sigterm (neg_of_ℕ (get_or run.shell.jobs.jobs i cleared).pid) run

    unfoldable pub builtin_kill : Command → Run W → Result W
    unfolding kill_found send_sigterm is_job_spec parse_job_id
    builtin_kill cmd run = elim (arg1 cmd) [
      | none ↦ complain (codes "mysh: kill: usage: kill %jobid | pid\n") run
      | some arg ↦
          if is_job_spec arg
          then kill_found cmd (jobs_find_by_id run.shell.jobs (parse_job_id (arg1 cmd))) run
          else send_sigterm (atoi arg) run
    ]

    unfoldable pub run_builtin : Command → Run W → Result W
    unfolding builtin_exit builtin_jobs builtin_history builtin_cd builtin_export builtin_fg
        builtin_bg builtin_kill builtin_help equal
    run_builtin cmd run =
        let name = get_or cmd.args 0 [] in
        if equal name (codes "cd")
        then builtin_cd sys cmd run
        else if equal name (codes "exit")
        then builtin_exit cmd run
        else if equal name (codes "export")
        then builtin_export sys cmd run
        else if equal name (codes "history")
        then builtin_history run
        else if equal name (codes "jobs")
        then builtin_jobs run
        else if equal name (codes "fg")
        then builtin_fg sys cmd run
        else if equal name (codes "bg")
        then builtin_bg sys cmd run
        else if equal name (codes "kill")
        then builtin_kill cmd run
        else if equal name (codes "help")
        then builtin_help run
        else complain (codes "mysh: " ++ (name ++ codes ": not a built-in\n")) run
