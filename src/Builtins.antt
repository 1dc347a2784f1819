-- ===== src/Builtins.antt =====
-- builtins.c and shell.h: the commands that run in the shell's own process.
pub mod Dispatch
pub mod JobSpec
pub mod Frame
pub mod Effects
pub mod Waits
pub mod Resume
mod Tests
use mathlib.Core.Option.{Option, none, some}
use unix_shell.Base.{
  ℕ, zero, suc, Bool, true, false, ◌||◌, List, [], ◌∷◌, ◌++◌, ◌==◌, if◌then◌else◌, get_elem?,
  get_or,
}
use unix_shell.Base.Int.{ℤ, pos, negsuc, is_negative, neg_of_ℕ}
use unix_shell.Cstring.{Text, codes, equal}
use unix_shell.Cstring.Format.{atoi, decimal}
use unix_shell.Parser.{Command}
use unix_shell.History.{History, history_print}
use unix_shell.Jobs.{
  Job, JobState, running, is_stopped, JobsTable, cleared, jobs_find_by_id, jobs_print,
  jobs_clear_done, write_found,
}
use unix_shell.Jobs.Reach.{set_state}
use unix_shell.Executor.{Status, wait_foreground_group}

-- `shell_state_t`, less the terminal's descriptor
pub record Shell : Type 0 where
  pub history : History
  pub jobs : JobsTable
  pub last_status : ℤ
  pub should_exit : Bool
  pub interactive : Bool
  pub shell_pgid : ℕ

-- What the built-ins ask the system for, on its state `W`. A call that may fail returns the text
-- of its error. `wait_group` is what `waitpid` will report of a group.
pub record Process (W : Type 0) : Type 0 where
  pub getenv : W → Text → Option Text
  pub chdir : Text → W → Option Text × W
  pub setenv : Text → Text → W → Option Text × W
  pub kill : ℤ → ℕ → W → Option Text × W
  pub tcsetpgrp : ℕ → W → W
  pub wait_group : ℕ → W → List Status × W

-- what is written to stdout and stderr
pub data Output : Type 0 where
  out : Text → Output
  err : Text → Output

pub record Run (W : Type 0) : Type 0 where
  pub shell : Shell
  pub world : W
  pub log : List Output

-- The exit status, and what the built-in leaves.
abbrev pub Result : Type 0 → Type 0
Result W = ℤ × Run W

abbrev pub sigterm : ℕ
sigterm = 15

abbrev pub sigcont : ℕ
sigcont = 18

abbrev pub arg1 : Command → Option Text
arg1 cmd = get_elem? cmd.args 1

unfoldable pub job_digits : Text → Text
job_digits [] = []
job_digits (c ∷ s) = if c == b'%' then s else c ∷ s

unfoldable pub digits_id : Text → ℤ
unfolding atoi
digits_id [] = negsuc 0
digits_id (c ∷ s) = atoi (c ∷ s)

unfoldable pub parse_job_id : Option Text → ℤ
unfolding job_digits digits_id
parse_job_id none = negsuc 0
parse_job_id (some arg) = digits_id (job_digits arg)

-- the string cut at the first `=`, as `strchr` finds it
unfoldable pub cut_equals : Text → Option (Text × Text)
cut_equals [] = none
cut_equals (c ∷ s) = elim (cut_equals s) [
  | none ↦ if c == b'=' then some ([], s) else none
  | some (name, value) ↦ if c == b'=' then some ([], s) else some (c ∷ name, value)
]

unfoldable pub outputs : List Text → List Output
outputs [] = []
outputs (line ∷ lines) = out line ∷ outputs lines

module _ {W : Type 0} where
  abbrev pub print : List Output → Run W → Run W
  print lines run = record run { log = run.log ++ lines }

  abbrev pub complain : Text → Run W → Result W
  complain message run = (pos 1, print (err message ∷ []) run)

  abbrev pub with_jobs : JobsTable → Run W → Run W
  with_jobs jobs run = record run { shell = record run.shell { jobs = jobs } }

  abbrev pub in_world : W → Run W → Run W
  in_world world run = record run { world = world }

  -- 0, or 1 behind a message, as the call has ended
  unfoldable pub outcome_of : Text → Option Text × W → Run W → Result W
  outcome_of name (none, world) run = (pos 0, in_world world run)
  outcome_of name (some e, world) run =
      complain (name ++ (codes ": " ++ (e ++ codes "\n"))) (in_world world run)

  unfoldable pub no_such_job : Text → Command → Run W → Result W
  no_such_job name cmd run =
      complain (name ++ (codes ": " ++ (get_or cmd.args 1 [] ++ codes ": no such job\n"))) run

  unfoldable pub builtin_exit : Command → Run W → Result W
  builtin_exit cmd run =
      let run' : Run W = record run { shell = record run.shell { should_exit = true } } in
      elim (arg1 cmd) [ none ↦ (run.shell.last_status, run') | some arg ↦ (atoi arg, run') ]

  unfoldable pub builtin_jobs : Run W → Result W
  unfolding outputs
  builtin_jobs run = (
    pos 0,
    print (outputs (jobs_print run.shell.jobs)) (with_jobs (jobs_clear_done run.shell.jobs) run),
  )

  unfoldable pub builtin_history : Run W → Result W
  unfolding outputs
  builtin_history run = (pos 0, print (outputs (history_print run.shell.history)) run)

  module _ (sys : Process W) where
    open sys use {getenv, chdir, setenv, kill, tcsetpgrp, wait_group}

    unfoldable pub change_directory : Option Text → Run W → Result W
    unfolding outcome_of
    change_directory none run = complain (codes "mysh: cd: HOME not set\n") run
    change_directory (some dir) run =
        outcome_of (codes "mysh: cd: " ++ dir) (chdir dir run.world) run

    unfoldable pub builtin_cd : Command → Run W → Result W
    unfolding change_directory
    builtin_cd cmd run = elim (arg1 cmd) [
      | none ↦ change_directory (getenv run.world (codes "HOME")) run
      | some dir ↦ change_directory (some dir) run
    ]

    unfoldable pub export_pair : Text → Option (Text × Text) → Run W → Result W
    unfolding outcome_of
    export_pair arg none run =
        complain (codes "mysh: export: " ++ (arg ++ codes ": not a NAME=VALUE pair\n")) run
    export_pair arg (some (name, value)) run =
        outcome_of (codes "mysh: export") (setenv name value run.world) run

    unfoldable pub builtin_export : Command → Run W → Result W
    unfolding export_pair cut_equals
    builtin_export cmd run = elim (arg1 cmd) [
      | none ↦ complain (codes "mysh: export: usage: export NAME=VALUE\n") run
      | some arg ↦ export_pair arg (cut_equals arg) run
    ]

    abbrev pub terminal_to : ℕ → Run W → Run W
    terminal_to pgid run =
        if run.shell.interactive then in_world (tcsetpgrp pgid run.world) run else run

    -- `job->state = JOB_RUNNING; kill(-pgid, SIGCONT)`, whose result is not read
    abbrev pub resume : ℕ → ℕ → Run W → Run W
    resume i pgid run =
        in_world (kill (neg_of_ℕ pgid) sigcont run.world).1
          (with_jobs (write_found (some i) (set_state running) run.shell.jobs) run)

    unfoldable pub wait_job : ℕ → Text → Run W → Result W
    wait_job pgid label run =
        let (statuses, world) = wait_group pgid run.world in
        let (code, (jobs, printed)) =
          wait_foreground_group run.shell.interactive run.shell.jobs pgid label statuses in
        (pos code, print (out printed ∷ []) (with_jobs jobs (in_world world run)))

    unfoldable pub foreground : ℕ → Job → Run W → Result W
    unfolding wait_job
    foreground i job run =
        let shown = terminal_to job.pid (print (out (job.command ++ codes "\n") ∷ []) run) in
        let (code, run') =
          wait_job job.pid job.command
            (if is_stopped job.state then resume i job.pid shown else shown) in
        (code, terminal_to run.shell.shell_pgid run')

    unfoldable pub fg_found : Command → Option ℕ → Run W → Result W
    unfolding foreground no_such_job
    fg_found cmd none run = no_such_job (codes "mysh: fg") cmd run
    fg_found cmd (some i) run = foreground i (get_or run.shell.jobs.jobs i cleared) run

    unfoldable pub builtin_fg : Command → Run W → Result W
    unfolding fg_found parse_job_id
    builtin_fg cmd run =
        if is_negative (parse_job_id (arg1 cmd))
        then complain (codes "mysh: fg: usage: fg %jobid\n") run
        else fg_found cmd (jobs_find_by_id run.shell.jobs (parse_job_id (arg1 cmd))) run

    unfoldable pub background : ℕ → Job → Run W → Result W
    background i job run =
        if is_stopped job.state
        then (
          pos 0,
          print
              (out (b'[' ∷ (decimal job.job_id ++ (codes "] " ++ (job.command ++ codes " &\n"))))
                ∷ [])
              (resume i job.pid run),
        )
        else (
          pos 0,
          print
              (err (codes "mysh: bg: job " ++ (decimal job.job_id ++ codes " is already running\n"))
                ∷ [])
              run,
        )

    unfoldable pub bg_found : Command → Option ℕ → Run W → Result W
    unfolding background no_such_job
    bg_found cmd none run = no_such_job (codes "mysh: bg") cmd run
    bg_found cmd (some i) run = background i (get_or run.shell.jobs.jobs i cleared) run

    unfoldable pub builtin_bg : Command → Run W → Result W
    unfolding bg_found parse_job_id
    builtin_bg cmd run =
        if is_negative (parse_job_id (arg1 cmd))
        then complain (codes "mysh: bg: usage: bg %jobid\n") run
        else bg_found cmd (jobs_find_by_id run.shell.jobs (parse_job_id (arg1 cmd))) run
