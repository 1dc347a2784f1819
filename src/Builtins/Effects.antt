-- ===== src/Builtins/Effects.antt =====
-- What a built-in changes of the shell.
use unix_shell.Base.{
  ℕ, ◌≡◌, refl, ap, ◌∙◌, inl, inr, Bool, true, false, [], ◌∷◌, ◌++◌, Option, none, some,
  if◌then◌else◌, get_or, Bool-cases, Option-cases,
}
use unix_shell.Base.Int.{ℤ, is_negative}
use unix_shell.Cstring.{Text, codes, equal}
use unix_shell.Parser.{Command}
use unix_shell.Jobs.{Job, running, is_stopped, cleared, jobs_find_by_id}
use unix_shell.Jobs.Invariant.{jobs_clear_done-IsTable}
use unix_shell.Executor.{wait_foreground_group}
use unix_shell.Builtins.{
  print, out, Shell, sigterm, Process, Run, arg1, parse_job_id, cut_equals, outcome_of, no_such_job,
  terminal_to, resume, wait_job, builtin_exit, builtin_jobs, builtin_history, builtin_cd,
  change_directory, export_pair, builtin_export, builtin_fg, builtin_bg, fg_found, foreground,
  bg_found, background,
}
use unix_shell.Builtins.Frame.{
  Frame, Frame-refl, Frame-exit, Frame-trans, Frame-same, Frame-jobs, write_by_id-IsTable,
  wait_loop-IsTable,
}
use unix_shell.Cstring.Words.{equal_iff}
use unix_shell.Builtins.Dispatch.{
  is_job_spec, builtin_help, send_sigterm, kill_found, builtin_kill, run_builtin,
}

cd-ne-exit : (name : Text) → equal name (codes "cd") ≡ true → equal name (codes "exit") ≡ false
cd-ne-exit name h = rw ((equal_iff name (codes "cd")).0 h) (unfold equal in refl)

module _ {W : Type 0} where
  outcome_of-Frame :
      (name : Text) (called : Option Text × W) (run : Run W)
      → Frame false run.shell (outcome_of name called run).1.shell
  unfolding outcome_of
  outcome_of-Frame name (none, world) run = Frame-refl run.shell
  outcome_of-Frame name (some e, world) run = Frame-refl run.shell

  no_such_job-Frame :
      (name : Text) (cmd : Command) (run : Run W)
      → Frame false run.shell (no_such_job name cmd run).1.shell
  unfolding no_such_job
  no_such_job-Frame name cmd run = Frame-refl run.shell

  builtin_exit-Frame :
      (cmd : Command) (run : Run W) → Frame true run.shell (builtin_exit cmd run).1.shell
  unfolding builtin_exit
  builtin_exit-Frame cmd run = elim (Option-cases (arg1 cmd)) [
    | inl e ↦ rw (e, builtin_exit) (Frame-exit run.shell)
    | inr (a, e) ↦ rw (e, builtin_exit) (Frame-exit run.shell)
  ]

  history-Frame : (run : Run W) → Frame false run.shell (builtin_history run).1.shell
  unfolding builtin_history
  history-Frame run = Frame-refl run.shell

  help-Frame : (run : Run W) → Frame false run.shell (builtin_help run).1.shell
  unfolding builtin_help
  help-Frame run = Frame-refl run.shell

  builtin_jobs-Frame : (run : Run W) → Frame false run.shell (builtin_jobs run).1.shell
  unfolding builtin_jobs
  builtin_jobs-Frame run = Frame-jobs run.shell _ (jobs_clear_done-IsTable run.shell.jobs)

  module _ (sys : Process W) where
    change_directory-Frame :
        (dir : Option Text) (run : Run W)
        → Frame false run.shell (change_directory sys dir run).1.shell
    unfolding change_directory
    change_directory-Frame none run = Frame-refl run.shell
    change_directory-Frame (some dir) run =
        outcome_of-Frame (codes "mysh: cd: " ++ dir) (sys.chdir dir run.world) run

    builtin_cd-Frame :
        (cmd : Command) (run : Run W) → Frame false run.shell (builtin_cd sys cmd run).1.shell
    unfolding builtin_cd
    builtin_cd-Frame cmd run = elim (Option-cases (arg1 cmd)) [
      | inl e ↦ rw (e, builtin_cd) (change_directory-Frame _ run)
      | inr (a, e) ↦ rw (e, builtin_cd) (change_directory-Frame (some a) run)
    ]

    export_pair-Frame :
        (arg : Text) (pair : Option (Text × Text)) (run : Run W)
        → Frame false run.shell (export_pair sys arg pair run).1.shell
    unfolding export_pair
    export_pair-Frame arg none run = Frame-refl run.shell
    export_pair-Frame arg (some (name, value)) run =
        outcome_of-Frame (codes "mysh: export") (sys.setenv name value run.world) run

    builtin_export-Frame :
        (cmd : Command) (run : Run W) → Frame false run.shell (builtin_export sys cmd run).1.shell
    unfolding builtin_export
    builtin_export-Frame cmd run = elim (Option-cases (arg1 cmd)) [
      | inl e ↦ rw (e, builtin_export) (Frame-refl run.shell)
      | inr (a, e) ↦ rw (e, builtin_export) (export_pair-Frame a (cut_equals a) run)
    ]

    pub terminal_to-shell : (pgid : ℕ) (run : Run W) → (terminal_to sys pgid run).shell ≡ run.shell
    terminal_to-shell pgid run = elim (Bool-cases run.shell.interactive) [
      | inl e ↦ rw e refl
      | inr e ↦ rw e refl
    ]

    resumed-Frame :
        (i : ℕ) (id : ℤ) (job : Job) (run shown : Run W)
        → shown.shell ≡ run.shell
        → jobs_find_by_id run.shell.jobs id ≡ some i
        → Frame false shown.shell
            (if is_stopped job.state then resume sys i job.pid shown else shown).shell
    resumed-Frame i id job run shown s e = elim (Bool-cases (is_stopped job.state)) [
      | inl h ↦ rw h (
          Frame-jobs shown.shell _ (
            write_by_id-IsTable shown.shell.jobs id running i
              (ap (λ x. jobs_find_by_id x.jobs id) s ∙ e)))
      | inr h ↦ rw h (Frame-refl shown.shell)
    ]

    pub wait_job-Frame :
        (pgid : ℕ) (label : Text) (run : Run W)
        → Frame false run.shell (wait_job sys pgid label run).1.shell
    unfolding wait_job wait_foreground_group
    wait_job-Frame pgid label run = Frame-jobs run.shell _ (
        wait_loop-IsTable run.shell.interactive run.shell.jobs pgid label
          (sys.wait_group pgid run.world).0 0 false)

    foreground-Frame :
        (i : ℕ) (id : ℤ) (job : Job) (run : Run W)
        → jobs_find_by_id run.shell.jobs id ≡ some i
        → Frame false run.shell (foreground sys i job run).1.shell
    unfolding foreground
    foreground-Frame i id job run e =
        let shown : Run W =
          terminal_to sys job.pid (print (out (job.command ++ codes "\n") ∷ []) run) in
        let resumed : Run W = if is_stopped job.state then resume sys i job.pid shown else shown in
        let same = terminal_to-shell job.pid (print (out (job.command ++ codes "\n") ∷ []) run) in
        Frame-trans (Frame-same same) (
          Frame-trans (resumed-Frame i id job run shown same e) (
            Frame-trans (wait_job-Frame job.pid job.command resumed) (
              Frame-same (
                terminal_to-shell run.shell.shell_pgid
                  (wait_job sys job.pid job.command resumed).1))))

    fg_found-Frame :
        (cmd : Command) (id : ℤ) (run : Run W) (found : Option ℕ)
        → jobs_find_by_id run.shell.jobs id ≡ found
        → Frame false run.shell (fg_found sys cmd found run).1.shell
    unfolding fg_found
    fg_found-Frame cmd id run none e = no_such_job-Frame (codes "mysh: fg") cmd run
    fg_found-Frame cmd id run (some i) e =
        foreground-Frame i id (get_or run.shell.jobs.jobs i cleared) run e

    builtin_fg-Frame :
        (cmd : Command) (run : Run W) → Frame false run.shell (builtin_fg sys cmd run).1.shell
    unfolding builtin_fg
    builtin_fg-Frame cmd run = elim (Bool-cases (is_negative (parse_job_id (arg1 cmd)))) [
      | inl h ↦ rw (h, builtin_fg) (Frame-refl run.shell)
      | inr h ↦ rw (h, builtin_fg) (fg_found-Frame cmd (parse_job_id (arg1 cmd)) run _ refl)
    ]

    bg_found-Frame :
        (cmd : Command) (id : ℤ) (run : Run W) (found : Option ℕ)
        → jobs_find_by_id run.shell.jobs id ≡ found
        → Frame false run.shell (bg_found sys cmd found run).1.shell
    unfolding bg_found background
    bg_found-Frame cmd id run none e = no_such_job-Frame (codes "mysh: bg") cmd run
    bg_found-Frame cmd id run (some i) e =
        elim (Bool-cases (is_stopped (get_or run.shell.jobs.jobs i cleared).state)) [
          | inl h ↦
              rw h (Frame-jobs run.shell _ (write_by_id-IsTable run.shell.jobs id running i e))
          | inr h ↦ rw h (Frame-refl run.shell)
        ]

    builtin_bg-Frame :
        (cmd : Command) (run : Run W) → Frame false run.shell (builtin_bg sys cmd run).1.shell
    unfolding builtin_bg
    builtin_bg-Frame cmd run = elim (Bool-cases (is_negative (parse_job_id (arg1 cmd)))) [
      | inl h ↦ rw (h, builtin_bg) (Frame-refl run.shell)
      | inr h ↦ rw (h, builtin_bg) (bg_found-Frame cmd (parse_job_id (arg1 cmd)) run _ refl)
    ]

    send_sigterm-Frame :
        (target : ℤ) (run : Run W) → Frame false run.shell (send_sigterm sys target run).1.shell
    unfolding send_sigterm
    send_sigterm-Frame target run =
        outcome_of-Frame (codes "mysh: kill") (sys.kill target sigterm run.world) run

    kill_found-Frame :
        (cmd : Command) (found : Option ℕ) (run : Run W)
        → Frame false run.shell (kill_found sys cmd found run).1.shell
    unfolding kill_found
    kill_found-Frame cmd none run = no_such_job-Frame (codes "mysh: kill") cmd run
    kill_found-Frame cmd (some i) run = send_sigterm-Frame _ run

    kill_arg-Frame :
        (cmd : Command) (run : Run W) (arg : Option Text)
        → arg1 cmd ≡ arg
        → Frame false run.shell (builtin_kill sys cmd run).1.shell
    unfolding builtin_kill
    kill_arg-Frame cmd run none e = rw (e, builtin_kill) (Frame-refl run.shell)
    kill_arg-Frame cmd run (some arg) e = elim (Bool-cases (is_job_spec arg)) [
      | inl h ↦ rw (e, builtin_kill) (rw h (kill_found-Frame cmd _ run))
      | inr h ↦ rw (e, builtin_kill) (rw h (send_sigterm-Frame _ run))
    ]

    Frame-stays :
        {leaves : Bool} {a b : Shell} → leaves ≡ false → Frame false a b → Frame leaves a b
    Frame-stays e f = rw e f

    -- A built-in, whichever its name is, leaves the history, the last status and the terminal's
    -- settings alone and keeps the invariant of the job table, and the shell is asked to end
    -- exactly where it was asked before or the name is `exit`.
    pub run_builtin-Frame :
        (cmd : Command) (run : Run W)
        → Frame
            (equal (get_or cmd.args 0 []) (codes "exit"))
            run.shell
            (run_builtin sys cmd run).1.shell
    unfolding run_builtin
    run_builtin-Frame cmd run = elim (Bool-cases (equal (get_or cmd.args 0 []) (codes "cd"))) [
      | inl h ↦ rw h (Frame-stays (cd-ne-exit (get_or cmd.args 0 []) h) (builtin_cd-Frame cmd run))
      | inr h ↦ rw h (elim (Bool-cases (equal (get_or cmd.args 0 []) (codes "exit"))) [
        | inl h ↦ rw h (builtin_exit-Frame cmd run)
        | inr h ↦ rw h (elim (Bool-cases (equal (get_or cmd.args 0 []) (codes "export"))) [
          | inl h ↦ rw h (builtin_export-Frame cmd run)
          | inr h ↦ rw h (elim (Bool-cases (equal (get_or cmd.args 0 []) (codes "history"))) [
            | inl h ↦ rw h (history-Frame run)
            | inr h ↦ rw h (elim (Bool-cases (equal (get_or cmd.args 0 []) (codes "jobs"))) [
              | inl h ↦ rw h (builtin_jobs-Frame run)
              | inr h ↦ rw h (elim (Bool-cases (equal (get_or cmd.args 0 []) (codes "fg"))) [
                | inl h ↦ rw h (builtin_fg-Frame cmd run)
                | inr h ↦ rw h (elim (Bool-cases (equal (get_or cmd.args 0 []) (codes "bg"))) [
                  | inl h ↦ rw h (builtin_bg-Frame cmd run)
                  | inr h ↦ rw h (elim (Bool-cases (equal (get_or cmd.args 0 []) (codes "kill"))) [
                    | inl h ↦ rw h (kill_arg-Frame cmd run (arg1 cmd) refl)
                    | inr h ↦
                        rw h (elim (Bool-cases (equal (get_or cmd.args 0 []) (codes "help"))) [
                          | inl h ↦ rw h (help-Frame run)
                          | inr h ↦ rw h (Frame-refl run.shell)
                        ])
                  ])
                ])
              ])
            ])
          ])
        ])
      ])
    ]
