-- ===== src/Repl/Tests.antt =====
-- Short inputs run to their end, and the theorems about the loop at them.
use unix_shell.Base.{◌⊎◌, ℕ, ◌≡◌, refl, List, [], ◌∷◌, none, some, Option, suc, length}
use unix_shell.Base.Int.{ℤ, pos, negsuc}
use unix_shell.Cstring.{Text, codes, equal, elem, skip, cut, strtok_r, is_space}
use unix_shell.Cstring.Format.{atoi, decimal_int}
use unix_shell.Parser.{parse_pipeline, is_redirection, set_redirection, last_background}
use unix_shell.Jobs.Invariant.{IsTable}
use unix_shell.Heredoc.Tests.{disk, disk-IsFresh}
use unix_shell.Expand.{expand_pipeline, expand_command}
use unix_shell.Expand.Tests.{sys}
use unix_shell.Builtins.{Shell}
use unix_shell.Builtins.Dispatch.{is_builtin, run_builtin}
use unix_shell.Spawn.Tests.{
  kernel, process, terminal_table, shell_run, kernel-IsNewPipe, terminal-HasStreams,
}
use unix_shell.Signals.Tests.{terminal, as_started}
use unix_shell.Repl.{Os, Session, round, main_loop, starting_shell, starting_session, main}
use unix_shell.Signals.Install.{install_signal_handlers}
use unix_shell.Repl.Round.{IsLast, round-files}
use unix_shell.Repl.Descriptors.{round-base}
use unix_shell.Repl.Whole.{freed, main-IsLast}

abbrev os : Os ℕ
os = record {
  process = process;
  kernel = kernel;
  files = λ w. disk;
  expansion = λ w. sys;
  strdup = some;
  ended = λ w. ([], w);
}

abbrev two_lines : List Text
two_lines = codes "cat << A | wc\n" ∷ codes "one\n" ∷ codes "A\n" ∷ codes "exit 3\n" ∷ []

abbrev session : Session ℕ
session = record {
  run = shell_run;
  input = two_lines;
  files = [];
  base = terminal_table;
  pipes = 0;
}

main-IsLast_example :
    let installed = (install_signal_handlers terminal starting_shell as_started 5).0 in
    (end : Session ℕ) × (main_loop os
        (suc (length two_lines))
        (starting_session two_lines terminal_table installed)
      ≡ some end)
    × (main os terminal two_lines terminal_table as_started 5
        ≡ some (end.run.shell.last_status, freed end.run.shell))
    × IsLast end
    × IsTable end.run.shell.jobs
    × (end.files ≡ [])
main-IsLast_example =
    main-IsLast os terminal two_lines terminal_table as_started 5 (λ w. disk-IsFresh)

round-files_example : (round os session).1.files ≡ []
round-files_example = round-files os session (λ w. disk-IsFresh)

left_input : (round os session).1.input ≡ codes "exit 3\n" ∷ []
unfolding round parse_pipeline strtok_r skip cut elem equal is_redirection set_redirection
    last_background
left_input = refl

-- `exit` sets the status that main returns
abbrev status_of : Option (ℤ × Shell) → Option ℤ
status_of none = none
status_of (some (code, shell)) = some code

exit_code :
    status_of (main os terminal (codes "exit 3\n" ∷ []) terminal_table as_started 5) ≡ some (pos 3)
unfolding main parse_pipeline strtok_r skip cut elem equal is_redirection set_redirection
    last_background is_builtin run_builtin atoi expand_pipeline is_space expand_command decimal_int
exit_code = refl

round-base_example :
    ((round os session).1.base ≡ terminal_table)
    ⊎ ((round os session).1.run.shell.last_status ≡ negsuc 0)
round-base_example = round-base os kernel-IsNewPipe session terminal-HasStreams
