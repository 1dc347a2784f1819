-- ===== src/Repl.antt =====
-- main.c: the loop that reads, parses, expands and runs lines.
pub mod Kept
pub mod Round
pub mod Descriptors
pub mod Whole
mod Tests
use unix_shell.Base.{
  ℕ, zero, suc, Bool, true, false, not, ◌&&◌, List, [], ◌∷◌, ◌++◌, Option, none, some, ◌==◌,
  if◌then◌else◌, length, get_or, map,
}
use unix_shell.Base.Int.{ℤ, pos, negsuc}
use unix_shell.Cstring.{Text, codes}
use unix_shell.Parser.{
  Command, Pipeline, num_commands, SyntaxError, expected_delimiter, expected_filename, Parsed, done,
  syntax_error, no_fuel, parse_pipeline, empty_command,
}
use unix_shell.History.{history_add, history_free, empty_history}
use unix_shell.Jobs.{jobs_init, jobs_notify_completed}
use unix_shell.Expand.{System, expand_pipeline}
use unix_shell.Heredoc.{Files, OpenFile, Streams, Collected, collect_heredocs, close_heredocs}
use unix_shell.Heredoc.Bodies.{contents_of}
use unix_shell.Builtins.{
  Shell, Process, Output, out, err, Run, Result, print, with_jobs, in_world, outputs,
}
use unix_shell.Builtins.Dispatch.{is_builtin, run_builtin}
use unix_shell.Signals.{Report, sigchld_handler}
use unix_shell.Signals.Install.{Terminal, install_signal_handlers}
use unix_shell.Process.{Signals, Target, document, Entry, Table}
use unix_shell.Spawn.{Kernel}
use unix_shell.Spawn.Execute.{Executed, execute_pipeline}

-- All that the shell asks of the system. `files` and `expansion` depend on its state; `ended` is
-- what `waitpid` reports where the SIGCHLD handler runs.
pub record Os (W : Type 0) : Type 0 where
  pub process : Process W
  pub kernel : Kernel W
  pub files : W → Files
  pub expansion : W → System
  pub strdup : Text → Option Text
  pub ended : W → List Report × W

-- `state`, the lines that are still to be read, the open here-documents, the descriptors that the
-- shell has besides, and the number of pipes so far.
pub record Session (W : Type 0) : Type 0 where
  pub run : Run W
  pub input : List Text
  pub files : List OpenFile
  pub base : Table
  pub pipes : ℕ

unfoldable pub document_entry : Option Text → Option Entry → Option Entry
document_entry none old = old
document_entry (some body) old = some (record { target = document body; cloexec = true })

-- the descriptors of the shell, here-documents included
unfoldable pub shell_table : List OpenFile → Table → Table
unfolding document_entry contents_of
shell_table files base fd = document_entry (contents_of fd files) (base fd)

unfoldable pub other_entry : Option Text → Option Entry → Option Entry → Option Entry
other_entry none now before = now
other_entry (some body) now before = before

-- what is left of the table besides the here-documents
unfoldable pub without_documents : List OpenFile → Table → Table → Table
unfolding other_entry contents_of
without_documents files before now fd = other_entry (contents_of fd files) (now fd) (before fd)

unfoldable pub syntax_message : SyntaxError → Text
syntax_message expected_delimiter = codes "mysh: syntax error: expected delimiter after '<<'\n"
syntax_message (expected_filename token) =
    codes "mysh: syntax error: expected filename after '" ++ (token ++ codes "'\n")

-- `num_commands == 1 && is_builtin(commands[0].args[0])`
unfoldable pub is_plain_builtin : List Command → Bool
is_plain_builtin (cmd ∷ []) = is_builtin (get_or cmd.args 0 [])
is_plain_builtin _ = false

module _ {W : Type 0} where
  abbrev pub with_run : Run W → Session W → Session W
  with_run run s = record s { run = run }

  abbrev pub log : List Output → Session W → Session W
  log lines s = with_run (print lines s.run) s

  -- `state.last_status = …`
  abbrev pub set_status : ℤ → Run W → Run W
  set_status code run = record run { shell = record run.shell { last_status = code } }

  unfoldable pub executed_session : Session W → ℤ × Executed W → Session W
  unfolding without_documents
  executed_session s (code, e) = record s {
    run = set_status code e.run;
    base = without_documents s.files s.base e.table;
    pipes = e.pipes;
  }

  unfoldable pub builtin_session : Session W → Result W → Session W
  builtin_session s (code, run) = with_run (set_status code run) s

  -- `close_heredocs` on the pipeline
  abbrev close_session : Pipeline → Session W → Session W
  close_session p s = record s { files = (close_heredocs p.commands s.files).1 }

  -- what `collect_heredocs` leaves; the two streams are each in order
  abbrev pub read_on : Streams → Session W → Session W
  read_on io s =
      log (out io.output ∷ map err io.errors) (record s { input = io.input; files = io.files })

  abbrev pub streams_of : Session W → Streams
  streams_of s = record { input = s.input; output = []; errors = []; files = s.files }

  -- whether the loop goes on
  abbrev pub unless_exit : Session W → Bool × Session W
  unless_exit s = (not s.run.shell.should_exit, s)

  module _ (os : Os W) where
    open os use {process, kernel, files, expansion, strdup, ended}

    -- the SIGCHLD handler, where it may run
    unfoldable pub reap : Session W → Session W
    unfolding sigchld_handler
    reap s =
        let (reports, world) = ended s.run.world in
        with_run (in_world world (with_jobs (sigchld_handler s.run.shell.jobs reports) s.run)) s

    unfoldable pub notify : Session W → Session W
    unfolding jobs_notify_completed outputs
    notify s =
        let (lines, jobs) = jobs_notify_completed s.run.shell.jobs in
        log (outputs lines) (with_run (with_jobs jobs s.run) s)

    unfoldable pub run_commands : Pipeline → Session W → Session W
    unfolding executed_session builtin_session is_plain_builtin shell_table
    run_commands p s =
        if is_plain_builtin p.commands
        then builtin_session s (run_builtin process (get_or p.commands 0 empty_command) s.run)
        else executed_session s
            (execute_pipeline process kernel p s.run (shell_table s.files s.base) s.pipes)

    unfoldable pub run_collected : Pipeline → Session W → ℤ → Session W
    unfolding run_commands reap expand_pipeline close_heredocs
    run_collected p s (pos zero) =
        let expanded = expand_pipeline (expansion s.run.world) s.run.shell.last_status p in
        close_session expanded (run_commands expanded (reap s))
    run_collected p s code = close_session p s

    unfoldable pub collected_session : Pipeline → Session W → Collected → Session W
    unfolding run_collected
    collected_session p s (code, (cmds, io)) =
        run_collected (record p { commands = cmds }) (read_on io s) code

    unfoldable pub run_pipeline : Pipeline → Session W → Session W
    unfolding collected_session collect_heredocs
    run_pipeline p s =
        collected_session p s
          (collect_heredocs (files s.run.world) s.run.shell.interactive p.commands (streams_of s))

    unfoldable pub run_parsed : Session W → Parsed Pipeline → Bool × Session W
    unfolding run_pipeline syntax_message
    run_parsed s (done p) =
        if num_commands p == 0 then (true, s) else unless_exit (run_pipeline p s)
    run_parsed s (syntax_error e) = (true, log (err (syntax_message e) ∷ []) s)
    run_parsed s no_fuel = (true, s)

    abbrev pub remember : Text → Session W → Session W
    remember line s =
        with_run
          (record s.run {
            shell = record s.run.shell {
              history = history_add strdup s.run.shell.history (some line);
            };
          })
          s

    unfoldable pub read_line : Session W → List Text → Bool × Session W
    unfolding run_parsed parse_pipeline history_add reap
    read_line s [] = (false, log (out (codes "\n") ∷ []) s)
    read_line s (line ∷ lines) =
        run_parsed (remember line (record (reap s) { input = lines })) (parse_pipeline line)

    -- one round of the loop: whether it goes on, and what it leaves
    unfoldable pub round : Session W → Bool × Session W
    unfolding read_line notify
    round s = read_line (log (out (codes "mysh> ") ∷ []) (notify s)) s.input

    -- The loop, on fuel, which a round takes one of.
    unfoldable pub main_loop : ℕ → Session W → Option (Session W)
    unfolding round
    main_loop zero s = none
    main_loop (suc fuel) s =
        let (more, s') = round s in let rest = main_loop fuel s' in if more then rest else some s'

-- `shell_state_t state = {0}`, and `jobs_init`
abbrev pub starting_shell : Shell
starting_shell = record {
  history = empty_history;
  jobs = jobs_init;
  last_status = pos 0;
  should_exit = false;
  interactive = false;
  shell_pgid = 0;
}

module _ {W : Type 0} where
  -- behind the loop
  unfoldable pub finish : Option (Session W) → Option (ℤ × Shell)
  unfolding history_free
  finish none = none
  finish (some s) =
      some
        (s.run.shell.last_status, record s.run.shell { history = history_free s.run.shell.history })

  -- the session that the loop starts with, on the lines of the input and the shell's descriptors
  unfoldable pub starting_session : List Text → Table → Shell × W → Session W
  starting_session input base (shell, world) = record {
    run = record { shell = shell; world = world; log = [] };
    input = input;
    files = [];
    base = base;
    pipes = 0;
  }

  -- The result, and the state at the end. The loop takes a line a round, and one more round to
  -- find that there is none.
  unfoldable pub main : Os W → Terminal W → List Text → Table → Signals → W → Option (ℤ × Shell)
  unfolding starting_session main_loop finish install_signal_handlers
  main os terminal input base signals world =
      let (installed, _) = install_signal_handlers terminal starting_shell signals world in
      finish (main_loop os (suc (length input)) (starting_session input base installed))
