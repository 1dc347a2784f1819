-- ===== src/Spawn/Exec.antt =====
-- executor.c: what a child does before its program, or instead of it.
use unix_shell.Base.{ℕ, Bool, false, List, [], ◌∷◌, ◌++◌, Option, none, some, if◌then◌else◌, get_or}
use unix_shell.Base.Int.{ℤ, pos, negsuc}
use unix_shell.Cstring.{Text, codes}
use unix_shell.Parser.{Command}
use unix_shell.Process.{
  Mode, read_only, truncating, appending, file, kept, Table, put, close, dup2, at_exec, default,
  Signals, set_action, exec_disposition, sigint, sigquit, sigchld, sigtstp, sigttin, sigttou,
}
use unix_shell.Builtins.{Process, Output, err, Run, Result}
use unix_shell.Builtins.Dispatch.{is_builtin, run_builtin}

-- What a child asks the kernel for: `open`, given the open descriptors, and `execvp`, which
-- returns only where it fails. Both fail with the text of the error.
pub data Opening : Type 0 where
  opened : ℕ → Opening
  refused : Text → Opening

pub record Loader : Type 0 where
  pub open_file : Table → Text → Mode → Opening
  pub execvp : List Text → Option Text

-- The child goes on with its descriptors, or it exits with a message.
pub data Redirected : Type 0 where
  going_on : Table → Redirected
  stops : Text → Redirected

abbrev pub path_error : Text → Text → Text
path_error path e = codes "mysh: " ++ (path ++ (codes ": " ++ (e ++ codes "\n")))

-- the file that was opened becomes the stream `stream`
unfoldable pub onto_stream : ℕ → Text → Mode → Table → Opening → Redirected
unfolding dup2 put
onto_stream stream path mode t (refused e) = stops (path_error path e)
onto_stream stream path mode t (opened fd) =
    going_on (close fd (dup2 fd stream (put fd (some (kept (file path mode))) t)))

abbrev pub output_mode : Bool → Mode
output_mode append_mode = if append_mode then appending else truncating

module _ (loader : Loader) where
  open loader use {open_file, execvp}

  unfoldable pub redirect_file : ℕ → Mode → Option Text → Table → Redirected
  unfolding onto_stream
  redirect_file stream mode none t = going_on t
  redirect_file stream mode (some path) t = onto_stream stream path mode t (open_file t path mode)

  -- a here-document takes precedence over `<`
  unfoldable pub redirect_input : ℤ → Option Text → Table → Redirected
  unfolding redirect_file dup2 put
  redirect_input (pos fd) input_file t = going_on (close fd (dup2 fd 0 t))
  redirect_input (negsuc n) input_file t = redirect_file 0 read_only input_file t

  unfoldable pub redirect_output : Command → Redirected → Redirected
  unfolding redirect_file
  redirect_output cmd (stops message) = stops message
  redirect_output cmd (going_on t) = redirect_file 1 (output_mode cmd.append_mode) cmd.output_file t

  unfoldable pub apply_redirection : Command → Table → Redirected
  unfolding redirect_input redirect_output
  apply_redirection cmd t = redirect_output cmd (redirect_input cmd.heredoc_fd cmd.input_file t)

-- the six calls of `signal`
unfoldable pub reset_child_signals : Signals → Signals
unfolding set_action
reset_child_signals s = set_action default sigchld (
    set_action default sigttou (
      set_action default sigttin
        (set_action default sigtstp (set_action default sigquit (set_action default sigint s)))))

-- `sigprocmask(SIG_SETMASK, &empty, NULL)`
abbrev pub clear_mask : Signals → Signals
clear_mask s = record s { mask = λ n. false }

-- a new program: its arguments, its descriptors and its signals
pub record Image : Type 0 where
  pub args : List Text
  pub table : Table
  pub signals : Signals

-- How `exec_child` ends: the child exits with a status, having written a log (a built-in with the
-- descriptors that it had), or the program is replaced.
pub data Ended : Type 0 where
  exits : ℤ → List Output → Table → Ended
  becomes : Image → Ended

unfoldable pub image_of : List Text → Table → Signals → Image
unfolding at_exec exec_disposition
image_of args t s = record {
  args = args;
  table = λ fd. at_exec (t fd);
  signals = record s { action = λ n. exec_disposition (s.action n) };
}

module _ {W : Type 0} (loader : Loader) (sys : Process W) where
  open loader use {execvp}

  unfoldable pub replaced : Command → Table → Signals → Option Text → Ended
  unfolding image_of
  replaced cmd t s none = becomes (image_of cmd.args t s)
  replaced cmd t s (some e) = exits (pos 1) (err (path_error (get_or cmd.args 0 []) e) ∷ []) t

  abbrev pub builtin_ended : Table → Result W → Ended
  builtin_ended t (code, run) = exits code run.log t

  -- behind the redirections; a built-in runs on the child's copy of the shell's state
  unfoldable pub redirected : Command → Run W → Signals → Table → Redirected → Ended
  unfolding replaced
  redirected cmd run s t (stops message) = exits (pos 1) (err message ∷ []) t
  redirected cmd run s t (going_on t') =
      if is_builtin (get_or cmd.args 0 [])
      then builtin_ended t' (run_builtin sys cmd run)
      else replaced cmd t' s (execvp cmd.args)

  unfoldable pub exec_child : Command → Run W → Signals → Table → Ended
  unfolding redirected apply_redirection reset_child_signals
  exec_child cmd run s t =
      redirected cmd run (reset_child_signals (clear_mask s)) t (apply_redirection loader cmd t)
