-- ===== src/Signals/Inherited.antt =====
-- What a program inherits of the shell's signals.
use unix_shell.Base.{ℕ, ◌==◌, ◌≡◌, refl, ◌∙◌, true, false, if◌then◌else◌, arith}
use unix_shell.Process.{
  Disposition, default, ignored, handled, Signals, set_action, exec_disposition, Table, sigchld,
}
use unix_shell.Builtins.{Shell, Process, Run}
use unix_shell.Spawn.Exec.{Loader, Image, becomes, exec_child}
use unix_shell.Spawn.Wiring.{HasStreams}
use unix_shell.Spawn.Images.{IsOpener, HasDocument}
use unix_shell.Spawn.Programs.{is_shell_signal, exec_child-Starts}
use unix_shell.Parser.{Command}
use unix_shell.Signals.Install.{
  Terminal, ignore_signal, shell_actions, install_signal_handlers, block_sigchld, unblock_sigchld,
}

installed_action :
    (s : Signals) (n : ℕ)
    → (if is_shell_signal n then default else exec_disposition ((shell_actions s).action n))
      ≡ (if is_shell_signal n then default else exec_disposition (s.action n))
unfolding shell_actions ignore_signal set_action exec_disposition
installed_action s n = ground arith

-- what the shell has of the dispositions `s` that it was started with
abbrev pub shell_disposition : Signals → ℕ → Disposition
shell_disposition s n =
    if n == sigchld then handled else if is_shell_signal n then ignored else s.action n

shell_actions_lem : (s : Signals) (n : ℕ) → (shell_actions s).action n ≡ shell_disposition s n
unfolding shell_actions ignore_signal set_action
shell_actions_lem s n = ground arith

-- Installing the handlers makes the shell handle SIGCHLD, ignore the five others of its signals and
-- keep every other disposition. Where it then blocks SIGCHLD, and a child of it has its program
-- replaced, with the standard streams open, the descriptor of a here-document, if there is one, open,
-- closed at exec and neither 0 nor 1, and `open` returning only descriptors that are not open: the program has no signal
-- blocked, the default disposition for each of the six signals that the shell ignores or handles,
-- and for every other what exec leaves of the one that the shell was started with.
pub exec_child-install_signal_handlers :
    {W V : Type 0} (loader : Loader) (sys : Process W) (opener : IsOpener loader) (cmd : Command)
    (run : Run W) (t : Table) (terminal : Terminal V) (shell : Shell) (s : Signals) (world : V)
    {image : Image}
    → HasStreams t
    → HasDocument cmd.heredoc_fd t
    → exec_child loader sys cmd run
        (block_sigchld (install_signal_handlers terminal shell s world).1).1
        t
      ≡ becomes image
    → (n : ℕ)
    → ((install_signal_handlers terminal shell s world).1.action n ≡ shell_disposition s n)
      × (image.signals.mask n ≡ false)
      × (image.signals.action n
          ≡ (if is_shell_signal n then default else exec_disposition (s.action n)))
unfolding block_sigchld install_signal_handlers
exec_child-install_signal_handlers loader sys opener cmd run t terminal shell s world st d e n =
    let starts =
      exec_child-Starts loader sys opener cmd run
        (block_sigchld (install_signal_handlers terminal shell s world).1).1 t st d e in
    (shell_actions_lem s n, starts.unblocked n, starts.actions n ∙ installed_action s n)

-- `unblock_sigchld` with the mask that `block_sigchld` returned restores all, also where SIGCHLD
-- was blocked before; in between SIGCHLD is blocked.
pub unblock_sigchld-block_sigchld :
    (s : Signals)
    → let (prev, blocked) = block_sigchld s in
      (blocked.mask sigchld ≡ true) × (unblock_sigchld prev blocked ≡ s)
unfolding block_sigchld unblock_sigchld
unblock_sigchld-block_sigchld s = (ground arith, refl)
