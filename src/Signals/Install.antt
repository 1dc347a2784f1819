-- ===== src/Signals/Install.antt =====
-- signals.c: the shell's dispositions, and blocking SIGCHLD.
use unix_shell.Base.{ℕ, Bool, true, false, ◌||◌, ◌==◌, if◌then◌else◌}
use unix_shell.Process.{
  ignored, handled, Signals, set_action, sigint, sigquit, sigchld, sigtstp, sigttin, sigttou,
}
use unix_shell.Builtins.{Shell}

unfoldable pub ignore_signal : ℕ → Signals → Signals
unfolding set_action
ignore_signal signum s = set_action ignored signum s

-- `isatty` of the standard input, `getpgrp`, `getpid`, and the calls that claim the terminal, on
-- the system's state
pub record Terminal (W : Type 0) : Type 0 where
  pub isatty : W → Bool
  pub getpgrp : W → ℕ
  pub getpid : W → ℕ
  pub setpgid : ℕ → ℕ → W → W
  pub tcsetpgrp : ℕ → W → W

-- the five that the shell ignores, and the handler
unfoldable pub shell_actions : Signals → Signals
unfolding ignore_signal set_action
shell_actions s = set_action handled sigchld (
    ignore_signal sigttou (
      ignore_signal sigttin
        (ignore_signal sigtstp (ignore_signal sigquit (ignore_signal sigint s)))))

module _ {W : Type 0} (terminal : Terminal W) where
  open terminal use {isatty, getpgrp, getpid, setpgid, tcsetpgrp}

  -- where the shell has a terminal, it leads a group of its own and claims the terminal
  abbrev own_group : Shell → W → Shell × W
  own_group shell world =
      if isatty world
      then (
        record shell { interactive = true; shell_pgid = getpid world },
        tcsetpgrp (getpid world) (setpgid (getpid world) (getpid world) world),
      )
      else (record shell { interactive = false; shell_pgid = getpgrp world }, world)

  unfoldable pub install_signal_handlers : Shell → Signals → W → (Shell × W) × Signals
  unfolding shell_actions
  install_signal_handlers shell s world = (own_group shell world, shell_actions s)

-- the mask that was, and the signals with SIGCHLD blocked
unfoldable pub block_sigchld : Signals → (ℕ → Bool) × Signals
block_sigchld s = (s.mask, record s { mask = λ n. s.mask n || n == sigchld })

unfoldable pub unblock_sigchld : (ℕ → Bool) → Signals → Signals
unblock_sigchld prev_mask s = record s { mask = prev_mask }
