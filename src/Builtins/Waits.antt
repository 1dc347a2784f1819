-- ===== src/Builtins/Waits.antt =====
-- What the shell's wait for a group in the foreground comes to: `fg` and a pipeline.
use unix_shell.Base.{ℕ, ◌≡◌, ◌++◌, refl, inl, inr, List, [], ◌∷◌, if◌then◌else◌, Bool-cases}
use unix_shell.Base.Int.{pos}
use unix_shell.Jobs.{JobsTable}
use unix_shell.Executor.{wait_foreground_group}
use unix_shell.Cstring.{Text}
use unix_shell.Builtins.{Output, out, Process, Run, Result, terminal_to, wait_job}

module _ {W : Type 0} (sys : Process W) where
  -- the system once a group has the terminal, where the shell of `run` is interactive
  abbrev pub given : ℕ → Run W → W → W
  given pgid run w = if run.shell.interactive then sys.tcsetpgrp pgid w else w

  -- What waiting for a group on the system's state `w` returns, leaves in the table, writes behind
  -- `log` and leaves of the system: what wait_foreground_group does with the reports of `waitpid`
  -- on that group and state, and behind that `waitpid` the terminal goes back to the shell.
  unfoldable pub Waits : ℕ → Text → JobsTable → Run W → List Output → W → Result W → Type 0
  Waits pgid label table run log w (code, run') =
      let (statuses, w') = sys.wait_group pgid w in
      let (code', (jobs, printed)) =
        wait_foreground_group run.shell.interactive table pgid label statuses in
      (code ≡ pos code')
      × (run'.shell.jobs ≡ jobs)
      × (run'.log ≡ log ++ out printed ∷ [])
      × (run'.world ≡ given run.shell.shell_pgid run w')

  pub terminal_to_kept :
      (pgid : ℕ) (run : Run W)
      → ((terminal_to sys pgid run).shell ≡ run.shell) × ((terminal_to sys pgid run).log ≡ run.log)
  terminal_to_kept pgid run = elim (Bool-cases run.shell.interactive) [
    | inl e ↦ rw e (refl, refl)
    | inr e ↦ rw e (refl, refl)
  ]

  pub given-terminal_to :
      (pgid : ℕ) (run : Run W) → (terminal_to sys pgid run).world ≡ given pgid run run.world
  given-terminal_to pgid run = elim (Bool-cases run.shell.interactive) [
    | inl e ↦ rw e refl
    | inr e ↦ rw e refl
  ]

  -- Behind the wait for a group, the terminal goes back to the shell.
  pub waited-Waits :
      (pgid : ℕ) (label : Text) (table : JobsTable) (run : Run W) (log : List Output) (w : W)
      (prepared : Run W)
      → prepared.shell.interactive ≡ run.shell.interactive
      → prepared.shell.jobs ≡ table
      → prepared.log ≡ log
      → prepared.world ≡ w
      → let (code, run') = wait_job sys pgid label prepared in
        Waits pgid label table run log w (code, terminal_to sys run.shell.shell_pgid run')
  unfolding wait_job Waits
  waited-Waits pgid label table run log w prepared i t l p =
      elim (Bool-cases prepared.shell.interactive) [
        | inl e ↦ rw (← i, ← t, ← l, ← p) (rw e (refl, refl, refl, refl))
        | inr e ↦ rw (← i, ← t, ← l, ← p) (rw e (refl, refl, refl, refl))
      ]
