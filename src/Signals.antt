-- ===== src/Signals.antt =====
-- signals.c: what the SIGCHLD handler does to the job table.
pub mod Reaping
pub mod Install
pub mod Inherited
pub mod Leaders
pub mod Interleaving
pub mod Tracked
pub mod Handled
pub mod NoLost
pub mod Finished
pub mod Resumed
pub mod Tests
use unix_shell.Base.{ℕ, List, [], ◌∷◌}
use unix_shell.Jobs.{JobsTable, jobs_mark_done}

-- what a call of `waitpid(-1, …, WNOHANG)` reports: a process id, and the status word
abbrev pub Report : Type 0
Report = ℕ × ℕ

-- The loop of the handler, on what `waitpid` reports until it has no more. (The handler is
-- installed behind `jobs_init`, so its pointer to the table is set.)
unfoldable pub sigchld_handler : JobsTable → List Report → JobsTable
sigchld_handler table [] = table
sigchld_handler table ((pid, status) ∷ reports) =
    sigchld_handler (jobs_mark_done table pid status) reports
