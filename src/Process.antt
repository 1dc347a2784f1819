-- ===== src/Process.antt =====
-- What the kernel keeps for a process: its descriptors, and what it does with signals.
use unix_shell.Base.{ℕ, Bool, false, Option, none, some, ◌==◌, if◌then◌else◌}
use unix_shell.Cstring.{Text}

-- how a file is opened: `<`, `>` and `>>`
pub data Mode : Type 0 where
  read_only truncating appending : Mode

-- What a descriptor stands for: a stream that the shell was started with, an end of a pipe (the
-- pipes are numbered as they are made), a here-document, or a file.
pub data Target : Type 0 where
  inherited : ℕ → Target
  pipe_read : ℕ → Target
  pipe_write : ℕ → Target
  document : Text → Target
  file : Text → Mode → Target

pub record Entry : Type 0 where
  pub target : Target
  pub cloexec : Bool

-- a descriptor that exec leaves open
abbrev pub kept : Target → Entry
kept target = record { target = target; cloexec = false }

abbrev pub Table : Type 0
Table = ℕ → Option Entry

unfoldable pub put : ℕ → Option Entry → Table → Table
put fd e t x = if x == fd then e else t x

abbrev pub close : ℕ → Table → Table
close fd t = put fd none t

-- `dup2` of a descriptor that is not open fails and changes nothing
unfoldable pub copied : Option Entry → Option Entry → Option Entry
copied none old = old
copied (some e) old = some (kept e.target)

unfoldable pub dup2 : ℕ → ℕ → Table → Table
unfolding put copied
dup2 from to t = if from == to then t else put to (copied (t from) (t to)) t

-- what is left of the table when exec has replaced the program
unfoldable pub at_exec : Option Entry → Option Entry
at_exec none = none
at_exec (some e) = if e.cloexec then none else some e

-- what a process does with a signal
pub data Disposition : Type 0 where
  default ignored handled : Disposition

-- the blocked signals, and the disposition of each
pub record Signals : Type 0 where
  pub mask : ℕ → Bool
  pub action : ℕ → Disposition

unfoldable pub set_action : Disposition → ℕ → Signals → Signals
set_action d n s = record s { action = λ x. if x == n then d else s.action x }

-- exec gives up handlers, and keeps what is ignored and what is blocked
unfoldable pub exec_disposition : Disposition → Disposition
exec_disposition handled = default
exec_disposition d = d

-- the numbers of the signals on Linux
abbrev pub sigint : ℕ
sigint = 2

abbrev pub sigquit : ℕ
sigquit = 3

abbrev pub sigchld : ℕ
sigchld = 17

abbrev pub sigtstp : ℕ
sigtstp = 20

abbrev pub sigttin : ℕ
sigttin = 21

abbrev pub sigttou : ℕ
sigttou = 22
