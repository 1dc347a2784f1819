-- ===== src/Signals/Interleaving.antt =====
-- The shell, its SIGCHLD handler and its children in any order, without the built-ins fg and bg:
-- execute_pipeline of executor.c, the report of main.c and the reaper of signals.c as steps.
-- Signals.Resumed has these steps together with those of fg and bg, which change the job table too. The shell's own steps between
-- `block_sigchld` and `unblock_sigchld` need the signal blocked, the handler needs it unblocked, and
-- a child may end at any time.
use unix_shell.Base.{
  ℕ, ◌≡◌, Bool, true, false, ◌||◌, List, [], ◌∷◌, ◌++◌, Option, none, some, ◌==◌, if◌then◌else◌,
}
use unix_shell.Cstring.{Text}
use unix_shell.Executor.{job_stopped}
use unix_shell.Jobs.{
  jobs_find_by_pid, JobsTable, running, jobs_init, jobs_add, jobs_remove_by_pid,
  jobs_notify_completed, jobs_clear_done,
}
use unix_shell.Signals.{Report, sigchld_handler}

-- Whether SIGCHLD is blocked; the first stages of pipelines that are alive; the reports for which
-- `waitpid` has not been called; the first stage that `spawn_pipeline` has started, until it is a
-- job or was waited for; and the job table.
pub record State : Type 0 where
  pub blocked : Bool
  pub alive : ℕ → Bool
  pub waiting : List Report
  pub started : Option ℕ
  pub jobs : JobsTable

unfoldable pub is_waiting : List Report → ℕ → Bool
is_waiting [] pid = false
is_waiting ((ended, status) ∷ reports) pid = ended == pid || is_waiting reports pid

unfoldable pub set_alive : Bool → ℕ → (ℕ → Bool) → ℕ → Bool
set_alive b pid alive x = if x == pid then b else alive x

-- a child that ends, or is waited for
unfoldable pub without : ℕ → List Report → List Report
without pid [] = []
without pid ((ended, status) ∷ reports) =
    let rest = without pid reports in if ended == pid then rest else (ended, status) ∷ rest

abbrev pub ends : ℕ → ℕ → State → State
ends pid status s = record s {
  alive = set_alive false pid s.alive;
  waiting = s.waiting ++ (pid, status) ∷ [];
}

abbrev pub start : ℕ → State → State
start pid s = record s { alive = set_alive true pid s.alive; started = some pid }

-- `jobs_add`, in the background
abbrev pub record_job : ℕ → Text → State → State
record_job pid label s = record s { started = none; jobs = (jobs_add s.jobs pid label running).1 }

-- `wait_foreground_group` that sees all children end
abbrev pub wait_foreground : ℕ → State → State
wait_foreground pid s = record s {
  alive = set_alive false pid s.alive;
  waiting = without pid s.waiting;
  started = none;
  jobs = jobs_remove_by_pid s.jobs pid;
}

-- `wait_foreground_group` that sees a child stop
abbrev pub stop_foreground : ℕ → Text → State → State
stop_foreground pid label s = record s {
  started = none;
  jobs = (job_stopped (jobs_find_by_pid s.jobs pid) s.jobs pid label).1;
}

abbrev pub handle : State → State
handle s = record s { waiting = []; jobs = sigchld_handler s.jobs s.waiting }

pub data Step (s : State) : State → Type 0 where
  block : s.blocked ≡ false → Step s (record s { blocked = true })
  unblock : s.blocked ≡ true → s.started ≡ none → Step s (record s { blocked = false })
  fork :
      (pid : ℕ)
      → s.blocked ≡ true
      → s.started ≡ none
      → s.alive pid ≡ false
      → is_waiting s.waiting pid ≡ false
      → Step s (start pid s)
  add :
      (pid : ℕ) (label : Text)
      → s.blocked ≡ true
      → s.started ≡ some pid
      → Step s (record_job pid label s)
  wait : (pid : ℕ) → s.blocked ≡ true → s.started ≡ some pid → Step s (wait_foreground pid s)
  stop :
      (pid : ℕ) (label : Text)
      → s.blocked ≡ true
      → s.started ≡ some pid
      → Step s (stop_foreground pid label s)
  -- a later stage could not be started
  give_up : s.blocked ≡ true → Step s (record s { started = none })
  child_ends : (pid status : ℕ) → s.alive pid ≡ true → Step s (ends pid status s)
  reap : s.blocked ≡ false → Step s (handle s)
  notify : s.blocked ≡ true → Step s (record s { jobs = (jobs_notify_completed s.jobs).1 })
  clear : s.blocked ≡ true → Step s (record s { jobs = jobs_clear_done s.jobs })

abbrev pub initial : State
initial = record {
  blocked = false;
  alive = λ pid. false;
  waiting = [];
  started = none;
  jobs = jobs_init;
}

pub data Reach : State → Type 0 where
  init : Reach initial
  next : {s t : State} → Reach s → Step s t → Reach t
