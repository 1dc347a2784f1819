-- ===== src/Executor.antt =====
-- executor.c: the label of a pipeline, exit codes, and waiting for a foreground group.
pub mod Label
pub mod Waiting
mod Tests
use unix_shell.Base.{
  ℕ, zero, suc, ◌+◌, ◌-◌, Bool, true, false, ◌&&◌, ◌||◌, List, [], ◌∷◌, ◌++◌, Option, none, some,
  ltb, ◌==◌, if◌then◌else◌, length, take, get_or,
}
use unix_shell.Base.Int.{ℤ, pos, negsuc}
use unix_shell.Cstring.{Text, codes}
use unix_shell.Cstring.Format.{decimal_int, truncated}
use unix_shell.Parser.{Command, Pipeline}
use unix_shell.Jobs.{
  Job, JobState, stopped, JobsTable, cleared, jobs_add, jobs_find_by_pid, jobs_remove_by_pid,
  write_found,
}
use unix_shell.Jobs.Reach.{set_state}

-- `used` and the string in the buffer
abbrev pub Label : Type 0
Label = ℕ × Text

-- `used += snprintf(buf + used, size - used, …)`
unfoldable pub append_label : ℕ → Label → Text → Label
append_label size (used, buf) s = (used + length s, take used buf ++ truncated (size - used) s)

-- `"%s%s"` with the space in front of all arguments but the first
abbrev pub label_arg : ℕ → Text → Text
label_arg a arg = if ltb 0 a then b' ' ∷ arg else arg

unfoldable pub label_args : ℕ → ℕ → List Text → Label → Label
unfolding append_label
label_args size a [] label = label
label_args size a (arg ∷ args) label =
    let rest = label_args size (a + 1) args (append_label size label (label_arg a arg)) in
    if ltb label.0 size then rest else label

unfoldable pub label_separator : ℕ → ℕ → Label → Label
unfolding append_label
label_separator size c label = if ltb 0 c then append_label size label (codes " | ") else label

unfoldable pub label_commands : ℕ → ℕ → List Command → Label → Label
unfolding label_args label_separator
label_commands size c [] label = label
label_commands size c (cmd ∷ cmds) label =
    let rest =
      label_commands size (c + 1) cmds
        (label_args size 0 cmd.args (label_separator size c label)) in
    if ltb label.0 size then rest else label

unfoldable pub format_pipeline_label : Pipeline → ℕ → Text
unfolding label_commands
format_pipeline_label pipeline size = (label_commands size 0 pipeline.commands (0, [])).1

-- What `waitpid` reports of a child: its exit status, or the signal that killed or stopped it.
pub data Status : Type 0 where
  exited : ℕ → Status
  signaled : ℕ → Status
  suspended : ℕ → Status

unfoldable pub status_to_code : Status → ℕ
status_to_code (exited code) = code
status_to_code (signaled signal) = 128 + signal
status_to_code (suspended signal) = 0

-- SIGINT and SIGQUIT
unfoldable pub is_interrupt : Status → Bool
is_interrupt (signaled signal) = signal == 2 || signal == 3
is_interrupt _ = false

-- The result, the table and what is printed.
abbrev pub Waited : Type 0
Waited = ℕ × (JobsTable × Text)

abbrev pub stopped_line : ℤ → Text → Text
stopped_line id label =
    codes "\n[" ++ (decimal_int id ++ (codes "]  Stopped  " ++ (label ++ codes "\n")))

-- the job that a scan found is marked, or a new one is added
unfoldable pub job_stopped : Option ℕ → JobsTable → ℕ → Text → ℤ × JobsTable
job_stopped none table pgid label = jobs_add table pgid label stopped
job_stopped (some i) table pgid label =
    (pos (get_or table.jobs i cleared).job_id, write_found (some i) (set_state stopped) table)

unfoldable pub group_stopped : JobsTable → ℕ → Text → ℕ → Waited
unfolding job_stopped
group_stopped table pgid label signal =
    let (id, table') = job_stopped (jobs_find_by_pid table pgid) table pgid label in
    (128 + signal, (table', stopped_line id label))

-- The loop, on what `waitpid` reports of the group until it has no members left. (SIGCHLD is
-- blocked, so nothing else changes the table.)
unfoldable pub wait_loop : Bool → JobsTable → ℕ → Text → ℕ → Bool → List Status → Waited
unfolding group_stopped status_to_code is_interrupt
wait_loop interactive table pgid label last_status interrupted [] = (
  last_status,
  (jobs_remove_by_pid table pgid, if interrupted && interactive then codes "\n" else []),
)
wait_loop interactive table pgid label last_status interrupted (suspended signal ∷ statuses) =
    group_stopped table pgid label signal
wait_loop interactive table pgid label last_status interrupted (status ∷ statuses) =
    wait_loop interactive table pgid label (status_to_code status)
      (interrupted || is_interrupt status) statuses

unfoldable pub wait_foreground_group : Bool → JobsTable → ℕ → Text → List Status → Waited
unfolding wait_loop
wait_foreground_group interactive table pgid label statuses =
    wait_loop interactive table pgid label 0 false statuses
