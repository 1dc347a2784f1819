-- ===== src/Spawn/Tests.antt =====
-- Pipelines and children on a small kernel, and the theorems about them there.
use unix_shell.Base.{
  ℕ, suc, ◌+◌, ◌≡◌, ◌≢◌, refl, subst, true, false, List, [], ◌∷◌, Option, none, some, ◌==◌,
  if◌then◌else◌, arith,
}
use unix_shell.Base.Int.{pos}
use unix_shell.Cstring.{Text, codes, equal}
use unix_shell.Parser.{Command, Pipeline, empty_command}
use unix_shell.Jobs.{job_cmd_len, jobs_init}
use unix_shell.Jobs.Add.{jobs_init-IsTable}
use unix_shell.History.{empty_history}
use unix_shell.Executor.{exited, format_pipeline_label}
use unix_shell.Builtins.{Process, Run}
use unix_shell.Builtins.Dispatch.{is_builtin}
use unix_shell.Builtins.Frame.{Frame}
use unix_shell.Process.{
  truncating, inherited, file, Entry, kept, Table, put, dup2, close, Signals, ignored,
}
use unix_shell.Spawn.{Kernel, Spawning, spawn_pipeline}
use unix_shell.Spawn.Wiring.{HasStreams}
use unix_shell.Spawn.Stages.{IsNewPipe}
use unix_shell.Spawn.Exec.{
  Loader, Opening, opened, refused, becomes, image_of, exec_child, reset_child_signals, clear_mask,
}
use unix_shell.Spawn.Images.{IsOpener}
use unix_shell.Spawn.Programs.{Starts, exec_child-Starts}
use unix_shell.Spawn.Execute.{execute_pipeline}
use unix_shell.Builtins.Waits.{Waits}
use unix_shell.Spawn.Running.{
  Recorded, execute_pipeline-Frame, execute_pipeline-background, execute_pipeline-foreground,
}

-- the system's state is the next number
abbrev next_pair : Option Entry → Option Entry → ℕ → Option (ℕ × ℕ)
next_pair none none n = some (n, suc n)
next_pair none (some e) n = none
next_pair (some e) second n = none

abbrev pub kernel : Kernel ℕ
kernel = record {
  pipe = λ t n. (next_pair (t n) (t (suc n)) n, n + 2);
  fork = λ n. (some n, n + 1);
}

next_pair_new :
    (t : Table) (n : ℕ) (first second : Option Entry) (r w : ℕ)
    → t n ≡ first
    → t (suc n) ≡ second
    → next_pair first second n ≡ some (r, w)
    → (t r ≡ none) × (t w ≡ none) × (r ≢ w)
next_pair_new t n none none r w e f h =
    let same : (n ≡ r) × (suc n ≡ w) = (cc, cc) in
    (
      subst (λ x. t x ≡ none) same.0 e,
      subst (λ x. t x ≡ none) same.1 f,
      omega (arith, same.0, same.1),
    )
next_pair_new t n none (some x) r w e f h = absurd cc
next_pair_new t n (some x) second r w e f h = absurd cc

pub kernel-IsNewPipe : IsNewPipe kernel
kernel-IsNewPipe t n r w n' e = next_pair_new t n (t n) (t (suc n)) r w refl refl cc

abbrev pub terminal_table : Table
terminal_table fd =
    if fd == 0
    then some (kept (inherited 0))
    else if fd == 1
    then some (kept (inherited 1))
    else none

pub terminal-HasStreams : HasStreams terminal_table
terminal-HasStreams = ((λ e. absurd cc), (λ e. absurd cc))

abbrev pub word : Text → Command
word name = record empty_command { args = name ∷ [] }

abbrev cat_wc : List Command
cat_wc = word (codes "cat") ∷ word (codes "wc") ∷ []

cat_wc_spawned : (spawn_pipeline kernel cat_wc terminal_table 0 5).0 ≡ pos 2
unfolding spawn_pipeline
cat_wc_spawned = refl

-- `open` returns 7, unless it is taken; every program is found
abbrev open_seven : Option Entry → Opening
open_seven none = opened 7
open_seven (some e) = refused (codes "Too many open files")

abbrev pub loader : Loader
loader = record { open_file = λ t path mode. open_seven (t 7); execvp = λ args. none }

open_seven_new :
    (t : Table) (old : Option Entry) (fd : ℕ) → t 7 ≡ old → open_seven old ≡ opened fd → t fd ≡ none
open_seven_new t none fd e h = let same : 7 ≡ fd = cc in subst (λ x. t x ≡ none) same e
open_seven_new t (some x) fd e h = absurd cc

pub loader-IsOpener : IsOpener loader
loader-IsOpener t path mode fd e = open_seven_new t (t 7) fd refl e

abbrev pub process : Process ℕ
process = record {
  getenv = λ w name. none;
  chdir = λ dir w. (none, w);
  setenv = λ name value w. (none, w);
  kill = λ target signal w. (none, w);
  tcsetpgrp = λ pgid w. w;
  wait_group = λ pgid w. (exited 0 ∷ [], w);
}

abbrev pub shell_run : Run ℕ
shell_run = record {
  shell = record {
    history = empty_history;
    jobs = jobs_init;
    last_status = pos 0;
    should_exit = false;
    interactive = true;
    shell_pgid = 3;
  };
  world = 5;
  log = [];
}

abbrev pub sort_to_file : Command
sort_to_file = record empty_command { args = codes "sort" ∷ []; output_file = some (codes "out") }

abbrev ignoring : Signals
ignoring = record { mask = λ n. true; action = λ n. ignored }

abbrev sorted_table : Table
sorted_table =
    close 7 (dup2 7 1 (put 7 (some (kept (file (codes "out") truncating))) terminal_table))

sort_replaced :
    exec_child loader process sort_to_file shell_run ignoring terminal_table
    ≡ becomes
        (image_of (codes "sort" ∷ []) sorted_table (reset_child_signals (clear_mask ignoring)))
unfolding exec_child is_builtin equal
sort_replaced = refl

exec_child-Starts_example :
    Starts sort_to_file terminal_table ignoring
      (image_of (codes "sort" ∷ []) sorted_table (reset_child_signals (clear_mask ignoring)))
exec_child-Starts_example =
    exec_child-Starts loader process loader-IsOpener sort_to_file shell_run ignoring terminal_table
      terminal-HasStreams tt sort_replaced

abbrev pub sleeping : Pipeline
sleeping = record { commands = cat_wc; background = true }

execute_pipeline-Frame_example :
    Frame false shell_run.shell
      (execute_pipeline process kernel sleeping shell_run terminal_table 0).1.run.shell
execute_pipeline-Frame_example =
    execute_pipeline-Frame process kernel sleeping shell_run terminal_table 0

abbrev both_started : Spawning ℕ
both_started = (spawn_pipeline kernel cat_wc terminal_table 0 5).1

both_spawned : spawn_pipeline kernel cat_wc terminal_table 0 5 ≡ (pos 2, both_started)
unfolding spawn_pipeline
both_spawned = refl

execute_pipeline-background_example :
    let (code, e) = execute_pipeline process kernel sleeping shell_run terminal_table 0 in
    (code ≡ pos 0)
    × Recorded jobs_init 7 (format_pipeline_label sleeping job_cmd_len) e.run.shell.jobs
unfolding spawn_pipeline
execute_pipeline-background_example =
    execute_pipeline-background process kernel sleeping shell_run terminal_table 0 jobs_init-IsTable
      refl both_spawned refl

abbrev awaited : Pipeline
awaited = record { commands = cat_wc; background = false }

execute_pipeline-foreground_example :
    let (code, e) = execute_pipeline process kernel awaited shell_run terminal_table 0 in
    Waits process 7
      (format_pipeline_label awaited job_cmd_len)
      jobs_init
      shell_run
      []
      9
      (code, e.run)
unfolding spawn_pipeline
execute_pipeline-foreground_example =
    execute_pipeline-foreground process kernel awaited shell_run terminal_table 0 refl both_spawned
      refl
