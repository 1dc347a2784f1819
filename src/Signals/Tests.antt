-- ===== src/Signals/Tests.antt =====
-- The handler on a concrete table, and the theorem about it there.
use unix_shell.Base.{ℕ, ◌==◌, if◌then◌else◌, false, ◌≡◌, refl, List, [], ◌∷◌, some, true}
use unix_shell.Base.Int.{pos}
use unix_shell.Cstring.{codes}
use unix_shell.Jobs.{
  Job, JobsTable, running, new_job, jobs_init, jobs_add, jobs_mark_done, jobs_find_by_id,
}
use unix_shell.Jobs.Lookup.{job_of}
use unix_shell.Signals.{Report, sigchld_handler}
use unix_shell.Cstring.{equal}
use unix_shell.Process.{Signals, default, ignored, exec_disposition, sigint}
use unix_shell.Spawn.Exec.{Image, becomes, image_of, exec_child, reset_child_signals, clear_mask}
use unix_shell.Spawn.Programs.{is_shell_signal}
use unix_shell.Spawn.Tests.{
  loader, loader-IsOpener, process, shell_run, terminal_table, terminal-HasStreams, word,
}
use unix_shell.Builtins.Dispatch.{is_builtin}
use unix_shell.Signals.Install.{Terminal, install_signal_handlers, block_sigchld}
use unix_shell.Signals.Inherited.{exec_child-install_signal_handlers}
use unix_shell.Signals.Interleaving.{
  State, is_waiting, set_alive, ends, start, handle, initial, block, fork,
}
use unix_shell.Base.{All-replicate}
use unix_shell.Executor.{exited, suspended, wait_foreground_group, job_stopped}
use unix_shell.Jobs.{stopped, cleared, jobs_find_by_pid, write_found, modify}
use unix_shell.Jobs.Reach.{set_state}
use unix_shell.Signals.Interleaving.{stop_foreground, stop}
use unix_shell.Signals.Leaders.{OtherBy}
use unix_shell.Signals.Resumed.{
  used, IsCalm, CalmRun, begin, move, shell, bg, resume_job, resumed_by_bg,
}
use unix_shell.Signals.Resumed.Accounted.{IsAccounted, CalmRun-IsAccounted}
use unix_shell.Signals.Resumed.Followed.{IsFollowed, CalmRun-IsFollowed}
use unix_shell.Signals.Resumed.Orphaned.{orphaned}
use unix_shell.Signals.Resumed.HalfEnded.{half_ended}
use unix_shell.Jobs.Add.{jobs_init-IsTable}
use unix_shell.Jobs.Laws.{IsLive}
use unix_shell.Base.{All}
use unix_shell.Signals.Reaping.{Reaped, ended, sigchld_handler-Reaped}

abbrev two_jobs : JobsTable
two_jobs = (jobs_add (jobs_add jobs_init 71 (codes "cat") running).1 72 (codes "wc") running).1

abbrev cat_job : Job
cat_job = record {
  pid = 71;
  job_id = 1;
  state = running;
  status = 0;
  in_use = true;
  command = codes "cat";
}

abbrev reports : List Report
reports = (9, 0) ∷ (71, 256) ∷ []

cat_found : job_of two_jobs (pos 1) ≡ some cat_job
unfolding jobs_add jobs_init jobs_find_by_id
cat_found = refl

cat_ended : job_of (sigchld_handler two_jobs reports) (pos 1) ≡ some (ended 256 cat_job)
unfolding jobs_add jobs_init jobs_find_by_id sigchld_handler jobs_mark_done
cat_ended = refl

sigchld_handler-Reaped_example :
    (j' : Job) × (job_of (sigchld_handler two_jobs reports) (pos 1) ≡ some j')
    × Reaped reports cat_job j'
sigchld_handler-Reaped_example = sigchld_handler-Reaped two_jobs reports 1 cat_job cat_found

-- A first stage that was forked, with SIGCHLD blocked.
abbrev forked_state : State
forked_state = start 71 (record initial { blocked = true })

abbrev started_job : Job
started_job = new_job 1 71 (codes "cat") running

abbrev pub terminal : Terminal ℕ
terminal = record {
  isatty = λ w. true;
  getpgrp = λ w. 2;
  getpid = λ w. 3;
  setpgid = λ pid pgid w. w;
  tcsetpgrp = λ pgid w. w;
}

abbrev pub as_started : Signals
as_started = record { mask = λ n. false; action = λ n. if n == 1 then ignored else default }

abbrev shell_signals : Signals
shell_signals = (block_sigchld (install_signal_handlers terminal shell_run.shell as_started 5).1).1

abbrev cat_image : Image
cat_image =
    image_of (codes "cat" ∷ []) terminal_table (reset_child_signals (clear_mask shell_signals))

cat_replaced :
    exec_child loader process (word (codes "cat")) shell_run shell_signals terminal_table
    ≡ becomes cat_image
unfolding exec_child is_builtin equal
cat_replaced = refl

exec_child-install_signal_handlers_example :
    let installed = (install_signal_handlers terminal shell_run.shell as_started 5).1 in
    (installed.action sigint ≡ ignored)
    × (cat_image.signals.mask sigint ≡ false)
    × (cat_image.signals.action sigint
        ≡ (if is_shell_signal sigint then default else exec_disposition (as_started.action sigint)))
exec_child-install_signal_handlers_example =
    exec_child-install_signal_handlers loader process loader-IsOpener (word (codes "cat")) shell_run
      terminal_table terminal shell_run.shell as_started 5 terminal-HasStreams tt cat_replaced
      sigint

-- A job that is stopped and resumed in the background.
abbrev stopped_state : State
stopped_state = stop_foreground 71 (codes "cat") forked_state

abbrev resumed_state : State
resumed_state = resumed_by_bg (pos 1) stopped_state

resumed-CalmRun : CalmRun resumed_state
unfolding set_alive IsCalm jobs_init
resumed-CalmRun =
    move
      (move
        (move (move begin (shell (block refl)) tt)
          (shell (fork 71 refl refl refl (unfold is_waiting in refl)))
          (All-replicate (OtherBy used 71) 64 cleared (λ u. absurd cc)))
        (shell (stop 71 (codes "cat") refl refl)) refl)
      (bg (pos 1) refl refl) tt

resumed_found : job_of resumed_state.jobs (pos 1) ≡ some started_job
unfolding jobs_add jobs_init jobs_find_by_id jobs_find_by_pid job_stopped resume_job write_found
    modify
resumed_found = refl

CalmRun-IsFollowed_example : IsFollowed resumed_state 1 started_job running
CalmRun-IsFollowed_example = CalmRun-IsFollowed 1 started_job resumed-CalmRun resumed_found

CalmRun-IsAccounted_example : IsAccounted resumed_state
CalmRun-IsAccounted_example = CalmRun-IsAccounted resumed-CalmRun

abbrev stopped_job : Job
stopped_job = new_job 1 71 (codes "cat") stopped

stopped_found : job_of stopped_state.jobs (pos 1) ≡ some stopped_job
unfolding jobs_add jobs_init jobs_find_by_id jobs_find_by_pid job_stopped
stopped_found = refl

-- killed by the signal 9 while it is stopped; a job with another leader ends later
orphaned_example :
    let killed = handle (ends 71 9 stopped_state) in
    let t = resumed_by_bg (pos 1) (record killed { blocked = true }) in
    (t.alive 71 ≡ false)
    × (t.waiting ≡ [])
    × (job_of (sigchld_handler t.jobs ((72, 0) ∷ [])) (pos 1)
        ≡ some (set_state running stopped_job))
orphaned_example =
    orphaned stopped_state 1 stopped_job 9 ((72, 0) ∷ []) stopped_found refl
      (unfold is_waiting in refl)

jobs_init-IsLive : ¬ All IsLive jobs_init.jobs
unfolding jobs_init
jobs_init-IsLive all = let live = all.0 in cc live

-- The first stage ends, the second one stops, is resumed and ends: nothing marks the job.
half_ended_example :
    let (code, (table, printed)) =
      wait_foreground_group true jobs_init 71 (codes "true | cat") (exited 0 ∷ suspended 20 ∷ []) in
    job_of (sigchld_handler (resume_job (pos 1) table) ((72, 0) ∷ [])) (pos 1)
    ≡ some (new_job 1 71 (codes "true | cat") running)
unfolding jobs_init
half_ended_example =
    half_ended true jobs_init 71 (codes "true | cat") 20 (exited 0 ∷ []) [] ((72, 0) ∷ [])
      jobs_init-IsTable jobs_init-IsLive (unfold jobs_find_by_pid in unfold jobs_init in refl)
      (tt, tt) (unfold is_waiting in refl)
