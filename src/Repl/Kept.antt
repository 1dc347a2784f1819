-- ===== src/Repl/Kept.antt =====
-- What a pipeline that runs leaves of the session.
use unix_shell.Base.{
  zero, suc, ◌≤◌, ◌≡◌, refl, sym, ◌∙◌, ap, subst, Bool, false, List, [], ◌∷◌, length, get_or, map,
  All, arith, Bool-cases, inl, inr,
}
use unix_shell.Base.Int.{ℤ, pos, negsuc}
use unix_shell.Parser.{Pipeline, empty_command}
use unix_shell.Jobs.{JobsTable, jobs_mark_done}
use unix_shell.Jobs.Invariant.{IsTable, jobs_mark_done-IsTable, jobs_notify_completed-IsTable}
use unix_shell.Expand.{expand_command, expand_pipeline}
use unix_shell.Heredoc.{Collected, collect_heredocs, close_heredocs}
use unix_shell.Heredoc.Closing.{IsFresh, IsClosed, close_heredocs-collect_heredocs}
use unix_shell.Heredoc.Input.{left, collect_heredocs-input, close_heredocs-expand}
use unix_shell.Builtins.{Result}
use unix_shell.Builtins.Dispatch.{run_builtin}
use unix_shell.Builtins.Frame.{Frame}
use unix_shell.Builtins.Effects.{run_builtin-Frame}
use unix_shell.Signals.{Report, sigchld_handler}
use unix_shell.Spawn.Execute.{Executed, execute_pipeline}
use unix_shell.Spawn.Running.{execute_pipeline-Frame}
use unix_shell.Repl.{
  Os, Session, shell_table, is_plain_builtin, executed_session, builtin_session, reap, notify,
  run_commands, run_collected, collected_session, run_pipeline, streams_of, read_on,
}

pub sigchld_handler-IsTable :
    (table : JobsTable) (reports : List Report)
    → IsTable table
    → IsTable (sigchld_handler table reports)
unfolding sigchld_handler
sigchld_handler-IsTable table [] t = t
sigchld_handler-IsTable table ((pid, status) ∷ reports) t =
    sigchld_handler-IsTable (jobs_mark_done table pid status) reports
      (jobs_mark_done-IsTable table pid status t)

-- What the loop keeps; the open here-documents are the caller's affair.
pub record Kept {W : Type 0} (before after : Session W) : Type 0 where
  pub history : after.run.shell.history ≡ before.run.shell.history
  pub input : length after.input ≤ length before.input
  pub table : IsTable before.run.shell.jobs → IsTable after.run.shell.jobs

module _ {W : Type 0} where
  pub Kept-trans : {a b c : Session W} → Kept a b → Kept b c → Kept a c
  Kept-trans f g = record {
    history = g.history ∙ f.history;
    input = omega (arith, f.input, g.input);
    table = λ t. g.table (f.table t);
  }

  -- a shell that is as it was but for its job table
  Kept-jobs :
      (s : Session W) (jobs : JobsTable)
      → (IsTable s.run.shell.jobs → IsTable jobs)
      → (s' : Session W) → s'.run.shell ≡ record s.run.shell { jobs = jobs }
      → s'.input ≡ s.input
      → Kept s s'
  Kept-jobs s jobs t s' e i = record {
    history = ap (λ shell. shell.history) e;
    input = rw i (omega arith);
    table = λ h. subst (λ shell. IsTable shell.jobs) (sym e) (t h);
  }

  Kept-builtin :
      {leaves : Bool} (s : Session W) (result : Result W)
      → Frame leaves s.run.shell result.1.shell
      → Kept s (builtin_session s result)
  unfolding builtin_session
  Kept-builtin s (code, run) f = record {
    history = f.history;
    input = omega arith;
    table = f.table;
  }

  Kept-executed :
      (s : Session W) (result : ℤ × Executed W)
      → Frame false s.run.shell result.1.run.shell
      → Kept s (executed_session s result)
  unfolding executed_session
  Kept-executed s (code, e) f = record { history = f.history; input = omega arith; table = f.table }

  builtin_session-files :
      (s : Session W) (result : Result W) → (builtin_session s result).files ≡ s.files
  unfolding builtin_session
  builtin_session-files s (code, run) = refl

  executed_session-files :
      (s : Session W) (result : ℤ × Executed W) → (executed_session s result).files ≡ s.files
  unfolding executed_session
  executed_session-files s (code, e) = refl

  module _ (os : Os W) where
    pub reap-Kept : (s : Session W) → Kept s (reap os s)
    unfolding reap
    reap-Kept s =
        Kept-jobs s _ (sigchld_handler-IsTable s.run.shell.jobs (os.ended s.run.world).0) _ refl
          refl

    pub notify-Kept : (s : Session W) → Kept s (notify os s)
    unfolding notify
    notify-Kept s = Kept-jobs s _ (jobs_notify_completed-IsTable s.run.shell.jobs) _ refl refl

    abbrev pub by_builtin : Pipeline → Session W → Result W
    by_builtin p s = run_builtin os.process (get_or p.commands 0 empty_command) s.run

    abbrev pub by_executor : Pipeline → Session W → ℤ × Executed W
    by_executor p s =
        execute_pipeline os.process os.kernel p s.run (shell_table s.files s.base) s.pipes

    pub notify-files : (s : Session W) → (notify os s).files ≡ s.files
    unfolding notify
    notify-files s = refl

    pub notify-input : (s : Session W) → (notify os s).input ≡ s.input
    unfolding notify
    notify-input s = refl

    run_commands-Kept : (p : Pipeline) (s : Session W) → Kept s (run_commands os p s)
    unfolding run_commands
    run_commands-Kept p s = elim (Bool-cases (is_plain_builtin p.commands)) [
      | inl e ↦ rw e (Kept-builtin s (by_builtin p s) (run_builtin-Frame os.process _ s.run))
      | inr e ↦ rw e (
          Kept-executed s (by_executor p s) (
            execute_pipeline-Frame os.process os.kernel p s.run (shell_table s.files s.base)
              s.pipes))
    ]

    run_commands-files : (p : Pipeline) (s : Session W) → (run_commands os p s).files ≡ s.files
    unfolding run_commands
    run_commands-files p s = elim (Bool-cases (is_plain_builtin p.commands)) [
      | inl e ↦ rw e (builtin_session-files s (by_builtin p s))
      | inr e ↦ rw e (executed_session-files s (by_executor p s))
    ]

    pub reap-files : (s : Session W) → (reap os s).files ≡ s.files
    unfolding reap
    reap-files s = refl

    run_collected-Kept :
        (p : Pipeline) (s : Session W) (code : ℤ) → Kept s (run_collected os p s code)
    unfolding run_collected
    run_collected-Kept p s (pos zero) =
        let expanded = expand_pipeline (os.expansion s.run.world) s.run.shell.last_status p in
        let k = Kept-trans (reap-Kept s) (run_commands-Kept expanded (reap os s)) in
        record { history = k.history; input = k.input; table = k.table }
    run_collected-Kept p s (pos (suc n)) = record {
      history = refl;
      input = omega arith;
      table = λ t. t;
    }
    run_collected-Kept p s (negsuc n) = record {
      history = refl;
      input = omega arith;
      table = λ t. t;
    }

    run_collected-files :
        (p : Pipeline) (s : Session W) (code : ℤ)
        → (run_collected os p s code).files ≡ (close_heredocs p.commands s.files).1
    unfolding run_collected expand_pipeline
    run_collected-files p s (pos zero) =
        let sys = os.expansion s.run.world in
        let expanded = map (expand_command sys s.run.shell.last_status) p.commands in
        ap (λ files. (close_heredocs expanded files).1)
          (run_commands-files (expand_pipeline sys s.run.shell.last_status p) (reap os s)
            ∙ reap-files s)
        ∙ close_heredocs-expand sys s.run.shell.last_status p.commands s.files
    run_collected-files p s (pos (suc n)) = refl
    run_collected-files p s (negsuc n) = refl

    collected_session-Kept :
        (p : Pipeline) (s : Session W) (c : Collected)
        → left c ≤ length s.input
        → Kept s (collected_session os p s c)
    unfolding collected_session
    collected_session-Kept p s (code, (cmds, io)) le =
        let k = run_collected-Kept (record p { commands = cmds }) (read_on io s) code in
        record { history = k.history; input = omega (arith, le, k.input); table = k.table }

    collected_session-files :
        (p : Pipeline) (s : Session W) (c : Collected)
        → (collected_session os p s c).files ≡ (close_heredocs c.1.0 c.1.1.files).1
    unfolding collected_session
    collected_session-files p s (code, (cmds, io)) =
        run_collected-files (record p { commands = cmds }) (read_on io s) code

    pub run_pipeline-Kept : (p : Pipeline) (s : Session W) → Kept s (run_pipeline os p s)
    unfolding run_pipeline
    run_pipeline-Kept p s = collected_session-Kept p s _ (
        collect_heredocs-input (os.files s.run.world) s.run.shell.interactive p.commands
          (streams_of s))

    pub run_pipeline-files :
        (p : Pipeline) (s : Session W)
        → ((w : W) → IsFresh (os.files w))
        → All IsClosed p.commands
        → (run_pipeline os p s).files ≡ s.files
    unfolding run_pipeline
    run_pipeline-files p s fresh closed =
        let sys = os.files s.run.world in
        collected_session-files p s
          (collect_heredocs sys s.run.shell.interactive p.commands (streams_of s))
        ∙ (close_heredocs-collect_heredocs sys s.run.shell.interactive (fresh s.run.world)
            p.commands (streams_of s) closed).0
