-- ===== src/Repl/Descriptors.antt =====
-- The shell's descriptors from one round to the next.
use unix_shell.Base.{
  ℕ, zero, suc, ◌≡◌, ◌≢◌, refl, ◌∙◌, ap, fun_ext, ◌⊎◌, inl, inr, List, [], ◌∷◌, Option, none, some,
  ◌==◌, Bool-cases,
}
use unix_shell.Base.Int.{ℤ, pos, negsuc}
use unix_shell.Cstring.{Text}
use unix_shell.Parser.{
  Command, Pipeline, num_commands, Parsed, done, syntax_error, no_fuel, parse_pipeline,
}
use unix_shell.Expand.{expand_pipeline}
use unix_shell.Heredoc.{OpenFile, Collected, collect_heredocs}
use unix_shell.Heredoc.Bodies.{contents_of}
use unix_shell.Builtins.{Process, Run, Result}
use unix_shell.Process.{Entry, Table}
use unix_shell.Spawn.{Kernel, Spawning, spawn_pipeline, spawn_loop, code_of}
use unix_shell.Spawn.Wiring.{HasStreams}
use unix_shell.Spawn.Stages.{IsNewPipe, spawn_pipeline-Stages}
use unix_shell.Spawn.Execute.{Executed, spawned, execute_pipeline}
use unix_shell.Repl.{
  Os, Session, document_entry, other_entry, shell_table, without_documents, is_plain_builtin,
  executed_session, builtin_session, reap, notify, run_commands, run_collected, collected_session,
  run_pipeline, streams_of, read_on, run_parsed, read_line, round,
}
use unix_shell.Repl.Kept.{by_builtin, by_executor}

other_entry-document_entry :
    (body : Option Text) (e : Option Entry) → other_entry body (document_entry body e) e ≡ e
unfolding other_entry document_entry
other_entry-document_entry none e = refl
other_entry-document_entry (some body) e = refl

without_documents-shell_table :
    (files : List OpenFile) (base : Table)
    → without_documents files base (shell_table files base) ≡ base
unfolding without_documents shell_table
without_documents-shell_table files base =
    fun_ext λ fd. other_entry-document_entry (contents_of fd files) (base fd)

document_entry-open :
    (body : Option Text) (e : Option Entry) → e ≢ none → document_entry body e ≢ none
unfolding document_entry
document_entry-open none e h = h
document_entry-open (some body) e h = λ same. absurd cc

shell_table-HasStreams :
    (files : List OpenFile) (base : Table) → HasStreams base → HasStreams (shell_table files base)
unfolding shell_table
shell_table-HasStreams files base (i, o) = (
  document_entry-open (contents_of 0 files) (base 0) i,
  document_entry-open (contents_of 1 files) (base 1) o,
)

-- it is the table that it was, or the status is -1
abbrev Steady : Table → Table → ℤ → Type 0
Steady before after code = (after ≡ before) ⊎ (code ≡ negsuc 0)

module _ {W : Type 0} where
  spawn_pipeline-table :
      (kernel : Kernel W) (cmds : List Command) (t : Table) (pipes : ℕ) (world : W)
      → HasStreams t
      → IsNewPipe kernel
      → let (code, s) = spawn_pipeline kernel cmds t pipes world in Steady t s.table code
  spawn_pipeline-table kernel [] t pipes world st new =
      unfold spawn_pipeline spawn_loop code_of in inl refl
  spawn_pipeline-table kernel (cmd ∷ cmds) t pipes world st new =
      elim (spawn_pipeline-Stages kernel t st new cmd cmds pipes world) [
        | inl (_, _, same) ↦ inl same
        | inr (refused, _) ↦ inr refused
      ]

  spawned-table :
      (sys : Process W) (p : Pipeline) (run : Run W) (t : Table) (result : ℤ × Spawning W)
      → Steady t result.1.table result.0
      → Steady t (spawned sys p run result).1.table (spawned sys p run result).0
  unfolding spawned
  spawned-table sys p run t (pos n, s) (inl e) = inl e
  spawned-table sys p run t (pos n, s) (inr e) = absurd cc
  spawned-table sys p run t (negsuc n, s) h = inr refl

  -- A pipeline that runs leaves the shell's descriptors alone, unless its status is -1.
  execute_pipeline-table :
      (sys : Process W) (kernel : Kernel W) (p : Pipeline) (run : Run W) (t : Table) (pipes : ℕ)
      → HasStreams t
      → IsNewPipe kernel
      → let (code, e) = execute_pipeline sys kernel p run t pipes in Steady t e.table code
  unfolding execute_pipeline
  execute_pipeline-table sys kernel p run t pipes st new =
      spawned-table sys p run t _ (spawn_pipeline-table kernel p.commands t pipes run.world st new)

  -- the descriptors of a session besides the here-documents
  abbrev Same : Session W → Session W → Type 0
  Same s s' = Steady s.base s'.base s'.run.shell.last_status

  executed_session-Same :
      (s : Session W) (result : ℤ × Executed W)
      → Steady (shell_table s.files s.base) result.1.table result.0
      → Same s (executed_session s result)
  unfolding executed_session
  executed_session-Same s (code, e) (inl same) = inl (
      ap (λ t. without_documents s.files s.base t) same
      ∙ without_documents-shell_table s.files s.base)
  executed_session-Same s (code, e) (inr refused) = inr refused

  builtin_session-Same : (s : Session W) (result : Result W) → Same s (builtin_session s result)
  unfolding builtin_session
  builtin_session-Same s (code, run) = inl refl

  module _ (os : Os W) (new : IsNewPipe os.kernel) where
    run_commands-Same :
        (p : Pipeline) (s : Session W) → HasStreams s.base → Same s (run_commands os p s)
    unfolding run_commands
    run_commands-Same p s st = elim (Bool-cases (is_plain_builtin p.commands)) [
      | inl e ↦ rw e (builtin_session-Same s (by_builtin os p s))
      | inr e ↦ rw e (
          executed_session-Same s (by_executor os p s) (
            execute_pipeline-table os.process os.kernel p s.run (shell_table s.files s.base) s.pipes
              (shell_table-HasStreams s.files s.base st) new))
    ]

    run_collected-Same :
        (p : Pipeline) (s : Session W) (code : ℤ)
        → HasStreams s.base
        → Same s (run_collected os p s code)
    unfolding run_collected reap
    run_collected-Same p s (pos zero) st =
        run_commands-Same (expand_pipeline (os.expansion s.run.world) s.run.shell.last_status p)
          (reap os s) st
    run_collected-Same p s (pos (suc n)) st = inl refl
    run_collected-Same p s (negsuc n) st = inl refl

    collected_session-Same :
        (p : Pipeline) (s : Session W) (c : Collected)
        → HasStreams s.base
        → Same s (collected_session os p s c)
    unfolding collected_session
    collected_session-Same p s (code, (cmds, io)) st =
        run_collected-Same (record p { commands = cmds }) (read_on io s) code st

    run_pipeline-Same :
        (p : Pipeline) (s : Session W) → HasStreams s.base → Same s (run_pipeline os p s)
    unfolding run_pipeline
    run_pipeline-Same p s st =
        collected_session-Same p s
          (collect_heredocs (os.files s.run.world) s.run.shell.interactive p.commands
            (streams_of s))
          st

    run_parsed-Same :
        (s : Session W) (parsed : Parsed Pipeline)
        → HasStreams s.base
        → Same s (run_parsed os s parsed).1
    unfolding run_parsed
    run_parsed-Same s (done p) st = elim (Bool-cases (num_commands p == 0)) [
      | inl e ↦ rw e (inl refl)
      | inr e ↦ rw e (run_pipeline-Same p s st)
    ]
    run_parsed-Same s (syntax_error e) st = inl refl
    run_parsed-Same s no_fuel st = inl refl

    read_line-Same :
        (s : Session W) (lines : List Text) → HasStreams s.base → Same s (read_line os s lines).1
    unfolding read_line reap
    read_line-Same s [] st = inl refl
    read_line-Same s (line ∷ lines) st = run_parsed-Same _ (parse_pipeline line) st

    -- Where the ends of a new pipe are new and different descriptors and the standard streams are
    -- open: unless the last status behind it is -1, a round leaves the shell with the descriptors
    -- that it had, the here-documents apart.
    pub round-base :
        (s : Session W)
        → HasStreams s.base
        → ((round os s).1.base ≡ s.base) ⊎ ((round os s).1.run.shell.last_status ≡ negsuc 0)
    unfolding round notify
    round-base s st = read_line-Same _ s.input st
