-- ===== src/Repl/Round.antt =====
-- What one round of the loop keeps, and the loop on enough fuel.
use unix_shell.Base.{
  ℕ, zero, suc, ◌≤◌, ◌<◌, ◌≡◌, ◌≢◌, refl, ap, ◌∙◌, ◌⊎◌, inl, inr, Bool, true, false, not, List, [],
  ◌∷◌, Option, some, length, ◌==◌, if◌then◌else◌, All, arith, Bool-cases,
}
use unix_shell.Cstring.{Text, codes}
use unix_shell.Builtins.{out}
use unix_shell.Parser.{Pipeline, num_commands, Parsed, done, syntax_error, no_fuel, parse_pipeline}
use unix_shell.History.{History, history_add}
use unix_shell.Jobs.Invariant.{IsTable}
use unix_shell.Heredoc.Closing.{IsFresh, IsClosed}
use unix_shell.Heredoc.Parsed.{parse_pipeline-IsClosed}
use unix_shell.Repl.{
  Os, Session, log, reap, notify, run_pipeline, run_parsed, remember, read_line, round, main_loop,
}
use unix_shell.Repl.Kept.{
  Kept, reap-Kept, reap-files, notify-Kept, notify-files, notify-input, run_pipeline-Kept,
  run_pipeline-files,
}

-- the history behind a round: with the line that it reads, if there is one
abbrev pub recorded : (Text → Option Text) → History → List Text → History
recorded strdup h [] = h
recorded strdup h (line ∷ lines) = history_add strdup h (some line)

-- why a round is the last: there is no line left, or the shell was asked to end
abbrev pub IsLast : {W : Type 0} → Session W → Type 0
IsLast s = (s.input ≡ []) ⊎ (s.run.shell.should_exit ≡ true)

true-ne-false : true ≢ false
true-ne-false e = cc

is_true_of_not : (b : Bool) → not b ≡ false → b ≡ true
is_true_of_not true e = refl
is_true_of_not false e = absurd cc

module _ {W : Type 0} (os : Os W) where
  run_parsed-Kept : (s : Session W) (parsed : Parsed Pipeline) → Kept s (run_parsed os s parsed).1
  unfolding run_parsed
  run_parsed-Kept s (done p) = elim (Bool-cases (num_commands p == 0)) [
    | inl e ↦ rw e (record { history = refl; input = omega arith; table = λ t. t })
    | inr e ↦ rw e (run_pipeline-Kept os p s)
  ]
  run_parsed-Kept s (syntax_error e) = record {
    history = refl;
    input = omega arith;
    table = λ t. t;
  }
  run_parsed-Kept s no_fuel = record { history = refl; input = omega arith; table = λ t. t }

  run_parsed-files :
      (s : Session W) (parsed : Parsed Pipeline)
      → ((w : W) → IsFresh (os.files w))
      → ((p : Pipeline) → parsed ≡ done p → All IsClosed p.commands)
      → (run_parsed os s parsed).1.files ≡ s.files
  unfolding run_parsed
  run_parsed-files s (done p) fresh closed = elim (Bool-cases (num_commands p == 0)) [
    | inl e ↦ rw e refl
    | inr e ↦ rw e (run_pipeline-files os p s fresh (closed p refl))
  ]
  run_parsed-files s (syntax_error e) fresh closed = refl
  run_parsed-files s no_fuel fresh closed = refl

  run_parsed-IsLast :
      (s : Session W) (parsed : Parsed Pipeline)
      → (run_parsed os s parsed).0 ≡ false
      → (run_parsed os s parsed).1.run.shell.should_exit ≡ true
  unfolding run_parsed
  run_parsed-IsLast s (done p) e = elim (Bool-cases (num_commands p == 0)) [
    | inl b ↦ absurd (true-ne-false (rw b at e))
    | inr b ↦ rw b (is_true_of_not (run_pipeline os p s).run.shell.should_exit (rw b at e))
  ]
  run_parsed-IsLast s (syntax_error x) e = absurd cc
  run_parsed-IsLast s no_fuel e = absurd cc

  -- behind the prompt
  abbrev prompted : Session W → Session W
  prompted s = log (out (codes "mysh> ") ∷ []) (notify os s)

  -- where a line was read and stands in the history
  abbrev entered : Text → List Text → Session W → Session W
  entered line lines s = remember os line (record (reap os s) { input = lines })

  entered-jobs :
      (line : Text) (lines : List Text) (s : Session W)
      → IsTable s.run.shell.jobs
      → IsTable (entered line lines s).run.shell.jobs
  entered-jobs line lines s t = (reap-Kept os s).table t

  read_line-history :
      (s : Session W) (lines : List Text)
      → (read_line os s lines).1.run.shell.history ≡ recorded os.strdup s.run.shell.history lines
  unfolding read_line
  read_line-history s [] = refl
  read_line-history s (line ∷ lines) =
      (run_parsed-Kept (entered line lines s) (parse_pipeline line)).history
      ∙ ap (λ h. history_add os.strdup h (some line)) (reap-Kept os s).history

  read_line-IsTable :
      (s : Session W) (lines : List Text)
      → IsTable s.run.shell.jobs
      → IsTable (read_line os s lines).1.run.shell.jobs
  unfolding read_line
  read_line-IsTable s [] t = t
  read_line-IsTable s (line ∷ lines) t =
      (run_parsed-Kept (entered line lines s) (parse_pipeline line)).table
        (entered-jobs line lines s t)

  read_line-files :
      (s : Session W) (lines : List Text)
      → ((w : W) → IsFresh (os.files w))
      → (read_line os s lines).1.files ≡ s.files
  unfolding read_line
  read_line-files s [] fresh = refl
  read_line-files s (line ∷ lines) fresh =
      run_parsed-files (entered line lines s) (parse_pipeline line) fresh
        (parse_pipeline-IsClosed line)
      ∙ reap-files os s

  -- A round adds the line that it reads to the history, before anything is done with the line and
  -- whatever comes of it, and nothing else; without a line it leaves the history alone.
  round-history :
      (s : Session W)
      → (round os s).1.run.shell.history ≡ recorded os.strdup s.run.shell.history s.input
  unfolding round
  round-history s =
      read_line-history (prompted s) s.input
      ∙ ap (λ h. recorded os.strdup h s.input) (notify-Kept os s).history

  -- A round keeps the invariant of the job table: whatever the line is and however the calls of
  -- the system end, and also where the SIGCHLD handler runs in it.
  pub round-IsTable :
      (s : Session W) → IsTable s.run.shell.jobs → IsTable (round os s).1.run.shell.jobs
  unfolding round
  round-IsTable s t = read_line-IsTable (prompted s) s.input ((notify-Kept os s).table t)

  -- Where `mkstemp` returns no descriptor that is open, a round leaves open exactly the
  -- here-documents that were open before it, whatever the line is and whether or not calls fail.
  pub round-files :
      (s : Session W) → ((w : W) → IsFresh (os.files w)) → (round os s).1.files ≡ s.files
  unfolding round
  round-files s fresh = read_line-files (prompted s) s.input fresh ∙ notify-files os s

  -- where a round goes on, it has read a line, and else it is the last
  Progress : ℕ → Bool × Session W → Type 0
  Progress n (true, s) = length s.input < n
  Progress n (false, s) = IsLast s

  Progress-run_parsed :
      (n : ℕ) (s : Session W) (result : Bool × Session W)
      → Kept s result.1
      → (result.0 ≡ false → result.1.run.shell.should_exit ≡ true)
      → length s.input < n
      → Progress n result
  unfolding Progress
  Progress-run_parsed n s (true, s') k last lt = omega (arith, k.input, lt)
  Progress-run_parsed n s (false, s') k last lt = inr (last refl)

  Progress-read_line :
      (s : Session W) (lines : List Text)
      → s.input ≡ lines
      → Progress (length lines) (read_line os s lines)
  unfolding read_line Progress
  Progress-read_line s [] e = inl e
  Progress-read_line s (line ∷ lines) e =
      Progress-run_parsed (suc (length lines)) (entered line lines s) _
        (run_parsed-Kept (entered line lines s) (parse_pipeline line))
        (run_parsed-IsLast (entered line lines s) (parse_pipeline line)) (omega arith)

  Progress-round : (s : Session W) → Progress (length s.input) (round os s)
  unfolding round
  Progress-round s = Progress-read_line (prompted s) s.input (notify-input os s)

  after_round :
      (fuel : ℕ) (n : ℕ) (result : Bool × Session W)
      → n ≤ fuel
      → Progress n result
      → ((s' : Session W)
          → length s'.input < fuel
          → (end : Session W) × (main_loop os fuel s' ≡ some end) × IsLast end)
      → (end : Session W) × ((if result.0 then main_loop os fuel result.1 else some result.1)
          ≡ some end)
        × IsLast end
  unfolding Progress
  after_round fuel n (true, s) le progress rest = rest s (omega (arith, le, progress))
  after_round fuel n (false, s) le progress rest = (s, refl, progress)

  -- Where the fuel is more than the lines that are left, the loop ends: with a session that has no
  -- line left, or whose shell was asked to end.
  pub main_loop-IsLast :
      (fuel : ℕ) (s : Session W)
      → length s.input < fuel
      → (end : Session W) × (main_loop os fuel s ≡ some end) × IsLast end
  unfolding main_loop
  main_loop-IsLast zero s lt = absurd (omega (arith, lt))
  main_loop-IsLast (suc fuel) s lt =
      after_round fuel (length s.input) (round os s) (omega (arith, lt)) (Progress-round s)
        (main_loop-IsLast fuel)
