-- ===== src/Repl/Whole.antt =====
-- The shell from its start to its end.
use unix_shell.Base.{
  ℕ, zero, suc, ◌<◌, ◌≡◌, refl, subst, ◌∙◌, ap, Bool, true, false, List, [], some, length,
  if◌then◌else◌, arith, Bool-cases, inl, inr,
}
use unix_shell.Cstring.{Text}
use unix_shell.History.{history_free}
use unix_shell.Jobs.{jobs_init}
use unix_shell.Jobs.Invariant.{IsTable}
use unix_shell.Jobs.Add.{jobs_init-IsTable}
use unix_shell.Heredoc.Closing.{IsFresh}
use unix_shell.Builtins.{Shell}
use unix_shell.Process.{Table, Signals}
use unix_shell.Signals.Install.{Terminal, install_signal_handlers}
use unix_shell.Repl.{Os, Session, round, main_loop, finish, starting_shell, starting_session, main}
use unix_shell.Repl.Round.{IsLast, round-IsTable, round-files, main_loop-IsLast}

abbrev pub freed : Shell → Shell
freed shell = record shell { history = history_free shell.history }

some_injective {ℓ} : {A : Type ℓ} {a b : A} → some a ≡ some b → a ≡ b
some_injective e = cc

installed-jobs :
    {W : Type 0} (terminal : Terminal W) (signals : Signals) (world : W)
    → (install_signal_handlers terminal starting_shell signals world).0.0.jobs ≡ jobs_init
unfolding install_signal_handlers
installed-jobs terminal signals world = elim (Bool-cases (terminal.isatty world)) [
  | inl e ↦ rw e refl
  | inr e ↦ rw e refl
]

module _ {W : Type 0} (os : Os W) where
  -- what every round keeps, the loop keeps
  module _ (P : Session W → Type 0) (keeps : (s : Session W) → P s → P (round os s).1) where
    behind_round :
        (fuel : ℕ) (result : Bool × Session W) (end : Session W)
        → P result.1
        → ((s end : Session W) → main_loop os fuel s ≡ some end → P s → P end)
        → (if result.0 then main_loop os fuel result.1 else some result.1) ≡ some end
        → P end
    behind_round fuel (true, s) end h rest e = rest s end e h
    behind_round fuel (false, s) end h rest e = subst P (some_injective e) h

    main_loop-keeps : (fuel : ℕ) (s end : Session W) → main_loop os fuel s ≡ some end → P s → P end
    unfolding main_loop
    main_loop-keeps zero s end e h = absurd cc
    main_loop-keeps (suc fuel) s end e h =
        behind_round fuel (round os s) end (keeps s h) (main_loop-keeps fuel) e

  main_loop-finish :
      ((w : W) → IsFresh (os.files w))
      → (fuel : ℕ) (s : Session W) → length s.input < fuel
      → IsTable s.run.shell.jobs
      → (end : Session W) × (main_loop os fuel s ≡ some end)
        × (finish (main_loop os fuel s) ≡ some (end.run.shell.last_status, freed end.run.shell))
        × IsLast end
        × IsTable end.run.shell.jobs
        × (end.files ≡ s.files)
  unfolding finish
  main_loop-finish fresh fuel s lt t =
      let (end, e, last) = main_loop-IsLast os fuel s lt in
      (
        end,
        e,
        ap finish e,
        last,
        main_loop-keeps (λ x. IsTable x.run.shell.jobs) (round-IsTable os) fuel s end e t,
        main_loop-keeps (λ x. x.files ≡ s.files) (λ x h. round-files os x fresh ∙ h) fuel s end e
            refl,
      )

  -- Where `mkstemp` returns no descriptor that is open, the loop that main runs on its starting
  -- session ends, on any input, and the result of main is the last status of the session where it
  -- ends. That session has no line left or was asked to end, the invariant of the job table holds
  -- there, and no here-document is open.
  pub main-IsLast :
      (terminal : Terminal W) (input : List Text) (base : Table) (signals : Signals) (world : W)
      → ((w : W) → IsFresh (os.files w))
      → let installed = (install_signal_handlers terminal starting_shell signals world).0 in
        (end : Session W) × (main_loop os
            (suc (length input))
            (starting_session input base installed)
          ≡ some end)
        × (main os terminal input base signals world
            ≡ some (end.run.shell.last_status, freed end.run.shell))
        × IsLast end
        × IsTable end.run.shell.jobs
        × (end.files ≡ [])
  unfolding main starting_session
  main-IsLast terminal input base signals world fresh =
      let installed = (install_signal_handlers terminal starting_shell signals world).0 in
      main_loop-finish fresh (suc (length input)) (starting_session input base installed)
        (omega arith) (rw (installed-jobs terminal signals world) jobs_init-IsTable)
