-- ===== src/Signals/Finished.antt =====
-- In sessions without fg and bg, the end of a job that is recorded as running shows when the handler
-- runs.
use unix_shell.Base.{
  ℕ, ◌≡◌, sym, ap, subst, ◌∙◌, inl, inr, Bool, true, false, List, [], ◌∷◌, some, All, arith,
  Bool-cases,
}
use unix_shell.Base.Int.{pos}
use unix_shell.Jobs.{Job, JobsTable, is_running, has_id}
use unix_shell.Jobs.Slots.{first}
use unix_shell.Jobs.Lookup.{job_of, job_of-first}
use unix_shell.Signals.Reaping.{Reported, ended, sigchld_handler-Reaped}
use unix_shell.Signals.Interleaving.{State, handle, Reach}
use unix_shell.Signals.Tracked.{Led}
use unix_shell.Signals.Handled.{handler-Led, some_injective, true-false}
use unix_shell.Signals.NoLost.{Reach-IsTracked}

first-All :
    (P : Job → Type 0) (test : Job → Bool) (jobs : List Job) {j : Job}
    → first test jobs ≡ some j
    → All P jobs
    → (test j ≡ true) × P j
unfolding first
first-All P test [] e a = absurd cc
first-All P test (k ∷ jobs) {j} e a = elim (Bool-cases (test k)) [
  | inl h ↦ subst (λ x. (test x ≡ true) × P x) (some_injective (rw h at e)) (h, a.0)
  | inr h ↦ first-All P test jobs (rw h at e) a.1
]

-- a job that a lookup finds
found-Led :
    (p : ℕ → Bool) (table : JobsTable) (n : ℕ) (j : Job)
    → job_of table (pos n) ≡ some j
    → All (Led p) table.jobs
    → is_running j.state ≡ true
    → p j.pid ≡ true
found-Led p table n j e l r =
    let (live, led) =
      first-All (Led p) (has_id (pos n)) table.jobs (sym (job_of-first table (pos n)) ∙ e) l in
    led (ground (arith, live, r))

-- In every state that can be reached without fg and bg: where a lookup finds a job that is recorded as running, and
-- its leader does not live any more, the handler, where it runs next, marks the job as finished,
-- with a status that was reported of the leader.
handle-finished :
    {s : State} (n : ℕ) (j : Job)
    → Reach s
    → job_of s.jobs (pos n) ≡ some j
    → is_running j.state ≡ true
    → s.alive j.pid ≡ false
    → (status : ℕ) × Reported j.pid status s.waiting
      × (job_of (handle s).jobs (pos n) ≡ some (ended status j))
handle-finished {s} n j reach e r dead =
    let h = Reach-IsTracked reach in
    let (j', found, reaped) = sigchld_handler-Reaped s.jobs s.waiting n j e in
    elim reaped [
      | inl same ↦ absurd (
          true-false (s.alive j.pid)
            (found-Led s.alive (handle s).jobs n j (found ∙ ap some same)
              (handler-Led s.alive s.jobs s.waiting h.distinct h.led).1 r)
            dead)
      | inr (status, reported, _, marked) ↦ (status, reported, found ∙ ap some marked)
    ]
