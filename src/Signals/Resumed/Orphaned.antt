-- ===== src/Signals/Resumed/Orphaned.antt =====
-- A stopped job whose leader ends before the job is resumed.
use unix_shell.Base.{
  ℕ, ◌≡◌, refl, sym, ap, ◌∙◌, inl, inr, Bool, true, false, List, [], ◌∷◌, some, arith, Bool-cases,
}
use unix_shell.Base.Int.{pos}
use unix_shell.Jobs.{Job, JobsTable, running, is_stopped, has_id, jobs_find_by_id}
use unix_shell.Jobs.Reach.{set_state}
use unix_shell.Jobs.Slots.{first, update_first, write_found-find_slot}
use unix_shell.Jobs.Lookup.{job_of, job_of-first}
use unix_shell.Signals.{Report, sigchld_handler}
use unix_shell.Signals.Reaping.{Reported, here, there, sigchld_handler-Reaped}
use unix_shell.Signals.Interleaving.{State, is_waiting, ends, handle, set_alive}
use unix_shell.Signals.Handled.{true-false, some_injective}
use unix_shell.Signals.Resumed.{resumed, resume_job, resumed_by_bg}

first-update_first_same :
    (test : Job → Bool) (f : Job → Job) (jobs : List Job) (j : Job)
    → ((k : Job) → test (f k) ≡ test k)
    → first test jobs ≡ some j
    → first test (update_first test f jobs) ≡ some (f j)
unfolding first update_first
first-update_first_same test f [] j same e = absurd cc
first-update_first_same test f (k ∷ jobs) j same e = elim (Bool-cases (test k)) [
  | inl h ↦ rw h (rw (same k) (rw h (ap (λ x. some (f x)) (some_injective (rw h at e)))))
  | inr h ↦ rw h (rw h (first-update_first_same test f jobs j same (rw h at e)))
]

resumed-has_id : (n : ℕ) (j : Job) → has_id (pos n) (resumed j) ≡ has_id (pos n) j
resumed-has_id n j = elim (Bool-cases (is_stopped j.state)) [
  | inl e ↦ rw e refl
  | inr e ↦ rw e refl
]

pub job_of-resume_job :
    (table : JobsTable) (n : ℕ) (j : Job)
    → job_of table (pos n) ≡ some j
    → job_of (resume_job (pos n) table) (pos n) ≡ some (resumed j)
unfolding resume_job jobs_find_by_id
job_of-resume_job table n j e =
    job_of-first (resume_job (pos n) table) (pos n)
    ∙ rw (write_found-find_slot (has_id (pos n)) resumed table) (
        first-update_first_same (has_id (pos n)) resumed table.jobs j (resumed-has_id n)
          (sym (job_of-first table (pos n)) ∙ e))

-- a stopped job is none that the handler marks
handled-stopped :
    (s : State) (n : ℕ) (j : Job)
    → job_of s.jobs (pos n) ≡ some j
    → is_stopped j.state ≡ true
    → job_of (handle s).jobs (pos n) ≡ some j
handled-stopped s n j e halted =
    let (j', found, reaped) = sigchld_handler-Reaped s.jobs s.waiting n j e in
    elim reaped [
      | inl kept ↦ found ∙ ap some kept
      | inr (status, reported, runs, marked) ↦ absurd (ground (arith, runs, halted))
    ]

Reported-is_waiting :
    (pid status : ℕ) (reports : List Report)
    → Reported pid status reports
    → is_waiting reports pid ≡ true
unfolding is_waiting
Reported-is_waiting pid status [] r = elim r [ ]
Reported-is_waiting pid status (_ ∷ reports) here = ground arith
Reported-is_waiting pid status ((ended, _) ∷ reports) (there r) =
    ground (arith, Reported-is_waiting pid status reports r)

-- the handler leaves a job alone whose leader is not reported
pub handled-unreported :
    (table : JobsTable) (later : List Report) (n : ℕ) (j : Job)
    → job_of table (pos n) ≡ some j
    → is_waiting later j.pid ≡ false
    → job_of (sigchld_handler table later) (pos n) ≡ some j
handled-unreported table later n j e silent =
    let (j', found, reaped) = sigchld_handler-Reaped table later n j e in
    elim reaped [
      | inl kept ↦ found ∙ ap some kept
      | inr (status, reported, runs, marked) ↦ absurd (
          true-false (is_waiting later j.pid) (Reported-is_waiting j.pid status later reported)
            silent)
    ]

-- Where the leader of a stopped job that a lookup finds ends, the handler runs, and bg resumes the
-- job, the leader does not live and no report of it waits for the handler, but the lookup finds the
-- job recorded as running, and it does so behind every later run of the handler that reports no
-- other process with the leader's id.
pub orphaned :
    (s : State) (n : ℕ) (j : Job) (status : ℕ) (later : List Report)
    → job_of s.jobs (pos n) ≡ some j
    → is_stopped j.state ≡ true
    → is_waiting later j.pid ≡ false
    → let t = resumed_by_bg (pos n) (record (handle (ends j.pid status s)) { blocked = true }) in
      (t.alive j.pid ≡ false)
      × (t.waiting ≡ [])
      × (job_of (sigchld_handler t.jobs later) (pos n) ≡ some (set_state running j))
unfolding set_alive
orphaned s n j status later e halted silent =
    let kept = handled-stopped (ends j.pid status s) n j e halted in
    let now : resumed j ≡ set_state running j = rw halted refl in
    (
      ground arith,
      refl,
      handled-unreported (resume_job (pos n) (handle (ends j.pid status s)).jobs) later n
          (set_state running j)
          (job_of-resume_job (handle (ends j.pid status s)).jobs n j kept ∙ ap some now) silent,
    )
