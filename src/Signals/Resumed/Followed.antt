-- ===== src/Signals/Resumed/Followed.antt =====
-- What becomes of the jobs that a lookup finds, with `fg` and `bg`.
use unix_shell.Base.{
  ℕ, ◌≡◌, refl, sym, ap, ◌∙◌, ◌⊎◌, inl, inr, Bool, true, some, arith, Bool-cases, All,
}
use unix_shell.Base.Int.{pos}
use unix_shell.Jobs.{Job, JobState, running, stopped, finished, has_id, JobsTable}
use unix_shell.Jobs.Lookup.{job_of, job_of-first, first-All}
use unix_shell.Signals.Reaping.{Reported, ended, sigchld_handler-Reaped}
use unix_shell.Signals.Interleaving.{State, handle}
use unix_shell.Signals.Leaders.{LedBy}
use unix_shell.Signals.Tracked.{runs}
use unix_shell.Signals.Handled.{true-false}
use unix_shell.Signals.Resumed.{halts, CalmRun}
use unix_shell.Signals.Resumed.Held.{handler-IsHeld}
use unix_shell.Signals.Resumed.Accounted.{CalmRun-IsAccounted}

-- where `state` is that of the job
unfoldable pub IsFollowed : State → ℕ → Job → JobState → Type 0
IsFollowed s n j running =
    (s.alive j.pid ≡ true)
    ⊎ ((status : ℕ) × Reported j.pid status s.waiting
        × (job_of (handle s).jobs (pos n) ≡ some (ended status j)))
IsFollowed s n j stopped = s.alive j.pid ≡ true
IsFollowed s n j finished = Unit

-- a job that a lookup finds
found-LedBy :
    (live : Job → Bool) (p : ℕ → Bool) (table : JobsTable) (n : ℕ) (j : Job)
    → job_of table (pos n) ≡ some j
    → All (LedBy live p) table.jobs
    → (has_id (pos n) j ≡ true → live j ≡ true)
    → p j.pid ≡ true
found-LedBy live p table n j e l h =
    let (live_id, led) =
      first-All (LedBy live p) (has_id (pos n)) table.jobs l
        (sym (job_of-first table (pos n)) ∙ e) in
    led (h live_id)

by_state :
    {s : State} (n : ℕ) (j : Job) (state : JobState)
    → CalmRun s
    → job_of s.jobs (pos n) ≡ some j
    → j.state ≡ state
    → IsFollowed s n j state
unfolding IsFollowed
by_state {s} n j stopped r e same =
    found-LedBy halts s.alive s.jobs n j e (CalmRun-IsAccounted r).jobs_held.held
      (λ live. rw same (ground (arith, live)))
by_state n j finished r e same = tt
by_state {s} n j running r e same = elim (Bool-cases (s.alive j.pid)) [
  | inl lives ↦ inl lives
  | inr dead ↦
      let h = (CalmRun-IsAccounted r).jobs_held in
      let (j', found, reaped) = sigchld_handler-Reaped s.jobs s.waiting n j e in
      inr (elim reaped [
        | inl kept ↦ absurd (
            true-false (s.alive j.pid)
              (found-LedBy runs s.alive (handle s).jobs n j (found ∙ ap some kept)
                (handler-IsHeld s.alive s.jobs s.waiting h).0
                (λ live. rw same (ground (arith, live))))
              dead)
        | inr (status, reported, _, marked) ↦ (status, reported, found ∙ ap some marked)
      ])
]

-- Where the shell, its children, the handler and the built-ins fg and bg take their steps in any
-- order, where a new child has the id of no job in the table, a child that stops lives, and no
-- leader of a stopped job ends before it is resumed: the leader of a stopped job that a lookup
-- finds lives, and that of a running one lives or the handler, where it runs next, marks the job as
-- finished, with a status that was reported of the leader.
pub CalmRun-IsFollowed :
    {s : State} (n : ℕ) (j : Job)
    → CalmRun s
    → job_of s.jobs (pos n) ≡ some j
    → IsFollowed s n j j.state
CalmRun-IsFollowed n j r e = by_state n j j.state r e refl
