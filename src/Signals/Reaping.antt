-- ===== src/Signals/Reaping.antt =====
-- What the handler leaves of a job.
use unix_shell.Base.{
  ℕ, ◌≡◌, refl, sym, subst, ◌∙◌, ◌⊎◌, inl, inr, true, List, [], ◌∷◌, some, arith, Bool-cases,
}
use unix_shell.Base.Int.{pos}
use unix_shell.Jobs.{Job, JobsTable, finished, is_running, has_id, runs_as, jobs_mark_done}
use unix_shell.Jobs.Slots.{first, update_first, write_found-find_slot}
use unix_shell.Jobs.Lookup.{job_of, job_of-first}
use unix_shell.Signals.{Report, sigchld_handler}

abbrev pub ended : ℕ → Job → Job
ended status job = record job { state = finished; status = status }

-- the process id with that status is among the reports
pub data Reported (pid status : ℕ) : List Report → Type 0 where
  here : {reports : List Report} → Reported pid status ((pid, status) ∷ reports)
  there :
      {report : Report} {reports : List Report}
      → Reported pid status reports
      → Reported pid status (report ∷ reports)

first-mark :
    (n pid status : ℕ) (jobs : List Job) {j : Job}
    → first (has_id (pos n)) jobs ≡ some j
    → let after = first (has_id (pos n)) (update_first (runs_as pid) (ended status) jobs) in
      (after ≡ some j) ⊎ ((runs_as pid j ≡ true) × (after ≡ some (ended status j)))
unfolding first update_first
first-mark n pid status [] e = absurd cc
first-mark n pid status (k ∷ jobs) {j} e = elim (Bool-cases (has_id (pos n) k)) [
  | inl h ↦ elim (Bool-cases (runs_as pid k)) [
    | inl r ↦
        let same : k ≡ j = cc (rw h at e) in
        rw r (
          rw h (
            inr (
              subst (λ x. (runs_as pid x ≡ true) × (some (ended status k) ≡ some (ended status x)))
                same (r, refl))))
    | inr r ↦ rw r (rw h (inl (rw h at e)))
  ]
  | inr h ↦ elim (Bool-cases (runs_as pid k)) [
    | inl r ↦ rw r (rw h (inl (rw h at e)))
    | inr r ↦ rw r (rw h (first-mark n pid status jobs (rw h at e)))
  ]
]

mark_done-job_of :
    (table : JobsTable) (n pid status : ℕ) {j : Job}
    → job_of table (pos n) ≡ some j
    → let after = job_of (jobs_mark_done table pid status) (pos n) in
      (after ≡ some j) ⊎ ((runs_as pid j ≡ true) × (after ≡ some (ended status j)))
unfolding jobs_mark_done
mark_done-job_of table n pid status e =
    rw (write_found-find_slot (runs_as pid) (ended status) table, job_of-first)
      (first-mark n pid status table.jobs (sym (job_of-first table (pos n)) ∙ e))

-- what has become of a job: nothing, or its group's leader was reported while it was running
abbrev pub Reaped : List Report → Job → Job → Type 0
Reaped reports j j' =
    (j' ≡ j)
    ⊎ ((status : ℕ) × Reported j.pid status reports
        × (is_running j.state ≡ true)
        × (j' ≡ ended status j))

Reaped-later :
    (report : Report) (reports : List Report) (j j' : Job)
    → Reaped reports j j'
    → Reaped (report ∷ reports) j j'
Reaped-later report reports j j' (inl e) = inl e
Reaped-later report reports j j' (inr (status, r, s, e)) = inr (status, there r, s, e)

runs_as_inv :
    (pid : ℕ) (j : Job) → runs_as pid j ≡ true → (j.pid ≡ pid) × (is_running j.state ≡ true)
runs_as_inv pid j r = ground arith

Reaped-now :
    (pid status : ℕ) (reports : List Report) (j j' : Job)
    → runs_as pid j ≡ true
    → Reaped reports (ended status j) j'
    → Reaped ((pid, status) ∷ reports) j j'
Reaped-now pid status reports j j' r (inl e) =
    let (leader, live) = runs_as_inv pid j r in
    inr
      (status, subst (λ x. Reported x status ((pid, status) ∷ reports)) (sym leader) here, live, e)
Reaped-now pid status reports j j' r (inr (_, _, s, _)) = absurd cc

-- A job that a lookup by its id finds is still found after the handler has run, and is as it was,
-- or it was running, its group's leader is among the reports, and it is finished with the status
-- that was reported: a stopped or finished job never changes.
pub sigchld_handler-Reaped :
    (table : JobsTable) (reports : List Report) (n : ℕ) (j : Job)
    → job_of table (pos n) ≡ some j
    → (j' : Job) × (job_of (sigchld_handler table reports) (pos n) ≡ some j') × Reaped reports j j'
unfolding sigchld_handler
sigchld_handler-Reaped table [] n j e = (j, e, inl refl)
sigchld_handler-Reaped table ((pid, status) ∷ reports) n j e =
    elim (mark_done-job_of table n pid status e) [
      | inl same ↦
          let (j', found, reaped) =
            sigchld_handler-Reaped (jobs_mark_done table pid status) reports n j same in
          (j', found, Reaped-later (pid, status) reports j j' reaped)
      | inr (r, marked) ↦
          let (j', found, reaped) =
            sigchld_handler-Reaped (jobs_mark_done table pid status) reports n (ended status j)
              marked in
          (j', found, Reaped-now pid status reports j j' r reaped)
    ]
