-- ===== src/Executor/Waiting.antt =====
-- What waiting for a foreground group returns, and leaves in the table.
use mathlib.Core.Option
use unix_shell.Base.{
  ℕ, suc, ◌+◌, ◌≡◌, ◌≢◌, refl, sym, ap, ◌∙◌, ◌⊎◌, inl, inr, Bool, true, false, List, [], ◌∷◌, ◌++◌,
  Option, none, some, All, Bool-cases, Option-cases, ==_refl,
}
use unix_shell.Base.Int.{ℤ, negsuc}
use unix_shell.Cstring.{Text}
use unix_shell.Jobs.{
  Job, JobsTable, stopped, is_free, has_pid, new_job, find_slot, jobs_add, jobs_find_by_pid,
}
use unix_shell.Jobs.Slots.{first, update_first, jobs_add-full, jobs_add-free, write_found-find_slot}
use unix_shell.Jobs.Lookup.{job_by_pid, job_by_pid-first}
use unix_shell.Jobs.Reach.{set_state}
use unix_shell.Executor.{
  Status, exited, signaled, suspended, status_to_code, job_stopped, group_stopped, wait_loop,
  wait_foreground_group, stopped_line,
}

-- a status of a child that has ended
abbrev pub HasEnded : Status → Type 0
HasEnded (suspended signal) = ⊥
HasEnded _ = Unit {0}

-- the code of the last of them, or `code` where there is none
unfoldable pub last_code : ℕ → List Status → ℕ
last_code code [] = code
last_code code (status ∷ statuses) = last_code (status_to_code status) statuses

first-update_first_self :
    (test : Job → Bool) (f : Job → Job) (jobs : List Job)
    → ((j : Job) → test (f j) ≡ test j)
    → first test (update_first test f jobs) ≡ Option.map f (first test jobs)
unfolding first update_first
first-update_first_self test f [] h = refl
first-update_first_self test f (j ∷ jobs) h = elim (Bool-cases (test j)) [
  | inl e ↦ rw e (rw (h j ∙ e) refl)
  | inr e ↦ rw e (rw e (first-update_first_self test f jobs h))
]

first-update_first_new :
    (new : Job) (pid : ℕ) (jobs : List Job)
    → has_pid pid new ≡ true
    → first (has_pid pid) jobs ≡ none
    → find_slot is_free jobs ≢ none
    → first (has_pid pid) (update_first is_free (λ _. new) jobs) ≡ some new
unfolding first update_first find_slot
first-update_first_new new pid [] n e s = absurd (s refl)
first-update_first_new new pid (j ∷ jobs) n e s = elim (Bool-cases (has_pid pid j)) [
  | inl p ↦ absurd (cc (rw p at e))
  | inr p ↦ elim (Bool-cases (is_free j)) [
    | inl q ↦ rw q (rw n refl)
    | inr q ↦
        rw q (rw p (first-update_first_new new pid jobs n (rw p at e) (λ r. s (rw q (rw r refl)))))
  ]
]

pub wait_loop-ended :
    (interactive : Bool) (table : JobsTable) (pgid : ℕ) (label : Text) (signal : ℕ)
    (statuses rest : List Status) (code : ℕ) (interrupted : Bool)
    → All HasEnded statuses
    → wait_loop interactive table pgid label code interrupted (statuses ++ suspended signal ∷ rest)
      ≡ group_stopped table pgid label signal
unfolding wait_loop
wait_loop-ended interactive table pgid label signal [] rest code i h = refl
wait_loop-ended interactive table pgid label signal (suspended c ∷ statuses) rest code i h =
    absurd h.0
wait_loop-ended interactive table pgid label signal (exited c ∷ statuses) rest code i h =
    wait_loop-ended interactive table pgid label signal statuses rest _ _ h.1
wait_loop-ended interactive table pgid label signal (signaled c ∷ statuses) rest code i h =
    wait_loop-ended interactive table pgid label signal statuses rest _ _ h.1

-- the group's job once the group has stopped
abbrev pub job_after : Option Job → JobsTable → ℕ → Text → Job
job_after none table pgid label = new_job table.next_id pgid label stopped
job_after (some job) table pgid label = set_state stopped job

-- it is in the table, stopped, or the table was full and the group is in none of its slots
abbrev pub Recorded : JobsTable → ℕ → Text → ℤ × JobsTable → Type 0
Recorded table pgid label (id, table') =
    (job_by_pid table' pgid ≡ some (job_after (job_by_pid table pgid) table pgid label))
    ⊎ ((id ≡ negsuc 0)
        × (table' ≡ table)
        × (job_by_pid table pgid ≡ none)
        × (find_slot is_free table.jobs ≡ none))

find_slot-first-none :
    (test : Job → Bool) (jobs : List Job) → first test jobs ≡ none → find_slot test jobs ≡ none
unfolding first find_slot
find_slot-first-none test [] e = refl
find_slot-first-none test (j ∷ jobs) e = elim (Bool-cases (test j)) [
  | inl h ↦ absurd (cc (rw h at e))
  | inr h ↦ rw h (ap (Option.map suc) (find_slot-first-none test jobs (rw h at e)))
]

marked :
    (table : JobsTable) (pgid : ℕ) (label : Text) (found : Option Job)
    → first (has_pid pgid) table.jobs ≡ found
    → found ≢ none
    → first (has_pid pgid) (update_first (has_pid pgid) (set_state stopped) table.jobs)
      ≡ some (job_after found table pgid label)
marked table pgid label none e n = absurd (n refl)
marked table pgid label (some k) e n =
    first-update_first_self (has_pid pgid) (set_state stopped) table.jobs (λ j. refl) ∙ rw e refl

marked-Recorded :
    (table : JobsTable) (pgid : ℕ) (label : Text) (i : ℕ)
    → find_slot (has_pid pgid) table.jobs ≡ some i
    → Recorded table pgid label (job_stopped (some i) table pgid label)
unfolding job_stopped
marked-Recorded table pgid label i e = inl (
    rw
      (
        ← e,
        write_found-find_slot (has_pid pgid) (set_state stopped) table,
        job_by_pid-first,
        job_by_pid-first,
      )
      (marked table pgid label _ refl
        (λ n. absurd (cc (e, find_slot-first-none (has_pid pgid) table.jobs n)))))

added-Recorded :
    (table : JobsTable) (pgid : ℕ) (label : Text)
    → job_by_pid table pgid ≡ none
    → Recorded table pgid label (jobs_add table pgid label stopped)
added-Recorded table pgid label e = elim (Option-cases (find_slot is_free table.jobs)) [
  | inl s ↦ rw (jobs_add-full table pgid label stopped s) (inr (refl, refl, e, s))
  | inr (i, s) ↦
      rw (jobs_add-free table pgid label stopped s, e)
        (inl (
          job_by_pid-first _ pgid
          ∙ first-update_first_new (new_job table.next_id pgid label stopped) pgid table.jobs
              (==_refl pgid) (sym (job_by_pid-first table pgid) ∙ e) (λ n. absurd (cc (s, n)))))
]

found-Recorded :
    (table : JobsTable) (pgid : ℕ) (label : Text) (found : Option ℕ)
    → jobs_find_by_pid table pgid ≡ found
    → Recorded table pgid label (job_stopped found table pgid label)
unfolding job_stopped jobs_find_by_pid
found-Recorded table pgid label none e = added-Recorded table pgid label (rw e refl)
found-Recorded table pgid label (some i) e = marked-Recorded table pgid label i e

-- Where children of the group end and then one stops: the result is 128 plus the signal, and the
-- group's job is in the table, stopped (the job that was there, or a new one with the label), or
-- the table had no such job and no free slot, and stays as it was.
pub wait_foreground_group-stops :
    (interactive : Bool) (table : JobsTable) (pgid : ℕ) (label : Text) (signal : ℕ)
    (ended rest : List Status)
    → All HasEnded ended
    → let (code, (table', printed)) =
        wait_foreground_group interactive table pgid label (ended ++ suspended signal ∷ rest) in
      (code ≡ 128 + signal)
      × ((id : ℤ) × (printed ≡ stopped_line id label) × Recorded table pgid label (id, table'))
unfolding wait_foreground_group group_stopped
wait_foreground_group-stops interactive table pgid label signal ended rest h =
    rw (wait_loop-ended interactive table pgid label signal ended rest 0 false h)
      (refl, (_, refl, found-Recorded table pgid label _ refl))
