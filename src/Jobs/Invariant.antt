-- ===== src/Jobs/Invariant.antt =====
-- The invariant of the job table, and that every function of jobs.c keeps it.
use unix_shell.Base.{
  ℕ, ◌<◌, ◌≡◌, ◌≢◌, refl, inl, inr, Bool, true, List, [], ◌∷◌, arith, length, All, All-mono,
  Bool-cases,
}
use unix_shell.Base.Int.{ℤ}
use unix_shell.Jobs.{
  Job, JobsTable, max_jobs, job_cmd_len, finished, release, find_slot, write_found, has_id, has_pid,
  runs_as, jobs_mark_done, jobs_find_by_id, jobs_find_by_pid, jobs_remove_by_id, jobs_remove_by_pid,
  notify_completed, jobs_notify_completed, clear_done, jobs_clear_done,
}
use unix_shell.Jobs.Slots.{update_first, write_found-find_slot}

-- Two live jobs have different ids.
abbrev pub Apart : Job → Job → Type 0
Apart j k = j.in_use ≡ true → k.in_use ≡ true → j.job_id ≢ k.job_id

abbrev pub IsUnique : List Job → Type 0
IsUnique [] = Unit
IsUnique (j ∷ jobs) = All (Apart j) jobs × IsUnique jobs

-- a live job has an id that was assigned before
abbrev pub IsAssigned : ℕ → Job → Type 0
IsAssigned next_id j = j.in_use ≡ true → (0 < j.job_id) × (j.job_id < next_id)

abbrev pub IsLabelled : Job → Type 0
IsLabelled j = length j.command < job_cmd_len

pub record IsTable (table : JobsTable) : Type 0 where
  pub slots : length table.jobs ≡ max_jobs
  pub first_id : 0 < table.next_id
  pub ids : All (IsAssigned table.next_id) table.jobs
  pub unique : IsUnique table.jobs
  pub labels : All IsLabelled table.jobs

-- What every function but `jobs_add` does to a slot: it brings no job to life, and leaves the id
-- and the label alone.
abbrev pub Keeps : Job → Job → Type 0
Keeps j k = (k.in_use ≡ true → j.in_use ≡ true) × (k.job_id ≡ j.job_id) × (k.command ≡ j.command)

abbrev pub KeepsAll : List Job → List Job → Type 0
KeepsAll [] [] = Unit
KeepsAll (j ∷ js) (k ∷ ks) = Keeps j k × KeepsAll js ks
KeepsAll _ _ = ⊥

KeepsAll-refl : (js : List Job) → KeepsAll js js
KeepsAll-refl [] = tt
KeepsAll-refl (j ∷ js) = ((λ h. h, refl, refl), KeepsAll-refl js)

KeepsAll-length : (js ks : List Job) → KeepsAll js ks → length ks ≡ length js
KeepsAll-length [] [] h = refl
KeepsAll-length (j ∷ js) (k ∷ ks) h = omega (arith, KeepsAll-length js ks h.1)
KeepsAll-length [] (k ∷ ks) h = absurd h
KeepsAll-length (j ∷ js) [] h = absurd h

KeepsAll-All :
    (P : Job → Type 0) (js ks : List Job)
    → ((j k : Job) → Keeps j k → P j → P k)
    → KeepsAll js ks
    → All P js
    → All P ks
KeepsAll-All P [] [] f h a = tt
KeepsAll-All P (j ∷ js) (k ∷ ks) f h a = (f j k h.0 a.0, KeepsAll-All P js ks f h.1 a.1)
KeepsAll-All P [] (k ∷ ks) f h a = absurd h
KeepsAll-All P (j ∷ js) [] f h a = absurd h

Keeps-Apart : (i j k : Job) → Keeps j k → Apart i j → Apart i k
Keeps-Apart i j k h a = λ u v. rw h.1 (a u (h.0 v))

KeepsAll-IsUnique : (js ks : List Job) → KeepsAll js ks → IsUnique js → IsUnique ks
KeepsAll-IsUnique [] [] h u = tt
KeepsAll-IsUnique (j ∷ js) (k ∷ ks) h u = (
  All-mono (Apart j) (Apart k) ks (λ i a. λ v w. rw h.0.1 (a (h.0.0 v) w))
      (KeepsAll-All (Apart j) js ks (Keeps-Apart j) h.1 u.0),
  KeepsAll-IsUnique js ks h.1 u.1,
)
KeepsAll-IsUnique [] (k ∷ ks) h u = absurd h
KeepsAll-IsUnique (j ∷ js) [] h u = absurd h

pub KeepsAll-IsTable :
    (table : JobsTable) (jobs : List Job)
    → KeepsAll table.jobs jobs
    → IsTable table
    → IsTable (record table { jobs = jobs })
KeepsAll-IsTable table jobs h t = record {
  slots = omega (arith, t.slots, KeepsAll-length table.jobs jobs h);
  first_id = t.first_id;
  ids =
      KeepsAll-All (IsAssigned table.next_id) table.jobs jobs (λ j k l a. λ u. rw l.1 (a (l.0 u))) h
        t.ids;
  unique = KeepsAll-IsUnique table.jobs jobs h t.unique;
  labels = KeepsAll-All IsLabelled table.jobs jobs (λ j k l a. rw l.2 a) h t.labels;
}

pub KeepsAll-update_first :
    (test : Job → Bool) (f : Job → Job) (jobs : List Job)
    → ((j : Job) → Keeps j (f j))
    → KeepsAll jobs (update_first test f jobs)
unfolding update_first
KeepsAll-update_first test f [] k = tt
KeepsAll-update_first test f (j ∷ jobs) k = elim (Bool-cases (test j)) [
  | inl e ↦ rw e (k j, KeepsAll-refl jobs)
  | inr e ↦ rw e ((λ h. h, refl, refl), KeepsAll-update_first test f jobs k)
]

-- a write through a found pointer that changes at most `state`, `status` or `in_use` to 0
pub write_found-IsTable :
    (test : Job → Bool) (f : Job → Job) (table : JobsTable)
    → ((j : Job) → Keeps j (f j))
    → IsTable table
    → IsTable (write_found (find_slot test table.jobs) f table)
write_found-IsTable test f table k t =
    rw (write_found-find_slot test f table)
      (KeepsAll-IsTable table _ (KeepsAll-update_first test f table.jobs k) t)

-- `jobs_mark_done` keeps the invariant.
pub jobs_mark_done-IsTable :
    (table : JobsTable) (pid status : ℕ) → IsTable table → IsTable (jobs_mark_done table pid status)
unfolding jobs_mark_done
jobs_mark_done-IsTable table pid status =
    write_found-IsTable (runs_as pid) (λ job. record job { state = finished; status = status })
      table (λ j. (λ h. h, refl, refl))

release-Keeps : (j : Job) → Keeps j (release j)
release-Keeps j = ((λ h. cc), refl, refl)

pub jobs_remove_by_id-IsTable :
    (table : JobsTable) (id : ℤ) → IsTable table → IsTable (jobs_remove_by_id table id)
unfolding jobs_remove_by_id jobs_find_by_id
jobs_remove_by_id-IsTable table id = write_found-IsTable (has_id id) release table release-Keeps

pub jobs_remove_by_pid-IsTable :
    (table : JobsTable) (pid : ℕ) → IsTable table → IsTable (jobs_remove_by_pid table pid)
unfolding jobs_remove_by_pid jobs_find_by_pid
jobs_remove_by_pid-IsTable table pid = write_found-IsTable (has_pid pid) release table release-Keeps

-- `jobs_notify_completed` leaves the table that `jobs_clear_done` leaves.
notify_completed-clear_done : (jobs : List Job) → (notify_completed jobs).1 ≡ clear_done jobs
unfolding notify_completed clear_done
notify_completed-clear_done [] = refl
notify_completed-clear_done (j ∷ jobs) = ground (arith, notify_completed-clear_done jobs)

KeepsAll-clear_done : (jobs : List Job) → KeepsAll jobs (clear_done jobs)
unfolding clear_done
KeepsAll-clear_done [] = tt
KeepsAll-clear_done (j ∷ jobs) = (ground arith, KeepsAll-clear_done jobs)

pub jobs_clear_done-IsTable : (table : JobsTable) → IsTable table → IsTable (jobs_clear_done table)
unfolding jobs_clear_done
jobs_clear_done-IsTable table = KeepsAll-IsTable table _ (KeepsAll-clear_done table.jobs)

pub jobs_notify_completed-jobs_clear_done :
    (table : JobsTable) → (jobs_notify_completed table).1 ≡ jobs_clear_done table
unfolding jobs_notify_completed jobs_clear_done
jobs_notify_completed-jobs_clear_done table = rw (notify_completed-clear_done table.jobs) refl

pub jobs_notify_completed-IsTable :
    (table : JobsTable) → IsTable table → IsTable (jobs_notify_completed table).1
jobs_notify_completed-IsTable table t =
    rw (jobs_notify_completed-jobs_clear_done table) (jobs_clear_done-IsTable table t)
