-- ===== src/Jobs/Laws.antt =====
-- What each function of jobs.c does to every lookup, and to what is reported.
use mathlib.Core.Option.{Option, none, some}
use unix_shell.Base.{
  ℕ, ◌≡◌, refl, sym, ap, ◌∙◌, ◌⊎◌, inl, inr, Bool, true, false, List, [], ◌∷◌, arith, All, All-mono,
  Bool-cases, Option-cases, if◌then◌else◌, ◌==◌, ==_iff,
}
use unix_shell.Cstring.{Text}
use unix_shell.Base.Int.{pos, negsuc}
use unix_shell.Jobs.{
  Job, JobState, JobsTable, is_free, has_id, has_pid, runs_as, stopped, finished, is_finished,
  release, new_job, find_slot, jobs_add, jobs_mark_done, jobs_find_by_id, jobs_find_by_pid,
  jobs_remove_by_id, jobs_remove_by_pid, clear_done, jobs_clear_done, write_found, notify_completed,
  jobs_notify_completed,
}
use unix_shell.Jobs.Slots.{
  first, update_first, find_slot-none, jobs_add-full, jobs_add-free, write_found-find_slot,
}
use unix_shell.Jobs.Invariant.{IsTable, IsUnique, IsAssigned, jobs_notify_completed-jobs_clear_done}
use unix_shell.Jobs.Lookup.{
  job_of, job_of-first, job_by_pid, job_by_pid-first, first-All, first-none, first-Apart, if_live,
  IsChange, first-update_first, update_first-none,
}

-- A lookup of `n` that gave `old`, once the job `target` has become `change target`.
abbrev pub overriding : Option Job → (Job → Job) → ℕ → Option Job → Option Job
overriding none change n old = old
overriding (some k) change n old = if k.job_id == n then if_live (change k) else old

pub job_of-write_found :
    (test : Job → Bool) (f : Job → Job) (table : JobsTable) (n : ℕ) (target : Option Job)
    → IsChange test f
    → IsTable table
    → first test table.jobs ≡ target
    → job_of (write_found (find_slot test table.jobs) f table) (pos n)
      ≡ overriding target f n (job_of table (pos n))
job_of-write_found test f table n none c t e =
    rw (write_found-find_slot test f table)
      (rw (update_first-none test f table.jobs (first-none test table.jobs e)) refl)
job_of-write_found test f table n (some k) c t e =
    rw (write_found-find_slot test f table, job_of-first, job_of-first)
      (first-update_first test f table.jobs n c t.unique e)

pub All-Unit : (jobs : List Job) → All (λ _. Unit {0}) jobs
All-Unit [] = tt
All-Unit (j ∷ jobs) = (tt, All-Unit jobs)

has_id-IsChange : (n : ℕ) → IsChange (has_id (pos n)) release
has_id-IsChange n = record { live = λ j h. ground arith; same_id = λ j. refl }

overriding-has_id :
    (jobs : List Job) (m n : ℕ) (target : Option Job)
    → first (has_id (pos m)) jobs ≡ target
    → overriding target release n (first (has_id (pos n)) jobs)
      ≡ (if m == n then none else first (has_id (pos n)) jobs)
overriding-has_id jobs m n none e = elim (Bool-cases (m == n)) [
  | inl h ↦ rw (h, ← (==_iff m n).0 h) e
  | inr h ↦ rw h refl
]
overriding-has_id jobs m n (some k) e =
    ground (arith, (first-All (λ _. Unit {0}) (has_id (pos m)) jobs (All-Unit jobs) e).0)

-- Removing job `m` makes lookups of `m` fail, and changes no other lookup.
job_of-jobs_remove_by_id :
    (table : JobsTable) (m n : ℕ)
    → IsTable table
    → job_of (jobs_remove_by_id table (pos m)) (pos n)
      ≡ (if m == n then none else job_of table (pos n))
unfolding jobs_remove_by_id jobs_find_by_id
job_of-jobs_remove_by_id table m n t =
    job_of-write_found (has_id (pos m)) release table n _ (has_id-IsChange m) t refl
    ∙ rw (job_of-first table (pos n)) (overriding-has_id table.jobs m n _ refl)

-- A lookup of `n` that gave `old`, once `target` is out of the table.
abbrev pub without : Option Job → ℕ → Option Job → Option Job
without none n old = old
without (some k) n old = if k.job_id == n then none else old

overriding-release :
    (target : Option Job) (n : ℕ) (old : Option Job)
    → overriding target release n old ≡ without target n old
overriding-release none n old = refl
overriding-release (some k) n old = refl

-- Where the invariant of the job table holds, removing by group id makes the lookup of the first
-- live job of that group fail, and changes no other lookup.
pub job_of-jobs_remove_by_pid :
    (table : JobsTable) (pid n : ℕ)
    → IsTable table
    → job_of (jobs_remove_by_pid table pid) (pos n)
      ≡ without (job_by_pid table pid) n (job_of table (pos n))
unfolding jobs_remove_by_pid jobs_find_by_pid
job_of-jobs_remove_by_pid table pid n t =
    job_of-write_found (has_pid pid) release table n _
      (record { live = λ j h. ground arith; same_id = λ j. refl }) t
      (sym (job_by_pid-first table pid))
    ∙ overriding-release (job_by_pid table pid) n (job_of table (pos n))

-- `jobs_mark_done` turns the first running job of the group into a finished one with that status,
-- and changes no other lookup.
pub job_of-jobs_mark_done :
    (table : JobsTable) (pid status n : ℕ)
    → IsTable table
    → job_of (jobs_mark_done table pid status) (pos n)
      ≡ overriding
          (first (runs_as pid) table.jobs)
          (λ j. record j { state = finished; status = status })
          n
          (job_of table (pos n))
unfolding jobs_mark_done
job_of-jobs_mark_done table pid status n t =
    job_of-write_found (runs_as pid) _ table n _
      (record { live = λ j h. ground arith; same_id = λ j. refl }) t refl

stopped-runs_as :
    (pid : ℕ) (j : Job) → (has_pid pid j ≡ true → j.state ≡ stopped) → runs_as pid j ≡ false
stopped-runs_as pid j h = ground arith

-- A group whose jobs are all stopped is not marked: when it dies, its job stays `Stopped`.
jobs_mark_done-stopped :
    (table : JobsTable) (pid status : ℕ)
    → All (λ j. has_pid pid j ≡ true → j.state ≡ stopped) table.jobs
    → jobs_mark_done table pid status ≡ table
unfolding jobs_mark_done
jobs_mark_done-stopped table pid status h =
    write_found-find_slot (runs_as pid) _ table
    ∙ ap (λ jobs. record table { jobs = jobs })
        (update_first-none (runs_as pid) _ table.jobs (
          All-mono (λ j. has_pid pid j ≡ true → j.state ≡ stopped) (λ j. runs_as pid j ≡ false)
            table.jobs (stopped-runs_as pid) h))

abbrev pub IsLive : Job → Type 0
IsLive j = j.in_use ≡ true

-- a job, unless it is finished
abbrev pub unfinished : Option Job → Option Job
unfinished none = none
unfinished (some j) = if is_finished j.state then none else some j

-- The state of a new job's slot, and the id that was given.
abbrev pub lookup_added : JobsTable → Job → ℕ → Option Job
lookup_added table new n = if table.next_id == n then some new else job_of table (pos n)

first-update_first-is_free :
    (new : Job) (next_id n : ℕ) (jobs : List Job)
    → new.job_id ≡ next_id
    → new.in_use ≡ true
    → All (IsAssigned next_id) jobs
    → ¬ All IsLive jobs
    → first (has_id (pos n)) (update_first is_free (λ _. new) jobs)
      ≡ (if next_id == n then some new else first (has_id (pos n)) jobs)
unfolding first update_first
first-update_first-is_free new next_id n [] e v a f = absurd (f tt)
first-update_first-is_free new next_id n (j ∷ jobs) e v a f = elim (Bool-cases j.in_use) [
  | inl live ↦ ground (
    arith,
    a.0 live,
    first-update_first-is_free new next_id n jobs e v a.1 (λ all. f (live, all)),
  )
  | inr free ↦ ground arith
]

find_slot-IsLive : (jobs : List Job) → All IsLive jobs → find_slot is_free jobs ≡ none
unfolding find_slot
find_slot-IsLive [] all = refl
find_slot-IsLive (j ∷ jobs) all = ground (arith, find_slot-IsLive jobs all.1)

pub not-IsLive : (jobs : List Job) {i : ℕ} → find_slot is_free jobs ≡ some i → ¬ All IsLive jobs
not-IsLive jobs e all = cc (find_slot-IsLive jobs all)

-- `jobs_add` either finds every slot taken, returns -1 and leaves the table alone, or it finds a
-- free slot and returns the next id, which from then on is the new job's; no other lookup changes.
pub jobs_add_lem :
    (table : JobsTable) (pid : ℕ) (command : Text) (state : JobState)
    → IsTable table
    → All IsLive table.jobs × (jobs_add table pid command state ≡ (negsuc 0, table))
      ⊎ ¬ All IsLive table.jobs
        × ((jobs_add table pid command state).0 ≡ pos table.next_id)
        × ((n : ℕ)
            → job_of (jobs_add table pid command state).1 (pos n)
              ≡ lookup_added table (new_job table.next_id pid command state) n)
jobs_add_lem table pid command state t = elim (Option-cases (find_slot is_free table.jobs)) [
  | inl e ↦ inl (
    All-mono (λ j. is_free j ≡ false) IsLive table.jobs (λ j h. ground arith)
        (find_slot-none is_free table.jobs e),
    jobs_add-full table pid command state e,
  )
  | inr (i, e) ↦ inr (
    not-IsLive table.jobs e,
    rw (jobs_add-free table pid command state e) refl,
    λ n.
        rw (jobs_add-free table pid command state e, job_of-first, job_of-first)
          (first-update_first-is_free (new_job table.next_id pid command state) table.next_id n
            table.jobs refl refl t.ids (not-IsLive table.jobs e)),
  )
]

first-clear_done :
    (jobs : List Job) (n : ℕ)
    → IsUnique jobs
    → first (has_id (pos n)) (clear_done jobs) ≡ unfinished (first (has_id (pos n)) jobs)
unfolding first clear_done
first-clear_done [] n u = refl
first-clear_done (j ∷ jobs) n u = elim (Bool-cases j.in_use) [
  | inl live ↦ ground (arith, first-clear_done jobs n u.1, first-Apart j jobs n live u.0)
  | inr free ↦ ground (arith, first-clear_done jobs n u.1)
]

-- Clearing makes lookups of finished jobs fail, and changes no other lookup.
pub job_of-jobs_clear_done :
    (table : JobsTable) (n : ℕ)
    → IsTable table
    → job_of (jobs_clear_done table) (pos n) ≡ unfinished (job_of table (pos n))
unfolding jobs_clear_done
job_of-jobs_clear_done table n t =
    rw (job_of-first, job_of-first) (first-clear_done table.jobs n t.unique)

notify_completed-clear_done_idem :
    (jobs : List Job) → notify_completed (clear_done jobs) ≡ ([], clear_done jobs)
unfolding notify_completed clear_done
notify_completed-clear_done_idem [] = refl
notify_completed-clear_done_idem (j ∷ jobs) = ground (arith, notify_completed-clear_done_idem jobs)

notify-jobs_clear_done :
    (table : JobsTable)
    → jobs_notify_completed (jobs_clear_done table) ≡ ([], jobs_clear_done table)
unfolding jobs_notify_completed jobs_clear_done
notify-jobs_clear_done table =
    ap (λ (r : List Text × List Job). (r.0, record table { jobs = r.1 }))
      (notify_completed-clear_done_idem table.jobs)

-- A finished job is reported once: behind the `jobs` built-in's clearing, or behind an earlier
-- notice, the notifier prints nothing and changes nothing.
jobs_notify_completed_once :
    (table : JobsTable)
    → (jobs_notify_completed (jobs_clear_done table) ≡ ([], jobs_clear_done table))
      × (jobs_notify_completed (jobs_notify_completed table).1
          ≡ ([], (jobs_notify_completed table).1))
jobs_notify_completed_once table = (
  notify-jobs_clear_done table,
  rw (jobs_notify_completed-jobs_clear_done table) (notify-jobs_clear_done table),
)
