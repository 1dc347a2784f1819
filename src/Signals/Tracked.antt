-- ===== src/Signals/Tracked.antt =====
-- Running jobs and the processes that lead them: what the calls of the job table keep.
use unix_shell.Base.{
  some, ℕ, ◌≡◌, refl, subst, inl, inr, Bool, false, ◌&&◌, List, All, All-replicate, arith,
  Option-cases,
}
use unix_shell.Cstring.{Text}
use unix_shell.Jobs.{
  Job, JobState, JobsTable, stopped, write_found, finished, cleared, is_running, is_free, runs_as,
  has_pid, release, new_job, find_slot, jobs_init, jobs_add, jobs_mark_done, jobs_find_by_pid,
  jobs_remove_by_pid, jobs_clear_done, jobs_notify_completed,
}
use unix_shell.Jobs.Reach.{set_state}
use unix_shell.Jobs.Slots.{write_found-find_slot, jobs_add-full, jobs_add-free}
use unix_shell.Signals.Leaders.{
  LedBy, OtherBy, AreDistinctBy, FadesAllBy, FadesAllBy-update_first, FadesAllBy-clear_done,
  taken-Other, cleared-Distinct,
}
use unix_shell.Jobs.Add.{All-update_first}
use unix_shell.Jobs.Invariant.{jobs_notify_completed-jobs_clear_done}

abbrev pub runs : Job → Bool
runs j = j.in_use && is_running j.state

-- a running job's leader is one of these processes
abbrev pub Led : (ℕ → Bool) → Job → Type 0
Led = LedBy runs

-- a running job's leader is another one
abbrev pub Other : ℕ → Job → Type 0
Other = OtherBy runs

abbrev pub AreDistinct : List Job → Type 0
AreDistinct = AreDistinctBy runs

-- no job starts to run, and no leader changes
abbrev pub FadesAll : List Job → List Job → Type 0
FadesAll = FadesAllBy runs

pub FadesAll-jobs_clear_done :
    (table : JobsTable) → FadesAll table.jobs (jobs_clear_done table).jobs
unfolding jobs_clear_done
FadesAll-jobs_clear_done table =
    FadesAllBy-clear_done runs table.jobs (λ j r. absurd (ground (arith, r)))

pub FadesAll-jobs_notify_completed :
    (table : JobsTable) → FadesAll table.jobs (jobs_notify_completed table).1.jobs
FadesAll-jobs_notify_completed table =
    rw (jobs_notify_completed-jobs_clear_done table) (FadesAll-jobs_clear_done table)

pub FadesAll-jobs_remove_by_pid :
    (table : JobsTable) (pid : ℕ) → FadesAll table.jobs (jobs_remove_by_pid table pid).jobs
unfolding jobs_remove_by_pid jobs_find_by_pid
FadesAll-jobs_remove_by_pid table pid =
    rw (write_found-find_slot (has_pid pid) release table)
      (FadesAllBy-update_first runs (has_pid pid) release table.jobs (λ j. (λ r. absurd cc, refl)))

abbrev ended : ℕ → Job → Job
ended status j = record j { state = finished; status = status }

not-runs-ended : (status : ℕ) (j : Job) → runs (ended status j) ≡ false
not-runs-ended status j = ground arith

-- `jobs_mark_done` marks the running job of its process, if there is one, and there is one at most.
pub FadesAll-jobs_mark_done :
    (table : JobsTable) (pid status : ℕ)
    → FadesAll table.jobs (jobs_mark_done table pid status).jobs
unfolding jobs_mark_done
FadesAll-jobs_mark_done table pid status =
    rw (write_found-find_slot (runs_as pid) (ended status) table) (
      FadesAllBy-update_first runs (runs_as pid) (ended status) table.jobs
        (λ j. (λ r. absurd (ground (arith, r, not-runs-ended status j)), refl)))

pub jobs_mark_done-Other :
    (table : JobsTable) (pid status : ℕ)
    → AreDistinct table.jobs
    → All (Other pid) (jobs_mark_done table pid status).jobs
unfolding jobs_mark_done
jobs_mark_done-Other table pid status d =
    rw (write_found-find_slot (runs_as pid) (ended status) table) (
      taken-Other runs pid (runs_as pid) (ended status) table.jobs (λ j e. ground (arith, e))
        (λ j e. λ r. ground (arith, e, r)) (not-runs-ended status) d)

-- a property of every job, which the new one has
pub All-jobs_add :
    (P : Job → Type 0) (table : JobsTable) (pid : ℕ) (label : Text) (state : JobState)
    → P (new_job table.next_id pid label state)
    → All P table.jobs
    → All P (jobs_add table pid label state).1.jobs
All-jobs_add P table pid label state new h = elim (Option-cases (find_slot is_free table.jobs)) [
  | inl e ↦ rw (jobs_add-full table pid label state e) h
  | inr (i, e) ↦
      rw (jobs_add-free table pid label state e)
        (All-update_first P is_free _ table.jobs (λ j. new) h)
]

pub jobs_init-AreDistinct : AreDistinct jobs_init.jobs
unfolding jobs_init
jobs_init-AreDistinct = cleared-Distinct runs 64 refl

pub jobs_init-Led : (known : ℕ → Bool) → All (Led known) jobs_init.jobs
unfolding jobs_init
jobs_init-Led known = All-replicate (Led known) 64 cleared (λ r. absurd cc)

pub FadesAll-set_stopped :
    (table : JobsTable) (pid i : ℕ)
    → jobs_find_by_pid table pid ≡ some i
    → FadesAll table.jobs (write_found (some i) (set_state stopped) table).jobs
unfolding jobs_find_by_pid
FadesAll-set_stopped table pid i e =
    subst (λ found. FadesAll table.jobs (write_found found (set_state stopped) table).jobs) e
      (rw (write_found-find_slot (has_pid pid) (set_state stopped) table) (
        FadesAllBy-update_first runs (has_pid pid) (set_state stopped) table.jobs
          (λ j. (λ r. absurd (ground (arith, r)), refl))))
