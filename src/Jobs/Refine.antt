-- ===== src/Jobs/Refine.antt =====
-- The functions of jobs.c are acts on the directory.
use unix_shell.Base.{
  ℕ, suc, ◌≡◌, refl, ◌∙◌, inl, inr, Bool, true, Option, some, arith, Option-cases,
}
use unix_shell.Base.Int.{ℤ, pos, negsuc}
use unix_shell.Cstring.{Text}
use unix_shell.Jobs.{
  Job, JobState, JobsTable, is_free, has_id, has_pid, runs_as, release, find_slot, write_found,
  jobs_add, jobs_mark_done, jobs_find_by_id, jobs_find_by_pid, jobs_remove_by_id,
  jobs_remove_by_pid, jobs_clear_done,
}
use unix_shell.Jobs.Slots.{jobs_add-full, jobs_add-free}
use unix_shell.Jobs.Invariant.{IsTable, jobs_notify_completed-jobs_clear_done}
use unix_shell.Jobs.Lookup.{if_live}
use unix_shell.Jobs.Laws.{not-IsLive, jobs_add_lem, job_of-jobs_clear_done}
use unix_shell.Jobs.Reach.{
  set_state, Step, add, mark_done, remove_by_id, remove_by_pid, notify, clear, set_by_id,
  set_by_pid,
}
use unix_shell.Jobs.Directory.{
  view, entered, reaped, Act, enter, finish, mark, forget, sweep, same, kept_next, changed-Act,
}

-- a job whose slot stays in use
live_entered :
    (id n : ℕ) (k : Job) (job : ℕ → Option Job)
    → k.in_use ≡ true
    → entered id (if_live k) job n ≡ entered id (some k) job n
live_entered id n k job live = rw live refl

has_id-live : (id : ℤ) (j : Job) → has_id id j ≡ true → j.in_use ≡ true
has_id-live (pos n) j e = ground (arith, e)
has_id-live (negsuc n) j e = absurd cc

next_added :
    (table : JobsTable) (pid : ℕ) (command : Text) (state : JobState) {i : ℕ}
    → find_slot is_free table.jobs ≡ some i
    → (jobs_add table pid command state).1.next_id ≡ suc table.next_id
next_added table pid command state e = rw (jobs_add-free table pid command state e) (omega arith)

add-Act :
    (table : JobsTable) (pid : ℕ) (command : Text) (state : JobState)
    → IsTable table
    → Act (view table) (view (jobs_add table pid command state).1)
add-Act table pid command state t = elim (Option-cases (find_slot is_free table.jobs)) [
  | inl e ↦ rw (jobs_add-full table pid command state e) (same refl (λ n. refl))
  | inr (i, e) ↦ elim (jobs_add_lem table pid command state t) [
    | inl (full, _) ↦ absurd (not-IsLive table.jobs e full)
    | inr (_, _, lookup) ↦ enter pid command state (next_added table pid command state e) lookup
  ]
]

set-Act :
    (test : Job → Bool) (state : JobState) (table : JobsTable)
    → ((j : Job) → test j ≡ true → j.in_use ≡ true)
    → IsTable table
    → Act (view table) (view (write_found (find_slot test table.jobs) (set_state state) table))
set-Act test state table live t =
    changed-Act test (set_state state) table _ (record { live = live; same_id = λ j. refl }) t refl
      (λ k passes here after.
        mark k.job_id state k here (kept_next test (set_state state) table) (λ n.
          after n ∙ live_entered k.job_id n (set_state state k) (view table).job (live k passes)))

release-Act :
    (test : Job → Bool) (table : JobsTable)
    → ((j : Job) → test j ≡ true → j.in_use ≡ true)
    → IsTable table
    → Act (view table) (view (write_found (find_slot test table.jobs) release table))
release-Act test table live t =
    changed-Act test release table _ (record { live = live; same_id = λ j. refl }) t refl
      (λ k passes here after. forget k.job_id (kept_next test release table) after)

mark_done-Act :
    (table : JobsTable) (pid status : ℕ)
    → IsTable table
    → Act (view table) (view (jobs_mark_done table pid status))
unfolding jobs_mark_done
mark_done-Act table pid status t =
    changed-Act (runs_as pid) (reaped status) table _
      (record { live = λ j e. ground (arith, e); same_id = λ j. refl }) t refl
      (λ k passes here after.
        finish k.job_id status k here (ground (arith, passes))
          (kept_next (runs_as pid) (reaped status) table)
          (λ n.
            after n
            ∙ live_entered k.job_id n (reaped status k) (view table).job (ground (arith, passes))))

clear-Act : (table : JobsTable) → IsTable table → Act (view table) (view (jobs_clear_done table))
unfolding jobs_clear_done
clear-Act table t = sweep refl (λ n. job_of-jobs_clear_done table n t)

-- Every call on the job table does on the directory, which knows the table by lookups alone, one of
-- its acts.
pub Step-Act : {t u : JobsTable} → Step t u → IsTable t → Act (view t) (view u)
Step-Act {t} (add pid command state) h = add-Act t pid command state h
Step-Act {t} (mark_done pid status) h = mark_done-Act t pid status h
Step-Act {t} (remove_by_id id) h =
    unfold jobs_remove_by_id in
    unfold jobs_find_by_id in release-Act (has_id id) t (has_id-live id) h
Step-Act {t} (remove_by_pid pid) h =
    unfold jobs_remove_by_pid in
    unfold jobs_find_by_pid in release-Act (has_pid pid) t (λ j e. ground (arith, e)) h
Step-Act {t} notify h = rw (jobs_notify_completed-jobs_clear_done t) (clear-Act t h)
Step-Act {t} clear h = clear-Act t h
Step-Act {t} (set_by_id id state) h =
    unfold jobs_find_by_id in set-Act (has_id id) state t (has_id-live id) h
Step-Act {t} (set_by_pid pid state) h =
    unfold jobs_find_by_pid in set-Act (has_pid pid) state t (λ j e. ground (arith, e)) h
