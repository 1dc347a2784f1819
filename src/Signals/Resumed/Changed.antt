-- ===== src/Signals/Resumed/Changed.antt =====
-- The same behind a job that is added, resumed or stopped, and where processes start and end.
use unix_shell.Base.{
  ℕ, ◌≡◌, refl, subst, inl, inr, Bool, true, false, List, [], ◌∷◌, ◌++◌, Option, none, some, All,
  All-mono, arith, Bool-cases,
}
use unix_shell.Base.Int.{ℤ}
use unix_shell.Cstring.{Text}
use unix_shell.Executor.{job_stopped}
use unix_shell.Jobs.{
  Job, JobState, new_job, JobsTable, running, stopped, is_stopped, has_id, has_pid, jobs_add,
  jobs_find_by_id, jobs_find_by_pid, write_found,
}
use unix_shell.Jobs.Reach.{set_state}
use unix_shell.Jobs.Slots.{update_first, write_found-find_slot, find_slot-none}
use unix_shell.Signals.{Report}
use unix_shell.Signals.Interleaving.{set_alive, without}
use unix_shell.Signals.Leaders.{
  LedBy, OtherBy, FadesAllBy-update_first, FadesAllBy-All, FadesAllBy-Distinct, jobs_add-Distinct,
  LedBy-mono, LedBy-others,
}
use unix_shell.Signals.Tracked.{runs, All-jobs_add}
use unix_shell.Signals.Handled.{known}
use unix_shell.Signals.NoLost.{known-start, known-ends, known-wait}
use unix_shell.Signals.Resumed.{used, halts, resumed, resume_job}
use unix_shell.Signals.Resumed.Held.{IsHeld, weaker_Other, runs-used, halts-used}

All-update_first_if :
    (P : Job → Type 0) (test : Job → Bool) (f : Job → Job) (jobs : List Job)
    → ((j : Job) → test j ≡ true → P j → P (f j))
    → All P jobs
    → All P (update_first test f jobs)
unfolding update_first
All-update_first_if P test f [] h a = tt
All-update_first_if P test f (j ∷ jobs) h a = elim (Bool-cases (test j)) [
  | inl e ↦ rw e (h j e a.0, a.1)
  | inr e ↦ rw e (a.0, All-update_first_if P test f jobs h a.1)
]

All-both :
    (P Q : Job → Type 0) (jobs : List Job) → All P jobs → All Q jobs → All (λ j. P j × Q j) jobs
All-both P Q [] p q = tt
All-both P Q (j ∷ jobs) (p, ps) (q, qs) = ((p, q), All-both P Q jobs ps qs)

Backed : (ℕ → Bool) → List Report → Job → Type 0
Backed alive waiting j = LedBy runs (known alive waiting) j × LedBy halts alive j

resumed-Backed :
    (alive : ℕ → Bool) (waiting : List Report) (j : Job)
    → Backed alive waiting j
    → Backed alive waiting (resumed j)
unfolding Backed
resumed-Backed alive waiting j (r, h) = elim (Bool-cases (is_stopped j.state)) [
  | inl e ↦ rw e ((λ l. ground (arith, h, e, l)), (λ l. absurd (ground (arith, l))))
  | inr e ↦ rw e (r, h)
]

resumed-used : (j : Job) → (used (resumed j) ≡ true → used j ≡ true) × ((resumed j).pid ≡ j.pid)
resumed-used j = elim (Bool-cases (is_stopped j.state)) [
  | inl e ↦ rw e ((λ u. u), refl)
  | inr e ↦ rw e ((λ u. u), refl)
]

pub resume_job-IsHeld :
    (alive : ℕ → Bool) (waiting : List Report) (id : ℤ) (table : JobsTable)
    → IsHeld alive waiting table.jobs
    → IsHeld alive waiting (resume_job id table).jobs
unfolding resume_job jobs_find_by_id Backed
resume_job-IsHeld alive waiting id table h = rw (write_found-find_slot (has_id id) resumed table) (
    let backed : All (Backed alive waiting) (update_first (has_id id) resumed table.jobs) =
      All-update_first_if (Backed alive waiting) (has_id id) resumed table.jobs
        (λ j e. resumed-Backed alive waiting j)
        (All-both (LedBy runs (known alive waiting)) (LedBy halts alive) table.jobs h.led h.held) in
    record {
      led =
          All-mono (Backed alive waiting) (LedBy runs (known alive waiting)) _ (λ j b. b.0) backed;
      held = All-mono (Backed alive waiting) (LedBy halts alive) _ (λ j b. b.1) backed;
      distinct =
          FadesAllBy-Distinct used table.jobs _
            (FadesAllBy-update_first used (has_id id) resumed table.jobs resumed-used) h.distinct;
    })

leads :
    (alive : ℕ → Bool) (pid : ℕ) (j : Job)
    → has_pid pid j ≡ true
    → alive pid ≡ true
    → alive j.pid ≡ true
leads alive pid j t a = let same : j.pid ≡ pid = ground (arith, t) in rw same a

jobs_add-IsHeld :
    (alive : ℕ → Bool) (waiting : List Report) (pid : ℕ) (label : Text) (state : JobState)
    (table : JobsTable)
    → Backed alive waiting (new_job table.next_id pid label state)
    → All (OtherBy used pid) table.jobs
    → IsHeld alive waiting table.jobs
    → IsHeld alive waiting (jobs_add table pid label state).1.jobs
unfolding Backed
jobs_add-IsHeld alive waiting pid label state table new o h = record {
  led = All-jobs_add (LedBy runs (known alive waiting)) table pid label state new.0 h.led;
  held = All-jobs_add (LedBy halts alive) table pid label state new.1 h.held;
  distinct = jobs_add-Distinct used table pid label state o h.distinct;
}

-- a job that the shell adds in the background
pub record_running-IsHeld :
    (alive : ℕ → Bool) (waiting : List Report) (pid : ℕ) (label : Text) (table : JobsTable)
    → known alive waiting pid ≡ true
    → All (OtherBy used pid) table.jobs
    → IsHeld alive waiting table.jobs
    → IsHeld alive waiting (jobs_add table pid label running).1.jobs
unfolding Backed
record_running-IsHeld alive waiting pid label table k o h =
    jobs_add-IsHeld alive waiting pid label running table ((λ r. k), (λ r. absurd cc)) o h

-- A child that stops lives, so its job is one whose leader lives.
pub job_stopped-IsHeld :
    (alive : ℕ → Bool) (waiting : List Report) (pid : ℕ) (label : Text) (table : JobsTable)
    (found : Option ℕ)
    → jobs_find_by_pid table pid ≡ found
    → alive pid ≡ true
    → IsHeld alive waiting table.jobs
    → IsHeld alive waiting (job_stopped found table pid label).1.jobs
unfolding job_stopped jobs_find_by_pid Backed
job_stopped-IsHeld alive waiting pid label table none e a h =
    jobs_add-IsHeld alive waiting pid label stopped table ((λ r. absurd cc), (λ r. a))
      (All-mono (λ j. has_pid pid j ≡ false) (OtherBy used pid) table.jobs
        (λ j no_job. λ u. ground (arith, no_job, u)) (find_slot-none (has_pid pid) table.jobs e))
      h
job_stopped-IsHeld alive waiting pid label table (some i) e a h =
    subst (λ found. IsHeld alive waiting (write_found found (set_state stopped) table).jobs) e
      (rw (write_found-find_slot (has_pid pid) (set_state stopped) table) (record {
        led =
            FadesAllBy-All runs (λ x. known alive waiting x ≡ true) table.jobs _
              (FadesAllBy-update_first runs (has_pid pid) (set_state stopped) table.jobs
                (λ j. (λ r. absurd (ground (arith, r)), refl)))
              h.led;
        held =
            All-update_first_if (LedBy halts alive) (has_pid pid) (set_state stopped) table.jobs
              (λ j t old. λ l. leads alive pid j t a) h.held;
        distinct =
            FadesAllBy-Distinct used table.jobs _
              (FadesAllBy-update_first used (has_pid pid) (set_state stopped) table.jobs
                (λ j. (λ u. u, refl)))
              h.distinct;
      }))

pub start-IsHeld :
    (pid : ℕ) (alive : ℕ → Bool) (waiting : List Report) (jobs : List Job)
    → IsHeld alive waiting jobs
    → IsHeld (set_alive true pid alive) waiting jobs
unfolding set_alive
start-IsHeld pid alive waiting jobs h = record {
  led = LedBy-mono runs (known alive waiting) _ (known-start pid alive waiting) jobs h.led;
  held = LedBy-mono halts alive (set_alive true pid alive) (λ x l. ground (arith, l)) jobs h.held;
  distinct = h.distinct;
}

pub ends-IsHeld :
    (pid status : ℕ) (alive : ℕ → Bool) (waiting : List Report) (jobs : List Job)
    → All (OtherBy halts pid) jobs
    → IsHeld alive waiting jobs
    → IsHeld (set_alive false pid alive) (waiting ++ (pid, status) ∷ []) jobs
unfolding set_alive
ends-IsHeld pid status alive waiting jobs o h = record {
  led = LedBy-mono runs (known alive waiting) _ (known-ends pid status alive waiting) jobs h.led;
  held =
      LedBy-others halts pid alive (set_alive false pid alive) (λ x e l. ground (arith, e, l)) jobs
        o h.held;
  distinct = h.distinct;
}

-- the shell has waited for a process that leads no job of the table any more
pub waited-IsHeld :
    (pid : ℕ) (alive : ℕ → Bool) (waiting : List Report) (jobs : List Job)
    → All (OtherBy used pid) jobs
    → IsHeld alive waiting jobs
    → IsHeld (set_alive false pid alive) (without pid waiting) jobs
unfolding set_alive
waited-IsHeld pid alive waiting jobs o h = record {
  led =
      LedBy-others runs pid (known alive waiting) _ (known-wait pid alive waiting) jobs
        (weaker_Other used runs runs-used pid jobs o) h.led;
  held =
      LedBy-others halts pid alive (set_alive false pid alive) (λ x e l. ground (arith, e, l)) jobs
        (weaker_Other used halts halts-used pid jobs o) h.held;
  distinct = h.distinct;
}
