-- ===== src/Jobs/Slots.antt =====
-- The scans of the job table without indices: the first job that passes a test, and a write to it.
use mathlib.Core.Option
use mathlib.Core.Option.{Option, none, some}
use unix_shell.Base.{
  ℕ, suc, ◌+◌, ◌≡◌, refl, ap, ◌∙◌, ◌≢◌, inl, inr, Bool, false, List, [], ◌∷◌, get_elem?, All,
  Bool-cases, if◌then◌else◌,
}
use unix_shell.Base.Int.{pos, negsuc}
use unix_shell.Cstring.{Text}
use unix_shell.Jobs.{
  Job, JobState, JobsTable, is_free, new_job, find_slot, modify, write_found, jobs_add,
}

unfoldable pub first : (Job → Bool) → List Job → Option Job
first test [] = none
first test (job ∷ jobs) = if test job then some job else first test jobs

unfoldable pub update_first : (Job → Bool) → (Job → Job) → List Job → List Job
update_first test f [] = []
update_first test f (job ∷ jobs) = if test job then f job ∷ jobs else job ∷ update_first test f jobs

abbrev modify_found : Option ℕ → (Job → Job) → List Job → List Job
modify_found none f jobs = jobs
modify_found (some i) f jobs = modify i f jobs

modify_found-suc :
    (i : Option ℕ) (f : Job → Job) (job : Job) (jobs : List Job)
    → modify_found (Option.map suc i) f (job ∷ jobs) ≡ job ∷ modify_found i f jobs
unfolding modify
modify_found-suc none f job jobs = refl
modify_found-suc (some i) f job jobs = refl

modify_found-find_slot :
    (test : Job → Bool) (f : Job → Job) (jobs : List Job)
    → modify_found (find_slot test jobs) f jobs ≡ update_first test f jobs
unfolding find_slot update_first
modify_found-find_slot test f [] = refl
modify_found-find_slot test f (job ∷ jobs) = elim (Bool-cases (test job)) [
  | inl e ↦ rw e (unfold modify in refl)
  | inr e ↦ rw e (
      modify_found-suc (find_slot test jobs) f job jobs
      ∙ ap (◌∷◌ job) (modify_found-find_slot test f jobs))
]

write_found-modify_found :
    (i : Option ℕ) (f : Job → Job) (table : JobsTable)
    → write_found i f table ≡ record table { jobs = modify_found i f table.jobs }
unfolding write_found
write_found-modify_found none f table = refl
write_found-modify_found (some i) f table = refl

-- A write through the pointer that a scan returned is a write to the first job that passes.
pub write_found-find_slot :
    (test : Job → Bool) (f : Job → Job) (table : JobsTable)
    → write_found (find_slot test table.jobs) f table
      ≡ record table { jobs = update_first test f table.jobs }
write_found-find_slot test f table =
    write_found-modify_found (find_slot test table.jobs) f table
    ∙ ap (λ jobs. record table { jobs = jobs }) (modify_found-find_slot test f table.jobs)

-- the job that a `job_t *` points at
abbrev pub deref : Option ℕ → List Job → Option Job
deref none jobs = none
deref (some i) jobs = get_elem? jobs i

deref-suc :
    (i : Option ℕ) (job : Job) (jobs : List Job)
    → deref (Option.map suc i) (job ∷ jobs) ≡ deref i jobs
deref-suc none job jobs = refl
deref-suc (some i) job jobs = refl

-- A pointer that a scan returned points at the first job that passes.
pub deref-find_slot :
    (test : Job → Bool) (jobs : List Job) → deref (find_slot test jobs) jobs ≡ first test jobs
unfolding find_slot first
deref-find_slot test [] = refl
deref-find_slot test (job ∷ jobs) = elim (Bool-cases (test job)) [
  | inl e ↦ rw e refl
  | inr e ↦ rw e (deref-suc (find_slot test jobs) job jobs ∙ deref-find_slot test jobs)
]

some-ne-none : {i : ℕ} → some i ≢ none
some-ne-none e = cc

map-suc-none : (i : Option ℕ) → Option.map suc i ≡ none → i ≡ none
map-suc-none none e = refl
map-suc-none (some i) e = cc

-- A scan that finds nothing has seen no job that passes.
pub find_slot-none :
    (test : Job → Bool) (jobs : List Job)
    → find_slot test jobs ≡ none
    → All (λ job. test job ≡ false) jobs
unfolding find_slot
find_slot-none test [] e = tt
find_slot-none test (job ∷ jobs) e = elim (Bool-cases (test job)) [
  | inl h ↦ absurd (some-ne-none (rw h at e))
  | inr h ↦ (h, find_slot-none test jobs (map-suc-none _ (rw h at e)))
]

-- `jobs_add` on its two outcomes: there is no free slot, or the first one takes the job.
pub jobs_add-full :
    (table : JobsTable) (pid : ℕ) (command : Text) (state : JobState)
    → find_slot is_free table.jobs ≡ none
    → jobs_add table pid command state ≡ (negsuc 0, table)
unfolding jobs_add
jobs_add-full table pid command state e = rw e refl

pub jobs_add-free :
    (table : JobsTable) (pid : ℕ) (command : Text) (state : JobState) {i : ℕ}
    → find_slot is_free table.jobs ≡ some i
    → jobs_add table pid command state ≡ (
      pos table.next_id,
      record {
        jobs = update_first is_free (λ _. new_job table.next_id pid command state) table.jobs;
        next_id = table.next_id + 1;
      },
    )
unfolding jobs_add
jobs_add-free table pid command state {i} e =
    rw
      (
        ← modify_found-find_slot is_free (λ _. new_job table.next_id pid command state) table.jobs,
        e,
      )
      refl
