-- ===== src/Builtins/Resume/Table.antt =====
-- The job table behind `fg` and `bg`, by the slot that the lookup found.
use unix_shell.Base.{
  ℕ, zero, suc, ◌≡◌, ◌≢◌, refl, sym, ◌∙◌, inl, inr, true, false, List, [], ◌∷◌, none, some,
  if◌then◌else◌, get_or, Bool-cases, Option-cases, get_elem?,
}
use unix_shell.Base.Int.{ℤ, pos, negsuc, is_negative}
use unix_shell.Jobs.{
  Job, JobsTable, running, is_stopped, cleared, find_slot, has_id, jobs_find_by_id, write_found,
  modify,
}
use unix_shell.Jobs.Reach.{set_state}
use unix_shell.Jobs.Lookup.{job_of, job_of-first, first-negsuc}
use unix_shell.Signals.Resumed.{resumed, resume_job}

modify-resumed :
    (i : ℕ) (jobs : List Job)
    → modify i resumed jobs ≡ (
        if is_stopped (get_or jobs i cleared).state
        then modify i (set_state running) jobs
        else jobs)
unfolding modify
modify-resumed i [] = refl
modify-resumed zero (j ∷ jobs) = elim (Bool-cases (is_stopped j.state)) [
  | inl e ↦ rw e refl
  | inr e ↦ rw e refl
]
modify-resumed (suc i) (j ∷ jobs) = elim (Bool-cases (is_stopped (get_or jobs i cleared).state)) [
  | inl e ↦ rw (modify-resumed i jobs) (rw e refl)
  | inr e ↦ rw (modify-resumed i jobs) (rw e refl)
]

pub resume_job-found :
    (id : ℤ) (table : JobsTable) (i : ℕ)
    → jobs_find_by_id table id ≡ some i
    → resume_job id table ≡ (
        if is_stopped (get_or table.jobs i cleared).state
        then write_found (some i) (set_state running) table
        else table)
unfolding resume_job write_found
resume_job-found id table i e =
    rw e (elim (Bool-cases (is_stopped (get_or table.jobs i cleared).state)) [
      | inl h ↦ rw (modify-resumed i table.jobs) (rw h refl)
      | inr h ↦ rw (modify-resumed i table.jobs) (rw h refl)
    ])

pub resume_job-missing :
    (id : ℤ) (table : JobsTable) → jobs_find_by_id table id ≡ none → resume_job id table ≡ table
unfolding resume_job write_found
resume_job-missing id table e = rw e refl

get_or-get_elem? :
    (jobs : List Job) (i : ℕ) (j : Job) → get_elem? jobs i ≡ some j → get_or jobs i cleared ≡ j
get_or-get_elem? [] i j e = absurd cc
get_or-get_elem? (k ∷ jobs) zero j e = cc e
get_or-get_elem? (k ∷ jobs) (suc i) j e = get_or-get_elem? jobs i j e

pub job_of-found :
    (table : JobsTable) (id : ℤ) (job : Job)
    → job_of table id ≡ some job
    → (i : ℕ) × (jobs_find_by_id table id ≡ some i) × (get_or table.jobs i cleared ≡ job)
job_of-found table id job e = elim (Option-cases (jobs_find_by_id table id)) [
  | inl missing ↦ absurd (let e' = rw missing at e in cc e')
  | inr (i, found) ↦ (i, found, get_or-get_elem? table.jobs i job (rw found at e))
]

some-ne-none : {j : Job} → some j ≢ none
some-ne-none e = cc

pub job_of-negative :
    (table : JobsTable) (id : ℤ) (job : Job) → job_of table id ≡ some job → is_negative id ≡ false
job_of-negative table (pos n) job e = refl
job_of-negative table (negsuc n) job e =
    let none_found = job_of-first table (negsuc n) ∙ first-negsuc n table.jobs in
    absurd (some-ne-none (sym e ∙ none_found))

find_slot-negsuc : (n : ℕ) (jobs : List Job) → find_slot (has_id (negsuc n)) jobs ≡ none
unfolding find_slot
find_slot-negsuc n [] = refl
find_slot-negsuc n (j ∷ jobs) = rw (find_slot-negsuc n jobs) refl

pub negative-missing :
    (id : ℤ) (table : JobsTable) → is_negative id ≡ true → jobs_find_by_id table id ≡ none
unfolding jobs_find_by_id
negative-missing (pos n) table e = absurd cc
negative-missing (negsuc n) table e = find_slot-negsuc n table.jobs
