-- ===== src/Jobs/Lookup.antt =====
-- The table as a map from ids to jobs: what each function does to every lookup.
use mathlib.Core.Option.{Option, none, some}
use unix_shell.Base.{
  ℕ, ◌≡◌, ◌≢◌, refl, ap, inl, inr, Bool, true, false, List, [], ◌∷◌, arith, All, Bool-cases,
  if◌then◌else◌, ◌==◌,
}
use unix_shell.Base.Int.{ℤ, pos, negsuc}
use unix_shell.Jobs.{Job, JobsTable, has_id, has_pid, jobs_find_by_id, jobs_find_by_pid}
use unix_shell.Jobs.Slots.{first, update_first, deref, deref-find_slot}
use unix_shell.Jobs.Invariant.{IsUnique, Apart}

-- the job that `jobs_find_by_id` points at
abbrev pub job_of : JobsTable → ℤ → Option Job
job_of table id = deref (jobs_find_by_id table id) table.jobs

pub job_of-first : (table : JobsTable) (id : ℤ) → job_of table id ≡ first (has_id id) table.jobs
unfolding jobs_find_by_id
job_of-first table id = deref-find_slot (has_id id) table.jobs

pub first-negsuc : (n : ℕ) (jobs : List Job) → first (has_id (negsuc n)) jobs ≡ none
unfolding first
first-negsuc n [] = refl
first-negsuc n (j ∷ jobs) = first-negsuc n jobs

-- the job that `jobs_find_by_pid` points at
abbrev pub job_by_pid : JobsTable → ℕ → Option Job
job_by_pid table pid = deref (jobs_find_by_pid table pid) table.jobs

pub job_by_pid-first :
    (table : JobsTable) (pid : ℕ) → job_by_pid table pid ≡ first (has_pid pid) table.jobs
unfolding jobs_find_by_pid
job_by_pid-first table pid = deref-find_slot (has_pid pid) table.jobs

some-ne-none : {j : Job} → some j ≢ none
some-ne-none e = cc

-- what `first` finds passes, and has what all jobs have
pub first-All :
    (P : Job → Type 0) (test : Job → Bool) (jobs : List Job) {k : Job}
    → All P jobs
    → first test jobs ≡ some k
    → (test k ≡ true) × P k
unfolding first
first-All P test [] a e = cc
first-All P test (j ∷ jobs) {k} a e = elim (Bool-cases (test j)) [
  | inl h ↦ ground (arith)
  | inr h ↦ first-All P test jobs a.1 (rw h at e)
]

pub first-of-All-false :
    (test : Job → Bool) (jobs : List Job) → All (λ j. test j ≡ false) jobs → first test jobs ≡ none
unfolding first
first-of-All-false test [] a = refl
first-of-All-false test (j ∷ jobs) a = rw a.0 (first-of-All-false test jobs a.1)

-- no other live job has the id of a live one
pub first-Apart :
    (j : Job) (jobs : List Job) (n : ℕ)
    → j.in_use ≡ true
    → All (Apart j) jobs
    → j.job_id ≡ n
    → first (has_id (pos n)) jobs ≡ none
unfolding first
first-Apart j [] n u a e = refl
first-Apart j (k ∷ jobs) n u a e = ground (arith, first-Apart j jobs n u a.1 e, a.0 u)

-- a job, unless its slot is free
abbrev pub if_live : Job → Option Job
if_live j = if j.in_use then some j else none

-- A test that only live jobs pass, and a change that leaves the id alone.
pub record IsChange (test : Job → Bool) (f : Job → Job) : Type 0 where
  pub live : (j : Job) → test j ≡ true → j.in_use ≡ true
  pub same_id : (j : Job) → (f j).job_id ≡ j.job_id

pub first-update_first :
    (test : Job → Bool) (f : Job → Job) (jobs : List Job) (n : ℕ) {k : Job}
    → IsChange test f
    → IsUnique jobs
    → first test jobs ≡ some k
    → first (has_id (pos n)) (update_first test f jobs)
      ≡ (if k.job_id == n then if_live (f k) else first (has_id (pos n)) jobs)
unfolding first update_first
first-update_first test f [] n c u e = cc
first-update_first test f (j ∷ jobs) n {k} c u e = elim (Bool-cases (test j)) [
  | inl h ↦ ground (arith, h, c.live j h, c.same_id j, first-Apart j jobs n (c.live j h) u.0)
  | inr h ↦
      let found : first test jobs ≡ some k = rw h at e in
      let (passes, apart) = first-All (Apart j) test jobs u.0 found in
      ground (
        arith,
        h,
        (λ (v : j.in_use ≡ true). apart v (c.live k passes)),
        first-update_first test f jobs n c u.1 found,
      )
]

pub update_first-none :
    (test : Job → Bool) (f : Job → Job) (jobs : List Job)
    → All (λ j. test j ≡ false) jobs
    → update_first test f jobs ≡ jobs
unfolding update_first
update_first-none test f [] a = refl
update_first-none test f (j ∷ jobs) a = rw a.0 (ap (◌∷◌ j) (update_first-none test f jobs a.1))

pub first-none :
    (test : Job → Bool) (jobs : List Job) → first test jobs ≡ none → All (λ j. test j ≡ false) jobs
unfolding first
first-none test [] e = tt
first-none test (j ∷ jobs) e = elim (Bool-cases (test j)) [
  | inl h ↦ absurd (some-ne-none (rw h at e))
  | inr h ↦ (h, first-none test jobs (rw h at e))
]
