-- ===== src/Jobs/Directory.antt =====
-- What the job table promises, without its slots: a map from ids to jobs, and the next id.
use unix_shell.Base.{
  ℕ, suc, ◌≡◌, refl, ap, subst, ◌∙◌, inl, inr, Bool, true, List, [], ◌∷◌, Option, none, some, ◌==◌,
  if◌then◌else◌, arith, Bool-cases,
}
use unix_shell.Base.Int.{pos}
use unix_shell.Cstring.{Text}
use unix_shell.Jobs.{
  Job, JobState, JobsTable, finished, is_running, has_id, new_job, find_slot, write_found,
}
use unix_shell.Jobs.Slots.{first, write_found-find_slot}
use unix_shell.Jobs.Invariant.{IsTable, IsUnique, Apart}
use unix_shell.Jobs.Lookup.{job_of, job_of-first, first-All, if_live, IsChange}
use unix_shell.Jobs.Laws.{All-Unit, job_of-write_found, unfinished}
use unix_shell.Jobs.Reach.{set_state}

pub record Directory : Type 0 where
  pub next : ℕ
  pub job : ℕ → Option Job

abbrev pub view : JobsTable → Directory
view table = record { next = table.next_id; job = λ n. job_of table (pos n) }

abbrev pub entered : ℕ → Option Job → (ℕ → Option Job) → ℕ → Option Job
entered id found job n = if id == n then found else job n

abbrev pub reaped : ℕ → Job → Job
reaped status j = record j { state = finished; status = status }

-- A job gets the next id; a running job is finished; a job's state is set; an id is forgotten; the
-- finished jobs are forgotten; nothing happens.
pub data Act (d e : Directory) : Type 0 where
  enter :
      (pid : ℕ) (command : Text) (state : JobState)
      → e.next ≡ suc d.next
      → ((n : ℕ) → e.job n ≡ entered d.next (some (new_job d.next pid command state)) d.job n)
      → Act d e
  finish :
      (id status : ℕ) (j : Job)
      → d.job id ≡ some j
      → is_running j.state ≡ true
      → e.next ≡ d.next
      → ((n : ℕ) → e.job n ≡ entered id (some (reaped status j)) d.job n)
      → Act d e
  mark :
      (id : ℕ) (state : JobState) (j : Job)
      → d.job id ≡ some j
      → e.next ≡ d.next
      → ((n : ℕ) → e.job n ≡ entered id (some (set_state state j)) d.job n)
      → Act d e
  forget : (id : ℕ) → e.next ≡ d.next → ((n : ℕ) → e.job n ≡ entered id none d.job n) → Act d e
  sweep : e.next ≡ d.next → ((n : ℕ) → e.job n ≡ unfinished (d.job n)) → Act d e
  same : e.next ≡ d.next → ((n : ℕ) → e.job n ≡ d.job n) → Act d e

some_inj : {j k : Job} → some j ≡ some k → j ≡ k
some_inj e = cc

first_here :
    (j k : Job) (jobs : List Job)
    → j.in_use ≡ true
    → j.job_id ≡ k.job_id
    → first (has_id (pos k.job_id)) (j ∷ jobs) ≡ some j
unfolding first
first_here j k jobs live e = ground (arith, live, e)

first_later :
    (j k : Job) (jobs : List Job)
    → k.in_use ≡ true
    → Apart j k
    → first (has_id (pos k.job_id)) jobs ≡ some k
    → first (has_id (pos k.job_id)) (j ∷ jobs) ≡ some k
unfolding first
first_later j k jobs live apart e = ground (arith, live, apart, e)

-- the first job that passes is the one with its id
first-has_id :
    (test : Job → Bool) (jobs : List Job) (k : Job)
    → ((j : Job) → test j ≡ true → j.in_use ≡ true)
    → IsUnique jobs
    → first test jobs ≡ some k
    → first (has_id (pos k.job_id)) jobs ≡ some k
unfolding first
first-has_id test [] k live u e = absurd cc
first-has_id test (j ∷ jobs) k live u e = elim (Bool-cases (test j)) [
  | inl h ↦
      let same_job : some j ≡ some k = rw h at e in
      subst (λ found. first (has_id (pos k.job_id)) (j ∷ jobs) ≡ found) same_job
        (first_here j k jobs (live j h) (ap (λ x. x.job_id) (some_inj same_job)))
  | inr h ↦
      let behind = rw h at e in
      let (passes, apart) = first-All (Apart j) test jobs u.0 behind in
      first_later j k jobs (live k passes) apart (first-has_id test jobs k live u.1 behind)
]

pub kept_next :
    (test : Job → Bool) (f : Job → Job) (table : JobsTable)
    → (write_found (find_slot test table.jobs) f table).next_id ≡ table.next_id
kept_next test f table = rw (write_found-find_slot test f table) refl

-- A change of the first job that passes, as an act; `act` is about a job that was there.
pub changed-Act :
    (test : Job → Bool) (f : Job → Job) (table : JobsTable) (target : Option Job)
    → IsChange test f
    → IsTable table
    → first test table.jobs ≡ target
    → ((k : Job)
        → test k ≡ true
        → job_of table (pos k.job_id) ≡ some k
        → ((n : ℕ)
            → job_of (write_found (find_slot test table.jobs) f table) (pos n)
              ≡ entered k.job_id (if_live (f k)) (λ n. job_of table (pos n)) n)
        → Act (view table) (view (write_found (find_slot test table.jobs) f table)))
    → Act (view table) (view (write_found (find_slot test table.jobs) f table))
changed-Act test f table none c t e act =
    same (kept_next test f table) (λ n. job_of-write_found test f table n none c t e)
changed-Act test f table (some k) c t e act =
    act k (first-All (λ _. Unit {0}) test table.jobs (All-Unit table.jobs) e).0
      (job_of-first table (pos k.job_id) ∙ first-has_id test table.jobs k c.live t.unique e)
      (λ n. job_of-write_found test f table n (some k) c t e)
