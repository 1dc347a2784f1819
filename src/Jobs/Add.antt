-- ===== src/Jobs/Add.antt =====
-- `jobs_init` and `jobs_add`: the invariant, and when the table is full.
use unix_shell.Base.{
  ℕ, zero, suc, ◌+◌, ◌≡◌, refl, inl, inr, Bool, List, [], ◌∷◌, arith, length, length-take, All,
  All-mono, All-replicate, replicate, Bool-cases, Option-cases,
}
use unix_shell.Cstring.{Text}
use unix_shell.Jobs.{
  Job, JobState, JobsTable, cleared, is_free, new_job, find_slot, jobs_init, jobs_add,
}
use unix_shell.Jobs.Slots.{update_first, jobs_add-full, jobs_add-free}
use unix_shell.Jobs.Invariant.{IsTable, IsUnique, IsAssigned, IsLabelled, Apart}

length-update_first :
    (test : Job → Bool) (f : Job → Job) (jobs : List Job)
    → length (update_first test f jobs) ≡ length jobs
unfolding update_first
length-update_first test f [] = refl
length-update_first test f (j ∷ jobs) = ground (arith, length-update_first test f jobs)

pub All-update_first :
    (P : Job → Type 0) (test : Job → Bool) (f : Job → Job) (jobs : List Job)
    → ((j : Job) → P (f j))
    → All P jobs
    → All P (update_first test f jobs)
unfolding update_first
All-update_first P test f [] h a = tt
All-update_first P test f (j ∷ jobs) h a = elim (Bool-cases (test j)) [
  | inl e ↦ rw e (h j, a.1)
  | inr e ↦ rw e (a.0, All-update_first P test f jobs h a.1)
]

module _ (next_id : ℕ) (new : Job) (fresh : new.job_id ≡ next_id) where
  Apart-fresh : (k : Job) → IsAssigned next_id k → Apart new k
  Apart-fresh k a u v e = omega (arith, a v)

  fresh-Apart : (j : Job) → IsAssigned next_id j → Apart j new
  fresh-Apart j a u v e = omega (arith, a u)

  IsUnique-add :
      (jobs : List Job)
      → All (IsAssigned next_id) jobs
      → IsUnique jobs
      → IsUnique (update_first is_free (λ _. new) jobs)
  unfolding update_first
  IsUnique-add [] a u = tt
  IsUnique-add (j ∷ jobs) a u = elim (Bool-cases (is_free j)) [
    | inl e ↦ rw e (All-mono (IsAssigned next_id) (Apart new) jobs Apart-fresh a.1, u.1)
    | inr e ↦ rw e (
      All-update_first (Apart j) is_free (λ _. new) jobs (λ _. fresh-Apart j a.0) u.0,
      IsUnique-add jobs a.1 u.1,
    )
  ]

added_IsTable :
    (table : JobsTable) (pid : ℕ) (command : Text) (state : JobState)
    → IsTable table
    → IsTable (record {
      jobs = update_first is_free (λ _. new_job table.next_id pid command state) table.jobs;
      next_id = table.next_id + 1;
    })
added_IsTable table pid command state t =
    let new = new_job table.next_id pid command state in
    record {
      slots = omega (arith, t.slots, length-update_first is_free (λ _. new) table.jobs);
      first_id = omega arith;
      ids =
          All-update_first (IsAssigned (table.next_id + 1)) is_free (λ _. new) table.jobs
            (λ _. λ _. (t.first_id, omega arith))
            (All-mono (IsAssigned table.next_id) (IsAssigned (table.next_id + 1)) table.jobs
              (λ j a. λ u. ((a u).0, omega (arith, (a u).1))) t.ids);
      unique = IsUnique-add table.next_id new refl table.jobs t.ids t.unique;
      labels =
          All-update_first IsLabelled is_free (λ _. new) table.jobs
            (λ _. omega (arith, length-take 255 command)) t.labels;
    }

-- `jobs_add` keeps the invariant, whether or not it finds a free slot.
pub jobs_add-IsTable :
    (table : JobsTable) (pid : ℕ) (command : Text) (state : JobState)
    → IsTable table
    → IsTable (jobs_add table pid command state).1
jobs_add-IsTable table pid command state t = elim (Option-cases (find_slot is_free table.jobs)) [
  | inl e ↦ rw (jobs_add-full table pid command state e) t
  | inr (i, e) ↦
      rw (jobs_add-free table pid command state e) (added_IsTable table pid command state t)
]

IsUnique-replicate : (n : ℕ) → IsUnique (replicate n cleared)
IsUnique-replicate zero = tt
IsUnique-replicate (suc n) =
    (All-replicate (Apart cleared) n cleared (λ u v. cc), IsUnique-replicate n)

-- The empty table satisfies the invariant.
pub jobs_init-IsTable : IsTable jobs_init
unfolding jobs_init
jobs_init-IsTable = record {
  slots = refl;
  first_id = omega arith;
  ids = All-replicate (IsAssigned 1) 64 cleared (λ u. cc);
  unique = IsUnique-replicate 64;
  labels = All-replicate IsLabelled 64 cleared (omega arith);
}
