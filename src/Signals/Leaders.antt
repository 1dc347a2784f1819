-- ===== src/Signals/Leaders.antt =====
-- Jobs and the processes that lead them, for a part of the jobs, such as those that run: what the
-- calls of the job table keep.
use unix_shell.Base.{
  ℕ, ◌≡◌, refl, sym, subst, inl, inr, Bool, true, false, List, [], ◌∷◌, ◌==◌, All, All-mono,
  All-replicate, replicate, arith, Bool-cases, Option-cases, zero, suc,
}
use unix_shell.Cstring.{Text}
use unix_shell.Jobs.{
  Job, JobState, JobsTable, cleared, is_free, release, new_job, find_slot, jobs_add, clear_done,
}
use unix_shell.Jobs.Slots.{update_first, jobs_add-full, jobs_add-free}
use unix_shell.Jobs.Add.{All-update_first}

module _ (live : Job → Bool) where
  -- the leader of a job of this part is one of these processes
  abbrev pub LedBy : (ℕ → Bool) → Job → Type 0
  LedBy known j = live j ≡ true → known j.pid ≡ true

  -- its leader is another one
  abbrev pub OtherBy : ℕ → Job → Type 0
  OtherBy pid j = live j ≡ true → (j.pid == pid) ≡ false

  abbrev pub DistinctBy : Job → Job → Type 0
  DistinctBy j k = live j ≡ true → OtherBy j.pid k

  abbrev pub AreDistinctBy : List Job → Type 0
  AreDistinctBy [] = Unit
  AreDistinctBy (j ∷ jobs) = All (DistinctBy j) jobs × AreDistinctBy jobs

  -- no job becomes one of this part, and no leader changes
  abbrev pub FadesBy : Job → Job → Type 0
  FadesBy j k = (live k ≡ true → live j ≡ true) × (k.pid ≡ j.pid)

  abbrev pub FadesAllBy : List Job → List Job → Type 0
  FadesAllBy [] [] = Unit
  FadesAllBy (j ∷ js) (k ∷ ks) = FadesBy j k × FadesAllBy js ks
  FadesAllBy _ _ = ⊥

  pub FadesAllBy-refl : (jobs : List Job) → FadesAllBy jobs jobs
  FadesAllBy-refl [] = tt
  FadesAllBy-refl (j ∷ jobs) = ((λ r. r, refl), FadesAllBy-refl jobs)

  pub FadesAllBy-update_first :
      (test : Job → Bool) (f : Job → Job) (jobs : List Job)
      → ((j : Job) → FadesBy j (f j))
      → FadesAllBy jobs (update_first test f jobs)
  unfolding update_first
  FadesAllBy-update_first test f [] h = tt
  FadesAllBy-update_first test f (j ∷ jobs) h = elim (Bool-cases (test j)) [
    | inl e ↦ rw e (h j, FadesAllBy-refl jobs)
    | inr e ↦ rw e ((λ r. r, refl), FadesAllBy-update_first test f jobs h)
  ]

  pub FadesAllBy-clear_done :
      (jobs : List Job)
      → ((j : Job) → live (release j) ≡ true → live j ≡ true)
      → FadesAllBy jobs (clear_done jobs)
  unfolding clear_done
  FadesAllBy-clear_done [] h = tt
  FadesAllBy-clear_done (j ∷ jobs) h = (ground (arith, h j), FadesAllBy-clear_done jobs h)

  -- A property of the leaders, which fading keeps.
  pub FadesAllBy-All :
      (P : ℕ → Type 0) (js ks : List Job)
      → FadesAllBy js ks
      → All (λ j. live j ≡ true → P j.pid) js
      → All (λ j. live j ≡ true → P j.pid) ks
  FadesAllBy-All P [] [] f h = tt
  FadesAllBy-All P (j ∷ js) (k ∷ ks) ((r, e), f) (p, h) =
      (λ l. subst P (sym e) (p (r l)), FadesAllBy-All P js ks f h)
  FadesAllBy-All P [] (k ∷ ks) f h = absurd f
  FadesAllBy-All P (j ∷ js) [] f h = absurd f

  pub FadesAllBy-Distinct :
      (js ks : List Job) → FadesAllBy js ks → AreDistinctBy js → AreDistinctBy ks
  FadesAllBy-Distinct [] [] f d = tt
  FadesAllBy-Distinct (j ∷ js) (k ∷ ks) ((r, e), f) (d, ds) = (
    All-mono (λ x. live x ≡ true → live k ≡ true → (x.pid == k.pid) ≡ false) (DistinctBy k) ks
        (λ x h. λ now l. h l now)
        (FadesAllBy-All (λ pid. live k ≡ true → (pid == k.pid) ≡ false) js ks f
          (All-mono (DistinctBy j) (λ x. live x ≡ true → live k ≡ true → (x.pid == k.pid) ≡ false)
            js (λ x h. λ l now. rw e (h (r now) l)) d)),
    FadesAllBy-Distinct js ks f ds,
  )
  FadesAllBy-Distinct [] (k ∷ ks) f d = absurd f
  FadesAllBy-Distinct (j ∷ js) [] f d = absurd f

  -- A change that takes the first job of a leader out of this part leaves none with that leader.
  pub taken-Other :
      (pid : ℕ) (test : Job → Bool) (f : Job → Job) (jobs : List Job)
      → ((j : Job) → test j ≡ true → (live j ≡ true) × (j.pid ≡ pid))
      → ((j : Job) → test j ≡ false → OtherBy pid j)
      → ((j : Job) → live (f j) ≡ false)
      → AreDistinctBy jobs
      → All (OtherBy pid) (update_first test f jobs)
  unfolding update_first
  taken-Other pid test f [] passes fails out d = tt
  taken-Other pid test f (j ∷ jobs) passes fails out (d, ds) = elim (Bool-cases (test j)) [
    | inl e ↦ rw e (
      (λ l. absurd (ground (arith, l, out j))),
      All-mono (DistinctBy j) (OtherBy pid) jobs
          (λ k h. λ l. subst (λ x. (k.pid == x) ≡ false) (passes j e).1 (h (passes j e).0 l)) d,
    )
    | inr e ↦ rw e (fails j e, taken-Other pid test f jobs passes fails out ds)
  ]

  added-Distinct :
      (new : Job) (jobs : List Job)
      → All (OtherBy new.pid) jobs
      → AreDistinctBy jobs
      → AreDistinctBy (update_first is_free (λ _. new) jobs)
  unfolding update_first
  added-Distinct new [] o d = tt
  added-Distinct new (j ∷ jobs) (o, os) (d, ds) = elim (Bool-cases (is_free j)) [
    | inl e ↦ rw e (All-mono (OtherBy new.pid) (DistinctBy new) jobs (λ k h. λ r. h) os, ds)
    | inr e ↦ rw e (
      All-update_first (DistinctBy j) is_free (λ _. new) jobs (λ _. λ r. λ r'. ground (arith, o r))
          d,
      added-Distinct new jobs os ds,
    )
  ]

  pub jobs_add-Distinct :
      (table : JobsTable) (pid : ℕ) (label : Text) (state : JobState)
      → All (OtherBy pid) table.jobs
      → AreDistinctBy table.jobs
      → AreDistinctBy (jobs_add table pid label state).1.jobs
  jobs_add-Distinct table pid label state o d = elim (Option-cases (find_slot is_free table.jobs)) [
    | inl e ↦ rw (jobs_add-full table pid label state e) d
    | inr (i, e) ↦
        rw (jobs_add-free table pid label state e)
          (added-Distinct (new_job table.next_id pid label state) table.jobs o d)
  ]

  pub cleared-Distinct : (n : ℕ) → (live cleared ≡ false) → AreDistinctBy (replicate n cleared)
  cleared-Distinct zero e = tt
  cleared-Distinct (suc n) e = (
    All-replicate (DistinctBy cleared) n cleared (λ r. absurd (ground (arith, r, e))),
    cleared-Distinct n e,
  )

  pub LedBy-mono :
      (p q : ℕ → Bool)
      → ((x : ℕ) → p x ≡ true → q x ≡ true)
      → (jobs : List Job) → All (LedBy p) jobs
      → All (LedBy q) jobs
  LedBy-mono p q h jobs = All-mono (LedBy p) (LedBy q) jobs (λ j l. λ r. h j.pid (l r))

  -- where the leaders are others than `pid`
  pub LedBy-others :
      (pid : ℕ) (p q : ℕ → Bool)
      → ((x : ℕ) → (x == pid) ≡ false → p x ≡ true → q x ≡ true)
      → (jobs : List Job) → All (OtherBy pid) jobs
      → All (LedBy p) jobs
      → All (LedBy q) jobs
  LedBy-others pid p q h [] o l = tt
  LedBy-others pid p q h (j ∷ jobs) (o, os) (l, ls) =
      (λ r. h j.pid (o r) (l r), LedBy-others pid p q h jobs os ls)
