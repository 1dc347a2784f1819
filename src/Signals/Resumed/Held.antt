-- ===== src/Signals/Resumed/Held.antt =====
-- Which jobs the table holds, and whether their leaders live, behind the calls of its functions.
use unix_shell.Base.{ℕ, ◌≡◌, refl, Bool, true, false, List, [], ◌∷◌, ◌==◌, All, All-mono, arith}
use unix_shell.Jobs.{
  Job, JobsTable, release, has_pid, runs_as, jobs_mark_done, jobs_find_by_pid, jobs_remove_by_pid,
  jobs_clear_done,
}
use unix_shell.Jobs.Slots.{write_found-find_slot}
use unix_shell.Signals.{Report, sigchld_handler}
use unix_shell.Signals.Reaping.{ended}
use unix_shell.Signals.Leaders.{
  LedBy, OtherBy, DistinctBy, AreDistinctBy, FadesAllBy, FadesAllBy-update_first,
  FadesAllBy-clear_done, FadesAllBy-All, FadesAllBy-Distinct, taken-Other, LedBy-mono,
}
use unix_shell.Signals.Tracked.{runs}
use unix_shell.Signals.Handled.{known, handler-Led}
use unix_shell.Signals.Resumed.{used, halts}

-- a running job's leader lives or its end waits, a stopped job's leader lives, and no two jobs of
-- the table have the same leader
pub record IsHeld (alive : ℕ → Bool) (waiting : List Report) (jobs : List Job) : Type 0 where
  pub led : All (LedBy runs (known alive waiting)) jobs
  pub held : All (LedBy halts alive) jobs
  pub distinct : AreDistinctBy used jobs

-- changes that take jobs out of the table, or out of those that run or are stopped
pub record Fades (js ks : List Job) : Type 0 where
  pub runs_fade : FadesAllBy runs js ks
  pub halts_fade : FadesAllBy halts js ks
  pub used_fade : FadesAllBy used js ks

pub Fades-IsHeld :
    (alive : ℕ → Bool) (waiting : List Report) (js ks : List Job)
    → Fades js ks
    → IsHeld alive waiting js
    → IsHeld alive waiting ks
Fades-IsHeld alive waiting js ks f h = record {
  led = FadesAllBy-All runs (λ pid. known alive waiting pid ≡ true) js ks f.runs_fade h.led;
  held = FadesAllBy-All halts (λ pid. alive pid ≡ true) js ks f.halts_fade h.held;
  distinct = FadesAllBy-Distinct used js ks f.used_fade h.distinct;
}

pub Fades-Other :
    (pid : ℕ) (js ks : List Job)
    → Fades js ks
    → All (OtherBy used pid) js
    → All (OtherBy used pid) ks
Fades-Other pid js ks f = FadesAllBy-All used (λ x. (x == pid) ≡ false) js ks f.used_fade

pub jobs_clear_done-Fades : (table : JobsTable) → Fades table.jobs (jobs_clear_done table).jobs
unfolding jobs_clear_done
jobs_clear_done-Fades table = record {
  runs_fade = FadesAllBy-clear_done runs table.jobs (λ j e. ground (arith, e));
  halts_fade = FadesAllBy-clear_done halts table.jobs (λ j e. ground (arith, e));
  used_fade = FadesAllBy-clear_done used table.jobs (λ j e. ground (arith, e));
}

pub jobs_remove_by_pid-Fades :
    (table : JobsTable) (pid : ℕ) → Fades table.jobs (jobs_remove_by_pid table pid).jobs
unfolding jobs_remove_by_pid jobs_find_by_pid
jobs_remove_by_pid-Fades table pid =
    rw (write_found-find_slot (has_pid pid) release table) (record {
      runs_fade =
          FadesAllBy-update_first runs (has_pid pid) release table.jobs
            (λ j. (λ e. absurd cc, refl));
      halts_fade =
          FadesAllBy-update_first halts (has_pid pid) release table.jobs
            (λ j. (λ e. absurd cc, refl));
      used_fade =
          FadesAllBy-update_first used (has_pid pid) release table.jobs
            (λ j. (λ e. absurd cc, refl));
    })

-- behind `jobs_remove_by_pid` no job has that leader
pub jobs_remove_by_pid-Other :
    (table : JobsTable) (pid : ℕ)
    → AreDistinctBy used table.jobs
    → All (OtherBy used pid) (jobs_remove_by_pid table pid).jobs
unfolding jobs_remove_by_pid jobs_find_by_pid
jobs_remove_by_pid-Other table pid d = rw (write_found-find_slot (has_pid pid) release table) (
    taken-Other used pid (has_pid pid) release table.jobs (λ j e. ground (arith, e))
      (λ j e. λ r. ground (arith, e, r)) (λ j. refl) d)

pub jobs_mark_done-Fades :
    (table : JobsTable) (pid status : ℕ) → Fades table.jobs (jobs_mark_done table pid status).jobs
unfolding jobs_mark_done
jobs_mark_done-Fades table pid status =
    rw (write_found-find_slot (runs_as pid) (ended status) table) (record {
      runs_fade =
          FadesAllBy-update_first runs (runs_as pid) (ended status) table.jobs
            (λ j. (λ e. ground (arith, e), refl));
      halts_fade =
          FadesAllBy-update_first halts (runs_as pid) (ended status) table.jobs
            (λ j. (λ e. ground (arith, e), refl));
      used_fade =
          FadesAllBy-update_first used (runs_as pid) (ended status) table.jobs
            (λ j. (λ e. e, refl));
    })

weaker_Distinct :
    (live live' : Job → Bool)
    → ((j : Job) → live' j ≡ true → live j ≡ true)
    → (jobs : List Job) → AreDistinctBy live jobs
    → AreDistinctBy live' jobs
weaker_Distinct live live' h [] d = tt
weaker_Distinct live live' h (j ∷ jobs) (d, ds) = (
  All-mono (DistinctBy live j) (DistinctBy live' j) jobs (λ k o. λ l l'. o (h j l) (h k l')) d,
  weaker_Distinct live live' h jobs ds,
)

pub weaker_Other :
    (live live' : Job → Bool)
    → ((j : Job) → live' j ≡ true → live j ≡ true)
    → (pid : ℕ) (jobs : List Job) → All (OtherBy live pid) jobs
    → All (OtherBy live' pid) jobs
weaker_Other live live' h pid jobs =
    All-mono (OtherBy live pid) (OtherBy live' pid) jobs (λ j o. λ l. o (h j l))

pub runs-used : (j : Job) → runs j ≡ true → used j ≡ true
runs-used j e = ground (arith, e)

pub halts-used : (j : Job) → halts j ≡ true → used j ≡ true
halts-used j e = ground (arith, e)

handler-kept :
    (alive : ℕ → Bool) (table : JobsTable) (reports : List Report)
    → All (LedBy halts alive) table.jobs
    → AreDistinctBy used table.jobs
    → All (LedBy halts alive) (sigchld_handler table reports).jobs
      × AreDistinctBy used (sigchld_handler table reports).jobs
unfolding sigchld_handler
handler-kept alive table [] h d = (h, d)
handler-kept alive table ((pid, status) ∷ reports) h d =
    let f = jobs_mark_done-Fades table pid status in
    handler-kept alive (jobs_mark_done table pid status) reports
      (FadesAllBy-All halts (λ x. alive x ≡ true) table.jobs _ f.halts_fade h)
      (FadesAllBy-Distinct used table.jobs _ f.used_fade d)

pub handler-IsHeld :
    (alive : ℕ → Bool) (table : JobsTable) (reports : List Report)
    → IsHeld alive reports table.jobs
    → All (LedBy runs alive) (sigchld_handler table reports).jobs
      × IsHeld alive [] (sigchld_handler table reports).jobs
handler-IsHeld alive table reports h =
    let (d, l) =
      handler-Led alive table reports (weaker_Distinct used runs runs-used table.jobs h.distinct)
        h.led in
    let (held, distinct) = handler-kept alive table reports h.held h.distinct in
    (
      l,
      record {
        led = LedBy-mono runs alive (known alive []) (λ x a. ground (arith, a)) _ l;
        held = held;
        distinct = distinct;
      },
    )
