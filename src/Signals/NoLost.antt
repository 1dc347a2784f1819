-- ===== src/Signals/NoLost.antt =====
-- In sessions without fg and bg no end of a job is lost: while a job is recorded as running, its leader lives, or its end waits
-- for the handler.
use unix_shell.Base.{
  Option, ℕ, ◌≡◌, ◌≢◌, refl, sym, subst, ◌∙◌, Bool, true, false, List, [], ◌∷◌, ◌++◌, none, some,
  ◌==◌, All, arith,
}
use unix_shell.Cstring.{Text}
use unix_shell.Executor.{job_stopped}
use unix_shell.Jobs.{running, stopped, jobs_find_by_pid, JobsTable}
use unix_shell.Signals.{Report}
use unix_shell.Signals.Interleaving.{
  State, is_waiting, set_alive, without, ends, start, record_job, wait_foreground, handle, Step,
  block, unblock, fork, add, wait, stop, give_up, child_ends, reap, notify, clear, Reach, init,
  next, initial,
}
use unix_shell.Signals.Leaders.{LedBy-mono, LedBy-others, FadesAllBy-Distinct, jobs_add-Distinct}
use unix_shell.Signals.Tracked.{
  Led, Other, AreDistinct, FadesAll, runs, FadesAll-jobs_clear_done, FadesAll-jobs_notify_completed,
  FadesAll-jobs_remove_by_pid, All-jobs_add, FadesAll-set_stopped, jobs_init-AreDistinct,
  jobs_init-Led,
}
use unix_shell.Signals.Handled.{
  known, is_waiting-without, is_waiting-append, Led-Other, FadesAll-Led, FadesAll-Other,
  handler-Led, some_injective, true-false,
}

-- `led` and `distinct` are about the table; a first stage that is no job yet is known, is not the
-- leader of a running job, and has SIGCHLD blocked.
pub record IsTracked (s : State) : Type 0 where
  pub led : All (Led (known s.alive s.waiting)) s.jobs.jobs
  pub distinct : AreDistinct s.jobs.jobs
  pub stage_known : (pid : ℕ) → s.started ≡ some pid → known s.alive s.waiting pid ≡ true
  pub stage_other : (pid : ℕ) → s.started ≡ some pid → All (Other pid) s.jobs.jobs
  pub stage_blocked : (pid : ℕ) → s.started ≡ some pid → s.blocked ≡ true

initial-IsTracked : IsTracked initial
initial-IsTracked = record {
  led = jobs_init-Led _;
  distinct = jobs_init-AreDistinct;
  stage_known = λ pid e. absurd cc;
  stage_other = λ pid e. absurd cc;
  stage_blocked = λ pid e. absurd cc;
}

-- a step that only lets jobs fade
faded-IsTracked :
    (s : State) (table : JobsTable)
    → FadesAll s.jobs.jobs table.jobs
    → IsTracked s
    → IsTracked (record s { jobs = table })
faded-IsTracked s table f h = record {
  led = FadesAll-Led (known s.alive s.waiting) s.jobs.jobs table.jobs f h.led;
  distinct = FadesAllBy-Distinct runs s.jobs.jobs table.jobs f h.distinct;
  stage_known = h.stage_known;
  stage_other = λ pid e. FadesAll-Other pid s.jobs.jobs table.jobs f (h.stage_other pid e);
  stage_blocked = h.stage_blocked;
}

-- a step behind which no first stage is open
settled-IsTracked :
    (blocked : Bool) (alive : ℕ → Bool) (waiting : List Report) (table : JobsTable)
    → All (Led (known alive waiting)) table.jobs
    → AreDistinct table.jobs
    → IsTracked (record {
      blocked = blocked;
      alive = alive;
      waiting = waiting;
      started = none;
      jobs = table;
    })
settled-IsTracked blocked alive waiting table led distinct = record {
  led = led;
  distinct = distinct;
  stage_known = λ pid e. absurd cc;
  stage_other = λ pid e. absurd cc;
  stage_blocked = λ pid e. absurd cc;
}

pub known-start :
    (pid : ℕ) (alive : ℕ → Bool) (waiting : List Report) (x : ℕ)
    → known alive waiting x ≡ true
    → known (set_alive true pid alive) waiting x ≡ true
unfolding set_alive
known-start pid alive waiting x h = ground (arith, h)

pub started-known :
    (pid : ℕ) (alive : ℕ → Bool) (waiting : List Report)
    → known (set_alive true pid alive) waiting pid ≡ true
unfolding set_alive
started-known pid alive waiting = ground arith

pub known-ends :
    (pid status : ℕ) (alive : ℕ → Bool) (waiting : List Report) (x : ℕ)
    → known alive waiting x ≡ true
    → known (set_alive false pid alive) (waiting ++ (pid, status) ∷ []) x ≡ true
unfolding set_alive
known-ends pid status alive waiting x h = ground (arith, h, is_waiting-append pid status x waiting)

pub known-wait :
    (pid : ℕ) (alive : ℕ → Bool) (waiting : List Report) (x : ℕ)
    → (x == pid) ≡ false
    → known alive waiting x ≡ true
    → known (set_alive false pid alive) (without pid waiting) x ≡ true
unfolding set_alive
known-wait pid alive waiting x e h = ground (arith, e, h, is_waiting-without pid x waiting e)

start-IsTracked :
    (pid : ℕ) (s : State)
    → s.blocked ≡ true
    → s.alive pid ≡ false
    → is_waiting s.waiting pid ≡ false
    → IsTracked s
    → IsTracked (start pid s)
start-IsTracked pid s b dead silent h = record {
  led =
      LedBy-mono runs (known s.alive s.waiting) _ (known-start pid s.alive s.waiting) s.jobs.jobs
        h.led;
  distinct = h.distinct;
  stage_known = λ x e.
      subst (λ y. known (set_alive true pid s.alive) s.waiting y ≡ true) (some_injective e)
        (started-known pid s.alive s.waiting);
  stage_other = λ x e.
      subst (λ y. All (Other y) s.jobs.jobs) (some_injective e)
        (Led-Other (known s.alive s.waiting) pid (ground (arith, dead, silent)) s.jobs.jobs h.led);
  stage_blocked = λ x e. b;
}

record_job-IsTracked :
    (pid : ℕ) (label : Text) (s : State)
    → s.started ≡ some pid
    → IsTracked s
    → IsTracked (record_job pid label s)
record_job-IsTracked pid label s e h =
    settled-IsTracked s.blocked s.alive s.waiting _
      (All-jobs_add (Led (known s.alive s.waiting)) s.jobs pid label running
        (λ r. h.stage_known pid e) h.led)
      (jobs_add-Distinct runs s.jobs pid label running (h.stage_other pid e) h.distinct)

stopped-IsTracked :
    (pid : ℕ) (label : Text) (s : State) (found : Option ℕ)
    → jobs_find_by_pid s.jobs pid ≡ found
    → s.started ≡ some pid
    → IsTracked s
    → IsTracked (record s { started = none; jobs = (job_stopped found s.jobs pid label).1 })
unfolding job_stopped
stopped-IsTracked pid label s none f e h =
    settled-IsTracked s.blocked s.alive s.waiting _
      (All-jobs_add (Led (known s.alive s.waiting)) s.jobs pid label stopped
        (λ r. h.stage_known pid e) h.led)
      (jobs_add-Distinct runs s.jobs pid label stopped (h.stage_other pid e) h.distinct)
stopped-IsTracked pid label s (some i) f e h =
    let fades = FadesAll-set_stopped s.jobs pid i f in
    settled-IsTracked s.blocked s.alive s.waiting _
      (FadesAll-Led (known s.alive s.waiting) s.jobs.jobs _ fades h.led)
      (FadesAllBy-Distinct runs s.jobs.jobs _ fades h.distinct)

wait_foreground-IsTracked :
    (pid : ℕ) (s : State) → s.started ≡ some pid → IsTracked s → IsTracked (wait_foreground pid s)
wait_foreground-IsTracked pid s e h =
    let fades = FadesAll-jobs_remove_by_pid s.jobs pid in
    settled-IsTracked s.blocked _ _ _
      (FadesAll-Led _ s.jobs.jobs _ fades (
        LedBy-others runs pid (known s.alive s.waiting)
          (known (set_alive false pid s.alive) (without pid s.waiting))
          (known-wait pid s.alive s.waiting) s.jobs.jobs (h.stage_other pid e) h.led))
      (FadesAllBy-Distinct runs s.jobs.jobs _ fades h.distinct)

ends-IsTracked : (pid status : ℕ) (s : State) → IsTracked s → IsTracked (ends pid status s)
ends-IsTracked pid status s h = record {
  led =
      LedBy-mono runs (known s.alive s.waiting) _ (known-ends pid status s.alive s.waiting)
        s.jobs.jobs h.led;
  distinct = h.distinct;
  stage_known = λ x e. known-ends pid status s.alive s.waiting x (h.stage_known x e);
  stage_other = h.stage_other;
  stage_blocked = h.stage_blocked;
}

handle-IsTracked : (s : State) → s.blocked ≡ false → IsTracked s → IsTracked (handle s)
handle-IsTracked s free h =
    let (distinct, led) = handler-Led s.alive s.jobs s.waiting h.distinct h.led in
    record {
      led = LedBy-mono runs s.alive (known s.alive []) (λ x a. ground (arith, a)) _ led;
      distinct = distinct;
      stage_known = λ x e. absurd (true-false s.blocked (h.stage_blocked x e) free);
      stage_other = λ x e. absurd (true-false s.blocked (h.stage_blocked x e) free);
      stage_blocked = λ x e. absurd (true-false s.blocked (h.stage_blocked x e) free);
    }

none-ne-some : {n : ℕ} → none ≢ some n
none-ne-some e = cc

Step-IsTracked : {s t : State} → Step s t → IsTracked s → IsTracked t
Step-IsTracked {s} (block b) h = record {
  led = h.led;
  distinct = h.distinct;
  stage_known = h.stage_known;
  stage_other = h.stage_other;
  stage_blocked = λ pid e. refl;
}
Step-IsTracked {s} (unblock b n) h = record {
  led = h.led;
  distinct = h.distinct;
  stage_known = h.stage_known;
  stage_other = h.stage_other;
  stage_blocked = λ pid e. absurd (none-ne-some (sym n ∙ e));
}
Step-IsTracked {s} (fork pid b n dead silent) h = start-IsTracked pid s b dead silent h
Step-IsTracked {s} (add pid label b e) h = record_job-IsTracked pid label s e h
Step-IsTracked {s} (wait pid b e) h = wait_foreground-IsTracked pid s e h
Step-IsTracked {s} (stop pid label b e) h = stopped-IsTracked pid label s _ refl e h
Step-IsTracked {s} (give_up b) h =
    settled-IsTracked s.blocked s.alive s.waiting s.jobs h.led h.distinct
Step-IsTracked {s} (child_ends pid status a) h = ends-IsTracked pid status s h
Step-IsTracked {s} (reap b) h = handle-IsTracked s b h
Step-IsTracked {s} (notify b) h = faded-IsTracked s _ (FadesAll-jobs_notify_completed s.jobs) h
Step-IsTracked {s} (clear b) h = faded-IsTracked s _ (FadesAll-jobs_clear_done s.jobs) h

-- Whatever the order of the shell's steps other than fg and bg, of the ends of children and of the handler: a job that
-- is recorded as running has a leader that lives or whose end waits for the handler, no two of
-- these jobs have the same leader, and a first stage that is no job yet leads none of them.
pub Reach-IsTracked : {s : State} → Reach s → IsTracked s
Reach-IsTracked init = initial-IsTracked
Reach-IsTracked (next r step) = Step-IsTracked step (Reach-IsTracked r)
