-- ===== src/Signals/Resumed/Accounted.antt =====
-- With `fg` and `bg` too, no end of a job is lost, as long as the leaders of stopped jobs do not end.
use unix_shell.Base.{
  ℕ, ◌≡◌, ◌≢◌, refl, sym, subst, ◌∙◌, true, false, [], none, some, All, All-replicate,
}
use unix_shell.Cstring.{Text}
use unix_shell.Jobs.{JobsTable, jobs_notify_completed, jobs_init, cleared, jobs_clear_done}
use unix_shell.Jobs.Invariant.{jobs_notify_completed-jobs_clear_done}
use unix_shell.Signals.Interleaving.{
  State, ends, start, record_job, wait_foreground, stop_foreground, handle, Step, block, unblock,
  fork, add, wait, stop, give_up, child_ends, reap, notify, clear, initial,
}
use unix_shell.Signals.Leaders.{LedBy, OtherBy, cleared-Distinct}
use unix_shell.Signals.Tracked.{runs}
use unix_shell.Signals.Handled.{known, some_injective, true-false}
use unix_shell.Signals.NoLost.{known-ends, started-known}
use unix_shell.Signals.Resumed.{
  used, halts, resumed_by_bg, Move, shell, bg, fg_ends, fg_stops, IsCalm, CalmRun, begin, move,
}
use unix_shell.Signals.Resumed.Held.{
  IsHeld, Fades, Fades-IsHeld, Fades-Other, jobs_clear_done-Fades, jobs_remove_by_pid-Fades,
  jobs_remove_by_pid-Other, handler-IsHeld,
}
use unix_shell.Signals.Resumed.Changed.{
  resume_job-IsHeld, record_running-IsHeld, job_stopped-IsHeld, start-IsHeld, ends-IsHeld,
  waited-IsHeld,
}

-- A first stage that is no job yet is known, leads no job of the table, and has SIGCHLD blocked.
pub record IsStage (s : State) (pid : ℕ) : Type 0 where
  pub is_known : known s.alive s.waiting pid ≡ true
  pub other : All (OtherBy used pid) s.jobs.jobs
  pub masked : s.blocked ≡ true

pub record IsAccounted (s : State) : Type 0 where
  pub jobs_held : IsHeld s.alive s.waiting s.jobs.jobs
  pub stage : (pid : ℕ) → s.started ≡ some pid → IsStage s pid

none-ne-some : {n : ℕ} → none ≢ some n
none-ne-some e = cc

initial-IsAccounted : IsAccounted initial
unfolding jobs_init
initial-IsAccounted = record {
  jobs_held = record {
    led = All-replicate (LedBy runs (known (λ pid. false) [])) 64 cleared (λ r. absurd cc);
    held = All-replicate (LedBy halts (λ pid. false)) 64 cleared (λ r. absurd cc);
    distinct = cleared-Distinct used 64 refl;
  };
  stage = λ pid e. absurd (none-ne-some e);
}

-- a step behind which no first stage is open
settled : (s : State) → IsHeld s.alive s.waiting s.jobs.jobs → s.started ≡ none → IsAccounted s
settled s h n = record { jobs_held = h; stage = λ pid e. absurd (none-ne-some (sym n ∙ e)) }

-- a step that only takes jobs out
faded :
    (s : State) (table : JobsTable)
    → Fades s.jobs.jobs table.jobs
    → IsAccounted s
    → IsAccounted (record s { jobs = table })
faded s table f a = record {
  jobs_held = Fades-IsHeld s.alive s.waiting s.jobs.jobs table.jobs f a.jobs_held;
  stage = λ pid e.
      let open_stage = a.stage pid e in
      record {
        is_known = open_stage.is_known;
        other = Fades-Other pid s.jobs.jobs table.jobs f open_stage.other;
        masked = open_stage.masked;
      };
}

started-IsAccounted :
    (pid : ℕ) (s : State)
    → s.blocked ≡ true
    → All (OtherBy used pid) s.jobs.jobs
    → IsAccounted s
    → IsAccounted (start pid s)
started-IsAccounted pid s b o a = record {
  jobs_held = start-IsHeld pid s.alive s.waiting s.jobs.jobs a.jobs_held;
  stage = λ x e.
      subst (λ y. IsStage (start pid s) y) (some_injective e)
        (record { is_known = started-known pid s.alive s.waiting; other = o; masked = b });
}

ends-IsAccounted :
    (pid status : ℕ) (s : State)
    → All (OtherBy halts pid) s.jobs.jobs
    → IsAccounted s
    → IsAccounted (ends pid status s)
ends-IsAccounted pid status s o a = record {
  jobs_held = ends-IsHeld pid status s.alive s.waiting s.jobs.jobs o a.jobs_held;
  stage = λ x e.
      let open_stage = a.stage x e in
      record {
        is_known = known-ends pid status s.alive s.waiting x open_stage.is_known;
        other = open_stage.other;
        masked = open_stage.masked;
      };
}

waited-IsAccounted :
    (pid : ℕ) (s : State)
    → IsHeld s.alive s.waiting s.jobs.jobs
    → IsAccounted (wait_foreground pid s)
waited-IsAccounted pid s h =
    settled (wait_foreground pid s)
      (waited-IsHeld pid s.alive s.waiting _ (jobs_remove_by_pid-Other s.jobs pid h.distinct)
        (Fades-IsHeld s.alive s.waiting s.jobs.jobs _ (jobs_remove_by_pid-Fades s.jobs pid) h))
      refl

stopped-IsAccounted :
    (pid : ℕ) (label : Text) (s : State)
    → s.alive pid ≡ true
    → IsHeld s.alive s.waiting s.jobs.jobs
    → IsAccounted (stop_foreground pid label s)
stopped-IsAccounted pid label s a h =
    settled (stop_foreground pid label s)
      (job_stopped-IsHeld s.alive s.waiting pid label s.jobs _ refl a h) refl

handled-IsAccounted : (s : State) → s.blocked ≡ false → IsAccounted s → IsAccounted (handle s)
handled-IsAccounted s free a = record {
  jobs_held = (handler-IsHeld s.alive s.jobs s.waiting a.jobs_held).1;
  stage = λ pid e. absurd (true-false s.blocked (a.stage pid e).masked free);
}

Step-IsAccounted :
    {s t : State} (step : Step s t) → IsCalm (shell step) → IsAccounted s → IsAccounted t
unfolding IsCalm
Step-IsAccounted {s} (block b) c a = record {
  jobs_held = a.jobs_held;
  stage = λ pid e. record {
    is_known = (a.stage pid e).is_known;
    other = (a.stage pid e).other;
    masked = refl;
  };
}
Step-IsAccounted {s} (unblock b n) c a = settled (record s { blocked = false }) a.jobs_held n
Step-IsAccounted {s} (fork pid b n dead silent) c a = started-IsAccounted pid s b c a
Step-IsAccounted {s} (add pid label b e) c a =
    let open_stage = a.stage pid e in
    settled (record_job pid label s)
      (record_running-IsHeld s.alive s.waiting pid label s.jobs open_stage.is_known open_stage.other
        a.jobs_held)
      refl
Step-IsAccounted {s} (wait pid b e) c a = waited-IsAccounted pid s a.jobs_held
Step-IsAccounted {s} (stop pid label b e) c a = stopped-IsAccounted pid label s c a.jobs_held
Step-IsAccounted {s} (give_up b) c a = settled (record s { started = none }) a.jobs_held refl
Step-IsAccounted {s} (child_ends pid status l) c a = ends-IsAccounted pid status s c a
Step-IsAccounted {s} (reap b) c a = handled-IsAccounted s b a
Step-IsAccounted {s} (notify b) c a =
    faded s (jobs_notify_completed s.jobs).1
      (rw (jobs_notify_completed-jobs_clear_done s.jobs) (jobs_clear_done-Fades s.jobs)) a
Step-IsAccounted {s} (clear b) c a =
    faded s (jobs_clear_done s.jobs) (jobs_clear_done-Fades s.jobs) a

Move-IsAccounted : {s t : State} (m : Move s t) → IsCalm m → IsAccounted s → IsAccounted t
Move-IsAccounted {s} (shell step) c a = Step-IsAccounted step c a
Move-IsAccounted {s} (bg id b n) c a =
    settled (resumed_by_bg id s) (resume_job-IsHeld s.alive s.waiting id s.jobs a.jobs_held) n
Move-IsAccounted {s} (fg_ends id job b n e) c a =
    waited-IsAccounted job.pid (resumed_by_bg id s)
      (resume_job-IsHeld s.alive s.waiting id s.jobs a.jobs_held)
Move-IsAccounted {s} (fg_stops id job b n e) c a =
    stopped-IsAccounted job.pid job.command (resumed_by_bg id s) (unfold IsCalm in c)
      (resume_job-IsHeld s.alive s.waiting id s.jobs a.jobs_held)

-- Where the shell, its children, the handler and the built-ins fg and bg take their steps in any
-- order, where a new child has the id of no job in the table, a child that stops lives, and no
-- leader of a stopped job ends before it is resumed: the leader of each running job of the table
-- lives or its end waits for the handler, that of each stopped job lives, and no two jobs of the
-- table have the same leader; a first stage that is no job yet lives or its end waits, it leads no
-- job of the table, and SIGCHLD is blocked.
pub CalmRun-IsAccounted : {s : State} → CalmRun s → IsAccounted s
CalmRun-IsAccounted begin = initial-IsAccounted
CalmRun-IsAccounted (move r m c) = Move-IsAccounted m c (CalmRun-IsAccounted r)
