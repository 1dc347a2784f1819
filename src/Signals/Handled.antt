-- ===== src/Signals/Handled.antt =====
-- The running jobs behind the handler have leaders that live.
use unix_shell.Base.{
  ℕ, ◌≡◌, ◌≢◌, refl, sym, ap, ◌∙◌, inl, inr, Bool, true, false, ◌||◌, List, [], ◌∷◌, ◌++◌, some,
  ◌==◌, All, All-mono, arith, Bool-cases,
}
use unix_shell.Jobs.{Job, JobsTable, jobs_mark_done}
use unix_shell.Signals.{Report, sigchld_handler}
use unix_shell.Signals.Reaping.{ended}
use unix_shell.Signals.Interleaving.{is_waiting, without}
use unix_shell.Signals.Leaders.{LedBy-mono, LedBy-others, FadesAllBy-All, FadesAllBy-Distinct}
use unix_shell.Signals.Tracked.{
  Led, Other, AreDistinct, FadesAll, runs, FadesAll-jobs_mark_done, jobs_mark_done-Other,
}

-- the process lives, or `waitpid` has yet to report its end
abbrev pub known : (ℕ → Bool) → List Report → ℕ → Bool
known alive waiting pid = alive pid || is_waiting waiting pid

pub is_waiting-without :
    (pid x : ℕ) (reports : List Report)
    → (x == pid) ≡ false
    → is_waiting (without pid reports) x ≡ is_waiting reports x
unfolding is_waiting without
is_waiting-without pid x [] e = refl
is_waiting-without pid x ((ended, status) ∷ reports) e =
    ground (arith, e, is_waiting-without pid x reports e)

pub is_waiting-append :
    (pid status x : ℕ) (reports : List Report)
    → is_waiting (reports ++ (pid, status) ∷ []) x ≡ (is_waiting reports x || pid == x)
unfolding is_waiting
is_waiting-append pid status x [] = ground arith
is_waiting-append pid status x ((ended, s) ∷ reports) =
    ground (arith, is_waiting-append pid status x reports)

pub true-ne-false : true ≢ false
true-ne-false e = cc

==-≡ : (m n : ℕ) → (m == n) ≡ true → m ≡ n
==-≡ m n e = ground (arith, e)

known_differs : (p : ℕ → Bool) (pid x : ℕ) → p pid ≡ false → p x ≡ true → (x == pid) ≡ false
known_differs p pid x e h = elim (Bool-cases (x == pid)) [
  | inl same ↦ absurd (true-ne-false (sym h ∙ (ap p (==-≡ x pid same) ∙ e)))
  | inr other ↦ other
]

pub Led-Other :
    (p : ℕ → Bool) (pid : ℕ)
    → p pid ≡ false
    → (jobs : List Job) → All (Led p) jobs
    → All (Other pid) jobs
Led-Other p pid e jobs =
    All-mono (Led p) (Other pid) jobs (λ j l. λ r. known_differs p pid j.pid e (l r))

pub FadesAll-Led :
    (p : ℕ → Bool) (js ks : List Job) → FadesAll js ks → All (Led p) js → All (Led p) ks
FadesAll-Led p = FadesAllBy-All runs (λ pid. p pid ≡ true)

pub FadesAll-Other :
    (pid : ℕ) (js ks : List Job) → FadesAll js ks → All (Other pid) js → All (Other pid) ks
FadesAll-Other pid = FadesAllBy-All runs (λ x. (x == pid) ≡ false)

-- The handler, on all that waits: the running jobs that it leaves have leaders that live.
pub handler-Led :
    (alive : ℕ → Bool) (table : JobsTable) (reports : List Report)
    → AreDistinct table.jobs
    → All (Led (known alive reports)) table.jobs
    → AreDistinct (sigchld_handler table reports).jobs
      × All (Led alive) (sigchld_handler table reports).jobs
unfolding sigchld_handler is_waiting
handler-Led alive table [] d l =
    (d, LedBy-mono runs (known alive []) alive (λ x h. ground (arith, h)) table.jobs l)
handler-Led alive table ((pid, status) ∷ reports) d l =
    let fades = FadesAll-jobs_mark_done table pid status in
    handler-Led alive (jobs_mark_done table pid status) reports
      (FadesAllBy-Distinct runs table.jobs _ fades d)
      (LedBy-others runs pid (known alive ((pid, status) ∷ reports)) (known alive reports)
        (λ x e h. ground (arith, e, h)) _ (jobs_mark_done-Other table pid status d)
        (FadesAll-Led (known alive ((pid, status) ∷ reports)) table.jobs _ fades l))

pub some_injective {ℓ} : {A : Type ℓ} {a b : A} → some a ≡ some b → a ≡ b
some_injective e = cc

pub true-false : (b : Bool) → b ≡ true → b ≡ false → ⊥
true-false b t f = true-ne-false (sym t ∙ f)
