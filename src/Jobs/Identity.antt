-- ===== src/Jobs/Identity.antt =====
-- What an id of a job stands for over any calls on the table.
use unix_shell.Base.{
  ℕ, ◌<◌, ◌≤◌, ◌≡◌, refl, sym, subst, ◌∙◌, inl, inr, Option, none, some, ◌==◌, arith, Bool-cases,
  ==_iff,
}
use unix_shell.Base.Int.{pos}
use unix_shell.Jobs.{Job, JobsTable, is_finished}
use unix_shell.Jobs.Lookup.{job_of}
use unix_shell.Jobs.Laws.{unfinished}
use unix_shell.Jobs.Reach.{Step, Reach, next, Reach-IsTable}
use unix_shell.Jobs.Directory.{
  Directory, view, entered, Act, enter, finish, mark, forget, sweep, same,
}
use unix_shell.Jobs.Refine.{Step-Act}

-- Two lookups of an id that was given, one after the other: an id whose job is gone stays so, and
-- one that still finds a job finds the same.
unfoldable pub IsSame : Option Job → Option Job → Type 0
IsSame found none = Unit
IsSame none (some k) = ⊥
IsSame (some j) (some k) = (k.pid ≡ j.pid) × (k.command ≡ j.command)

IsSame-refl : (found : Option Job) → IsSame found found
unfolding IsSame
IsSame-refl none = tt
IsSame-refl (some j) = (refl, refl)

IsSame-trans : (a b c : Option Job) → IsSame a b → IsSame b c → IsSame a c
unfolding IsSame
IsSame-trans a b none h h' = tt
IsSame-trans a none (some k) h h' = absurd h'
IsSame-trans none (some j) (some k) h h' = absurd h
IsSame-trans (some i) (some j) (some k) (p, c) (p', c') = (p' ∙ p, c' ∙ c)

IsSame-unfinished : (found : Option Job) → IsSame found (unfinished found)
unfolding IsSame
IsSame-unfinished none = tt
IsSame-unfinished (some j) = elim (Bool-cases (is_finished j.state)) [
  | inl e ↦ rw e tt
  | inr e ↦ rw e (refl, refl)
]

-- a directory in which one id has changed
IsSame-entered :
    (id n : ℕ) (found : Option Job) (job : ℕ → Option Job)
    → IsSame (job id) found
    → IsSame (job n) (entered id found job n)
IsSame-entered id n found job h = elim (Bool-cases (id == n)) [
  | inl e ↦ rw e (subst (λ x. IsSame (job x) found) ((==_iff id n).0 e) h)
  | inr e ↦ rw e (IsSame-refl (job n))
]

IsSame-changed :
    (id n : ℕ) (j k : Job) (job : ℕ → Option Job)
    → job id ≡ some j
    → k.pid ≡ j.pid
    → k.command ≡ j.command
    → IsSame (job n) (entered id (some k) job n)
IsSame-changed id n j k job e p c =
    IsSame-entered id n (some k) job
      (subst (λ found. IsSame found (some k)) (sym e) (unfold IsSame in (p, c)))

IsSame-given :
    (n fresh : ℕ) (found : Option Job) (job : ℕ → Option Job)
    → n < fresh
    → IsSame (job n) (entered fresh found job n)
IsSame-given n fresh found job lt = elim (Bool-cases (fresh == n)) [
  | inl e ↦ absurd (ground (arith, e, lt))
  | inr e ↦ rw e (IsSame-refl (job n))
]

to : (a b c : Option Job) → c ≡ b → IsSame a b → IsSame a c
to a b c e h = subst (IsSame a) (sym e) h

Act-IsSame : (d e : Directory) (n : ℕ) → Act d e → n < d.next → IsSame (d.job n) (e.job n)
Act-IsSame d e n (enter pid command state more j) lt =
    to _ _ _ (j n) (IsSame-given n d.next _ d.job lt)
Act-IsSame d e n (finish id status k here running more j) lt =
    to _ _ _ (j n) (IsSame-changed id n k _ d.job here refl refl)
Act-IsSame d e n (mark id state k here more j) lt =
    to _ _ _ (j n) (IsSame-changed id n k _ d.job here refl refl)
Act-IsSame d e n (forget id more j) lt =
    to _ _ _ (j n) (IsSame-entered id n none d.job (unfold IsSame in tt))
Act-IsSame d e n (sweep more j) lt = to _ _ _ (j n) (IsSame-unfinished (d.job n))
Act-IsSame d e n (same more j) lt = to _ _ _ (j n) (IsSame-refl (d.job n))

Act-next : (d e : Directory) → Act d e → d.next ≤ e.next
Act-next d e (enter pid command state more j) = omega (arith, more)
Act-next d e (finish id status k here running more j) = omega (arith, more)
Act-next d e (mark id state k here more j) = omega (arith, more)
Act-next d e (forget id more j) = omega (arith, more)
Act-next d e (sweep more j) = omega (arith, more)
Act-next d e (same more j) = omega (arith, more)

-- the tables behind any calls
pub data Later (t : JobsTable) : JobsTable → Type 0 where
  now : Later t t
  call : {u v : JobsTable} → Later t u → Step u v → Later t v

Later-Reach : {t u : JobsTable} → Reach t → Later t u → Reach u
Later-Reach r now = r
Later-Reach r (call l s) = next (Later-Reach r l) s

Later-next : {t u : JobsTable} → Reach t → Later t u → t.next_id ≤ u.next_id
Later-next {t} r now = omega arith
Later-next {t} r (call {u} {v} l s) = omega (
  arith,
  Later-next r l,
  Act-next (view u) (view v) (Step-Act s (Reach-IsTable (Later-Reach r l))),
)

-- Over any calls on a table that can be reached, by the shell or the handler: an id that was given
-- and whose job has left the table finds no job again, and an id that still finds a job finds the
-- one with the same process group and the same label.
pub Later-IsSame :
    {t u : JobsTable} (n : ℕ)
    → Reach t
    → Later t u
    → n < t.next_id
    → IsSame (job_of t (pos n)) (job_of u (pos n))
Later-IsSame {t} n r now lt = IsSame-refl (job_of t (pos n))
Later-IsSame {t} n r (call {u} {v} l s) lt = IsSame-trans _ _ _ (Later-IsSame n r l lt) (
    Act-IsSame (view u) (view v) n (Step-Act s (Reach-IsTable (Later-Reach r l)))
      (omega (arith, lt, Later-next r l)))
