-- ===== src/Spawn/Wiring.antt =====
-- What each stage of a pipeline reads and writes.
use unix_shell.Base.{
  ℕ, ◌≡◌, ◌≢◌, sym, ap, ◌∙◌, fun_ext, false, Option, none, some, if◌then◌else◌, ◌==◌, arith,
  Bool-cases, inl, inr, ==_iff,
}
use unix_shell.Process.{Target, Entry, kept, Table, put}
use unix_shell.Spawn.{wire_stdin, wire_stdout, child_table, close_read, close_write}

-- The standard streams are open.
abbrev pub HasStreams : Table → Type 0
HasStreams t = (t 0 ≢ none) × (t 1 ≢ none)

pub ne_of_open : (t : Table) (fd x : ℕ) → t fd ≡ none → t x ≢ none → (fd == x) ≡ false
ne_of_open t fd x h n = elim (Bool-cases (fd == x)) [
  | inl e ↦ absurd (n (rw (← (==_iff fd x).0 e) h))
  | inr e ↦ e
]

pub put_same : (fd : ℕ) (t : Table) (x : ℕ) → put fd (t fd) t x ≡ t x
unfolding put
put_same fd t x = ground arith

-- a table with other standard streams
abbrev pub streams : Option Entry → Option Entry → Table → Table
streams source sink t x = if x == 0 then source else if x == 1 then sink else t x

-- The shell's table between two stages: its own, and where there was a stage before, the read end
-- of the pipe that this stage wrote to. `source` is what the next stage shall read.
unfoldable pub Held : Table → Option Entry → Option ℕ → Table → Type 0
Held t source none table = (table ≡ t) × (source ≡ t 0)
Held t source (some fd) table =
    (t fd ≡ none) × ((target : Target) × (source ≡ some (kept target)) × (table ≡ put fd source t))

-- the shell's table with the read end that the next stage shall have
abbrev pub held : Option ℕ → Option Entry → Table → Table
held none source t = t
held (some fd) source t = put fd source t

pub Held-held :
    (t : Table) (source : Option Entry) (prev : Option ℕ) (table : Table)
    → Held t source prev table
    → table ≡ held prev source t
unfolding Held
Held-held t source none table (e, _) = e
Held-held t source (some fd) table (_, (_, _, e)) = e

module _ (t : Table) (streams_open : HasStreams t) where
  stdin_wired :
      (source : Option Entry) (prev : Option ℕ) (table : Table) (x : ℕ)
      → Held t source prev table
      → wire_stdin prev table x ≡ put 0 source t x
  unfolding wire_stdin Held
  stdin_wired source none table x (e, s) = rw (e, s) (sym (put_same 0 t x))
  stdin_wired source (some fd) table x (h, (target, s, e)) =
      rw (e, s) (ground (arith, ne_of_open t fd 0 h streams_open.0))

  pub last_table :
      (source : Option Entry) (prev : Option ℕ) (table : Table)
      → Held t source prev table
      → child_table prev none table ≡ streams source (t 1) t
  unfolding child_table put
  last_table source prev table h = fun_ext λ x. stdin_wired source prev table x h ∙ ground arith

  pub last_parent :
      (source : Option Entry) (prev : Option ℕ) (table : Table)
      → Held t source prev table
      → close_write none (close_read prev table) ≡ t
  unfolding close_write close_read put Held
  last_parent source none table (e, s) = e
  last_parent source (some fd) table (h, (target, s, e)) = rw e (fun_ext λ x. ground arith)

  -- what is new in the shell's table is new in the table that the shell was started with
  pub new_in_start :
      (source : Option Entry) (prev : Option ℕ) (table : Table) (x : ℕ)
      → Held t source prev table
      → table x ≡ none
      → t x ≡ none
  unfolding Held put
  new_in_start source none table x (e, s) n = rw (← e) n
  new_in_start source (some fd) table x (h, (target, s, e)) n = ground (arith, rw e at n)

  put_new : (source : Option Entry) (x : ℕ) → t x ≡ none → put 0 source t x ≡ none
  unfolding put
  put_new source x n = rw (ne_of_open t x 0 n streams_open.0) n

  module _ (r w : ℕ) (reading writing : Target) where
    -- the table once the pipe is there
    abbrev pub both : Table → Table
    both table = put w (some (kept writing)) (put r (some (kept reading)) table)

    stdin_wired_piped :
        (source : Option Entry) (prev : Option ℕ) (table : Table) (x : ℕ)
        → Held t source prev table
        → table r ≡ none
        → table w ≡ none
        → wire_stdin prev (both table) x ≡ both (put 0 source t) x
    unfolding wire_stdin Held
    stdin_wired_piped source none table x (e, s) hr hw = rw (e, s) (ground (arith, put_same 0 t x))
    stdin_wired_piped source (some fd) table x (h, (target, s, e)) hr hw =
        rw (e, s) (ground (arith, ne_of_open t fd 0 h streams_open.0, hr, hw))

    stdout_wired :
        (table : Table) (x : ℕ)
        → table r ≡ none
        → table w ≡ none
        → r ≢ w
        → table 1 ≢ none
        → wire_stdout (some (r, w)) (both table) x ≡ put 1 (some (kept writing)) table x
    unfolding wire_stdout
    stdout_wired table x hr hw n one =
        ground (arith, ne_of_open table r 1 hr one, ne_of_open table w 1 hw one)

    pub piped_table :
        (source : Option Entry) (prev : Option ℕ) (table : Table)
        → Held t source prev table
        → table r ≡ none
        → table w ≡ none
        → r ≢ w
        → child_table prev (some (r, w)) (both table) ≡ streams source (some (kept writing)) t
    unfolding child_table put
    piped_table source prev table h hr hw n =
        ap (wire_stdout (some (r, w))) (fun_ext λ x. stdin_wired_piped source prev table x h hr hw)
        ∙ fun_ext λ x.
          stdout_wired (put 0 source t) x (put_new source r (new_in_start source prev table r h hr))
            (put_new source w (new_in_start source prev table w h hw)) n streams_open.1
          ∙ ground arith

    pub piped_parent :
        (source : Option Entry) (prev : Option ℕ) (table : Table)
        → Held t source prev table
        → table r ≡ none
        → table w ≡ none
        → r ≢ w
        → close_write (some (r, w)) (close_read prev (both table)) ≡ put r (some (kept reading)) t
    unfolding close_write close_read put Held
    piped_parent source none table (e, s) hr hw n = rw e (fun_ext λ x. ground arith)
    piped_parent source (some fd) table (h, (target, s, e)) hr hw n =
        rw e (fun_ext λ x. ground arith)
