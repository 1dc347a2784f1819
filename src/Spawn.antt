-- ===== src/Spawn.antt =====
-- executor.c: forking and wiring the stages of a pipeline.
pub mod Wiring
pub mod Stages
pub mod Exec
pub mod Images
pub mod Programs
pub mod Execute
pub mod Running
pub mod Tests
use unix_shell.Base.{
  ℕ, suc, Bool, true, false, List, [], ◌∷◌, ◌++◌, Option, none, some, if◌then◌else◌, length,
}
use unix_shell.Base.Int.{ℤ, pos, negsuc}
use unix_shell.Cstring.{Text, codes}
use unix_shell.Parser.{Command}
use unix_shell.Process.{Target, pipe_read, pipe_write, Entry, kept, Table, put, close, dup2}

-- What the shell asks the kernel for while it forks, on the kernel's state `W`: the descriptors of
-- a new pipe, given those that are open, and the process id of a new child. `none` is a failure.
pub record Kernel (W : Type 0) : Type 0 where
  pub pipe : Table → W → Option (ℕ × ℕ) × W
  pub fork : W → Option ℕ × W

-- A child where it calls `exec_child`.
pub record Child : Type 0 where
  pub pid : ℕ
  pub pgid : ℕ
  pub table : Table
  pub command : Command

-- The shell in the loop: its descriptors, how many pipes there have been, the variable
-- `prev_read` (`none` for -1), `pids` with what has become of the children, and the messages, less
-- what `perror` puts behind its prefix.
pub record Spawning (W : Type 0) : Type 0 where
  pub table : Table
  pub pipes : ℕ
  pub prev_read : Option ℕ
  pub children : List Child
  pub world : W
  pub errors : List Text

abbrev pub PipeFd : Type 0
PipeFd = Option (ℕ × ℕ)

unfoldable pub wire_stdin : Option ℕ → Table → Table
unfolding dup2 put
wire_stdin none t = t
wire_stdin (some fd) t = close fd (dup2 fd 0 t)

unfoldable pub wire_stdout : PipeFd → Table → Table
unfolding dup2 put
wire_stdout none t = t
wire_stdout (some (r, w)) t = close w (dup2 w 1 (close r t))

-- what the child does to the descriptors that it has from its parent
unfoldable pub child_table : Option ℕ → PipeFd → Table → Table
unfolding wire_stdin wire_stdout
child_table prev_read pipefd t = wire_stdout pipefd (wire_stdin prev_read t)

unfoldable pub close_read : Option ℕ → Table → Table
unfolding put
close_read none t = t
close_read (some fd) t = close fd t

unfoldable pub close_write : PipeFd → Table → Table
unfolding put
close_write none t = t
close_write (some (r, w)) t = close w t

unfoldable pub read_end : PipeFd → Option ℕ → Option ℕ
read_end none prev_read = prev_read
read_end (some (r, w)) prev_read = some r

-- `(i == 0) ? pid : pids[0]`
unfoldable pub group_of : List Child → ℕ → ℕ
group_of [] pid = pid
group_of (c ∷ cs) pid = c.pid

unfoldable pub is_last : List Command → Bool
is_last [] = true
is_last (_ ∷ _) = false

module _ {W : Type 0} where
  -- the new pipe's ends stand in the shell's table
  unfoldable pub with_pipe : ℕ → ℕ → W → Spawning W → Spawning W
  unfolding put
  with_pipe r w world s = record s {
    table =
        put w (some (kept (pipe_write s.pipes))) (put r (some (kept (pipe_read s.pipes))) s.table);
    pipes = suc s.pipes;
    world = world;
  }

  abbrev pub fails : Text → W → Spawning W → Bool × Spawning W
  fails message world s = (false, record s { world = world; errors = s.errors ++ message ∷ [] })

  -- the child, and the parent's side of the stage
  unfoldable pub forked : Command → PipeFd → Spawning W → Option ℕ × W → Bool × Spawning W
  unfolding child_table close_read close_write read_end group_of
  forked cmd pipefd s (none, world) = fails (codes "mysh: fork") world s
  forked cmd pipefd s (some pid, world) =
      let child : Child = record {
        pid = pid;
        pgid = group_of s.children pid;
        table = child_table s.prev_read pipefd s.table;
        command = cmd;
      } in
      (
        true,
        record s {
          table = close_write pipefd (close_read s.prev_read s.table);
          prev_read = read_end pipefd s.prev_read;
          children = s.children ++ child ∷ [];
          world = world;
        },
      )

  unfoldable pub code_of : ℕ → Bool × Spawning W → ℤ × Spawning W
  code_of n (true, s) = (pos n, s)
  code_of n (false, s) = (negsuc 0, s)

  abbrev pub starting : Table → ℕ → W → Spawning W
  starting t pipes world = record {
    table = t;
    pipes = pipes;
    prev_read = none;
    children = [];
    world = world;
    errors = [];
  }

  module _ (sys : Kernel W) where
    open sys use {pipe, fork}

    unfoldable pub piped : Command → Spawning W → PipeFd × W → Bool × Spawning W
    unfolding forked with_pipe
    piped cmd s (none, world) = fails (codes "mysh: pipe") world s
    piped cmd s (some (r, w), world) = forked cmd (some (r, w)) (with_pipe r w world s) (fork world)

    -- one round of the loop: whether it goes on
    unfoldable pub stage : Command → Bool → Spawning W → Bool × Spawning W
    unfolding piped forked
    stage cmd last s =
        if last then forked cmd none s (fork s.world) else piped cmd s (pipe s.table s.world)

    unfoldable pub spawn_loop : List Command → Spawning W → Bool × Spawning W
    unfolding stage is_last
    spawn_loop [] s = (true, s)
    spawn_loop (cmd ∷ cmds) s =
        let (more, s') = stage cmd (is_last cmds) s in
        let rest = spawn_loop cmds s' in if more then rest else (false, s')

    unfoldable pub spawn_pipeline : List Command → Table → ℕ → W → ℤ × Spawning W
    unfolding spawn_loop code_of
    spawn_pipeline cmds t pipes world =
        code_of (length cmds) (spawn_loop cmds (starting t pipes world))
