-- ===== src/Spawn/Stages.antt =====
-- `spawn_pipeline`: the stages are wired in order, and the shell keeps no end of a pipe.
use unix_shell.Base.{
  subst, ap, ℕ, suc, ◌≡◌, ◌≢◌, ◌⊎◌, refl, ◌∙◌, Bool, true, false, List, [], ◌∷◌, ◌++◌, Option, none,
  some, if◌then◌else◌, inl, inr, append_assoc, length,
}
use unix_shell.Base.Int.{ℤ, pos, negsuc}
use unix_shell.Parser.{Command}
use unix_shell.Process.{pipe_read, pipe_write, Entry, kept, Table, put}
use unix_shell.Spawn.{
  Kernel, Child, Spawning, PipeFd, group_of, is_last, read_end, code_of, starting, with_pipe,
  forked, piped, stage, spawn_loop, spawn_pipeline,
}
use unix_shell.Spawn.Wiring.{
  HasStreams, streams, Held, last_table, last_parent, Held-held, held, both, new_in_start,
  piped_table, piped_parent,
}

-- The stages of a pipeline, from one that reads `source` on, behind the children `before`: each
-- child runs its command in the group of the first, reads what the stage before it writes, writes
-- what the stage behind it reads, or what the shell's own output is, and has every other
-- descriptor as the shell had it before the pipeline.
unfoldable pub Stages : Table → Option Entry → ℕ → List Child → List Command → List Child → Type 0
Stages t source k before [] [] = Unit
Stages t source k before (cmd ∷ []) (c ∷ []) =
    (c.command ≡ cmd) × (c.pgid ≡ group_of before c.pid) × (c.table ≡ streams source (t 1) t)
Stages t source k before (cmd ∷ cmd' ∷ cmds) (c ∷ cs) =
    (c.command ≡ cmd)
    × (c.pgid ≡ group_of before c.pid)
    × (c.table ≡ streams source (some (kept (pipe_write k))) t)
    × Stages t (some (kept (pipe_read k))) (suc k) (before ++ c ∷ []) (cmd' ∷ cmds) cs
Stages t source k before _ _ = ⊥

abbrev pub IsNewPipe : {W : Type 0} → Kernel W → Type 0
IsNewPipe {W} sys =
    (t : Table) (world : W) (r w : ℕ) (world' : W)
    → sys.pipe t world ≡ (some (r, w), world')
    → (t r ≡ none) × (t w ≡ none) × (r ≢ w)

module _ {W : Type 0} (sys : Kernel W) where
  module _ (t : Table) where
    -- A run that fails, from a stage on: the stage reads `source`, at `prev` if a stage is before it,
    -- its pipe is number `k`, the kernel's state is `world`, and the children so far are `before`.
    -- Either the stage's `pipe` fails, and the shell keeps the read end that the stage was to have;
    -- or its `fork` fails, and the shell keeps that end, and both ends of the new pipe if the stage
    -- is not the last; or its child runs, wired as `Stages` says, and the run fails at a stage
    -- behind it, which reads the new pipe.
    unfoldable pub Stopped :
        Option Entry → Option ℕ → ℕ → W → List Child → List Command → Spawning W → Type 0
    Stopped source prev k world before [] s = ⊥
    Stopped source prev k world before (cmd ∷ []) s =
        (sys.fork world ≡ (none, s.world)) × (s.children ≡ before) × (s.table ≡ held prev source t)
    Stopped source prev k world before (cmd ∷ cmd' ∷ cmds) s =
        (sys.pipe (held prev source t) world ≡ (none, s.world))
          × (s.children ≡ before)
          × (s.table ≡ held prev source t)
        ⊎ ((r : ℕ) × (w : ℕ) × (world' : W) × (sys.pipe (held prev source t) world
              ≡ (some (r, w), world'))
            × ((sys.fork world' ≡ (none, s.world))
                  × (s.children ≡ before)
                  × (s.table
                      ≡ put w (some (kept (pipe_write k)))
                          (put r (some (kept (pipe_read k))) (held prev source t)))
                ⊎ ((c : Child) × (world'' : W) × (sys.fork world' ≡ (some c.pid, world''))
                    × (c.command ≡ cmd)
                    × (c.pgid ≡ group_of before c.pid)
                    × (c.table ≡ streams source (some (kept (pipe_write k))) t)
                    × Stopped (some (kept (pipe_read k))) (some r) (suc k) world''
                        (before ++ c ∷ []) (cmd' ∷ cmds) s)))

    Spawned :
        Option Entry → Option ℕ → ℕ → W → List Command → List Child → Bool × Spawning W → Type 0
    Spawned source prev k world cmds before (true, s) =
        (cs : List Child) × (s.children ≡ before ++ cs)
        × Stages t source k before cmds cs
        × (s.table ≡ t)
    Spawned source prev k world cmds before (false, s) = Stopped source prev k world before cmds s

    -- what the rest of the run comes to, from the state `s` on
    abbrev From : Option Entry → List Command → Spawning W → Bool × Spawning W → Type 0
    From source cmds s = Spawned source s.prev_read s.pipes s.world cmds s.children

  module _ (t : Table) (streams_open : HasStreams t) (new : IsNewPipe sys) where
    last-Spawned :
        (source : Option Entry) (cmd : Command) (s : Spawning W) (forking : Option ℕ × W)
        → Held t source s.prev_read s.table
        → sys.fork s.world ≡ forking
        → let (more, s') = forked cmd none s forking in
          From t source (cmd ∷ []) s (if more then spawn_loop sys [] s' else (false, s'))
    unfolding forked spawn_loop Spawned Stages Stopped
    last-Spawned source cmd s (none, world) h e =
        (e, refl, Held-held t source s.prev_read s.table h)
    last-Spawned source cmd s (some pid, world) h e = (
      _,
      refl,
      (refl, refl, last_table t streams_open source s.prev_read s.table h),
      last_parent t streams_open source s.prev_read s.table h,
    )

    module _ (source : Option Entry) (cmd cmd' : Command) (cmds : List Command) where
      -- a stage that starts its child, and what comes behind it
      Spawned-cons :
          (prev : Option ℕ) (k r w : ℕ) (world world' world'' : W) (before : List Child) (c : Child)
          (result : Bool × Spawning W)
          → sys.pipe (held prev source t) world ≡ (some (r, w), world')
          → sys.fork world' ≡ (some c.pid, world'')
          → c.command ≡ cmd
          → c.pgid ≡ group_of before c.pid
          → c.table ≡ streams source (some (kept (pipe_write k))) t
          → Spawned t
              (some (kept (pipe_read k)))
              (some r)
              (suc k)
              world''
              (cmd' ∷ cmds)
              (before ++ c ∷ [])
              result
          → Spawned t source prev k world (cmd ∷ cmd' ∷ cmds) before result
      unfolding Spawned Stages Stopped
      Spawned-cons prev k r w world world' world'' before c (false, s) p f e g i rest =
          inr (r, w, world', p, inr (c, world'', f, e, g, i, rest))
      Spawned-cons prev k r w world world' world'' before c (true, s) p f e g i
            (cs, joined, stages, same) =
          (c ∷ cs, joined ∙ append_assoc before (c ∷ []) cs, (e, g, i, stages), same)

      -- what the stages behind a stage do, from any state that the stage may leave
      abbrev Continues : ℕ → Type 0
      Continues k =
          (s : Spawning W)
          → s.pipes ≡ suc k
          → Held t (some (kept (pipe_read k))) s.prev_read s.table
          → From t (some (kept (pipe_read k))) (cmd' ∷ cmds) s (spawn_loop sys (cmd' ∷ cmds) s)

      forked-Spawned :
          (s : Spawning W) (r w : ℕ) (world : W) (forking : Option ℕ × W)
          → Continues s.pipes
          → Held t source s.prev_read s.table
          → sys.pipe (held s.prev_read source t) s.world ≡ (some (r, w), world)
          → s.table r ≡ none
          → s.table w ≡ none
          → r ≢ w
          → sys.fork world ≡ forking
          → let (more, s') = forked cmd (some (r, w)) (with_pipe r w world s) forking in
            From t source
              (cmd ∷ cmd' ∷ cmds)
              s
              (if more then spawn_loop sys (cmd' ∷ cmds) s' else (false, s'))
      unfolding forked with_pipe Held read_end
      forked-Spawned s r w world (none, world') go h p hr hw n e =
          unfold Spawned in
          unfold Stopped in
          inr (
            r,
            w,
            world,
            p,
            inl (
              e,
              refl,
              ap (both t streams_open r w (pipe_read s.pipes) (pipe_write s.pipes))
                  (Held-held t source s.prev_read s.table h),
            ),
          )
      forked-Spawned s r w world (some pid, world') go h p hr hw n e =
          Spawned-cons s.prev_read s.pipes r w s.world world world' s.children _ _ p e refl refl
            (piped_table t streams_open r w (pipe_read s.pipes) (pipe_write s.pipes) source
              s.prev_read s.table h hr hw n)
            (go _ refl (
              new_in_start t streams_open source s.prev_read s.table r h hr,
              (
                pipe_read s.pipes,
                refl,
                piped_parent t streams_open r w (pipe_read s.pipes) (pipe_write s.pipes) source
                    s.prev_read s.table h hr hw n,
              ),
            ))

      piped-Spawned :
          (s : Spawning W) (opened : PipeFd × W)
          → Continues s.pipes
          → Held t source s.prev_read s.table
          → sys.pipe s.table s.world ≡ opened
          → let (more, s') = piped sys cmd s opened in
            From t source
              (cmd ∷ cmd' ∷ cmds)
              s
              (if more then spawn_loop sys (cmd' ∷ cmds) s' else (false, s'))
      unfolding piped
      piped-Spawned s (none, world) go h e =
          let same = Held-held t source s.prev_read s.table h in
          unfold Spawned in
          unfold Stopped in inl (subst (λ x. sys.pipe x s.world ≡ (none, world)) same e, refl, same)
      piped-Spawned s (some (r, w), world) go h e =
          let (hr, hw, n) = new s.table s.world r w world e in
          let same = Held-held t source s.prev_read s.table h in
          forked-Spawned s r w world (sys.fork world) go h
            (subst (λ x. sys.pipe x s.world ≡ (some (r, w), world)) same e) hr hw n refl

    spawn_loop-Spawned :
        (cmd : Command) (cmds : List Command) (source : Option Entry) (s : Spawning W)
        → Held t source s.prev_read s.table
        → From t source (cmd ∷ cmds) s (spawn_loop sys (cmd ∷ cmds) s)
    unfolding spawn_loop stage is_last
    spawn_loop-Spawned cmd [] source s h = last-Spawned source cmd s (sys.fork s.world) h refl
    spawn_loop-Spawned cmd (cmd' ∷ cmds) source s h =
        piped-Spawned source cmd cmd' cmds s (sys.pipe s.table s.world)
          (λ s' e h'. spawn_loop-Spawned cmd' cmds (some (kept (pipe_read s.pipes))) s' h') h refl

    -- what `spawn_pipeline` returns and leaves, where the kernel's state was `world`
    abbrev pub Outcome : ℕ → W → List Command → ℤ → Spawning W → Type 0
    Outcome pipes world cmds code s =
        ((code ≡ pos (length cmds)) × Stages t (t 0) pipes [] cmds s.children × (s.table ≡ t))
        ⊎ ((code ≡ negsuc 0) × Stopped t (t 0) none pipes world [] cmds s)

    code_of-Outcome :
        (pipes : ℕ) (world : W) (cmds : List Command) (result : Bool × Spawning W)
        → Spawned t (t 0) none pipes world cmds [] result
        → let (code, s) = code_of (length cmds) result in Outcome pipes world cmds code s
    unfolding code_of Spawned
    code_of-Outcome pipes world cmds (false, s) r = inr (refl, r)
    code_of-Outcome pipes world cmds (true, s) (cs, e, stages, same) = inl (refl, rw e stages, same)

    pub spawn_pipeline-Stages :
        (cmd : Command) (cmds : List Command) (pipes : ℕ) (world : W)
        → let (code, s) = spawn_pipeline sys (cmd ∷ cmds) t pipes world in
          Outcome pipes world (cmd ∷ cmds) code s
    unfolding spawn_pipeline Held
    spawn_pipeline-Stages cmd cmds pipes world =
        code_of-Outcome pipes world (cmd ∷ cmds) _
          (spawn_loop-Spawned cmd cmds (t 0) (starting t pipes world) (refl, refl))
