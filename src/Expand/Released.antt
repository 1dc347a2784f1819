-- ===== src/Expand/Released.antt =====
-- `free_expansions` frees what expansion allocated: each block once, and no other.
use mathlib.Core.Option
use mathlib.Core.Option.{Option, none, some}
use unix_shell.Base.{ℕ, ◌+◌, ◌≡◌, refl, ap, ap₂, ◌∙◌, List, [], ◌∷◌, map, arith, suc, length, All}
use unix_shell.Base.Int.{ℤ}
use unix_shell.Cstring.{Text}
use unix_shell.Parser.{Command}
use unix_shell.Expand.{System, expand_args, expand_file, expand_command}
use unix_shell.Expand.Memory.{
  Heap, Block, Pointer, HeapCommand, and_then, heap_args, heap_file, heap_output, heap_files,
  heap_command, heap_pipeline, freed_command, nulls, free_commands, free_expansions,
}
use unix_shell.Expand.Freed.{
  count, points_at, owned, owned_by, owned_by_all, Freed, Freed-free_commands,
}
use unix_shell.Expand.Owned.{text_of, Builds, Built, heap_args-Built, Made, heap_file-Made}

-- there is a result, and it has the property
Returns : {A : Type 0} → (A → Heap → Type 0) → Option (A × Heap) → Type 0
Returns P none = ⊥
Returns P (some (a, h)) = P a h

Returns-and_then :
    {A B : Type 0} (P : A → Heap → Type 0) (Q : B → Heap → Type 0)
    (f : A → Heap → Option (B × Heap)) (r : Option (A × Heap))
    → ((a : A) (h : Heap) → P a h → Returns Q (f a h))
    → Returns P r
    → Returns Q (and_then f r)
unfolding and_then Returns
Returns-and_then P Q f none k p = p
Returns-and_then P Q f (some (a, h)) k p = k a h p

-- the texts of a command on the heap
abbrev pub strings : HeapCommand → List (Option Text) × (Option Text × Option Text)
strings c = (
  map (Option.map text_of) c.args,
  (Option.map text_of c.input_file, Option.map text_of c.output_file),
)

-- those of an expanded command
abbrev pub expanded_strings : Command → List (Option Text) × (Option Text × Option Text)
expanded_strings cmd = (map some cmd.args, (cmd.input_file, cmd.output_file))

map-some : (bs : List Block) → map (Option.map text_of) (map some bs) ≡ map some (map text_of bs)
map-some [] = refl
map-some (b ∷ bs) = ap (◌∷◌ (some b.text)) (map-some bs)

-- the heap behind: the blocks before, and those of the command
abbrev Gains : (ℕ → ℕ) → Heap → Heap → Type 0
Gains owns h h' = (n : ℕ) → count n h'.live ≡ count n h.live + owns n

Returns-Built :
    (new : List Block) (h : Heap) (texts : List Text) (r : Option (List Block × Heap))
    → Built new h texts r
    → Returns (λ bs h'. Builds new h texts (bs, h')) r
unfolding Built Returns
Returns-Built new h texts none b = b
Returns-Built new h texts (some (bs, h')) b = b

Returns-Made :
    (sys : System) (last_status : ℤ) (h : Heap) (text : Option Text) (r : Option (Pointer × Heap))
    → Made sys last_status h text r
    → Returns (λ p h'. (Option.map text_of p ≡ text) × Gains (λ n. points_at n p) h h') r
unfolding Made Returns
Returns-Made sys last_status h text none m = m
Returns-Made sys last_status h text (some (p, h')) m = m

-- every pointer of the command is NULL
abbrev pub AllNull : HeapCommand → Type 0
AllNull c = All (λ p. p ≡ none) c.args × (c.input_file ≡ none) × (c.output_file ≡ none)

abbrev pub arg_count : HeapCommand → ℕ
arg_count c = length c.args

nulls-All : (ps : List Pointer) → All (λ p. p ≡ none) (nulls ps) × (length (nulls ps) ≡ length ps)
nulls-All [] = (tt, refl)
nulls-All (p ∷ ps) = let (all, same) = nulls-All ps in ((refl, all), ap suc same)

freed_command-AllNull : (cs : List HeapCommand) → All AllNull (map freed_command cs)
freed_command-AllNull [] = tt
freed_command-AllNull (c ∷ cs) = (((nulls-All c.args).0, refl, refl), freed_command-AllNull cs)

freed_command-arg_count :
    (cs : List HeapCommand) → map arg_count (map freed_command cs) ≡ map arg_count cs
freed_command-arg_count [] = refl
freed_command-arg_count (c ∷ cs) = ap₂ ◌∷◌ (nulls-All c.args).1 (freed_command-arg_count cs)

module _ (sys : System) (last_status : ℤ) where
  Makes : Command → Heap → HeapCommand → Heap → Type 0
  Makes cmd h c h' =
      (strings c ≡ expanded_strings (expand_command sys last_status cmd))
      × Gains (λ n. owned_by n c) h h'

  -- a pointer to the expansion of a file's name
  Names : Option Text → Heap → Pointer → Heap → Type 0
  Names file h p h' =
      (Option.map text_of p ≡ expand_file sys last_status file) × Gains (λ n. points_at n p) h h'

  heap_file-Names :
      (file : Option Text) (h : Heap) → Returns (Names file h) (heap_file sys last_status file h)
  unfolding Names
  heap_file-Names file h =
      Returns-Made sys last_status h (expand_file sys last_status file)
        (heap_file sys last_status file h) (heap_file-Made sys last_status file h)

  module _ (cmd : Command) (h : Heap) where
    -- the arguments, where the two files are still to be expanded
    abbrev HasArgs : List Block → Heap → Type 0
    HasArgs bs h1 = Builds [] h (expand_args sys last_status [] cmd.args) (bs, h1)

    heap_output-Makes :
        (args : List Block) (input : Pointer) (h1 h2 : Heap)
        → HasArgs args h1
        → Names cmd.input_file h1 input h2
        → Returns (Makes cmd h) (heap_output sys last_status cmd args input h2)
    unfolding heap_output
    heap_output-Makes args input h1 h2 a i =
        Returns-and_then (Names cmd.output_file h2) (Makes cmd h) _
          (heap_file sys last_status cmd.output_file h2)
          (λ output h3 o.
            unfold Returns Makes Names Builds expand_command owned owned_by in
            (
              ap₂ (λ x y. (x, y)) (map-some args ∙ ap (map some) a.0) (ap₂ (λ x y. (x, y)) i.0 o.0),
              λ n. omega (arith, (a.2 n).0, (a.2 n).1, i.1 n, o.1 n),
            ))
          (heap_file-Names cmd.output_file h2)

    heap_files-Makes :
        (args : List Block) (h1 : Heap)
        → HasArgs args h1
        → Returns (Makes cmd h) (heap_files sys last_status cmd args h1)
    unfolding heap_files
    heap_files-Makes args h1 a =
        Returns-and_then (Names cmd.input_file h1) (Makes cmd h)
          (heap_output sys last_status cmd args) (heap_file sys last_status cmd.input_file h1)
          (λ input h2 i. heap_output-Makes args input h1 h2 a i) (heap_file-Names cmd.input_file h1)

    heap_command-Makes : Returns (Makes cmd h) (heap_command sys last_status cmd h)
    unfolding heap_command
    heap_command-Makes =
        Returns-and_then HasArgs (Makes cmd h) (heap_files sys last_status cmd)
          (heap_args sys last_status cmd.args [] h) heap_files-Makes
          (Returns-Built [] h _ _ (heap_args-Built sys last_status cmd.args [] h))

  MakesAll : List Command → Heap → List HeapCommand → Heap → Type 0
  MakesAll cmds h cs h' =
      (map strings cs ≡ map (λ cmd. expanded_strings (expand_command sys last_status cmd)) cmds)
      × Gains (λ n. owned_by_all n cs) h h'

  heap_pipeline-Makes :
      (cmds : List Command) (h : Heap)
      → Returns (MakesAll cmds h) (heap_pipeline sys last_status cmds h)
  unfolding heap_pipeline
  heap_pipeline-Makes [] h = unfold Returns MakesAll owned_by_all in (refl, λ n. omega arith)
  heap_pipeline-Makes (cmd ∷ cmds) h =
      Returns-and_then (Makes cmd h) (MakesAll (cmd ∷ cmds) h) _
        (heap_command sys last_status cmd h)
        (λ c h1 m.
          Returns-and_then (MakesAll cmds h1) (MakesAll (cmd ∷ cmds) h) (λ cs h2. some (c ∷ cs, h2))
            (heap_pipeline sys last_status cmds h1)
            (λ cs h2 ms.
              unfold Returns MakesAll Makes owned_by_all in
              (ap₂ ◌∷◌ m.0 ms.0, λ n. omega (arith, m.1 n, ms.1 n)))
            (heap_pipeline-Makes cmds h1))
        (heap_command-Makes cmd h)

  -- What expansion and `free_expansions` leave of the heap `h`: the commands, as many as before and
  -- with as many arguments, hold no pointer but NULL.
  abbrev pub IsReleased : List Command → Heap → List HeapCommand → Heap → Heap → Type 0
  IsReleased cmds h cs h1 h2 =
      (map strings cs ≡ map (λ cmd. expanded_strings (expand_command sys last_status cmd)) cmds)
      × ((cs' : List HeapCommand) × (free_expansions cs h1 ≡ some (cs', h2))
          × All AllNull cs'
          × (map arg_count cs' ≡ map arg_count cs))
      × ((n : ℕ) → count n h2.live ≡ count n h.live)

  made-IsReleased :
      (cmds : List Command) (h : Heap) (cs : List HeapCommand) (h1 : Heap) (freed : Option Heap)
      → free_commands cs h1 ≡ freed
      → map strings cs ≡ map (λ cmd. expanded_strings (expand_command sys last_status cmd)) cmds
      → Freed (λ n. count n h.live) freed
      → (h2 : Heap) × IsReleased cmds h cs h1 h2
  unfolding free_expansions Freed
  made-IsReleased cmds h cs h1 none e same f = absurd f
  made-IsReleased cmds h cs h1 (some h2) e same f = (
    h2,
    (
      same,
      (map freed_command cs, rw e refl, freed_command-AllNull cs, freed_command-arg_count cs),
      f,
    ),
  )

  heap_pipeline-IsReleased :
      (cmds : List Command) (h : Heap) (made : Option (List HeapCommand × Heap))
      → heap_pipeline sys last_status cmds h ≡ made
      → Returns (MakesAll cmds h) made
      → (cs : List HeapCommand) × (h1 : Heap) × (h2 : Heap) × (heap_pipeline sys last_status cmds h
          ≡ some (cs, h1))
        × IsReleased cmds h cs h1 h2
  unfolding Returns MakesAll
  heap_pipeline-IsReleased cmds h none e m = absurd m
  heap_pipeline-IsReleased cmds h (some (cs, h1)) e (same, gains) =
      let (h2, r) =
        made-IsReleased cmds h cs h1 (free_commands cs h1) refl same
          (Freed-free_commands cs (λ n. count n h.live) h1 gains) in
      (cs, h1, h2, e, r)

  -- Expansion on the heap returns the strings that Expand says and frees no block that is not
  -- allocated; `free_expansions` behind it frees no block that is not allocated, keeps the number of
  -- the commands and of the arguments of each, makes every pointer in them NULL, and leaves each block allocated exactly as often as it was before the expansion.
  pub heap_pipeline-free_expansions :
      (cmds : List Command) (h : Heap)
      → (cs : List HeapCommand) × (h1 : Heap) × (h2 : Heap) × (heap_pipeline sys last_status cmds h
          ≡ some (cs, h1))
        × IsReleased cmds h cs h1 h2
  heap_pipeline-free_expansions cmds h =
      heap_pipeline-IsReleased cmds h _ refl (heap_pipeline-Makes cmds h)
