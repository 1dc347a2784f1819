-- ===== src/Expand/Memory.antt =====
-- expand.c: expansion on the heap, and `free_expansions`. The strings are those of Expand; here each
-- has the block that it was allocated in. Blocks are numbered as they are allocated.
use mathlib.Core.Option
use mathlib.Core.Option.{Option, none, some}
use unix_shell.Base.{ℕ, suc, ◌-◌, List, [], ◌∷◌, ◌++◌, ltb, ◌==◌, if◌then◌else◌, length, map}
use unix_shell.Base.Int.{ℤ}
use unix_shell.Cstring.{Text}
use unix_shell.Parser.{Command, max_args}
use unix_shell.Expand.{System, has_glob, expanded}

-- the number of the next block, and the blocks that are allocated
pub record Heap : Type 0 where
  pub next : ℕ
  pub live : List ℕ

-- a `char *` into the heap, with its string; NULL is `none`
pub record Block : Type 0 where
  pub number : ℕ
  pub text : Text

abbrev pub Pointer : Type 0
Pointer = Option Block

abbrev pub malloc : Text → Heap → Block × Heap
malloc s h =
    (record { number = h.next; text = s }, record { next = suc h.next; live = h.next ∷ h.live })

unfoldable pub remove : ℕ → List ℕ → Option (List ℕ)
remove n [] = none
remove n (x ∷ xs) = if x == n then some xs else Option.map (◌∷◌ x) (remove n xs)

-- `none` where the block is not allocated: freed twice, or never allocated
unfoldable pub free : Pointer → Heap → Option Heap
unfolding remove
free none h = some h
free (some b) h = Option.map (λ live. record h { live = live }) (remove b.number h.live)

-- `command_t` with its pointers into the heap
pub record HeapCommand : Type 0 where
  pub args : List Pointer
  pub input_file : Pointer
  pub output_file : Pointer

unfoldable pub and_then :
    {A B : Type 0} → (A → Heap → Option (B × Heap)) → Option (A × Heap) → Option (B × Heap)
and_then f none = none
and_then f (some (a, h)) = f a h

abbrev pub with_heap : {A : Type 0} → A → Option Heap → Option (A × Heap)
with_heap a = Option.map (λ h. (a, h))

-- the loop over the matches of a pattern, on `new_args` so far
unfoldable pub heap_matches : List Text → List Block → Heap → List Block × Heap
heap_matches [] new h = (new, h)
heap_matches (path ∷ paths) new h =
    let (b, h') = malloc path h in
    let rest = heap_matches paths (new ++ b ∷ []) h' in
    if ltb (length new) (max_args - 1) then rest else (new, h)

module _ (sys : System) (last_status : ℤ) where
  open sys use {glob}

  unfoldable pub first_on_heap : Block → Heap → Option (List Text) → Option (Pointer × Heap)
  unfolding free
  first_on_heap v h (some (path ∷ paths)) =
      let (first, h') = malloc path h in with_heap (some first) (free (some v) h')
  first_on_heap v h _ = some (some v, h)

  unfoldable pub heap_word : Option Text → Heap → Option (Pointer × Heap)
  unfolding first_on_heap has_glob
  heap_word none h = some (none, h)
  heap_word (some v) h =
      let (b, h') = malloc v h in
      if has_glob v then first_on_heap b h' (glob v) else some (some b, h')

  unfoldable pub heap_globbed :
      List Block → Block → Heap → Option (List Text) → Option (List Block × Heap)
  unfolding heap_matches free
  heap_globbed new word h none = some (new ++ word ∷ [], h)
  heap_globbed new word h (some paths) =
      let (new', h') = heap_matches paths new h in with_heap new' (free (some word) h')

  unfoldable pub heap_arg : List Block → Option Text → Heap → Option (List Block × Heap)
  unfolding heap_globbed has_glob
  heap_arg new none h = some (new, h)
  heap_arg new (some word) h =
      let (b, h') = malloc word h in
      if has_glob word then heap_globbed new b h' (glob word) else some (new ++ b ∷ [], h')

  unfoldable pub heap_args : List Text → List Block → Heap → Option (List Block × Heap)
  unfolding heap_arg and_then
  heap_args [] new h = some (new, h)
  heap_args (arg ∷ args) new h =
      let rest = and_then (heap_args args) (heap_arg new (expanded sys last_status arg) h) in
      if ltb (length new) (max_args - 1) then rest else some (new, h)

  unfoldable pub heap_file : Option Text → Heap → Option (Pointer × Heap)
  unfolding heap_word
  heap_file none h = some (none, h)
  heap_file (some file) h = heap_word (expanded sys last_status file) h

  unfoldable pub heap_output : Command → List Block → Pointer → Heap → Option (HeapCommand × Heap)
  unfolding heap_file and_then
  heap_output cmd args input h =
      and_then
        (λ output h'.
          some (record { args = map some args; input_file = input; output_file = output }, h'))
        (heap_file cmd.output_file h)

  unfoldable pub heap_files : Command → List Block → Heap → Option (HeapCommand × Heap)
  unfolding heap_file heap_output and_then
  heap_files cmd args h = and_then (heap_output cmd args) (heap_file cmd.input_file h)

  -- one round of the loop over the commands
  unfoldable pub heap_command : Command → Heap → Option (HeapCommand × Heap)
  unfolding heap_args heap_files and_then
  heap_command cmd h = and_then (heap_files cmd) (heap_args cmd.args [] h)

  unfoldable pub heap_pipeline : List Command → Heap → Option (List HeapCommand × Heap)
  unfolding heap_command and_then
  heap_pipeline [] h = some ([], h)
  heap_pipeline (cmd ∷ cmds) h =
      and_then (λ c h1. and_then (λ cs h2. some (c ∷ cs, h2)) (heap_pipeline cmds h1))
        (heap_command cmd h)

abbrev pub nulls : List Pointer → List Pointer
nulls [] = []
nulls (_ ∷ ps) = none ∷ nulls ps

unfoldable pub then_heap : (Heap → Option Heap) → Option Heap → Option Heap
then_heap f none = none
then_heap f (some h) = f h

unfoldable pub free_args : List Pointer → Heap → Option Heap
unfolding free then_heap
free_args [] h = some h
free_args (p ∷ ps) h = then_heap (free_args ps) (free p h)

unfoldable pub free_command : HeapCommand → Heap → Option Heap
unfolding free_args free then_heap
free_command cmd h =
    then_heap (free cmd.output_file) (then_heap (free cmd.input_file) (free_args cmd.args h))

unfoldable pub free_commands : List HeapCommand → Heap → Option Heap
unfolding free_command then_heap
free_commands [] h = some h
free_commands (cmd ∷ cmds) h = then_heap (free_commands cmds) (free_command cmd h)

-- what is left of a command: its pointers are NULL
abbrev pub freed_command : HeapCommand → HeapCommand
freed_command cmd = record { args = nulls cmd.args; input_file = none; output_file = none }

unfoldable pub free_expansions : List HeapCommand → Heap → Option (List HeapCommand × Heap)
unfolding free_commands
free_expansions cmds h = with_heap (map freed_command cmds) (free_commands cmds h)
