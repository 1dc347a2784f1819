-- ===== src/Expand/Tests.antt =====
-- Words expanded in a small process environment, and the theorems about expansion at them.
use unix_shell.Base.{List, ◌≡◌, refl, true, [], ◌∷◌, ◌++◌, none, some, if◌then◌else◌}
use unix_shell.Base.Int.{pos}
use unix_shell.Cstring.{Text, codes, elem, equal}
use unix_shell.Cstring.Format.{decimal_int}
use unix_shell.Parser.{Command, empty_command}
use unix_shell.Expand.{System, Strbuf, expand_variables, expand_command}
use unix_shell.Expand.Variables.{Expands}
use unix_shell.Expand.Total.{expand_variables_total}
use unix_shell.Expand.Words.{all_words, capped, expand_command-args}
use unix_shell.Expand.Memory.{Heap, HeapCommand, heap_pipeline}
use unix_shell.Expand.Released.{IsReleased, heap_pipeline-free_expansions}

-- a process with HOME set, in a directory with two C files
abbrev pub sys : System
sys = record {
  alloc = λ k n. true;
  getenv = λ name. if equal name (codes "HOME") then some (codes "/root") else none;
  glob =
      λ w. if equal w (codes "*.c") then some (codes "a.c" ∷ codes "b.c" ∷ []) else some (w ∷ []);
}

substituted :
    expand_variables sys (pos 130) (codes "${HOME}/x$?$UNSET$")
    ≡ some (codes "/root/x130$" ++ 0 ∷ [])
unfolding expand_variables decimal_int equal
substituted = refl

abbrev echo : Command
echo = record empty_command { args = codes "echo" ∷ codes "*.c" ∷ codes "$HOME" ∷ [] }

globbed :
    (expand_command sys (pos 0) echo).args
    ≡ codes "echo" ∷ codes "a.c" ∷ codes "b.c" ∷ codes "/root" ∷ []
unfolding expand_command decimal_int equal elem
globbed = refl

expand_variables_total_example :
    (t : Text) × Expands sys.getenv (pos 1) (codes "$?") t
    × (expand_variables sys (pos 1) (codes "$?") ≡ some (t ++ 0 ∷ []))
expand_variables_total_example = expand_variables_total sys (λ k n. refl) (pos 1) (codes "$?")

expand_command-args_example :
    (expand_command sys (pos 0) echo).args ≡ capped (all_words sys (pos 0) echo.args)
expand_command-args_example = expand_command-args sys (pos 0) echo

abbrev empty_buffer : Strbuf
empty_buffer = record { bytes = []; cap = 64; requests = 1 }

abbrev echo_to_file : Command
echo_to_file = record echo { output_file = some (codes "$HOME") }

abbrev empty_heap : Heap
empty_heap = record { next = 0; live = [] }

heap_pipeline-free_expansions_example :
    (cs : List HeapCommand) × (h1 : Heap) × (h2 : Heap) × (heap_pipeline sys
        (pos 0)
        (echo_to_file ∷ [])
        empty_heap
      ≡ some (cs, h1))
    × IsReleased sys (pos 0) (echo_to_file ∷ []) empty_heap cs h1 h2
heap_pipeline-free_expansions_example =
    heap_pipeline-free_expansions sys (pos 0) (echo_to_file ∷ []) empty_heap
