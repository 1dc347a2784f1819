-- ===== src/Parser/Tests.antt =====
-- Lines parsed by evaluation, and the theorems about the parser at concrete lines.
use unix_shell.Base.{◌≡◌, ◌+◌, refl, true, false, length, List, [], ◌∷◌, ◌++◌, some, arith, All}
use unix_shell.Cstring.{Text, codes, elem, equal, skip, cut, strtok_r}
use unix_shell.Cstring.{c_string}
use unix_shell.Cstring.Memory.{Bytes, read, strspn, strcspn, token_from, token_to}
use unix_shell.Cstring.Memory.Tokens.{Keeps}
use unix_shell.Parser.Buffer.{BufferPipeline, empty_buffer_command, parse_pipeline_at}
use unix_shell.Parser.Buffer.Held.{AllHeld}
use unix_shell.Parser.Buffer.Refine.{
  load_parsed, parse_pipeline_at-parse_pipeline, parse_pipeline_at-Keeps,
}
use unix_shell.Parser.{
  Command, done, syntax_error, expected_delimiter, empty_command, parse_command, parse_pipeline,
  last_background, is_redirection, set_redirection,
}
use unix_shell.Parser.Grammar.{kind, read_items, read_onto}
use unix_shell.Parser.Meaning.{parse_command-read_onto}
use unix_shell.Parser.Language.{line_meaning, parse_pipeline-line_meaning}
use unix_shell.Parser.Segments.{IsPipeline, parse_pipeline-IsPipeline}
use unix_shell.Parser.Printer.{IsPrintable, command_words, print_commands}
use unix_shell.Parser.Lines.{line_of, parse_pipeline-print_commands}

abbrev plain_command : List Text → Command
plain_command args = record empty_command { args = args }

abbrev sort : Command
sort = record empty_command {
  args = codes "sort" ∷ codes "-r" ∷ [];
  input_file = some (codes "in.txt");
  output_file = some (codes "out.txt");
  append_mode = true;
}

parse_sort : parse_command (codes " sort < in.txt -r\t>> out.txt\n") ≡ done sort
unfolding parse_command strtok_r skip cut elem equal is_redirection set_redirection
parse_sort = refl

parse_dangling : parse_command (codes "cat <<") ≡ syntax_error expected_delimiter
unfolding parse_command strtok_r skip cut elem equal is_redirection set_redirection
parse_dangling = refl

abbrev ls_grep : List Command
ls_grep =
    plain_command (codes "ls" ∷ codes "src" ∷ [])
    ∷ record (plain_command (codes "grep" ∷ codes ".c" ∷ [])) { background = true }
    ∷ []

parse_ls_grep : parse_pipeline (codes "ls src | | grep .c &\n") ≡ done (line_of ls_grep)
unfolding parse_pipeline strtok_r skip cut elem equal is_redirection set_redirection last_background
parse_ls_grep = refl

-- `&&` is an argument, not an operator
parse_and :
    parse_pipeline (codes "a && b")
    ≡ done (line_of (plain_command (codes "a" ∷ codes "&&" ∷ codes "b" ∷ []) ∷ []))
unfolding parse_pipeline strtok_r skip cut elem equal is_redirection set_redirection last_background
parse_and = refl

parse_command-read_onto_example :
    parse_command (codes "sort < in.txt")
    ≡ read_onto empty_command (read_items (codes "sort < in.txt"))
parse_command-read_onto_example = parse_command-read_onto (codes "sort < in.txt")

-- an empty segment, and an operator with no operand behind it
abbrev dangling_line : Text
dangling_line = codes "ls | | sort < | wc >"

parse_pipeline-line_meaning_example : parse_pipeline dangling_line ≡ line_meaning dangling_line
parse_pipeline-line_meaning_example = parse_pipeline-line_meaning dangling_line

parse_pipeline-IsPipeline_example : IsPipeline (line_of ls_grep)
parse_pipeline-IsPipeline_example =
    parse_pipeline-IsPipeline (codes "ls src | | grep .c &\n") parse_ls_grep

sort-IsPrintable : IsPrintable sort
unfolding command_words kind equal is_redirection elem
sort-IsPrintable = ground arith

ls_grep-IsPrintable : All IsPrintable ls_grep
unfolding command_words kind equal is_redirection elem
ls_grep-IsPrintable = ground arith

parse_pipeline-print_commands_example :
    parse_pipeline (print_commands ls_grep) ≡ done (line_of ls_grep)
parse_pipeline-print_commands_example =
    parse_pipeline-print_commands ls_grep ls_grep-IsPrintable (omega arith)

-- `ls src |x\n` at the address 2, with its NUL, between other bytes
abbrev two_stages : Bytes
two_stages = b'A' ∷ 0 ∷ codes "ls src |x\n" ++ 0 ∷ b'B' ∷ 0 ∷ []

abbrev ls_x : BufferPipeline
ls_x = record {
  commands =
      record empty_buffer_command { args = 2 ∷ 5 ∷ [] }
      ∷ record empty_buffer_command { args = 10 ∷ [] }
      ∷ [];
  background = false;
}

-- the spaces, the bar and the newline are NULs behind it
abbrev tokenized : Bytes
tokenized = b'A' ∷ 0 ∷ codes "ls" ++ 0 ∷ codes "src" ++ 0 ∷ 0 ∷ codes "x" ++ 0 ∷ 0 ∷ b'B' ∷ 0 ∷ []

parse_two_stages : parse_pipeline_at two_stages 2 ≡ done (ls_x, tokenized)
unfolding parse_pipeline_at token_from token_to strspn strcspn read c_string elem equal
    is_redirection
parse_two_stages = refl

parse_pipeline_at-parse_pipeline_example :
    load_parsed (parse_pipeline_at two_stages 2) ≡ parse_pipeline (read two_stages 2)
parse_pipeline_at-parse_pipeline_example = parse_pipeline_at-parse_pipeline two_stages 2

parse_pipeline_at-Keeps_example :
    AllHeld tokenized (2 + length (read two_stages 2)) ls_x.commands
    × Keeps 2 (2 + length (read two_stages 2)) two_stages tokenized
parse_pipeline_at-Keeps_example =
    parse_pipeline_at-Keeps two_stages 2 ls_x tokenized parse_two_stages
