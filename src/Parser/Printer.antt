-- ===== src/Parser/Printer.antt =====
-- Writing a command as a line that the parser reads back: the redirections first, so that they
-- stand before the 63rd argument.
use unix_shell.Base.{
  ◌-◌, ◌≤◌, ◌<◌, ◌≡◌, Bool, true, false, List, [], ◌∷◌, ◌++◌, Option, none, some, All,
}
use unix_shell.Base.Int.{negsuc}
use unix_shell.Cstring.{Text, codes, elem}
use unix_shell.Cstring.Words.{IsWord, separated}
use unix_shell.Parser.{Command, argc, max_args, token_delimiters, pipe_delimiter}
use unix_shell.Parser.Bounds.{IsArgument}

-- an operator with its operand
abbrev pub operand_words : Text → Option Text → List Text
operand_words operator none = []
operand_words operator (some w) = operator ∷ w ∷ []

abbrev pub output_operator : Bool → Text
output_operator true = codes ">>"
output_operator false = codes ">"

abbrev pub mark_words : Bool → List Text
mark_words true = codes "&" ∷ []
mark_words false = []

unfoldable pub command_words : Command → List Text
command_words cmd =
    mark_words cmd.background
    ++ (operand_words (codes "<") cmd.input_file
        ++ (operand_words (output_operator cmd.append_mode) cmd.output_file
            ++ (operand_words (codes "<<") cmd.heredoc_delim ++ cmd.args)))

unfoldable pub print_command : Command → Text
print_command cmd = separated b' ' (command_words cmd)

-- the commands with `|` between them
unfoldable pub print_commands : List Command → Text
print_commands [] = []
print_commands (cmd ∷ []) = print_command cmd
print_commands (cmd ∷ next ∷ cmds) = print_command cmd ++ b'|' ∷ print_commands (next ∷ cmds)

abbrev pub OptionAll : (Text → Type 0) → Option Text → Type 0
OptionAll P none = Unit {0}
OptionAll P (some w) = P w

-- A word with no `|` in it, which ends a segment wherever it stands.
abbrev pub IsPlainWord : Text → Type 0
IsPlainWord w = IsWord token_delimiters w × All (λ x. elem x pipe_delimiter ≡ false) w

-- The commands that a line can express.
pub record IsPrintable (cmd : Command) : Type 0 where
  pub fits : argc cmd ≤ max_args - 1
  pub nonempty : 0 < argc cmd
  pub arguments : All IsArgument cmd.args
  pub words : All IsPlainWord (command_words cmd)
  pub append : cmd.output_file ≡ none → cmd.append_mode ≡ false
  pub no_fd : cmd.heredoc_fd ≡ negsuc 0
