-- ===== src/Parser/Grammar.antt =====
-- What a segment means, said without the loop: its words are grouped into items, the items are
-- read up to the 63rd argument, and each field of the command is looked up in them.
use mathlib.Core.Option
use mathlib.Core.Option.{Option}
use unix_shell.Base.{
  ℕ, zero, suc, ◌-◌, Bool, true, false, ◌||◌, List, [], ◌∷◌, ◌++◌, none, some, if◌then◌else◌,
}
use unix_shell.Cstring.{Text, codes, equal}
use unix_shell.Cstring.Words.{words}
use unix_shell.Parser.{
  Command, SyntaxError, expected_delimiter, expected_filename, Parsed, done, syntax_error, max_args,
  token_delimiters, is_redirection,
}

-- The parts of a command line. An operator stands with its operand; `dangling` has none.
pub data Item : Type 0 where
  argument : Text → Item
  ampersand : Item
  here_document : Text → Item
  redirection : Text → Text → Item
  dangling : SyntaxError → Item

pub data Kind : Type 0 where
  plain background_mark heredoc_mark redirection_mark : Kind

unfoldable pub kind : Text → Kind
kind w =
    if equal w (codes "&")
    then background_mark
    else if equal w (codes "<<")
    then heredoc_mark
    else if is_redirection w
    then redirection_mark
    else plain

-- a last word
abbrev pub last_item : Kind → Text → Item
last_item plain w = argument w
last_item background_mark w = ampersand
last_item heredoc_mark w = dangling expected_delimiter
last_item redirection_mark w = dangling (expected_filename w)

-- a word with `v` behind it; the items of `v` and what follows, and of what follows `v`
abbrev pub group : Kind → Text → Text → List Item → List Item → List Item
group plain w v rest behind = argument w ∷ rest
group background_mark w v rest behind = ampersand ∷ rest
group heredoc_mark w v rest behind = here_document v ∷ behind
group redirection_mark w v rest behind = redirection w v ∷ behind

unfoldable pub items : List Text → List Item
items [] = []
items (w ∷ []) = last_item (kind w) w ∷ []
items (w ∷ v ∷ ws) = group (kind w) w v (items (v ∷ ws)) (items ws)

-- The items that the parser reads: all up to the `n`th argument.
unfoldable pub upto : ℕ → List Item → List Item
upto zero is = []
upto (suc n) [] = []
upto (suc n) (argument w ∷ is) = argument w ∷ upto n is
upto (suc n) (i ∷ is) = i ∷ upto (suc n) is

-- the first operator with no operand
unfoldable pub first_error : List Item → Option SyntaxError
first_error [] = none
first_error (dangling e ∷ is) = some e
first_error (_ ∷ is) = first_error is

unfoldable pub arguments : List Item → List Text
arguments [] = []
arguments (argument w ∷ is) = w ∷ arguments is
arguments (_ ∷ is) = arguments is

unfoldable pub has_ampersand : List Item → Bool
has_ampersand [] = false
has_ampersand (ampersand ∷ is) = true
has_ampersand (_ ∷ is) = has_ampersand is

-- The last value that `f` finds in the items, or else `d`: of several redirections the last counts.
unfoldable pub latest {ℓ} : {A : Type ℓ} → (Item → Option A) → A → List Item → A
latest f d [] = d
latest f d (i ∷ is) = latest f (Option.get_or (f i) d) is

abbrev pub input_of : Item → Option (Option Text)
input_of (redirection op w) = if equal op (codes "<") then some (some w) else none
input_of _ = none

-- the target, and whether it is appended to
abbrev pub output_of : Item → Option (Option Text × Bool)
output_of (redirection op w) =
    if equal op (codes "<") then none else some (some w, equal op (codes ">>"))
output_of _ = none

abbrev pub delimiter_of : Item → Option (Option Text)
delimiter_of (here_document w) = some (some w)
delimiter_of _ = none

-- the items' own meaning, on top of a command
abbrev pub extend : Command → List Item → Command
extend cmd is = record {
  args = cmd.args ++ arguments is;
  input_file = latest input_of cmd.input_file is;
  output_file = (latest output_of (cmd.output_file, cmd.append_mode) is).0;
  append_mode = (latest output_of (cmd.output_file, cmd.append_mode) is).1;
  background = cmd.background || has_ampersand is;
  heredoc_delim = latest delimiter_of cmd.heredoc_delim is;
  heredoc_fd = cmd.heredoc_fd;
}

abbrev pub outcome : Option SyntaxError → Command → Parsed Command
outcome none cmd = done cmd
outcome (some e) cmd = syntax_error e

-- what a segment with these items parses to
abbrev pub read_onto : Command → List Item → Parsed Command
read_onto cmd is = outcome (first_error is) (extend cmd is)

-- the items of a segment that the parser gets to see
unfoldable pub read_items : Text → List Item
read_items segment = upto (max_args - 1) (items (words token_delimiters segment))
