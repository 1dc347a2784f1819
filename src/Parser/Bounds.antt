-- ===== src/Parser/Bounds.antt =====
-- The sizes and shapes of what the parser returns.
use unix_shell.Base.{
  ℕ, zero, suc, ◌-◌, ◌≤◌, ◌≡◌, refl, sym, ◌∙◌, List, [], ◌∷◌, Option, none, some, arith, length,
  All,
}
use unix_shell.Base.Int.{negsuc}
use unix_shell.Cstring.{Text}
use unix_shell.Cstring.Words.{words, words-IsWord, IsWord}
use unix_shell.Parser.{
  Command, argc, max_args, token_delimiters, done, parse_command, SyntaxError, empty_command,
}
use unix_shell.Parser.Grammar.{
  Item, argument, Kind, plain, background_mark, kind, group, last_item, items, upto, arguments,
  extend, read_items, outcome,
}
use unix_shell.Parser.Meaning.{parse_command-read_onto}

-- a word of the line that is no operator
abbrev pub IsArgument : Text → Type 0
IsArgument w = IsWord token_delimiters w × (kind w ≡ plain)

length-arguments-upto : (n : ℕ) (is : List Item) → length (arguments (upto n is)) ≤ n
unfolding arguments upto
length-arguments-upto zero is = omega arith
length-arguments-upto (suc n) [] = omega arith
length-arguments-upto (suc n) (argument w ∷ is) = omega (arith, length-arguments-upto n is)
length-arguments-upto (suc n) (_ ∷ is) = length-arguments-upto (suc n) is

All-arguments-upto :
    (P : Text → Type 0) (n : ℕ) (is : List Item)
    → All P (arguments is)
    → All P (arguments (upto n is))
unfolding arguments upto
All-arguments-upto P zero is h = tt
All-arguments-upto P (suc n) [] h = tt
All-arguments-upto P (suc n) (argument w ∷ is) h = (h.0, All-arguments-upto P n is h.1)
All-arguments-upto P (suc n) (_ ∷ is) h = All-arguments-upto P (suc n) is h

AllArguments : List Item → Type 0
AllArguments is = All IsArgument (arguments is)

last_item_IsArgument :
    (q : Kind) (w : Text)
    → kind w ≡ q
    → IsWord token_delimiters w
    → AllArguments (last_item q w ∷ [])
unfolding AllArguments arguments
last_item_IsArgument plain w e h = ((h, e), tt)
last_item_IsArgument _ w e h = tt

group_IsArgument :
    (q : Kind) (w v : Text) (rest behind : List Item)
    → kind w ≡ q
    → IsWord token_delimiters w
    → AllArguments rest
    → AllArguments behind
    → AllArguments (group q w v rest behind)
unfolding AllArguments arguments
group_IsArgument plain w v rest behind e h hr hb = ((h, e), hr)
group_IsArgument background_mark w v rest behind e h hr hb = hr
group_IsArgument _ w v rest behind e h hr hb = hb

items_IsArgument : (ws : List Text) → All (IsWord token_delimiters) ws → AllArguments (items ws)
unfolding items
items_IsArgument [] h = unfold AllArguments arguments in tt
items_IsArgument (w ∷ []) h = last_item_IsArgument (kind w) w refl h.0
items_IsArgument (w ∷ v ∷ ws) h =
    group_IsArgument (kind w) w v _ _ refl h.0 (items_IsArgument (v ∷ ws) h.1)
      (items_IsArgument ws h.1.1)

-- what the executor relies on
pub record IsBounded (cmd : Command) : Type 0 where
  pub fits : argc cmd ≤ max_args - 1
  pub clean : All IsArgument cmd.args
  pub no_fd : cmd.heredoc_fd ≡ negsuc 0

outcome-done :
    (e : Option SyntaxError) (cmd : Command) {c : Command} → outcome e cmd ≡ done c → cmd ≡ c
outcome-done none cmd h = ground arith
outcome-done (some e) cmd h = cc

extend-IsBounded : (segment : Text) → IsBounded (extend empty_command (read_items segment))
unfolding read_items AllArguments
extend-IsBounded segment = record {
  fits = length-arguments-upto 63 (items (words token_delimiters segment));
  clean =
      All-arguments-upto IsArgument 63 _
        (items_IsArgument _ (words-IsWord token_delimiters segment));
  no_fd = refl;
}

-- A parsed command has at most 63 arguments, which leaves room for the NULL of `args`; each is a
-- nonempty word with no delimiter in it and no operator; the command has no here-document open.
pub parse_command-IsBounded :
    (segment : Text) {cmd : Command} → parse_command segment ≡ done cmd → IsBounded cmd
parse_command-IsBounded segment h =
    rw (outcome-done _ _ (sym (parse_command-read_onto segment) ∙ h)) at (extend-IsBounded segment)
