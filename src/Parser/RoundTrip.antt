-- ===== src/Parser/RoundTrip.antt =====
-- The parser reads back what the printer writes.
use unix_shell.Base.{
  ℕ, zero, suc, ◌≤◌, ◌≡◌, refl, sym, ap, ◌∙◌, Bool, true, false, List, [], ◌∷◌, ◌++◌, Option, none,
  some, arith, length, All, All-mono, map, append-nil, append_assoc,
}
use unix_shell.Base.Int.{negsuc}
use unix_shell.Cstring.{Text, codes, elem, equal}
use unix_shell.Cstring.Words.{IsWord, words-separated}
use unix_shell.Parser.{
  Command, argc, token_delimiters, done, parse_command, empty_command, is_redirection,
  set_redirection,
}
use unix_shell.Parser.Grammar.{
  Item, argument, ampersand, here_document, redirection, Kind, kind, items, upto, read_onto,
  read_items,
}
use unix_shell.Parser.Meaning.{
  parse_command-read_onto, read_onto-nil, extend-argument, extend-ampersand, extend-redirection,
  extend-here_document,
}
use unix_shell.Parser.Bounds.{IsArgument}
use unix_shell.Parser.Printer.{
  operand_words, output_operator, mark_words, command_words, print_command, IsPlainWord,
  IsPrintable,
}

-- the items of the printed words
abbrev operand_items : (Text → Item) → Option Text → List Item
operand_items f none = []
operand_items f (some w) = f w ∷ []

abbrev mark_items : Bool → List Item
mark_items true = ampersand ∷ []
mark_items false = []

items-arguments : (ws : List Text) → All IsArgument ws → items ws ≡ map argument ws
unfolding items
items-arguments [] h = refl
items-arguments (w ∷ []) h = rw (h.0.1) refl
items-arguments (w ∷ v ∷ ws) h = rw (h.0.1) (ap (◌∷◌ (argument w)) (items-arguments (v ∷ ws) h.1))

items-redirection :
    (op : Text) (f : Option Text) (ws : List Text)
    → kind op ≡ Kind.redirection_mark
    → items (operand_words op f ++ ws) ≡ operand_items (redirection op) f ++ items ws
unfolding items
items-redirection op none ws e = refl
items-redirection op (some w) ws e = rw e refl

items-here_document :
    (f : Option Text) (ws : List Text)
    → items (operand_words (codes "<<") f ++ ws) ≡ operand_items here_document f ++ items ws
unfolding items kind equal
items-here_document none ws = refl
items-here_document (some w) ws = refl

items-mark : (b : Bool) (ws : List Text) → items (mark_words b ++ ws) ≡ mark_items b ++ items ws
unfolding items kind equal
items-mark true [] = refl
items-mark true (w ∷ ws) = refl
items-mark false ws = refl

command_items : Command → List Item
command_items cmd =
    mark_items cmd.background
    ++ (operand_items (redirection (codes "<")) cmd.input_file
        ++ (operand_items (redirection (output_operator cmd.append_mode)) cmd.output_file
            ++ (operand_items here_document cmd.heredoc_delim ++ map argument cmd.args)))

kind-output_operator : (b : Bool) → kind (output_operator b) ≡ Kind.redirection_mark
unfolding kind equal is_redirection
kind-output_operator true = refl
kind-output_operator false = refl

items-command_words :
    (cmd : Command) → All IsArgument cmd.args → items (command_words cmd) ≡ command_items cmd
unfolding command_words command_items
items-command_words cmd h =
    rw
      (
        items-mark,
        items-redirection (codes "<") cmd.input_file _ (unfold kind equal is_redirection in refl),
        items-redirection (output_operator cmd.append_mode) cmd.output_file _
            (kind-output_operator cmd.append_mode),
        items-here_document,
        items-arguments cmd.args h,
      )
      refl

upto-arguments :
    (n : ℕ) (ws : List Text) → length ws ≤ n → upto n (map argument ws) ≡ map argument ws
unfolding upto
upto-arguments zero [] h = refl
upto-arguments zero (w ∷ ws) h = absurd (omega arith)
upto-arguments (suc n) [] h = refl
upto-arguments (suc n) (w ∷ ws) h = ap (◌∷◌ (argument w)) (upto-arguments n ws (omega arith))

upto-mark :
    (n : ℕ) (b : Bool) (is : List Item)
    → upto (suc n) (mark_items b ++ is) ≡ mark_items b ++ upto (suc n) is
unfolding upto
upto-mark n true is = refl
upto-mark n false is = refl

upto-redirection :
    (n : ℕ) (op : Text) (f : Option Text) (is : List Item)
    → upto (suc n) (operand_items (redirection op) f ++ is)
      ≡ operand_items (redirection op) f ++ upto (suc n) is
unfolding upto
upto-redirection n op none is = refl
upto-redirection n op (some w) is = refl

upto-here_document :
    (n : ℕ) (f : Option Text) (is : List Item)
    → upto (suc n) (operand_items here_document f ++ is)
      ≡ operand_items here_document f ++ upto (suc n) is
unfolding upto
upto-here_document n none is = refl
upto-here_document n (some w) is = refl

upto-command_items :
    (cmd : Command) → argc cmd ≤ 63 → upto 63 (command_items cmd) ≡ command_items cmd
unfolding command_items
upto-command_items cmd h =
    upto-mark 62 cmd.background _
    ∙ ap (◌++◌ (mark_items cmd.background)) (
        upto-redirection 62 _ cmd.input_file _
        ∙ ap (◌++◌ (operand_items (redirection _) cmd.input_file)) (
            upto-redirection 62 _ cmd.output_file _
            ∙ ap (◌++◌ (operand_items (redirection _) cmd.output_file)) (
                upto-here_document 62 cmd.heredoc_delim _
                ∙ ap (◌++◌ (operand_items here_document cmd.heredoc_delim))
                    (upto-arguments 63 cmd.args h))))

read_onto-arguments :
    (ws : List Text) (c : Command)
    → read_onto c (map argument ws) ≡ done (record c { args = c.args ++ ws })
read_onto-arguments [] c = read_onto-nil c ∙ rw append-nil refl
read_onto-arguments (w ∷ ws) c =
    extend-argument c w _
    ∙ read_onto-arguments ws (record c { args = c.args ++ w ∷ [] })
    ∙ rw append_assoc refl

read_onto-mark :
    (b : Bool) (is : List Item) (c : Command)
    → c.background ≡ false
    → read_onto c (mark_items b ++ is) ≡ read_onto (record c { background = b }) is
read_onto-mark true is c e = extend-ampersand c is
read_onto-mark false is c e = ground arith

read_onto-input :
    (f : Option Text) (is : List Item) (c : Command)
    → c.input_file ≡ none
    → read_onto c (operand_items (redirection (codes "<")) f ++ is)
      ≡ read_onto (record c { input_file = f }) is
unfolding set_redirection equal
read_onto-input (some w) is c e = extend-redirection c (codes "<") w is
read_onto-input none is c e = ground arith

read_onto-output :
    (b : Bool) (f : Option Text) (is : List Item) (c : Command)
    → c.output_file ≡ none
    → c.append_mode ≡ false
    → (f ≡ none → b ≡ false)
    → read_onto c (operand_items (redirection (output_operator b)) f ++ is)
      ≡ read_onto (record c { output_file = f; append_mode = b }) is
unfolding set_redirection equal
read_onto-output true (some w) is c e a n = extend-redirection c (codes ">>") w is
read_onto-output false (some w) is c e a n = extend-redirection c (codes ">") w is
read_onto-output b none is c e a n = ground (arith, n refl)

read_onto-here_document :
    (f : Option Text) (is : List Item) (c : Command)
    → c.heredoc_delim ≡ none
    → read_onto c (operand_items here_document f ++ is)
      ≡ read_onto (record c { heredoc_delim = f }) is
read_onto-here_document (some w) is c e = extend-here_document c w is
read_onto-here_document none is c e = ground arith

read_onto-command_items :
    (cmd : Command)
    → (cmd.output_file ≡ none → cmd.append_mode ≡ false)
    → cmd.heredoc_fd ≡ negsuc 0
    → read_onto empty_command (command_items cmd) ≡ done cmd
unfolding command_items
read_onto-command_items cmd a n =
    let marked = record empty_command { background = cmd.background } in
    let fed = record marked { input_file = cmd.input_file } in
    let sent = record fed { output_file = cmd.output_file; append_mode = cmd.append_mode } in
    let told = record sent { heredoc_delim = cmd.heredoc_delim } in
    read_onto-mark cmd.background _ empty_command refl
    ∙ read_onto-input cmd.input_file _ marked refl
    ∙ read_onto-output cmd.append_mode cmd.output_file _ fed refl refl a
    ∙ read_onto-here_document cmd.heredoc_delim _ sent refl
    ∙ read_onto-arguments cmd.args told
    ∙ ap (λ z. done (record cmd { heredoc_fd = z })) (sym n)

-- A printable command, written with its redirections first and a space behind each word, is read
-- back as it was.
pub parse_command-print_command :
    (cmd : Command) → IsPrintable cmd → parse_command (print_command cmd) ≡ done cmd
unfolding read_items print_command
parse_command-print_command cmd p =
    parse_command-read_onto (print_command cmd)
    ∙ rw
        (words-separated token_delimiters b' ' (command_words cmd) (unfold elem in refl)
          (All-mono IsPlainWord (IsWord token_delimiters) (command_words cmd) (λ w h. h.0) p.words))
        (rw (items-command_words cmd p.arguments)
          (rw (upto-command_items cmd p.fits) (read_onto-command_items cmd p.append p.no_fd)))
