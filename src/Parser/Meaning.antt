-- ===== src/Parser/Meaning.antt =====
-- `parse_command` computes the meaning of the grammar.
use unix_shell.Base.{
  ℕ, zero, suc, ◌+◌, ◌-◌, ◌<◌, ◌≡◌, refl, sym, ap, ◌∙◌, true, List, [], ◌∷◌, ◌++◌, append-nil,
  append_assoc, none, some, arith, length, length-append, lt→ltb, le→not_ltb,
}
use unix_shell.Cstring.{Text}
use unix_shell.Cstring.Words.{words, Next, strtok_r-Next}
use unix_shell.Parser.{
  Command, argc, max_args, Cursor, next_token, token_delimiters, Parsed, done, empty_command,
  set_redirection, parse_heredoc, parse_redirection, parse_token, parse_loop, parse_command,
}
use unix_shell.Parser.Grammar.{
  Item, argument, ampersand, here_document, redirection, Kind, plain, background_mark, heredoc_mark,
  redirection_mark, kind, items, upto, first_error, arguments, has_ampersand, latest, extend,
  read_onto, read_items,
}

module _ (continue : Cursor → Command → Parsed Command) (t r : Text) (cmd : Command) where
  abbrev by_kind : Kind → Parsed Command
  by_kind plain = continue (next_token r) (record cmd { args = cmd.args ++ t ∷ [] })
  by_kind background_mark = continue (next_token r) (record cmd { background = true })
  by_kind heredoc_mark = parse_heredoc continue (next_token r) cmd
  by_kind redirection_mark = parse_redirection continue t (next_token r) cmd

  parse_token-kind : parse_token continue t r cmd ≡ by_kind (kind t)
  unfolding parse_token kind
  parse_token-kind = ground arith

items-plain : (t : Text) (ws : List Text) → kind t ≡ plain → items (t ∷ ws) ≡ argument t ∷ items ws
unfolding items
items-plain t [] e = rw e refl
items-plain t (v ∷ ws) e = rw (e, items) refl

items-ampersand :
    (t : Text) (ws : List Text) → kind t ≡ background_mark → items (t ∷ ws) ≡ ampersand ∷ items ws
unfolding items
items-ampersand t [] e = rw e refl
items-ampersand t (v ∷ ws) e = rw (e, items) refl

upto-nil : (k : ℕ) → upto k [] ≡ []
unfolding upto
upto-nil zero = refl
upto-nil (suc k) = refl

extend-nil : (cmd : Command) → extend cmd [] ≡ cmd
unfolding arguments has_ampersand latest
extend-nil cmd = ground (arith, append-nil cmd.args)

pub read_onto-nil : (cmd : Command) → read_onto cmd [] ≡ done cmd
unfolding first_error
read_onto-nil cmd = ap done (extend-nil cmd)

pub extend-argument :
    (cmd : Command) (t : Text) (is : List Item)
    → read_onto cmd (argument t ∷ is) ≡ read_onto (record cmd { args = cmd.args ++ t ∷ [] }) is
unfolding arguments has_ampersand latest first_error
extend-argument cmd t is = rw (append_assoc) refl

pub extend-ampersand :
    (cmd : Command) (is : List Item)
    → read_onto cmd (ampersand ∷ is) ≡ read_onto (record cmd { background = true }) is
unfolding arguments has_ampersand latest first_error
extend-ampersand cmd is = ground arith

pub extend-here_document :
    (cmd : Command) (v : Text) (is : List Item)
    → read_onto cmd (here_document v ∷ is) ≡ read_onto (record cmd { heredoc_delim = some v }) is
unfolding arguments has_ampersand latest first_error
extend-here_document cmd v is = refl

pub extend-redirection :
    (cmd : Command) (t v : Text) (is : List Item)
    → read_onto cmd (redirection t v ∷ is) ≡ read_onto (set_redirection t v cmd) is
unfolding arguments has_ampersand latest first_error set_redirection
extend-redirection cmd t v is = ground arith

args-set_redirection : (t v : Text) (cmd : Command) → (set_redirection t v cmd).args ≡ cmd.args
unfolding set_redirection
args-set_redirection t v cmd = ground arith

-- What the rest of the segment parses to, once the continuation is right on shorter ones.
abbrev Reads : ℕ → ℕ → Text → Command → Type 0
Reads fuel k s cmd =
    argc cmd + k ≡ max_args - 1
    → parse_loop fuel (next_token s) cmd ≡ read_onto cmd (upto k (items (words token_delimiters s)))

module _ (fuel : ℕ) (s : Text)
    (rest : (k : ℕ) (r : Text) (cmd : Command) → length r < length s → Reads fuel k r cmd) where
  heredoc_reads :
      (k : ℕ) (t r : Text) (cmd : Command) (cursor : Cursor)
      → kind t ≡ heredoc_mark
      → argc cmd + suc k ≡ max_args - 1
      → length r < length s
      → Next token_delimiters r cursor
      → parse_heredoc (parse_loop fuel) cursor cmd
        ≡ read_onto cmd (upto (suc k) (items (t ∷ words token_delimiters r)))
  unfolding parse_heredoc
  heredoc_reads k t r cmd none e n lt (Next.stop w) =
      rw w (unfold items upto first_error in rw e refl)
  heredoc_reads k t r cmd (some (v, r')) e n lt (Next.token w lt' _) = rw (w) (
      unfold items upto in
      rw (e, items)
        (rest (suc k) r' (record cmd { heredoc_delim = some v }) (omega arith) n
          ∙ sym (extend-here_document cmd v _)))

  redirection_reads :
      (k : ℕ) (t r : Text) (cmd : Command) (cursor : Cursor)
      → kind t ≡ redirection_mark
      → argc cmd + suc k ≡ max_args - 1
      → length r < length s
      → Next token_delimiters r cursor
      → parse_redirection (parse_loop fuel) t cursor cmd
        ≡ read_onto cmd (upto (suc k) (items (t ∷ words token_delimiters r)))
  unfolding parse_redirection
  redirection_reads k t r cmd none e n lt (Next.stop w) =
      rw w (unfold items upto first_error in rw e refl)
  redirection_reads k t r cmd (some (v, r')) e n lt (Next.token w lt' _) = rw (w) (
      unfold items upto in
      rw (e, items)
        (rest (suc k) r' (set_redirection t v cmd) (omega arith) (rw args-set_redirection n)
          ∙ sym (extend-redirection cmd t v _)))

  kind_reads :
      (k : ℕ) (t r : Text) (cmd : Command) (q : Kind)
      → kind t ≡ q
      → argc cmd + suc k ≡ max_args - 1
      → length r < length s
      → by_kind (parse_loop fuel) t r cmd q
        ≡ read_onto cmd (upto (suc k) (items (t ∷ words token_delimiters r)))
  kind_reads k t r cmd plain e n lt =
      rest k r (record cmd { args = cmd.args ++ t ∷ [] }) lt
        (omega (arith, length-append cmd.args (t ∷ [])))
      ∙ sym (extend-argument cmd t _)
      ∙ rw (items-plain t _ e) (unfold upto in refl)
  kind_reads k t r cmd background_mark e n lt =
      rest (suc k) r (record cmd { background = true }) lt n
      ∙ sym (extend-ampersand cmd _)
      ∙ rw (items-ampersand t _ e) (unfold upto in refl)
  kind_reads k t r cmd heredoc_mark e n lt =
      heredoc_reads k t r cmd (next_token r) e n lt (strtok_r-Next token_delimiters r)
  kind_reads k t r cmd redirection_mark e n lt =
      redirection_reads k t r cmd (next_token r) e n lt (strtok_r-Next token_delimiters r)

  cursor_reads :
      (k : ℕ) (cmd : Command) (cursor : Cursor)
      → Next token_delimiters s cursor
      → argc cmd + k ≡ max_args - 1
      → parse_loop (suc fuel) cursor cmd ≡ read_onto cmd (upto k (items (words token_delimiters s)))
  unfolding parse_loop
  cursor_reads k cmd none (Next.stop w) n =
      rw w (unfold items in rw upto-nil (sym (read_onto-nil cmd)))
  cursor_reads zero cmd (some (t, r)) (Next.token w lt _) n =
      rw (le→not_ltb (argc cmd) 63 (omega arith)) (unfold upto in sym (read_onto-nil cmd))
  cursor_reads (suc k) cmd (some (t, r)) (Next.token w lt _) n =
      rw (w, lt→ltb (argc cmd) 63 (omega arith))
        (parse_token-kind (parse_loop fuel) t r cmd ∙ kind_reads k t r cmd (kind t) refl n lt)

loop-Reads : (fuel k : ℕ) (s : Text) (cmd : Command) → length s < fuel → Reads fuel k s cmd
loop-Reads zero k s cmd lt n = absurd (omega arith)
loop-Reads (suc fuel) k s cmd lt n =
    cursor_reads fuel s (λ k' r cmd' lt'. loop-Reads fuel k' r cmd' (omega arith)) k cmd
      (next_token s) (strtok_r-Next token_delimiters s) n

-- The parser's loop over `strtok_r` ends, and yields for every segment the meaning of its items.
pub parse_command-read_onto :
    (segment : Text) → parse_command segment ≡ read_onto empty_command (read_items segment)
unfolding parse_command read_items
parse_command-read_onto segment =
    loop-Reads (suc (length segment)) 63 segment empty_command (omega arith) refl
