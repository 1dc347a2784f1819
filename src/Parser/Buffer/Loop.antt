-- ===== src/Parser/Buffer/Loop.antt =====
-- The tokenizer loop in memory does what it does on strings.
use unix_shell.Base.{
  ℕ, zero, suc, ◌+◌, ◌≤◌, ◌≡◌, refl, ap, ◌∙◌, subst, true, [], ◌∷◌, ◌++◌, Option, none, some,
  length, Bool-cases, inl, inr, ltb,
}
use unix_shell.Cstring.{Text, codes, equal}
use unix_shell.Cstring.Memory.{read, Token}
use unix_shell.Cstring.Memory.Tokens.{PointsTo}
use unix_shell.Parser.{
  Command, Parsed, expected_filename, Cursor, next_token, set_redirection, is_redirection,
  parse_heredoc, parse_redirection, parse_token, parse_loop,
}
use unix_shell.Parser.Buffer.{
  BufferCommand, load, Outcome, next_token_at, set_redirection_at, parse_heredoc_at,
  parse_redirection_at, parse_word_at, parse_loop_at,
}
use unix_shell.Parser.Buffer.Commands.{
  IsHeld, length-load, IsHeld-with_arg, load-with_arg, IsHeld-set_redirection, load-set_redirection,
}
use unix_shell.Parser.Buffer.Agree.{Agrees, Matches, Simulates, called_on, stopped, points_some}

module _ (high : ℕ) (f : Option ℕ → Token → BufferCommand → Outcome)
    (g : Cursor → Command → Parsed Command) (sim : Simulates high f g) where
  abbrev go : Token → BufferCommand → Outcome
  go t c = f t.token t c

  -- the next round, on a command whose strings are those of `cmd`
  next_round :
      (t : Token) (c : BufferCommand) (cmd : Command) (rest : Text)
      → t.saveptr + length (read t.bytes t.saveptr) ≤ high
      → IsHeld t.bytes t.saveptr c
      → load t.bytes c ≡ cmd
      → read t.bytes t.saveptr ≡ rest
      → Agrees t.saveptr high t.bytes (go (next_token_at t) c) (g (next_token rest) cmd)
  next_round t c cmd rest within held e e' =
      subst (λ x. Agrees t.saveptr high t.bytes (go (next_token_at t) c) (g (next_token rest) x)) e
        (called_on high t c (go (next_token_at t) c) g rest e' within held
          (λ cursor m keeps. sim (next_token_at t).token (next_token_at t) cursor c m))

  heredoc-Simulates : Simulates high (parse_heredoc_at go) (parse_heredoc g)
  unfolding parse_heredoc_at parse_heredoc
  heredoc-Simulates none t none c m = unfold Agrees in refl
  heredoc-Simulates none t (some cursor) c m = absurd (unfold PointsTo in m.points)
  heredoc-Simulates (some p) t none c m = absurd (unfold PointsTo in m.points)
  heredoc-Simulates (some p) t (some (delim, rest)) c m =
      let (word, ends, more) = points_some t.saveptr t.bytes p delim rest m.points in
      next_round t (record c { heredoc_delim = some p }) _ rest m.within
        (record {
          args = m.held.args;
          input_file = m.held.input_file;
          output_file = m.held.output_file;
          heredoc_delim = ends;
        })
        (unfold load in ap (λ d. record (load t.bytes c) { heredoc_delim = some d }) word) more

  -- the operator's string is still `word`
  redirection-Agrees :
      (operator : ℕ) (word : Text) (token : Option ℕ) (t : Token) (cursor : Cursor)
      (c : BufferCommand)
      → read t.bytes operator ≡ word
      → Matches high token t cursor c
      → Agrees t.saveptr high t.bytes
          (parse_redirection_at go operator word token t c)
          (parse_redirection g word cursor (load t.bytes c))
  unfolding parse_redirection_at parse_redirection
  redirection-Agrees operator word none t none c e m = unfold Agrees in ap expected_filename e
  redirection-Agrees operator word none t (some cursor) c e m = absurd (unfold PointsTo in m.points)
  redirection-Agrees operator word (some p) t none c e m = absurd (unfold PointsTo in m.points)
  redirection-Agrees operator word (some p) t (some (filename, rest)) c e m =
      let (name, ends, more) = points_some t.saveptr t.bytes p filename rest m.points in
      next_round t (set_redirection_at word p c) _ rest m.within
        (IsHeld-set_redirection t.bytes t.saveptr p word c ends m.held)
        (load-set_redirection t.bytes p word c
          ∙ ap (λ n. set_redirection word n (load t.bytes c)) name)
        more

  word-Agrees :
      (p : ℕ) (t : Token) (word rest : Text) (c : BufferCommand)
      → Matches high (some p) t (some (word, rest)) c
      → Agrees t.saveptr high t.bytes
          (parse_word_at go p word t c)
          (parse_token g word rest (load t.bytes c))
  unfolding parse_word_at parse_token
  word-Agrees p t word rest c m =
      let (here, ends, more) = points_some t.saveptr t.bytes p word rest m.points in
      elim (Bool-cases (equal word (codes "&"))) [
        | inl e ↦ rw e (
            next_round t (record c { background = true }) _ rest m.within
              (record {
                args = m.held.args;
                input_file = m.held.input_file;
                output_file = m.held.output_file;
                heredoc_delim = m.held.heredoc_delim;
              })
              (unfold load in refl) more)
        | inr e ↦ elim (Bool-cases (equal word (codes "<<"))) [
          | inl e' ↦ rw e (
              rw e' (
                called_on high t c _ (parse_heredoc g) rest more m.within m.held (λ cursor m' keeps.
                  heredoc-Simulates (next_token_at t).token (next_token_at t) cursor c m')))
          | inr e' ↦ elim (Bool-cases (is_redirection word)) [
            | inl e'' ↦ rw e (
                rw e' (
                  rw e'' (
                    called_on high t c _ (parse_redirection g word) rest more m.within m.held
                      (λ cursor m' keeps.
                        redirection-Agrees p word (next_token_at t).token (next_token_at t) cursor c
                          ((keeps p).0 ends ∙ here) m'))))
            | inr e'' ↦ rw e (
                rw e' (
                  rw e'' (
                    next_round t (record c { args = c.args ++ p ∷ [] }) _ rest m.within
                      (IsHeld-with_arg t.bytes t.saveptr p c ends m.held)
                      (load-with_arg t.bytes p c
                        ∙ ap
                            (λ w. record (load t.bytes c) {
                              args = (load t.bytes c).args ++ w ∷ [];
                            })
                            here)
                      more)))
          ]
        ]
      ]

pub parse_loop_at-Simulates :
    (high fuel : ℕ) → Simulates high (parse_loop_at fuel) (parse_loop fuel)
unfolding parse_loop_at parse_loop
parse_loop_at-Simulates high zero token t cursor c m = unfold Agrees in tt
parse_loop_at-Simulates high (suc fuel) none t none c m = stopped high t c m.within m.held
parse_loop_at-Simulates high (suc fuel) none t (some cursor) c m =
    absurd (unfold PointsTo in m.points)
parse_loop_at-Simulates high (suc fuel) (some p) t none c m = absurd (unfold PointsTo in m.points)
parse_loop_at-Simulates high (suc fuel) (some p) t (some (word, rest)) c m =
    let (here, ends, more) = points_some t.saveptr t.bytes p word rest m.points in
    rw (length-load t.bytes c) (elim (Bool-cases (ltb (length c.args) 63)) [
      | inl e ↦ rw e (
          rw here (
            word-Agrees high (parse_loop_at fuel) (parse_loop fuel)
              (parse_loop_at-Simulates high fuel) p t word rest c m))
      | inr e ↦ rw e (stopped high t c m.within m.held)
    ])
