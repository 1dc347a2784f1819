-- ===== src/Parser/Buffer.antt =====
-- parser.c on the line in memory: `strtok_r` overwrites delimiters of the line with NULs, two loops
-- of it run over the same line, and the commands hold pointers into it.
pub mod Commands
pub mod Agree
pub mod Loop
pub mod Held
pub mod Segment
pub mod Line
pub mod Refine
use mathlib.Core.Option
use unix_shell.Base.{
  ℕ, zero, suc, ◌-◌, Bool, true, false, List, [], ◌∷◌, ◌++◌, Option, none, some, ltb, length, map,
  if◌then◌else◌,
}
use unix_shell.Base.Int.{ℤ, negsuc}
use unix_shell.Cstring.{Text, codes, equal}
use unix_shell.Cstring.Memory.{Bytes, read, Token, strtok_r_at}
use unix_shell.Parser.{
  Command, Pipeline, Parsed, done, syntax_error, no_fuel, expected_delimiter, expected_filename,
  max_args, max_commands, token_delimiters, pipe_delimiter, is_redirection,
}

-- `command_t` with its pointers; NULL is `none`
pub record BufferCommand : Type 0 where
  pub args : List ℕ
  pub input_file : Option ℕ
  pub output_file : Option ℕ
  pub append_mode : Bool
  pub background : Bool
  pub heredoc_delim : Option ℕ
  pub heredoc_fd : ℤ

abbrev pub empty_buffer_command : BufferCommand
empty_buffer_command = record {
  args = [];
  input_file = none;
  output_file = none;
  append_mode = false;
  background = false;
  heredoc_delim = none;
  heredoc_fd = negsuc 0;
}

-- the command whose strings are those that the pointers point at
unfoldable pub load : Bytes → BufferCommand → Command
unfolding read
load b c = record {
  args = map (read b) c.args;
  input_file = Option.map (read b) c.input_file;
  output_file = Option.map (read b) c.output_file;
  append_mode = c.append_mode;
  background = c.background;
  heredoc_delim = Option.map (read b) c.heredoc_delim;
  heredoc_fd = c.heredoc_fd;
}

-- What a function leaves: its output, and the line.
abbrev pub Outcome : Type 0
Outcome = Parsed (BufferCommand × Bytes)

-- `strtok_r(NULL, TOKEN_DELIMITERS, &saveptr)`
abbrev pub next_token_at : Token → Token
next_token_at t = strtok_r_at token_delimiters t.bytes t.saveptr

-- `word` is the operator, as `strcmp` compared it
unfoldable pub set_redirection_at : Text → ℕ → BufferCommand → BufferCommand
set_redirection_at word filename c =
    if equal word (codes "<")
    then record c { input_file = some filename }
    else record c { output_file = some filename; append_mode = equal word (codes ">>") }

module _ (continue : Token → BufferCommand → Outcome) where
  unfoldable pub parse_heredoc_at : Option ℕ → Token → BufferCommand → Outcome
  parse_heredoc_at none t c = syntax_error expected_delimiter
  parse_heredoc_at (some delim) t c =
      continue (next_token_at t) (record c { heredoc_delim = some delim })

  -- the message reads the operator behind the second call of `strtok_r`
  unfoldable pub parse_redirection_at : ℕ → Text → Option ℕ → Token → BufferCommand → Outcome
  unfolding set_redirection_at read
  parse_redirection_at operator word none t c =
      syntax_error (expected_filename (read t.bytes operator))
  parse_redirection_at operator word (some filename) t c =
      continue (next_token_at t) (set_redirection_at word filename c)

  -- the body of the `while` loop, on a token whose string is `word`
  unfoldable pub parse_word_at : ℕ → Text → Token → BufferCommand → Outcome
  unfolding parse_heredoc_at parse_redirection_at is_redirection
  parse_word_at p word t c =
      if equal word (codes "&")
      then continue (next_token_at t) (record c { background = true })
      else if equal word (codes "<<")
      then parse_heredoc_at (next_token_at t).token (next_token_at t) c
      else if is_redirection word
      then parse_redirection_at p word (next_token_at t).token (next_token_at t) c
      else continue (next_token_at t) (record c { args = c.args ++ p ∷ [] })

unfoldable pub parse_loop_at : ℕ → Option ℕ → Token → BufferCommand → Outcome
unfolding parse_word_at read
parse_loop_at zero p t c = no_fuel
parse_loop_at (suc fuel) none t c = done (c, t.bytes)
parse_loop_at (suc fuel) (some p) t c =
    if ltb (length c.args) (max_args - 1)
    then parse_word_at (λ t' c'. parse_loop_at fuel t'.token t' c') p (read t.bytes p) t c
    else done (c, t.bytes)

unfoldable pub parse_command_at : Bytes → ℕ → Outcome
unfolding parse_loop_at strtok_r_at read
parse_command_at b segment =
    let t = strtok_r_at token_delimiters b segment in
    parse_loop_at (suc (length (read b segment))) t.token t empty_buffer_command

abbrev pub Segments : Type 0
Segments = Parsed (List BufferCommand × Bytes)

unfoldable pub add_segment_at : List BufferCommand → BufferCommand → List BufferCommand
add_segment_at cs c = if ltb 0 (length c.args) then cs ++ c ∷ [] else cs

unfoldable pub segment_parsed_at :
    (Bytes → List BufferCommand → Segments) → List BufferCommand → Outcome → Segments
unfolding add_segment_at
segment_parsed_at continue cs (done (c, b)) = continue b (add_segment_at cs c)
segment_parsed_at continue cs (syntax_error e) = syntax_error e
segment_parsed_at continue cs no_fuel = no_fuel

-- The loop of `parse_pipeline`; its own `saveptr` is that of `t`.
unfoldable pub segment_loop_at : ℕ → Option ℕ → Token → List BufferCommand → Segments
unfolding segment_parsed_at parse_command_at strtok_r_at
segment_loop_at zero p t cs = no_fuel
segment_loop_at (suc fuel) none t cs = done (cs, t.bytes)
segment_loop_at (suc fuel) (some segment) t cs =
    if ltb (length cs) max_commands
    then segment_parsed_at
        (λ b cs'.
          let t' = strtok_r_at pipe_delimiter b t.saveptr in segment_loop_at fuel t'.token t' cs')
        cs (parse_command_at t.bytes segment)
    else done (cs, t.bytes)

-- `pipeline_t` with its pointers
pub record BufferPipeline : Type 0 where
  pub commands : List BufferCommand
  pub background : Bool

unfoldable pub last_background_at : List BufferCommand → Bool
last_background_at [] = false
last_background_at (c ∷ []) = c.background
last_background_at (_ ∷ c ∷ cs) = last_background_at (c ∷ cs)

unfoldable pub promote_at : Segments → Parsed (BufferPipeline × Bytes)
unfolding last_background_at
promote_at (done (cs, b)) = done (record { commands = cs; background = last_background_at cs }, b)
promote_at (syntax_error e) = syntax_error e
promote_at no_fuel = no_fuel

-- on the line at `line`
unfoldable pub parse_pipeline_at : Bytes → ℕ → Parsed (BufferPipeline × Bytes)
unfolding segment_loop_at promote_at strtok_r_at read
parse_pipeline_at b line =
    let t = strtok_r_at pipe_delimiter b line in
    promote_at (segment_loop_at (suc (length (read b line))) t.token t [])
