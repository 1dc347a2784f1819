-- ===== src/Parser.antt =====
-- parser.c and parser.h: the pipeline splitter, the tokenizer and the redirections.
-- A pointer into the line is the string that it points at here, and an address in Parser.Buffer.
-- The line outlives the pipeline (main.c).
pub mod Grammar
pub mod Meaning
pub mod Bounds
pub mod Segments
pub mod Language
pub mod Printer
pub mod RoundTrip
pub mod Lines
pub mod Buffer
mod Tests
use unix_shell.Base.{
  ℕ, zero, suc, ◌-◌, ◌≡◌, Bool, true, false, ◌||◌, List, [], ◌∷◌, ◌++◌, Option, none, some, ltb,
  length, if◌then◌else◌,
}
use unix_shell.Base.Int.{ℤ, negsuc}
use unix_shell.Cstring.{Text, codes, equal, strtok_r}

abbrev pub max_args : ℕ
max_args = 64

abbrev pub max_commands : ℕ
max_commands = 16

-- `command_t`. `args` is the array up to its NULL, and `argc` its length.
pub record Command : Type 0 where
  pub args : List Text
  pub input_file : Option Text
  pub output_file : Option Text
  pub append_mode : Bool
  pub background : Bool
  pub heredoc_delim : Option Text
  pub heredoc_fd : ℤ

abbrev pub argc : Command → ℕ
argc cmd = length cmd.args

-- `pipeline_t`. `commands` is the array up to `num_commands`: no later slot is ever read.
pub record Pipeline : Type 0 where
  pub commands : List Command
  pub background : Bool

abbrev pub num_commands : Pipeline → ℕ
num_commands p = length p.commands

-- space, tab, carriage return, newline
abbrev pub token_delimiters : Text
token_delimiters = codes " \t\r\n"

abbrev pub pipe_delimiter : Text
pipe_delimiter = codes "|"

-- the two messages behind a result of -1
pub data SyntaxError : Type 0 where
  expected_delimiter : SyntaxError
  expected_filename : Text → SyntaxError

-- What a parse function returns: its output, or -1. `no_fuel` is the model's own.
pub data Parsed {ℓ} (A : Type ℓ) : Type ℓ where
  done : A → Parsed A
  syntax_error : SyntaxError → Parsed A
  no_fuel : Parsed A

pub done_injective {ℓ} : {A : Type ℓ} {a b : A} → done a ≡ done b → a ≡ b
done_injective e = cc

-- `memset(cmd, 0, sizeof(*cmd)); cmd->heredoc_fd = -1;`
abbrev pub empty_command : Command
empty_command = record {
  args = [];
  input_file = none;
  output_file = none;
  append_mode = false;
  background = false;
  heredoc_delim = none;
  heredoc_fd = negsuc 0;
}

-- A call of `strtok_r` in `parse_command`: the token and the `saveptr` behind it.
abbrev pub Cursor : Type 0
Cursor = Option (Text × Text)

abbrev pub next_token : Text → Cursor
next_token = strtok_r token_delimiters

-- the redirections, on the token read behind the operator
unfoldable pub set_redirection : Text → Text → Command → Command
set_redirection operator filename cmd =
    if equal operator (codes "<")
    then record cmd { input_file = some filename }
    else record cmd { output_file = some filename; append_mode = equal operator (codes ">>") }

unfoldable pub is_redirection : Text → Bool
is_redirection token =
    equal token (codes "<") || equal token (codes ">") || equal token (codes ">>")

module _ (continue : Cursor → Command → Parsed Command) where
  unfoldable pub parse_heredoc : Cursor → Command → Parsed Command
  parse_heredoc none cmd = syntax_error expected_delimiter
  parse_heredoc (some (delim, saveptr)) cmd =
      continue (next_token saveptr) (record cmd { heredoc_delim = some delim })

  unfoldable pub parse_redirection : Text → Cursor → Command → Parsed Command
  unfolding set_redirection
  parse_redirection operator none cmd = syntax_error (expected_filename operator)
  parse_redirection operator (some (filename, saveptr)) cmd =
      continue (next_token saveptr) (set_redirection operator filename cmd)

  -- the body of the `while` loop
  unfoldable pub parse_token : Text → Text → Command → Parsed Command
  unfolding parse_heredoc parse_redirection is_redirection
  parse_token token saveptr cmd =
      if equal token (codes "&")
      then continue (next_token saveptr) (record cmd { background = true })
      else if equal token (codes "<<")
      then parse_heredoc (next_token saveptr) cmd
      else if is_redirection token
      then parse_redirection token (next_token saveptr) cmd
      else continue (next_token saveptr) (record cmd { args = cmd.args ++ token ∷ [] })

unfoldable pub parse_loop : ℕ → Cursor → Command → Parsed Command
unfolding parse_token
parse_loop zero cursor cmd = no_fuel
parse_loop (suc fuel) none cmd = done cmd
parse_loop (suc fuel) (some (token, saveptr)) cmd =
    if ltb (argc cmd) (max_args - 1)
    then parse_token (parse_loop fuel) token saveptr cmd
    else done cmd

-- Each round takes a token off the segment, so its length is enough fuel.
unfoldable pub parse_command : Text → Parsed Command
unfolding parse_loop
parse_command segment = parse_loop (suc (length segment)) (next_token segment) empty_command

-- The loop of `parse_pipeline`, on the commands so far.
unfoldable pub add_segment : List Command → Command → List Command
add_segment commands cmd = if ltb 0 (argc cmd) then commands ++ cmd ∷ [] else commands

abbrev pub next_segment : Text → Cursor
next_segment = strtok_r pipe_delimiter

unfoldable pub segment_parsed :
    (List Command → Parsed (List Command)) → List Command → Parsed Command → Parsed (List Command)
unfolding add_segment
segment_parsed continue commands (done cmd) = continue (add_segment commands cmd)
segment_parsed continue commands (syntax_error e) = syntax_error e
segment_parsed continue commands no_fuel = no_fuel

unfoldable pub segment_loop : ℕ → Cursor → List Command → Parsed (List Command)
unfolding segment_parsed
segment_loop zero cursor commands = no_fuel
segment_loop (suc fuel) none commands = done commands
segment_loop (suc fuel) (some (segment, saveptr)) commands =
    let continue = segment_loop fuel (next_segment saveptr) in
    if ltb (length commands) max_commands
    then segment_parsed continue commands (parse_command segment)
    else done commands

-- the flag of the last command
unfoldable pub last_background : List Command → Bool
last_background [] = false
last_background (cmd ∷ []) = cmd.background
last_background (_ ∷ cmd ∷ cmds) = last_background (cmd ∷ cmds)

unfoldable pub promote : Parsed (List Command) → Parsed Pipeline
promote (done commands) =
    done (record { commands = commands; background = last_background commands })
promote (syntax_error e) = syntax_error e
promote no_fuel = no_fuel

unfoldable pub parse_pipeline : Text → Parsed Pipeline
unfolding parse_command segment_loop promote last_background
parse_pipeline line = promote (segment_loop (suc (length line)) (next_segment line) [])
