-- ===== src/Parser/Buffer/Segment.antt =====
-- One segment in memory, and the outer loop's variables and results in memory against those on
-- strings.
use unix_shell.Base.{ℕ, suc, ◌+◌, ◌≤◌, ◌≡◌, refl, subst, List, Option, length, map, arith}
use unix_shell.Cstring.Memory.{Bytes, read, Token, strtok_r_at}
use unix_shell.Cstring.Memory.Tokens.{
  Keeps, Keeps-refl, Keeps-trans, PointsTo, PointsTo-later, strtok_r_at-Yields,
}
use unix_shell.Parser.{
  Command, Parsed, done, syntax_error, no_fuel, Cursor, token_delimiters, next_token, parse_loop,
  parse_command, empty_command,
}
use unix_shell.Parser.Buffer.{
  BufferCommand, empty_buffer_command, load, parse_loop_at, parse_command_at, Segments,
}
use unix_shell.Parser.Buffer.Agree.{Agrees, Agrees-later, Matches}
use unix_shell.Parser.Buffer.Loop.{parse_loop_at-Simulates}
use unix_shell.Parser.Buffer.Held.{AllHeld, AllHeld-mono}

pub parse_command_at-Agrees :
    (b : Bytes) (segment : ℕ)
    → Agrees segment
        (segment + length (read b segment))
        b
        (parse_command_at b segment)
        (parse_command (read b segment))
unfolding parse_command_at parse_command
parse_command_at-Agrees b segment =
    let y = strtok_r_at-Yields token_delimiters b segment in
    let t = strtok_r_at token_delimiters b segment in
    let high = segment + length (read b segment) in
    let m : Matches high t.token t (next_token (read b segment)) empty_buffer_command = record {
      points = PointsTo-later 0 segment t.token t.saveptr t.bytes _ (omega arith) y.points;
      within = y.within;
      held = record { args = tt; input_file = tt; output_file = tt; heredoc_delim = tt };
    } in
    let blank : load t.bytes empty_buffer_command ≡ empty_command = unfold load in refl in
    Agrees-later segment t.saveptr high b t.bytes _ _ y.after y.keeps (
      subst
        (λ c.
          Agrees t.saveptr high t.bytes
            (parse_loop_at (suc (length (read b segment))) t.token t empty_buffer_command)
            (parse_loop (suc (length (read b segment))) (next_token (read b segment)) c))
        blank
        (parse_loop_at-Simulates high (suc (length (read b segment))) t.token t _
          empty_buffer_command m))

-- What the outer loop leaves against what the one on strings returns.
unfoldable pub LineAgrees : ℕ → ℕ → Bytes → Segments → Parsed (List Command) → Type 0
LineAgrees low high b (done (cs, b')) (done cmds) =
    (map (load b') cs ≡ cmds) × AllHeld b' high cs × Keeps low high b b'
LineAgrees low high b (syntax_error e) (syntax_error e') = e ≡ e'
LineAgrees low high b no_fuel no_fuel = Unit
LineAgrees low high b _ _ = ⊥

pub LineAgrees-later :
    (low low' high : ℕ) (b b' : Bytes) (r : Segments) (parsed : Parsed (List Command))
    → low ≤ low'
    → Keeps low high b b'
    → LineAgrees low' high b' r parsed
    → LineAgrees low high b r parsed
unfolding LineAgrees
LineAgrees-later low low' high b b' (done (c, b'')) (done cmd) le k (e, h, k') =
    (e, h, Keeps-trans low high low' high b b' b'' le (omega arith) k k')
LineAgrees-later low low' high b b' (done (c, b'')) (syntax_error e) le k h = h
LineAgrees-later low low' high b b' (done (c, b'')) no_fuel le k h = h
LineAgrees-later low low' high b b' (syntax_error e) (done cmd) le k h = h
LineAgrees-later low low' high b b' (syntax_error e) (syntax_error e') le k h = h
LineAgrees-later low low' high b b' (syntax_error e) no_fuel le k h = h
LineAgrees-later low low' high b b' no_fuel (done cmd) le k h = h
LineAgrees-later low low' high b b' no_fuel (syntax_error e) le k h = h
LineAgrees-later low low' high b b' no_fuel no_fuel le k h = h

-- The outer loop's variables; `low` is where the last call of its `strtok_r` began.
pub record LineMatches (low high : ℕ) (token : Option ℕ) (t : Token) (cursor : Cursor)
    (cs : List BufferCommand) : Type 0 where
  pub points : PointsTo low token t.saveptr t.bytes cursor
  pub after : low ≤ t.saveptr
  pub within : t.saveptr + length (read t.bytes t.saveptr) ≤ high
  pub held : AllHeld t.bytes low cs

pub LineAgrees-stopped :
    (low high : ℕ) (t : Token) (cs : List BufferCommand)
    → low ≤ high
    → AllHeld t.bytes low cs
    → LineAgrees low high t.bytes (done (cs, t.bytes)) (done (map (load t.bytes) cs))
unfolding LineAgrees
LineAgrees-stopped low high t cs le h =
    (refl, AllHeld-mono t.bytes low high cs le h, Keeps-refl low high t.bytes)
