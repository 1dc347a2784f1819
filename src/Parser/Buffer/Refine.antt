-- ===== src/Parser/Buffer/Refine.antt =====
-- `parse_pipeline` in memory refines the one on strings.
use unix_shell.Base.{ℕ, suc, subst, ◌+◌, ◌≡◌, refl, ap, ap₂, ◌∙◌, List, [], ◌∷◌, length, map, arith}
use unix_shell.Cstring.Memory.{Bytes, read, strtok_r_at}
use unix_shell.Cstring.Memory.Tokens.{Keeps, strtok_r_at-Yields}
use unix_shell.Parser.{
  Command, Pipeline, Parsed, done, syntax_error, no_fuel, pipe_delimiter, next_segment,
  segment_loop, last_background, promote, parse_pipeline,
}
use unix_shell.Parser.Buffer.{
  BufferCommand, load, Segments, segment_loop_at, BufferPipeline, last_background_at, promote_at,
  parse_pipeline_at,
}
use unix_shell.Parser.Buffer.Held.{AllHeld}
use unix_shell.Parser.Buffer.Segment.{LineAgrees, LineAgrees-later, LineMatches}
use unix_shell.Parser.Buffer.Line.{segment_loop_at-Agrees}

-- the result with the strings that its pointers point at
unfoldable pub load_parsed : Parsed (BufferPipeline × Bytes) → Parsed Pipeline
load_parsed (done (p, b)) =
    done (record { commands = map (load b) p.commands; background = p.background })
load_parsed (syntax_error e) = syntax_error e
load_parsed no_fuel = no_fuel

last_background-loads :
    (b : Bytes) (cs : List BufferCommand)
    → last_background_at cs ≡ last_background (map (load b) cs)
unfolding last_background_at last_background load
last_background-loads b [] = refl
last_background-loads b (c ∷ []) = refl
last_background-loads b (_ ∷ c ∷ cs) = last_background-loads b (c ∷ cs)

load_parsed-promote_at :
    (low high : ℕ) (b : Bytes) (r : Segments) (parsed : Parsed (List Command))
    → LineAgrees low high b r parsed
    → load_parsed (promote_at r) ≡ promote parsed
unfolding load_parsed promote_at promote LineAgrees
load_parsed-promote_at low high b (done (cs, b')) (done cmds) (e, h, k) = ap done (
    ap₂ (λ xs y. let p : Pipeline = record { commands = xs; background = y } in p) e
      (last_background-loads b' cs ∙ ap last_background e))
load_parsed-promote_at low high b (done (c, b')) (syntax_error e) h = absurd h
load_parsed-promote_at low high b (done (c, b')) no_fuel h = absurd h
load_parsed-promote_at low high b (syntax_error e) (done cmd) h = absurd h
load_parsed-promote_at low high b (syntax_error e) (syntax_error e') h = ap syntax_error h
load_parsed-promote_at low high b (syntax_error e) no_fuel h = absurd h
load_parsed-promote_at low high b no_fuel (done cmd) h = absurd h
load_parsed-promote_at low high b no_fuel (syntax_error e) h = absurd h
load_parsed-promote_at low high b no_fuel no_fuel h = refl

Stays : ℕ → ℕ → Bytes → Parsed (BufferPipeline × Bytes) → Type 0
Stays low high b (done (p, b')) = AllHeld b' high p.commands × Keeps low high b b'
Stays low high b (syntax_error e) = Unit
Stays low high b no_fuel = Unit

Stays-promote_at :
    (low high : ℕ) (b : Bytes) (r : Segments) (parsed : Parsed (List Command))
    → LineAgrees low high b r parsed
    → Stays low high b (promote_at r)
unfolding Stays promote_at LineAgrees
Stays-promote_at low high b (done (cs, b')) (done cmds) (e, h, k) = (h, k)
Stays-promote_at low high b (done (c, b')) (syntax_error e) h = absurd h
Stays-promote_at low high b (done (c, b')) no_fuel h = absurd h
Stays-promote_at low high b (syntax_error e) parsed h = tt
Stays-promote_at low high b no_fuel parsed h = tt

line_agrees :
    (b : Bytes) (line : ℕ)
    → (let t = strtok_r_at pipe_delimiter b line in
        LineAgrees line
          (line + length (read b line))
          b
          (segment_loop_at (suc (length (read b line))) t.token t [])
          (segment_loop (suc (length (read b line))) (next_segment (read b line)) []))
line_agrees b line =
    let y = strtok_r_at-Yields pipe_delimiter b line in
    let t = strtok_r_at pipe_delimiter b line in
    let high = line + length (read b line) in
    let m : LineMatches line high t.token t (next_segment (read b line)) [] = record {
      points = y.points;
      after = y.after;
      within = y.within;
      held = tt;
    } in
    LineAgrees-later line line high b t.bytes _ _ (omega arith) y.keeps (
      segment_loop_at-Agrees high (suc (length (read b line))) line t.token t
        (next_segment (read b line)) [] m)

-- On every memory and every address of a line in it, `parse_pipeline` with its two `strtok_r` loops
-- in the line's bytes returns what it returns on the line as a string: the same error, or a pipeline
-- whose pointers point, in the memory that the call leaves, at the strings of the string version's
-- commands, with the same flags.
pub parse_pipeline_at-parse_pipeline :
    (b : Bytes) (line : ℕ) → load_parsed (parse_pipeline_at b line) ≡ parse_pipeline (read b line)
unfolding parse_pipeline_at parse_pipeline
parse_pipeline_at-parse_pipeline b line =
    load_parsed-promote_at line (line + length (read b line)) b _ _ (line_agrees b line)

-- When `parse_pipeline` succeeds on a line in memory, every string that a command points at ends
-- where the line ends or before, and every string outside of the line, before it or behind it, is
-- as it was.
pub parse_pipeline_at-Keeps :
    (b : Bytes) (line : ℕ) (p : BufferPipeline) (b' : Bytes)
    → parse_pipeline_at b line ≡ done (p, b')
    → AllHeld b' (line + length (read b line)) p.commands
      × Keeps line (line + length (read b line)) b b'
unfolding parse_pipeline_at Stays
parse_pipeline_at-Keeps b line p b' e =
    subst (Stays line (line + length (read b line)) b) e
      (Stays-promote_at line (line + length (read b line)) b _ _ (line_agrees b line))
