-- ===== src/Parser/Buffer/Line.antt =====
-- `parse_command` and `parse_pipeline` in memory do what they do on strings: the inner loop's NULs
-- reach neither the commands parsed before nor the rest of the line.
use unix_shell.Base.{
  ℕ, zero, suc, ◌+◌, ◌≤◌, ◌≡◌, ap, ap₂, ◌∙◌, subst, List, Option, none, some, length, map, arith,
  Bool-cases, inl, inr, ltb,
}
use unix_shell.Cstring.{Text}
use unix_shell.Cstring.Memory.{Bytes, read, Token, strtok_r_at}
use unix_shell.Cstring.Memory.Tokens.{Keeps, Keeps-mono, PointsTo, strtok_r_at-Yields}
use unix_shell.Parser.{
  Command, Parsed, done, syntax_error, no_fuel, Cursor, pipe_delimiter, next_segment, parse_command,
  add_segment, segment_parsed, segment_loop,
}
use unix_shell.Parser.Buffer.{
  BufferCommand, load, Outcome, parse_command_at, Segments, add_segment_at, segment_parsed_at,
  segment_loop_at,
}
use unix_shell.Parser.Buffer.Commands.{IsHeld, IsHeld-mono}
use unix_shell.Parser.Buffer.Held.{
  AllHeld, AllHeld-Keeps, AllHeld-mono, loads-Keeps, length-loads, loads-add_segment_at,
  AllHeld-add_segment_at,
}
use unix_shell.Parser.Buffer.Agree.{Agrees}
use unix_shell.Parser.Buffer.Segment.{
  parse_command_at-Agrees, LineAgrees, LineAgrees-later, LineMatches, LineAgrees-stopped,
}

-- The outer call of `strtok_r` on the memory `b` that the inner loop left.
resumed :
    (high save : ℕ) (b : Bytes) (cs : List BufferCommand)
    → save + length (read b save) ≤ high
    → AllHeld b save cs
    → LineMatches save high
        (strtok_r_at pipe_delimiter b save).token
        (strtok_r_at pipe_delimiter b save)
        (next_segment (read b save))
        cs
resumed high save b cs within held =
    let y = strtok_r_at-Yields pipe_delimiter b save in
    let t = strtok_r_at pipe_delimiter b save in
    record {
      points = y.points;
      after = y.after;
      within = omega (arith, y.within, within);
      held =
          AllHeld-Keeps save (save + length (read b save)) b t.bytes y.keeps save cs (omega arith)
            held;
    }

module _ (low high save p : ℕ) (b : Bytes) (segment rest : Text) (cs : List BufferCommand)
    (continue : Bytes → List BufferCommand → Segments)
    (continue' : List Command → Parsed (List Command)) (starts : low ≤ p)
    (ends : p + length segment ≤ save) (more : read b save ≡ rest)
    (within : save + length rest ≤ high) (held : AllHeld b low cs)
    (next : (b' : Bytes) (cs' : List BufferCommand)
      → read b' save ≡ rest
      → AllHeld b' save cs'
      → LineAgrees save high b' (continue b' cs') (continue' (map (load b') cs'))) where
  segment-done :
      (c : BufferCommand) (b' : Bytes) (cmd : Command)
      → load b' c ≡ cmd
      → IsHeld b' (p + length segment) c
      → Keeps p (p + length segment) b b'
      → LineAgrees low high b
          (continue b' (add_segment_at cs c))
          (continue' (add_segment (map (load b) cs) cmd))
  segment-done c b' cmd e h keeps =
      let held_p = AllHeld-mono b low p cs starts held in
      let held' =
        AllHeld-Keeps p (p + length segment) b b' keeps save cs (omega (arith, ends)) held_p in
      let same = loads-Keeps p (p + length segment) b b' keeps cs held_p in
      let here = IsHeld-mono b' (p + length segment) save c ends h in
      let commands : map (load b') (add_segment_at cs c) ≡ add_segment (map (load b) cs) cmd =
        loads-add_segment_at b' cs c ∙ ap₂ add_segment same e in
      LineAgrees-later low save high b b' _ _ (omega (arith, starts, ends))
        (Keeps-mono low high p (p + length segment) b b' starts (omega (arith, ends, within)) keeps)
        (subst (λ x. LineAgrees save high b' (continue b' (add_segment_at cs c)) (continue' x))
          commands
          (next b' (add_segment_at cs c) ((keeps save).1 ends ∙ more)
            (AllHeld-add_segment_at b' save cs c held' here)))

  segment_parsed_at-Agrees :
      (r : Outcome) (parsed : Parsed Command)
      → Agrees p (p + length segment) b r parsed
      → LineAgrees low high b
          (segment_parsed_at continue cs r)
          (segment_parsed continue' (map (load b) cs) parsed)
  unfolding segment_parsed_at segment_parsed Agrees
  segment_parsed_at-Agrees (done (c, b')) (done cmd) (e, h, k) = segment-done c b' cmd e h k
  segment_parsed_at-Agrees (done (c, b')) (syntax_error e) h = absurd h
  segment_parsed_at-Agrees (done (c, b')) no_fuel h = absurd h
  segment_parsed_at-Agrees (syntax_error e) (done cmd) h = absurd h
  segment_parsed_at-Agrees (syntax_error e) (syntax_error e') h = unfold LineAgrees in h
  segment_parsed_at-Agrees (syntax_error e) no_fuel h = absurd h
  segment_parsed_at-Agrees no_fuel (done cmd) h = absurd h
  segment_parsed_at-Agrees no_fuel (syntax_error e) h = absurd h
  segment_parsed_at-Agrees no_fuel no_fuel h = unfold LineAgrees in tt

segment_points :
    (low save : ℕ) (b : Bytes) (p : ℕ) (segment rest : Text)
    → PointsTo low (some p) save b (some (segment, rest))
    → (low ≤ p) × (read b p ≡ segment) × (p + length segment ≤ save) × (read b save ≡ rest)
unfolding PointsTo
segment_points low save b p segment rest h = h

segment_Agrees :
    (b : Bytes) (p : ℕ) (segment : Text)
    → read b p ≡ segment
    → Agrees p (p + length segment) b (parse_command_at b p) (parse_command segment)
segment_Agrees b p segment here =
    subst (λ s. Agrees p (p + length s) b (parse_command_at b p) (parse_command s)) here
      (parse_command_at-Agrees b p)

-- One more call of the outer `strtok_r`, whose writes keep the commands' strings.
segment-resumed :
    (high fuel save : ℕ) (b : Bytes) (rest : Text) (cs : List BufferCommand)
    → read b save ≡ rest
    → save + length rest ≤ high
    → AllHeld b save cs
    → (let t = strtok_r_at pipe_delimiter b save in
        LineAgrees save high t.bytes
          (segment_loop_at fuel t.token t cs)
          (segment_loop fuel (next_segment (read b save)) (map (load t.bytes) cs)))
    → (let t = strtok_r_at pipe_delimiter b save in
        LineAgrees save high b
          (segment_loop_at fuel t.token t cs)
          (segment_loop fuel (next_segment rest) (map (load b) cs)))
segment-resumed high fuel save b rest cs e within held agrees =
    let y = strtok_r_at-Yields pipe_delimiter b save in
    let t = strtok_r_at pipe_delimiter b save in
    let keeps =
      Keeps-mono save high save (save + length (read b save)) b t.bytes (omega arith)
        (omega (arith, within, ap length e)) y.keeps in
    let same = loads-Keeps save high b t.bytes keeps cs held in
    LineAgrees-later save save high b t.bytes _ _ (omega arith) keeps (
      subst
        (λ x.
          LineAgrees save high t.bytes (segment_loop_at fuel t.token t cs)
            (segment_loop fuel (next_segment rest) x))
        same
        (subst
          (λ x.
            LineAgrees save high t.bytes (segment_loop_at fuel t.token t cs)
              (segment_loop fuel (next_segment x) (map (load t.bytes) cs)))
          e agrees))

pub segment_loop_at-Agrees :
    (high fuel low : ℕ) (token : Option ℕ) (t : Token) (cursor : Cursor) (cs : List BufferCommand)
    → LineMatches low high token t cursor cs
    → LineAgrees low high t.bytes
        (segment_loop_at fuel token t cs)
        (segment_loop fuel cursor (map (load t.bytes) cs))
unfolding segment_loop_at segment_loop
segment_loop_at-Agrees high zero low token t cursor cs m = unfold LineAgrees in tt
segment_loop_at-Agrees high (suc fuel) low none t none cs m =
    LineAgrees-stopped low high t cs (omega (arith, m.after, m.within)) m.held
segment_loop_at-Agrees high (suc fuel) low none t (some cursor) cs m =
    absurd (unfold PointsTo in m.points)
segment_loop_at-Agrees high (suc fuel) low (some p) t none cs m =
    absurd (unfold PointsTo in m.points)
segment_loop_at-Agrees high (suc fuel) low (some p) t (some (segment, rest)) cs m =
    let (starts, here, ends, more) = segment_points low t.saveptr t.bytes p segment rest m.points in
    rw (length-loads t.bytes cs) (elim (Bool-cases (ltb (length cs) 16)) [
      | inl e ↦ rw e (
          segment_parsed_at-Agrees low high t.saveptr p t.bytes segment rest cs
            (λ b cs'.
              let t' = strtok_r_at pipe_delimiter b t.saveptr in
              segment_loop_at fuel t'.token t' cs')
            (segment_loop fuel (next_segment rest)) starts ends more
            (omega (arith, m.within, ap length more)) m.held
            (λ b' cs' e' h.
              segment-resumed high fuel t.saveptr b' rest cs' e'
                (omega (arith, m.within, ap length more)) h
                (segment_loop_at-Agrees high fuel t.saveptr
                  (strtok_r_at pipe_delimiter b' t.saveptr).token
                  (strtok_r_at pipe_delimiter b' t.saveptr) (next_segment (read b' t.saveptr)) cs'
                  (resumed high t.saveptr b' cs'
                    (omega (arith, m.within, ap length more, ap length e')) h)))
            (parse_command_at t.bytes p) (parse_command segment)
            (segment_Agrees t.bytes p segment here))
      | inr e ↦ rw e (LineAgrees-stopped low high t cs (omega (arith, m.after, m.within)) m.held)
    ])
