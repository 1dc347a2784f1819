-- ===== src/Parser/Buffer/Agree.antt =====
-- The tokenizer's variables and results in memory against those on strings.
use unix_shell.Base.{ℕ, ◌+◌, ◌≤◌, ◌≡◌, refl, ap, subst, Option, some, length, arith}
use unix_shell.Cstring.{Text}
use unix_shell.Cstring.Memory.{Bytes, read, Token}
use unix_shell.Cstring.Memory.Tokens.{
  Keeps, Keeps-refl, Keeps-trans, Keeps-mono, PointsTo, PointsTo-later, strtok_r_at-Yields,
}
use unix_shell.Parser.{
  Command, Parsed, done, syntax_error, no_fuel, Cursor, next_token, token_delimiters,
}
use unix_shell.Parser.Buffer.{BufferCommand, load, Outcome, next_token_at}
use unix_shell.Parser.Buffer.Commands.{Ends, IsHeld, IsHeld-Keeps, IsHeld-mono, load-Keeps}

-- What a function in memory leaves against what the one on strings returns: the strings of the
-- command are those, they end at `high` or before, and so do the writes; strings that end at `low`
-- or before are kept.
unfoldable pub Agrees : ℕ → ℕ → Bytes → Outcome → Parsed Command → Type 0
Agrees low high b (done (c, b')) (done cmd) =
    (load b' c ≡ cmd) × IsHeld b' high c × Keeps low high b b'
Agrees low high b (syntax_error e) (syntax_error e') = e ≡ e'
Agrees low high b no_fuel no_fuel = Unit
Agrees low high b _ _ = ⊥

pub Agrees-later :
    (low low' high : ℕ) (b b' : Bytes) (r : Outcome) (parsed : Parsed Command)
    → low ≤ low'
    → Keeps low high b b'
    → Agrees low' high b' r parsed
    → Agrees low high b r parsed
unfolding Agrees
Agrees-later low low' high b b' (done (c, b'')) (done cmd) le k (e, h, k') =
    (e, h, Keeps-trans low high low' high b b' b'' le (omega arith) k k')
Agrees-later low low' high b b' (done (c, b'')) (syntax_error e) le k h = h
Agrees-later low low' high b b' (done (c, b'')) no_fuel le k h = h
Agrees-later low low' high b b' (syntax_error e) (done cmd) le k h = h
Agrees-later low low' high b b' (syntax_error e) (syntax_error e') le k h = h
Agrees-later low low' high b b' (syntax_error e) no_fuel le k h = h
Agrees-later low low' high b b' no_fuel (done cmd) le k h = h
Agrees-later low low' high b b' no_fuel (syntax_error e) le k h = h
Agrees-later low low' high b b' no_fuel no_fuel le k h = h

-- The loop's variables in memory against those on strings.
pub record Matches (high : ℕ) (token : Option ℕ) (t : Token) (cursor : Cursor) (c : BufferCommand)
    : Type 0 where
  pub points : PointsTo 0 token t.saveptr t.bytes cursor
  pub within : t.saveptr + length (read t.bytes t.saveptr) ≤ high
  pub held : IsHeld t.bytes t.saveptr c

-- a function on the variables, in memory and on strings
abbrev pub Simulates :
    ℕ → (Option ℕ → Token → BufferCommand → Outcome) → (Cursor → Command → Parsed Command) → Type 0
Simulates high f g =
    (token : Option ℕ) (t : Token) (cursor : Cursor) (c : BufferCommand)
    → Matches high token t cursor c
    → Agrees t.saveptr high t.bytes (f token t c) (g cursor (load t.bytes c))

-- Behind a call of `strtok_r(NULL, …)`.
pub called :
    (high : ℕ) (t : Token) (c : BufferCommand) (r : Outcome) (g : Cursor → Command → Parsed Command)
    → t.saveptr + length (read t.bytes t.saveptr) ≤ high
    → IsHeld t.bytes t.saveptr c
    → (Matches high
          (next_token_at t).token
          (next_token_at t)
          (next_token (read t.bytes t.saveptr))
          c
        → Keeps t.saveptr high t.bytes (next_token_at t).bytes
        → Agrees
            (next_token_at t).saveptr
            high
            (next_token_at t).bytes
            r
            (g (next_token (read t.bytes t.saveptr)) (load (next_token_at t).bytes c)))
    → Agrees t.saveptr high t.bytes r (g (next_token (read t.bytes t.saveptr)) (load t.bytes c))
called high t c r g within held next =
    let y = strtok_r_at-Yields token_delimiters t.bytes t.saveptr in
    let t' = next_token_at t in
    let keeps =
      Keeps-mono t.saveptr high t.saveptr (t.saveptr + length (read t.bytes t.saveptr)) t.bytes
        t'.bytes (omega arith) within y.keeps in
    let later : Matches high t'.token t' (next_token (read t.bytes t.saveptr)) c = record {
      points = PointsTo-later 0 t.saveptr t'.token t'.saveptr t'.bytes _ (omega arith) y.points;
      within = omega (arith, y.within, within);
      held = IsHeld-Keeps t.saveptr high t.bytes t'.bytes keeps t'.saveptr c y.after held;
    } in
    subst (λ cmd. Agrees t.saveptr high t.bytes r (g (next_token (read t.bytes t.saveptr)) cmd))
      (load-Keeps t.saveptr high t.bytes t'.bytes keeps c held)
      (Agrees-later t.saveptr t'.saveptr high t.bytes t'.bytes r _ y.after keeps (next later keeps))

pub called_on :
    (high : ℕ) (t : Token) (c : BufferCommand) (r : Outcome) (g : Cursor → Command → Parsed Command)
    (rest : Text)
    → read t.bytes t.saveptr ≡ rest
    → t.saveptr + length (read t.bytes t.saveptr) ≤ high
    → IsHeld t.bytes t.saveptr c
    → ((cursor : Cursor)
        → Matches high (next_token_at t).token (next_token_at t) cursor c
        → Keeps t.saveptr high t.bytes (next_token_at t).bytes
        → Agrees
            (next_token_at t).saveptr
            high
            (next_token_at t).bytes
            r
            (g cursor (load (next_token_at t).bytes c)))
    → Agrees t.saveptr high t.bytes r (g (next_token rest) (load t.bytes c))
called_on high t c r g rest e within held next =
    subst (λ x. Agrees t.saveptr high t.bytes r (g (next_token x) (load t.bytes c))) e
      (called high t c r g within held (next (next_token (read t.bytes t.saveptr))))

pub stopped :
    (high : ℕ) (t : Token) (c : BufferCommand)
    → t.saveptr + length (read t.bytes t.saveptr) ≤ high
    → IsHeld t.bytes t.saveptr c
    → Agrees t.saveptr high t.bytes (done (c, t.bytes)) (done (load t.bytes c))
unfolding Agrees
stopped high t c within held = (
  refl,
  IsHeld-mono t.bytes t.saveptr high c (omega (arith, within)) held,
  Keeps-refl t.saveptr high t.bytes,
)

pub points_some :
    (save : ℕ) (b : Bytes) (p : ℕ) (token rest : Text)
    → PointsTo 0 (some p) save b (some (token, rest))
    → (read b p ≡ token) × Ends b save p × (read b save ≡ rest)
unfolding PointsTo
points_some save b p token rest (low, here, le, more) =
    (here, omega (arith, ap length here, le), more)
