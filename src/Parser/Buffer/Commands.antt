-- ===== src/Parser/Buffer/Commands.antt =====
-- Commands with pointers into a line that is still written to.
use mathlib.Core.Option
use unix_shell.Base.{
  ℕ, suc, ◌+◌, ◌≤◌, ◌≡◌, refl, ap, ap₂, List, [], ◌∷◌, ◌++◌, Option, none, some, length, map, All,
  All-mono, arith, Bool-cases, inl, inr,
}
use unix_shell.Cstring.{Text, codes, equal}
use unix_shell.Cstring.Memory.{Bytes, read}
use unix_shell.Cstring.Memory.Tokens.{Keeps}
use unix_shell.Parser.{set_redirection}
use unix_shell.Parser.Buffer.{BufferCommand, load, set_redirection_at}

-- the string at the pointer ends at `high` or before
abbrev pub Ends : Bytes → ℕ → ℕ → Type 0
Ends b high p = p + length (read b p) ≤ high

abbrev pub EndsIfAny : Bytes → ℕ → Option ℕ → Type 0
EndsIfAny b high none = Unit
EndsIfAny b high (some p) = Ends b high p

pub record IsHeld (b : Bytes) (high : ℕ) (c : BufferCommand) : Type 0 where
  pub args : All (Ends b high) c.args
  pub input_file : EndsIfAny b high c.input_file
  pub output_file : EndsIfAny b high c.output_file
  pub heredoc_delim : EndsIfAny b high c.heredoc_delim

module _ (low high : ℕ) (b b' : Bytes) (keeps : Keeps low high b b') where
  Ends-Keeps : (to p : ℕ) → low ≤ to → Ends b low p → Ends b' to p
  Ends-Keeps to p le e = rw ((keeps p).0 e) (omega (arith, e, le))

  EndsIfAny-Keeps : (to : ℕ) (p : Option ℕ) → low ≤ to → EndsIfAny b low p → EndsIfAny b' to p
  EndsIfAny-Keeps to none le e = tt
  EndsIfAny-Keeps to (some p) le e = Ends-Keeps to p le e

  pub IsHeld-Keeps : (to : ℕ) (c : BufferCommand) → low ≤ to → IsHeld b low c → IsHeld b' to c
  IsHeld-Keeps to c le h = record {
    args = All-mono (Ends b low) (Ends b' to) c.args (λ p. Ends-Keeps to p le) h.args;
    input_file = EndsIfAny-Keeps to c.input_file le h.input_file;
    output_file = EndsIfAny-Keeps to c.output_file le h.output_file;
    heredoc_delim = EndsIfAny-Keeps to c.heredoc_delim le h.heredoc_delim;
  }

  reads : (ps : List ℕ) → All (Ends b low) ps → map (read b') ps ≡ map (read b) ps
  reads [] h = refl
  reads (p ∷ ps) (e, h) = ap₂ ◌∷◌ ((keeps p).0 e) (reads ps h)

  reads_if_any : (p : Option ℕ) → EndsIfAny b low p → Option.map (read b') p ≡ Option.map (read b) p
  reads_if_any none e = refl
  reads_if_any (some p) e = ap some ((keeps p).0 e)

  -- Later writes change none of the command's strings.
  pub load-Keeps : (c : BufferCommand) → IsHeld b low c → load b' c ≡ load b c
  unfolding load
  load-Keeps c h = rw (reads c.args h.args) (
      rw (reads_if_any c.input_file h.input_file) (
        rw (reads_if_any c.output_file h.output_file)
          (rw (reads_if_any c.heredoc_delim h.heredoc_delim) refl)))

length-map : (b : Bytes) (ps : List ℕ) → length (map (read b) ps) ≡ length ps
length-map b [] = refl
length-map b (p ∷ ps) = ap suc (length-map b ps)

map-append_one :
    (b : Bytes) (ps : List ℕ) (p : ℕ)
    → map (read b) (ps ++ p ∷ []) ≡ map (read b) ps ++ read b p ∷ []
map-append_one b [] p = refl
map-append_one b (q ∷ ps) p = ap (◌∷◌ (read b q)) (map-append_one b ps p)

pub length-load : (b : Bytes) (c : BufferCommand) → length (load b c).args ≡ length c.args
unfolding load
length-load b c = length-map b c.args

pub IsHeld-mono :
    (b : Bytes) (low high : ℕ) (c : BufferCommand) → low ≤ high → IsHeld b low c → IsHeld b high c
IsHeld-mono b low high c le h =
    IsHeld-Keeps low high b b (λ p. ((λ e. refl), (λ e. refl))) high c le h

All-append_one : (P : ℕ → Type 0) (ps : List ℕ) (p : ℕ) → All P ps → P p → All P (ps ++ p ∷ [])
All-append_one P [] p h e = (e, tt)
All-append_one P (q ∷ ps) p (x, h) e = (x, All-append_one P ps p h e)

pub IsHeld-with_arg :
    (b : Bytes) (high p : ℕ) (c : BufferCommand)
    → Ends b high p
    → IsHeld b high c
    → IsHeld b high (record c { args = c.args ++ p ∷ [] })
IsHeld-with_arg b high p c e h = record {
  args = All-append_one (Ends b high) c.args p h.args e;
  input_file = h.input_file;
  output_file = h.output_file;
  heredoc_delim = h.heredoc_delim;
}

pub load-with_arg :
    (b : Bytes) (p : ℕ) (c : BufferCommand)
    → load b (record c { args = c.args ++ p ∷ [] })
      ≡ record (load b c) { args = (load b c).args ++ read b p ∷ [] }
unfolding load
load-with_arg b p c = rw (map-append_one b c.args p) refl

pub IsHeld-set_redirection :
    (b : Bytes) (high f : ℕ) (word : Text) (c : BufferCommand)
    → Ends b high f
    → IsHeld b high c
    → IsHeld b high (set_redirection_at word f c)
unfolding set_redirection_at
IsHeld-set_redirection b high f word c e h = elim (Bool-cases (equal word (codes "<"))) [
  | inl t ↦ rw t (record {
    args = h.args;
    input_file = e;
    output_file = h.output_file;
    heredoc_delim = h.heredoc_delim;
  })
  | inr t ↦ rw t (record {
    args = h.args;
    input_file = h.input_file;
    output_file = e;
    heredoc_delim = h.heredoc_delim;
  })
]

pub load-set_redirection :
    (b : Bytes) (f : ℕ) (word : Text) (c : BufferCommand)
    → load b (set_redirection_at word f c) ≡ set_redirection word (read b f) (load b c)
unfolding load set_redirection_at set_redirection
load-set_redirection b f word c = elim (Bool-cases (equal word (codes "<"))) [
  | inl t ↦ rw t refl
  | inr t ↦ rw t refl
]
