-- ===== src/Parser/Buffer/Held.antt =====
-- Lists of commands with pointers into a line that is still written to.
use unix_shell.Base.{
  ℕ, suc, ◌≤◌, ◌≡◌, refl, ap, ap₂, List, [], ◌∷◌, ◌++◌, length, map, All, All-mono, Bool-cases, inl,
  inr, ltb,
}
use unix_shell.Cstring.Memory.{Bytes}
use unix_shell.Cstring.Memory.Tokens.{Keeps}
use unix_shell.Parser.{add_segment}
use unix_shell.Parser.Buffer.{BufferCommand, load, add_segment_at}
use unix_shell.Parser.Buffer.Commands.{IsHeld, IsHeld-Keeps, IsHeld-mono, load-Keeps, length-load}

abbrev pub AllHeld : Bytes → ℕ → List BufferCommand → Type 0
AllHeld b high cs = All (IsHeld b high) cs

pub AllHeld-Keeps :
    (low high : ℕ) (b b' : Bytes)
    → Keeps low high b b'
    → (to : ℕ) (cs : List BufferCommand) → low ≤ to
    → AllHeld b low cs
    → AllHeld b' to cs
AllHeld-Keeps low high b b' keeps to cs le h =
    All-mono (IsHeld b low) (IsHeld b' to) cs (λ c. IsHeld-Keeps low high b b' keeps to c le) h

pub AllHeld-mono :
    (b : Bytes) (low high : ℕ) (cs : List BufferCommand)
    → low ≤ high
    → AllHeld b low cs
    → AllHeld b high cs
AllHeld-mono b low high cs le h =
    All-mono (IsHeld b low) (IsHeld b high) cs (λ c. IsHeld-mono b low high c le) h

pub loads-Keeps :
    (low high : ℕ) (b b' : Bytes)
    → Keeps low high b b'
    → (cs : List BufferCommand) → AllHeld b low cs
    → map (load b') cs ≡ map (load b) cs
loads-Keeps low high b b' keeps [] h = refl
loads-Keeps low high b b' keeps (c ∷ cs) (x, h) =
    ap₂ ◌∷◌ (load-Keeps low high b b' keeps c x) (loads-Keeps low high b b' keeps cs h)

pub length-loads : (b : Bytes) (cs : List BufferCommand) → length (map (load b) cs) ≡ length cs
length-loads b [] = refl
length-loads b (c ∷ cs) = ap suc (length-loads b cs)

loads-append_one :
    (b : Bytes) (cs : List BufferCommand) (c : BufferCommand)
    → map (load b) (cs ++ c ∷ []) ≡ map (load b) cs ++ load b c ∷ []
loads-append_one b [] c = refl
loads-append_one b (x ∷ cs) c = ap (◌∷◌ (load b x)) (loads-append_one b cs c)

AllHeld-append_one :
    (b : Bytes) (high : ℕ) (cs : List BufferCommand) (c : BufferCommand)
    → AllHeld b high cs
    → IsHeld b high c
    → AllHeld b high (cs ++ c ∷ [])
AllHeld-append_one b high [] c h x = (x, tt)
AllHeld-append_one b high (y ∷ cs) c (z, h) x = (z, AllHeld-append_one b high cs c h x)

pub loads-add_segment_at :
    (b : Bytes) (cs : List BufferCommand) (c : BufferCommand)
    → map (load b) (add_segment_at cs c) ≡ add_segment (map (load b) cs) (load b c)
unfolding add_segment_at add_segment
loads-add_segment_at b cs c = rw (length-load b c) (elim (Bool-cases (ltb 0 (length c.args))) [
  | inl e ↦ rw e (loads-append_one b cs c)
  | inr e ↦ rw e refl
])

pub AllHeld-add_segment_at :
    (b : Bytes) (high : ℕ) (cs : List BufferCommand) (c : BufferCommand)
    → AllHeld b high cs
    → IsHeld b high c
    → AllHeld b high (add_segment_at cs c)
unfolding add_segment_at
AllHeld-add_segment_at b high cs c h x = elim (Bool-cases (ltb 0 (length c.args))) [
  | inl e ↦ rw e (AllHeld-append_one b high cs c h x)
  | inr e ↦ rw e h
]
