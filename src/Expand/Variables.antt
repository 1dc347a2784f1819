-- ===== src/Expand/Variables.antt =====
-- What a word means after substitution, as a relation, and that `expand_variables` computes it.
use mathlib.Core.Option.{Option, none, some}
use unix_shell.Base.{
  ℕ, zero, suc, ◌+◌, ◌*◌, ◌≤◌, ◌<◌, ◌≡◌, ◌≢◌, refl, sym, ap, ◌∙◌, ◌⊎◌, inl, inr, Bool, true, false,
  [], ◌∷◌, ◌++◌, arith, length, length-append, All, take, leb, ◌==◌, append_assoc, Bool-cases,
  append-nil,
}
use unix_shell.Base.Int.{ℤ}
use unix_shell.Cstring.{Text}
use unix_shell.Cstring.Format.{decimal_int}
use unix_shell.Expand.{
  System, Strbuf, sb_putc, sb_puts, put_value, starts_name, in_name, not_brace, name_room,
  read_while, braced, dollar, expand_loop, expand_variables,
}

abbrev pub value : Option Text → Text
value none = []
value (some v) = v

abbrev pub Passes : (ℕ → Bool) → Text → Type 0
Passes test s = All (λ c. test c ≡ true) s

-- The name that ends in front of `s` ends there because `s` does not go on with it.
abbrev pub Stops : (ℕ → Bool) → Text → Type 0
Stops test [] = Unit
Stops test (c ∷ s) = test c ≡ false

-- what a `$` stands in front of where it stands for itself
abbrev pub IsLone : Text → Type 0
IsLone [] = Unit
IsLone (c ∷ s) = (c ≢ b'?') × (c ≢ b'{') × (starts_name c ≡ false)

-- `Expands getenv status s t`: the word `s` becomes `t`. A name has at most 255 bytes: a longer
-- one is cut there, and braces that do not close within that stand for themselves.
pub data Expands (getenv : Text → Option Text) (status : ℤ) : Text → Text → Type 0 where
  end : Expands getenv status [] []
  plain :
      {s t : Text} (c : ℕ)
      → c ≢ b'$'
      → Expands getenv status s t
      → Expands getenv status (c ∷ s) (c ∷ t)
  last_status :
      {s t : Text}
      → Expands getenv status s t
      → Expands getenv status (b'$' ∷ b'?' ∷ s) (decimal_int status ++ t)
  in_braces :
      {s t : Text} (name : Text)
      → Passes not_brace name
      → length name ≤ name_room
      → Expands getenv status s t
      → Expands getenv status (b'$' ∷ b'{' ∷ (name ++ b'}' ∷ s)) (value (getenv name) ++ t)
  open_brace :
      {s t : Text}
      → Passes not_brace (take (suc name_room) s)
      → Expands getenv status (b'{' ∷ s) t
      → Expands getenv status (b'$' ∷ b'{' ∷ s) (b'$' ∷ t)
  named :
      {s t : Text} (c : ℕ) (name : Text)
      → starts_name c ≡ true
      → Passes in_name name
      → length (c ∷ name) ≤ name_room
      → (length (c ∷ name) ≡ name_room) ⊎ Stops in_name s
      → Expands getenv status s t
      → Expands getenv status (b'$' ∷ c ∷ (name ++ s)) (value (getenv (c ∷ name)) ++ t)
  lone :
      {s t : Text}
      → IsLone s
      → Expands getenv status s t
      → Expands getenv status (b'$' ∷ s) (b'$' ∷ t)

pub read_while-append :
    (test : ℕ → Bool) (room : ℕ) (name s : Text)
    → Passes test name
    → length name ≤ room
    → (length name ≡ room) ⊎ Stops test s
    → read_while test room (name ++ s) ≡ (name, s)
unfolding read_while
read_while-append test zero [] s p n e = refl
read_while-append test zero (c ∷ name) s p n e = absurd (omega arith)
read_while-append test (suc room) [] [] p n e = refl
read_while-append test (suc room) [] (c ∷ s) p n (inl e) = absurd (omega arith)
read_while-append test (suc room) [] (c ∷ s) p n (inr e) = rw e refl
read_while-append test (suc room) (c ∷ name) s p n e =
    rw (p.0, read_while-append test room name s p.1 (omega arith) (shorter e)) refl
  where
    shorter : (length (c ∷ name) ≡ suc room) ⊎ Stops test s → (length name ≡ room) ⊎ Stops test s
    shorter (inl e) = inl (omega arith)
    shorter (inr e) = inr e

not_brace-brace : (c : ℕ) → (c == b'}') ≡ true → not_brace c ≢ true
not_brace-brace c e p = ground arith

pub ne→not_eq : (a b : ℕ) → a ≢ b → (a == b) ≡ false
ne→not_eq a b h = ground arith

pub starts_name_lem :
    (c : ℕ)
    → starts_name c ≡ true
    → ((c == b'?') ≡ false) × ((c == b'{') ≡ false) × (in_name c ≡ true)
unfolding starts_name in_name
starts_name_lem c h = (ground arith, ground arith, ground arith)

-- braces that do not close leave no `}` behind the name
read_while-open :
    (room : ℕ) (s : Text)
    → Passes not_brace (take (suc room) s)
    → Passes not_brace (take 1 (read_while not_brace room s).1)
unfolding read_while
read_while-open zero s p = p
read_while-open (suc room) [] p = tt
read_while-open (suc room) (c ∷ s) p = rw p.0 (read_while-open room s p.1)

module _ (sys : System) (ok : (k n : ℕ) → sys.alloc k n ≡ true) where
  bytes-sb_putc :
      (sb : Strbuf) (c : ℕ)
      → ((sb_putc sys sb c).0 ≡ true) × ((sb_putc sys sb c).1.bytes ≡ sb.bytes ++ c ∷ [])
  unfolding sb_putc
  bytes-sb_putc sb c =
      rw (ok sb.requests (sb.cap * 2)) (elim (Bool-cases (leb sb.cap (length sb.bytes + 1))) [
        | inl e ↦ rw e (refl, refl)
        | inr e ↦ rw e (refl, refl)
      ])

  bytes-sb_puts : (s : Text) (sb : Strbuf) → (sb_puts sys sb s).1.bytes ≡ sb.bytes ++ s
  unfolding sb_puts
  bytes-sb_puts [] sb = rw append-nil refl
  bytes-sb_puts (c ∷ s) sb = rw ((bytes-sb_putc sb c).0) (
      bytes-sb_puts s (sb_putc sys sb c).1
      ∙ ap (λ k. k ++ s) (bytes-sb_putc sb c).1
      ∙ append_assoc sb.bytes (c ∷ []) s)

  bytes-put_value :
      (o : Option Text) (sb : Strbuf) → (put_value sys sb o).bytes ≡ sb.bytes ++ value o
  unfolding put_value
  bytes-put_value none sb = rw append-nil refl
  bytes-put_value (some v) sb = bytes-sb_puts v sb

  module _ (status : ℤ) where
    -- the next round of the loop, on what was written in this one
    abbrev Continues : ℕ → Text → Text → Type 0
    Continues fuel s t = (sb : Strbuf) → (expand_loop sys status fuel s sb).bytes ≡ sb.bytes ++ t

    after :
        (fuel : ℕ) (s t w : Text) (sb sb' : Strbuf)
        → Continues fuel s t
        → sb'.bytes ≡ sb.bytes ++ w
        → (expand_loop sys status fuel s sb').bytes ≡ sb.bytes ++ (w ++ t)
    after fuel s t w sb sb' h e = h sb' ∙ ap (λ k. k ++ t) e ∙ append_assoc sb.bytes w t

    braced-open :
        (fuel : ℕ) (s t name rest : Text) (sb : Strbuf)
        → Continues fuel s t
        → Passes not_brace (take 1 rest)
        → (braced sys status (expand_loop sys status fuel) sb s name rest).bytes
          ≡ sb.bytes ++ b'$' ∷ t
    unfolding braced
    braced-open fuel s t name [] sb h p =
        after fuel s t (b'$' ∷ []) sb _ h (bytes-sb_putc sb b'$').1
    braced-open fuel s t name (c ∷ rest) sb h p = elim (Bool-cases (c == b'}')) [
      | inl e ↦ absurd (not_brace-brace c e p.0)
      | inr e ↦ rw e (after fuel s t (b'$' ∷ []) sb _ h (bytes-sb_putc sb b'$').1)
    ]

    dollar-lone :
        (fuel : ℕ) (s t : Text) (sb : Strbuf)
        → IsLone s
        → Continues fuel s t
        → (dollar sys status (expand_loop sys status fuel) sb s).bytes ≡ sb.bytes ++ b'$' ∷ t
    unfolding dollar
    dollar-lone fuel [] t sb l h = after fuel [] t (b'$' ∷ []) sb _ h (bytes-sb_putc sb b'$').1
    dollar-lone fuel (c ∷ s) t sb l h =
        rw (ne→not_eq c b'?' l.0, ne→not_eq c b'{' l.1, l.2)
          (after fuel (c ∷ s) t (b'$' ∷ []) sb _ h (bytes-sb_putc sb b'$').1)

    dollar-named :
        (fuel c : ℕ) (name s t : Text) (sb : Strbuf)
        → starts_name c ≡ true
        → read_while in_name name_room (c ∷ (name ++ s)) ≡ (c ∷ name, s)
        → Continues fuel s t
        → (dollar sys status (expand_loop sys status fuel) sb (c ∷ (name ++ s))).bytes
          ≡ sb.bytes ++ (value (sys.getenv (c ∷ name)) ++ t)
    unfolding dollar
    dollar-named fuel c name s t sb f r h =
        rw ((starts_name_lem c f).0, (starts_name_lem c f).1, f, r)
          (after fuel s t _ sb _ h (bytes-put_value (sys.getenv (c ∷ name)) sb))

    dollar-in_braces :
        (fuel : ℕ) (name s t : Text) (sb : Strbuf)
        → read_while not_brace name_room (name ++ b'}' ∷ s) ≡ (name, b'}' ∷ s)
        → Continues fuel s t
        → (dollar sys status (expand_loop sys status fuel) sb (b'{' ∷ (name ++ b'}' ∷ s))).bytes
          ≡ sb.bytes ++ (value (sys.getenv name) ++ t)
    unfolding dollar
    dollar-in_braces fuel name s t sb r h =
        rw r (after fuel s t _ sb _ h (bytes-put_value (sys.getenv name) sb))

    -- The loop writes what the relation says.
    expand_loop-Expands :
        (fuel : ℕ) {s t : Text}
        → Expands sys.getenv status s t
        → length s < fuel
        → Continues fuel s t
    unfolding expand_loop
    expand_loop-Expands zero d lt sb = absurd (omega arith)
    expand_loop-Expands (suc fuel) end lt sb = sym (append-nil sb.bytes)
    expand_loop-Expands (suc fuel) (plain {s} {t} c ne d) lt sb =
        rw (ne→not_eq c b'$' ne, expand_loop)
          (after fuel s t (c ∷ []) sb _ (expand_loop-Expands fuel d (omega arith))
            (bytes-sb_putc sb c).1)
    expand_loop-Expands (suc fuel) (last_status {s} {t} d) lt sb =
        after fuel s t (decimal_int status) sb _ (expand_loop-Expands fuel d (omega arith))
          (bytes-sb_puts (decimal_int status) sb)
    expand_loop-Expands (suc fuel) (in_braces {s} {t} name p n d) lt sb =
        dollar-in_braces fuel name s t sb
          (read_while-append not_brace name_room name (b'}' ∷ s) p n (inr refl))
          (expand_loop-Expands fuel d (omega (arith, length-append name (b'}' ∷ s))))
    expand_loop-Expands (suc fuel) (open_brace {s} {t} p d) lt sb =
        braced-open fuel (b'{' ∷ s) t _ _ sb (expand_loop-Expands fuel d (omega arith))
          (read_while-open name_room s p)
    expand_loop-Expands (suc fuel) (named {s} {t} c name f p n e d) lt sb =
        dollar-named fuel c name s t sb f
          (read_while-append in_name name_room (c ∷ name) s ((starts_name_lem c f).2, p) n e)
          (expand_loop-Expands fuel d (omega (arith, length-append name s)))
    expand_loop-Expands (suc fuel) (lone {s} {t} l d) lt sb =
        dollar-lone fuel s t sb l (expand_loop-Expands fuel d (omega arith))

    -- Where memory does not run out, `expand_variables` returns what the word means, with a NUL
    -- behind it.
    pub expand_variables-Expands :
        {s t : Text}
        → Expands sys.getenv status s t
        → expand_variables sys status s ≡ some (t ++ 0 ∷ [])
    unfolding expand_variables
    expand_variables-Expands {s} {t} d = rw (ok 0 64) (
        ap some (
          (bytes-sb_putc (expand_loop sys status (suc (length s)) s start) 0).1
          ∙ ap (λ k. k ++ 0 ∷ []) (expand_loop-Expands (suc (length s)) d (omega arith) start)))
      where
        start : Strbuf
        start = record { bytes = []; cap = 64; requests = 1 }
