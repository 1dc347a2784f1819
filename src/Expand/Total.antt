-- ===== src/Expand/Total.antt =====
-- Every word has a meaning.
use mathlib.Core.Option.{some}
use native.Mathlib.Decide.{ℕ_discrete}
use unix_shell.Cstring.Format.{decimal_int}
use unix_shell.Base.{
  ℕ, zero, suc, ◌≤◌, ◌<◌, ◌≡◌, refl, ap, ◌⊎◌, inl, inr, Bool, true, false, [], ◌∷◌, ◌++◌, Option,
  arith, length, length-append, take, append-nil, Bool-cases,
}
use unix_shell.Base.Int.{ℤ}
use unix_shell.Cstring.{Text}
use unix_shell.Expand.{
  System, starts_name, in_name, not_brace, name_room, read_while, expand_variables,
}
use unix_shell.Expand.Variables.{
  value, Passes, Stops, Expands, end, plain, last_status, in_braces, open_brace, named, lone,
  expand_variables-Expands,
}

-- what the loops that fill `name[256]` leave
record IsRead (test : ℕ → Bool) (room : ℕ) (s : Text) (r : Text × Text) : Type 0 where
  splits : s ≡ r.0 ++ r.1
  passes : Passes test r.0
  fits : length r.0 ≤ room
  stops : (length r.0 ≡ room) ⊎ Stops test r.1

read_while-IsRead :
    (test : ℕ → Bool) (room : ℕ) (s : Text) → IsRead test room s (read_while test room s)
unfolding read_while
read_while-IsRead test zero s = record {
  splits = refl;
  passes = tt;
  fits = omega arith;
  stops = inl refl;
}
read_while-IsRead test (suc room) [] = record {
  splits = refl;
  passes = tt;
  fits = omega arith;
  stops = inr tt;
}
read_while-IsRead test (suc room) (c ∷ s) = elim (Bool-cases (test c)) [
  | inl e ↦ rw e (read_more e (read_while-IsRead test room s))
  | inr e ↦ rw e (record { splits = refl; passes = tt; fits = omega arith; stops = inr e })
]
  where
    read_more :
        {r : Text × Text}
        → test c ≡ true
        → IsRead test room s r
        → IsRead test (suc room) (c ∷ s) (c ∷ r.0, r.1)
    read_more {r} e h = record {
      splits = ap (◌∷◌ c) h.splits;
      passes = (e, h.passes);
      fits = omega (arith, h.fits);
      stops = elim h.stops [ inl n ↦ inl (omega arith) | inr q ↦ inr q ];
    }

Passes-take_none : (n : ℕ) (s : Text) → n ≡ 0 → Passes not_brace (take n s)
Passes-take_none zero s l = tt
Passes-take_none (suc n) s l = absurd (omega arith)

-- a name of full length with a byte behind it that is no `}`
Passes-take :
    (n : ℕ) (name : Text) (c : ℕ) (rest : Text)
    → n ≡ suc (length name)
    → Passes not_brace name
    → not_brace c ≡ true
    → Passes not_brace (take n (name ++ c ∷ rest))
Passes-take zero name c rest l p e = tt
Passes-take (suc n) [] c rest l p e = (e, Passes-take_none n rest (omega arith))
Passes-take (suc n) (x ∷ name) c rest l p e = (p.0, Passes-take n name c rest (omega arith) p.1 e)

Passes-take_all : (n : ℕ) (s : Text) → Passes not_brace s → Passes not_brace (take n s)
Passes-take_all zero s p = tt
Passes-take_all (suc n) [] p = tt
Passes-take_all (suc n) (x ∷ s) p = (p.0, Passes-take_all n s p.1)

full_length :
    (name rest : Text) (c : ℕ)
    → (length name ≡ name_room) ⊎ Stops not_brace (c ∷ rest)
    → not_brace c ≡ true
    → length name ≡ name_room
full_length name rest c (inl e) h = e
full_length name rest c (inr e) h = cc

not_brace-false : (c : ℕ) → not_brace c ≡ false → c ≡ b'}'
not_brace-false c e = ground arith

module _ (getenv : Text → Option Text) (status : ℤ) where
  abbrev Meaning : Text → Type 0
  Meaning s = (t : Text) × Expands getenv status s t

  abbrev Shorter : ℕ → Type 0
  Shorter fuel = (s : Text) → length s < fuel → Meaning s

  -- behind `${`
  braces_Meaning :
      (fuel : ℕ) (s name rest : Text)
      → Shorter fuel
      → suc (length s) < fuel
      → IsRead not_brace name_room s (name, rest)
      → Meaning (b'$' ∷ b'{' ∷ s)
  braces_Meaning fuel s name [] ih lt r =
      let whole = ih (b'{' ∷ s) lt in
      (
        b'$' ∷ whole.0,
        open_brace (rw (r.splits, append-nil) (Passes-take_all 256 name r.passes)) whole.1,
      )
  braces_Meaning fuel s name (c ∷ rest) ih lt r = elim (Bool-cases (not_brace c)) [
    | inl e ↦
        let whole = ih (b'{' ∷ s) lt in
        let full : length name ≡ 255 = full_length name rest c r.stops e in
        (
          b'$' ∷ whole.0,
          open_brace (rw r.splits (Passes-take 256 name c rest (omega arith) r.passes e)) whole.1,
        )
    | inr e ↦
        let behind = ih rest (omega (arith, ap length r.splits, length-append name (c ∷ rest))) in
        rw (r.splits, not_brace-false c e)
          (value (getenv name) ++ behind.0, in_braces name r.passes r.fits behind.1)
  ]

  -- behind `$` and the first byte of a name
  name_Meaning :
      (fuel c : ℕ) (s name rest : Text)
      → Shorter fuel
      → length (c ∷ s) < fuel
      → starts_name c ≡ true
      → IsRead in_name 254 s (name, rest)
      → Meaning (b'$' ∷ c ∷ s)
  name_Meaning fuel c s name rest ih lt f r =
      let behind = ih rest (omega (arith, ap length r.splits, length-append name rest)) in
      rw r.splits (
        value (getenv (c ∷ name)) ++ behind.0,
        named c name f r.passes (omega (arith, r.fits)) (longer r.stops) behind.1,
      )
    where
      longer :
          (length name ≡ 254) ⊎ Stops in_name rest
          → (length (c ∷ name) ≡ name_room) ⊎ Stops in_name rest
      longer (inl e) = inl (omega arith)
      longer (inr e) = inr e

  dollar_Meaning : (fuel : ℕ) (s : Text) → Shorter fuel → length s < fuel → Meaning (b'$' ∷ s)
  dollar_Meaning fuel [] ih lt = (b'$' ∷ [], lone tt end)
  dollar_Meaning fuel (c ∷ s) ih lt = elim (ℕ_discrete c b'?') [
    | yes e ↦
        let behind = ih s (omega arith) in
        rw e (decimal_int status ++ behind.0, last_status behind.1)
    | no q ↦ elim (ℕ_discrete c b'{') [
      | yes e ↦
          rw e (braces_Meaning fuel s _ _ ih (omega arith) (read_while-IsRead not_brace 255 s))
      | no b ↦ elim (Bool-cases (starts_name c)) [
        | inl f ↦ name_Meaning fuel c s _ _ ih lt f (read_while-IsRead in_name 254 s)
        | inr f ↦ let behind = ih (c ∷ s) lt in (b'$' ∷ behind.0, lone (q, b, f) behind.1)
      ]
    ]
  ]

  word_Meaning : (fuel : ℕ) (s : Text) → length s < fuel → Meaning s
  word_Meaning zero s lt = absurd (omega arith)
  word_Meaning (suc fuel) [] lt = ([], end)
  word_Meaning (suc fuel) (c ∷ s) lt = elim (ℕ_discrete c b'$') [
    | yes e ↦ rw e (dollar_Meaning fuel s (word_Meaning fuel) (omega arith))
    | no ne ↦ let behind = word_Meaning fuel s (omega arith) in (c ∷ behind.0, plain c ne behind.1)
  ]

module _ (sys : System) (ok : (k n : ℕ) → sys.alloc k n ≡ true) (status : ℤ) where
  -- Where memory does not run out, every word has a meaning, and `expand_variables` returns it
  -- with a NUL behind it: its loop ends, whatever stands in the word.
  pub expand_variables_total :
      (s : Text)
      → (t : Text) × Expands sys.getenv status s t
        × (expand_variables sys status s ≡ some (t ++ 0 ∷ []))
  expand_variables_total s =
      let (t, d) = word_Meaning sys.getenv status (suc (length s)) s (omega arith) in
      (t, d, expand_variables-Expands sys ok status d)
