-- ===== src/Builtins/JobSpec.antt =====
-- A job's number, as the listings print it, names the job to `fg`, `bg` and `kill`.
use unix_shell.Base.{
  ℕ, zero, suc, ◌+◌, ◌*◌, ◌/◌, ◌%◌, ◌<◌, ◌≡◌, refl, ◌∙◌, ap, inl, inr, true, false, [], ◌∷◌, some,
  arith, ltb, ltb→lt, not_ltb→le, ◌==◌, Bool-cases,
}
use unix_shell.Base.Int.{pos}
use unix_shell.Cstring.{Text, is_space}
use unix_shell.Cstring.Format.{
  decimal_onto, decimal, is_digit, digits_value, skip_space, atoi, signed_value,
}
use unix_shell.Builtins.{parse_job_id, job_digits, digits_id}

StartsDigit : Text → Type 0
StartsDigit [] = ⊥
StartsDigit (c ∷ s) = is_digit c ≡ true

digit-is_digit : (n : ℕ) → is_digit (b'0' + n % 10) ≡ true
unfolding is_digit
digit-is_digit n = ground arith

decimal_onto-StartsDigit :
    (fuel n : ℕ) (out : Text) → n < fuel → StartsDigit (decimal_onto fuel n out)
unfolding decimal_onto StartsDigit
decimal_onto-StartsDigit zero n out lt = absurd (omega arith)
decimal_onto-StartsDigit (suc fuel) n out lt = elim (Bool-cases (ltb n 10)) [
  | inl e ↦ rw e (digit-is_digit n)
  | inr e ↦
      let le = not_ltb→le n 10 e in
      rw e (decimal_onto-StartsDigit fuel (n / 10) ((b'0' + n % 10) ∷ out) (omega arith))
]

digits_value-digit :
    (k n : ℕ) (out : Text)
    → digits_value k ((b'0' + n % 10) ∷ out) ≡ digits_value (k * 10 + n % 10) out
unfolding digits_value
digits_value-digit k n out =
    rw (digit-is_digit n) (ap (λ x. digits_value (k * 10 + x) out) (omega arith))

digits_value-decimal_onto :
    (fuel n : ℕ) (out : Text)
    → n < fuel
    → digits_value 0 (decimal_onto fuel n out) ≡ digits_value n out
unfolding decimal_onto
digits_value-decimal_onto zero n out lt = absurd (omega arith)
digits_value-decimal_onto (suc fuel) n out lt = elim (Bool-cases (ltb n 10)) [
  | inl e ↦
      let small = ltb→lt n 10 e in
      rw e (digits_value-digit 0 n out ∙ ap (λ x. digits_value x out) (omega arith))
  | inr e ↦
      let le = not_ltb→le n 10 e in
      rw e (
        digits_value-decimal_onto fuel (n / 10) ((b'0' + n % 10) ∷ out) (omega arith)
        ∙ digits_value-digit (n / 10) n out
        ∙ ap (λ x. digits_value x out) (omega arith))
]

-- a digit is no white space, no sign and no `%`
digit-plain :
    (c : ℕ)
    → is_digit c ≡ true
    → (is_space c ≡ false) × ((c == b'-') ≡ false) × ((c == b'+') ≡ false) × ((c == b'%') ≡ false)
unfolding is_digit is_space
digit-plain c h = ground arith

atoi-StartsDigit : (s : Text) → StartsDigit s → atoi s ≡ pos (digits_value 0 s)
unfolding atoi skip_space signed_value StartsDigit
atoi-StartsDigit [] h = absurd h
atoi-StartsDigit (c ∷ s) h =
    let (space, minus, plus, _) = digit-plain c h in rw space (rw minus (rw plus refl))

job_spec-digits :
    (s : Text)
    → StartsDigit s
    → (parse_job_id (some (b'%' ∷ s)) ≡ atoi s) × (parse_job_id (some s) ≡ atoi s)
unfolding parse_job_id job_digits digits_id StartsDigit
job_spec-digits [] h = absurd h
job_spec-digits (c ∷ s) h = let (_, _, _, percent) = digit-plain c h in (refl, rw percent refl)

-- `%` and a job's number, or the number alone, is parsed to that number, where an `int` can hold it.
pub parse_job_id-decimal :
    (n : ℕ)
    → n < 2147483648
    → (parse_job_id (some (b'%' ∷ decimal n)) ≡ pos n) × (parse_job_id (some (decimal n)) ≡ pos n)
unfolding decimal digits_value
parse_job_id-decimal n fits =
    let starts = decimal_onto-StartsDigit (suc n) n [] (omega arith) in
    let value =
      atoi-StartsDigit (decimal n) starts
      ∙ ap pos (digits_value-decimal_onto (suc n) n [] (omega arith)) in
    let (spec, bare) = job_spec-digits (decimal n) starts in (spec ∙ value, bare ∙ value)
