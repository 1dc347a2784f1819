-- ===== src/Cstring/Format.antt =====
-- The conversions of `printf` and `snprintf` that the shell uses, and `atoi`.
use unix_shell.Base.{
  ℕ, zero, suc, ◌+◌, ◌-◌, ◌*◌, ◌/◌, ◌%◌, Bool, ◌&&◌, [], ◌∷◌, ◌++◌, ltb, leb, ◌==◌, if◌then◌else◌,
  length, replicate, take,
}
use unix_shell.Base.Int.{ℤ, pos, negsuc, neg_of_ℕ}
use unix_shell.Cstring.{Text, is_space}

-- The digits of `n` in front of `out`; each round divides `n` by ten, so `n + 1` is enough fuel.
unfoldable pub decimal_onto : ℕ → ℕ → Text → Text
decimal_onto zero n out = out
decimal_onto (suc fuel) n out =
    let digit = b'0' + n % 10 in
    let rest = decimal_onto fuel (n / 10) (digit ∷ out) in if ltb n 10 then digit ∷ out else rest

-- `%d` of a number that is not negative
unfoldable pub decimal : ℕ → Text
unfolding decimal_onto
decimal n = decimal_onto (suc n) n []

-- `%d`
unfoldable pub decimal_int : ℤ → Text
unfolding decimal
decimal_int (pos n) = decimal n
decimal_int (negsuc n) = b'-' ∷ decimal (suc n)

-- `%5d` on the digits, and `%-7s`
abbrev pub pad_left : ℕ → Text → Text
pad_left width s = replicate (width - length s) b' ' ++ s

abbrev pub pad_right : ℕ → Text → Text
pad_right width s = s ++ replicate (width - length s) b' '

-- what `snprintf` leaves of a string in a buffer of `size` bytes
abbrev pub truncated : ℕ → Text → Text
truncated size s = take (size - 1) s

unfoldable pub is_digit : ℕ → Bool
is_digit c = leb b'0' c && leb c b'9'

-- the number that the leading digits of a string spell, behind those that spell `n`
unfoldable pub digits_value : ℕ → Text → ℕ
unfolding is_digit
digits_value n [] = n
digits_value n (c ∷ s) =
    let rest = digits_value (n * 10 + (c - b'0')) s in if is_digit c then rest else n

unfoldable pub skip_space : Text → Text
unfolding is_space
skip_space [] = []
skip_space (c ∷ s) = if is_space c then skip_space s else c ∷ s

unfoldable pub signed_value : Text → ℤ
unfolding digits_value
signed_value [] = pos 0
signed_value (c ∷ s) =
    if c == b'-'
    then neg_of_ℕ (digits_value 0 s)
    else if c == b'+'
    then pos (digits_value 0 s)
    else pos (digits_value 0 (c ∷ s))

-- `atoi`, with the value that the text spells; C defines it where that is an `int`.
unfoldable pub atoi : Text → ℤ
unfolding signed_value skip_space
atoi s = signed_value (skip_space s)
