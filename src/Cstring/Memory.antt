-- ===== src/Cstring/Memory.antt =====
-- Strings in memory: a line's bytes with their NULs, pointers as addresses, and `strtok_r` on them,
-- as the C library documents it.
pub mod Reads
pub mod Tokens
use unix_shell.Base.{
  ℕ, suc, ◌+◌, Bool, List, [], ◌∷◌, Option, none, some, ◌==◌, if◌then◌else◌, get_or, set, drop,
}
use unix_shell.Cstring.{Text, elem, c_string}

abbrev pub Bytes : Type 0
Bytes = List ℕ

-- the string at an address
unfoldable pub read : Bytes → ℕ → Text
unfolding c_string
read b p = c_string (drop p b)

unfoldable pub strspn : Text → Text → ℕ
strspn delims [] = 0
strspn delims (c ∷ s) = if elem c delims then suc (strspn delims s) else 0

unfoldable pub strcspn : Text → Text → ℕ
strcspn delims [] = 0
strcspn delims (c ∷ s) = if elem c delims then 0 else suc (strcspn delims s)

-- Where a call of `strtok_r` leaves the caller: the pointer that it returns (NULL is `none`),
-- `saveptr`, and the memory.
pub record Token : Type 0 where
  pub token : Option ℕ
  pub saveptr : ℕ
  pub bytes : Bytes

unfoldable pub token_to : Bytes → ℕ → ℕ → Token
token_to b start end =
    if get_or b end 0 == 0
    then record { token = some start; saveptr = end; bytes = b }
    else record { token = some start; saveptr = suc end; bytes = set b end 0 }

unfoldable pub token_from : Text → Bytes → ℕ → Token
unfolding token_to strcspn read
token_from delims b start =
    if get_or b start 0 == 0
    then record { token = none; saveptr = start; bytes = b }
    else token_to b start (start + strcspn delims (read b start))

unfoldable pub strtok_r_at : Text → Bytes → ℕ → Token
unfolding token_from strspn read
strtok_r_at delims b p = token_from delims b (p + strspn delims (read b p))
