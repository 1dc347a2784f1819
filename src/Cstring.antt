-- ===== src/Cstring.antt =====
-- The functions of the C library on strings that the shell calls. A string is the list of its
-- bytes before the terminating NUL.
pub mod Words
pub mod Format
pub mod Memory
use Prim.Native.Char.{code}
use Prim.Native.String.{String}
use unix_shell.Base.{
  ℕ, Bool, true, false, ◌&&◌, ◌||◌, List, [], ◌∷◌, Option, none, some, ◌==◌, leb, if◌then◌else◌,
}

abbrev pub Text : Type 0
Text = List ℕ

-- The bytes of a literal; every literal of the program is ASCII.
abbrev pub codes : String → Text
codes String.[] = []
codes (String.◌∷◌ c s) = code c ∷ codes s

-- `strcmp(a, b) == 0`
unfoldable pub equal : Text → Text → Bool
equal [] [] = true
equal (x ∷ xs) (y ∷ ys) = x == y && equal xs ys
equal _ _ = false

-- `strchr(set, c) != NULL` for a byte of a string
unfoldable pub elem : ℕ → Text → Bool
elem c [] = false
elem c (x ∷ xs) = c == x || elem c xs

-- the part of `s` behind its leading delimiters
unfoldable pub skip : Text → Text → Text
skip delims [] = []
skip delims (c ∷ s) = if elem c delims then skip delims s else c ∷ s

-- `s` up to its first delimiter, which is overwritten by NUL, and what stands behind that
unfoldable pub cut : Text → Text → Text × Text
cut delims [] = ([], [])
cut delims (c ∷ s) =
    let (token, rest) = cut delims s in if elem c delims then ([], s) else (c ∷ token, rest)

cut_nonempty : Text → Text → Option (Text × Text)
cut_nonempty delims [] = none
cut_nonempty delims (c ∷ s) = some (cut delims (c ∷ s))

-- `strtok_r` on what its `saveptr` points at: the next token and the new `saveptr`.
unfoldable pub strtok_r : Text → Text → Option (Text × Text)
unfolding cut_nonempty
strtok_r delims s = cut_nonempty delims (skip delims s)

-- `isspace` of the C locale
unfoldable pub is_space : ℕ → Bool
is_space c = c == 32 || (leb 9 c && leb c 13)

-- What C reads from a buffer: the bytes before the NUL. (A buffer with none is read past its end.)
unfoldable pub c_string : List ℕ → Text
c_string [] = []
c_string (c ∷ s) = if c == 0 then [] else c ∷ c_string s
