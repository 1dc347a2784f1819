-- ===== src/Expand.antt =====
-- expand.c: variables and file name patterns.
pub mod Buffer
pub mod Variables
pub mod Words
pub mod Memory
pub mod Freed
pub mod Owned
pub mod Released
pub mod Total
pub mod Tests
use mathlib.Core.Option
use mathlib.Core.Option.{Option, none, some}
use unix_shell.Base.{
  ℕ, zero, suc, ◌+◌, ◌-◌, ◌*◌, Bool, true, false, not, ◌&&◌, ◌||◌, List, [], ◌∷◌, ◌++◌, ltb, leb,
  ◌==◌, if◌then◌else◌, length, map,
}
use unix_shell.Base.Int.{ℤ}
use unix_shell.Cstring.{Text, codes, elem, c_string}
use unix_shell.Cstring.Format.{decimal_int}
use unix_shell.Parser.{Command, Pipeline, max_args}

-- `strbuf_t`: the bytes written so far, and the size of the allocation. `len` is their number. With
-- them, how often `malloc` and `realloc` were called for the buffer.
pub record Strbuf : Type 0 where
  pub bytes : List ℕ
  pub cap : ℕ
  pub requests : ℕ

-- What the process asks the system for: whether the call of `malloc` and `realloc` with that number,
-- counted from 0 for each buffer, yields so many bytes, `getenv`, and `glob` with GLOB_NOCHECK (`none` where it fails).
pub record System : Type 0 where
  pub alloc : ℕ → ℕ → Bool
  pub getenv : Text → Option Text
  pub glob : Text → Option (List Text)

-- `isalpha` and `isalnum` of the C locale
abbrev pub within : ℕ → ℕ → ℕ → Bool
within lo hi c = leb lo c && leb c hi

unfoldable pub is_alpha : ℕ → Bool
is_alpha c = within b'a' b'z' c || within b'A' b'Z' c

unfoldable pub starts_name : ℕ → Bool
unfolding is_alpha
starts_name c = is_alpha c || c == b'_'

unfoldable pub in_name : ℕ → Bool
unfolding is_alpha
in_name c = is_alpha c || within b'0' b'9' c || c == b'_'

-- The loops that fill `name[256]`: the bytes that pass, at most `room` of them, and the rest.
unfoldable pub read_while : (ℕ → Bool) → ℕ → Text → Text × Text
read_while test zero s = ([], s)
read_while test (suc room) [] = ([], [])
read_while test (suc room) (c ∷ s) =
    let (name, rest) = read_while test room s in if test c then (c ∷ name, rest) else ([], c ∷ s)

abbrev pub name_room : ℕ
name_room = 255

abbrev pub not_brace : ℕ → Bool
not_brace c = not (c == b'}')

module _ (sys : System) where
  open sys use {alloc, getenv, glob}

  unfoldable pub sb_init : Option Strbuf
  sb_init = if alloc 0 64 then some (record { bytes = []; cap = 64; requests = 1 }) else none

  -- whether the byte was written, and the buffer
  unfoldable pub sb_putc : Strbuf → ℕ → Bool × Strbuf
  sb_putc sb c =
      let written = sb.bytes ++ c ∷ [] in
      if leb sb.cap (length sb.bytes + 1)
      then (if alloc sb.requests (sb.cap * 2)
          then (true, record { bytes = written; cap = sb.cap * 2; requests = suc sb.requests })
          else (false, record sb { requests = suc sb.requests }))
      else (true, record sb { bytes = written })

  unfoldable pub sb_puts : Strbuf → Text → Bool × Strbuf
  unfolding sb_putc
  sb_puts sb [] = (true, sb)
  sb_puts sb (c ∷ s) =
      let (written, sb') = sb_putc sb c in
      let rest = sb_puts sb' s in if written then rest else (false, sb')

  -- a variable that is not set expands to nothing
  unfoldable pub put_value : Strbuf → Option Text → Strbuf
  unfolding sb_puts
  put_value sb none = sb
  put_value sb (some v) = (sb_puts sb v).1

  module _ (last_status : ℤ) where
    -- behind `${`, on the name and what follows it; `s` is the string behind the `$`
    unfoldable pub braced : (Text → Strbuf → Strbuf) → Strbuf → Text → Text → Text → Strbuf
    unfolding sb_putc put_value
    braced continue sb s name (c ∷ rest) =
        if c == b'}'
        then continue rest (put_value sb (getenv name))
        else continue s (sb_putc sb b'$').1
    braced continue sb s name [] = continue s (sb_putc sb b'$').1

    -- behind a `$`
    unfoldable pub dollar : (Text → Strbuf → Strbuf) → Strbuf → Text → Strbuf
    unfolding braced starts_name in_name read_while
    dollar continue sb [] = continue [] (sb_putc sb b'$').1
    dollar continue sb (next ∷ s) =
        if next == b'?'
        then continue s (sb_puts sb (decimal_int last_status)).1
        else if next == b'{'
        then (let (name, rest) = read_while not_brace name_room s in
            braced continue sb (next ∷ s) name rest)
        else if starts_name next
        then (let (name, rest) = read_while in_name name_room (next ∷ s) in
            continue rest (put_value sb (getenv name)))
        else continue (next ∷ s) (sb_putc sb b'$').1

    -- The loop of `expand_variables`, on the string from `i` on. Each round takes a byte off it.
    unfoldable pub expand_loop : ℕ → Text → Strbuf → Strbuf
    unfolding dollar
    expand_loop zero s sb = sb
    expand_loop (suc fuel) [] sb = sb
    expand_loop (suc fuel) (c ∷ s) sb = elim (c == b'$') [
      | true ↦ dollar (expand_loop fuel) sb s
      | false ↦ expand_loop fuel s (sb_putc sb c).1
    ]

    expand_into : Text → Option Strbuf → Option (List ℕ)
    unfolding expand_loop
    expand_into s none = none
    expand_into s (some sb) = some (sb_putc (expand_loop (suc (length s)) s sb) 0).1.bytes

    -- The buffer that is returned, its NUL included.
    unfoldable pub expand_variables : Text → Option (List ℕ)
    unfolding expand_into sb_init
    expand_variables s = expand_into s sb_init

-- `strpbrk(s, "*?[") != NULL`
unfoldable pub has_glob : Text → Bool
has_glob [] = false
has_glob (c ∷ s) = elem c (codes "*?[") || has_glob s

module _ (sys : System) (last_status : ℤ) where
  open sys use {glob}

  abbrev expanded : Text → Option Text
  expanded s = Option.map c_string (expand_variables sys last_status s)

  first_match : Text → Option (List Text) → Text
  first_match v (some (path ∷ paths)) = path
  first_match v _ = v

  glob_first : Option Text → Option Text
  unfolding first_match has_glob
  glob_first none = none
  glob_first (some v) = some (if has_glob v then first_match v (glob v) else v)

  -- `none` where memory runs out
  unfoldable pub expand_word : Text → Option Text
  unfolding glob_first expand_variables c_string
  expand_word s = glob_first (expanded s)

  -- the loop over the matches of a pattern
  unfoldable pub add_matches : List Text → List Text → List Text
  add_matches new [] = new
  add_matches new (path ∷ paths) =
      let rest = add_matches (new ++ path ∷ []) paths in
      if ltb (length new) (max_args - 1) then rest else new

  add_globbed : List Text → Text → Option (List Text) → List Text
  unfolding add_matches
  add_globbed new word none = new ++ word ∷ []
  add_globbed new word (some paths) = add_matches new paths

  unfoldable pub add_word : List Text → Option Text → List Text
  unfolding add_globbed has_glob
  add_word new none = new
  add_word new (some word) =
      if has_glob word then add_globbed new word (glob word) else new ++ word ∷ []

  -- the loop over the arguments, on `new_args` so far
  unfoldable pub expand_args : List Text → List Text → List Text
  unfolding add_word expand_variables c_string
  expand_args new [] = new
  expand_args new (arg ∷ args) =
      let rest = expand_args (add_word new (expanded arg)) args in
      if ltb (length new) (max_args - 1) then rest else new

  unfoldable pub expand_file : Option Text → Option Text
  unfolding expand_word
  expand_file none = none
  expand_file (some file) = expand_word file

  unfoldable pub expand_command : Command → Command
  unfolding expand_args expand_file
  expand_command cmd = record cmd {
    args = expand_args [] cmd.args;
    input_file = expand_file cmd.input_file;
    output_file = expand_file cmd.output_file;
  }

  unfoldable pub expand_pipeline : Pipeline → Pipeline
  unfolding expand_command
  expand_pipeline p = record p { commands = map expand_command p.commands }
