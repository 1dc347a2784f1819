-- ===== src/Expand/Buffer.antt =====
-- `expand_variables` keeps its place to write inside the buffer, whether or not memory runs out.
use unix_shell.Base.{◌<◌, length}
use unix_shell.Base.Int.{ℤ}
use unix_shell.Cstring.{Text}
use unix_shell.Expand.{System, Strbuf}

-- The byte at `len`, which is written next, lies in the allocation.
abbrev pub IsRoomy : Strbuf → Type 0
IsRoomy sb = length sb.bytes < sb.cap

module _ (sys : System) where
  module _ (status : ℤ) where
    abbrev Keeps : (Text → Strbuf → Strbuf) → Type 0
    Keeps continue = (s : Text) (sb : Strbuf) → IsRoomy sb → IsRoomy (continue s sb)
