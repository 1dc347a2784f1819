-- ===== src/Heredoc/Input.antt =====
-- The lines that collecting here-documents leaves.
use unix_shell.Base.{
  ℕ, ◌≤◌, ◌≡◌, refl, Bool, List, [], ◌∷◌, Option, none, some, length, arith, Bool-cases, map, inl,
  inr,
}
use unix_shell.Base.Int.{ℤ}
use unix_shell.Cstring.{Text, equal}
use unix_shell.Parser.{Command}
use unix_shell.Expand.{System, expand_command}
use unix_shell.Heredoc.{
  Files, OpenFile, Streams, chomp, write_line, read_body, fill, read_one_heredoc, Collected,
  collected, collect_one, collect_heredocs, close_one, close_heredocs,
}

abbrev pub left : Collected → ℕ
left (code, (cmds, io)) = length io.input

module _ (sys : Files) (interactive : Bool) where
  read_body-input :
      (delim : Text) (lines : List Text) (contents output : Text)
      → length (read_body sys interactive delim lines contents output).1.0 ≤ length lines
  unfolding read_body
  read_body-input delim [] contents output = omega arith
  read_body-input delim (line ∷ lines) contents output =
      elim (Bool-cases (equal (chomp line) delim)) [
        | inl e ↦ rw e (omega arith)
        | inr e ↦ elim (Bool-cases (write_line sys interactive contents (chomp line)).0) [
          | inl w ↦ rw e (rw w (omega (arith, read_body-input delim lines _ _)))
          | inr w ↦ rw e (rw w (omega arith))
        ]
      ]

  fill-input :
      (delim : Text) (io : Streams) (fd : Option ℕ)
      → length (fill sys interactive delim io fd).1.input ≤ length io.input
  unfolding fill
  fill-input delim io none = omega arith
  fill-input delim io (some fd) = read_body-input delim io.input [] io.output

  read-input :
      (delim : Text) (io : Streams)
      → length (read_one_heredoc sys interactive delim io).1.input ≤ length io.input
  unfolding read_one_heredoc
  read-input delim io = fill-input delim io _

  collected-input :
      (continue : Streams → Collected) (cmd : Command) (cmds : List Command)
      (read : Option ℕ × Streams)
      → ((io : Streams) → left (continue io) ≤ length io.input)
      → left (collected sys interactive continue cmd cmds read) ≤ length read.1.input
  unfolding collected
  collected-input continue cmd cmds (none, io) h = omega arith
  collected-input continue cmd cmds (some fd, io) h = h io

  collect_one-input :
      (continue : Streams → Collected) (cmd : Command) (cmds : List Command) (io : Streams)
      (delim : Option Text)
      → ((io : Streams) → left (continue io) ≤ length io.input)
      → left (collect_one sys interactive continue cmd cmds io delim) ≤ length io.input
  unfolding collect_one
  collect_one-input continue cmd cmds io none h = h io
  collect_one-input continue cmd cmds io (some delim) h = omega (
    arith,
    collected-input continue cmd cmds (read_one_heredoc sys interactive delim io) h,
    read-input delim io,
  )

  pub collect_heredocs-input :
      (cmds : List Command) (io : Streams)
      → left (collect_heredocs sys interactive cmds io) ≤ length io.input
  unfolding collect_heredocs
  collect_heredocs-input [] io = omega arith
  collect_heredocs-input (cmd ∷ cmds) io =
      collect_one-input (collect_heredocs sys interactive cmds) cmd cmds io cmd.heredoc_delim
        (collect_heredocs-input cmds)

-- expansion leaves the descriptors alone
pub close_heredocs-expand :
    (sys : System) (last_status : ℤ) (cmds : List Command) (files : List OpenFile)
    → (close_heredocs (map (expand_command sys last_status) cmds) files).1
      ≡ (close_heredocs cmds files).1
unfolding close_heredocs expand_command
close_heredocs-expand sys last_status [] files = refl
close_heredocs-expand sys last_status (cmd ∷ cmds) files =
    close_heredocs-expand sys last_status cmds (close_one cmd.heredoc_fd files)
