-- ===== src/Heredoc.antt =====
-- heredoc.c and heredoc.h: here-documents, read from the lines behind the command line.
pub mod Closing
pub mod Bodies
pub mod Parsed
pub mod Input
pub mod Tests
use unix_shell.Base.{
  ℕ, ◌≡◌, Bool, true, false, List, [], ◌∷◌, ◌++◌, Option, none, some, ◌==◌, if◌then◌else◌, map,
}
use unix_shell.Base.Int.{ℤ, pos, negsuc}
use unix_shell.Cstring.{Text, codes, equal}
use unix_shell.Parser.{Command, Pipeline}

-- What the process asks the system for: `mkstemp`, given the open descriptors, and `write` to a
-- file, from its contents to the new ones; `none` where the call fails.
pub record Files : Type 0 where
  pub mkstemp : List ℕ → Option ℕ
  pub write : Text → Text → Option Text

-- A temporary file: it has lost its name, so its descriptor is all there is.
abbrev pub OpenFile : Type 0
OpenFile = ℕ × Text

-- The shell's side: the lines that `getline` has still to read, what was printed, the messages of
-- `perror`, less what it puts behind its prefix, and the open temporary files, whose offset is at
-- the start.
pub record Streams : Type 0 where
  pub input : List Text
  pub output : Text
  pub errors : List Text
  pub files : List OpenFile

abbrev pub descriptors : List OpenFile → List ℕ
descriptors = map (λ f. f.0)

-- a line without the newline at its end
unfoldable pub chomp : Text → Text
chomp [] = []
chomp (c ∷ []) = if c == b'\n' then [] else c ∷ []
chomp (c ∷ d ∷ s) = c ∷ chomp (d ∷ s)

abbrev heredoc_error : Text
heredoc_error = codes "mysh: heredoc"

unfoldable pub prompt : Bool → Text → Text
prompt interactive output = if interactive then output ++ codes "> " else output

unfoldable pub close : ℕ → List OpenFile → List OpenFile
close fd [] = []
close fd (file ∷ files) = if file.0 == fd then files else file ∷ close fd files

-- The result, the commands and the streams.
abbrev pub Collected : Type 0
Collected = ℤ × (List Command × Streams)

abbrev pub behind : Command → Collected → Collected
behind cmd (code, (cmds, io)) = (code, (cmd ∷ cmds, io))

module _ (sys : Files) (interactive : Bool) where
  open sys use {mkstemp, write}

  -- `none` where one of the two calls of `write` fails, with the contents that are left
  unfoldable pub write_line : Text → Text → Bool × Text
  write_line contents line = elim (write contents line) [
    | none ↦ (false, contents)
    | some contents' ↦ elim (write contents' (codes "\n")) [
      | none ↦ (false, contents')
      | some contents'' ↦ (true, contents'')
    ]
  ]

  -- The loop over the lines: the contents of the file, the lines left, what was printed, and the
  -- message behind a `write` that fails.
  unfoldable pub read_body :
      Text → List Text → Text → Text → Text × (List Text × (Text × List Text))
  unfolding chomp prompt write_line
  read_body delim [] contents output = (contents, ([], (prompt interactive output, [])))
  read_body delim (line ∷ lines) contents output =
      let (written, contents') = write_line contents (chomp line) in
      let rest = read_body delim lines contents' (prompt interactive output) in
      if equal (chomp line) delim
      then (contents, (lines, (prompt interactive output, [])))
      else if written
      then rest
      else (contents', (lines, (prompt interactive output, heredoc_error ∷ [])))

  unfoldable pub fill : Text → Streams → Option ℕ → Option ℕ × Streams
  unfolding read_body
  fill delim io none = (none, record io { errors = io.errors ++ heredoc_error ∷ [] })
  fill delim io (some fd) =
      let (contents, (lines, (output, errors))) = read_body delim io.input [] io.output in
      (
        some fd,
        record {
          input = lines;
          output = output;
          errors = io.errors ++ errors;
          files = io.files ++ (fd, contents) ∷ [];
        },
      )

  -- the descriptor, or `none` for -1
  unfoldable pub read_one_heredoc : Text → Streams → Option ℕ × Streams
  unfolding fill
  read_one_heredoc delim io = fill delim io (mkstemp (descriptors io.files))

  unfoldable pub collected :
      (Streams → Collected) → Command → List Command → Option ℕ × Streams → Collected
  collected continue cmd cmds (none, io) = (negsuc 0, (cmd ∷ cmds, io))
  collected continue cmd cmds (some fd, io) =
      behind (record cmd { heredoc_fd = pos fd }) (continue io)

  unfoldable pub collect_one :
      (Streams → Collected) → Command → List Command → Streams → Option Text → Collected
  unfolding collected read_one_heredoc
  collect_one continue cmd cmds io none = behind cmd (continue io)
  collect_one continue cmd cmds io (some delim) =
      collected continue cmd cmds (read_one_heredoc delim io)

  unfoldable pub collect_heredocs : List Command → Streams → Collected
  unfolding collect_one
  collect_heredocs [] io = (pos 0, ([], io))
  collect_heredocs (cmd ∷ cmds) io =
      collect_one (collect_heredocs cmds) cmd cmds io cmd.heredoc_delim

-- The pipeline's commands, and the files left open.
unfoldable pub close_one : ℤ → List OpenFile → List OpenFile
unfolding close
close_one (pos fd) files = close fd files
close_one (negsuc n) files = files

abbrev pub no_heredoc : Command → Command
no_heredoc cmd = record cmd { heredoc_fd = negsuc 0 }

unfoldable pub close_heredocs : List Command → List OpenFile → List Command × List OpenFile
unfolding close_one
close_heredocs [] files = ([], files)
close_heredocs (cmd ∷ cmds) files =
    let (cmds', files') = close_heredocs cmds (close_one cmd.heredoc_fd files) in
    (no_heredoc cmd ∷ cmds', files')
