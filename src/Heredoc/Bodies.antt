-- ===== src/Heredoc/Bodies.antt =====
-- What collecting reads: each command's file holds the lines up to its delimiter.
use unix_shell.Base.{
  ℕ, ◌≡◌, ◌≢◌, refl, sym, ap, ◌∙◌, Bool, true, false, List, [], ◌∷◌, ◌++◌, Option, none, some, ◌==◌,
  if◌then◌else◌, All, append_assoc, append-nil, ◌⊎◌, inl, inr, ==_refl, Bool-cases,
}
use unix_shell.Base.Int.{ℤ, pos, negsuc}
use unix_shell.Cstring.{Text, codes, equal}
use unix_shell.Cstring.Words.{equal_iff}
use unix_shell.Parser.{Command}
use unix_shell.Heredoc.{
  Files, OpenFile, Streams, descriptors, chomp, prompt, write_line, read_body, fill,
  read_one_heredoc, collected, collect_one, collect_heredocs, Collected,
}
use unix_shell.Heredoc.Closing.{
  IsNew, IsFresh, IsClosed, Holds, Holds1, collect_heredocs-Holds, Keeps,
}

-- the lines as a file, each with a newline behind it
abbrev pub body_of : List Text → Text
body_of [] = []
body_of (l ∷ ls) = chomp l ++ b'\n' ∷ body_of ls

abbrev pub IsBody : Text → List Text → Type 0
IsBody delim = All (λ l. chomp l ≢ delim)

-- the lines that are read, what the file holds, and the lines that are left
pub data IsDocument (delim : Text) : List Text → Text → List Text → Type 0 where
  at_end : (ls : List Text) → IsBody delim ls → IsDocument delim ls (body_of ls) []
  closed :
      (ls rest : List Text) (l : Text)
      → IsBody delim ls
      → chomp l ≡ delim
      → IsDocument delim (ls ++ l ∷ rest) (body_of ls) rest

-- what a command reads from a descriptor
unfoldable pub contents_of : ℕ → List OpenFile → Option Text
contents_of fd [] = none
contents_of fd (file ∷ files) = if file.0 == fd then some file.1 else contents_of fd files

-- Commands before and after, the open files, and the lines before and after.
pub data Reads (files : List OpenFile)
    : List Command → List Command → List Text → List Text → Type 0 where
  none_left : {ls : List Text} → Reads files [] [] ls ls
  plain :
      {cmd : Command} {cmds cmds' : List Command} {ls ls' : List Text}
      → cmd.heredoc_delim ≡ none
      → Reads files cmds cmds' ls ls'
      → Reads files (cmd ∷ cmds) (cmd ∷ cmds') ls ls'
  document :
      {cmd : Command} {cmds cmds' : List Command} {ls ls' ls'' : List Text} (fd : ℕ)
      (delim body : Text)
      → cmd.heredoc_delim ≡ some delim
      → IsDocument delim ls body ls'
      → contents_of fd files ≡ some body
      → Reads files cmds cmds' ls' ls''
      → Reads files (cmd ∷ cmds) (record cmd { heredoc_fd = pos fd } ∷ cmds') ls ls''

IsDocument-line :
    (delim l : Text) {ls rest : List Text} {body : Text}
    → chomp l ≢ delim
    → IsDocument delim ls body rest
    → IsDocument delim (l ∷ ls) (chomp l ++ b'\n' ∷ body) rest
IsDocument-line delim l n (at_end ls h) = at_end (l ∷ ls) (n, h)
IsDocument-line delim l n (closed ls rest l' h e) = closed (l ∷ ls) rest l' (n, h) e

contents_of-append :
    (fd : ℕ) (files more : List OpenFile) {c : Text}
    → contents_of fd files ≡ some c
    → contents_of fd (files ++ more) ≡ some c
unfolding contents_of
contents_of-append fd [] more h = absurd cc
contents_of-append fd (f ∷ files) more h = elim (Bool-cases (f.0 == fd)) [
  | inl e ↦ rw e (rw e at h)
  | inr e ↦ rw e (contents_of-append fd files more (rw e at h))
]

contents_of-new :
    (fd : ℕ) (files : List OpenFile) (c : Text)
    → IsNew fd (descriptors files)
    → contents_of fd (files ++ (fd, c) ∷ []) ≡ some c
unfolding contents_of
contents_of-new fd [] c h = rw (==_refl fd) refl
contents_of-new fd (f ∷ files) c h = rw h.0 (contents_of-new fd files c h.1)

contents_of-Holds1 :
    (fd : ℕ) (z : ℤ) (rest : List OpenFile → Type 0) (files old : List OpenFile) {c : Text}
    → ((o : List OpenFile) → rest o → contents_of fd o ≡ some c → contents_of fd files ≡ some c)
    → Holds1 z rest old
    → contents_of fd old ≡ some c
    → contents_of fd files ≡ some c
unfolding Holds1
contents_of-Holds1 fd (negsuc k) rest files old f h e = f old h e
contents_of-Holds1 fd (pos fd') rest files old f (c', n, h) e =
    f _ h (contents_of-append fd old ((fd', c') ∷ []) e)

-- what is open stays as it is while the other commands collect
contents_of-Holds :
    (fd : ℕ) (cmds : List Command) (files old : List OpenFile) {c : Text}
    → Holds cmds files old
    → contents_of fd old ≡ some c
    → contents_of fd files ≡ some c
unfolding Holds
contents_of-Holds fd [] files old h e = rw h e
contents_of-Holds fd (cmd ∷ cmds) files old h e =
    contents_of-Holds1 fd cmd.heredoc_fd (Holds cmds files) files old
      (λ o h' e'. contents_of-Holds fd cmds files o h' e') h e

abbrev pub IsFull : Files → Type 0
IsFull sys = (contents bytes : Text) → sys.write contents bytes ≡ some (contents ++ bytes)

differ : (a b : Text) → equal a b ≡ false → a ≢ b
differ a b e p = absurd (cc (e, (equal_iff a b).1 p))

-- what collecting returns: every command served, or -1 behind the `mkstemp` that failed
abbrev pub Outcome : Files → List Command → Streams → Collected → Type 0
Outcome sys cmds io (code, (cmds', io')) =
    ((code ≡ pos 0) × Reads io'.files cmds cmds' io.input io'.input)
    ⊎ ((code ≡ negsuc 0) × (sys.mkstemp (descriptors io'.files) ≡ none))

module _ (sys : Files) (interactive : Bool) (full : IsFull sys) where
  write_line-full :
      (contents line : Text)
      → write_line sys interactive contents line ≡ (true, contents ++ (line ++ codes "\n"))
  unfolding write_line
  write_line-full contents line =
      rw (full contents line, write_line)
        (rw (full (contents ++ line) (codes "\n"), append_assoc) refl)

  read_body-IsDocument :
      (delim : Text) (ls : List Text) (contents output : Text)
      → let (contents', (rest, _)) = read_body sys interactive delim ls contents output in
        (body : Text) × (contents' ≡ contents ++ body) × IsDocument delim ls body rest
  unfolding read_body
  read_body-IsDocument delim [] contents output = ([], sym (append-nil contents), at_end [] tt)
  read_body-IsDocument delim (l ∷ ls) contents output = elim (Bool-cases (equal (chomp l) delim)) [
    | inl e ↦
        rw e ([], sym (append-nil contents), closed [] ls l tt ((equal_iff (chomp l) delim).0 e))
    | inr e ↦
        let (body, p, d) =
          read_body-IsDocument delim ls (contents ++ (chomp l ++ codes "\n"))
            (prompt interactive output) in
        rw e (
          rw (write_line-full contents (chomp l)) (
            chomp l ++ b'\n' ∷ body,
            p
                ∙ append_assoc contents _ body
                ∙ ap (◌++◌ contents) (append_assoc (chomp l) (codes "\n") body),
            IsDocument-line delim l (differ (chomp l) delim e) d,
          ))
  ]

  module _ (fresh : IsFresh sys) where
    collected-Reads :
        (continue : Streams → Collected) (cmd : Command) (cmds : List Command) (io : Streams)
        (delim : Text) (opened : Option ℕ)
        → cmd.heredoc_delim ≡ some delim
        → Keeps sys interactive fresh continue
        → ((io : Streams) → Outcome sys cmds io (continue io))
        → sys.mkstemp (descriptors io.files) ≡ opened
        → Outcome sys
            (cmd ∷ cmds)
            io
            (collected sys interactive continue cmd cmds (fill sys interactive delim io opened))
    unfolding collected fill
    collected-Reads continue cmd cmds io delim none d k o e = inr (refl, e)
    collected-Reads continue cmd cmds io delim (some fd) d k o e =
        let (body, p, doc) = read_body-IsDocument delim io.input [] io.output in
        let io1 = (fill sys interactive delim io (some fd)).1 in
        elim (o io1) [
          | inl (c, r) ↦ inl (
            c,
            document fd delim body d doc
                (contents_of-Holds fd _ _ io1.files (k io1)
                  (contents_of-new fd io.files _ (fresh _ fd e) ∙ ap some p))
                r,
          )
          | inr x ↦ inr x
        ]

    one-Reads :
        (continue : Streams → Collected) (cmd : Command) (cmds : List Command) (io : Streams)
        (delim : Option Text)
        → cmd.heredoc_delim ≡ delim
        → Keeps sys interactive fresh continue
        → ((io : Streams) → Outcome sys cmds io (continue io))
        → Outcome sys (cmd ∷ cmds) io (collect_one sys interactive continue cmd cmds io delim)
    unfolding collect_one read_one_heredoc
    one-Reads continue cmd cmds io none d k o = elim (o io) [
      | inl (c, r) ↦ inl (c, plain d r)
      | inr x ↦ inr x
    ]
    one-Reads continue cmd cmds io (some delim) d k o =
        collected-Reads continue cmd cmds io delim _ d k o refl

    -- Where a `write` takes all its bytes, `mkstemp` returns no descriptor that is open, and the
    -- commands hold none at first: either the result is 0, every command with a delimiter has a
    -- descriptor, whose file then holds the lines up to the first that is the
    -- delimiter (or to the end of the input), and the next document starts behind that line; or
    -- the result is -1, and `mkstemp` failed with the descriptors open that are still open.
    pub collect_heredocs-Reads :
        (cmds : List Command) (io : Streams)
        → All IsClosed cmds
        → Outcome sys cmds io (collect_heredocs sys interactive cmds io)
    unfolding collect_heredocs
    collect_heredocs-Reads [] io h = inl (refl, none_left)
    collect_heredocs-Reads (cmd ∷ cmds) io h =
        one-Reads (collect_heredocs sys interactive cmds) cmd cmds io cmd.heredoc_delim refl
          (collect_heredocs-Holds sys interactive fresh cmds h.1)
          (λ io'. collect_heredocs-Reads cmds io' h.1)
