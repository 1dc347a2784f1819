-- ===== src/Heredoc/Closing.antt =====
-- Descriptors: what collecting opens, closing closes, whether or not collecting succeeds.
use unix_shell.Base.{
  ℕ, ◌≡◌, refl, ap, subst, ◌∙◌, Bool, false, List, [], ◌∷◌, ◌++◌, Option, none, some, ◌==◌, All,
  append_assoc, append-nil, ==_refl,
}
use unix_shell.Base.Int.{ℤ, pos, negsuc}
use unix_shell.Cstring.{Text}
use unix_shell.Parser.{Command}
use unix_shell.Heredoc.{
  Files, OpenFile, Streams, descriptors, close, close_one, close_heredocs, fill, read_one_heredoc,
  collected, collect_one, collect_heredocs, Collected,
}

-- the descriptor is none of the list's
abbrev pub IsNew : ℕ → List ℕ → Type 0
IsNew fd fds = All (λ x. (x == fd) ≡ false) fds

abbrev pub IsFresh : Files → Type 0
IsFresh sys = (fds : List ℕ) (fd : ℕ) → sys.mkstemp fds ≡ some fd → IsNew fd fds

-- What is open: the files `old`, and one behind them for each command that has a descriptor.
unfoldable pub Holds1 : ℤ → (List OpenFile → Type 0) → List OpenFile → Type 0
Holds1 (pos fd) rest old =
    (contents : Text) × IsNew fd (descriptors old) × rest (old ++ (fd, contents) ∷ [])
Holds1 (negsuc n) rest old = rest old

unfoldable pub Holds : List Command → List OpenFile → List OpenFile → Type 0
unfolding Holds1
Holds [] files old = files ≡ old
Holds (cmd ∷ cmds) files old = Holds1 cmd.heredoc_fd (Holds cmds files) old

abbrev pub IsClosed : Command → Type 0
IsClosed cmd = cmd.heredoc_fd ≡ negsuc 0

IsNew-cut :
    (fd : ℕ) (old mid : List OpenFile) (x : OpenFile)
    → IsNew fd (descriptors (old ++ x ∷ mid))
    → IsNew fd (descriptors (old ++ mid))
IsNew-cut fd [] mid x h = h.1
IsNew-cut fd (y ∷ old) mid x h = (h.0, IsNew-cut fd old mid x h.1)

close-append :
    (fd : ℕ) (old mid : List OpenFile) (contents : Text)
    → IsNew fd (descriptors old)
    → close fd (old ++ (fd, contents) ∷ mid) ≡ old ++ mid
unfolding close
close-append fd [] mid contents h = rw (==_refl fd) refl
close-append fd (y ∷ old) mid contents h =
    rw h.0 (ap (◌∷◌ y) (close-append fd old mid contents h.1))

close-Holds1 :
    (z : ℤ) (before after : List OpenFile → Type 0) (fd : ℕ) (contents : Text)
    (old mid : List OpenFile)
    → ((m : List OpenFile) → before (old ++ (fd, contents) ∷ m) → after (old ++ m))
    → Holds1 z before (old ++ (fd, contents) ∷ mid)
    → Holds1 z after (old ++ mid)
unfolding Holds1
close-Holds1 (negsuc k) before after fd contents old mid f h = f mid h
close-Holds1 (pos fd') before after fd contents old mid f (c, n, h) = (
  c,
  IsNew-cut fd' old mid (fd, contents) n,
  rw append_assoc (f (mid ++ (fd', c) ∷ []) (rw append_assoc at h)),
)

close-Holds :
    (cmds : List Command) (fd : ℕ) (contents : Text) (old mid files : List OpenFile)
    → IsNew fd (descriptors old)
    → Holds cmds files (old ++ (fd, contents) ∷ mid)
    → Holds cmds (close fd files) (old ++ mid)
unfolding Holds
close-Holds [] fd contents old mid files n h = ap (close fd) h ∙ close-append fd old mid contents n
close-Holds (cmd ∷ cmds) fd contents old mid files n h =
    close-Holds1 cmd.heredoc_fd (Holds cmds files) (Holds cmds (close fd files)) fd contents old mid
      (λ m h'. close-Holds cmds fd contents old m files n h') h

close_one-Holds :
    (z : ℤ) (cmds : List Command) (files old : List OpenFile)
    → Holds1 z (Holds cmds files) old
    → Holds cmds (close_one z files) old
unfolding Holds1 close_one
close_one-Holds (negsuc k) cmds files old h = h
close_one-Holds (pos fd) cmds files old (c, n, h) =
    subst (Holds cmds (close fd files)) (append-nil old) (close-Holds cmds fd c old [] files n h)

close_heredocs-Holds :
    (cmds : List Command) (files old : List OpenFile)
    → Holds cmds files old
    → (close_heredocs cmds files).1 ≡ old
unfolding close_heredocs Holds
close_heredocs-Holds [] files old h = h
close_heredocs-Holds (cmd ∷ cmds) files old h =
    close_heredocs-Holds cmds (close_one cmd.heredoc_fd files) old
      (close_one-Holds cmd.heredoc_fd cmds files old h)

close_heredocs-IsClosed :
    (cmds : List Command) (files : List OpenFile) → All IsClosed (close_heredocs cmds files).0
unfolding close_heredocs
close_heredocs-IsClosed [] files = tt
close_heredocs-IsClosed (cmd ∷ cmds) files = (refl, close_heredocs-IsClosed cmds _)

IsClosed-Holds :
    (cmds : List Command) (files : List OpenFile) → All IsClosed cmds → Holds cmds files files
unfolding Holds
IsClosed-Holds [] files h = refl
IsClosed-Holds (cmd ∷ cmds) files h = rw h.0 (IsClosed-Holds cmds files h.1)

module _ (sys : Files) (interactive : Bool) (fresh : IsFresh sys) where
  -- what collecting for the commands behind has to keep
  abbrev pub Keeps : (Streams → Collected) → Type 0
  Keeps continue = (io : Streams) → Holds (continue io).1.0 (continue io).1.1.files io.files

  collected-Holds :
      (continue : Streams → Collected) (cmd : Command) (cmds : List Command) (io : Streams)
      (delim : Text) (opened : Option ℕ)
      → IsClosed cmd
      → All IsClosed cmds
      → Keeps continue
      → sys.mkstemp (descriptors io.files) ≡ opened
      → let (_, (cmds', io')) =
          collected sys interactive continue cmd cmds (fill sys interactive delim io opened) in
        Holds cmds' io'.files io.files
  unfolding collected fill Holds
  collected-Holds continue cmd cmds io delim none c cs k e = rw c (IsClosed-Holds cmds io.files cs)
  collected-Holds continue cmd cmds io delim (some fd) c cs k e =
      (_, fresh _ fd e, k (fill sys interactive delim io (some fd)).1)

  one-Holds :
      (continue : Streams → Collected) (cmd : Command) (cmds : List Command) (io : Streams)
      (delim : Option Text)
      → IsClosed cmd
      → All IsClosed cmds
      → Keeps continue
      → let (_, (cmds', io')) = collect_one sys interactive continue cmd cmds io delim in
        Holds cmds' io'.files io.files
  unfolding collect_one read_one_heredoc Holds
  one-Holds continue cmd cmds io none c cs k = rw c (k io)
  one-Holds continue cmd cmds io (some delim) c cs k =
      collected-Holds continue cmd cmds io delim _ c cs k refl

  pub collect_heredocs-Holds :
      (cmds : List Command) → All IsClosed cmds → Keeps (collect_heredocs sys interactive cmds)
  unfolding collect_heredocs Holds
  collect_heredocs-Holds [] h io = refl
  collect_heredocs-Holds (cmd ∷ cmds) h io =
      one-Holds (collect_heredocs sys interactive cmds) cmd cmds io cmd.heredoc_delim h.0 h.1
        (collect_heredocs-Holds cmds h.1)

  -- Where the commands hold no descriptor at first, and `mkstemp` returns none that is open,
  -- closing the commands that collecting returned leaves exactly the files open that were open
  -- before, and no command with a descriptor, whether or not a `mkstemp` or a `write` failed.
  pub close_heredocs-collect_heredocs :
      (cmds : List Command) (io : Streams)
      → All IsClosed cmds
      → let (_, (cmds', io')) = collect_heredocs sys interactive cmds io in
        let (cmds'', files) = close_heredocs cmds' io'.files in
        (files ≡ io.files) × All IsClosed cmds''
  close_heredocs-collect_heredocs cmds io h = (
    close_heredocs-Holds _ _ io.files (collect_heredocs-Holds cmds h io),
    close_heredocs-IsClosed _ _,
  )
