-- ===== src/Heredoc/Tests.antt =====
-- Here-documents of a small pipeline, and the theorems about them at it.
use unix_shell.Base.{
  ℕ, ◌+◌, ◌<◌, ◌≤◌, subst, ◌≡◌, refl, true, false, List, [], ◌∷◌, ◌++◌, some, All, arith,
}
use unix_shell.Cstring.{Text, codes, equal, elem, skip, cut, strtok_r}
use unix_shell.Parser.{
  Command, Pipeline, empty_command, done, parse_pipeline, is_redirection, set_redirection,
  last_background,
}
use unix_shell.Heredoc.{Files, Streams, chomp, prompt, write_line, collect_heredocs, close_heredocs}
use unix_shell.Heredoc.Closing.{IsNew, IsFresh, IsClosed, close_heredocs-collect_heredocs}
use unix_shell.Heredoc.Bodies.{Outcome, collect_heredocs-Reads}

abbrev above : List ℕ → ℕ
above [] = 1
above (fd ∷ fds) = fd + above fds

-- a disk with room, and a descriptor above all that are open
abbrev pub disk : Files
disk = record {
  mkstemp = λ fds. some (above fds);
  write = λ contents bytes. some (contents ++ bytes);
}

above_positive : (fds : List ℕ) → 0 < above fds
above_positive [] = omega arith
above_positive (x ∷ fds) = omega (arith, above_positive fds)

IsNew-above : (fd : ℕ) (fds : List ℕ) → above fds ≤ fd → IsNew fd fds
IsNew-above fd [] le = tt
IsNew-above fd (x ∷ fds) le = (ground (arith, above_positive fds), IsNew-above fd fds (omega arith))

some_injective {ℓ} : {A : Type ℓ} {a b : A} → some a ≡ some b → a ≡ b
some_injective e = cc

pub disk-IsFresh : IsFresh disk
disk-IsFresh fds fd e =
    subst (λ x. IsNew x fds) (some_injective e) (IsNew-above _ fds (omega arith))

abbrev two_documents : List Command
two_documents =
    record empty_command { args = codes "cat" ∷ []; heredoc_delim = some (codes "A") }
    ∷ record empty_command { args = codes "wc" ∷ [] }
    ∷ record empty_command { args = codes "sort" ∷ []; heredoc_delim = some (codes "B") }
    ∷ []

abbrev typed : Streams
typed = record {
  input = codes "one\n" ∷ codes "A\n" ∷ codes "two\n" ∷ codes "A\n" ∷ [];
  output = [];
  errors = [];
  files = [];
}

collected_bodies :
    (collect_heredocs disk true two_documents typed).1.1.files
    ≡ (1, codes "one\n") ∷ (2, codes "two\nA\n") ∷ []
unfolding collect_heredocs equal chomp write_line prompt
collected_bodies = refl

close_heredocs-collect_heredocs_example :
    let (_, (cmds', io')) = collect_heredocs disk true two_documents typed in
    let (cmds'', files) = close_heredocs cmds' io'.files in (files ≡ []) × All IsClosed cmds''
close_heredocs-collect_heredocs_example =
    close_heredocs-collect_heredocs disk true disk-IsFresh two_documents typed
      (refl, (refl, (refl, tt)))

collect_heredocs-Reads_example :
    Outcome disk two_documents typed (collect_heredocs disk true two_documents typed)
collect_heredocs-Reads_example =
    collect_heredocs-Reads disk true (λ c b. refl) disk-IsFresh two_documents typed
      (refl, (refl, (refl, tt)))

abbrev one_line : Text
one_line = codes "cat << A | wc"

abbrev parsed_line : Pipeline
parsed_line = record {
  commands =
      record empty_command { args = codes "cat" ∷ []; heredoc_delim = some (codes "A") }
      ∷ record empty_command { args = codes "wc" ∷ [] }
      ∷ [];
  background = false;
}

one_line-parsed : parse_pipeline one_line ≡ done parsed_line
unfolding parse_pipeline strtok_r skip cut elem equal is_redirection set_redirection last_background
one_line-parsed = refl
