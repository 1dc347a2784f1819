-- ===== src/History/Tests.antt =====
-- A session of three lines, and the theorems about the history at it.
use unix_shell.Base.{◌≡◌, refl, List, [], ◌∷◌, some}
use unix_shell.Cstring.{Text, codes, is_space}
use unix_shell.Cstring.Format.{decimal}
use unix_shell.History.{empty_history, add_lines, history_print, trim}
use unix_shell.History.Trim.{IsTrimmed, trim-IsTrimmed}

abbrev session : List Text
session = codes "ls -la\n" ∷ codes " \t\n" ∷ codes "pwd \n" ∷ []

printed :
    history_print (add_lines some empty_history session)
    ≡ codes "    1  ls -la\n" ∷ codes "    2  pwd\n" ∷ []
unfolding history_print add_lines empty_history decimal is_space
printed = refl

trim-IsTrimmed_example : IsTrimmed (codes "pwd \n") (trim (codes "pwd \n"))
trim-IsTrimmed_example = trim-IsTrimmed (codes "pwd \n")
