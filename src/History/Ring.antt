-- ===== src/History/Ring.antt =====
-- The ring holds the last thousand lines of the log, and prints them with their numbers.
use unix_shell.Base.{
  ℕ, ◌+◌, ◌-◌, ◌%◌, ◌≤◌, ◌<◌, ◌≡◌, List, [], ◌∷◌, none, some, length, get_or, min, if◌then◌else◌,
}
use unix_shell.Cstring.{Text}
use unix_shell.History.{History, history_capacity, is_blank, trim, history_line}

-- The ring against the log of all that was ever stored: line `t` of the log is in slot `t % 1000`
-- while it is among the last thousand.
pub record Holds (h : History) (log : List Text) : Type 0 where
  pub slots : length h.entries ≡ history_capacity
  pub total : h.total ≡ length log
  pub size : h.size ≡ min history_capacity (length log)
  pub next : h.next ≡ length log % history_capacity
  pub stored :
      (t : ℕ)
      → t < length log
      → length log ≤ t + history_capacity
      → get_or h.entries (t % history_capacity) none ≡ some (get_or log t [])

-- Lines with their numbers, from `number` on.
unfoldable pub numbered : ℕ → List Text → List Text
numbered number [] = []
numbered number (s ∷ ss) = history_line number s ∷ numbered (number + 1) ss

module _ (h : History) (log : List Text) (r : Holds h log) where
  -- the line of the log that is printed in round `i`
  abbrev place : ℕ → ℕ
  place i = h.total - h.size + i

-- What is stored of the lines that are entered: of each that is not blank, the trimmed text.
unfoldable pub recorded : List Text → List Text
recorded [] = []
recorded (line ∷ lines) =
    let rest = recorded lines in if is_blank line then rest else trim line ∷ rest
