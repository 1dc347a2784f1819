-- ===== src/Parser/Language.antt =====
-- What a line means, said without the loops: its segments stand between `|`, those with arguments
-- are the stages, and the line is read up to the sixteenth stage.
use unix_shell.Base.{
  ℕ, zero, suc, ◌+◌, ◌≡◌, refl, ap, ◌∙◌, Bool, List, [], ◌∷◌, ◌++◌, append-nil, append_assoc,
  Option, none, some, arith, length, length-append, ltb, lt→ltb, le→not_ltb, map, if◌then◌else◌,
  Bool-cases, inl, inr,
}
use unix_shell.Cstring.{Text}
use unix_shell.Cstring.Words.{words}
use unix_shell.Parser.{
  Command, Pipeline, SyntaxError, Parsed, done, syntax_error, max_commands, pipe_delimiter,
  empty_command, add_segment, segment_parsed, promote, parse_pipeline,
}
use unix_shell.Parser.Grammar.{Item, first_error, arguments, extend, outcome, read_items}
use unix_shell.Parser.Meaning.{parse_command-read_onto}
use unix_shell.Parser.Segments.{gather, parse_pipeline-gather, final_flag, last_background_lem}

-- a segment's items, and whether it is a stage
abbrev pub is_stage : List Item → Bool
is_stage is = ltb 0 (length (arguments is))

unfoldable pub segments : Text → List (List Item)
unfolding read_items words
segments line = map read_items (words pipe_delimiter line)

-- the segments that are read: all up to the `n`th stage
unfoldable pub seen : ℕ → List (List Item) → List (List Item)
seen zero segs = []
seen (suc n) [] = []
seen (suc n) (is ∷ segs) =
    let behind_stage = seen n segs in
    let behind = seen (suc n) segs in is ∷ (if is_stage is then behind_stage else behind)

-- the error of the first segment that has one
unfoldable pub line_error : List (List Item) → Option SyntaxError
unfolding first_error
line_error [] = none
line_error (is ∷ segs) =
    let later = line_error segs in elim (first_error is) [ none ↦ later | some e ↦ some e ]

unfoldable pub stages : List (List Item) → List Command
unfolding arguments
stages [] = []
stages (is ∷ segs) =
    let later = stages segs in if is_stage is then extend empty_command is ∷ later else later

abbrev result : Option SyntaxError → List Command → Parsed (List Command)
result none cmds = done cmds
result (some e) cmds = syntax_error e

abbrev pipeline_of : List Command → Pipeline
pipeline_of cmds = record { commands = cmds; background = final_flag cmds }

unfoldable pub line_meaning : Text → Parsed Pipeline
unfolding line_error stages seen segments
line_meaning line =
    let read = seen max_commands (segments line) in
    elim (line_error read) [ none ↦ done (pipeline_of (stages read)) | some e ↦ syntax_error e ]

abbrev read_segments : ℕ → List Text → List (List Item)
read_segments k ss = seen k (map read_items ss)

line_error_here :
    (is : List Item) (segs : List (List Item)) (e : SyntaxError)
    → first_error is ≡ some e
    → line_error (is ∷ segs) ≡ some e
unfolding line_error
line_error_here is segs e h = rw (h, line_error) refl

line_error_behind :
    (is : List Item) (segs : List (List Item))
    → first_error is ≡ none
    → line_error (is ∷ segs) ≡ line_error segs
unfolding line_error
line_error_behind is segs h = rw (h, line_error) refl

-- One round, on the error that the segment's items have; `rest` is about the segments behind it.
module _ (ss : List Text)
    (rest : (k : ℕ) (cmds : List Command)
      → length cmds + k ≡ max_commands
      → gather ss cmds
        ≡ result (line_error (read_segments k ss)) (cmds ++ stages (read_segments k ss))) where
  segment_means :
      (k : ℕ) (cmds : List Command) (is : List Item) (error : Option SyntaxError)
      → first_error is ≡ error
      → length cmds + suc k ≡ max_commands
      → segment_parsed (gather ss) cmds (outcome error (extend empty_command is))
        ≡ result
            (line_error (seen (suc k) (is ∷ map read_items ss)))
            (cmds ++ stages (seen (suc k) (is ∷ map read_items ss)))
  unfolding segment_parsed seen stages add_segment
  segment_means k cmds is (some e) h n = rw (line_error_here is _ e h) refl
  segment_means k cmds is none h n = elim (Bool-cases (is_stage is)) [
    | inl stage ↦ rw (line_error_behind is _ h) (
        rw stage (
          rest k (cmds ++ extend empty_command is ∷ [])
            (omega (arith, length-append cmds (extend empty_command is ∷ [])))
          ∙ ap (result (line_error (read_segments k ss))) (append_assoc cmds _ _)))
    | inr empty ↦ rw (line_error_behind is _ h) (rw empty (rest (suc k) cmds n))
  ]

gather_means :
    (ss : List Text) (k : ℕ) (cmds : List Command)
    → length cmds + k ≡ max_commands
    → gather ss cmds
      ≡ result (line_error (read_segments k ss)) (cmds ++ stages (read_segments k ss))
unfolding gather
gather_means [] zero cmds n = unfold seen line_error stages in rw append-nil refl
gather_means [] (suc k) cmds n = unfold seen line_error stages in rw append-nil refl
gather_means (s ∷ ss) zero cmds n =
    rw (le→not_ltb (length cmds) 16 (omega arith))
      (unfold seen line_error stages in rw append-nil refl)
gather_means (s ∷ ss) (suc k) cmds n = rw (lt→ltb (length cmds) 16 (omega arith)) (
    rw (parse_command-read_onto s) (
      segment_means ss (gather_means ss) k cmds (read_items s) (first_error (read_items s)) refl n))

promote-result :
    (error : Option SyntaxError) (cmds : List Command)
    → promote (result error cmds)
      ≡ elim error [ none ↦ done (pipeline_of cmds) | some e ↦ syntax_error e ]
unfolding promote
promote-result none cmds = rw (last_background_lem cmds) refl
promote-result (some e) cmds = refl

-- For every line, parse_pipeline ends, and yields what the line means: the error of the first
-- segment with an operator that has no operand, among the segments up to the sixteenth with
-- arguments; or where there is none, the meanings of those with arguments, in order, with the
-- background flag of the last.
pub parse_pipeline-line_meaning : (line : Text) → parse_pipeline line ≡ line_meaning line
unfolding line_meaning segments
parse_pipeline-line_meaning line =
    parse_pipeline-gather line
    ∙ ap promote (gather_means (words pipe_delimiter line) 16 [] refl)
    ∙ promote-result _ _
