-- ===== src/Parser/Lines.antt =====
-- Whole lines: pipelines are read back from their print, and what stands behind the sixteenth
-- command of a line is not read at all.
use unix_shell.Base.{
  ◌+◌, ◌≤◌, ◌<◌, ◌≡◌, refl, ap, ◌∙◌, false, List, [], ◌∷◌, ◌++◌, arith, length, length-append, All,
  All-append, map, append-nil, append_assoc, lt→ltb, le→not_ltb,
}
use unix_shell.Cstring.{Text, elem}
use unix_shell.Cstring.Words.{IsWord, separated, words, words-word, words-word-delim}
use unix_shell.Parser.{
  Command, argc, Pipeline, max_commands, pipe_delimiter, done, parse_pipeline, add_segment,
  segment_parsed, promote,
}
use unix_shell.Parser.Segments.{gather, final_flag, last_background_lem, parse_pipeline-gather}
use unix_shell.Parser.Printer.{
  mark_words, command_words, print_command, print_commands, IsPlainWord, IsPrintable,
}
use unix_shell.Parser.RoundTrip.{parse_command-print_command}

abbrev Clean : Text → Type 0
Clean s = All (λ x. elem x pipe_delimiter ≡ false) s

separated-Clean : (ws : List Text) → All IsPlainWord ws → Clean (separated b' ' ws)
separated-Clean [] h = tt
separated-Clean (w ∷ ws) h = All-append _ w _ h.0.1 (unfold elem in refl, separated-Clean ws h.1)

separated-IsWord :
    (ws : List Text)
    → 0 < length ws
    → All IsPlainWord ws
    → IsWord pipe_delimiter (separated b' ' ws)
separated-IsWord [] n h = absurd (omega arith)
separated-IsWord ([] ∷ ws) n h = absurd h.0.0
separated-IsWord ((c ∷ w) ∷ ws) n h = separated-Clean ((c ∷ w) ∷ ws) h

print_command-IsWord : (cmd : Command) → IsPrintable cmd → IsWord pipe_delimiter (print_command cmd)
unfolding print_command command_words
print_command-IsWord cmd p =
    separated-IsWord (command_words cmd)
      (omega (arith, p.nonempty, length-append (mark_words cmd.background) _, length-append {0}))
      p.words

-- the segments of a print, with a `|` and more text behind it or not
words-print_commands :
    (cmds : List Command)
    → All IsPrintable cmds
    → words pipe_delimiter (print_commands cmds) ≡ map print_command cmds
unfolding print_commands
words-print_commands [] h = unfold words in refl
words-print_commands (c ∷ []) h = words-word pipe_delimiter _ (print_command-IsWord c h.0)
words-print_commands (c ∷ d ∷ cmds) h =
    words-word-delim pipe_delimiter _ b'|' _ (print_command-IsWord c h.0) (unfold elem in refl)
    ∙ ap (◌∷◌ (print_command c)) (words-print_commands (d ∷ cmds) h.1)

words-print_commands-more :
    (c : Command) (cmds : List Command) (s : Text)
    → All IsPrintable (c ∷ cmds)
    → words pipe_delimiter (print_commands (c ∷ cmds) ++ b'|' ∷ s)
      ≡ map print_command (c ∷ cmds) ++ words pipe_delimiter s
unfolding print_commands
words-print_commands-more c [] s h =
    words-word-delim pipe_delimiter _ b'|' s (print_command-IsWord c h.0) (unfold elem in refl)
words-print_commands-more c (d ∷ cmds) s h = rw append_assoc (
    words-word-delim pipe_delimiter _ b'|' _ (print_command-IsWord c h.0) (unfold elem in refl)
    ∙ ap (◌∷◌ (print_command c)) (words-print_commands-more d cmds s h.1))

-- one round on a printed command
gather-print_command :
    (c : Command) (ds : List Command) (segments : List Text)
    → IsPrintable c
    → length ds < max_commands
    → gather (print_command c ∷ segments) ds ≡ gather segments (ds ++ c ∷ [])
unfolding gather segment_parsed add_segment
gather-print_command c ds segments p n =
    rw (lt→ltb (length ds) 16 n, parse_command-print_command c p, lt→ltb 0 (argc c) p.nonempty) refl

gather-print_commands :
    (cmds ds : List Command) (segments : List Text)
    → All IsPrintable cmds
    → length ds + length cmds ≤ max_commands
    → gather (map print_command cmds ++ segments) ds ≡ gather segments (ds ++ cmds)
gather-print_commands [] ds segments h n = rw append-nil refl
gather-print_commands (c ∷ cmds) ds segments h n =
    gather-print_command c ds _ h.0 (omega arith)
    ∙ gather-print_commands cmds (ds ++ c ∷ []) segments h.1
        (omega (arith, length-append ds (c ∷ [])))
    ∙ ap (gather segments) (append_assoc ds (c ∷ []) cmds)

gather-full :
    (segments : List Text) (ds : List Command)
    → length ds ≡ max_commands
    → gather segments ds ≡ done ds
unfolding gather
gather-full [] ds n = refl
gather-full (s ∷ segments) ds n = rw (le→not_ltb (length ds) 16 (omega arith)) refl

abbrev pub line_of : List Command → Pipeline
line_of cmds = record { commands = cmds; background = final_flag cmds }

promote-done : (cmds : List Command) → promote (done cmds) ≡ done (line_of cmds)
unfolding promote
promote-done cmds =
    ap (λ b. done (record { commands = cmds; background = b })) (last_background_lem cmds)

-- A pipeline of at most 16 printable commands, written with `|` between them, is read back as it
-- was, with the last command's `&` as its own.
pub parse_pipeline-print_commands :
    (cmds : List Command)
    → All IsPrintable cmds
    → length cmds ≤ max_commands
    → parse_pipeline (print_commands cmds) ≡ done (line_of cmds)
unfolding gather
parse_pipeline-print_commands cmds h n =
    parse_pipeline-gather (print_commands cmds)
    ∙ rw (words-print_commands cmds h, ← append-nil (map print_command cmds))
        (rw (gather-print_commands cmds [] [] h (omega arith)) (promote-done cmds))

-- Behind 16 printable commands the parser reads nothing: whatever text follows the sixteenth, be
-- it a further command or a syntax error, the line parses to the first 16 commands.
parse_pipeline-more :
    (c : Command) (cmds : List Command) (s : Text)
    → All IsPrintable (c ∷ cmds)
    → length (c ∷ cmds) ≡ max_commands
    → parse_pipeline (print_commands (c ∷ cmds) ++ b'|' ∷ s) ≡ done (line_of (c ∷ cmds))
parse_pipeline-more c cmds s h n =
    parse_pipeline-gather _
    ∙ rw (words-print_commands-more c cmds s h) (
        rw (gather-print_commands (c ∷ cmds) [] _ h (omega arith))
          (rw (gather-full (words pipe_delimiter s) (c ∷ cmds) n) (promote-done (c ∷ cmds))))
