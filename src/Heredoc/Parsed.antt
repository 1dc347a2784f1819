-- ===== src/Heredoc/Parsed.antt =====
-- Parsed pipelines hold no descriptor, so here-documents of a line that was parsed leave none open.
use unix_shell.Base.{◌≡◌, Bool, All, All-mono}
use unix_shell.Cstring.{Text}
use unix_shell.Parser.{Pipeline, done, parse_pipeline}
use unix_shell.Parser.Segments.{IsStage, parse_pipeline-IsPipeline}
use unix_shell.Heredoc.{Files, Streams, collect_heredocs, close_heredocs}
use unix_shell.Heredoc.Closing.{IsFresh, IsClosed, close_heredocs-collect_heredocs}

pub parse_pipeline-IsClosed :
    (line : Text) (p : Pipeline) → parse_pipeline line ≡ done p → All IsClosed p.commands
parse_pipeline-IsClosed line p e =
    All-mono IsStage IsClosed p.commands (λ cmd stage. stage.1.no_fd)
      (parse_pipeline-IsPipeline line e).stages

-- Where a line parses to a pipeline and `mkstemp` returns no descriptor that is open, collecting
-- the pipeline's here-documents and closing what was collected leaves open exactly the files that
-- were open before, whether or not a `mkstemp` or a `write` failed.
parse_pipeline-close_heredocs :
    (sys : Files) (interactive : Bool) (line : Text) (p : Pipeline) (io : Streams)
    → IsFresh sys
    → parse_pipeline line ≡ done p
    → let (_, (cmds, io')) = collect_heredocs sys interactive p.commands io in
      (close_heredocs cmds io'.files).1 ≡ io.files
parse_pipeline-close_heredocs sys interactive line p io fresh e =
    (close_heredocs-collect_heredocs sys interactive fresh p.commands io
      (parse_pipeline-IsClosed line p e)).0
