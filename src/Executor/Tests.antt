-- ===== src/Executor/Tests.antt =====
-- A pipeline's label and a group that is waited for, and the theorems about them at it.
use unix_shell.Base.{◌≡◌, refl, true, false, [], ◌∷◌}
use unix_shell.Base.Int.{ℤ}
use unix_shell.Cstring.{codes}
use unix_shell.Cstring.Format.{truncated}
use unix_shell.Parser.{Pipeline, empty_command}
use unix_shell.Jobs.{JobsTable, running, jobs_init, jobs_add}
use unix_shell.Executor.{
  exited, suspended, wait_foreground_group, format_pipeline_label, stopped_line,
}
use unix_shell.Executor.Label.{pipeline_text, format_pipeline_label_lem}
use unix_shell.Executor.Waiting.{Recorded, wait_foreground_group-stops}

abbrev listing : Pipeline
listing = record {
  commands =
      record empty_command { args = codes "ls" ∷ codes "-la" ∷ [] }
      ∷ record empty_command { args = codes "wc" ∷ [] }
      ∷ [];
  background = false;
}

label_printed : format_pipeline_label listing 256 ≡ codes "ls -la | wc"
unfolding format_pipeline_label
label_printed = refl

label_cut : format_pipeline_label listing 9 ≡ codes "ls -la |"
unfolding format_pipeline_label
label_cut = refl

format_pipeline_label_lem_example :
    format_pipeline_label listing 9 ≡ truncated 9 (pipeline_text listing.commands)
format_pipeline_label_lem_example = format_pipeline_label_lem listing 9

abbrev one_job : JobsTable
one_job = (jobs_add jobs_init 71 (codes "cat") running).1

wait_foreground_group-stops_example :
    let (code, (table', printed)) =
      wait_foreground_group true one_job 71 (codes "cat") (exited 0 ∷ suspended 20 ∷ []) in
    (code ≡ 148)
    × ((id : ℤ) × (printed ≡ stopped_line id (codes "cat"))
        × Recorded one_job 71 (codes "cat") (id, table'))
wait_foreground_group-stops_example =
    wait_foreground_group-stops true one_job 71 (codes "cat") 20 (exited 0 ∷ []) [] (tt, tt)
