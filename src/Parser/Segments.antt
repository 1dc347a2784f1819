-- ===== src/Parser/Segments.antt =====
-- `parse_pipeline`: its loop over the segments between `|`, and what it returns.
use unix_shell.Base.{
  ℕ, zero, suc, ◌≤◌, ◌<◌, ◌≡◌, refl, sym, ap, subst, fun_ext, ◌∙◌, List, [], ◌∷◌, none, some, arith,
  length, length-append, ltb, ltb→lt, All, All-append, if◌then◌else◌, Bool, false, get_or, map, ◌-◌,
  Bool-cases, inl, inr,
}
use unix_shell.Cstring.{Text}
use unix_shell.Cstring.Words.{words, Next, strtok_r-Next}
use unix_shell.Parser.{
  Command, argc, Pipeline, num_commands, max_commands, pipe_delimiter, Parsed, done, done_injective,
  syntax_error, no_fuel, parse_command, Cursor, add_segment, next_segment, segment_parsed,
  segment_loop, promote, last_background, parse_pipeline,
}
use unix_shell.Parser.Bounds.{IsBounded, parse_command-IsBounded}

-- The loop, on the list of segments: each is parsed, and joins the commands if it has arguments,
-- until there are sixteen of them.
unfoldable pub gather : List Text → List Command → Parsed (List Command)
gather [] commands = done commands
gather (s ∷ segments) commands =
    if ltb (length commands) max_commands
    then segment_parsed (gather segments) commands (parse_command s)
    else done commands

cursor_gathers :
    (fuel : ℕ) (s : Text) (cursor : Cursor) (commands : List Command)
    → ((r : Text) (cs : List Command)
        → length r < length s
        → segment_loop fuel (next_segment r) cs ≡ gather (words pipe_delimiter r) cs)
    → Next pipe_delimiter s cursor
    → segment_loop (suc fuel) cursor commands ≡ gather (words pipe_delimiter s) commands
unfolding segment_loop gather
cursor_gathers fuel s none commands rest (Next.stop w) = rw w refl
cursor_gathers fuel s (some (t, r)) commands rest (Next.token w lt _) =
    rw (w, fun_ext (λ cs. rest r cs lt)) refl

loop_gathers :
    (fuel : ℕ) (s : Text) (commands : List Command)
    → length s < fuel
    → segment_loop fuel (next_segment s) commands ≡ gather (words pipe_delimiter s) commands
loop_gathers zero s commands lt = absurd (omega arith)
loop_gathers (suc fuel) s commands lt =
    cursor_gathers fuel s (next_segment s) commands
      (λ r cs lt'. loop_gathers fuel r cs (omega arith)) (strtok_r-Next pipe_delimiter s)

-- The nested `strtok_r` loops end, and amount to one pass over the segments of the line.
pub parse_pipeline-gather :
    (line : Text) → parse_pipeline line ≡ promote (gather (words pipe_delimiter line) [])
unfolding parse_pipeline
parse_pipeline-gather line = ap promote (loop_gathers (suc (length line)) line [] (omega arith))

abbrev pub IsStage : Command → Type 0
IsStage cmd = (0 < argc cmd) × IsBounded cmd

-- the `&` of the command at the last index
abbrev pub flag_of : Command → Bool
flag_of cmd = cmd.background

abbrev pub final_flag : List Command → Bool
final_flag commands = get_or (map flag_of commands) (length commands - 1) false

index_suc : (n : ℕ) → suc (suc n) - 1 ≡ suc (suc n - 1)
index_suc n = omega arith

pub last_background_lem : (commands : List Command) → last_background commands ≡ final_flag commands
unfolding last_background
last_background_lem [] = refl
last_background_lem (cmd ∷ []) = refl
last_background_lem (_ ∷ cmd ∷ cmds) =
    rw (index_suc (length cmds)) (last_background_lem (cmd ∷ cmds))

pub record IsPipeline (p : Pipeline) : Type 0 where
  pub count : num_commands p ≤ max_commands
  pub stages : All IsStage p.commands
  pub flag : p.background ≡ final_flag p.commands

abbrev Fine : List Command → Type 0
Fine commands = (length commands ≤ max_commands) × All IsStage commands

add_segment-Fine :
    (commands : List Command) (cmd : Command)
    → length commands < max_commands
    → Fine commands
    → IsBounded cmd
    → Fine (add_segment commands cmd)
unfolding add_segment
add_segment-Fine commands cmd lt h b = elim (Bool-cases (ltb 0 (argc cmd))) [
  | inl e ↦ rw e (
    omega (arith, length-append commands (cmd ∷ [])),
    All-append IsStage commands (cmd ∷ []) h.1 ((ltb→lt _ _ e, b), tt),
  )
  | inr e ↦ rw e h
]

-- one round, on what the segment parsed to
parsed-Fine :
    (segment : Text) (continue : List Command → Parsed (List Command)) (commands : List Command)
    (parsed : Parsed Command) {cs : List Command}
    → ((ds : List Command) → Fine ds → continue ds ≡ done cs → Fine cs)
    → length commands < max_commands
    → Fine commands
    → parse_command segment ≡ parsed
    → segment_parsed continue commands parsed ≡ done cs
    → Fine cs
unfolding segment_parsed
parsed-Fine segment continue commands (done cmd) keep lt h p e =
    keep (add_segment commands cmd)
      (add_segment-Fine commands cmd lt h (parse_command-IsBounded segment p)) e
parsed-Fine segment continue commands (syntax_error x) keep lt h p e = cc
parsed-Fine segment continue commands no_fuel keep lt h p e = cc

gather-Fine :
    (segments : List Text) (commands : List Command) {cs : List Command}
    → Fine commands
    → gather segments commands ≡ done cs
    → Fine cs
unfolding gather
gather-Fine [] commands {cs} h e = subst Fine (done_injective e) h
gather-Fine (s ∷ segments) commands {cs} h e =
    elim (Bool-cases (ltb (length commands) max_commands)) [
      | inl lt ↦
          parsed-Fine s (gather segments) commands (parse_command s)
            (λ ds h' e'. gather-Fine segments ds h' e') (ltb→lt _ _ lt) h refl (rw lt at e)
      | inr ge ↦ subst Fine (done_injective (rw ge at e)) h
    ]

promote_inv :
    (r : Parsed (List Command)) {p : Pipeline}
    → promote r ≡ done p
    → (r ≡ done p.commands) × (p.background ≡ last_background p.commands)
unfolding promote
promote_inv (done cs) e = ground arith
promote_inv (syntax_error x) e = cc
promote_inv no_fuel e = cc

-- A parsed pipeline has at most 16 commands; each has at least one argument, and is bounded as
-- `parse_command` bounds it; the pipeline's flag is that of its last command.
pub parse_pipeline-IsPipeline :
    (line : Text) {p : Pipeline} → parse_pipeline line ≡ done p → IsPipeline p
parse_pipeline-IsPipeline line {p} e =
    let (gathered, flag) = promote_inv _ (sym (parse_pipeline-gather line) ∙ e) in
    let fine = gather-Fine (words pipe_delimiter line) [] (omega arith, tt) gathered in
    record { count = fine.0; stages = fine.1; flag = flag ∙ last_background_lem _ }
