-- ===== src/Executor/Label.antt =====
-- The label of a pipeline is its text, cut to the buffer.
use unix_shell.Base.{
  ℕ, zero, suc, ◌+◌, ◌-◌, ◌≤◌, ◌<◌, ◌≡◌, refl, sym, ap, ◌∙◌, ◌⊎◌, inl, inr, List, [], ◌∷◌, ◌++◌,
  arith, ltb, ltb→lt, lt→ltb, true, not_ltb→le, if◌then◌else◌, length, length-append, take,
  take_of_le, append_assoc, append-nil, Bool-cases,
}
use unix_shell.Cstring.{Text, codes}
use unix_shell.Cstring.Format.{truncated}
use unix_shell.Parser.{Command, Pipeline}
use unix_shell.Executor.{
  Label, append_label, label_arg, label_args, label_separator, label_commands,
  format_pipeline_label,
}

-- the arguments with a space between them, and the commands with " | " between them
unfoldable pub command_text : List Text → Text
command_text [] = []
command_text (arg ∷ []) = arg
command_text (arg ∷ arg' ∷ args) = arg ++ b' ' ∷ command_text (arg' ∷ args)

unfoldable pub pipeline_text : List Command → Text
unfolding command_text
pipeline_text [] = []
pipeline_text (cmd ∷ []) = command_text cmd.args
pipeline_text (cmd ∷ cmd' ∷ cmds) =
    command_text cmd.args ++ (codes " | " ++ pipeline_text (cmd' ∷ cmds))

take-append_le : (n : ℕ) (s t : Text) → length s ≤ n → take n (s ++ t) ≡ s ++ take (n - length s) t
take-append_le n [] t h = ap (λ k. take k t) (omega arith)
take-append_le zero (x ∷ s) t h = absurd (omega arith)
take-append_le (suc n) (x ∷ s) t h =
    ap (◌∷◌ x) (take-append_le n s t (omega arith) ∙ ap (λ k. s ++ take k t) (omega arith))

take-append_ge : (n : ℕ) (s t : Text) → n ≤ length s → take n (s ++ t) ≡ take n s
take-append_ge zero s t h = refl
take-append_ge (suc n) [] t h = absurd (omega arith)
take-append_ge (suc n) (x ∷ s) t h = ap (◌∷◌ x) (take-append_ge n s t (omega arith))

-- What the buffer holds of a text, and how `used` stands to it.
abbrev Written : ℕ → Text → Label → Type 0
Written size s (used, buf) =
    (buf ≡ truncated size s) × ((used ≡ length s) ⊎ ((size ≤ used) × (size ≤ length s)))

Written-full :
    (size : ℕ) (s t : Text) (label : Label)
    → Written size s label
    → size ≤ label.0
    → Written size (s ++ t) label
Written-full size s t (used, buf) (b, u) le =
    let long : size ≤ length s = elim u [ inl e ↦ omega arith | inr h ↦ h.1 ] in
    (
      b ∙ sym (take-append_ge (size - 1) s t (omega arith)),
      inr (le, omega (arith, length-append s t)),
    )

Written-append :
    (size : ℕ) (s t : Text) (label : Label)
    → Written size s label
    → label.0 < size
    → Written size (s ++ t) (append_label size label t)
unfolding append_label
Written-append size s t (used, buf) (b, inr h) lt = absurd (omega arith)
Written-append size s t (used, buf) (b, inl e) lt = (
  rw
      (
        take-append_le (size - 1) s t (omega arith),
        b,
        take_of_le (size - 1) s (omega arith),
        e,
        take_of_le (length s) s (omega arith),
      )
      (ap (λ k. s ++ take k t) (omega arith)),
  inl (omega (arith, length-append s t)),
)

args_text : ℕ → List Text → Text
args_text a [] = []
args_text a (arg ∷ args) = label_arg a arg ++ args_text (a + 1) args

Written-label_args :
    (size a : ℕ) (args : List Text) (s : Text) (label : Label)
    → Written size s label
    → Written size (s ++ args_text a args) (label_args size a args label)
unfolding label_args args_text
Written-label_args size a [] s label w = rw append-nil w
Written-label_args size a (arg ∷ args) s label w = elim (Bool-cases (ltb label.0 size)) [
  | inl e ↦
      rw (e, ← append_assoc s (label_arg a arg) (args_text (a + 1) args))
        (Written-label_args size (a + 1) args (s ++ label_arg a arg) _
          (Written-append size s (label_arg a arg) label w (ltb→lt _ _ e)))
  | inr e ↦ rw e (Written-full size s _ label w (not_ltb→le _ _ e))
]

separator_text : ℕ → Text
separator_text c = if ltb 0 c then codes " | " else []

commands_text : ℕ → List Command → Text
unfolding args_text separator_text
commands_text c [] = []
commands_text c (cmd ∷ cmds) =
    separator_text c ++ (args_text 0 cmd.args ++ commands_text (c + 1) cmds)

Written-label_separator :
    (size c : ℕ) (s : Text) (label : Label)
    → Written size s label
    → label.0 < size
    → Written size (s ++ separator_text c) (label_separator size c label)
unfolding label_separator separator_text
Written-label_separator size c s label w lt = elim (Bool-cases (ltb 0 c)) [
  | inl e ↦ rw e (Written-append size s (codes " | ") label w lt)
  | inr e ↦ rw (e, append-nil s) w
]

Written-label_commands :
    (size c : ℕ) (cmds : List Command) (s : Text) (label : Label)
    → Written size s label
    → Written size (s ++ commands_text c cmds) (label_commands size c cmds label)
unfolding label_commands commands_text
Written-label_commands size c [] s label w = rw append-nil w
Written-label_commands size c (cmd ∷ cmds) s label w = elim (Bool-cases (ltb label.0 size)) [
  | inl e ↦
      rw
        (
          e,
          ← append_assoc s (separator_text c) (args_text 0 cmd.args ++ commands_text (c + 1) cmds),
          ← append_assoc (s ++ separator_text c) (args_text 0 cmd.args)
              (commands_text (c + 1) cmds),
        )
        (Written-label_commands size (c + 1) cmds _ _ (
          Written-label_args size 0 cmd.args _ _
            (Written-label_separator size c s label w (ltb→lt _ _ e))))
  | inr e ↦ rw e (Written-full size s _ label w (not_ltb→le _ _ e))
]

positive : (a : ℕ) → ltb 0 (a + 1) ≡ true
positive a = lt→ltb 0 (a + 1) (omega arith)

args_text-suc :
    (a : ℕ) (arg : Text) (args : List Text)
    → args_text (a + 1) (arg ∷ args) ≡ b' ' ∷ command_text (arg ∷ args)
unfolding args_text command_text
args_text-suc a arg [] = rw (positive a, append-nil arg) refl
args_text-suc a arg (arg' ∷ args) = rw (positive a, args_text-suc (a + 1) arg' args) refl

args_text_lem : (args : List Text) → args_text 0 args ≡ command_text args
unfolding args_text command_text
args_text_lem [] = refl
args_text_lem (arg ∷ []) = append-nil arg
args_text_lem (arg ∷ arg' ∷ args) = ap (◌++◌ arg) (args_text-suc 0 arg' args)

commands_text-suc :
    (c : ℕ) (cmd : Command) (cmds : List Command)
    → commands_text (c + 1) (cmd ∷ cmds) ≡ codes " | " ++ pipeline_text (cmd ∷ cmds)
unfolding commands_text separator_text pipeline_text
commands_text-suc c cmd [] =
    rw (positive c, append-nil (args_text 0 cmd.args), args_text_lem cmd.args) refl
commands_text-suc c cmd (cmd' ∷ cmds) =
    rw (positive c, commands_text-suc (c + 1) cmd' cmds, args_text_lem cmd.args) refl

commands_text_lem : (cmds : List Command) → commands_text 0 cmds ≡ pipeline_text cmds
unfolding commands_text separator_text pipeline_text
commands_text_lem [] = refl
commands_text_lem (cmd ∷ []) = append-nil (args_text 0 cmd.args) ∙ args_text_lem cmd.args
commands_text_lem (cmd ∷ cmd' ∷ cmds) =
    rw (commands_text-suc 0 cmd' cmds, args_text_lem cmd.args) refl

-- The label is the text of the pipeline, its arguments with a space and its commands with " | "
-- between them, cut to one byte less than the buffer has.
pub format_pipeline_label_lem :
    (pipeline : Pipeline) (size : ℕ)
    → format_pipeline_label pipeline size ≡ truncated size (pipeline_text pipeline.commands)
unfolding format_pipeline_label
format_pipeline_label_lem pipeline size =
    (Written-label_commands size 0 pipeline.commands [] (0, [])
      (sym (take_of_le (size - 1) [] (omega arith)), inl refl)).0
    ∙ ap (truncated size) (commands_text_lem pipeline.commands)
