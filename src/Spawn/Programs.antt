-- ===== src/Spawn/Programs.antt =====
-- What the program of a stage starts with.
use unix_shell.Base.{
  ℕ, ◌≡◌, refl, sym, subst, Bool, false, ◌||◌, [], Option, none, some, if◌then◌else◌, ◌==◌, arith,
  Bool-cases, inl, inr, get_or,
}
use unix_shell.Cstring.{Text}
use unix_shell.Parser.{Command}
use unix_shell.Process.{
  Table, at_exec, Signals, default, set_action, exec_disposition, sigint, sigquit, sigchld, sigtstp,
  sigttin, sigttou,
}
use unix_shell.Builtins.{Process, Run}
use unix_shell.Builtins.Dispatch.{is_builtin}
use unix_shell.Spawn.Exec.{
  Loader, Redirected, going_on, stops, redirect_input, redirect_output, apply_redirection,
  clear_mask, becomes, Image, image_of, replaced, redirected, exec_child, reset_child_signals,
}
use unix_shell.Spawn.Wiring.{HasStreams, streams}
use unix_shell.Spawn.Images.{IsOpener, HasDocument, input_of, output_of, output-streams}

-- the signals that the shell ignores or handles
abbrev pub is_shell_signal : ℕ → Bool
is_shell_signal n =
    n == sigint || n == sigquit || n == sigtstp || n == sigttin || n == sigttou || n == sigchld

-- A program's start: its arguments, its descriptors and its signals.
pub record Starts (cmd : Command) (t : Table) (s : Signals) (image : Image) : Type 0 where
  pub arguments : image.args ≡ cmd.args
  pub table :
      (fd : ℕ)
      → image.table fd
        ≡ at_exec (streams (input_of cmd.heredoc_fd cmd.input_file t) (output_of cmd t) t fd)
  pub unblocked : (n : ℕ) → image.signals.mask n ≡ false
  pub actions :
      (n : ℕ)
      → image.signals.action n
        ≡ (if is_shell_signal n then default else exec_disposition (s.action n))

-- exec keeps of the table `t'` what the command's streams are over the table `t`
abbrev Serves : Command → Table → Table → Type 0
Serves cmd t t' =
    (fd : ℕ)
    → at_exec (streams (input_of cmd.heredoc_fd cmd.input_file t) (output_of cmd t) t fd)
      ≡ at_exec (t' fd)

reset_action :
    (s : Signals) (n : ℕ)
    → exec_disposition ((reset_child_signals s).action n)
      ≡ (if is_shell_signal n then default else exec_disposition (s.action n))
unfolding reset_child_signals set_action exec_disposition
reset_action s n = ground arith

becomes_injective : {i j : Image} → becomes i ≡ becomes j → i ≡ j
becomes_injective e = cc

module _ {W : Type 0} (loader : Loader) (sys : Process W) (opener : IsOpener loader) where
  module _ (cmd : Command) (run : Run W) (s : Signals) (t : Table) where
    image_of-Starts :
        (t' : Table)
        → Serves cmd t t'
        → Starts cmd t s (image_of cmd.args t' (reset_child_signals (clear_mask s)))
    unfolding image_of
    image_of-Starts t' h = record {
      arguments = refl;
      table = λ fd. sym (h fd);
      unblocked = λ n. unfold reset_child_signals set_action in refl;
      actions = λ n. reset_action (clear_mask s) n;
    }

    loaded-Starts :
        (t' : Table) (result : Option Text) {image : Image}
        → Serves cmd t t'
        → replaced loader sys cmd t' (reset_child_signals (clear_mask s)) result ≡ becomes image
        → Starts cmd t s image
    unfolding replaced
    loaded-Starts t' none h e = subst (Starts cmd t s) (becomes_injective e) (image_of-Starts t' h)
    loaded-Starts t' (some m) h e = absurd cc

    redirected-Starts :
        (r : Redirected) {image : Image}
        → ((t' : Table) → r ≡ going_on t' → Serves cmd t t')
        → redirected loader sys cmd run (reset_child_signals (clear_mask s)) t r ≡ becomes image
        → Starts cmd t s image
    unfolding redirected
    redirected-Starts (stops m) h e = absurd cc
    redirected-Starts (going_on t') h e = elim (Bool-cases (is_builtin (get_or cmd.args 0 []))) [
      | inl b ↦ absurd (cc (rw b at e))
      | inr b ↦ loaded-Starts t' _ (h t' refl) (rw b at e)
    ]

    redirection-streams :
        (r : Redirected) {t' : Table} (fd : ℕ)
        → HasStreams t
        → HasDocument cmd.heredoc_fd t
        → redirect_input loader cmd.heredoc_fd cmd.input_file t ≡ r
        → redirect_output loader cmd r ≡ going_on t'
        → at_exec (streams (input_of cmd.heredoc_fd cmd.input_file t) (output_of cmd t) t fd)
          ≡ at_exec (t' fd)
    unfolding redirect_output
    redirection-streams (stops m) fd st d e o = absurd cc
    redirection-streams (going_on u) fd st d e o = output-streams loader opener cmd t u fd st d e o

    -- Where the standard streams are open, `open` returns new descriptors and a here-document's
    -- descriptor is that of its file: if the child's program is replaced, the new one has the
    -- command's arguments, reads its here-document, else its `<` file, else what the child's
    -- standard input was, writes its output file, truncated or appended to, else what the child's
    -- standard output was, has every other descriptor of the child that exec keeps and no more,
    -- blocks no signal, and has the default disposition for each signal that the shell has changed.
    pub exec_child-Starts :
        {image : Image}
        → HasStreams t
        → HasDocument cmd.heredoc_fd t
        → exec_child loader sys cmd run s t ≡ becomes image
        → Starts cmd t s image
    unfolding exec_child apply_redirection
    exec_child-Starts st d e =
        redirected-Starts _ (λ t' o fd. redirection-streams _ fd st d refl o) e
