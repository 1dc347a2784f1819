-- ===== src/Spawn/Images.antt =====
-- The descriptors and signals that a program starts with.
use unix_shell.Base.{
  ℕ, ◌≡◌, ◌≢◌, refl, sym, ap, ◌∙◌, fun_ext, true, false, Option, none, some, if◌then◌else◌, ◌==◌,
  arith, ==_iff,
}
use unix_shell.Base.Int.{ℤ, pos, negsuc}
use unix_shell.Cstring.{Text}
use unix_shell.Parser.{Command}
use unix_shell.Process.{
  Mode, read_only, truncating, appending, document, file, Entry, kept, Table, put, close, dup2,
  copied, at_exec,
}
use unix_shell.Spawn.Exec.{
  Loader, Opening, opened, refused, going_on, output_mode, onto_stream, redirect_file,
  redirect_input,
}
use unix_shell.Spawn.Wiring.{HasStreams, ne_of_open, put_same, streams}

-- `open` returns a descriptor that was not open
abbrev pub IsOpener : Loader → Type 0
IsOpener loader =
    (t : Table) (path : Text) (mode : Mode) (fd : ℕ)
    → loader.open_file t path mode ≡ opened fd
    → t fd ≡ none

-- the file of a redirection, or what was there before
abbrev pub file_or : Option Text → Mode → Option Entry → Option Entry
file_or none mode old = old
file_or (some path) mode old = some (kept (file path mode))

going_on_injective : {t u : Table} → going_on t ≡ going_on u → t ≡ u
going_on_injective e = cc

opened-put :
    (t : Table) (fd stream : ℕ) (e : Entry) (x : ℕ)
    → e.cloexec ≡ false
    → t fd ≡ none
    → t stream ≢ none
    → close fd (dup2 fd stream (put fd (some e) t)) x ≡ put stream (some e) t x
unfolding dup2 put
opened-put t fd stream e x c n s = ground (arith, ne_of_open t fd stream n s)

-- the document of a command: its descriptor is closed at exec
abbrev pub HasDocument : ℤ → Table → Type 0
HasDocument (pos fd) t =
    (fd ≢ 0)
    × (fd ≢ 1)
    × ((body : Text) × (t fd ≡ some (record { target = document body; cloexec = true })))
HasDocument (negsuc n) t = Unit

-- what a program reads at its standard input
abbrev pub input_of : ℤ → Option Text → Table → Option Entry
input_of (pos fd) input_file t = copied (t fd) none
input_of (negsuc n) input_file t = file_or input_file read_only (t 0)

-- what a program writes to its standard output
abbrev pub output_of : Command → Table → Option Entry
output_of cmd t = file_or cmd.output_file (if cmd.append_mode then appending else truncating) (t 1)

streams_exec :
    (source sink : Option Entry) (t : Table) (x : ℕ)
    → at_exec (streams source sink t x)
      ≡ (if x == 1 then at_exec sink else at_exec (put 0 source t x))
unfolding put
streams_exec source sink t x = ground arith

module _ (loader : Loader) (opener : IsOpener loader) where
  onto_stream-put :
      (stream : ℕ) (path : Text) (mode : Mode) (t : Table) (opening : Opening) {t' : Table}
      → t stream ≢ none
      → loader.open_file t path mode ≡ opening
      → onto_stream stream path mode t opening ≡ going_on t'
      → put stream (some (kept (file path mode))) t ≡ t'
  unfolding onto_stream
  onto_stream-put stream path mode t (refused m) s o e = cc
  onto_stream-put stream path mode t (opened fd) s o e =
      sym (
        fun_ext
          λ x. opened-put t fd stream (kept (file path mode)) x refl (opener t path mode fd o) s)
      ∙ going_on_injective e

  redirect_file-put :
      (stream : ℕ) (path : Option Text) (mode : Mode) (t : Table) {t' : Table}
      → t stream ≢ none
      → redirect_file loader stream mode path t ≡ going_on t'
      → put stream (file_or path mode (t stream)) t ≡ t'
  unfolding redirect_file
  redirect_file-put stream none mode t s e = fun_ext (put_same stream t) ∙ going_on_injective e
  redirect_file-put stream (some path) mode t s e =
      onto_stream-put stream path mode t (loader.open_file t path mode) s refl e

  document-put :
      (fd : ℕ) (t : Table) (x : ℕ) (body : Text)
      → fd ≢ 0
      → t fd ≡ some (record { target = document body; cloexec = true })
      → at_exec (put 0 (copied (t fd) none) t x) ≡ at_exec (close fd (dup2 fd 0 t) x)
  unfolding dup2 put at_exec copied
  document-put fd t x body n h = ground (arith, ==_iff x fd)

  redirect_input-put :
      (fd : ℤ) (input_file : Option Text) (t : Table) (x : ℕ) {t' : Table}
      → HasStreams t
      → HasDocument fd t
      → redirect_input loader fd input_file t ≡ going_on t'
      → at_exec (put 0 (input_of fd input_file t) t x) ≡ at_exec (t' x)
  unfolding redirect_input
  redirect_input-put (pos fd) input_file t x s (n, _, (body, h)) e =
      document-put fd t x body n h ∙ ap (λ u. at_exec (u x)) (going_on_injective e)
  redirect_input-put (negsuc n) input_file t x s d e =
      ap (λ u. at_exec (u x)) (redirect_file-put 0 input_file read_only t s.0 e)

  redirect_input-one :
      (fd : ℤ) (input_file : Option Text) (t : Table) {t' : Table}
      → HasStreams t
      → HasDocument fd t
      → redirect_input loader fd input_file t ≡ going_on t'
      → t 1 ≡ t' 1
  unfolding redirect_input
  redirect_input-one (pos fd) input_file t s (n, one, _) e =
      unfold dup2 put in ((ground arith) ∙ ap (λ u. u 1) (going_on_injective e))
  redirect_input-one (negsuc n) input_file t s d e =
      unfold put in (ap (λ u. u 1) (redirect_file-put 0 input_file read_only t s.0 e))

  pub output-streams :
      (cmd : Command) (t t' : Table) (x : ℕ) {t'' : Table}
      → HasStreams t
      → HasDocument cmd.heredoc_fd t
      → redirect_input loader cmd.heredoc_fd cmd.input_file t ≡ going_on t'
      → redirect_file loader 1 (output_mode cmd.append_mode) cmd.output_file t' ≡ going_on t''
      → at_exec (streams (input_of cmd.heredoc_fd cmd.input_file t) (output_of cmd t) t x)
        ≡ at_exec (t'' x)
  output-streams cmd t t' x s d e o =
      let one = redirect_input-one cmd.heredoc_fd cmd.input_file t s d e in
      streams_exec _ _ t x
      ∙ rw (one, redirect_input-put cmd.heredoc_fd cmd.input_file t x s d e)
          (unfold put in (ground arith))
      ∙ ap (λ u. at_exec (u x))
          (redirect_file-put 1 cmd.output_file (output_mode cmd.append_mode) t' (rw (← one) s.1) o)
