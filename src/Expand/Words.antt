-- ===== src/Expand/Words.antt =====
-- The argument list after expansion.
use mathlib.Core.Option.{Option, none, some}
use native.Mathlib.Decide.{dec_lt}
use unix_shell.Base.{
  ℕ, zero, suc, ◌-◌, ◌≤◌, ◌<◌, ◌≡◌, refl, sym, ap, ◌∙◌, List, [], ◌∷◌, ◌++◌, Bool-cases, inl, inr,
  append-nil, append_assoc, arith, length, length-append, length-take, take, take_of_le,
  if◌then◌else◌, lt→ltb, le→not_ltb,
}
use unix_shell.Base.Int.{ℤ}
use unix_shell.Cstring.{Text}
use unix_shell.Parser.{Command, max_args}
use unix_shell.Expand.{
  System, has_glob, expanded, add_matches, add_globbed, add_word, expand_args, expand_command,
}

-- the words that a list of matches, or the word itself, adds
abbrev pub matches : Text → Option (List Text) → List Text
matches word none = word ∷ []
matches word (some paths) = paths

take-append : (n : ℕ) (xs ys : List Text) → length xs ≡ n → take n (xs ++ ys) ≡ xs
take-append zero [] ys e = refl
take-append zero (x ∷ xs) ys e = absurd (omega arith)
take-append (suc n) [] ys e = absurd (omega arith)
take-append (suc n) (x ∷ xs) ys e = ap (◌∷◌ x) (take-append n xs ys (omega arith))

take-take-append : (n : ℕ) (xs ys : List Text) → take n (take n xs ++ ys) ≡ take n (xs ++ ys)
take-take-append zero xs ys = refl
take-take-append (suc n) [] ys = refl
take-take-append (suc n) (x ∷ xs) ys = ap (◌∷◌ x) (take-take-append n xs ys)

abbrev pub capped : List Text → List Text
capped = take (max_args - 1)

module _ (sys : System) (last_status : ℤ) where
  add_matches-capped :
      (paths new : List Text)
      → length new ≤ 63
      → add_matches sys last_status new paths ≡ capped (new ++ paths)
  unfolding add_matches
  add_matches-capped [] new h = rw append-nil (sym (take_of_le 63 new h))
  add_matches-capped (path ∷ paths) new h = elim (dec_lt (length new) 63) [
    | yes lt ↦ rw (lt→ltb (length new) 63 lt) (
        add_matches-capped paths (new ++ path ∷ []) (omega (arith, length-append new (path ∷ [])))
        ∙ ap capped (append_assoc new (path ∷ []) paths))
    | no ge ↦
        rw (le→not_ltb (length new) 63 (omega arith)) (sym (take-append 63 new _ (omega arith)))
  ]

  -- What one argument becomes: nothing where memory runs out; the matches of a pattern, or the
  -- pattern where matching fails; and else the word after substitution.
  abbrev pub word_list : Option Text → List Text
  word_list none = []
  word_list (some word) = if has_glob word then matches word (sys.glob word) else word ∷ []

  abbrev pub all_words : List Text → List Text
  all_words [] = []
  all_words (arg ∷ args) = word_list (expanded sys last_status arg) ++ all_words args

  add_word-capped :
      (new : List Text) (o : Option Text)
      → length new < 63
      → add_word sys last_status new o ≡ capped (new ++ word_list o)
  unfolding add_word
  add_word-capped new none h = rw append-nil (sym (take_of_le 63 new (omega arith)))
  add_word-capped new (some word) h = elim (Bool-cases (has_glob word)) [
    | inl e ↦ rw e (globbed (sys.glob word))
    | inr e ↦ rw e single
  ]
    where
      single : new ++ word ∷ [] ≡ capped (new ++ word ∷ [])
      single = sym (take_of_le 63 _ (omega (arith, length-append new (word ∷ []))))

      globbed :
          (g : Option (List Text))
          → add_globbed sys last_status new word g ≡ capped (new ++ matches word g)
      globbed none = single
      globbed (some paths) = add_matches-capped paths new (omega arith)

  expand_args-capped :
      (args new : List Text)
      → length new ≤ 63
      → expand_args sys last_status new args ≡ capped (new ++ all_words args)
  unfolding expand_args
  expand_args-capped [] new h = rw append-nil (sym (take_of_le 63 new h))
  expand_args-capped (arg ∷ args) new h = elim (dec_lt (length new) 63) [
    | yes lt ↦
        let words = word_list (expanded sys last_status arg) in
        rw (lt→ltb (length new) 63 lt, add_word-capped new (expanded sys last_status arg) lt)
          (expand_args-capped args (capped (new ++ words))
              (omega (arith, length-take 63 (new ++ words)))
            ∙ take-take-append 63 (new ++ words) (all_words args)
            ∙ ap capped (append_assoc new words (all_words args)))
    | no ge ↦
        rw (le→not_ltb (length new) 63 (omega arith)) (sym (take-append 63 new _ (omega arith)))
  ]

  -- The arguments after expansion are the words that the old arguments become, in order, the first
  -- 63 of them.
  pub expand_command-args :
      (cmd : Command) → (expand_command sys last_status cmd).args ≡ capped (all_words cmd.args)
  unfolding expand_command
  expand_command-args cmd = expand_args-capped cmd.args [] (omega arith)
