-- ===== src/Cstring/Words.antt =====
-- The words of a string: its maximal runs of bytes that are no delimiters. Calls of `strtok_r`
-- yield them one by one.
use unix_shell.Base.{
  ℕ, suc, ◌<◌, ◌≤◌, ◌≡◌, ◌↔◌, refl, ap, ◌∙◌, true, false, List, [], ◌∷◌, ◌++◌, Option, none, some,
  inl, inr, arith, length, All, Bool-cases, if◌then◌else◌,
}
use unix_shell.Cstring.{Text, elem, skip, cut, cut_nonempty, strtok_r, equal}

pub equal_iff : (a b : Text) → (equal a b ≡ true) ↔ (a ≡ b)
unfolding equal
equal_iff (x ∷ a) (y ∷ b) = ground (arith, equal_iff a b)
equal_iff _ _ = ground arith

pub equal_refl : (a : Text) → equal a a ≡ true
equal_refl a = (equal_iff a a).1 refl

-- `c` in front of the first word
abbrev cons_head : ℕ → List Text → List Text
cons_head c [] = (c ∷ []) ∷ []
cons_head c (w ∷ ws) = (c ∷ w) ∷ ws

-- `c`, which stands in front of `s`, added to the words `ws` of `s`
abbrev attach : Text → ℕ → Text → List Text → List Text
attach delims c [] ws = (c ∷ []) ∷ ws
attach delims c (x ∷ s) ws = if elem x delims then (c ∷ []) ∷ ws else cons_head c ws

unfoldable pub words : Text → Text → List Text
words delims [] = []
words delims (c ∷ s) = let ws = words delims s in if elem c delims then ws else attach delims c s ws

words-skip : (d s : Text) → words d (skip d s) ≡ words d s
unfolding words skip
words-skip d [] = refl
words-skip d (c ∷ s) = elim (Bool-cases (elem c d)) [
  | inl e ↦ rw e (words-skip d s)
  | inr e ↦ rw e (rw e)
]

words-cut :
    (d : Text) (c : ℕ) (s : Text)
    → elem c d ≡ false
    → words d (c ∷ s) ≡ (cut d (c ∷ s)).0 ∷ words d (cut d (c ∷ s)).1
unfolding words cut
words-cut d c [] h = rw h refl
words-cut d c (x ∷ s) h = elim (Bool-cases (elem x d)) [
  | inl e ↦ rw (h, e) refl
  | inr e ↦ ground (arith, words-cut d x s e)
]

-- A word has no delimiter, and is not empty.
abbrev pub IsWord : Text → Text → Type 0
IsWord d [] = ⊥
IsWord d (c ∷ w) = (elem c d ≡ false) × All (λ x. elem x d ≡ false) w

length-skip-le : (d s : Text) → length (skip d s) ≤ length s
unfolding skip
length-skip-le d [] = omega arith
length-skip-le d (c ∷ s) = ground (arith, length-skip-le d s)

length-cut-le : (d s : Text) → length (cut d s).1 ≤ length s
unfolding cut
length-cut-le d [] = omega arith
length-cut-le d (c ∷ s) = ground (arith, length-cut-le d s)

-- where the leading delimiters end
pub skip_head : (d s : Text) {c : ℕ} {r : Text} → skip d s ≡ c ∷ r → elem c d ≡ false
unfolding skip
skip_head d [] e = cc
skip_head d (x ∷ s) e = elim (Bool-cases (elem x d)) [
  | inl h ↦ skip_head d s (rw h at e)
  | inr h ↦ ground arith
]

cut_clean : (d s : Text) → All (λ x. elem x d ≡ false) (cut d s).0
unfolding cut
cut_clean d [] = tt
cut_clean d (c ∷ s) = elim (Bool-cases (elem c d)) [
  | inl h ↦ rw h tt
  | inr h ↦ rw h (h, cut_clean d s)
]

-- What one call of `strtok_r` yields, against the words of its string.
pub data Next (d s : Text) : Option (Text × Text) → Type 0 where
  stop : words d s ≡ [] → Next d s none
  token :
      {t r : Text}
      → words d s ≡ t ∷ words d r
      → length r < length s
      → IsWord d t
      → Next d s (some (t, r))

cut-IsWord : (d : Text) (c : ℕ) (s : Text) → elem c d ≡ false → IsWord d (cut d (c ∷ s)).0
unfolding cut
cut-IsWord d c s h = rw h (h, cut_clean d s)

length-cut-lt : (d : Text) (c : ℕ) (s : Text) → length (cut d (c ∷ s)).1 < suc (length s)
unfolding cut
length-cut-lt d c s = ground (arith, length-cut-le d s)

Next-cut_nonempty : (d s k : Text) → skip d s ≡ k → Next d s (cut_nonempty d k)
unfolding cut_nonempty words
Next-cut_nonempty d s [] e = Next.stop (rw (← words-skip d s, e) refl)
Next-cut_nonempty d s (c ∷ k) e =
    let clean = skip_head d s e in
    Next.token (rw (← words-skip d s, e) (words-cut d c k clean))
      (omega (arith, length-cut-lt d c k, length-skip-le d s, ap length e)) (cut-IsWord d c k clean)

pub strtok_r-Next : (d s : Text) → Next d s (strtok_r d s)
unfolding strtok_r
strtok_r-Next d s = Next-cut_nonempty d s (skip d s) refl

-- A word in front of a delimiter, or at the end, is read back.
pub words-word-delim :
    (d w : Text) (x : ℕ) (s : Text)
    → IsWord d w
    → elem x d ≡ true
    → words d (w ++ x ∷ s) ≡ w ∷ words d s
unfolding words
words-word-delim d [] x s h e = elim h [ ]
words-word-delim d (c ∷ []) x s h e = rw (h.0, e) refl
words-word-delim d (c ∷ b ∷ w) x s h e = ground (arith, words-word-delim d (b ∷ w) x s h.1 e)

pub words-word : (d w : Text) → IsWord d w → words d w ≡ w ∷ []
unfolding words
words-word d [] h = elim h [ ]
words-word d (c ∷ []) h = rw h.0 refl
words-word d (c ∷ b ∷ w) h = ground (arith, words-word d (b ∷ w) h.1)

pub words-delim : (d : Text) (x : ℕ) (s : Text) → elem x d ≡ true → words d (x ∷ s) ≡ words d s
unfolding words
words-delim d x s e = rw e refl

cons_head-IsWord :
    (d : Text) (c : ℕ) (ws : List Text)
    → elem c d ≡ false
    → All (IsWord d) ws
    → All (IsWord d) (cons_head c ws)
cons_head-IsWord d c [] e h = ((e, tt), tt)
cons_head-IsWord d c ([] ∷ ws) e h = absurd h.0
cons_head-IsWord d c ((y ∷ w) ∷ ws) e h = ((e, h.0), h.1)

attach-IsWord :
    (d : Text) (c : ℕ) (s : Text) (ws : List Text)
    → elem c d ≡ false
    → All (IsWord d) ws
    → All (IsWord d) (attach d c s ws)
attach-IsWord d c [] ws e h = ((e, tt), h)
attach-IsWord d c (x ∷ s) ws e h = elim (Bool-cases (elem x d)) [
  | inl f ↦ rw f ((e, tt), h)
  | inr f ↦ rw f (cons_head-IsWord d c ws e h)
]

pub words-IsWord : (d s : Text) → All (IsWord d) (words d s)
unfolding words
words-IsWord d [] = tt
words-IsWord d (c ∷ s) = elim (Bool-cases (elem c d)) [
  | inl e ↦ rw e (words-IsWord d s)
  | inr e ↦ rw e (attach-IsWord d c s (words d s) e (words-IsWord d s))
]

-- Words, each with a delimiter behind it.
abbrev pub separated : ℕ → List Text → Text
separated x [] = []
separated x (w ∷ ws) = w ++ x ∷ separated x ws

pub words-separated :
    (d : Text) (x : ℕ) (ws : List Text)
    → elem x d ≡ true
    → All (IsWord d) ws
    → words d (separated x ws) ≡ ws
words-separated d x [] e h = unfold words in refl
words-separated d x (w ∷ ws) e h =
    words-word-delim d w x (separated x ws) h.0 e ∙ ap (◌∷◌ w) (words-separated d x ws e h.1)
