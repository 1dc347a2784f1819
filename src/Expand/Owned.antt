-- ===== src/Expand/Owned.antt =====
-- What expansion leaves on the heap: the strings of Expand, each in a block that the command owns.
use mathlib.Core.Option
use mathlib.Core.Option.{Option, none, some}
use unix_shell.Base.{
  ℕ, suc, ◌+◌, ◌≡◌, refl, ap, subst, List, [], ◌∷◌, ◌++◌, ltb, length, map, inl, inr, arith,
  Bool-cases,
}
use unix_shell.Base.Int.{ℤ}
use unix_shell.Cstring.{Text}
use unix_shell.Expand.{
  System, has_glob, expanded, first_match, glob_first, expand_word, add_matches, add_globbed,
  add_word, expand_args, expand_file,
}
use unix_shell.Expand.Memory.{
  Heap, Block, Pointer, malloc, free, and_then, with_heap, heap_matches, first_on_heap, heap_word,
  heap_globbed, heap_arg, heap_args, heap_file,
}
use unix_shell.Expand.Freed.{same, count, points_at, owned, Freed, Freed-free}

abbrev pub text_of : Block → Text
text_of b = b.text

-- the blocks of arguments
abbrev pub held : ℕ → List Block → ℕ
held n bs = owned n (map some bs)

held-append :
    (n : ℕ) (bs : List Block) (b : Block) → held n (bs ++ b ∷ []) ≡ held n bs + same b.number n
unfolding owned points_at
held-append n [] b = omega arith
held-append n (c ∷ bs) b = omega (arith, held-append n bs b)

texts-append :
    (bs : List Block) (b : Block) → map text_of (bs ++ b ∷ []) ≡ map text_of bs ++ b.text ∷ []
texts-append [] b = refl
texts-append (c ∷ bs) b = ap (◌∷◌ c.text) (texts-append bs b)

length-texts : (bs : List Block) → length (map text_of bs) ≡ length bs
length-texts [] = refl
length-texts (b ∷ bs) = ap suc (length-texts bs)

-- from `new` on the heap `h` to arguments with these texts, all else on the heap as it was
unfoldable pub Builds : List Block → Heap → List Text → List Block × Heap → Type 0
Builds new h texts (new', h') =
    (map text_of new' ≡ texts)
    × (gain : ℕ → ℕ) × ((n : ℕ)
        → (count n h'.live ≡ count n h.live + gain n) × (held n new' ≡ held n new + gain n))

unfoldable pub Built : List Block → Heap → List Text → Option (List Block × Heap) → Type 0
Built new h texts none = ⊥
Built new h texts (some r) = Builds new h texts r

Builds-cons :
    (b : Block) (new : List Block) (h h1 : Heap) (texts : List Text) (r : List Block × Heap)
    → ((n : ℕ) → count n h1.live ≡ count n h.live + same b.number n)
    → Builds (new ++ b ∷ []) h1 texts r
    → Builds new h texts r
unfolding Builds
Builds-cons b new h h1 texts (new', h') first (e, gain, c) = (
  e,
  λ n. same b.number n + gain n,
  λ n. (
    omega (arith, first n, (c n).0, (c n).1, held-append n new b),
    omega (arith, first n, (c n).0, (c n).1, held-append n new b),
  ),
)

Builds-none : (new : List Block) (h : Heap) → Builds new h (map text_of new) (new, h)
unfolding Builds
Builds-none new h = (refl, λ n. 0, λ n. (omega arith, omega arith))

module _ (sys : System) (last_status : ℤ) where
  open sys use {glob}

  malloc-count :
      (s : Text) (h : Heap) (n : ℕ)
      → count n (malloc s h).1.live ≡ count n h.live + same (malloc s h).0.number n
  unfolding count
  malloc-count s h n = omega arith

  heap_matches-Builds :
      (paths : List Text) (new : List Block) (h : Heap)
      → Builds new h
          (add_matches sys last_status (map text_of new) paths)
          (heap_matches paths new h)
  unfolding heap_matches add_matches
  heap_matches-Builds [] new h = Builds-none new h
  heap_matches-Builds (path ∷ paths) new h = elim (Bool-cases (ltb (length new) 63)) [
    | inl e ↦ rw (length-texts new) (
        rw e (
          Builds-cons (malloc path h).0 new h (malloc path h).1 _ _ (malloc-count path h) (
            rw (← texts-append new (malloc path h).0)
              (heap_matches-Builds paths (new ++ (malloc path h).0 ∷ []) (malloc path h).1))))
    | inr e ↦ rw (length-texts new) (rw e (Builds-none new h))
  ]

  -- a block that was allocated behind `h0`
  Held : Heap → Block → Heap → Type 0
  Held h0 b h = (n : ℕ) → count n h.live ≡ count n h0.live + same b.number n

  Built-with_heap :
      (new new' : List Block) (h0 : Heap) (gain : ℕ → ℕ) (texts : List Text) (freed : Option Heap)
      → map text_of new' ≡ texts
      → ((n : ℕ) → held n new' ≡ held n new + gain n)
      → Freed (λ n. count n h0.live + gain n) freed
      → Built new h0 texts (with_heap new' freed)
  unfolding Built Builds Freed
  Built-with_heap new new' h0 gain texts none e c f = f
  Built-with_heap new new' h0 gain texts (some h) e c f = (e, gain, λ n. (f n, c n))

  -- the pattern is freed behind its matches
  Built-freed :
      (new : List Block) (word : Block) (h0 h : Heap) (texts : List Text) (r : List Block × Heap)
      → Held h0 word h
      → Builds new h texts r
      → Built new h0 texts (with_heap r.0 (free (some word) r.1))
  unfolding Builds Held
  Built-freed new word h0 h texts (new', h') held (e, gain, c) =
      Built-with_heap new new' h0 gain texts (free (some word) h') e (λ n. (c n).1)
        (Freed-free (some word) (λ n. count n h0.live + gain n) h'
          (λ n. unfold points_at in omega (arith, held n, (c n).0)))

  -- an argument more
  Built-append :
      (new : List Block) (word : Block) (h0 h : Heap)
      → Held h0 word h
      → Built new h0 (map text_of new ++ word.text ∷ []) (some (new ++ word ∷ [], h))
  unfolding Built Builds Held
  Built-append new word h0 h held =
      (texts-append new word, λ n. same word.number n, λ n. (held n, held-append n new word))

  heap_globbed-Built :
      (new : List Block) (word : Block) (h0 h : Heap) (matches : Option (List Text))
      → Held h0 word h
      → Built new h0
          (add_globbed sys last_status (map text_of new) word.text matches)
          (heap_globbed sys last_status new word h matches)
  unfolding heap_globbed add_globbed
  heap_globbed-Built new word h0 h none held = Built-append new word h0 h held
  heap_globbed-Built new word h0 h (some paths) held =
      Built-freed new word h0 h _ (heap_matches paths new h) held (heap_matches-Builds paths new h)

  Held-malloc : (s : Text) (h : Heap) → Held h (malloc s h).0 (malloc s h).1
  unfolding Held
  Held-malloc s h = malloc-count s h

  heap_arg-Built :
      (new : List Block) (word : Option Text) (h : Heap)
      → Built new h
          (add_word sys last_status (map text_of new) word)
          (heap_arg sys last_status new word h)
  unfolding heap_arg add_word
  heap_arg-Built new none h = unfold Built in Builds-none new h
  heap_arg-Built new (some word) h = elim (Bool-cases (has_glob word)) [
    | inl e ↦ rw e (
        heap_globbed-Built new (malloc word h).0 h (malloc word h).1 (glob word)
          (Held-malloc word h))
    | inr e ↦ rw e (Built-append new (malloc word h).0 h (malloc word h).1 (Held-malloc word h))
  ]

  Built-trans :
      (new new1 : List Block) (h h1 : Heap) (texts1 texts : List Text)
      (r : Option (List Block × Heap))
      → Builds new h texts1 (new1, h1)
      → Built new1 h1 texts r
      → Built new h texts r
  unfolding Built Builds
  Built-trans new new1 h h1 texts1 texts none b c = c
  Built-trans new new1 h h1 texts1 texts (some (new2, h2)) (e, gain, c) (f, more, d) = (
    f,
    λ n. gain n + more n,
    λ n. (
      omega (arith, (c n).0, (c n).1, (d n).0, (d n).1),
      omega (arith, (c n).0, (c n).1, (d n).0, (d n).1),
    ),
  )

  Built-and_then :
      (new : List Block) (h : Heap) (texts1 texts : List Text)
      (f : List Block → Heap → Option (List Block × Heap)) (r : Option (List Block × Heap))
      → ((new1 : List Block) (h1 : Heap)
          → map text_of new1 ≡ texts1
          → Built new1 h1 texts (f new1 h1))
      → Built new h texts1 r
      → Built new h texts (and_then f r)
  unfolding and_then
  Built-and_then new h texts1 texts f none k b = unfold Built in b
  Built-and_then new h texts1 texts f (some (new1, h1)) k b =
      Built-trans new new1 h h1 texts1 texts (f new1 h1) (unfold Built in b)
        (k new1 h1 (unfold Built Builds in b.0))

  pub heap_args-Built :
      (args : List Text) (new : List Block) (h : Heap)
      → Built new h
          (expand_args sys last_status (map text_of new) args)
          (heap_args sys last_status args new h)
  unfolding heap_args expand_args
  heap_args-Built [] new h = unfold Built in Builds-none new h
  heap_args-Built (arg ∷ args) new h = elim (Bool-cases (ltb (length new) 63)) [
    | inl e ↦ rw (length-texts new) (
        rw e (
          Built-and_then new h
            (add_word sys last_status (map text_of new) (expanded sys last_status arg)) _
            (heap_args sys last_status args) _
            (λ new1 h1 same.
              subst
                (λ texts.
                  Built new1 h1 (expand_args sys last_status texts args)
                    (heap_args sys last_status args new1 h1))
                same (heap_args-Built args new1 h1))
            (heap_arg-Built new (expanded sys last_status arg) h)))
    | inr e ↦ rw (length-texts new) (rw e (unfold Built in Builds-none new h))
  ]

  -- from the heap `h` to a pointer to this text, or to NULL
  unfoldable pub Made : Heap → Option Text → Option (Pointer × Heap) → Type 0
  Made h text none = ⊥
  Made h text (some (p, h')) =
      (Option.map text_of p ≡ text) × ((n : ℕ) → count n h'.live ≡ count n h.live + points_at n p)

  Made-with_heap :
      (h0 : Heap) (b : Block) (freed : Option Heap)
      → Freed (λ n. count n h0.live + same b.number n) freed
      → Made h0 (some b.text) (with_heap (some b) freed)
  unfolding Made Freed points_at
  Made-with_heap h0 b none f = f
  Made-with_heap h0 b (some h) f = (refl, f)

  first_on_heap-Made :
      (v : Block) (h0 h : Heap) (matches : Option (List Text))
      → Held h0 v h
      → Made h0
          (some (first_match sys last_status v.text matches))
          (first_on_heap sys last_status v h matches)
  unfolding first_on_heap first_match
  first_on_heap-Made v h0 h none held = unfold Made Held points_at in (refl, held)
  first_on_heap-Made v h0 h (some []) held = unfold Made Held points_at in (refl, held)
  first_on_heap-Made v h0 h (some (path ∷ paths)) held =
      let (b, h') = malloc path h in
      Made-with_heap h0 b (free (some v) h') (
        Freed-free (some v) (λ n. count n h0.live + same b.number n) h'
          (λ n. unfold points_at Held in omega (arith, held n, malloc-count path h n)))

  heap_word-Made :
      (word : Option Text) (h : Heap)
      → Made h (glob_first sys last_status word) (heap_word sys last_status word h)
  unfolding heap_word glob_first
  heap_word-Made none h = unfold Made points_at in (refl, λ n. omega arith)
  heap_word-Made (some v) h = elim (Bool-cases (has_glob v)) [
    | inl e ↦ rw e (first_on_heap-Made (malloc v h).0 h (malloc v h).1 (glob v) (Held-malloc v h))
    | inr e ↦ rw e (unfold Made points_at in (refl, malloc-count v h))
  ]

  pub heap_file-Made :
      (file : Option Text) (h : Heap)
      → Made h (expand_file sys last_status file) (heap_file sys last_status file h)
  unfolding heap_file expand_file expand_word
  heap_file-Made none h = unfold Made points_at in (refl, λ n. omega arith)
  heap_file-Made (some file) h = heap_word-Made (expanded sys last_status file) h
