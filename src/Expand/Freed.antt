-- ===== src/Expand/Freed.antt =====
-- The blocks that expansion allocates, and what `free_expansions` leaves of them.
use mathlib.Core.Option
use mathlib.Core.Option.{Option, none, some}
use unix_shell.Base.{
  ℕ, ◌+◌, ◌<◌, ◌≡◌, refl, true, List, [], ◌∷◌, ◌++◌, ◌==◌, if◌then◌else◌, inl, inr, arith,
  Bool-cases, ==_refl,
}
use unix_shell.Expand.Memory.{
  Heap, Block, Pointer, remove, free, HeapCommand, free_args, then_heap, free_command,
  free_commands,
}

-- 1 where the blocks are the same
abbrev pub same : ℕ → ℕ → ℕ
same a b = if a == b then 1 else 0

-- how often a block stands in a list
unfoldable pub count : ℕ → List ℕ → ℕ
count n [] = 0
count n (x ∷ xs) = same x n + count n xs

unfoldable pub points_at : ℕ → Pointer → ℕ
points_at n none = 0
points_at n (some b) = same b.number n

unfoldable pub owned : ℕ → List Pointer → ℕ
unfolding points_at
owned n [] = 0
owned n (p ∷ ps) = points_at n p + owned n ps

unfoldable pub owned_by : ℕ → HeapCommand → ℕ
unfolding owned points_at
owned_by n cmd = owned n cmd.args + (points_at n cmd.input_file + points_at n cmd.output_file)

unfoldable pub owned_by_all : ℕ → List HeapCommand → ℕ
unfolding owned_by
owned_by_all n [] = 0
owned_by_all n (cmd ∷ cmds) = owned_by n cmd + owned_by_all n cmds

owned-append :
    (n : ℕ) (ps : List Pointer) (p : Pointer) → owned n (ps ++ p ∷ []) ≡ owned n ps + points_at n p
unfolding owned
owned-append n [] p = omega arith
owned-append n (q ∷ ps) p = omega (arith, owned-append n ps p)

-- freeing a block that is allocated takes exactly it away
Frees : Pointer → Heap → Option Heap → Type 0
Frees p h none = ⊥
Frees p h (some h') = (n : ℕ) → count n h'.live + points_at n p ≡ count n h.live

Removes : ℕ → List ℕ → Option (List ℕ) → Type 0
Removes b xs none = ⊥
Removes b xs (some ys) = (n : ℕ) → count n ys + same b n ≡ count n xs

Removes-cons :
    (b x : ℕ) (xs : List ℕ) (r : Option (List ℕ))
    → Removes b xs r
    → Removes b (x ∷ xs) (Option.map (◌∷◌ x) r)
unfolding Removes count
Removes-cons b x xs none h = h
Removes-cons b x xs (some ys) h = λ n. omega (arith, h n)

same_count : (b x n : ℕ) → (x == b) ≡ true → same b n ≡ same x n
same_count b x n e = ground (arith, e)

Removes-remove : (b : ℕ) (xs : List ℕ) → 0 < count b xs → Removes b xs (remove b xs)
unfolding remove count
Removes-remove b [] lt = absurd (omega (arith, lt))
Removes-remove b (x ∷ xs) lt = elim (Bool-cases (x == b)) [
  | inl e ↦ rw e (unfold Removes in (λ n. omega (arith, same_count b x n e)))
  | inr e ↦ rw e (Removes-cons b x xs _ (Removes-remove b xs (omega (arith, rw e at lt))))
]

Frees-removed :
    (b : Block) (h : Heap) (r : Option (List ℕ))
    → Removes b.number h.live r
    → Frees (some b) h (Option.map (λ live. record h { live = live }) r)
unfolding Removes Frees points_at
Frees-removed b h none e = e
Frees-removed b h (some ys) e = e

Frees-free :
    (p : Pointer) (h : Heap)
    → ((b : Block) → p ≡ some b → 0 < count b.number h.live)
    → Frees p h (free p h)
unfolding free
Frees-free none h live = unfold Frees points_at in (λ n. omega arith)
Frees-free (some b) h live =
    Frees-removed b h (remove b.number h.live) (Removes-remove b.number h.live (live b refl))

some_injective {ℓ} : {A : Type ℓ} {a b : A} → some a ≡ some b → a ≡ b
some_injective e = cc

points_at_self : (p : Pointer) (b : Block) → p ≡ some b → points_at b.number p ≡ 1
unfolding points_at
points_at_self p b e = rw e (rw (==_refl b.number) refl)

-- a pointer whose block the heap holds
Frees-held :
    (p : Pointer) (h : Heap) (rest : ℕ → ℕ)
    → ((n : ℕ) → count n h.live ≡ rest n + points_at n p)
    → Frees p h (free p h)
Frees-held p h rest held =
    Frees-free p h (λ b e. omega (arith, held b.number, points_at_self p b e))

-- `free` on what one pointer holds
unfoldable pub Freed : (ℕ → ℕ) → Option Heap → Type 0
Freed rest none = ⊥
Freed rest (some h) = (n : ℕ) → count n h.live ≡ rest n

Freed-Frees :
    (p : Pointer) (rest : ℕ → ℕ) (h : Heap) (r : Option Heap)
    → ((n : ℕ) → count n h.live ≡ rest n + points_at n p)
    → Frees p h r
    → Freed rest r
unfolding Frees Freed
Freed-Frees p rest h none held f = f
Freed-Frees p rest h (some h') held f = λ n. omega (arith, held n, f n)

pub Freed-free :
    (p : Pointer) (rest : ℕ → ℕ) (h : Heap)
    → ((n : ℕ) → count n h.live ≡ rest n + points_at n p)
    → Freed rest (free p h)
Freed-free p rest h held = Freed-Frees p rest h _ held (Frees-held p h rest held)

Freed-then_heap :
    (f : Heap → Option Heap) (mid rest : ℕ → ℕ) (r : Option Heap)
    → ((h : Heap) → ((n : ℕ) → count n h.live ≡ mid n) → Freed rest (f h))
    → Freed mid r
    → Freed rest (then_heap f r)
unfolding Freed then_heap
Freed-then_heap f mid rest none k h = h
Freed-then_heap f mid rest (some x) k h = k x h

Freed-free_args :
    (ps : List Pointer) (rest : ℕ → ℕ) (h : Heap)
    → ((n : ℕ) → count n h.live ≡ rest n + owned n ps)
    → Freed rest (free_args ps h)
unfolding free_args owned
Freed-free_args [] rest h held = unfold Freed in (λ n. omega (arith, held n))
Freed-free_args (p ∷ ps) rest h held =
    Freed-then_heap (free_args ps) (λ n. rest n + owned n ps) rest (free p h)
      (Freed-free_args ps rest)
      (Freed-free p (λ n. rest n + owned n ps) h (λ n. omega (arith, held n)))

Freed-free_command :
    (cmd : HeapCommand) (rest : ℕ → ℕ) (h : Heap)
    → ((n : ℕ) → count n h.live ≡ rest n + owned_by n cmd)
    → Freed rest (free_command cmd h)
unfolding free_command owned_by
Freed-free_command cmd rest h held =
    let output : ℕ → ℕ = (λ n. rest n + points_at n cmd.output_file) in
    let files : ℕ → ℕ = (λ n. output n + points_at n cmd.input_file) in
    Freed-then_heap (free cmd.output_file) output rest _ (λ h'. Freed-free cmd.output_file rest h')
      (Freed-then_heap (free cmd.input_file) files output _
        (λ h'. Freed-free cmd.input_file output h')
        (Freed-free_args cmd.args files h (λ n. omega (arith, held n))))

pub Freed-free_commands :
    (cmds : List HeapCommand) (rest : ℕ → ℕ) (h : Heap)
    → ((n : ℕ) → count n h.live ≡ rest n + owned_by_all n cmds)
    → Freed rest (free_commands cmds h)
unfolding free_commands owned_by_all
Freed-free_commands [] rest h held = unfold Freed in (λ n. omega (arith, held n))
Freed-free_commands (cmd ∷ cmds) rest h held =
    Freed-then_heap (free_commands cmds) (λ n. rest n + owned_by_all n cmds) rest
      (free_command cmd h) (Freed-free_commands cmds rest)
      (Freed-free_command cmd (λ n. rest n + owned_by_all n cmds) h (λ n. omega (arith, held n)))
