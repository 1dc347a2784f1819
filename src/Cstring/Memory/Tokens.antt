-- ===== src/Cstring/Memory/Tokens.antt =====
-- `strtok_r` in memory returns what it returns on strings, and writes behind the strings before it.
use unix_shell.Base.{
  ℕ, zero, suc, ◌+◌, ◌<◌, ◌≤◌, ◌≡◌, ◌≢◌, Bool, refl, ap, ◌∙◌, sym, [], ◌∷◌, Option, none, some, inl,
  inr, ◌==◌, length, length-drop, take_of_le, get_or, set, take, drop, arith, Bool-cases, true,
  false,
}
use unix_shell.Cstring.{Text, elem, skip, cut, cut_nonempty, strtok_r}
use unix_shell.Cstring.Words.{skip_head}
use unix_shell.Cstring.Memory.{
  Bytes, read, strspn, strcspn, Token, token_to, token_from, strtok_r_at,
}
use unix_shell.Cstring.Memory.Reads.{
  read-add, read-set_cut, read-set_before, read-set_beyond, read-nil, read-cons,
}

-- the strings that end at `low` or before, and those that start at `high` or behind, are kept
abbrev pub Keeps : ℕ → ℕ → Bytes → Bytes → Type 0
Keeps low high b b' =
    (p : ℕ)
    → (p + length (read b p) ≤ low → read b' p ≡ read b p) × (high ≤ p → read b' p ≡ read b p)

pub Keeps-refl : (low high : ℕ) (b : Bytes) → Keeps low high b b
Keeps-refl low high b p = ((λ le. refl), (λ le. refl))

pub Keeps-trans :
    (low high low' high' : ℕ) (b c d : Bytes)
    → low ≤ low'
    → high' ≤ high
    → Keeps low high b c
    → Keeps low' high' c d
    → Keeps low high b d
Keeps-trans low high low' high' b c d l h k k' p = (
  λ le. let e = (k p).0 le in (k' p).0 (rw e (omega (arith, le, l))) ∙ e,
  λ le. (k' p).1 (omega (arith, le, h)) ∙ (k p).1 le,
)

pub Keeps-mono :
    (low high low' high' : ℕ) (b c : Bytes)
    → low ≤ low'
    → high' ≤ high
    → Keeps low' high' b c
    → Keeps low high b c
Keeps-mono low high low' high' b c l h k p =
    ((λ le. (k p).0 (omega (arith, le, l))), (λ le. (k p).1 (omega (arith, le, h))))

-- A pointer and `saveptr` against what the call returns on strings; `low` is where it began.
unfoldable pub PointsTo : ℕ → Option ℕ → ℕ → Bytes → Option (Text × Text) → Type 0
PointsTo low none save b none = Unit
PointsTo low (some p) save b (some (token, rest)) =
    (low ≤ p) × (read b p ≡ token) × (p + length token ≤ save) × (read b save ≡ rest)
PointsTo low _ save b _ = ⊥

-- A call that began at `low`, where the string ends at `high`.
pub record Yields (low high : ℕ) (b : Bytes) (t : Token) (cursor : Option (Text × Text))
    : Type 0 where
  pub points : PointsTo low t.token t.saveptr t.bytes cursor
  pub keeps : Keeps low high b t.bytes
  pub after : low ≤ t.saveptr
  pub within : t.saveptr + length (read t.bytes t.saveptr) ≤ high

nil-ne-cons : {c : ℕ} {s : Text} → [] ≢ c ∷ s
nil-ne-cons e = cc

skip-strspn : (d s : Text) → skip d s ≡ drop (strspn d s) s
unfolding skip strspn
skip-strspn d [] = refl
skip-strspn d (c ∷ s) = elim (Bool-cases (elem c d)) [
  | inl e ↦ rw e (skip-strspn d s)
  | inr e ↦ rw e refl
]

strspn-le : (d s : Text) → strspn d s ≤ length s
unfolding strspn
strspn-le d [] = omega arith
strspn-le d (c ∷ s) = ground (arith, strspn-le d s)

strcspn-le : (d s : Text) → strcspn d s ≤ length s
unfolding strcspn
strcspn-le d [] = omega arith
strcspn-le d (c ∷ s) = ground (arith, strcspn-le d s)

cut-strcspn : (d s : Text) → cut d s ≡ (take (strcspn d s) s, drop (suc (strcspn d s)) s)
unfolding cut strcspn
cut-strcspn d [] = refl
cut-strcspn d (c ∷ s) = elim (Bool-cases (elem c d)) [
  | inl e ↦ rw e refl
  | inr e ↦ rw e (ap (λ r. (c ∷ r.0, r.1)) (cut-strcspn d s))
]

length-take_of_le : (k : ℕ) (s : Text) → k ≤ length s → length (take k s) ≡ k
length-take_of_le zero s le = refl
length-take_of_le (suc k) [] le = absurd (omega (arith, le))
length-take_of_le (suc k) (x ∷ s) le = ap suc (length-take_of_le k s (omega (arith, le)))

drop_of_le : (n : ℕ) (s : Text) → length s ≤ n → drop n s ≡ []
drop_of_le zero [] le = refl
drop_of_le zero (x ∷ s) le = absurd (omega (arith, le))
drop_of_le (suc n) [] le = refl
drop_of_le (suc n) (x ∷ s) le = drop_of_le n s (omega (arith, le))

module _ (b : Bytes) (start : ℕ) (s : Text) (here : read b start ≡ s) (k : ℕ)
    (le : k ≤ length s) where
  behind : read b (start + k) ≡ drop k s
  behind = read-add b start k (rw here le) ∙ ap (drop k) here

  -- the token ends at the string's NUL
  at_end :
      (get_or b (start + k) 0 == 0) ≡ true
      → PointsTo start (some start) (start + k) b (some (take k s, drop (suc k) s)) × (k ≡ length s)
  unfolding PointsTo
  at_end e =
      let rest = ap length (sym (read-nil b (start + k) e) ∙ behind) in
      let all : k ≡ length s = omega (arith, rest, length-drop k s, le) in
      (
        (
          omega arith,
          here ∙ sym (take_of_le k s (omega (arith, all))),
          omega (arith, length-take_of_le k s le),
          read-nil b (start + k) e ∙ sym (drop_of_le (suc k) s (omega (arith, all))),
        ),
        all,
      )

  -- the token ends at a delimiter, which becomes a NUL
  inside : (get_or b (start + k) 0 == 0) ≡ false → k < length s
  inside e =
      let (c, r, more) = read-cons b (start + k) e in
      let rest = ap length (sym behind ∙ more) in omega (arith, rest, length-drop k s, le)

  behind_nul :
      (get_or b (start + k) 0 == 0) ≡ false
      → read (set b (start + k) 0) (suc (start + k)) ≡ drop (suc k) s
  behind_nul e =
      let lt = inside e in
      let next : suc (start + k) ≡ start + suc k = omega arith in
      read-set_before b (suc (start + k)) (start + k) 0 (omega arith)
      ∙ (rw next (read-add b start (suc k) (rw here (omega (arith, lt)))) ∙ ap (drop (suc k)) here)

  at_byte :
      (get_or b (start + k) 0 == 0) ≡ false
      → PointsTo start
          (some start)
          (suc (start + k))
          (set b (start + k) 0)
          (some (take k s, drop (suc k) s))
  unfolding PointsTo
  at_byte e = (
    omega arith,
    read-set_cut b start k (rw here le) ∙ ap (take k) here,
    omega (arith, length-take_of_le k s le),
    behind_nul e,
  )

  Keeps-at_byte :
      (get_or b (start + k) 0 == 0) ≡ false
      → 0 < k
      → Keeps start (start + length s) b (set b (start + k) 0)
  Keeps-at_byte e positive p =
      let lt = inside e in
      (
        (λ before. read-set_beyond b p (start + k) 0 (omega (arith, before, positive))),
        (λ beyond. read-set_before b p (start + k) 0 (omega (arith, beyond, lt))),
      )

  token_to-Yields :
      0 < k
      → Yields start
          (start + length s)
          b
          (token_to b start (start + k))
          (some (take k s, drop (suc k) s))
  unfolding token_to
  token_to-Yields positive = elim (Bool-cases (get_or b (start + k) 0 == 0)) [
    | inl e ↦ rw e (record {
      points = (at_end e).0;
      keeps = Keeps-refl start (start + length s) b;
      after = omega arith;
      within = rw (read-nil b (start + k) e) (omega (arith, le));
    })
    | inr e ↦ rw e (record {
      points = at_byte e;
      keeps = Keeps-at_byte e positive;
      after = omega arith;
      within = rw (behind_nul e) (omega (arith, inside e, length-drop (suc k) s));
    })
  ]

-- no delimiter stands in front
abbrev Begins : Text → Text → Type 0
Begins d [] = Unit
Begins d (c ∷ s) = elem c d ≡ false

Begins-skip : (d s r : Text) → skip d s ≡ r → Begins d r
Begins-skip d s [] e = tt
Begins-skip d s (c ∷ r) e = skip_head d s e

strcspn_pos : (d : Text) (c : ℕ) (s : Text) → elem c d ≡ false → 0 < strcspn d (c ∷ s)
unfolding strcspn
strcspn_pos d c s e = rw e (omega arith)

token_from-Yields :
    (d : Text) (b : Bytes) (start : ℕ) (s : Text)
    → read b start ≡ s
    → Begins d s
    → (head : Bool) → (get_or b start 0 == 0) ≡ head
    → Yields start (start + length s) b (token_from d b start) (cut_nonempty d s)
unfolding token_from cut_nonempty
token_from-Yields d b start [] here begins true e = rw e (record {
  points = unfold PointsTo in tt;
  keeps = Keeps-refl start (start + 0) b;
  after = omega arith;
  within = rw here (omega arith);
})
token_from-Yields d b start (c ∷ s) here begins false e = rw e (
    rw here (
      rw (cut-strcspn d (c ∷ s)) (
        token_to-Yields b start (c ∷ s) here (strcspn d (c ∷ s)) (strcspn-le d (c ∷ s))
          (strcspn_pos d c s begins))))
token_from-Yields d b start [] here begins false e =
    let (c, r, more) = read-cons b start e in absurd (nil-ne-cons (sym here ∙ more))
token_from-Yields d b start (c ∷ s) here begins true e =
    absurd (nil-ne-cons (sym (read-nil b start e) ∙ here))

pub PointsTo-later :
    (low low' : ℕ) (token : Option ℕ) (save : ℕ) (b : Bytes) (cursor : Option (Text × Text))
    → low ≤ low'
    → PointsTo low' token save b cursor
    → PointsTo low token save b cursor
unfolding PointsTo
PointsTo-later low low' none save b none le h = tt
PointsTo-later low low' none save b (some c) le h = h
PointsTo-later low low' (some p) save b none le h = h
PointsTo-later low low' (some p) save b (some (token, rest)) le (l, t, e, r) =
    (omega (arith, le, l), t, e, r)

Yields-later :
    (low low' high high' : ℕ) (b : Bytes) (t : Token) (cursor : Option (Text × Text))
    → low ≤ low'
    → high' ≡ high
    → Yields low' high' b t cursor
    → Yields low high b t cursor
Yields-later low low' high high' b t cursor le e y = record {
  points = PointsTo-later low low' t.token t.saveptr t.bytes cursor le y.points;
  keeps = Keeps-mono low high low' high' b t.bytes le (omega (arith, e)) y.keeps;
  after = omega (arith, le, y.after);
  within = omega (arith, e, y.within);
}

-- A call in memory returns a pointer to the token that the call on the string there returns, with
-- `saveptr` at what is left; it keeps the strings that end where it begins or before, and those
-- behind its own string.
pub strtok_r_at-Yields :
    (d : Text) (b : Bytes) (p : ℕ)
    → Yields p (p + length (read b p)) b (strtok_r_at d b p) (strtok_r d (read b p))
unfolding strtok_r_at strtok_r
strtok_r_at-Yields d b p =
    let n = strspn d (read b p) in
    let le = strspn-le d (read b p) in
    let here = read-add b p n le ∙ sym (skip-strspn d (read b p)) in
    let long = ap length (skip-strspn d (read b p)) in
    Yields-later p (p + n) (p + length (read b p)) (p + n + length (skip d (read b p))) b _ _
      (omega arith) (omega (arith, long, le, length-drop n (read b p)))
      (token_from-Yields d b (p + n) (skip d (read b p)) here (Begins-skip d (read b p) _ refl) _
        refl)
