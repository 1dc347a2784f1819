-- ===== src/History/Trim.antt =====
-- What trimming removes from a line.
use unix_shell.Base.{
  ℕ, zero, suc, ◌≤◌, ◌<◌, ◌≡◌, refl, sym, ap, ◌∙◌, inl, inr, true, false, [], ◌∷◌, ◌++◌, arith,
  length, get_or, take, All, All-append, length-take, Bool-cases, take_of_le, append_assoc,
  append-nil,
}
use unix_shell.Cstring.{Text, is_space}
use unix_shell.History.{trim, trim_to}

-- `t` is `s` with its trailing white space removed.
pub record IsTrimmed (s t : Text) : Type 0 where
  pub rest : Text
  pub splits : s ≡ t ++ rest
  pub spaces : All (λ c. is_space c ≡ true) rest
  pub ends : (n : ℕ) → length t ≡ suc n → is_space (get_or t n 0) ≡ false

take-suc : (n : ℕ) (s : Text) → n < length s → take (suc n) s ≡ take n s ++ get_or s n 0 ∷ []
take-suc n [] h = absurd (omega arith)
take-suc zero (c ∷ s) h = refl
take-suc (suc n) (c ∷ s) h = ap (◌∷◌ c) (take-suc n s (omega arith))

get_or-take : (n m : ℕ) (s : Text) → n < m → get_or (take m s) n 0 ≡ get_or s n 0
get_or-take n zero s h = absurd (omega arith)
get_or-take n (suc m) [] h = refl
get_or-take zero (suc m) (c ∷ s) h = refl
get_or-take (suc n) (suc m) (c ∷ s) h = get_or-take n m s (omega arith)

-- one round of the loop
shorten_IsTrimmed :
    (len : ℕ) (s t : Text)
    → len < length s
    → is_space (get_or s len 0) ≡ true
    → IsTrimmed (take len s) t
    → IsTrimmed (take (suc len) s) t
shorten_IsTrimmed len s t h e r = record {
  rest = r.rest ++ get_or s len 0 ∷ [];
  splits =
      take-suc len s h
      ∙ ap (λ k. k ++ get_or s len 0 ∷ []) r.splits
      ∙ append_assoc t r.rest (get_or s len 0 ∷ []);
  spaces = All-append (λ c. is_space c ≡ true) r.rest _ r.spaces (e, tt);
  ends = r.ends;
}

keep_IsTrimmed :
    (len : ℕ) (s : Text)
    → len < length s
    → is_space (get_or s len 0) ≡ false
    → IsTrimmed (take (suc len) s) (take (suc len) s)
keep_IsTrimmed len s h e = record {
  rest = [];
  splits = sym (append-nil _);
  spaces = tt;
  ends = λ n l.
      let last : n ≡ len = omega (arith, length-take (suc len) s) in
      rw (last, get_or-take len (suc len) s (omega arith)) e;
}

trim_to-IsTrimmed : (len : ℕ) (s : Text) → len ≤ length s → IsTrimmed (take len s) (trim_to len s)
unfolding trim_to
trim_to-IsTrimmed zero s h = record {
  rest = [];
  splits = refl;
  spaces = tt;
  ends = λ n e. absurd (omega arith);
}
trim_to-IsTrimmed (suc len) s h = elim (Bool-cases (is_space (get_or s len 0))) [
  | inl e ↦ rw e (shorten_IsTrimmed len s _ h e (trim_to-IsTrimmed len s (omega arith)))
  | inr e ↦ rw e (keep_IsTrimmed len s h e)
]

-- The stored line is the entered one without its trailing white space: what is cut off is white
-- space, and what is left is empty or ends in another byte.
pub trim-IsTrimmed : (s : Text) → IsTrimmed s (trim s)
unfolding trim
trim-IsTrimmed s =
    rw (take_of_le (length s) s (omega arith)) at (trim_to-IsTrimmed (length s) s (omega arith))
