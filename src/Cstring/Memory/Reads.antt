-- ===== src/Cstring/Memory/Reads.antt =====
-- What a write to memory leaves of the strings there.
use unix_shell.Base.{
  ℕ, zero, suc, ◌+◌, ◌-◌, ◌<◌, ◌≤◌, ◌≡◌, refl, ap, ◌∙◌, sym, [], ◌∷◌, inl, inr, ◌==◌, length,
  get_or, set, take, drop, arith, Bool-cases, true, false,
}
use unix_shell.Cstring.{Text, c_string}
use unix_shell.Cstring.Memory.{Bytes, read}

drop-nil : (n : ℕ) → drop n (let l : Bytes = [] in l) ≡ []
drop-nil zero = refl
drop-nil (suc n) = refl

drop-add : (m n : ℕ) (b : Bytes) → drop (m + n) b ≡ drop n (drop m b)
drop-add zero n b = let e : zero + n ≡ n = omega arith in rw e refl
drop-add (suc m) n [] = drop-nil (suc m + n) ∙ sym (drop-nil n)
drop-add (suc m) n (x ∷ b) = let e : suc m + n ≡ suc (m + n) = omega arith in rw e (drop-add m n b)

drop-set : (m n v : ℕ) (b : Bytes) → drop m (set b (m + n) v) ≡ set (drop m b) n v
drop-set zero n v b = let e : zero + n ≡ n = omega arith in rw e refl
drop-set (suc m) n v [] = refl
drop-set (suc m) n v (x ∷ b) =
    let e : suc m + n ≡ suc (m + n) = omega arith in rw e (drop-set m n v b)

drop-set_behind : (m i v : ℕ) (b : Bytes) → i < m → drop m (set b i v) ≡ drop m b
drop-set_behind zero i v b lt = absurd (omega (arith, lt))
drop-set_behind (suc m) i v [] lt = refl
drop-set_behind (suc m) zero v (x ∷ b) lt = refl
drop-set_behind (suc m) (suc i) v (x ∷ b) lt = drop-set_behind m i v b (omega (arith, lt))

get_or-drop : (m : ℕ) (b : Bytes) → get_or b m 0 ≡ get_or (drop m b) 0 0
get_or-drop zero b = refl
get_or-drop (suc m) [] = refl
get_or-drop (suc m) (x ∷ b) = get_or-drop m b

c_string-drop :
    (k : ℕ) (l : Bytes) → k ≤ length (c_string l) → c_string (drop k l) ≡ drop k (c_string l)
unfolding c_string
c_string-drop zero l le = refl
c_string-drop (suc k) [] le = refl
c_string-drop (suc k) (x ∷ l) le = elim (Bool-cases (x == 0)) [
  | inl e ↦ absurd (omega (arith, rw e at le))
  | inr e ↦ rw e (c_string-drop k l (omega (arith, rw e at le)))
]

c_string-set_cut :
    (k : ℕ) (l : Bytes) → k ≤ length (c_string l) → c_string (set l k 0) ≡ take k (c_string l)
unfolding c_string
c_string-set_cut zero [] le = refl
c_string-set_cut zero (x ∷ l) le = refl
c_string-set_cut (suc k) [] le = refl
c_string-set_cut (suc k) (x ∷ l) le = elim (Bool-cases (x == 0)) [
  | inl e ↦ absurd (omega (arith, rw e at le))
  | inr e ↦ rw e (ap (◌∷◌ x) (c_string-set_cut k l (omega (arith, rw e at le))))
]

c_string-set_beyond :
    (k v : ℕ) (l : Bytes) → length (c_string l) < k → c_string (set l k v) ≡ c_string l
unfolding c_string
c_string-set_beyond zero v l lt = absurd (omega (arith, lt))
c_string-set_beyond (suc k) v [] lt = refl
c_string-set_beyond (suc k) v (x ∷ l) lt = elim (Bool-cases (x == 0)) [
  | inl e ↦ rw e refl
  | inr e ↦ rw e (ap (◌∷◌ x) (c_string-set_beyond k v l (omega (arith, rw e at lt))))
]

-- the string behind `k` bytes of a string
pub read-add : (b : Bytes) (p k : ℕ) → k ≤ length (read b p) → read b (p + k) ≡ drop k (read b p)
unfolding read
read-add b p k le = rw (drop-add p k b) (c_string-drop k (drop p b) le)

-- a NUL written into a string cuts it
pub read-set_cut :
    (b : Bytes) (p k : ℕ) → k ≤ length (read b p) → read (set b (p + k) 0) p ≡ take k (read b p)
unfolding read
read-set_cut b p k le = rw (drop-set p k 0 b) (c_string-set_cut k (drop p b) le)

-- a write before the string
pub read-set_before : (b : Bytes) (p i v : ℕ) → i < p → read (set b i v) p ≡ read b p
unfolding read
read-set_before b p i v lt = ap c_string (drop-set_behind p i v b lt)

-- a write behind the string's NUL
pub read-set_beyond :
    (b : Bytes) (p i v : ℕ) → p + length (read b p) < i → read (set b i v) p ≡ read b p
unfolding read
read-set_beyond b p i v lt =
    let e : i ≡ p + (i - p) = omega (arith, lt) in
    rw e
      (rw (drop-set p (i - p) v b) (c_string-set_beyond (i - p) v (drop p b) (omega (arith, lt))))

-- the NUL is at the end
c_string-head : (l : Bytes) → (get_or l 0 0 == 0) ≡ true → c_string l ≡ []
unfolding c_string
c_string-head [] e = refl
c_string-head (x ∷ l) e = rw e refl

c_string-byte :
    (l : Bytes) → (get_or l 0 0 == 0) ≡ false → (c : ℕ) × (s : Text) × (c_string l ≡ c ∷ s)
unfolding c_string
c_string-byte [] e = absurd cc
c_string-byte (x ∷ l) e = (x, c_string l, rw e refl)

pub read-nil : (b : Bytes) (p : ℕ) → (get_or b p 0 == 0) ≡ true → read b p ≡ []
unfolding read
read-nil b p e = c_string-head (drop p b) (rw (← get_or-drop p b) e)

pub read-cons :
    (b : Bytes) (p : ℕ) → (get_or b p 0 == 0) ≡ false → (c : ℕ) × (s : Text) × (read b p ≡ c ∷ s)
unfolding read
read-cons b p e = c_string-byte (drop p b) (rw (← get_or-drop p b) e)
