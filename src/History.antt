-- ===== src/History.antt =====
-- history.c and history.h: the last lines that were entered, in a ring.
pub mod Trim
pub mod Ring
mod Tests
use unix_shell.Base.{
  ℕ, zero, suc, ◌+◌, ◌-◌, ◌%◌, Bool, true, false, List, [], ◌∷◌, ◌++◌, Option, none, some, ltb,
  if◌then◌else◌, length, get_or, set, take, replicate,
}
use unix_shell.Cstring.{Text, codes, is_space}
use unix_shell.Cstring.Format.{decimal, pad_left}

abbrev pub history_capacity : ℕ
history_capacity = 1000

-- `history_t`; an entry is `none` where the pointer is NULL
pub record History : Type 0 where
  pub entries : List (Option Text)
  pub size : ℕ
  pub next : ℕ
  pub total : ℕ

-- as main.c sets it up
unfoldable pub empty_history : History
empty_history = record { entries = replicate history_capacity none; size = 0; next = 0; total = 0 }

unfoldable pub is_blank : Text → Bool
is_blank [] = true
is_blank (c ∷ s) = if is_space c then is_blank s else false

-- The loop that shortens the copy: `s` up to `len`, less the white space at its end.
unfoldable pub trim_to : ℕ → Text → Text
trim_to zero s = []
trim_to (suc len) s =
    let shorter = trim_to len s in if is_space (get_or s len 0) then shorter else take (suc len) s

unfoldable pub trim : Text → Text
unfolding trim_to
trim s = trim_to (length s) s

-- `h` with `copy` in the slot at `next`
unfoldable pub store : History → Text → History
store h copy = record {
  entries = set h.entries h.next (some copy);
  size = if ltb h.size history_capacity then h.size + 1 else h.size;
  next = (h.next + 1) % history_capacity;
  total = h.total + 1;
}

-- `strdup` yields `none` where it runs out of memory.
module _ (strdup : Text → Option Text) where
  store_copy : Option Text → History → History
  unfolding store trim
  store_copy none h = h
  store_copy (some copy) h = store h (trim copy)

  -- the line is `none` where the pointer is NULL
  unfoldable pub history_add : History → Option Text → History
  unfolding store_copy is_blank
  history_add h none = h
  history_add h (some line) = if is_blank line then h else store_copy (strdup line) h

  unfoldable pub add_lines : History → List Text → History
  unfolding history_add
  add_lines h [] = h
  add_lines h (line ∷ lines) = add_lines (history_add h (some line)) lines

-- `%s` of a pointer
abbrev pub entry_text : Option Text → Text
entry_text none = codes "(null)"
entry_text (some s) = s

abbrev pub history_line : ℕ → Text → Text
history_line number s = pad_left 5 (decimal number) ++ (codes "  " ++ (s ++ b'\n' ∷ []))

-- `h->next - h->size + HISTORY_CAPACITY` is not negative, since `size` is at most the capacity.
abbrev pub oldest : History → ℕ
oldest h = (h.next + history_capacity - h.size) % history_capacity

-- the loop of `history_print`: `rounds` are left, from `i` on
unfoldable pub print_from : History → ℕ → ℕ → List Text
print_from h zero i = []
print_from h (suc rounds) i =
    history_line (h.total - h.size + 1 + i)
      (entry_text (get_or h.entries ((oldest h + i) % history_capacity) none))
    ∷ print_from h rounds (i + 1)

unfoldable pub history_print : History → List Text
unfolding print_from
history_print h = print_from h h.size 0

clear_entries : List (Option Text) → List (Option Text)
clear_entries [] = []
clear_entries (_ ∷ entries) = none ∷ clear_entries entries

unfoldable pub history_free : History → History
unfolding clear_entries
history_free h = record { entries = clear_entries h.entries; size = 0; next = 0; total = 0 }
