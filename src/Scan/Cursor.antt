-- ===== src/Scan/Cursor.antt =====
-- `next_char` from a position that splits the line, and views from there.
use httpoll.Prelude.{
  ℕ, ◌+◌, ◌≤◌, ◌≡◌, refl, ap, Bool, true, false, [], ◌∷◌, ◌++◌, arith, ◌==◌, Bytes, All, length,
  drop, length-append, drop-append_self, c_string,
}
use httpoll.Scan.{find_pos, next_char}

pub find_pos-le : (pred : ℕ → Bool) (s : Bytes) → find_pos pred s ≤ length s
unfolding find_pos
find_pos-le pred [] = omega arith
find_pos-le pred (x ∷ xs) = ground (arith, find_pos-le pred xs)

pub next_char-append :
    (pre s : Bytes) (pred : ℕ → Bool)
    → next_char (pre ++ s) (length pre) pred ≡ length pre + find_pos pred s
unfolding next_char find_pos
next_char-append pre [] pred = ground (arith, length-append pre [])
next_char-append pre (x ∷ s) pred = rw drop-append_self (ground (arith, length-append pre (x ∷ s)))

pub next_char-end :
    (s : Bytes) (off : ℕ) (pred : ℕ → Bool) → length s ≤ off → next_char s off pred ≡ length s
unfolding next_char
next_char-end s off pred h = ground arith

pub find_pos-append :
    (pred : ℕ → Bool) (xs ys : Bytes)
    → All (λ c. pred c ≡ false) xs
    → find_pos pred (xs ++ ys) ≡ length xs + find_pos pred ys
unfolding find_pos
find_pos-append pred [] ys h = omega arith
find_pos-append pred (x ∷ xs) ys h = rw h.0 (omega (arith, find_pos-append pred xs ys h.1))

pub find_pos-here :
    (pred : ℕ → Bool) (x : ℕ) (xs : Bytes) → pred x ≡ true → find_pos pred (x ∷ xs) ≡ 0
unfolding find_pos
find_pos-here pred x xs h = rw h refl

-- A text with no NUL is the front of its C string.
pub c_string-append :
    (xs ys : Bytes) → All (λ c. (c == 0) ≡ false) xs → c_string (xs ++ ys) ≡ xs ++ c_string ys
c_string-append [] ys h = refl
c_string-append (x ∷ xs) ys h = rw h.0 (ap (◌∷◌ x) (c_string-append xs ys h.1))

-- The same at a position that is known to split the line.
module _ (line pre s : Bytes) (at : ℕ) (split : line ≡ pre ++ s) (here : at ≡ length pre) where
  pub next_char-split : (pred : ℕ → Bool) → next_char line at pred ≡ at + find_pos pred s
  next_char-split pred = rw (split, here) (next_char-append pre s pred)

  pub drop-split : drop at line ≡ s
  drop-split = rw (split, here) (drop-append_self pre s)
