-- ===== src/Scan.antt =====
-- `next_char` of src/hpl_header_parser.cc, and `atoi` of the C library.
pub mod Cursor
pub mod Decimal
use httpoll.Prelude.{
  ℕ, zero, suc, ◌+◌, ◌-◌, ◌*◌, ◌%◌, ◌^◌, Bool, true, false, ◌&&◌, ◌||◌, not, [], ◌∷◌, ltb, leb,
  ◌==◌, if◌then◌else◌, Bytes, length, take, drop,
}

-- How far the first byte lies that meets the predicate.
unfoldable pub find_pos : (ℕ → Bool) → Bytes → ℕ
find_pos pred [] = 0
find_pos pred (x ∷ xs) = if pred x then 0 else suc (find_pos pred xs)

-- The position of the iterator that is returned; `length s` is `s.end()`.
unfoldable pub next_char : Bytes → ℕ → (ℕ → Bool) → ℕ
unfolding find_pos
next_char s off pred = if leb (length s) off then length s else off + find_pos pred (drop off s)

abbrev pub is_space : ℕ → Bool
is_space c = c == b' ' || (leb 9 c && leb c 13)

abbrev pub is_digit : ℕ → Bool
is_digit c = leb b'0' c && leb c b'9'

read_digits : Bytes → ℕ → ℕ
read_digits [] acc = acc
read_digits (x ∷ xs) acc =
    let rest = read_digits xs (acc * 10 + (x - b'0')) in if is_digit x then rest else acc

-- On a sign, at most one.
read_signed : Bytes → ℕ
unfolding read_digits
read_signed [] = 0
read_signed (x ∷ xs) =
    if x == b'-'
    then (2 ^ 32 - read_digits xs 0 % 2 ^ 32) % 2 ^ 32
    else if x == b'+'
    then read_digits xs 0 % 2 ^ 32
    else read_digits (x ∷ xs) 0 % 2 ^ 32

-- `atoi` on a C string, as the bit pattern of the `int`, which is what its conversion to `unsigned`
-- keeps. Beyond the range of `int` C leaves the result open; here it is taken mod 2^32.
unfoldable pub atoi : Bytes → ℕ
unfolding read_signed find_pos
atoi s = read_signed (drop (find_pos (λ c. not (is_space c)) s) s)
