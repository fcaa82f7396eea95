-- ===== src/Scan/Decimal.antt =====
-- `atoi` reads a decimal numeral.
use httpoll.Prelude.{
  ℕ, ◌+◌, ◌-◌, ◌*◌, ◌%◌, ◌^◌, ◌<◌, ◌≡◌, ap, ◌∙◌, true, false, List, [], ◌∷◌, ◌++◌, arith, ◌==◌,
  Bytes, All, length, c_string, Bool-cases, inl, inr,
}
use native.Mathlib.Nat.{pow-suc}
use httpoll.Scan.{find_pos, atoi, read_digits, is_digit, is_space}

-- The number that a list of digits stands for.
abbrev pub decimal : List ℕ → ℕ
decimal [] = 0
decimal (d ∷ ds) = d * 10 ^ length ds + decimal ds

abbrev pub digit_text : List ℕ → Bytes
digit_text [] = []
digit_text (d ∷ ds) = (b'0' + d) ∷ digit_text ds

-- What stands behind the numeral.
abbrev pub EndsDigits : Bytes → Type 0
EndsDigits [] = Unit
EndsDigits (x ∷ xs) = is_digit x ≡ false

read_digits_lem :
    (ds : List ℕ) (rest : Bytes) (acc : ℕ)
    → All (λ d. d < 10) ds
    → EndsDigits rest
    → read_digits (digit_text ds ++ rest) acc ≡ acc * 10 ^ length ds + decimal ds
unfolding read_digits
read_digits_lem [] [] acc h e = omega arith
read_digits_lem [] (x ∷ rest) acc h e = rw e (omega arith)
read_digits_lem (d ∷ ds) rest acc h e =
    let digit : is_digit (b'0' + d) ≡ true = ground (arith, h.0) in
    let plain : b'0' + d - b'0' ≡ d = omega arith in
    rw (digit, plain) (read_digits_lem ds rest (acc * 10 + d) h.1 e ∙ rw pow-suc (omega arith))

-- A numeral of at least one digit, with anything but a digit behind it, is read as its number,
-- mod 2^32.
pub atoi_lem :
    (d : ℕ) (ds : List ℕ) (rest : Bytes)
    → All (λ d. d < 10) (d ∷ ds)
    → EndsDigits rest
    → atoi (digit_text (d ∷ ds) ++ rest) ≡ decimal (d ∷ ds) % 2 ^ 32
unfolding atoi find_pos
atoi_lem d ds rest h e =
    let no_space : is_space (b'0' + d) ≡ false = ground (arith, h.0) in
    let no_minus : (b'0' + d == b'-') ≡ false = ground (arith, h.0) in
    let no_plus : (b'0' + d == b'+') ≡ false = ground (arith, h.0) in
    let read : read_digits (digit_text (d ∷ ds) ++ rest) 0 ≡ decimal (d ∷ ds) =
      read_digits_lem (d ∷ ds) rest 0 h e ∙ omega arith in
    rw (no_space, no_minus, no_plus) (ap (λ n. n % 2 ^ 32) read)

pub digit_text-no_nul :
    (ds : List ℕ) → All (λ d. d < 10) ds → All (λ c. (c == 0) ≡ false) (digit_text ds)
digit_text-no_nul [] h = tt
digit_text-no_nul (d ∷ ds) h = (ground arith, digit_text-no_nul ds h.1)

pub EndsDigits-c_string : (rest : Bytes) → EndsDigits rest → EndsDigits (c_string rest)
EndsDigits-c_string [] h = tt
EndsDigits-c_string (x ∷ rest) h = elim (Bool-cases (x == 0)) [
  | inl nul ↦ rw nul tt
  | inr other ↦ rw other h
]
