-- ===== src/Response/Decimal.antt =====
-- Numbers in decimal, as fmt prints them, for the tests.
use httpoll.Prelude.{
  ℕ, zero, suc, ◌+◌, ◌-◌, ◌*◌, ◌/◌, ◌%◌, ◌<◌, ◌≤◌, ◌≡◌, ◌∙◌, refl, [], ◌∷◌, ◌++◌, Bytes, ltb,
  if◌then◌else◌, All-append, Bool-cases, inl, inr, arith,
}
use httpoll.Response.Reader.{numeral}
use httpoll.Response.Fields.{IsNumeral}

-- The digits of a number; `rounds` bounds how many.
pub digits : ℕ → ℕ → Bytes
digits zero n = []
digits (suc rounds) n =
    let rest = digits rounds (n / 10) in
    if ltb n 10 then (48 + n) ∷ [] else rest ++ (48 + n % 10) ∷ []

abbrev pub decimal : ℕ → Bytes
decimal n = digits (suc n) n

numeral-append : (acc x : ℕ) (s : Bytes) → numeral acc (s ++ x ∷ []) ≡ numeral acc s * 10 + (x - 48)
unfolding numeral
numeral-append acc x [] = refl
numeral-append acc x (y ∷ s) = numeral-append (acc * 10 + (y - 48)) x s

digits-IsNumeral : (rounds n : ℕ) → n < rounds → IsNumeral (digits rounds n) n
unfolding digits numeral
digits-IsNumeral zero n h = absurd (omega arith)
digits-IsNumeral (suc rounds) n h = elim (Bool-cases (ltb n 10)) [
  | inl t ↦ let small : n < 10 = ground arith in rw t ((omega arith, tt), omega arith)
  | inr t ↦
      let (all, value) = digits-IsNumeral rounds (n / 10) (ground arith) in
      rw t (
        All-append (λ x. (48 ≤ x) × (x ≤ 57)) (digits rounds (n / 10)) ((48 + n % 10) ∷ []) all
            (omega arith, tt),
        numeral-append 0 (48 + n % 10) (digits rounds (n / 10)) ∙ omega (arith, value),
      )
]

pub decimal-IsNumeral : (n : ℕ) → IsNumeral (decimal n) n
decimal-IsNumeral n = digits-IsNumeral (suc n) n (omega arith)
