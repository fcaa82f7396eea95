-- ===== src/Base64/Alphabet.antt =====
-- The characters that `base64_encode` writes.
use httpoll.Prelude.{
  ℕ, zero, suc, ◌+◌, ◌*◌, ◌/◌, ◌%◌, inl, inr, [], ◌∷◌, arith, ◌==◌, Bytes, All, All-append, IsByte,
  Bool-cases, length,
}
use httpoll.Base64.{groups, padding, encoded}
use httpoll.Base64.Sextets.{IsText, b64-IsText, second_index, third_index, and_sixty_three}

groups-IsText : (src : Bytes) → All IsByte src → All IsText (groups src)
unfolding groups
groups-IsText [] h = tt
groups-IsText (a ∷ []) (x, h) =
    rw (second_index a 0 x (omega arith))
      (b64-IsText (a / 4) (omega arith), (b64-IsText (a % 4 * 16 + 0) (omega arith), tt))
groups-IsText (a ∷ b ∷ []) (x, (y, h)) =
    rw (second_index a (b / 16) x (omega arith), third_index b 0 y (omega arith))
      (
        b64-IsText (a / 4) (omega arith),
        (
          b64-IsText (a % 4 * 16 + b / 16) (omega arith),
          (b64-IsText (b % 16 * 4 + 0) (omega arith), tt),
        ),
      )
groups-IsText (a ∷ b ∷ c ∷ rest) (x, (y, (z, h))) =
    rw
      (
        second_index a (b / 16) x (omega arith),
        third_index b (c / 64) y (omega arith),
        and_sixty_three c z,
      )
      (
        b64-IsText (a / 4) (omega arith),
        (
          b64-IsText (a % 4 * 16 + b / 16) (omega arith),
          (
            b64-IsText (b % 16 * 4 + c / 64) (omega arith),
            (b64-IsText (c % 64) (omega arith), groups-IsText rest h),
          ),
        ),
      )

padding-IsText : (rounds j : ℕ) → All IsText (padding rounds j)
unfolding padding
padding-IsText zero j = tt
padding-IsText (suc rounds) j = elim (Bool-cases (j % 4 == 0)) [
  | inl t ↦ rw t tt
  | inr t ↦ rw t (omega arith, padding-IsText rounds (j + 1))
]

pub encoded-IsText : (src : Bytes) → All IsByte src → All IsText (encoded src)
unfolding encoded
encoded-IsText src h =
    All-append IsText (groups src) (padding 4 (length (groups src))) (groups-IsText src h)
      (padding-IsText 4 (length (groups src)))
