-- ===== src/Base64/Length.antt =====
-- How many bytes `base64_encode` writes.
use httpoll.Prelude.{
  ℕ, zero, suc, ◌+◌, ◌-◌, ◌*◌, ◌/◌, ◌%◌, ◌≤◌, ◌≡◌, [], ◌∷◌, Bytes, arith, length, length-append,
}
use httpoll.Base64.{groups, padding, encoded}

pub length-groups : (src : Bytes) → length (groups src) ≡ (length src * 4 + 2) / 3
unfolding groups
length-groups [] = omega arith
length-groups (a ∷ []) = omega arith
length-groups (a ∷ b ∷ []) = omega arith
length-groups (a ∷ b ∷ c ∷ rest) = omega (arith, length-groups rest)

-- The padding goes up to the next multiple of four, if the rounds are enough.
length-padding :
    (rounds j : ℕ) → (4 - j % 4) % 4 ≤ rounds → length (padding rounds j) ≡ (4 - j % 4) % 4
unfolding padding
length-padding zero j h = omega arith
length-padding (suc rounds) j h = ground (arith, length-padding rounds (j + 1))

pub length-encoded : (src : Bytes) → length (encoded src) ≡ (length src + 2) / 3 * 4
unfolding encoded
length-encoded src = omega (
  arith,
  length-append (groups src) (padding 4 (length (groups src))),
  length-padding 4 (length (groups src)),
  length-groups src,
)
