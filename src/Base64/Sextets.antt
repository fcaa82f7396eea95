-- ===== src/Base64/Sextets.antt =====
-- The characters of `b64` and the six bits that each of them stands for.
use Prim.Native.Nat.{bit_and, bit_or}
use httpoll.Prelude.{
  ℕ, zero, suc, ◌+◌, ◌*◌, ◌%◌, ◌^◌, ◌<◌, ◌≤◌, leb, ◌≡◌, refl, Bool, true, false, ◌&&◌, Option, none,
  some, not, ◌==◌, arith, IsByte, ==_iff,
}
use httpoll.Base64.{b64}
use httpoll.Base64.Decode.{value}

-- A test of every number below a bound.
holds_up_to : ℕ → (ℕ → Bool) → Bool
holds_up_to zero test = true
holds_up_to (suc n) test = test n && holds_up_to n test

holds_up_to-at :
    (n : ℕ) (test : ℕ → Bool) (i : ℕ) → i < n → holds_up_to n test ≡ true → test i ≡ true
unfolding holds_up_to
holds_up_to-at zero test i below h = absurd (omega arith)
holds_up_to-at (suc n) test i below h = ground (arith, holds_up_to-at n test i)

stands_for : ℕ → Option ℕ → Bool
stands_for i none = false
stands_for i (some v) = v == i

some_of : (i : ℕ) (o : Option ℕ) → stands_for i o ≡ true → o ≡ some i
unfolding stands_for
some_of i none h = cc
some_of i (some v) h = ground arith

value_table : holds_up_to 64 (λ i. stands_for i (value (b64 i))) ≡ true
unfolding holds_up_to stands_for value b64
value_table = refl

pub value-b64 : (i : ℕ) → i < 64 → value (b64 i) ≡ some i
value-b64 i h =
    some_of i (value (b64 i))
      (holds_up_to-at 64 (λ i. stands_for i (value (b64 i))) i h value_table)

plain_table : holds_up_to 64 (λ i. not (b64 i == b'=')) ≡ true
unfolding holds_up_to b64
plain_table = refl

pub b64-plain : (i : ℕ) → i < 64 → (b64 i == b'=') ≡ false
b64-plain i h =
    let e : not (b64 i == b'=') ≡ true =
      holds_up_to-at 64 (λ i. not (b64 i == b'=')) i h plain_table in
    ground arith

-- Between '+' and 'z'.
abbrev pub IsText : ℕ → Type 0
IsText x = (43 ≤ x) × (x ≤ 122)

text_table : holds_up_to 64 (λ i. leb 43 (b64 i) && leb (b64 i) 122) ≡ true
unfolding holds_up_to b64
text_table = refl

pub b64-IsText : (i : ℕ) → i < 64 → IsText (b64 i)
b64-IsText i h =
    let e : (leb 43 (b64 i) && leb (b64 i) 122) ≡ true =
      holds_up_to-at 64 (λ i. leb 43 (b64 i) && leb (b64 i) 122) i h text_table in
    ground arith

and_three_table : holds_up_to 256 (λ a. bit_and a 3 == a % 4) ≡ true
unfolding holds_up_to
and_three_table = refl

and_fifteen_table : holds_up_to 256 (λ a. bit_and a 15 == a % 16) ≡ true
unfolding holds_up_to
and_fifteen_table = refl

and_sixty_three_table : holds_up_to 256 (λ a. bit_and a 63 == a % 64) ≡ true
unfolding holds_up_to
and_sixty_three_table = refl

pub and_sixty_three : (a : ℕ) → IsByte a → bit_and a 63 ≡ a % 64
and_sixty_three a h =
    (==_iff _ _).0 (holds_up_to-at 256 (λ a. bit_and a 63 == a % 64) a h and_sixty_three_table)

-- Two numbers whose bits do not overlap.
four_low_table :
    holds_up_to 4 (λ x. holds_up_to 16 (λ y. bit_or (x * 2 ^ 4) y == x * 16 + y)) ≡ true
unfolding holds_up_to
four_low_table = refl

two_low_table : holds_up_to 16 (λ x. holds_up_to 4 (λ y. bit_or (x * 2 ^ 2) y == x * 4 + y)) ≡ true
unfolding holds_up_to
two_low_table = refl

-- The second and the third index of a group.
pub second_index : (a y : ℕ) → IsByte a → y < 16 → bit_or (bit_and a 3 * 2 ^ 4) y ≡ a % 4 * 16 + y
second_index a y h k =
    let low : bit_and a 3 ≡ a % 4 =
      (==_iff _ _).0 (holds_up_to-at 256 (λ a. bit_and a 3 == a % 4) a h and_three_table) in
    rw low (
      (==_iff _ _).0 (
        holds_up_to-at 16 (λ y. bit_or (a % 4 * 2 ^ 4) y == a % 4 * 16 + y) y k
          (holds_up_to-at 4 (λ x. holds_up_to 16 (λ y. bit_or (x * 2 ^ 4) y == x * 16 + y)) (a % 4)
            (omega arith) four_low_table)))

pub third_index : (b y : ℕ) → IsByte b → y < 4 → bit_or (bit_and b 15 * 2 ^ 2) y ≡ b % 16 * 4 + y
third_index b y h k =
    let low : bit_and b 15 ≡ b % 16 =
      (==_iff _ _).0 (holds_up_to-at 256 (λ a. bit_and a 15 == a % 16) b h and_fifteen_table) in
    rw low (
      (==_iff _ _).0 (
        holds_up_to-at 4 (λ y. bit_or (b % 16 * 2 ^ 2) y == b % 16 * 4 + y) y k
          (holds_up_to-at 16 (λ x. holds_up_to 4 (λ y. bit_or (x * 2 ^ 2) y == x * 4 + y)) (b % 16)
            (omega arith) two_low_table)))
