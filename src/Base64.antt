-- ===== src/Base64.antt =====
-- src/external_helpers.h: `base64_encode`. The bytes of the source are `unsigned char`, converted to
-- `int`; `dst` is the memory at the pointer, and `none` is a null `dst_len`. The bytes are written one
-- behind the other, and may reach behind the end of `dst`: the memory is then longer than it was.
mod Tests
pub mod Sextets
pub mod Length
pub mod Alphabet
pub mod Decode
pub mod RoundTrip
use Prim.Native.Nat.{bit_and, bit_or}
use httpoll.Prelude.{
  ℤ, pos, negsuc, ℕ, zero, suc, ◌+◌, ◌*◌, ◌/◌, ◌%◌, ◌^◌, Option, none, some, [], ◌∷◌, ◌++◌, ltb,
  ◌==◌, if◌then◌else◌, Bytes, codes, add_size, length, get_or, memcpy,
}

-- `b64[index]`.
pub b64 : ℕ → ℕ
b64 index =
    get_or (codes "ABCDEFGHIJKLMNOPQRSTUVWXYZabcdefghijklmnopqrstuvwxyz0123456789+/") index 0

-- The rounds of the `for` loop.
pub groups : Bytes → Bytes
unfolding b64
groups [] = []
groups (a ∷ []) = b64 (a / 2 ^ 2) ∷ b64 (bit_or (bit_and a 3 * 2 ^ 4) (0 / 2 ^ 4)) ∷ []
groups (a ∷ b ∷ []) =
    b64 (a / 2 ^ 2)
    ∷ b64 (bit_or (bit_and a 3 * 2 ^ 4) (b / 2 ^ 4))
    ∷ b64 (bit_or (bit_and b 15 * 2 ^ 2) (0 / 2 ^ 6))
    ∷ []
groups (a ∷ b ∷ c ∷ rest) =
    b64 (a / 2 ^ 2)
    ∷ b64 (bit_or (bit_and a 3 * 2 ^ 4) (b / 2 ^ 4))
    ∷ b64 (bit_or (bit_and b 15 * 2 ^ 2) (c / 2 ^ 6))
    ∷ b64 (bit_and c 63)
    ∷ groups rest

-- `while (j % 4 != 0) dst[j++] = '='`, on rounds; four are enough.
pub padding : ℕ → ℕ → Bytes
padding zero j = []
padding (suc rounds) j = let rest = b'=' ∷ padding rounds (j + 1) in if j % 4 == 0 then [] else rest

-- What is written in front of the terminator.
pub encoded : Bytes → Bytes
unfolding groups padding
encoded src = let out = groups src in out ++ padding 4 (length out)

pub expected_len : ℕ → ℕ
expected_len src_len = add_size (add_size src_len 2 / 3 * 4) 1

-- The result, `dst` and `*dst_len`.
unfoldable pub base64_encode : Bytes → Bytes → Option ℕ → ℤ × Bytes × Option ℕ
unfolding encoded expected_len
base64_encode src dst none = (negsuc 0, memcpy dst 0 (encoded src ++ 0 ∷ []), none)
base64_encode src dst (some dst_len) =
    let out = encoded src ++ 0 ∷ [] in
    let expected = expected_len (length src) in
    if ltb dst_len expected
    then (pos 0, (if ltb 0 dst_len then memcpy dst 0 (0 ∷ []) else dst), some expected)
    else (negsuc 0, memcpy dst 0 out, some (length out))
