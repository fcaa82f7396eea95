-- ===== src/Base64/RoundTrip.antt =====
-- What is encoded is decoded again.
use httpoll.Prelude.{
  pos, negsuc, ℕ, zero, suc, ◌+◌, ◌*◌, ◌/◌, ◌%◌, ◌^◌, ◌≤◌, ◌<◌, ◌≡◌, refl, ap, some, [], ◌∷◌, ◌++◌,
  ltb, lt→ltb, le→ltb, if◌then◌else◌, Bytes, arith, All, IsByte, length, drop, length-append,
  length-drop, append_assoc,
}
use native.Mathlib.Nat.{add-zero}
use httpoll.Base64.{groups, padding, encoded, expected_len, base64_encode, b64}
use httpoll.Base64.Sextets.{
  IsText, value-b64, b64-plain, and_sixty_three, second_index, third_index,
}
use httpoll.Base64.Length.{length-encoded}
use httpoll.Base64.Alphabet.{encoded-IsText}
use httpoll.Base64.Decode.{decode, decode_group}

padding-add_four : (rounds j : ℕ) → padding rounds (suc (suc (suc (suc j)))) ≡ padding rounds j
unfolding padding
padding-add_four zero j = refl
padding-add_four (suc rounds) j = ground (arith, padding-add_four rounds (j + 1))

-- The groups that the decoder is given.
decode_group-three :
    (a b c : ℕ) (rest bytes : Bytes)
    → IsByte a
    → IsByte b
    → IsByte c
    → decode_group
        (b64 (a / 4))
        (b64 (a % 4 * 16 + b / 16))
        (b64 (b % 16 * 4 + c / 64))
        (b64 (c % 64))
        rest
        (some bytes)
      ≡ some (a ∷ b ∷ c ∷ bytes)
unfolding decode_group
decode_group-three a b c rest bytes ha hb hc =
    let ea : a / 4 * 4 + (a % 4 * 16 + b / 16) / 16 ≡ a = omega arith in
    let eb : (a % 4 * 16 + b / 16) % 16 * 16 + (b % 16 * 4 + c / 64) / 4 ≡ b = omega arith in
    let ec : (b % 16 * 4 + c / 64) % 4 * 64 + c % 64 ≡ c = omega arith in
    rw
      (
        value-b64 (a / 4) (omega arith),
        value-b64 (a % 4 * 16 + b / 16) (omega arith),
        b64-plain (b % 16 * 4 + c / 64) (omega arith),
        value-b64 (b % 16 * 4 + c / 64) (omega arith),
        b64-plain (c % 64) (omega arith),
        value-b64 (c % 64) (omega arith),
        ea,
        eb,
        ec,
      )
      refl

decode_group-two :
    (a b : ℕ) (more : Bytes)
    → IsByte a
    → IsByte b
    → decode_group (b64 (a / 4)) (b64 (a % 4 * 16 + b / 16)) (b64 (b % 16 * 4)) b'=' [] (some more)
      ≡ some (a ∷ b ∷ [])
unfolding decode_group
decode_group-two a b more ha hb =
    let ea : a / 4 * 4 + (a % 4 * 16 + b / 16) / 16 ≡ a = omega arith in
    let eb : (a % 4 * 16 + b / 16) % 16 * 16 + (b % 16 * 4) / 4 ≡ b = omega arith in
    rw
      (
        value-b64 (a / 4) (omega arith),
        value-b64 (a % 4 * 16 + b / 16) (omega arith),
        b64-plain (b % 16 * 4) (omega arith),
        value-b64 (b % 16 * 4) (omega arith),
        ea,
        eb,
      )
      refl

decode_group-one :
    (a : ℕ) (more : Bytes)
    → IsByte a
    → decode_group (b64 (a / 4)) (b64 (a % 4 * 16)) b'=' b'=' [] (some more) ≡ some (a ∷ [])
unfolding decode_group
decode_group-one a more ha =
    let ea : a / 4 * 4 + (a % 4 * 16) / 16 ≡ a = omega arith in
    rw (value-b64 (a / 4) (omega arith), value-b64 (a % 4 * 16) (omega arith), ea) refl

-- A group in front of what is encoded, with its indices in plain arithmetic.
encoded-three :
    (a b c : ℕ) (rest : Bytes)
    → IsByte a
    → IsByte b
    → IsByte c
    → encoded (a ∷ b ∷ c ∷ rest)
      ≡ b64 (a / 4)
        ∷ b64 (a % 4 * 16 + b / 16)
        ∷ b64 (b % 16 * 4 + c / 64)
        ∷ b64 (c % 64)
        ∷ encoded rest
unfolding encoded groups
encoded-three a b c rest ha hb hc =
    rw
      (
        second_index a (b / 16) ha (omega arith),
        third_index b (c / 64) hb (omega arith),
        and_sixty_three c hc,
        padding-add_four 4 (length (groups rest)),
      )
      refl

-- The decoder of RFC 4648 gives the bytes back.
pub decode-encoded : (src : Bytes) → All IsByte src → decode (encoded src) ≡ some src
unfolding decode
decode-encoded [] h = unfold encoded groups in refl
decode-encoded (a ∷ []) h =
    unfold encoded groups in
    rw (second_index a 0 h.0 (omega arith), add-zero) (decode_group-one a [] h.0)
decode-encoded (a ∷ b ∷ []) h =
    unfold encoded groups in
    rw (second_index a (b / 16) h.0 (omega arith), third_index b 0 h.1.0 (omega arith), add-zero)
      (decode_group-two a b [] h.0 h.1.0)
decode-encoded (a ∷ b ∷ c ∷ rest) h =
    rw (encoded-three a b c rest h.0 h.1.0 h.1.1.0, decode-encoded rest h.1.1.1)
      (decode_group-three a b c (encoded rest) rest h.0 h.1.0 h.1.1.0)

module _ (src dst : Bytes) (dst_len : ℕ) (short_src : length src < 2 ^ 62) where
  abbrev needed : ℕ
  needed = (length src + 2) / 3 * 4 + 1

  expected_len-src : expected_len (length src) ≡ needed
  unfolding expected_len
  expected_len-src = omega arith

  -- Into memory of at least `*dst_len` bytes, which are enough for the text and its terminator,
  -- exactly these are written, inside the memory, and counted: the text is one that the decoder of
  -- RFC 4648 takes back to the bytes, its characters are between + and z, and what lies behind it is untouched.
  pub base64_encode-decode :
      All IsByte src
      → dst_len ≤ length dst
      → needed ≤ dst_len
      → (text : Bytes) × (decode text ≡ some src)
        × All IsText text
        × (length text + 1 ≡ needed)
        × (length (text ++ (0 ∷ drop needed dst)) ≡ length dst)
        × (base64_encode src dst (some dst_len)
            ≡ (negsuc 0, text ++ (0 ∷ drop needed dst), some needed))
  unfolding base64_encode
  base64_encode-decode bytes inside fits =
      let size : length (encoded src) + 1 ≡ needed = omega (arith, length-encoded src) in
      let size' : length (encoded src ++ 0 ∷ []) ≡ needed =
        omega (arith, length-append (encoded src) (0 ∷ []), length-encoded src) in
      let z : 0 + needed ≡ needed = omega arith in
      (
        encoded src,
        decode-encoded src bytes,
        encoded-IsText src bytes,
        size,
        omega (
          arith,
          length-append (encoded src) (0 ∷ drop needed dst),
          length-drop needed dst,
          length-encoded src,
        ),
        rw (expected_len-src, le→ltb dst_len needed fits, size', z)
            (ap (λ t. (negsuc 0, t, some needed))
              (append_assoc (encoded src) (0 ∷ []) (drop needed dst))),
      )

  -- Where `*dst_len` bytes are not enough, nothing is encoded: the result is 0, `*dst_len` says how
  -- many are needed, and the memory, if it has any, begins with a terminator.
  pub base64_encode-short :
      dst_len < needed
      → base64_encode src dst (some dst_len)
        ≡ (pos 0, (if ltb 0 dst_len then 0 ∷ drop 1 dst else dst), some needed)
  unfolding base64_encode
  base64_encode-short less = rw (expected_len-src, lt→ltb dst_len needed less) refl
