-- ===== src/CircularBuffer/Write.antt =====
-- A client's write through `ContinuousWriteBuffer`, committed by `ResetWritePos(n, SEEK_CUR)`.
use httpoll.Prelude.{
  ◌-◌, ◌+◌, ◌%◌, ◌≤◌, ◌<◌, ◌≡◌, refl, ◌∙◌, inl, inr, true, false, arith, ◌++◌, append_assoc, Bytes,
  length, drop, memcpy, ◌==◌, ltb, leb, Bool-cases, ltb→lt, ltb→le, add_size, length-memcpy,
  slice-memcpy, drop-memcpy, slice-memcpy_end, sub_size,
}
use native.Mathlib.Nat.{mod_self}
use httpoll.CircularBuffer.{
  CircularBuffer, continuous_write_buffer, data_length, reset_write_pos, seek_cur, write_through,
  contents, popout,
}
use httpoll.CircularBuffer.Invariant.{IsValid}
use httpoll.CircularBuffer.Contents.{contents_wrapped, contents_straight}

-- The write that the client makes, and its commit.
abbrev pub committed : CircularBuffer → Bytes → CircularBuffer
committed c xs = reset_write_pos (write_through c xs) (length xs) seek_cur

module _ {c : CircularBuffer} (xs : Bytes) (v : IsValid c)
    (fits : length xs ≤ (continuous_write_buffer c).1)
    (short : c.write_pos + length xs < c.size) where
  pub committed-IsValid : IsValid (committed c xs)
  unfolding reset_write_pos write_through
  committed-IsValid = ground (arith, length-memcpy c.buf c.write_pos xs)

  contents-straight : c.read_pos ≤ c.write_pos → contents (committed c xs) ≡ contents c ++ xs
  unfolding reset_write_pos write_through
  contents-straight le =
      let e : add_size c.write_pos (length xs) ≡ c.write_pos + length xs = omega arith in
      let le' : c.read_pos ≤ add_size c.write_pos (length xs) = omega arith in
      contents_straight committed-IsValid le'
      ∙ rw (contents_straight v le, e)
          (slice-memcpy c.read_pos c.buf c.write_pos xs (omega arith) le)

  contents-wrapped :
      c.write_pos < c.read_pos
      → c.write_pos + length xs < c.read_pos
      → contents (committed c xs) ≡ contents c ++ xs
  unfolding reset_write_pos write_through
  contents-wrapped lt lt' =
      let e : add_size c.write_pos (length xs) ≡ c.write_pos + length xs = omega arith in
      let after : add_size c.write_pos (length xs) < c.read_pos = omega arith in
      let back : drop c.read_pos (memcpy c.buf c.write_pos xs) ≡ drop c.read_pos c.buf =
        drop-memcpy c.read_pos c.buf c.write_pos xs (omega arith) (omega arith) in
      contents_wrapped committed-IsValid after
      ∙ rw
          (
            e,
            back,
            slice-memcpy_end _ c.buf c.write_pos xs (omega arith) refl,
            contents_wrapped v lt,
            append_assoc,
          )
          refl

  -- On a valid buffer, a write of at most the region handed out, that ends before the end of the
  -- storage, and its commit append exactly the bytes written to the contents.
  pub contents-committed : contents (committed c xs) ≡ contents c ++ xs
  unfolding continuous_write_buffer
  contents-committed = elim (Bool-cases (ltb c.write_pos c.read_pos)) [
    | inl t ↦
        let lt : c.write_pos < c.read_pos = ltb→lt _ _ t in
        let room : length xs ≤ sub_size (sub_size c.read_pos c.write_pos) 1 = (rw t at fits) in
        contents-wrapped lt (omega arith)
    | inr t ↦ contents-straight (ltb→le _ _ t)
  ]

-- On a valid buffer with 0 < read_pos ≤ write_pos, commit the whole region and pop all that the
-- buffer holds: the pop returns `size - read_pos` bytes, the read position is 0, and the emptied
-- buffer claims to hold `size` bytes.
pub overrun :
    {c : CircularBuffer} (xs : Bytes)
    → IsValid c
    → 0 < c.read_pos
    → c.read_pos ≤ c.write_pos
    → length xs ≡ (continuous_write_buffer c).1
    → let c' = committed c xs in
      let (n, c'') = popout c' (data_length c') in
      (n ≡ c.size - c.read_pos) × (c''.read_pos ≡ 0) × (data_length c'' ≡ c.size)
unfolding continuous_write_buffer data_length reset_write_pos write_through popout
overrun {c} xs v p q e =
    let region : length xs ≡ c.size - c.write_pos = ground arith in
    let full : add_size c.write_pos (length xs) ≡ c.size = omega arith in
    let all : sub_size c.size c.read_pos ≡ c.size - c.read_pos = omega arith in
    let ne : (c.size == c.read_pos) ≡ false = ground arith in
    let le : leb c.read_pos c.size ≡ true = ground arith in
    let turn : add_size c.read_pos (c.size - c.read_pos) % c.size ≡ 0 =
      rw (let whole : add_size c.read_pos (c.size - c.read_pos) ≡ c.size = omega arith in whole)
        (mod_self c.size) in
    let same : ltb (c.size - c.read_pos) (c.size - c.read_pos) ≡ false = ground arith in
    rw (full, ne, le, all, same, turn) (refl, refl, ground arith)
