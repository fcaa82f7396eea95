-- ===== src/CircularBuffer/Contents.antt =====
-- The bytes that a `CircularBuffer` holds, oldest first, and `Popout` on them.
use httpoll.Prelude.{
  ◌-◌, ◌+◌, ◌≤◌, ◌<◌, ◌≡◌, refl, inl, inr, arith, ◌++◌, append-nil, length, slice, length-append,
  length-slice, ltb, Bool-cases, lt→ltb, le→ltb, ltb→lt, ltb→le, sub_size,
}
use httpoll.CircularBuffer.{CircularBuffer, data_length, contents}
use httpoll.CircularBuffer.Invariant.{IsValid}

-- The two shapes of the contents, with no wrap-around arithmetic left.
pub contents_wrapped :
    {c : CircularBuffer}
    → IsValid c
    → c.write_pos < c.read_pos
    → contents c ≡ slice c.read_pos (c.size - c.read_pos) c.buf ++ slice 0 c.write_pos c.buf
unfolding contents
contents_wrapped {c} v h =
    let e : sub_size c.size c.read_pos ≡ c.size - c.read_pos = omega arith in
    rw (lt→ltb _ _ h, e) refl

pub contents_straight :
    {c : CircularBuffer}
    → IsValid c
    → c.read_pos ≤ c.write_pos
    → contents c ≡ slice c.read_pos (c.write_pos - c.read_pos) c.buf
unfolding contents
contents_straight {c} v h =
    let e : sub_size c.write_pos c.read_pos ≡ c.write_pos - c.read_pos = omega arith in
    rw (le→ltb _ _ h, e) (append-nil _)

-- `Length` counts the bytes that the views show.
pub length-contents : {c : CircularBuffer} → IsValid c → length (contents c) ≡ data_length c
unfolding data_length
length-contents {c} v = elim (Bool-cases (ltb c.write_pos c.read_pos)) [
  | inl h ↦
      let lt : c.write_pos < c.read_pos = ltb→lt _ _ h in
      rw (contents_wrapped v lt) (
        ground (
          arith,
          length-append (slice c.read_pos (c.size - c.read_pos) c.buf) (slice 0 c.write_pos c.buf),
          length-slice c.read_pos (c.size - c.read_pos) c.buf,
          length-slice 0 c.write_pos c.buf,
        ))
  | inr h ↦
      let le : c.read_pos ≤ c.write_pos = ltb→le _ _ h in
      rw (contents_straight v le)
        (ground (arith, length-slice c.read_pos (c.write_pos - c.read_pos) c.buf))
]

pub data_length_straight :
    {c : CircularBuffer}
    → IsValid c
    → c.read_pos ≤ c.write_pos
    → data_length c ≡ c.write_pos - c.read_pos
unfolding data_length
data_length_straight v h = ground arith

pub data_length_wrapped :
    {c : CircularBuffer}
    → IsValid c
    → c.write_pos < c.read_pos
    → data_length c ≡ c.size - c.read_pos + c.write_pos
unfolding data_length
data_length_wrapped v h = ground arith
