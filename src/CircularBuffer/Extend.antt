-- ===== src/CircularBuffer/Extend.antt =====
-- `Extend` of `CircularBuffer`, in both of its copies and where it refuses.
use httpoll.Prelude.{
  ℕ, ◌-◌, ◌+◌, ◌^◌, ◌≤◌, ◌<◌, ◌≡◌, refl, sym, ◌∙◌, ◌⊎◌, inl, inr, true, false, arith, Bytes, length,
  slice, memcpy, length-slice, ltb, leb, Bool-cases, ltb→lt, ltb→le, sub_size, some, none, Option,
  length-memcpy, slice-memcpy_zero, slice-memcpy_end, length-eq-zero,
}
use native.Mathlib.Nat.{sub-zero}
use httpoll.CircularBuffer.{CircularBuffer, data_length, extend, extend_into, copy_out, contents}
use httpoll.CircularBuffer.Invariant.{IsValid}
use httpoll.CircularBuffer.Contents.{
  contents_wrapped, contents_straight, length-contents, data_length_straight, data_length_wrapped,
}

data_length-lt-size : {c : CircularBuffer} → IsValid c → data_length c < c.size
unfolding data_length
data_length-lt-size v = ground arith

wrapped_of_some :
    {c : CircularBuffer}
    → IsValid c
    → c.write_pos ≤ c.read_pos
    → 0 < data_length c
    → c.write_pos < c.read_pos
unfolding data_length
wrapped_of_some v h k = ground arith

-- The two copies of a wrapped ring.
copy_out_wrapped :
    {c : CircularBuffer} (new_buffer : Bytes)
    → IsValid c
    → c.size ≤ length new_buffer
    → c.write_pos < c.read_pos
    → let first = slice c.read_pos (sub_size c.size c.read_pos) c.buf in
      let copied =
        memcpy
          (memcpy new_buffer 0 first)
          (sub_size c.size c.read_pos)
          (slice 0 c.write_pos c.buf) in
      (slice 0 (data_length c) copied ≡ contents c) × (length copied ≡ length new_buffer)
copy_out_wrapped {c} new_buffer v h lt =
    let e : sub_size c.size c.read_pos ≡ c.size - c.read_pos = omega arith in
    let first = slice c.read_pos (c.size - c.read_pos) c.buf in
    let second = slice 0 c.write_pos c.buf in
    let n : length first ≡ c.size - c.read_pos = length-slice c.read_pos _ c.buf (omega arith) in
    let m : length second ≡ c.write_pos = length-slice 0 _ c.buf (omega arith) in
    let k : length (memcpy new_buffer 0 first) ≡ length new_buffer =
      length-memcpy new_buffer 0 first (omega arith) in
    let dl : data_length c ≡ c.size - c.read_pos + length second =
      omega (arith, data_length_wrapped v lt) in
    rw e (
      slice-memcpy_end _ (memcpy new_buffer 0 first) (c.size - c.read_pos) second (omega arith) dl
          ∙ rw
              (
                slice-memcpy_zero (c.size - c.read_pos) new_buffer first (sym n),
                contents_wrapped v lt,
              )
              refl,
      length-memcpy (memcpy new_buffer 0 first) (c.size - c.read_pos) second (omega arith) ∙ k,
    )

-- The new storage begins with the old contents, and keeps its size.
copy_out_lem :
    {c : CircularBuffer} (new_buffer : Bytes)
    → IsValid c
    → c.size ≤ length new_buffer
    → (slice 0 (data_length c) (copy_out c new_buffer (data_length c)) ≡ contents c)
      × (length (copy_out c new_buffer (data_length c)) ≡ length new_buffer)
unfolding copy_out
copy_out_lem {c} new_buffer v h = elim (Bool-cases (ltb 0 (data_length c))) [
  | inr z ↦ rw z (
      let e : data_length c ≡ 0 = omega (arith, ltb→le 0 (data_length c) z) in
      rw e (sym (length-eq-zero (contents c) (length-contents v ∙ e)), refl))
  | inl some_data ↦ elim (Bool-cases (ltb c.read_pos c.write_pos)) [
    | inl t ↦
        rw (some_data, t)
          (let le : c.read_pos ≤ c.write_pos = omega (arith, ltb→lt _ _ t) in
            let dl : data_length c ≡ c.write_pos - c.read_pos = data_length_straight v le in
            let held = slice c.read_pos (data_length c) c.buf in
            let n : length held ≡ data_length c = length-slice c.read_pos _ c.buf (omega arith) in
            (
              slice-memcpy_zero (data_length c) new_buffer held (sym n)
                  ∙ rw (contents_straight v le, dl) refl,
              length-memcpy new_buffer 0 held (omega arith),
            ))
    | inr t ↦
        rw (some_data, t)
          (copy_out_wrapped new_buffer v h
            (wrapped_of_some v (ltb→le _ _ t) (ltb→lt _ _ some_data)))
  ]
]

-- On a valid buffer `Extend` to a larger size of at most 2^62, with storage of that size from
-- `malloc`, returns true, keeps the contents, takes the new size and leaves the buffer valid.
pub extend_lem :
    {c : CircularBuffer} (new_size : ℕ) (storage : Bytes)
    → IsValid c
    → c.size < new_size
    → new_size ≤ 2 ^ 62
    → length storage ≡ new_size
    → let (done, c') = extend c new_size (some storage) in
      (done ≡ true) × (contents c' ≡ contents c) × (c'.size ≡ new_size) × IsValid c'
unfolding extend
extend_lem {c} new_size storage v h k n =
    let grows : leb new_size c.size ≡ false = ground arith in
    let copied = copy_out_lem storage v (omega arith) in
    let dl : data_length c < c.size = data_length-lt-size v in
    let v' : IsValid (extend_into c new_size (some storage)).1 = record {
      stored = copied.1 ∙ n;
      small = k;
      read_in = omega arith;
      write_in = omega arith;
    } in
    rw grows (refl, contents_straight v' (omega arith) ∙ (rw sub-zero copied.0), refl, v')

-- `Extend` to no more than the present size, or on a failed `malloc`, changes nothing.
pub extend_refuses :
    (c : CircularBuffer) (new_size : ℕ) (malloc : Option Bytes)
    → (new_size ≤ c.size) ⊎ (malloc ≡ none)
    → extend c new_size malloc ≡ (false, c)
unfolding extend
extend_refuses c new_size none h = ground arith
extend_refuses c new_size (some storage) h = ground arith
