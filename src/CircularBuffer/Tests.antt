-- ===== src/CircularBuffer/Tests.antt =====
-- The theorems on `CircularBuffer`, on small rings.
use httpoll.Prelude.{◌≤◌, ◌≡◌, refl, true, some, [], ◌∷◌, ◌++◌, arith, Bytes}
use httpoll.CircularBuffer.{
  CircularBuffer, continuous_write_buffer, data_length, popout, extend, contents,
}
use httpoll.CircularBuffer.Invariant.{IsValid}
use httpoll.CircularBuffer.Extend.{extend_lem}
use httpoll.CircularBuffer.Write.{committed, contents-committed, overrun}

abbrev storage : Bytes
storage = 1 ∷ 2 ∷ 3 ∷ 4 ∷ 5 ∷ 6 ∷ 7 ∷ 8 ∷ []

-- Wrapped round: 7, 8, 1, 2.
abbrev ring : CircularBuffer
ring = record { size = 8; buf = storage; read_pos = 6; write_pos = 2 }

-- Not wrapped: 3, 4, 5.
abbrev straight_ring : CircularBuffer
straight_ring = record { size = 8; buf = storage; read_pos = 2; write_pos = 5 }

ring-IsValid : IsValid ring
ring-IsValid = omega arith

straight_ring-IsValid : IsValid straight_ring
straight_ring-IsValid = omega arith

contents-ring : contents ring ≡ 7 ∷ 8 ∷ 1 ∷ 2 ∷ []
unfolding contents
contents-ring = refl

fits : 2 ≤ (continuous_write_buffer ring).1
unfolding continuous_write_buffer
fits = omega arith

contents-committed_example :
    contents (committed ring (9 ∷ 10 ∷ [])) ≡ contents ring ++ (9 ∷ 10 ∷ [])
contents-committed_example = contents-committed (9 ∷ 10 ∷ []) ring-IsValid fits (omega arith)

whole_region : 3 ≡ (continuous_write_buffer straight_ring).1
unfolding continuous_write_buffer
whole_region = refl

overrun_example :
    let c' = committed straight_ring (9 ∷ 10 ∷ 11 ∷ []) in
    let (n, c'') = popout c' (data_length c') in
    (n ≡ 6) × (c''.read_pos ≡ 0) × (data_length c'' ≡ 8)
overrun_example =
    overrun (9 ∷ 10 ∷ 11 ∷ []) straight_ring-IsValid (omega arith) (omega arith) whole_region

extend_lem_example :
    let (done, c') = extend ring 10 (some (0 ∷ 0 ∷ storage)) in
    (done ≡ true) × (contents c' ≡ contents ring) × (c'.size ≡ 10) × IsValid c'
extend_lem_example = extend_lem 10 (0 ∷ 0 ∷ storage) ring-IsValid (omega arith) (omega arith) refl
