-- ===== src/CircularBuffer/Invariant.antt =====
-- The representation invariant of `CircularBuffer`, and bounds under it.
use httpoll.Prelude.{ℕ, ◌+◌, ◌^◌, ◌≤◌, ◌<◌, ◌≡◌, arith, Bytes, length}
use httpoll.CircularBuffer.{
  CircularBuffer, create, capacity, continuous_write_buffer, data_length, free_space, popout,
}

-- Both positions lie inside the storage, whose size leaves room for `size_t` sums.
pub record IsValid (c : CircularBuffer) : Type 0 where
  pub stored : length c.buf ≡ c.size
  pub small : c.size ≤ 2 ^ 62
  pub read_in : c.read_pos < c.size
  pub write_in : c.write_pos < c.size

pub create-IsValid :
    (size : ℕ) (storage : Bytes)
    → length storage ≡ size
    → 0 < size
    → size ≤ 2 ^ 62
    → IsValid (create size storage)
unfolding create
create-IsValid size storage e p q = omega arith

-- `Length` and `FreeSpace` never wrap round, and share out the capacity.
pub data_length-add-free_space :
    {c : CircularBuffer}
    → IsValid c
    → (data_length c + free_space c ≡ capacity c) × (capacity c + 1 ≡ c.size)
unfolding free_space capacity data_length
data_length-add-free_space v = ground arith

-- The region handed out for writing lies inside the storage and is free.
pub continuous_write_buffer_bounds :
    {c : CircularBuffer}
    → IsValid c
    → let (off, n) = continuous_write_buffer c in (off + n ≤ length c.buf) × (n ≤ free_space c)
unfolding continuous_write_buffer free_space capacity data_length
continuous_write_buffer_bounds v = ground arith

pub popout-IsValid : {c : CircularBuffer} (len : ℕ) → IsValid c → IsValid (popout c len).1
unfolding popout
popout-IsValid {c} len v = ground arith
