-- ===== src/CircularBuffer.antt =====
-- src/hpl_circular_buffer.h: `CircularBuffer`, a byte ring that keeps one place free.
-- `buf` is the storage that `buffer_` points to, and `[]` where that is null. What `malloc` returns
-- is an argument: the bytes that the new storage happens to hold, or `none`.
mod Tests
pub mod Invariant
pub mod Contents
pub mod Extend
pub mod Write
use httpoll.Prelude.{
  ℕ, ◌-◌, ◌+◌, ◌%◌, Bool, true, false, Option, none, some, List, [], ◌∷◌, ◌++◌, ltb, leb, ◌==◌,
  if◌then◌else◌, Bytes, add_size, sub_size, slice, memcpy,
}

pub record CircularBuffer : Type 0 where
  pub size : ℕ
  pub buf : Bytes
  pub read_pos : ℕ
  pub write_pos : ℕ

-- The constructor, on the storage that `malloc(size)` gave.
pub create : ℕ → Bytes → CircularBuffer
create size storage = record { size = size; buf = storage; read_pos = 0; write_pos = 0 }

-- What a move leaves behind.
abbrev moved_from : CircularBuffer
moved_from = record { size = 0; buf = []; read_pos = 0; write_pos = 0 }

-- `operator=(CircularBuffer &&other)` for two different objects: the new `*this` and `other`.
pub move_assign : CircularBuffer → CircularBuffer → CircularBuffer × CircularBuffer
move_assign c other = (other, moved_from)

pub capacity : CircularBuffer → ℕ
capacity c = sub_size c.size 1

-- The offset into the storage and the number of bytes that may be written there.
pub continuous_write_buffer : CircularBuffer → ℕ × ℕ
continuous_write_buffer c =
    if ltb c.write_pos c.read_pos
    then (c.write_pos, sub_size (sub_size c.read_pos c.write_pos) 1)
    else (c.write_pos, sub_size (sub_size c.size c.write_pos) (if c.read_pos == 0 then 1 else 0))

-- `Length`.
pub data_length : CircularBuffer → ℕ
data_length c =
    if c.write_pos == c.read_pos
    then 0
    else if leb c.read_pos c.write_pos
    then sub_size c.write_pos c.read_pos
    else add_size (sub_size c.size c.read_pos) c.write_pos

pub free_space : CircularBuffer → ℕ
unfolding capacity data_length
free_space c = sub_size (capacity c) (data_length c)

-- The whence argument of `ResetWritePos`; any other number is `whence_other`.
pub data Whence : Type 0 where
  seek_set seek_cur seek_end whence_other : Whence

pub reset_write_pos : CircularBuffer → ℕ → Whence → CircularBuffer
reset_write_pos c offset seek_set = record c { write_pos = offset }
reset_write_pos c offset seek_cur = record c { write_pos = add_size c.write_pos offset }
reset_write_pos c offset seek_end = record c { write_pos = sub_size c.size offset }
reset_write_pos c offset whence_other = c

-- A view is an offset into the storage, `none` for the null pointer, and a length.
abbrev pub ReadView : Type 0
ReadView = Option ℕ × ℕ

pub get_read_views : CircularBuffer → ReadView × ReadView
get_read_views c =
    if ltb c.write_pos c.read_pos
    then ((some c.read_pos, sub_size c.size c.read_pos), (some 0, c.write_pos))
    else ((some c.read_pos, sub_size c.write_pos c.read_pos), (none, 0))

pub popout : CircularBuffer → ℕ → ℕ × CircularBuffer
unfolding data_length
popout c len =
    if ltb (data_length c) len
    then (0, c)
    else (len, record c { read_pos = add_size c.read_pos len % c.size })

-- The two `memcpy` branches of `Extend`, into the new storage.
copy_out : CircularBuffer → Bytes → ℕ → Bytes
copy_out c new_buffer data_len =
    if ltb 0 data_len
    then (if ltb c.read_pos c.write_pos
        then memcpy new_buffer 0 (slice c.read_pos data_len c.buf)
        else memcpy (memcpy new_buffer 0 (slice c.read_pos (sub_size c.size c.read_pos) c.buf))
            (sub_size c.size c.read_pos) (slice 0 c.write_pos c.buf))
    else new_buffer

-- On what `malloc(new_size)` returned.
extend_into : CircularBuffer → ℕ → Option Bytes → Bool × CircularBuffer
unfolding data_length copy_out
extend_into c new_size none = (false, c)
extend_into c new_size (some new_buffer) = (
  true,
  record {
    size = new_size;
    buf = copy_out c new_buffer (data_length c);
    read_pos = 0;
    write_pos = data_length c;
  },
)

pub extend : CircularBuffer → ℕ → Option Bytes → Bool × CircularBuffer
unfolding extend_into
extend c new_size malloc = if leb new_size c.size then (false, c) else extend_into c new_size malloc

-- The client's write through the pointer that `ContinuousWriteBuffer` gave.
pub write_through : CircularBuffer → Bytes → CircularBuffer
write_through c xs = record c { buf = memcpy c.buf c.write_pos xs }

abbrev pub view_bytes : Bytes → ReadView → Bytes
view_bytes buf (none, n) = []
view_bytes buf (some off, n) = slice off n buf

-- The bytes that the two views show, in order.
pub contents : CircularBuffer → Bytes
unfolding get_read_views
contents c =
    let (first, second) = get_read_views c in view_bytes c.buf first ++ view_bytes c.buf second
