-- ===== src/Socket.antt =====
-- The kernel's side of a connected descriptor, as lists of what its calls will give: read(2) takes
-- at most the bytes asked for and leaves the rest, write(2) takes a part or fails.
use httpoll.Prelude.{ℕ, min, List, [], ◌∷◌, ◌++◌, leb, if◌then◌else◌, Bytes, length, take, drop}

-- What stands next in the way of a read. An empty chunk is the end of the stream.
pub data ReadEvent : Type 0 where
  chunk : Bytes → ReadEvent
  again interrupted broken : ReadEvent

pub data WriteEvent : Type 0 where
  takes : ℕ → WriteEvent
  again interrupted broken : WriteEvent

-- `sent` is all that the peer has been given.
pub record Socket : Type 0 where
  pub incoming : List ReadEvent
  pub outcomes : List WriteEvent
  pub sent : Bytes

-- What read(2) returned: data, or `errno`.
pub data ReadResult : Type 0 where
  bytes : Bytes → ReadResult
  eagain eintr error : ReadResult

sys_read_from : ℕ → List ReadEvent → ReadResult × List ReadEvent
sys_read_from n [] = (eagain, [])
sys_read_from n (chunk xs ∷ es) =
    (bytes (take n xs), if leb (length xs) n then es else chunk (drop n xs) ∷ es)
sys_read_from n (ReadEvent.again ∷ es) = (eagain, es)
sys_read_from n (ReadEvent.interrupted ∷ es) = (eintr, es)
sys_read_from n (ReadEvent.broken ∷ es) = (error, es)

unfoldable pub sys_read : Socket → ℕ → ReadResult × Socket
unfolding sys_read_from
sys_read s n = let (r, es) = sys_read_from n s.incoming in (r, record s { incoming = es })

pub data WriteResult : Type 0 where
  wrote : ℕ → WriteResult
  eagain eintr error : WriteResult

-- With no outcome given the call takes everything.
sys_write_to : Socket → Bytes → List WriteEvent → WriteResult × Socket
sys_write_to s xs [] = (wrote (length xs), record s { sent = s.sent ++ xs })
sys_write_to s xs (takes n ∷ es) =
    (wrote (min n (length xs)), record s { sent = s.sent ++ take n xs; outcomes = es })
sys_write_to s xs (WriteEvent.again ∷ es) = (WriteResult.eagain, record s { outcomes = es })
sys_write_to s xs (WriteEvent.interrupted ∷ es) = (WriteResult.eintr, record s { outcomes = es })
sys_write_to s xs (WriteEvent.broken ∷ es) = (WriteResult.error, record s { outcomes = es })

unfoldable pub sys_write : Socket → Bytes → WriteResult × Socket
unfolding sys_write_to
sys_write s xs = sys_write_to s xs s.outcomes
