-- ===== src/BroadcastGroup/Pipes.antt =====
-- What `BroadcastGroup` relies on in the kernel: pipe(7), write(2), tee(2) and splice(2), on descriptors
-- that do not block. `run` is what a call does; what it returns is not looked at but for write(2).
use httpoll.Prelude.{
  ℕ, ◌+◌, ◌≤◌, ◌≡◌, ◌≢◌, some, [], ◌∷◌, List, ◌++◌, ◌==◌, if◌then◌else◌, Bytes, length, take, drop,
}
use httpoll.BroadcastGroup.{Call, write_call, tee_call, splice_call, splice_socket_call}

-- `pipe_of` is the pipe of a descriptor, `content` the bytes in a pipe, `received` all that the peer of a
-- socket has been sent. `Takes` are the sockets with room for all that is sent.
pub record Pipes : Type 1 where
  pub World : Type 0
  pub run : Call → World → World
  pub pipe_of : ℕ → ℕ
  pub content : World → ℕ → Bytes
  pub received : World → ℕ → Bytes
  pub capacity : ℕ
  pub Takes : ℕ → Type 0

-- What the manual pages say, for a pipe with room and a source that holds what is asked for: write and
-- splice move the bytes, tee copies them without taking them out, and nothing else is touched.
pub record IsLawful (k : Pipes) : Type 0 where
  pub content-write :
      (s : k.World) (w : ℕ) (xs : Bytes) (p : ℕ)
      → length (k.content s (k.pipe_of w)) + length xs ≤ k.capacity
      → k.content (k.run (write_call w xs) s) p
        ≡ (if p == k.pipe_of w then k.content s p ++ xs else k.content s p)
  pub received-write :
      (s : k.World) (w : ℕ) (xs : Bytes) (c : ℕ)
      → k.received (k.run (write_call w xs) s) c ≡ k.received s c
  pub content-tee :
      (s : k.World) (r w n p : ℕ)
      → k.pipe_of w ≢ k.pipe_of r
      → n ≤ length (k.content s (k.pipe_of r))
      → length (k.content s (k.pipe_of w)) + n ≤ k.capacity
      → k.content (k.run (tee_call r w n) s) p ≡ (
          if p == k.pipe_of w
          then k.content s p ++ take n (k.content s (k.pipe_of r))
          else k.content s p)
  pub received-tee :
      (s : k.World) (r w n c : ℕ) → k.received (k.run (tee_call r w n) s) c ≡ k.received s c
  pub content-splice :
      (s : k.World) (r w n p : ℕ)
      → k.pipe_of w ≢ k.pipe_of r
      → n ≤ length (k.content s (k.pipe_of r))
      → length (k.content s (k.pipe_of w)) + n ≤ k.capacity
      → k.content (k.run (splice_call r w n) s) p ≡ (
          if p == k.pipe_of w
          then k.content s p ++ take n (k.content s (k.pipe_of r))
          else if p == k.pipe_of r
          then drop n (k.content s p)
          else k.content s p)
  pub received-splice :
      (s : k.World) (r w n c : ℕ) → k.received (k.run (splice_call r w n) s) c ≡ k.received s c
  pub content-splice_socket :
      (s : k.World) (r c n p : ℕ)
      → k.Takes c
      → n ≤ length (k.content s (k.pipe_of r))
      → k.content (k.run (splice_socket_call r (some c) n) s) p
        ≡ (if p == k.pipe_of r then drop n (k.content s p) else k.content s p)
  pub received-splice_socket :
      (s : k.World) (r c n d : ℕ)
      → k.Takes c
      → n ≤ length (k.content s (k.pipe_of r))
      → k.received (k.run (splice_socket_call r (some c) n) s) d
        ≡ (if d == c then k.received s d ++ take n (k.content s (k.pipe_of r)) else k.received s d)

-- The calls in order.
unfoldable pub run_all : (k : Pipes) → List Call → k.World → k.World
run_all k [] s = s
run_all k (c ∷ cs) s = run_all k cs (k.run c s)
