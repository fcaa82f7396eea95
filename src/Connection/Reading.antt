-- ===== src/Connection/Reading.antt =====
-- `Read`: the buffer, and the events that it uses up.
use httpoll.Prelude.{
  ℕ, zero, suc, ◌+◌, ◌≤◌, ◌<◌, ◌≡◌, refl, sym, ap, ◌∙◌, inl, inr, false, List, [], ◌∷◌, ◌++◌, arith,
  leb, if◌then◌else◌, Bytes, length, take, drop, length-append, length-take, length-drop,
  Bool-cases, take-append-drop, append_assoc, sub_size, take-all,
}
use mathlib.Core.Path.{subst}
use httpoll.Socket.{ReadResult, ReadEvent, chunk, bytes, sys_read}
use httpoll.Connection.{Connection, ReadRet, closed, more, read, read_result, small_memory}

-- The bytes still to come, in order.
abbrev pub to_come : List ReadEvent → Bytes
to_come [] = []
to_come (chunk xs ∷ es) = xs ++ to_come es
to_come (_ ∷ es) = to_come es

abbrev room : Connection → ℕ
room c = sub_size small_memory (length c.buffer)

-- The connection with other events to come.
abbrev pub with_events : Connection → List ReadEvent → Connection
with_events c es = record c { socket = record c.socket { incoming = es } }

-- Nothing is lost, and the bound is kept.
record Keeps (before after : Connection) : Type 0 where
  stream :
      after.buffer ++ to_come after.socket.incoming
      ≡ before.buffer ++ to_come before.socket.incoming
  bounded : length after.buffer ≤ small_memory

take-drop-events :
    (n : ℕ) (xs : Bytes) (es : List ReadEvent)
    → take n xs ++ to_come (if leb (length xs) n then es else chunk (drop n xs) ∷ es)
      ≡ xs ++ to_come es
take-drop-events n xs es = elim (Bool-cases (leb (length xs) n)) [
  | inl t ↦ let le : length xs ≤ n = ground arith in rw (t, take-all n xs le) refl
  | inr t ↦ rw t (
      sym (append_assoc (take n xs) (drop n xs) (to_come es))
      ∙ ap (λ ys. ys ++ to_come es) (take-append-drop n xs))
]

-- The result of a read of `ys`, where the events left are `fs`.
took-Keeps :
    (c : Connection) (xs ys : Bytes) (es fs : List ReadEvent)
    → length c.buffer + length ys ≤ small_memory
    → ys ++ to_come fs ≡ xs ++ to_come es
    → Keeps (with_events c (chunk xs ∷ es)) (read_result (with_events c fs) (bytes ys)).1
unfolding read_result
took-Keeps c xs [] es fs b e = record { stream = ap (λ s. c.buffer ++ s) e; bounded = omega arith }
took-Keeps c xs (y ∷ ys) es fs b e = record {
  stream = append_assoc c.buffer (y ∷ ys) (to_come fs) ∙ ap (λ s. c.buffer ++ s) e;
  bounded = omega (arith, length-append c.buffer (y ∷ ys));
}

read-Keeps_from :
    (es : List ReadEvent) (c : Connection)
    → length c.buffer ≤ small_memory
    → Keeps (with_events c es) (read (with_events c es)).1
unfolding read sys_read read_result
read-Keeps_from [] c h = record { stream = refl; bounded = h }
read-Keeps_from (chunk xs ∷ es) c h =
    let n = sub_size small_memory (length c.buffer) in
    took-Keeps c xs (take n xs) es _ (omega (arith, length-take n xs)) (take-drop-events n xs es)
read-Keeps_from (ReadEvent.again ∷ es) c h = record { stream = refl; bounded = h }
read-Keeps_from (ReadEvent.interrupted ∷ es) c h = record { stream = refl; bounded = h }
read-Keeps_from (ReadEvent.broken ∷ es) c h = record { stream = refl; bounded = h }

-- From a buffer of at most SMALL_MEMORY bytes `Read` leaves at most that many, whatever the stream
-- holds, and what is buffered with what is still to come stays the same text.
pub read_lem :
    (c : Connection)
    → length c.buffer ≤ small_memory
    → let c' = (read c).1 in
      (c'.buffer ++ to_come c'.socket.incoming ≡ c.buffer ++ to_come c.socket.incoming)
      × (length c'.buffer ≤ small_memory)
read_lem c h = let k = read-Keeps_from c.socket.incoming c h in (k.stream, k.bounded)

full_at :
    (c : Connection) (x : ℕ) (xs : Bytes) (es : List ReadEvent)
    → length c.buffer ≡ small_memory
    → read (with_events c (chunk (x ∷ xs) ∷ es)) ≡ (closed, with_events c (chunk (x ∷ xs) ∷ es))
unfolding read sys_read read_result
full_at c x xs es n =
    let z : sub_size small_memory (length c.buffer) ≡ 0 = omega arith in
    let waits : leb (suc (length xs)) 0 ≡ false = ground arith in rw (z, waits) refl

-- With a full buffer read(2) is asked for no bytes, and its answer is taken for the end of the stream:
-- `Read` says closed and changes nothing, though data is waiting.
pub read-full :
    (c : Connection) (x : ℕ) (xs : Bytes) (es : List ReadEvent)
    → length c.buffer ≡ small_memory
    → c.socket.incoming ≡ chunk (x ∷ xs) ∷ es
    → read c ≡ (closed, c)
read-full c x xs es n e =
    subst (λ d. read d ≡ (closed, d)) (ap (with_events c) (sym e)) (full_at c x xs es n)

-- The reads that the events can answer with data or an interruption: at most this many.
abbrev pub reads_left : List ReadEvent → ℕ
reads_left [] = 0
reads_left (chunk xs ∷ es) = suc (length xs + reads_left es)
reads_left (_ ∷ es) = suc (reads_left es)

reads_left-chunk :
    (n : ℕ) (xs : Bytes) (es : List ReadEvent)
    → 0 < n
    → 0 < length xs
    → reads_left (if leb (length xs) n then es else chunk (drop n xs) ∷ es)
      < reads_left (chunk xs ∷ es)
reads_left-chunk n xs es h k = elim (Bool-cases (leb (length xs) n)) [
  | inl t ↦ rw t (omega arith)
  | inr t ↦ rw t (omega (arith, length-drop n xs))
]

-- What a `Read` of 1 has used up, and that the parser is not touched.
abbrev Goes : Connection → ReadRet × Connection → Type 0
Goes c (more, c') = reads_left c'.socket.incoming < reads_left c.socket.incoming
Goes c _ = Unit

took-Goes :
    (c : Connection) (n : ℕ) (xs : Bytes) (es : List ReadEvent)
    → let fs = if leb (length xs) n then es else chunk (drop n xs) ∷ es in
      Goes (with_events c (chunk xs ∷ es)) (read_result (with_events c fs) (bytes (take n xs)))
unfolding read_result
took-Goes c zero xs es = tt
took-Goes c (suc n) [] es = tt
took-Goes c (suc n) (x ∷ xs) es = reads_left-chunk (suc n) (x ∷ xs) es (omega arith) (omega arith)

read-Goes_from :
    (es : List ReadEvent) (c : Connection) → Goes (with_events c es) (read (with_events c es))
unfolding read sys_read read_result
read-Goes_from [] c = tt
read-Goes_from (chunk xs ∷ es) c = took-Goes c (sub_size small_memory (length c.buffer)) xs es
read-Goes_from (ReadEvent.again ∷ es) c = tt
read-Goes_from (ReadEvent.interrupted ∷ es) c = omega arith
read-Goes_from (ReadEvent.broken ∷ es) c = tt

-- Each `Read` that returns 1 leaves fewer events.
pub read-more :
    (c d : Connection)
    → read c ≡ (more, d)
    → reads_left d.socket.incoming < reads_left c.socket.incoming
read-more c d e = subst (Goes c) e (read-Goes_from c.socket.incoming c)

read_result-parser : (c : Connection) (r : ReadResult) → (read_result c r).1.parser ≡ c.parser
unfolding read_result
read_result-parser c (bytes []) = refl
read_result-parser c (bytes (x ∷ xs)) = refl
read_result-parser c ReadResult.eagain = refl
read_result-parser c ReadResult.eintr = refl
read_result-parser c ReadResult.error = refl

pub read-parser : (c : Connection) → (read c).1.parser ≡ c.parser
unfolding read
read-parser c =
    let (r, s) = sys_read c.socket (sub_size small_memory (length c.buffer)) in
    read_result-parser (record c { socket = s }) r
