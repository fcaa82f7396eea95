-- ===== src/Connection/Request.antt =====
-- `ProcessDataIn` on a stream that holds the lines of a request, in whatever segments they arrive.
mod Tests
pub mod OneSegment
pub mod Printed
pub mod Upload
pub mod Posted
pub mod Samples
use httpoll.Prelude.{
  ℕ, zero, suc, ◌+◌, ◌-◌, ◌≤◌, ◌<◌, ◌≡◌, ◌≢◌, refl, sym, ap, ◌∙◌, inl, inr, false, Option, none,
  some, List, [], ◌∷◌, ◌++◌, leb, if◌then◌else◌, arith, Bytes, length, drop, length-append,
  length-drop, Bool-cases, Option-cases, append_assoc, sub_size,
}
use mathlib.Core.Path.{subst}
use httpoll.Socket.{ReadEvent, chunk, bytes, sys_read}
use httpoll.HeaderParser.Types.{HttpHeaderParser}
use httpoll.Connection.{
  Connection, pop_line, ReadRet, closed, drained, more, read, read_result, small_memory, is_body,
  drain, ProcessRet, state_ret, process_data_in,
}
use httpoll.Connection.Reading.{to_come, with_events, read_lem, read-parser, reads_left, read-more}
use httpoll.Connection.Stream.{stream}
use httpoll.Connection.Outcome.{round_returns, round_again, with_ret}
use httpoll.Connection.Whole.{pop_line-part}
use httpoll.Connection.Head.{Head, Head-First, flat, drain-Head, Drained, Waits}

-- The events bring data, or interrupt.
abbrev pub IsData : List ReadEvent → Type 0
IsData [] = Unit
IsData (chunk xs ∷ es) = (0 < length xs) × IsData es
IsData (ReadEvent.interrupted ∷ es) = IsData es
IsData (_ ∷ es) = ⊥

-- What a `Read` with room says, and leaves to come.
abbrev GoesOn : ReadRet × Connection → Type 0
GoesOn (r, d) = (r ≡ more) × IsData d.socket.incoming

took-GoesOn :
    (c : Connection) (n x : ℕ) (xs : Bytes) (es : List ReadEvent)
    → IsData es
    → let fs = if leb (suc (length xs)) (suc n) then es else chunk (drop (suc n) (x ∷ xs)) ∷ es in
      IsData fs
took-GoesOn c n x xs es d = elim (Bool-cases (leb (suc (length xs)) (suc n))) [
  | inl t ↦ rw t d
  | inr t ↦ rw t (ground (arith, length-drop n xs), d)
]

read-GoesOn_from :
    (es : List ReadEvent) (c : Connection)
    → IsData es
    → es ≢ []
    → length c.buffer < small_memory
    → GoesOn (read (with_events c es))
unfolding read sys_read read_result
read-GoesOn_from [] c d ne h = absurd (ne refl)
read-GoesOn_from (chunk [] ∷ es) c d ne h = absurd (omega arith)
read-GoesOn_from (chunk (x ∷ xs) ∷ es) c d ne h =
    let n = sub_size small_memory (length c.buffer) in
    let e : n ≡ suc (n - 1) = omega arith in rw e (refl, took-GoesOn c (n - 1) x xs es d.1)
read-GoesOn_from (ReadEvent.again ∷ es) c d ne h = absurd d
read-GoesOn_from (ReadEvent.interrupted ∷ es) c d ne h = (refl, d)
read-GoesOn_from (ReadEvent.broken ∷ es) c d ne h = absurd d

read-GoesOn :
    (c : Connection)
    → IsData c.socket.incoming
    → c.socket.incoming ≢ []
    → length c.buffer < small_memory
    → ((read c).0 ≡ more) × IsData (read c).1.socket.incoming
read-GoesOn c d ne h = read-GoesOn_from c.socket.incoming c d ne h

-- What is asked of the result.
abbrev Parsed : HttpHeaderParser → Bytes → Option (ProcessRet × Connection) → Type 0
Parsed q rest none = ⊥
Parsed q rest (some (r, d)) = (r ≡ state_ret q.state) × (d.parser ≡ q) × (stream d ≡ rest)

module _ (fuel : ℕ) (past : ℕ → ℕ) (q : HttpHeaderParser) (rest : Bytes) where
  -- The outer loop, while no line is whole in the buffer.
  parses :
      (rounds : ℕ) (c : Connection) (lines : List Bytes)
      → Waits fuel past q (to_come c.socket.incoming) rest c lines
      → IsData c.socket.incoming
      → length c.buffer ≤ small_memory
      → small_memory + reads_left c.socket.incoming < rounds
      → Parsed q rest (process_data_in rounds fuel past c)
  parses zero c lines w d small less = absurd (omega arith)
  parses (suc rounds) c lines w d small less =
      let f = Head-First w.head in
      let text : c.buffer ++ to_come c.socket.incoming ≡ f.line ++ (flat f.more ++ rest) =
        w.text ∙ ap (λ l. flat l ++ rest) f.split ∙ append_assoc f.line (flat f.more) rest in
      let short : length c.buffer < length f.line =
        pop_line-part c.buffer (to_come c.socket.incoming) f.line (flat f.more ++ rest) f.whole text
          w.part in
      let waiting : c.socket.incoming ≢ [] = λ none_left. absurd (
        omega (
          arith,
          ap length text,
          ap (λ es. length (c.buffer ++ to_come es)) none_left,
          length-append c.buffer [],
          length-append f.line (flat f.more ++ rest),
        )) in
      let (goes, d') = read-GoesOn c d waiting (omega (arith, f.small)) in
      let c' = (read c).1 in
      let (kept, small') = read_lem c small in
      let parser : c'.parser ≡ c.parser = read-parser c in
      let head = subst (λ p. Head fuel past p lines q) (sym parser) w.head in
      let plain : is_body c'.parser.state ≡ false = ap (λ p. is_body p.state) parser ∙ w.plain in
      let used = read-more c c' (with_ret (read c) more goes) in
      let o =
        drain-Head fuel past q (to_come c'.socket.incoming) rest (suc rounds) c' lines head
          (kept ∙ w.text) plain (omega arith) in
      elim (Option-cases (drain (suc rounds) fuel past c')) [
        | inl k ↦ absurd (subst (Drained fuel past q (to_come c'.socket.incoming) rest c') k o)
        | inr ((some r, e), k) ↦
            let (ret, ends, left, same) =
              subst (Drained fuel past q (to_come c'.socket.incoming) rest c') k o in
            rw (round_returns rounds fuel past c goes r e k)
              (ret, ends, (unfold stream in ap (λ s. e.buffer ++ to_come s.incoming) same ∙ left))
        | inr ((none, e), k) ↦
            let ((lines', w'), shorter, same) =
              subst (Drained fuel past q (to_come c'.socket.incoming) rest c') k o in
            let waits =
              subst (λ s. Waits fuel past q (to_come s.incoming) rest e lines') (sym same) w' in
            let comes = subst (λ s. IsData s.incoming) (sym same) d' in
            let fewer =
              subst (λ s. reads_left s.incoming < reads_left c.socket.incoming) (sym same) used in
            rw (round_again rounds fuel past c goes e k)
              (parses rounds e lines' waits comes (omega arith) (omega arith))
      ]

  -- A request head is parsed in whatever segments it arrives: where the stream holds lines that take the
  -- parser to a body or to the end of the request, none of them longer than SMALL_MEMORY and the first
  -- not whole in the buffer yet, and the events to come bring data or interrupt, `ProcessDataIn` pushes
  -- exactly these lines, says what the parser's state is, and leaves the rest of the stream; with
  -- SMALL_MEMORY rounds, one for each byte and event to come, and one more.
  pub process_data_in-lines :
      (rounds : ℕ) (c : Connection) (lines : List Bytes)
      → Head fuel past c.parser lines q
      → stream c ≡ flat lines ++ rest
      → pop_line c.buffer ≡ none
      → is_body c.parser.state ≡ false
      → IsData c.socket.incoming
      → length c.buffer ≤ small_memory
      → small_memory + reads_left c.socket.incoming < rounds
      → (d : Connection) × (process_data_in rounds fuel past c ≡ some (state_ret q.state, d))
        × (d.parser ≡ q)
        × (stream d ≡ rest)
  unfolding stream
  process_data_in-lines rounds c lines h e part plain comes small less =
      let o =
        parses rounds c lines (record { head = h; text = e; part = part; plain = plain }) comes
          small less in
      elim (Option-cases (process_data_in rounds fuel past c)) [
        | inl k ↦ absurd (subst (Parsed q rest) k o)
        | inr ((r, d), k) ↦
            let (ret, ends, left) = subst (Parsed q rest) k o in
            (d, k ∙ ap (λ x. some (x, d)) ret, ends, left)
      ]
