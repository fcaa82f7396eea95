-- ===== src/Connection/Stream.antt =====
-- The stream of a connection, and the pieces of it that `ProcessDataIn` pushes.
use httpoll.Prelude.{
  ℕ, zero, suc, ◌≤◌, ◌<◌, ◌≡◌, refl, sym, ap, ◌∙◌, inl, inr, Option, none, some, ◌++◌, arith, Bytes,
  length, length-append, Bool-cases, Option-cases, append_assoc,
}
use mathlib.Core.Path.{subst}
use httpoll.HeaderParser.Types.{HttpHeaderParser}
use httpoll.HeaderParser.{push_line}
use httpoll.Connection.{
  Connection, read, next_piece, drain, small_memory, ProcessRet, state_ret, returns_at,
}
use httpoll.Connection.Reading.{to_come, read_lem, read-parser}
use httpoll.Connection.Processing.{
  Front, next_piece-Front, drain_inv, drain_break, drain_return, drain_next,
}

-- `Pushes p s q left`: pushing the text `s` piece by piece takes the parser from `p` to `q`, and `left`
-- is what of the text is not pushed.
pub data Pushes (fuel : ℕ) (past : ℕ → ℕ)
    : HttpHeaderParser → Bytes → HttpHeaderParser → Bytes → Type 0 where
  nothing : (p : HttpHeaderParser) (s : Bytes) → Pushes fuel past p s p s
  push :
      (p q r : HttpHeaderParser) (piece s rest left : Bytes)
      → s ≡ piece ++ rest
      → push_line fuel past p piece ≡ some q
      → Pushes fuel past q rest r left
      → Pushes fuel past p s r left

-- The text `s` takes the parser to a line on which `PushLine` does not return.
unfoldable pub Stuck : ℕ → (ℕ → ℕ) → HttpHeaderParser → Bytes → Type 0
Stuck fuel past p s =
    (q : HttpHeaderParser) × (line : Bytes) × (rest : Bytes) × Pushes fuel past p s q (line ++ rest)
    × (push_line fuel past q line ≡ none)

module _ {fuel : ℕ} {past : ℕ → ℕ} where
  pub Pushes-trans :
      {p q r : HttpHeaderParser} {s t u : Bytes}
      → Pushes fuel past p s q t
      → Pushes fuel past q t r u
      → Pushes fuel past p s r u
  Pushes-trans (nothing p s) b = b
  Pushes-trans (push p q r piece s rest left e h a) b =
      push p q _ piece s rest _ e h (Pushes-trans a b)

  -- More text behind it stays behind it.
  pub Pushes-append :
      {p q : HttpHeaderParser} {s left : Bytes} (tail : Bytes)
      → Pushes fuel past p s q left
      → Pushes fuel past p (s ++ tail) q (left ++ tail)
  Pushes-append tail (nothing p s) = nothing p (s ++ tail)
  Pushes-append tail (push p q r piece s rest left e h a) =
      push p q r piece (s ++ tail) (rest ++ tail) (left ++ tail)
        (ap (λ t. t ++ tail) e ∙ append_assoc piece rest tail) h (Pushes-append tail a)

  Pushes-one :
      (c d : Connection) (piece : Bytes) (p : HttpHeaderParser)
      → Front c piece d
      → push_line fuel past d.parser piece ≡ some p
      → Pushes fuel past c.parser c.buffer p d.buffer
  Pushes-one c d piece p f u =
      let (split, less, same, socket) = f in
      push c.parser p p piece c.buffer d.buffer d.buffer split
        (subst (λ x. push_line fuel past x piece ≡ some p) same u) (nothing p d.buffer)

pub Stuck-after :
    (fuel : ℕ) (past : ℕ → ℕ) (p q : HttpHeaderParser) (s t : Bytes)
    → Pushes fuel past p s q t
    → Stuck fuel past q t
    → Stuck fuel past p s
unfolding Stuck
Stuck-after fuel past p q s t went (r, line, rest, goes, stuck) =
    (r, line, rest, Pushes-trans went goes, stuck)

pub Stuck-append :
    (fuel : ℕ) (past : ℕ → ℕ) (p : HttpHeaderParser) (s tail : Bytes)
    → Stuck fuel past p s
    → Stuck fuel past p (s ++ tail)
unfolding Stuck
Stuck-append fuel past p s tail (r, line, rest, goes, stuck) = (
  r,
  line,
  rest ++ tail,
  subst (λ t. Pushes fuel past p (s ++ tail) r t) (append_assoc line rest tail)
      (Pushes-append tail goes),
  stuck,
)

pub Pushes-length :
    {fuel : ℕ} {past : ℕ → ℕ} {p q : HttpHeaderParser} {s left : Bytes}
    → Pushes fuel past p s q left
    → length left ≤ length s
Pushes-length (nothing p s) = omega arith
Pushes-length (push p q r piece s rest left e h a) =
    omega (arith, Pushes-length a, ap length e, length-append piece rest)

-- The bytes buffered and to come.
unfoldable pub stream : Connection → Bytes
stream c = c.buffer ++ to_come c.socket.incoming

module _ (fuel : ℕ) (past : ℕ → ℕ) (c0 : Connection) where
  -- What the inner loop has done so far.
  abbrev pub Done : Connection → Type 0
  Done c = Pushes fuel past c0.parser c0.buffer c.parser c.buffer × (c.socket ≡ c0.socket)

  Done-step :
      (c d : Connection) (piece : Bytes) (p : HttpHeaderParser)
      → Done c
      → next_piece c ≡ some (piece, d)
      → push_line fuel past d.parser piece ≡ some p
      → Done (record d { parser = p })
  Done-step c d piece p (h, same) q u =
      let f = next_piece-Front c d piece q in
      let (split, less, parser, socket) = f in
      (Pushes-trans h (Pushes-one c d piece p f u), socket ∙ same)

  -- The outcome of the inner loop.
  abbrev pub Result : Option ProcessRet → Connection → Type 0
  Result none c = Done c
  Result (some r) c = Done c × (r ≡ state_ret c.parser.state)

  pub drain_pieces :
      (rounds : ℕ) (c : Connection) (r : Option ProcessRet)
      → drain rounds fuel past c0 ≡ some (r, c)
      → Result r c
  drain_pieces rounds c r e =
      drain_inv Done Result fuel past Done-step (λ c h. h) (λ c h. (h, refl)) rounds c0 c r
        (nothing c0.parser c0.buffer, refl) e

-- The inner loop ends within a round for each byte of the buffer and one more, or gets stuck.
pub drain-ends :
    (rounds fuel : ℕ) (past : ℕ → ℕ) (c : Connection)
    → length c.buffer < rounds
    → drain rounds fuel past c ≡ none
    → Stuck fuel past c.parser c.buffer
unfolding Stuck
drain-ends zero fuel past c less e = absurd (omega arith)
drain-ends (suc rounds) fuel past c less e = elim (Option-cases (next_piece c)) [
  | inl q ↦ cc (sym (drain_break rounds fuel past c q) ∙ e)
  | inr ((piece, d), q) ↦
      let f = next_piece-Front c d piece q in
      let (split, shorter, parser, socket) = f in
      elim (Option-cases (push_line fuel past d.parser piece)) [
        | inl u ↦ (
          c.parser,
          piece,
          d.buffer,
          subst (λ s. Pushes fuel past c.parser c.buffer c.parser s) split
              (nothing c.parser c.buffer),
          ap (λ x. push_line fuel past x piece) (sym parser) ∙ u,
        )
        | inr (p, u) ↦ elim (Bool-cases (returns_at p.state)) [
          | inl t ↦ cc (sym (drain_return rounds fuel past c piece d q p u t) ∙ e)
          | inr t ↦
              let fewer : length d.buffer < rounds = omega arith in
              let (p', line, rest, goes, stuck) =
                drain-ends rounds fuel past (record d { parser = p }) fewer
                  (sym (drain_next rounds fuel past c piece d q p u t) ∙ e) in
              (p', line, rest, Pushes-trans (Pushes-one c d piece p f u) goes, stuck)
        ]
      ]
]

module _ (fuel : ℕ) (past : ℕ → ℕ) where
  -- A `Read` leaves the stream and the parser as they were.
  pub Pushes-read :
      (c : Connection)
      → length c.buffer ≤ small_memory
      → let d = (read c).1 in Pushes fuel past c.parser (stream c) d.parser (stream d)
  unfolding stream
  Pushes-read c h =
      let d = (read c).1 in
      subst (λ p. Pushes fuel past c.parser (stream c) p (stream d)) (sym (read-parser c))
        (subst (λ s. Pushes fuel past c.parser (stream c) c.parser s) (sym (read_lem c h).0)
          (nothing c.parser (stream c)))

  -- The inner loop, seen from the stream.
  pub Pushes-drain :
      (c d : Connection)
      → Done fuel past c d
      → Pushes fuel past c.parser (stream c) d.parser (stream d)
  unfolding stream
  Pushes-drain c d (h, same) =
      let tail = to_come c.socket.incoming in
      subst (λ s. Pushes fuel past c.parser (stream c) d.parser (d.buffer ++ to_come s.incoming))
        (sym same) (Pushes-append tail h)
