-- ===== src/Connection/Head.antt =====
-- The lines of a request, in the buffer: what the inner loop of `ProcessDataIn` does with them.
use httpoll.Prelude.{
  ℕ, zero, suc, ◌≤◌, ◌<◌, ◌≡◌, refl, ap, ◌∙◌, inl, inr, true, false, Option, none, some, List, [],
  ◌∷◌, ◌++◌, ◌⊎◌, arith, Bytes, length, Bool-cases, Option-cases, append_assoc,
}
use httpoll.HeaderParser.Types.{HttpHeaderParser, ParserState, body, done, first_line, headers}
use httpoll.HeaderParser.{push_line}
use httpoll.Connection.{
  Connection, pop_line, next_piece, drain, small_memory, is_body, is_empty, ProcessRet, state_ret,
  returns_at,
}
use httpoll.Connection.Lines.{pop_line_front}
use httpoll.Connection.Processing.{drain_break, drain_return, drain_next}
use httpoll.Connection.Whole.{IsLine, pop_line-whole}

abbrev pub flat : List Bytes → Bytes
flat [] = []
flat (line ∷ lines) = line ++ flat lines

-- `Head p lines q`: the lines, none of which is longer than SMALL_MEMORY, take the parser from `p` to
-- `q`, and it is after the last of them, not before, that `PushLine` says body or done.
pub data Head (fuel : ℕ) (past : ℕ → ℕ)
    : HttpHeaderParser → List Bytes → HttpHeaderParser → Type 0 where
  last :
      (p q : HttpHeaderParser) (line : Bytes)
      → IsLine line
      → length line ≤ small_memory
      → push_line fuel past p line ≡ some q
      → returns_at q.state ≡ true
      → Head fuel past p (line ∷ []) q
  next :
      (p r q : HttpHeaderParser) (line : Bytes) (lines : List Bytes)
      → IsLine line
      → length line ≤ small_memory
      → push_line fuel past p line ≡ some r
      → returns_at r.state ≡ false
      → Head fuel past r lines q
      → Head fuel past p (line ∷ lines) q

-- The first of the lines, and what is left to push behind it.
pub record First (fuel : ℕ) (past : ℕ → ℕ) (p : HttpHeaderParser) (lines : List Bytes)
    (q : HttpHeaderParser) : Type 0 where
  pub line : Bytes
  pub more : List Bytes
  pub after : HttpHeaderParser
  pub split : lines ≡ line ∷ more
  pub whole : IsLine line
  pub small : length line ≤ small_memory
  pub pushed : push_line fuel past p line ≡ some after
  pub goes :
      ((more ≡ []) × (after ≡ q) × (returns_at after.state ≡ true))
      ⊎ ((returns_at after.state ≡ false) × Head fuel past after more q)

pub Head-First :
    {fuel : ℕ} {past : ℕ → ℕ} {p q : HttpHeaderParser} {lines : List Bytes}
    → Head fuel past p lines q
    → First fuel past p lines q
Head-First (last p q line w s u t) = record {
  line = line;
  more = [];
  after = q;
  split = refl;
  whole = w;
  small = s;
  pushed = u;
  goes = inl (refl, refl, t);
}
Head-First (next p r q line lines w s u t h) = record {
  line = line;
  more = lines;
  after = r;
  split = refl;
  whole = w;
  small = s;
  pushed = u;
  goes = inr (t, h);
}

not_body : (s : ParserState) → returns_at s ≡ false → is_body s ≡ false
not_body first_line h = refl
not_body headers h = refl
not_body body h = cc
not_body done h = cc

next_piece-none :
    (c : Connection)
    → pop_line c.buffer ≡ none
    → is_body c.parser.state ≡ false
    → next_piece c ≡ none
unfolding next_piece
next_piece-none c e n = elim (Bool-cases (is_empty c.buffer)) [
  | inl t ↦ rw (e, next_piece) (rw t refl)
  | inr t ↦ rw (e, next_piece) (rw t (rw n refl))
]

next_piece-line :
    (c : Connection) (line left : Bytes)
    → pop_line c.buffer ≡ some (line, left)
    → next_piece c ≡ some (line, record c { buffer = left })
unfolding next_piece
next_piece-line c line left e = rw (e, next_piece) refl

module _ (fuel : ℕ) (past : ℕ → ℕ) (q : HttpHeaderParser) (tail rest : Bytes) where
  -- The text that the buffer begins is that of some lines, and then the rest; no line is whole.
  pub record Waits (c : Connection) (lines : List Bytes) : Type 0 where
    pub head : Head fuel past c.parser lines q
    pub text : c.buffer ++ tail ≡ flat lines ++ rest
    pub part : pop_line c.buffer ≡ none
    pub plain : is_body c.parser.state ≡ false

  -- The outcomes of the inner loop: the last line has been pushed, or more is awaited.
  abbrev pub Drained : Connection → Option (Option ProcessRet × Connection) → Type 0
  Drained c none = ⊥
  Drained c (some (some r, d)) =
      (r ≡ state_ret q.state) × (d.parser ≡ q) × (d.buffer ++ tail ≡ rest) × (d.socket ≡ c.socket)
  Drained c (some (none, d)) =
      ((lines : List Bytes) × Waits d lines)
      × (length d.buffer ≤ length c.buffer)
      × (d.socket ≡ c.socket)

  -- Outcomes of the rounds after the first.
  later :
      (c d : Connection) (o : Option (Option ProcessRet × Connection))
      → length d.buffer ≤ length c.buffer
      → Drained d o
      → d.socket ≡ c.socket
      → Drained c o
  later c d none less h same = h
  later c d (some (some r, e)) less (a, b, t, s) same = (a, b, t, s ∙ same)
  later c d (some (none, e)) less (w, l, s) same = (w, omega arith, s ∙ same)

  pub drain-Head :
      (rounds : ℕ) (c : Connection) (lines : List Bytes)
      → Head fuel past c.parser lines q
      → c.buffer ++ tail ≡ flat lines ++ rest
      → is_body c.parser.state ≡ false
      → length c.buffer < rounds
      → Drained c (drain rounds fuel past c)
  drain-Head zero c lines h e n less = absurd (omega arith)
  drain-Head (suc rounds) c lines h e n less = elim (Option-cases (pop_line c.buffer)) [
    | inl none_yet ↦
        rw (drain_break rounds fuel past c (next_piece-none c none_yet n))
          ((lines, record { head = h; text = e; part = none_yet; plain = n }), omega arith, refl)
    | inr ((line, left), popped) ↦
        let f = Head-First h in
        let text : c.buffer ++ tail ≡ f.line ++ (flat f.more ++ rest) =
          e ∙ ap (λ l. flat l ++ rest) f.split ∙ append_assoc f.line (flat f.more) rest in
        let (line_is, left_is) =
          pop_line-whole c.buffer tail f.line (flat f.more ++ rest) f.whole text line left popped in
        let d = record c { buffer = left } in
        let took = next_piece-line c line left popped in
        let u : push_line fuel past c.parser line ≡ some f.after =
          ap (push_line fuel past c.parser) line_is ∙ f.pushed in
        let shorter = (pop_line_front c.buffer line left popped).1 in
        elim f.goes [
          | inl (no_more, ends, t) ↦ rw (drain_return rounds fuel past c line d took f.after u t) (
            ap (λ p. state_ret p.state) ends,
            ends,
            left_is ∙ ap (λ l. flat l ++ rest) no_more,
            refl,
          )
          | inr (t, h') ↦
              let d' = record d { parser = f.after } in
              rw (drain_next rounds fuel past c line d took f.after u t) (
                later c d' (drain rounds fuel past d') (omega arith)
                  (drain-Head rounds d' f.more h' left_is (not_body f.after.state t) (omega arith))
                  refl)
        ]
  ]
