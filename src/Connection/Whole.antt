-- ===== src/Connection/Whole.antt =====
-- Lines that are whole: what `PopLine` does where more text follows.
use httpoll.Prelude.{
  ℕ, suc, ◌+◌, ◌*◌, ◌≤◌, ◌<◌, ◌≡◌, sym, ap, ap₂, ◌∙◌, inl, inr, none, some, [], ◌∷◌, ◌++◌, arith,
  ◌==◌, Bytes, length, take, drop, Bool-cases, take-append-drop, ltb, ltb→lt, ltb→le,
  take-append_le, drop-append_le, take-append_self,
}
use mathlib.Core.Option
use httpoll.Connection.{crlf_index, pop_line}
use httpoll.Connection.Lines.{from_map, map-some, some_pair, cut, pop_line_index}

crlf_index-left :
    (s t : Bytes) (i : ℕ)
    → crlf_index s ≡ some i
    → (crlf_index (s ++ t) ≡ some i) × (i + 2 ≤ length s)
unfolding crlf_index
crlf_index-left [] t i e = cc
crlf_index-left (x ∷ []) t i e = cc
crlf_index-left (x ∷ y ∷ s) t i e = elim (Bool-cases (x + 256 * y == b'\r' + 256 * b'\n')) [
  | inl h ↦ let at_front : some 0 ≡ some i = (rw h at e) in (rw h at_front, ground arith)
  | inr h ↦
      let (j, found, i_is) = from_map (crlf_index (y ∷ s)) i (rw h at e) in
      let (same, inside) = crlf_index-left (y ∷ s) t j found in
      (rw h (ap (Option.map suc) same ∙ ap some (sym i_is)), omega arith)
]

-- More text behind the buffer stays behind what is left.
pub pop_line-left :
    (s t line left : Bytes)
    → pop_line s ≡ some (line, left)
    → pop_line (s ++ t) ≡ some (line, left ++ t)
pop_line-left s t line left e =
    let (i, found) = map-some (crlf_index s) (cut s) (sym (pop_line_index s) ∙ e) in
    let (same, inside) = crlf_index-left s t i found in
    let popped = sym (ap (Option.map (cut s)) found) ∙ sym (pop_line_index s) ∙ e in
    let (line_is, left_is) = some_pair _ _ line left popped in
    pop_line_index (s ++ t)
    ∙ ap (Option.map (cut (s ++ t))) same
    ∙ ap₂ (λ a b. some (a, b)) (take-append_le (i + 2) s t inside ∙ line_is)
        (drop-append_le (i + 2) s t inside ∙ ap (λ r. r ++ t) left_is)

-- One line, with its CR LF and no other in front of that.
abbrev pub IsLine : Bytes → Type 0
IsLine line = pop_line line ≡ some (line, [])

module _ (buffer tail line more : Bytes) (whole : IsLine line)
    (e : buffer ++ tail ≡ line ++ more) where
  -- What `PopLine` takes off is the line that the text begins with.
  pub pop_line-whole :
      (popped left : Bytes)
      → pop_line buffer ≡ some (popped, left)
      → (popped ≡ line) × (left ++ tail ≡ more)
  pop_line-whole popped left p = some_pair popped (left ++ tail) line more (
      sym (pop_line-left buffer tail popped left p)
      ∙ ap pop_line e
      ∙ pop_line-left line more line [] whole)

  -- Where there is none yet, the buffer is shorter than that line.
  pub pop_line-part : pop_line buffer ≡ none → length buffer < length line
  pop_line-part p = elim (Bool-cases (ltb (length buffer) (length line))) [
    | inl t ↦ ltb→lt _ _ t
    | inr t ↦
        let fits : length line ≤ length buffer = ltb→le _ _ t in
        let front : take (length line) buffer ≡ line =
          sym (take-append_le (length line) buffer tail fits)
          ∙ ap (take (length line)) e
          ∙ take-append_self line more in
        let split : line ++ drop (length line) buffer ≡ buffer =
          ap (λ l. l ++ drop (length line) buffer) (sym front)
          ∙ take-append-drop (length line) buffer in
        cc (
          sym (pop_line-left line (drop (length line) buffer) line [] whole)
          ∙ ap pop_line split
          ∙ p)
  ]
