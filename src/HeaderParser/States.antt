-- ===== src/HeaderParser/States.antt =====
-- The state machine of `PushLine`, and the count of the body.
use httpoll.Prelude.{
  ℕ, ◌+◌, ◌^◌, ◌≤◌, ◌<◌, ◌≡◌, ◌≢◌, ◌↔◌, refl, sym, ap, ◌∙◌, inl, inr, true, false, Option, none,
  some, List, [], ◌∷◌, arith, leb, if◌then◌else◌, Bytes, codes, length, Bool-cases, add_unsigned,
}
use httpoll.Scan.{next_char}
use mathlib.Core.Path.{subst}
use httpoll.HeaderParser.Types.{
  ParserState, first_line, headers, body, done, HttpHeaderParser, equal,
}
use httpoll.HeaderParser.{
  push_line, push_in, push_body, header_field, other_field, after_headers, is_complete, not_blank,
}

-- The moves that the state can make; `length` is `content_length_`.
pub data Moves (length : Option ℕ) : ParserState → ParserState → Type 0 where
  request : Moves length first_line headers
  field : Moves length headers headers
  no_body : length ≡ none → Moves length headers done
  has_body : length ≢ none → Moves length headers body
  more : Moves length body body
  complete : length ≢ none → Moves length body done
  rest : Moves length done done

header_field-state :
    (fuel : ℕ) (p q : HttpHeaderParser) (line : Bytes) (iter : ℕ)
    → header_field fuel p line iter ≡ some q
    → q.state ≡ p.state
unfolding header_field other_field
header_field-state fuel p q line iter h = ground arith

-- A move to a state that is known.
moved : (l : Option ℕ) {s t u : ParserState} → u ≡ t → Moves l s t → Moves l s u
moved l {s} e m = subst (Moves l s) (sym e) m

-- The blank line.
blank_line : (l : Option ℕ) → Moves l headers (after_headers l)
blank_line none = no_body refl
blank_line (some n) = has_body (λ e. cc)

body_line : (l : Option ℕ) (n : ℕ) → Moves l body (if is_complete l n then done else body)
body_line none n = more
body_line (some l) n = elim (Bool-cases (leb l n)) [
  | inl t ↦ rw t (complete (λ e. cc))
  | inr t ↦ rw t more
]

push_in-Moves :
    (s : ParserState) (fuel : ℕ) (past : ℕ → ℕ) (p q : HttpHeaderParser) (line : Bytes)
    → p.state ≡ s
    → push_in s fuel past p line ≡ some q
    → Moves p.content_length s q.state
unfolding push_in
push_in-Moves first_line fuel past p q line e h = moved p.content_length (ground arith) request
push_in-Moves headers fuel past p q line e h = elim (Bool-cases (equal line (codes "\r\n"))) [
  | inl t ↦
      let q_state : q.state ≡ after_headers p.content_length = ground arith in
      moved p.content_length q_state (blank_line p.content_length)
  | inr t ↦
      let read : header_field fuel p line (next_char line 0 not_blank) ≡ some q = (rw t at h) in
      moved p.content_length (header_field-state fuel p q line _ read ∙ e) field
]
push_in-Moves body fuel past p q line e h =
    let n = add_unsigned p.body_length (length line) in
    let q_state : q.state ≡ (if is_complete p.content_length n then done else body) =
      ground arith in
    moved p.content_length q_state (body_line p.content_length n)
push_in-Moves done fuel past p q line e h =
    let q_state : q.state ≡ done = ground arith in moved p.content_length q_state rest

-- Every pushed line that is read to its end makes one of these moves, by the content length that
-- was known before it: the state never goes back, a body begins and ends only under a known length,
-- and the state `Done` is final.
pub push_line-Moves :
    (fuel : ℕ) (past : ℕ → ℕ) (p q : HttpHeaderParser) (line : Bytes)
    → push_line fuel past p line ≡ some q
    → Moves p.content_length p.state q.state
unfolding push_line
push_line-Moves fuel past p q line h = push_in-Moves p.state fuel past p q line refl h

-- The lines pushed one after another, up to a loop that does not end.
pub push_lines : ℕ → (ℕ → ℕ) → HttpHeaderParser → List Bytes → Option HttpHeaderParser
push_lines fuel past p [] = some p
push_lines fuel past p (l ∷ ls) = elim (push_line fuel past p l) [
  | none ↦ none
  | some q ↦ push_lines fuel past q ls
]

abbrev pub total : List Bytes → ℕ
total [] = 0
total (l ∷ ls) = length l + total ls

-- A finished parser takes no more notice of what is pushed.
pub push_line-done :
    (fuel : ℕ) (past : ℕ → ℕ) (p : HttpHeaderParser) (line : Bytes)
    → p.state ≡ done
    → push_line fuel past p line ≡ some p
unfolding push_line
push_line-done fuel past p line e = ap (λ s. push_in s fuel past p line) e ∙ unfold push_in in refl

push_lines-done :
    (fuel : ℕ) (past : ℕ → ℕ) (p : HttpHeaderParser) (ls : List Bytes)
    → p.state ≡ done
    → push_lines fuel past p ls ≡ some p
unfolding push_lines
push_lines-done fuel past p [] e = refl
push_lines-done fuel past p (l ∷ ls) e =
    rw (push_line-done fuel past p l e, push_lines) (push_lines-done fuel past p ls e)

body-ne-done : body ≢ done
body-ne-done e = cc

ltb-of-leb : {a b : ℕ} → leb a b ≡ false → b < a
ltb-of-leb h = ground arith

-- The parser with the bytes of a piece counted.
abbrev counted : HttpHeaderParser → Bytes → ParserState → HttpHeaderParser
counted p x s = record p { body_length = p.body_length + length x; state = s }

push_line-body :
    (fuel : ℕ) (past : ℕ → ℕ) (p : HttpHeaderParser) (x : Bytes) (l : ℕ)
    → p.state ≡ body
    → p.content_length ≡ some l
    → p.body_length + length x < 2 ^ 32
    → push_line fuel past p x
      ≡ some (counted p x (if leb l (p.body_length + length x) then done else body))
unfolding push_line
push_line-body fuel past p x l s c w =
    let n : add_unsigned p.body_length (length x) ≡ p.body_length + length x = omega arith in
    ap (λ t. push_in t fuel past p x) s
    ∙ unfold push_in in
      rw n refl
      ∙ ap
          (λ cl.
            some (counted p x (if is_complete cl (p.body_length + length x) then done else body)))
          c

-- In the state `Body`, with fewer bytes read than the known length and no overflow of the 32-bit
-- count, any pieces of the body lead to `Done` exactly when they bring the count up to the length.
pub push_lines-body :
    (fuel : ℕ) (past : ℕ → ℕ) (ls : List Bytes) (p : HttpHeaderParser) (l : ℕ)
    → p.state ≡ body
    → p.content_length ≡ some l
    → p.body_length < l
    → p.body_length + total ls < 2 ^ 32
    → (q : HttpHeaderParser) × (push_lines fuel past p ls ≡ some q)
      × ((q.state ≡ done) ↔ (l ≤ p.body_length + total ls))
unfolding push_lines
push_lines-body fuel past [] p l s c h w =
    (p, refl, ((λ e. absurd (body-ne-done (sym s ∙ e))), λ k. absurd (omega arith)))
push_lines-body fuel past (x ∷ xs) p l s c h w =
    elim (Bool-cases (leb l (p.body_length + length x))) [
      | inl t ↦
          let q = counted p x (if true then done else body) in
          (
            q,
            rw (push_line-body fuel past p x l s c (omega arith), t, push_lines)
                (push_lines-done fuel past q xs refl),
            ((λ e. ground arith), λ k. refl),
          )
      | inr t ↦
          let q = counted p x body in
          let (r, run, iff) =
            push_lines-body fuel past xs q l refl c (ltb-of-leb t) (omega arith) in
          (
            r,
            rw (push_line-body fuel past p x l s c (omega arith), t, push_lines) run,
            ((λ e. omega (arith, iff.0 e)), λ k. iff.1 (omega arith)),
          )
    ]

-- The parser when `n` bytes more of the body have arrived.
abbrev pub body_after : HttpHeaderParser → ℕ → HttpHeaderParser
body_after p n =
    let total = add_unsigned p.body_length n in
    record p {
      body_length = total;
      state = if is_complete p.content_length total then done else body;
    }

pub push_line-in_body :
    (fuel : ℕ) (past : ℕ → ℕ) (p : HttpHeaderParser) (piece : Bytes)
    → p.state ≡ body
    → push_line fuel past p piece ≡ some (body_after p (length piece))
unfolding push_line push_in push_body
push_line-in_body fuel past p piece e = ap (λ s. push_in s fuel past p piece) e

-- The blank line, where no length was given.
pub push_line-blank :
    (fuel : ℕ) (past : ℕ → ℕ) (p : HttpHeaderParser)
    → p.state ≡ headers
    → p.content_length ≡ none
    → push_line fuel past p (codes "\r\n") ≡ some (record p { state = done })
unfolding push_line push_in equal
push_line-blank fuel past p s l =
    ap (λ t. push_in t fuel past p (codes "\r\n")) s
    ∙ ap (λ n. some (record p { state = after_headers n })) l
