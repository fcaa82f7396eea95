-- ===== src/Connection/Processing.antt =====
-- The inner loop of `ProcessDataIn`: the outcomes of a round, and its rule.
use httpoll.Prelude.{
  ℕ, zero, suc, ◌<◌, ◌≡◌, refl, sym, ◌∙◌, inl, inr, true, false, Option, none, some, [], ◌∷◌, ◌++◌,
  arith, Bytes, length, take, drop, length-drop, Bool-cases, Option-cases, take-append-drop, min,
}
use mathlib.Core.Path.{subst}
use httpoll.HeaderParser.Types.{HttpHeaderParser}
use httpoll.HeaderParser.{push_line}
use httpoll.Connection.Lines.{pop_line_front}
use httpoll.Connection.{
  Connection, pop_line, next_piece, drain, is_empty, is_body, ProcessRet, state_ret, returns_at,
}

-- The four outcomes of a round of the inner loop.
module _ (rounds fuel : ℕ) (past : ℕ → ℕ) (c : Connection) where
  pub drain_break : next_piece c ≡ none → drain (suc rounds) fuel past c ≡ some (none, c)
  unfolding drain
  drain_break q = rw (q, drain) refl

  module _ (piece : Bytes) (d : Connection) (q : next_piece c ≡ some (piece, d)) where
    pub drain_stuck :
        push_line fuel past d.parser piece ≡ none → drain (suc rounds) fuel past c ≡ none
    unfolding drain
    drain_stuck u = rw (q, drain) (rw u refl)

    pub drain_return :
        (p : HttpHeaderParser)
        → push_line fuel past d.parser piece ≡ some p
        → returns_at p.state ≡ true
        → drain (suc rounds) fuel past c ≡ some (some (state_ret p.state), record d { parser = p })
    unfolding drain
    drain_return p u t = rw (q, drain) (rw u (rw t refl))

    pub drain_next :
        (p : HttpHeaderParser)
        → push_line fuel past d.parser piece ≡ some p
        → returns_at p.state ≡ false
        → drain (suc rounds) fuel past c ≡ drain rounds fuel past (record d { parser = p })
    unfolding drain
    drain_next p u t = rw (q, drain) (rw u (rw t refl))

-- A statement about an outcome, if there is one.
abbrev pub On {κ} :
    (Option ProcessRet → Connection → Type κ) → Option (Option ProcessRet × Connection) → Type κ
On Q none = Unit
On Q (some (r, c)) = Q r c

-- The rule of the inner loop: `P` holds before each round, `Q` of the outcome.
module _ {ℓ κ} (P : Connection → Type ℓ) (Q : Option ProcessRet → Connection → Type κ) (fuel : ℕ)
    (past : ℕ → ℕ)
    (step : (c d : Connection) (piece : Bytes) (p : HttpHeaderParser)
      → P c
      → next_piece c ≡ some (piece, d)
      → push_line fuel past d.parser piece ≡ some p
      → P (record d { parser = p }))
    (stop : (c : Connection) → P c → Q none c)
    (result : (c : Connection) → P c → Q (some (state_ret c.parser.state)) c) where
  pub drain_inv :
      (rounds : ℕ) (c c' : Connection) (r : Option ProcessRet)
      → P c
      → drain rounds fuel past c ≡ some (r, c')
      → Q r c'
  unfolding drain
  drain_inv zero c c' r h e = cc
  drain_inv (suc rounds) c c' r h e = elim (Option-cases (next_piece c)) [
    | inl q ↦ subst (On Q) (sym (drain_break rounds fuel past c q) ∙ e) (stop c h)
    | inr ((piece, d), q) ↦ elim (Option-cases (push_line fuel past d.parser piece)) [
      | inl u ↦ cc (sym e ∙ drain_stuck rounds fuel past c piece d q u)
      | inr (p, u) ↦ elim (Bool-cases (returns_at p.state)) [
        | inl t ↦
            subst (On Q) (sym (drain_return rounds fuel past c piece d q p u t) ∙ e)
              (result (record d { parser = p }) (step c d piece p h q u))
        | inr t ↦
            drain_inv rounds (record d { parser = p }) c' r (step c d piece p h q u)
              (sym (drain_next rounds fuel past c piece d q p u t) ∙ e)
      ]
    ]
  ]

pair_first :
    (piece piece' : Bytes) (d d' : Connection)
    → ◌≡◌ {A = Option (Bytes × Connection)} (some (piece, d)) (some (piece', d'))
    → (piece ≡ piece') × (d ≡ d')
pair_first piece piece' d d' e = (cc, cc)

-- What a piece leaves: it stood at the front, it is not empty, and parser and socket are untouched.
abbrev pub Front : Connection → Bytes → Connection → Type 0
Front c piece d =
    (c.buffer ≡ piece ++ d.buffer)
    × (length d.buffer < length c.buffer)
    × (d.parser ≡ c.parser)
    × (d.socket ≡ c.socket)

chunk_shorter : (s : Bytes) → is_empty s ≡ false → length (drop (min (length s) 1024) s) < length s
chunk_shorter [] e = cc
chunk_shorter (x ∷ s) e = ground (arith, length-drop (min (length (x ∷ s)) 1024) (x ∷ s))

pub next_piece-Front :
    (c d : Connection) (piece : Bytes) → next_piece c ≡ some (piece, d) → Front c piece d
unfolding next_piece
next_piece-Front c d piece e = elim (Option-cases (pop_line c.buffer)) [
  | inl q ↦ elim (Bool-cases (is_empty c.buffer)) [
    | inl t ↦ let ends : next_piece c ≡ none = rw (q, next_piece) (rw t refl) in cc (sym ends ∙ e)
    | inr t ↦ elim (Bool-cases (is_body c.parser.state)) [
      | inr u ↦
          let ends : next_piece c ≡ none = rw (q, next_piece) (rw t (rw u refl)) in
          cc (sym ends ∙ e)
      | inl u ↦
          let n = min (length c.buffer) 1024 in
          let rest = record c { partial_body = take n c.buffer; buffer = drop n c.buffer } in
          let goes : next_piece c ≡ some (take n c.buffer, rest) =
            rw (q, next_piece) (rw t (rw u refl)) in
          let (a, b) = pair_first (take n c.buffer) piece rest d (sym goes ∙ e) in
          subst (λ x. Front c x d) a
            (subst (Front c (take n c.buffer)) b
              (sym (take-append-drop n c.buffer), chunk_shorter c.buffer t, refl, refl))
    ]
  ]
  | inr ((line, left), q) ↦
      let (split, less) = pop_line_front c.buffer line left q in
      let goes : next_piece c ≡ some (line, record c { buffer = left }) = rw (q, next_piece) refl in
      let (a, b) = pair_first line piece (record c { buffer = left }) d (sym goes ∙ e) in
      subst (λ x. Front c x d) a (subst (Front c line) b (split, less, refl, refl))
]
