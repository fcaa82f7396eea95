-- ===== src/Connection/Body.antt =====
-- `ProcessDataIn` while a body is being received.
use httpoll.Prelude.{
  ℕ, suc, ◌≡◌, refl, ap, ◌∙◌, inl, inr, true, false, none, some, ◌++◌, Bytes, length, take, drop,
  Bool-cases, add_unsigned, min, take-append-drop,
}
use httpoll.HeaderParser.Types.{body, HttpHeaderParser}
use httpoll.HeaderParser.States.{body_after, push_line-in_body}
use httpoll.HeaderParser.{is_complete}
use httpoll.Connection.{
  Connection, more, read, pop_line, pop_body, next_piece, drain, process_data_in, state_ret,
  returns_at, is_empty, is_body,
}
use httpoll.Connection.Processing.{drain_return}
use httpoll.Connection.Outcome.{round_returns}

body_after-returns : (p : HttpHeaderParser) (n : ℕ) → returns_at (body_after p n).state ≡ true
body_after-returns p n =
    elim (Bool-cases (is_complete p.content_length (add_unsigned p.body_length n))) [
      | inl t ↦ rw t refl
      | inr t ↦ rw t refl
    ]

module _ (rounds fuel : ℕ) (past : ℕ → ℕ) (c d : Connection) (data_in : read c ≡ (more, d))
    (in_body : d.parser.state ≡ body) where
  -- One piece, and the call returns.
  one_piece :
      (piece : Bytes) (x : Connection)
      → next_piece d ≡ some (piece, x)
      → x.parser ≡ d.parser
      → let p = body_after x.parser (length piece) in
        process_data_in (suc rounds) fuel past c ≡ some (state_ret p.state, record x { parser = p })
  one_piece piece x q same =
      let p = body_after x.parser (length piece) in
      let pushed = push_line-in_body fuel past x.parser piece (ap (λ y. y.state) same ∙ in_body) in
      let goes : drain (suc rounds) fuel past d
          ≡ some (some (state_ret p.state), record x { parser = p }) =
        drain_return rounds fuel past d piece x q p pushed
          (body_after-returns x.parser (length piece)) in
      round_returns rounds fuel past c (ap (λ y. y.0) data_in) (state_ret p.state) _
        (ap (λ y. drain (suc rounds) fuel past y.1) data_in ∙ goes)

  -- While a body is received, a `Read` that brings data into a buffer without CR LF that is not empty is
  -- followed by one piece of up to 1024 bytes, counted, and the result of the state it leads to;
  -- that piece is what the handler can pop.
  pub process_data_in-body_piece :
      pop_line d.buffer ≡ none
      → is_empty d.buffer ≡ false
      → let n = min (length d.buffer) 1024 in
        let p = body_after d.parser (length (take n d.buffer)) in
        let x = record d { partial_body = take n d.buffer; buffer = drop n d.buffer; parser = p } in
        (process_data_in (suc rounds) fuel past c ≡ some (state_ret p.state, x))
        × (pop_body x ++ x.buffer ≡ d.buffer)
  unfolding next_piece pop_body
  process_data_in-body_piece q t =
      let n = min (length d.buffer) 1024 in
      let here : is_body d.parser.state ≡ true = ap is_body in_body in
      (
        one_piece (take n d.buffer)
            (record d { partial_body = take n d.buffer; buffer = drop n d.buffer })
            (rw (q, next_piece) (rw t (rw here refl))) refl,
        take-append-drop n d.buffer,
      )
