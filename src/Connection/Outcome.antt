-- ===== src/Connection/Outcome.antt =====
-- The outer loop of `ProcessDataIn`: its ways through a round, and its results.
use httpoll.Prelude.{
  ℕ, zero, suc, ◌≤◌, ◌≡◌, ◌⊎◌, refl, sym, ap, ◌∙◌, inl, inr, Option, none, some, arith, Bytes,
  length, Option-cases,
}
use mathlib.Core.Path.{subst}
use httpoll.HeaderParser.Types.{done, HttpHeaderParser}
use httpoll.Connection.{
  Connection, ReadRet, closed, drained, more, read, drain, process_data_in, small_memory,
  ProcessRet, failed, state_ret,
}
use httpoll.Connection.Reading.{read_lem}
use httpoll.HeaderParser.States.{push_line-done}
use httpoll.Connection.Stream.{
  nothing, push, Pushes, Pushes-trans, Pushes-length, Pushes-read, Pushes-drain, stream,
  drain_pieces,
}

pub ret-cases : (r : ReadRet) → ((r ≡ closed) ⊎ (r ≡ drained)) ⊎ (r ≡ more)
ret-cases closed = inl (inl refl)
ret-cases drained = inl (inr refl)
ret-cases more = inr refl

pub with_ret : (x : ReadRet × Connection) (r : ReadRet) → x.0 ≡ r → x ≡ (r, x.1)
with_ret x r e = ap (λ y. (y, x.1)) e

-- The ways through a round of the outer loop.
module _ (rounds fuel : ℕ) (past : ℕ → ℕ) (c : Connection) where
  pub round_closed :
      (read c).0 ≡ closed → process_data_in (suc rounds) fuel past c ≡ some (failed, (read c).1)
  unfolding process_data_in
  round_closed e = rw (e, process_data_in) refl

  pub round_drained :
      (read c).0 ≡ drained
      → process_data_in (suc rounds) fuel past c
        ≡ some (state_ret (read c).1.parser.state, (read c).1)
  unfolding process_data_in
  round_drained e = rw (e, process_data_in) refl

  module _ (e : (read c).0 ≡ more) where
    pub round_stuck :
        drain (suc rounds) fuel past (read c).1 ≡ none
        → process_data_in (suc rounds) fuel past c ≡ none
    unfolding process_data_in
    round_stuck q = rw (e, process_data_in) (rw q refl)

    pub round_returns :
        (r : ProcessRet) (d : Connection)
        → drain (suc rounds) fuel past (read c).1 ≡ some (some r, d)
        → process_data_in (suc rounds) fuel past c ≡ some (r, d)
    unfolding process_data_in
    round_returns r d q = rw (e, process_data_in) (rw q refl)

    pub round_again :
        (d : Connection)
        → drain (suc rounds) fuel past (read c).1 ≡ some (none, d)
        → process_data_in (suc rounds) fuel past c ≡ process_data_in rounds fuel past d
    unfolding process_data_in
    round_again d q = rw (e, process_data_in) (rw q refl)

-- What a result says.
abbrev Explained : ℕ → (ℕ → ℕ) → Connection → ProcessRet × Connection → Type 0
Explained fuel past c (r, d) =
    Pushes fuel past c.parser (stream c) d.parser (stream d)
    × ((r ≡ failed) ⊎ (r ≡ state_ret d.parser.state))
    × (length d.buffer ≤ small_memory)

abbrev OnResult : ℕ → (ℕ → ℕ) → Connection → Option (ProcessRet × Connection) → Type 0
OnResult fuel past c none = Unit
OnResult fuel past c (some x) = Explained fuel past c x

after :
    (fuel : ℕ) (past : ℕ → ℕ) (c d : Connection)
    → Pushes fuel past c.parser (stream c) d.parser (stream d)
    → (o : Option (ProcessRet × Connection)) → OnResult fuel past d o
    → OnResult fuel past c o
after fuel past c d went none h = tt
after fuel past c d went (some (r, x)) (goes, result, small) =
    (Pushes-trans went goes, result, small)

pieces :
    (rounds fuel : ℕ) (past : ℕ → ℕ) (c : Connection)
    → length c.buffer ≤ small_memory
    → OnResult fuel past c (process_data_in rounds fuel past c)
pieces zero fuel past c h = unfold process_data_in in tt
pieces (suc rounds) fuel past c h =
    let moved = Pushes-read fuel past c h in
    let small = (read_lem c h).1 in
    elim (ret-cases (read c).0) [
      | inl (inl e) ↦ rw (round_closed rounds fuel past c e) (moved, inl refl, small)
      | inl (inr e) ↦ rw (round_drained rounds fuel past c e) (moved, inr refl, small)
      | inr e ↦ elim (Option-cases (drain (suc rounds) fuel past (read c).1)) [
        | inl q ↦ rw (round_stuck rounds fuel past c e q) tt
        | inr ((some r, d), q) ↦
            let (h', said) = drain_pieces fuel past (read c).1 (suc rounds) d (some r) q in
            rw (round_returns rounds fuel past c e r d q) (
              Pushes-trans moved (Pushes-drain fuel past (read c).1 d h'),
              inr said,
              omega (arith, small, Pushes-length h'.0),
            )
        | inr ((none, d), q) ↦
            let h' = drain_pieces fuel past (read c).1 (suc rounds) d none q in
            let went = Pushes-trans moved (Pushes-drain fuel past (read c).1 d h') in
            let d_small : length d.buffer ≤ small_memory =
              omega (arith, small, Pushes-length h'.0) in
            rw (round_again rounds fuel past c e d q) (
              after fuel past c d went (process_data_in rounds fuel past d)
                (pieces rounds fuel past d d_small))
      ]
    ]

-- Whatever `ProcessDataIn` returns on a buffer of at most SMALL_MEMORY bytes: the parser has been
-- pushed, piece by piece, exactly the bytes that have left the front of the stream (those buffered,
-- then those to come), the result is -2 or that of the parser's state, and the buffer is as small.
pub process_data_in_pieces :
    (rounds fuel : ℕ) (past : ℕ → ℕ) (c d : Connection) (r : ProcessRet)
    → length c.buffer ≤ small_memory
    → process_data_in rounds fuel past c ≡ some (r, d)
    → Pushes fuel past c.parser (stream c) d.parser (stream d)
      × ((r ≡ failed) ⊎ (r ≡ state_ret d.parser.state))
      × (length d.buffer ≤ small_memory)
process_data_in_pieces rounds fuel past c d r h e =
    subst (OnResult fuel past c) e (pieces rounds fuel past c h)

Pushes-done :
    (fuel : ℕ) (past : ℕ → ℕ) (p q : HttpHeaderParser) (s left : Bytes)
    → p.state ≡ done
    → Pushes fuel past p s q left
    → q ≡ p
Pushes-done fuel past p q s left e (nothing p' s') = refl
Pushes-done fuel past p r s left e (push p' q r' piece s' rest left' split h a) =
    let stays : q ≡ p = cc (sym h ∙ push_line-done fuel past p piece e) in
    Pushes-done fuel past q r rest left (ap (λ x. x.state) stays ∙ e) a ∙ stays

-- Once a request is complete, nothing that arrives on the connection, a second request included,
-- changes what its parser holds.
pub process_data_in-done :
    (rounds fuel : ℕ) (past : ℕ → ℕ) (c d : Connection) (r : ProcessRet)
    → length c.buffer ≤ small_memory
    → c.parser.state ≡ done
    → process_data_in rounds fuel past c ≡ some (r, d)
    → d.parser ≡ c.parser
process_data_in-done rounds fuel past c d r h e q =
    Pushes-done fuel past c.parser d.parser (stream c) (stream d) e
      (process_data_in_pieces rounds fuel past c d r h q).0
