-- ===== src/Connection/Untouched.antt =====
-- What `ProcessDataIn` does not touch: the descriptor, the WebSocket record, and the writing side.
use httpoll.Prelude.{
  [], ◌∷◌, length, sub_size, ℕ, zero, suc, ◌≡◌, refl, ◌∙◌, inl, inr, Option, none, some, List,
  Bytes, Bool-cases, Option-cases,
}
use mathlib.Core.Path.{subst}
use httpoll.Socket.{WriteEvent, ReadResult, bytes, sys_read}
use httpoll.Connection.{
  Connection, WebsocketConnection, pop_line, read, read_result, next_piece, drain, process_data_in,
  is_empty, is_body, ProcessRet, small_memory,
}
use httpoll.Connection.Processing.{drain_inv}
use httpoll.Connection.Outcome.{
  ret-cases, round_closed, round_drained, round_stuck, round_returns, round_again,
}

abbrev pub Link : Type 0
Link = Option ℕ × Option WebsocketConnection × List WriteEvent × Bytes

abbrev pub link : Connection → Link
link c = (c.fd, c.ws_conn, c.socket.outcomes, c.socket.sent)

read_result-link : (c : Connection) (r : ReadResult) → link (read_result c r).1 ≡ link c
unfolding read_result
read_result-link c (bytes []) = refl
read_result-link c (bytes (x ∷ xs)) = refl
read_result-link c ReadResult.eagain = refl
read_result-link c ReadResult.eintr = refl
read_result-link c ReadResult.error = refl

read-link : (c : Connection) → link (read c).1 ≡ link c
unfolding read sys_read
read-link c =
    let (r, s) = sys_read c.socket (sub_size small_memory (length c.buffer)) in
    read_result-link (record c { socket = s }) r

abbrev OnPiece : Connection → Option (Bytes × Connection) → Type 0
OnPiece c none = Unit
OnPiece c (some (piece, d)) = link d ≡ link c

next_piece-link : (c : Connection) → OnPiece c (next_piece c)
unfolding next_piece
next_piece-link c = elim (Option-cases (pop_line c.buffer)) [
  | inr ((line, left), q) ↦ rw (q, next_piece) refl
  | inl q ↦ elim (Bool-cases (is_empty c.buffer)) [
    | inl t ↦ rw (q, next_piece) (rw t tt)
    | inr t ↦ elim (Bool-cases (is_body c.parser.state)) [
      | inl u ↦ rw (q, next_piece) (rw t (rw u refl))
      | inr u ↦ rw (q, next_piece) (rw t (rw u tt))
    ]
  ]
]

drain-link :
    (rounds fuel : ℕ) (past : ℕ → ℕ) (c d : Connection) (r : Option ProcessRet)
    → drain rounds fuel past c ≡ some (r, d)
    → link d ≡ link c
drain-link rounds fuel past c d r e =
    drain_inv (λ x. link x ≡ link c) (λ r x. link x ≡ link c) fuel past
      (λ x y piece p h q u. subst (OnPiece x) q (next_piece-link x) ∙ h) (λ x h. h) (λ x h. h)
      rounds c d r refl e

abbrev OnResult : Connection → Option (ProcessRet × Connection) → Type 0
OnResult c none = Unit
OnResult c (some (r, d)) = link d ≡ link c

also :
    (c x : Connection) (o : Option (ProcessRet × Connection))
    → link x ≡ link c
    → OnResult x o
    → OnResult c o
also c x none h k = tt
also c x (some (r, d)) h k = k ∙ h

process_data_in-OnResult :
    (rounds fuel : ℕ) (past : ℕ → ℕ) (c : Connection)
    → OnResult c (process_data_in rounds fuel past c)
process_data_in-OnResult zero fuel past c = unfold process_data_in in tt
process_data_in-OnResult (suc rounds) fuel past c =
    let had_read = read-link c in
    elim (ret-cases (read c).0) [
      | inl (inl e) ↦ rw (round_closed rounds fuel past c e) had_read
      | inl (inr e) ↦ rw (round_drained rounds fuel past c e) had_read
      | inr e ↦ elim (Option-cases (drain (suc rounds) fuel past (read c).1)) [
        | inl q ↦ rw (round_stuck rounds fuel past c e q) tt
        | inr ((some r, d), q) ↦
            rw (round_returns rounds fuel past c e r d q)
              (drain-link (suc rounds) fuel past (read c).1 d (some r) q ∙ had_read)
        | inr ((none, d), q) ↦ rw (round_again rounds fuel past c e d q) (
            also c d (process_data_in rounds fuel past d)
              (drain-link (suc rounds) fuel past (read c).1 d none q ∙ had_read)
              (process_data_in-OnResult rounds fuel past d))
      ]
    ]

-- A call leaves the descriptor, the WebSocket record, what has been sent and what write(2) will do.
pub process_data_in-link :
    (rounds fuel : ℕ) (past : ℕ → ℕ) (c d : Connection) (r : ProcessRet)
    → process_data_in rounds fuel past c ≡ some (r, d)
    → link d ≡ link c
process_data_in-link rounds fuel past c d r e =
    subst (OnResult c) e (process_data_in-OnResult rounds fuel past c)
