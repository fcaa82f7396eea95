-- ===== src/Connection/Tests.antt =====
-- The theorems on `Connection`, on short streams.
use httpoll.Prelude.{
  ℕ, ◌≤◌, ◌≡◌, ◌⊎◌, refl, none, some, List, [], ◌∷◌, ◌++◌, arith, Bytes, codes, length,
}
use httpoll.Socket.{ReadEvent, chunk, sys_read}
use httpoll.HeaderParser.Types.{headers, body, done, HttpHeaderParser, initial}
use httpoll.HeaderParser.States.{push_line-blank, push_line-done}
use httpoll.Connection.{
  Connection, small_memory, crlf_index, pop_line, read, failed, complete, state_ret, next_piece,
  process_data_in,
}
use httpoll.Connection.Reading.{to_come, read_lem}
use httpoll.Connection.Stream.{Pushes, stream}
use httpoll.Connection.Processing.{drain_return}
use httpoll.Connection.Outcome.{round_returns, process_data_in_pieces, process_data_in-done}

abbrev zeros : ℕ → ℕ
zeros i = 0

abbrev crlf : Bytes
crlf = codes "\r\n"

-- A connection with a parser and a buffer, and the events to come.
abbrev at : HttpHeaderParser → Bytes → List ReadEvent → Connection
at p buffer events = record {
  fd = some 5;
  buffer = buffer;
  ws_conn = none;
  partial_body = codes "old";
  parser = p;
  socket = record { incoming = events; outcomes = []; sent = [] };
}

read_lem_example :
    let c = at initial [] (chunk (codes "abc") ∷ []) in
    let c' = (read c).1 in
    (c'.buffer ++ to_come c'.socket.incoming ≡ c.buffer ++ to_come c.socket.incoming)
    × (length c'.buffer ≤ small_memory)
read_lem_example = read_lem (at initial [] (chunk (codes "abc") ∷ [])) (omega arith)

-- A request without a body, whose last line is to come.
abbrev last_line : Connection
last_line = at (record initial { state = headers }) [] (chunk crlf ∷ [])

abbrev after_last : Connection
after_last = at (record initial { state = done }) [] []

last_line_processed : process_data_in 1100 10 zeros last_line ≡ some (complete, after_last)
unfolding read sys_read next_piece pop_line crlf_index state_ret
last_line_processed =
    let p = record initial { state = headers } in
    round_returns 1099 10 zeros last_line refl complete after_last (
      drain_return 1099 10 zeros (at p crlf []) crlf (at p [] []) refl after_last.parser
        (push_line-blank 10 zeros p refl refl) refl)

process_data_in_pieces_example :
    Pushes 10 zeros last_line.parser (stream last_line) after_last.parser (stream after_last)
    × ((complete ≡ failed) ⊎ (complete ≡ state_ret after_last.parser.state))
    × (length after_last.buffer ≤ small_memory)
process_data_in_pieces_example =
    process_data_in_pieces 1100 10 zeros last_line after_last complete (omega arith)
      last_line_processed

-- A second request on the same connection.
abbrev second_request : Connection
second_request = at (record initial { state = done }) [] (chunk (codes "GET /b HTTP/1.1\r\n") ∷ [])

second_processed : process_data_in 1100 10 zeros second_request ≡ some (complete, after_last)
unfolding read sys_read next_piece pop_line crlf_index state_ret
second_processed =
    let p = record initial { state = done } in
    let line = codes "GET /b HTTP/1.1\r\n" in
    round_returns 1099 10 zeros second_request refl complete after_last (
      drain_return 1099 10 zeros (at p line []) line (at p [] []) refl p
        (push_line-done 10 zeros p line refl) refl)

process_data_in-done_example : after_last.parser ≡ second_request.parser
process_data_in-done_example =
    process_data_in-done 1100 10 zeros second_request after_last complete (omega arith) refl
      second_processed

-- A body of ten bytes, of which some have come.
abbrev receiving : HttpHeaderParser
receiving = record initial { state = body; content_length = some 10 }

abbrev line_comes : Connection
line_comes = at receiving [] (chunk (codes "ab\r\ncd") ∷ [])
