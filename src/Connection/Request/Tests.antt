-- ===== src/Connection/Request/Tests.antt =====
-- A request that arrives in two segments, with an interruption, and its body behind it.
use httpoll.Prelude.{◌≡◌, refl, none, some, List, [], ◌∷◌, arith, Bytes, codes}
use httpoll.Socket.{ReadEvent, chunk}
use httpoll.HeaderParser.Types.{initial}
use httpoll.HeaderParser.Samples.{
  no_bytes, asked, sized, awaiting, push_line-asked, push_line-sized, push_line-awaiting,
}
use httpoll.Connection.{Connection, crlf_index, pop_line, need_body, state_ret, process_data_in}
use httpoll.Connection.Stream.{stream}
use httpoll.Connection.Head.{Head, next, last}
use httpoll.Connection.Request.{process_data_in-lines}

abbrev lines : List Bytes
lines = codes "POST /a HTTP/1.1\r\n" ∷ codes "Content-Length: 4\r\n" ∷ codes "\r\n" ∷ []

lines-Head : Head 100 no_bytes initial lines awaiting
unfolding pop_line crlf_index
lines-Head =
    next initial asked awaiting (codes "POST /a HTTP/1.1\r\n") _ refl (omega arith) push_line-asked
      refl
      (next asked sized awaiting (codes "Content-Length: 4\r\n") _ refl (omega arith)
        push_line-sized refl
        (last sized awaiting (codes "\r\n") refl (omega arith) push_line-awaiting refl))

abbrev arriving : Connection
arriving = record {
  fd = some 5;
  buffer = codes "POST";
  ws_conn = none;
  partial_body = [];
  parser = initial;
  socket = record {
    incoming =
        chunk (codes " /a HTTP/1.1\r\nConte")
        ∷ ReadEvent.interrupted
        ∷ chunk (codes "nt-Length: 4\r\n\r\nbody")
        ∷ [];
    outcomes = [];
    sent = [];
  };
}

process_data_in-lines_example :
    (d : Connection) × (process_data_in 2000 100 no_bytes arriving ≡ some (need_body, d))
    × (d.parser ≡ awaiting)
    × (stream d ≡ codes "body")
unfolding pop_line crlf_index stream state_ret
process_data_in-lines_example =
    process_data_in-lines 100 no_bytes awaiting (codes "body") 2000 arriving lines lines-Head refl
      refl refl (omega arith) (omega arith) (omega arith)
