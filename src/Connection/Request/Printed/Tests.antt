-- ===== src/Connection/Request/Printed/Tests.antt =====
-- A POST with one field, in two segments.
use httpoll.Prelude.{◌≡◌, refl, none, some, [], ◌∷◌, codes, arith}
use httpoll.Version.{HttpVersion, http_version_to_string}
use httpoll.Method.{HttpMethod}
use httpoll.Socket.{chunk}
use httpoll.HeaderParser.Types.{initial, equal, get_header}
use httpoll.HeaderParser.FirstLine.{post}
use httpoll.HeaderParser.Samples.{no_bytes}
use httpoll.Connection.{Connection, pop_line, crlf_index, complete, process_data_in}
use httpoll.Connection.Stream.{stream}
use httpoll.Connection.Request.Samples.{accept, accept-IsPrinted, post-IsPrintedLine}
use httpoll.Connection.Request.Printed.{process_data_in-printed}

abbrev arriving : Connection
arriving = record {
  fd = some 5;
  buffer = codes "PO";
  ws_conn = none;
  partial_body = [];
  parser = initial;
  socket = record {
    incoming = chunk (codes "ST /a HTTP/1.1\r\nAcc") ∷ chunk (codes "ept: my.server\r\n\r\n") ∷ [];
    outcomes = [];
    sent = [];
  };
}

process_data_in-printed_example :
    (d : Connection) × (process_data_in 2000 100 no_bytes arriving ≡ some (complete, d))
    × (d.parser.method ≡ HttpMethod.post)
    × (d.parser.uri ≡ codes "/a")
    × (d.parser.version ≡ HttpVersion.http_1_1)
    × (get_header d.parser (codes "Accept") ≡ codes "my.server")
    × (stream d ≡ [])
unfolding pop_line crlf_index stream equal http_version_to_string
process_data_in-printed_example =
    process_data_in-printed 100 no_bytes post (codes " ") (codes "/a") HttpVersion.http_1_1 2000
      arriving (accept ∷ []) [] (codes "Accept") post-IsPrintedLine (accept-IsPrinted, tt) refl refl
      refl (omega arith) (omega arith) (omega arith)
