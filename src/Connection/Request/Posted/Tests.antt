-- ===== src/Connection/Request/Posted/Tests.antt =====
-- A POST of four bytes, which come in two segments.
use httpoll.Prelude.{◌≡◌, refl, none, some, [], ◌∷◌, codes, arith}
use httpoll.Version.{HttpVersion, http_version_to_string}
use httpoll.Method.{HttpMethod}
use httpoll.Socket.{chunk}
use httpoll.HeaderParser.Types.{initial, done, get_header, equal}
use httpoll.HeaderParser.FirstLine.{post}
use httpoll.HeaderParser.Samples.{no_bytes}
use httpoll.Connection.{Connection, pop_line, need_body, complete, process_data_in}
use httpoll.Connection.Stream.{stream}
use httpoll.Connection.Request.Upload.{upload}
use httpoll.Connection.Request.Samples.{
  accept, accept-IsPrinted, post-IsPrintedLine, bo-IsSegment, dy-IsSegment,
}
use httpoll.Connection.Request.Posted.{process_data_in-posted}

abbrev arriving : Connection
arriving = record {
  fd = some 5;
  buffer = codes "PO";
  ws_conn = none;
  partial_body = [];
  parser = initial;
  socket = record {
    incoming =
        chunk (codes "ST /a HTTP/1.1\r\nAcc")
        ∷ chunk (codes "ept: my.server\r\nContent-Length: 4\r\n\r\n")
        ∷ [];
    outcomes = [];
    sent = [];
  };
}

process_data_in-posted_example :
    (e : Connection) × (last : Connection) × (process_data_in 2000 100 no_bytes arriving
      ≡ some (need_body, e))
    × (e.parser.method ≡ HttpMethod.post)
    × (e.parser.uri ≡ codes "/a")
    × (get_header e.parser (codes "Accept") ≡ codes "my.server")
    × (stream e ≡ [])
    × (upload 5 100 no_bytes e (codes "bo" ∷ codes "dy" ∷ [])
        ≡ some ((need_body, codes "bo") ∷ (complete, codes "dy") ∷ [], last))
    × (last.parser.state ≡ done)
unfolding pop_line stream equal http_version_to_string
process_data_in-posted_example =
    process_data_in-posted 100 no_bytes 4 [] (omega arith) (omega arith) post (codes " ")
      (codes "/a") HttpVersion.http_1_1 (accept ∷ []) 2000 4 arriving (codes "Accept")
      (codes "bo" ∷ codes "dy" ∷ []) post-IsPrintedLine (accept-IsPrinted, tt) (omega arith)
      (omega arith) refl refl refl (omega arith) (omega arith) (omega arith)
      (bo-IsSegment, (dy-IsSegment, tt)) refl
