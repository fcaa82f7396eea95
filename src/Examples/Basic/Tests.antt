-- ===== src/Examples/Basic/Tests.antt =====
-- A request for the page, in two segments.
use httpoll.Prelude.{none, some, List, [], ◌∷◌, Bytes, codes}
use httpoll.Socket.{chunk}
use httpoll.HeaderParser.Types.{initial, equal}
use httpoll.HeaderParser.Samples.{no_bytes}
use httpoll.Connection.{Connection}
use httpoll.Connection.Head.{Head}
use httpoll.Response.Decimal.{decimal}
use httpoll.Server.Handling.{Client, Env}

abbrev env : Env
env = record {
  regex_match = equal;
  format = decimal;
  sha1 = λ xs. xs;
  hash = [];
  past = no_bytes;
  fuel = 100;
  rounds = 2000;
  now = 7;
  header = [];
}

abbrev lines : List Bytes
lines = codes "GET / HTTP/1.1\r\n" ∷ codes "\r\n" ∷ []

abbrev client : Client
client = record {
  conn = record {
    fd = some 5;
    buffer = [];
    ws_conn = none;
    partial_body = [];
    parser = initial;
    socket = record {
      incoming = chunk (codes "GET / HT") ∷ chunk (codes "TP/1.1\r\n\r\n") ∷ [];
      outcomes = [];
      sent = [];
    };
  };
  on_data = none;
  will_close_hook = none;
}
