-- ===== src/Server/Handling/Requests/Tests.antt =====
-- A POST in two segments, and a handler that keeps the connection.
use httpoll.Prelude.{pos, ◌≡◌, refl, true, none, some, List, [], ◌∷◌, Bytes, codes, arith}
use httpoll.Socket.{chunk}
use httpoll.HeaderParser.Types.{initial, equal}
use httpoll.HeaderParser.Samples.{no_bytes, asked, finished, push_line-asked, push_line-finished}
use httpoll.Connection.{Connection, pop_line, pop_body}
use httpoll.Connection.Stream.{stream}
use httpoll.Connection.Untouched.{link}
use httpoll.Connection.Head.{Head, next, last}
use httpoll.Server.{first_match, find_request_handler}
use httpoll.Server.Handling.{Handler, RequestHandler, Client, Env, outcome, readable}
use httpoll.Server.Handling.Requests.{readable-request}

abbrev env : Env
env = record {
  regex_match = equal;
  format = λ n. codes "0";
  sha1 = λ xs. xs;
  hash = [];
  past = no_bytes;
  fuel = 100;
  rounds = 2000;
  now = 7;
  header = [];
}

abbrev keeps : Handler
keeps c uri partial is_final = (pos 0, c)

abbrev posts : RequestHandler
posts = record {
  http_handlers = none ∷ some keeps ∷ [];
  ws_connect_hook = none;
  ws_ready_hook = none;
  ws_will_close_hook = none;
  ws_message_handler = none;
}

abbrev lines : List Bytes
lines = codes "POST /a HTTP/1.1\r\n" ∷ codes "\r\n" ∷ []

lines-Head : Head 100 no_bytes initial lines finished
unfolding pop_line
lines-Head =
    next initial asked finished (codes "POST /a HTTP/1.1\r\n") _ refl (omega arith) push_line-asked
      refl (last asked finished (codes "\r\n") refl (omega arith) push_line-finished refl)

abbrev client : Client
client = record {
  conn = record {
    fd = some 5;
    buffer = [];
    ws_conn = none;
    partial_body = [];
    parser = initial;
    socket = record {
      incoming = chunk (codes "POST /a HT") ∷ chunk (codes "TP/1.1\r\n\r\n") ∷ [];
      outcomes = [];
      sent = [];
    };
  };
  on_data = none;
  will_close_hook = none;
}

readable-request_example :
    (d : Connection) × (d.parser ≡ finished)
    × (link d ≡ link client.conn)
    × (stream d ≡ [])
    × (let (n, after) = keeps d (codes "/a") (pop_body d) true in
        readable env ((codes "/a", posts) ∷ []) client
        ≡ some (outcome n (record client { conn = after })))
unfolding pop_line stream find_request_handler first_match equal
readable-request_example =
    readable-request env ((codes "/a", posts) ∷ []) client finished lines [] (codes "/a") posts
      keeps refl lines-Head refl refl refl (omega arith) (omega arith) (omega arith) refl refl refl
      refl
