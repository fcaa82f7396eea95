-- ===== src/Server/Handling/Tests.antt =====
-- The theorems on requests that are looked up, with equality for <regex>.
use httpoll.Prelude.{true, Option, none, some, List, [], ◌∷◌, Bytes, codes}
use httpoll.Method.{HttpMethod}
use httpoll.Version.{HttpVersion}
use httpoll.HeaderParser.Types.{HttpHeaderParser, initial, no_flags, equal}
use httpoll.Server.Handling.{Handler, RequestHandler, Client, Env}

abbrev env : Env
env = record {
  regex_match = equal;
  format = λ n. codes "0";
  sha1 = λ xs. xs;
  hash = [];
  past = λ i. 0;
  fuel = 100;
  rounds = 2000;
  now = 7;
  header = [];
}

abbrev no_handler : Option Handler
no_handler = none

abbrev plain_handler : RequestHandler
plain_handler = record {
  http_handlers =
      no_handler ∷ no_handler ∷ no_handler ∷ no_handler ∷ no_handler ∷ no_handler ∷ no_handler
      ∷ no_handler ∷ no_handler ∷ [];
  ws_connect_hook = none;
  ws_ready_hook = none;
  ws_will_close_hook = none;
  ws_message_handler = none;
}

abbrev handlers : List (Bytes × RequestHandler)
handlers = (codes "/a", plain_handler) ∷ []

-- A connection that has received a request.
abbrev client : HttpHeaderParser → Client
client p = record {
  conn = record {
    fd = some 5;
    buffer = [];
    ws_conn = none;
    partial_body = [];
    parser = p;
    socket = record { incoming = []; outcomes = []; sent = [] };
  };
  on_data = none;
  will_close_hook = none;
}

-- A request to upgrade, with these headers.
abbrev upgrading : List (Bytes × Bytes) → Client
upgrading fields = client (record initial {
  uri = codes "/a";
  method = HttpMethod.get;
  version = HttpVersion.http_1_1;
  upgrade_websocket = true;
  connection_flags = record no_flags { upgrade = true };
  header_map = fields;
})
