-- ===== src/Server/Polling/Dangling/Tests.antt =====
-- An upgrade without a key, of which an event tells: the fault is the connection's own.
use httpoll.Prelude.{true, none, some, List, [], ◌∷◌, codes}
use httpoll.Method.{HttpMethod}
use httpoll.Version.{HttpVersion}
use httpoll.HeaderParser.Types.{initial, no_flags, done, equal}
use httpoll.Server.Handling.{RequestHandler, Client, Env}
use httpoll.Server.Polling.{Server, Event, readable_event, other_event}

abbrev env : Env
env = record {
  regex_match = equal;
  format = λ n. codes "0";
  sha1 = λ xs. xs;
  hash = [];
  past = λ i. 0;
  fuel = 100;
  rounds = 2000;
  now = 7;
  header = [];
}

abbrev echo : RequestHandler
echo = record {
  http_handlers = [];
  ws_connect_hook = none;
  ws_ready_hook = none;
  ws_will_close_hook = none;
  ws_message_handler = none;
}

abbrev keyless : Client
keyless = record {
  conn = record {
    fd = some 5;
    buffer = [];
    ws_conn = none;
    partial_body = [];
    parser = record initial {
      uri = codes "/a";
      method = HttpMethod.get;
      version = HttpVersion.http_1_1;
      upgrade_websocket = true;
      connection_flags = record no_flags { upgrade = true };
      state = done;
    };
    socket = record { incoming = []; outcomes = []; sent = [] };
  };
  on_data = none;
  will_close_hook = none;
}

abbrev server : Server
server = record { pending_conns = (1, keyless) ∷ []; request_handlers = (codes "/a", echo) ∷ [] }

abbrev events : List Event
events = other_event 1 ∷ readable_event 1 true ∷ []
