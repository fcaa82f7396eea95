-- ===== src/Examples/Basic.antt =====
-- examples/basic/basic.cc: a site of one page.
mod Tests
pub mod Page
use httpoll.Prelude.{
  ℤ, pos, negsuc, ℕ, Bool, Option, none, some, List, [], ◌∷◌, if◌then◌else◌, Bytes, codes,
}
use httpoll.Connection.{Connection, write}
use httpoll.Response.{make_response}
use httpoll.Server.{register_request_handler}
use httpoll.Server.Handling.{Handler, WsHook, RequestHandler}

abbrev pub get_template : Bytes
get_template =
    codes
      "\n  <html>\n  <head>this is my site</head>\n  <body><b>hello world</b></body>\n  </html>\n  "

abbrev pub premium_template : Bytes
premium_template =
    codes
      "\n<html><title>premium king</title>\n<head>this is my site</head><body><b>hello world</b></body></html>"

-- A 200 response with a page, written to the connection. That `MakeResponse` throws, `none`, does not happen.
pub answer : (ℕ → Bytes) → Bytes → Connection → Connection
answer format page conn = elim (make_response format (pos 200) conn.parser.version [] page) [
  | none ↦ conn
  | some response ↦ (write conn response).1
]

pub dummy_handler : (ℕ → Bytes) → Handler
unfolding answer
dummy_handler format conn uri part is_final =
    if is_final then (negsuc 0, answer format get_template conn) else (pos 0, conn)

-- The handler for "/abc".
pub dump_handler : (ℕ → Bytes) → Handler
unfolding answer
dump_handler format conn uri part is_final = (pos 0, answer format premium_template conn)

-- `get_handler`: its result, and `pending_get_conn` after it.
get_handler : Connection → ℤ × Option Connection
get_handler conn = (pos 0, some conn)

-- `websocket_ready`, on `pending_get_conn`: its result, the pending connection after it, and the one that
-- was answered and is closed.
pub websocket_ready : (ℕ → Bytes) → Option Connection → ℤ × Option Connection × Option Connection
unfolding answer
websocket_ready format none = (pos 0, none, none)
websocket_ready format (some conn) = (pos 0, none, some (answer format get_template conn))

abbrev pub ws_close : WsHook
ws_close ws uri = (pos 0, ws)

-- No handler that is registered sets `pending_get_conn`.
abbrev pub handlers : (ℕ → Bytes) → RequestHandler
handlers format =
    let dummy = some (dummy_handler format) in
    record {
      http_handlers = dummy ∷ dummy ∷ dummy ∷ dummy ∷ dummy ∷ dummy ∷ none ∷ none ∷ none ∷ [];
      ws_connect_hook = none;
      ws_ready_hook = some (λ ws uri. ((websocket_ready format none).0, ws));
      ws_will_close_hook = some ws_close;
      ws_message_handler = none;
    }

abbrev dump_handlers : (ℕ → Bytes) → RequestHandler
dump_handlers format = record {
  http_handlers =
      some (dump_handler format) ∷ none ∷ none ∷ none ∷ none ∷ none ∷ none ∷ none ∷ none ∷ [];
  ws_connect_hook = none;
  ws_ready_hook = none;
  ws_will_close_hook = none;
  ws_message_handler = none;
}

-- What `main` registers.
unfoldable pub registered : (ℕ → Bytes) → List (Bytes × RequestHandler)
registered format =
    register_request_handler (codes "/abc") (dump_handlers format)
      (register_request_handler (codes "/") (handlers format) [])
