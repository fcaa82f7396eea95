-- ===== src/Server/Handling.antt =====
-- src/hpl_server.cc: what `Poll` does for a connection with data to read, and `RequestHandler` of
-- src/hpl_request_handler.h. The handlers of the program that uses the server are functions that
-- may do what they like with the connection that they are given.
mod Tests
pub mod Answers
pub mod Requests
pub mod SwitchingProtocols
pub mod Handshake
use httpoll.Prelude.{
  ℤ, pos, negsuc, ℕ, zero, suc, Bool, true, false, Option, none, some, List, [], ◌∷◌, ◌++◌, ◌==◌,
  if◌then◌else◌, Bytes, codes, get_elem?,
}
use httpoll.Method.{HttpMethod}
use httpoll.Connection.{
  WebsocketConnection, Connection, ProcessRet, failed, need_headers, need_body, complete,
  process_data_in, write, pop_body, should_upgrade_websocket, upgrade_to_websocket,
}
use httpoll.WebsocketConnection.{WsHandler, set_ws, ws_read, get_ws_accept}
use httpoll.Response.{make_response}
use httpoll.Server.{find_request_handler}

abbrev pub Handler : Type 0
Handler = Connection → Bytes → Bytes → Bool → ℤ × Connection

abbrev pub WsHook : Type 0
WsHook = Connection → Bytes → ℤ × Connection

-- `struct RequestHandler`; `none` is the null function.
pub record RequestHandler : Type 0 where
  pub http_handlers : List (Option Handler)
  pub ws_connect_hook : Option WsHook
  pub ws_ready_hook : Option WsHook
  pub ws_will_close_hook : Option WsHook
  pub ws_message_handler : WsHandler

-- A connection of `pending_conns_`, with the two handlers of its `WebsocketConnection`.
pub record Client : Type 0 where
  pub conn : Connection
  pub on_data : WsHandler
  pub will_close_hook : Option WsHook

-- What the models of the parts take as arguments.
pub record Env : Type 0 where
  pub regex_match : Bytes → Bytes → Bool
  pub format : ℕ → Bytes
  pub sha1 : Bytes → Bytes
  pub hash : Bytes
  pub past : ℕ → ℕ
  pub fuel : ℕ
  pub rounds : ℕ
  pub now : ℕ
  pub header : Bytes

-- Whether `CloseConn` is called for the connection.
pub data Outcome : Type 0 where
  kept closes : Client → Outcome

abbrev pub is_minus_one : ℤ → Bool
is_minus_one (negsuc zero) = true
is_minus_one _ = false

abbrev pub outcome : ℤ → Client → Outcome
outcome n c = if is_minus_one n then closes c else kept c

-- `if (hook) n = hook(ws_conn, uri)`.
abbrev pub run_hook : ℤ → Option WsHook → Bytes → Connection → ℤ × Connection
run_hook n none uri c = (n, c)
run_hook n (some hook) uri c = hook c uri

-- The 101 response; `none` is the exception of `at`.
switch_protocol : Env → RequestHandler → Bytes → Bytes → ℤ → Client → Option Outcome
switch_protocol env h uri accept n c =
    elim (make_response env.format (pos 101) c.conn.parser.version
      ((codes "Connection", codes "Upgrade")
        ∷ (codes "Sec-WebSocket-Accept", accept)
        ∷ (codes "Upgrade", codes "websocket")
        ∷ [])
      []) [
        | none ↦ none
        | some rsp ↦
            let (m, c') = run_hook n h.ws_ready_hook uri (write c.conn rsp).1 in
            some (outcome m (record c { conn = c' }))
      ]

-- The upgrade, on the record that `UpgradeToWebsocket` made; `none` follows its null pointer.
upgrade_client : Env → RequestHandler → Bytes → Option WebsocketConnection → Client → Option Outcome
unfolding switch_protocol
upgrade_client env h uri none c = none
upgrade_client env h uri (some w) c =
    let (accept, w') = get_ws_accept env.sha1 env.hash w in
    let (n, c') = run_hook (pos 0) h.ws_connect_hook uri (set_ws w' c.conn) in
    let client : Client = record {
      conn = c';
      on_data = h.ws_message_handler;
      will_close_hook = h.ws_will_close_hook;
    } in
    if is_minus_one n then some (closes client) else switch_protocol env h uri accept n client

abbrev pub method_index : HttpMethod → ℕ
method_index HttpMethod.get = 0
method_index HttpMethod.post = 1
method_index HttpMethod.put = 2
method_index HttpMethod.delete = 3
method_index HttpMethod.head = 4
method_index HttpMethod.connect = 5
method_index HttpMethod.options = 6
method_index HttpMethod.trace = 7
method_index HttpMethod.patch = 8
method_index HttpMethod.unknown = 9

-- On the handler of the method; `none` reads behind the array, `some none` is the null function.
call_handler : Option (Option Handler) → Bool → Client → Option Outcome
call_handler none is_final c = none
call_handler (some none) is_final c = some (closes c)
call_handler (some (some handler)) is_final c =
    let (n, c') = handler c.conn c.conn.parser.uri (pop_body c.conn) is_final in
    some (outcome n (record c { conn = c' }))

-- The 404 response.
not_found : Env → Client → Option Outcome
not_found env c = elim (make_response env.format (pos 404) c.conn.parser.version [] []) [
  | none ↦ none
  | some rsp ↦ some (closes (record c { conn = (write c.conn rsp).1 }))
]

pub found : Env → RequestHandler → Bool → Client → Option Outcome
unfolding upgrade_client call_handler
found env h is_final c =
    if should_upgrade_websocket c.conn
    then (let c' = (upgrade_to_websocket env.now c.conn).1 in
        upgrade_client env h c.conn.parser.uri c'.ws_conn (record c { conn = c' }))
    else call_handler (get_elem? h.http_handlers (method_index c.conn.parser.method)) is_final c

-- The cases 0 and 1 of the switch.
pub dispatch : Env → List (Bytes × RequestHandler) → Bool → Client → Option Outcome
unfolding found not_found
dispatch env handlers is_final c =
    elim (find_request_handler env.regex_match c.conn.parser.uri handlers) [
      | none ↦ not_found env c
      | some (k, h) ↦ found env h is_final c
    ]

-- The switch on what `ProcessDataIn` returned.
processed : Env → List (Bytes × RequestHandler) → ProcessRet → Client → Option Outcome
unfolding dispatch
processed env handlers failed c = some (closes c)
processed env handlers need_headers c = some (kept c)
processed env handlers need_body c = dispatch env handlers false c
processed env handlers complete c = dispatch env handlers true c

ws_readable : Env → Client → Option Outcome
ws_readable env c = elim (ws_read env.header env.now c.on_data c.conn) [
  | none ↦ none
  | some (ret, c') ↦
      if is_minus_one ret
      then some (closes (record c { conn = (run_hook (pos 0) c.will_close_hook [] c').1 }))
      else some (kept (record c { conn = c' }))
]

readable_as :
    Env → List (Bytes × RequestHandler) → Option WebsocketConnection → Client → Option Outcome
unfolding ws_readable processed
readable_as env handlers (some w) c = ws_readable env c
readable_as env handlers none c = elim (process_data_in env.rounds env.fuel env.past c.conn) [
  | none ↦ none
  | some (ret, c') ↦ processed env handlers ret (record c { conn = c' })
]

-- EPOLLIN on a connection.
pub readable : Env → List (Bytes × RequestHandler) → Client → Option Outcome
unfolding readable_as
readable env handlers c = readable_as env handlers c.conn.ws_conn c
