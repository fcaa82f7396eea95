-- ===== src/Server/Handling/Handshake/Tests.antt =====
-- A handshake in two segments, with the digest of RFC 6455.
use httpoll.Prelude.{◌≡◌, ◌++◌, refl, none, some, [], ◌∷◌, Bytes, codes, arith}
use httpoll.Socket.{chunk}
use httpoll.Version.{HttpVersion}
use httpoll.HeaderParser.Types.{initial, equal, get_header, lookup}
use httpoll.HeaderParser.Samples.{no_bytes}
use httpoll.HeaderParser.UpgradeSamples.{
  upgrade_lines, got, connected, upgraded, keyed, asking, push_line-got, push_line-connected,
  push_line-upgraded, push_line-keyed, push_line-asking,
}
use httpoll.Base64.Decode.{decode}
use httpoll.Connection.{Connection, pop_line, websocket_key}
use httpoll.Connection.Stream.{stream}
use httpoll.Connection.Head.{Head, next, last}
use httpoll.Connection.Upgrading.{new_ws}
use httpoll.Response.Decimal.{decimal, decimal-IsNumeral}
use httpoll.Response.Reader.{read_reply}
use httpoll.Response.RoundTrip.{reply}
use httpoll.Server.{first_match, find_request_handler}
use httpoll.Server.Handling.{RequestHandler, Client, Env, kept, readable}
use httpoll.Server.Handling.SwitchingProtocols.{accept_fields}
use httpoll.Server.Handling.Handshake.{Asks, readable-handshake}

abbrev digest : Bytes
digest =
    0xb3 ∷ 0x7a ∷ 0x4f ∷ 0x2c ∷ 0xc0 ∷ 0x62 ∷ 0x4f ∷ 0x16 ∷ 0x90 ∷ 0xf6 ∷ 0x46 ∷ 0x06 ∷ 0xcf ∷ 0x38
    ∷ 0x59 ∷ 0x45 ∷ 0xb2 ∷ 0xbe ∷ 0xc4 ∷ 0xea ∷ []

abbrev env : Env
env = record {
  regex_match = equal;
  format = decimal;
  sha1 = λ xs. digest;
  hash = codes "........................................";
  past = no_bytes;
  fuel = 100;
  rounds = 2000;
  now = 7;
  header = [];
}

abbrev hookless : RequestHandler
hookless = record {
  http_handlers = [];
  ws_connect_hook = none;
  ws_ready_hook = none;
  ws_will_close_hook = none;
  ws_message_handler = none;
}

upgrade_lines-Head : Head 100 no_bytes initial upgrade_lines asking
unfolding pop_line
upgrade_lines-Head =
    next initial got asking (codes "GET /a HTTP/1.1\r\n") _ refl (omega arith) push_line-got refl (
      next got connected asking (codes "Connection: Upgrade\r\n") _ refl (omega arith)
        push_line-connected refl
        (next connected upgraded asking (codes "Upgrade: websocket\r\n") _ refl (omega arith)
          push_line-upgraded refl
          (next upgraded keyed asking (codes "Sec-WebSocket-Key: dGhlIHNhbXBsZSBub25jZQ==\r\n") _
            refl (omega arith) push_line-keyed refl
            (last keyed asking (codes "\r\n") refl (omega arith) push_line-asking refl))))

abbrev client : Client
client = record {
  conn = record {
    fd = some 5;
    buffer = [];
    ws_conn = none;
    partial_body = [];
    parser = initial;
    socket = record {
      incoming =
          chunk (codes "GET /a HTTP/1.1\r\nConnection: Upgrade\r\nUpgrade: web")
          ∷ chunk (codes "socket\r\nSec-WebSocket-Key: dGhlIHNhbXBsZSBub25jZQ==\r\n\r\n")
          ∷ [];
      outcomes = [];
      sent = [];
    };
  };
  on_data = none;
  will_close_hook = none;
}

asking-Asks : Asks asking
unfolding websocket_key get_header lookup equal
asking-Asks = record { upgrade_field = refl; connection_field = refl; http = refl; key = refl }

readable-handshake_example :
    (after : Connection) × (text : Bytes) × (accept : Bytes) × (readable env
        ((codes "/a", hookless) ∷ [])
        client
      ≡ some (kept (record { conn = after; on_data = none; will_close_hook = none })))
    × (after.ws_conn ≡ some (record (new_ws (websocket_key asking) 7) { ws_accept = accept }))
    × (decode accept ≡ some digest)
    × (after.socket.sent ≡ [] ++ text)
    × (read_reply 5 (text ++ [])
        ≡ some (
          reply decimal decimal-IsNumeral HttpVersion.http_1_1 101
              (codes "Switching Protocols")
              (accept_fields accept)
              [],
          [],
        ))
unfolding pop_line stream find_request_handler first_match equal
readable-handshake_example =
    readable-handshake env decimal-IsNumeral [] ((codes "/a", hookless) ∷ []) client asking
      upgrade_lines [] 5 (codes "/a") hookless refl refl refl upgrade_lines-Head refl refl refl
      (omega arith) (omega arith) (omega arith) refl asking-Asks refl refl refl (refl, omega arith)
      refl
