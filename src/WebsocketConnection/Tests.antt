-- ===== src/WebsocketConnection/Tests.antt =====
-- The theorems on `WebsocketConnection` and its frames, on small frames.
use httpoll.Prelude.{
  ℤ, pos, ℕ, ◌*◌, ◌^◌, ◌≡◌, refl, true, false, some, [], ◌∷◌, ◌++◌, arith, Bytes, codes,
}
use httpoll.WebsocketUtils.{text, frame_code, header_bytes, pong}
use httpoll.WebsocketUtils.Header.{length_bytes}
use httpoll.HeaderParser.Types.{initial}
use httpoll.Connection.{WebsocketConnection, Connection}
use httpoll.WebsocketConnection.{
  WsFrame, big_endian, payload_length, frame_at, unmask, read_frame, clear_payload, server_ping,
  receive, get_ws_accept_by_key,
}
use httpoll.WebsocketConnection.Frames.{read_frame-header_bytes}
use httpoll.WebsocketConnection.Messages.{receive_all, receive_all-message}
use httpoll.WebsocketConnection.Pinging.{server_ping-server_ping}
use httpoll.Socket.{chunk}
use httpoll.Base64.{base64_encode}
use httpoll.WebsocketConnection.Control.{receive-ping}

abbrev key : Bytes
key = 1 ∷ 2 ∷ 3 ∷ 4 ∷ []

-- The masked frame of RFC 6455, section 5.7, that holds `Hello`.
read_frame_hello :
    read_frame (0x81 ∷ 0x85 ∷ 0x37 ∷ 0xfa ∷ 0x21 ∷ 0x3d ∷ 0x7f ∷ 0x9f ∷ 0x4d ∷ 0x51 ∷ 0x58 ∷ [])
    ≡ some (record { opcode = 1; fin = true; payload = codes "Hello" })
unfolding read_frame payload_length frame_at unmask big_endian
read_frame_hello = refl

read_frame-header_bytes_example :
    read_frame (header_bytes [] 5 text ++ (codes "Hello" ++ codes "more"))
    ≡ some (record { opcode = frame_code text; fin = true; payload = codes "Hello" })
read_frame-header_bytes_example =
    read_frame-header_bytes [] text (codes "Hello") (codes "more") (omega arith)

abbrev ws : WebsocketConnection
ws = record { ws_key = codes "k"; ws_accept = []; last_payload = []; last_io_time = 0 }

abbrev conn : Connection
conn = record {
  fd = some 5;
  buffer = [];
  ws_conn = some ws;
  partial_body = [];
  parser = initial;
  socket = record { incoming = []; outcomes = []; sent = [] };
}

-- A handler that leaves what it was given in the place of the body.
abbrev keep : ℕ → Bytes → Connection → ℤ × Connection
keep opcode payload c = (pos 0, record c { partial_body = payload })

abbrev hel : WsFrame
hel = record { opcode = 1; fin = false; payload = codes "Hel" }

abbrev lo : WsFrame
lo = record { opcode = 0; fin = true; payload = codes "lo" }

receive_all-message_example : receive_all [] 3 (some keep) (hel ∷ lo ∷ []) ws conn ≡ (
  pos 1 ∷ pos 0 ∷ [],
  clear_payload (record conn {
    ws_conn = some (record ws { last_payload = codes "Hello" });
    partial_body = codes "Hello";
  }),
)
receive_all-message_example =
    receive_all-message [] 3 keep (hel ∷ []) lo ws conn (ground arith) (ground arith) refl

ping_sent : (server_ping [] (20 * 10 ^ 9) ws conn).0 ≡ true
unfolding server_ping
ping_sent = refl

server_ping-server_ping_example :
    let d = (server_ping [] (20 * 10 ^ 9) ws conn).1 in
    let ws' = record ws { last_io_time = 20 * 10 ^ 9 } in
    (d.ws_conn ≡ some ws') × (server_ping [] (25 * 10 ^ 9) ws' d ≡ (false, d))
server_ping-server_ping_example =
    server_ping-server_ping [] [] (20 * 10 ^ 9) (25 * 10 ^ 9) ws conn refl ping_sent (omega arith)

-- A frame with the beginning of another behind it.
abbrev hello_frame : Bytes
hello_frame =
    (0x81 ∷ length_bytes true 5) ++ (key ++ (unmask key 0 (codes "Hello") ++ codes "more"))

abbrev frame_comes : Connection
frame_comes = record conn {
  socket = record { incoming = chunk hello_frame ∷ []; outcomes = []; sent = [] };
}

abbrev frame_buffered : Connection
frame_buffered = record conn { buffer = hello_frame }

abbrev ping_frame : WsFrame
ping_frame = record { opcode = 9; fin = true; payload = codes "hi" }

receive-ping_example :
    let (ret, d) =
      receive [] 3 (some keep) ping_frame (record ws { last_payload = codes "Hel" }) conn in
    (ret ≡ pos 0)
    × (d.socket.sent ≡ ([] ++ header_bytes [] 2 pong) ++ codes "hi")
    × (d.ws_conn ≡ some (record ws { last_payload = []; last_io_time = 3 }))
receive-ping_example =
    receive-ping [] 3 5 (some keep) ping_frame (record ws { last_payload = codes "Hel" }) conn refl
      refl refl

-- The digest of RFC 6455, section 1.3.
abbrev sample_digest : Bytes → Bytes
sample_digest given =
    0xb3 ∷ 0x7a ∷ 0x4f ∷ 0x2c ∷ 0xc0 ∷ 0x62 ∷ 0x4f ∷ 0x16 ∷ 0x90 ∷ 0xf6 ∷ 0x46 ∷ 0x06 ∷ 0xcf ∷ 0x38
    ∷ 0x59 ∷ 0x45 ∷ 0xb2 ∷ 0xbe ∷ 0xc4 ∷ 0xea ∷ []

abbrev sample_key : Bytes
sample_key = codes "dGhlIHNhbXBsZSBub25jZQ=="

abbrev hash_array : Bytes
hash_array = codes "........................................"

sample_accept :
    get_ws_accept_by_key sample_digest hash_array sample_key ≡ codes "s3pPLMBiTxaQ9kYGzzhZRbK+xOo="
unfolding get_ws_accept_by_key base64_encode
sample_accept = refl
