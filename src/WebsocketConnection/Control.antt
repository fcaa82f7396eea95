-- ===== src/WebsocketConnection/Control.antt =====
-- `Read` from the buffer on, and its answer to a ping.
use httpoll.Prelude.{
  pos, ℕ, ◌≡◌, refl, ap, ◌∙◌, true, false, some, [], ◌++◌, arith, ◌==◌, Bytes, length,
}
use httpoll.WebsocketUtils.{WsFrameType, pong, header_bytes}
use httpoll.Connection.{WebsocketConnection, Connection, write}
use httpoll.Connection.Writing.{write-all}
use httpoll.WebsocketConnection.{
  WsHandler, WsFrame, receive, ws_write, touch, on_ws, set_ws, clear_payload,
}

ws_write-all :
    (header : Bytes) (now : ℕ) (type : WsFrameType) (payload : Bytes) (c : Connection) (fd : ℕ)
    → c.fd ≡ some fd
    → c.socket.outcomes ≡ []
    → ws_write header now type payload c
      ≡ touch now (record c {
        socket = record c.socket {
          sent = (c.socket.sent ++ header_bytes header (length payload) type) ++ payload;
        };
      })
unfolding ws_write
ws_write-all header now type payload c fd e o =
    let front = header_bytes header (length payload) type in
    ap (λ r. touch now (write r.1 payload).1) (write-all c fd front e o)
    ∙ ap (λ r. touch now r.1)
        (write-all (record c { socket = record c.socket { sent = c.socket.sent ++ front } }) fd
          payload e o)

answered :
    (header : Bytes) (now : ℕ) (h : WsHandler) (f : WsFrame) (w : WebsocketConnection)
    (c : Connection)
    → f.opcode ≡ 0x9
    → receive header now h f w c ≡ (
      pos 0,
      clear_payload (
          ws_write header now pong f.payload
            (set_ws (record w { last_payload = w.last_payload ++ f.payload }) c)),
    )
unfolding receive
answered header now h f w c is_ping =
    let a : (f.opcode == 0x8) ≡ false = ground arith in
    let b : (f.opcode == 0x9) ≡ true = ground arith in rw (a, b) refl

-- A ping, on a connection whose writes nothing hinders, is answered by 0 and one pong frame with the same
-- payload, and all that was collected is cleared: the fragments of a message that the ping came
-- between are lost.
pub receive-ping :
    (header : Bytes) (now fd : ℕ) (h : WsHandler) (f : WsFrame) (w : WebsocketConnection)
    (c : Connection)
    → f.opcode ≡ 0x9
    → c.fd ≡ some fd
    → c.socket.outcomes ≡ []
    → let (ret, d) = receive header now h f w c in
      (ret ≡ pos 0)
      × (d.socket.sent
          ≡ (c.socket.sent ++ header_bytes header (length f.payload) pong) ++ f.payload)
      × (d.ws_conn ≡ some (record w { last_payload = []; last_io_time = now }))
unfolding touch on_ws clear_payload
receive-ping header now fd h f w c is_ping e o =
    let c' = set_ws (record w { last_payload = w.last_payload ++ f.payload }) c in
    let whole =
      answered header now h f w c is_ping
      ∙ ap (λ d. (pos 0, clear_payload d)) (ws_write-all header now pong f.payload c' fd e o) in
    (ap (λ r. r.0) whole, ap (λ r. r.1.socket.sent) whole, ap (λ r. r.1.ws_conn) whole)
