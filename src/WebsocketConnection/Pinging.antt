-- ===== src/WebsocketConnection/Pinging.antt =====
-- `ServerPing`: at most one ping in the time that a connection may be idle.
use httpoll.Prelude.{
  ℕ, ◌+◌, ◌≤◌, ◌≡◌, refl, sym, ap, ◌∙◌, true, false, some, [], arith, ltb, Bytes, length,
  Bool-cases, inl, inr,
}
use httpoll.WebsocketUtils.{WsFrameType, ping, header_bytes}
use httpoll.Connection.{WebsocketConnection, Connection, write}
use httpoll.Connection.Writing.{write-SentPart}
use httpoll.WebsocketConnection.{server_ping, ws_write, touch, on_ws, idle_limit}

-- After the writes, the time is that of the write.
ws_write-last_io_time :
    (header : Bytes) (now : ℕ) (type : WsFrameType) (payload : Bytes) (c : Connection)
    (w : WebsocketConnection)
    → c.ws_conn ≡ some w
    → (ws_write header now type payload c).ws_conn ≡ some (record w { last_io_time = now })
unfolding ws_write touch on_ws
ws_write-last_io_time header now type payload c w e =
    let c' = (write c (header_bytes header (length payload) type)).1 in
    let (a, b, d, g, first) = write-SentPart c (header_bytes header (length payload) type) in
    let (a', b', d', g', second) = write-SentPart c' payload in
    ap (on_ws (λ w. record w { last_io_time = now })) (second ∙ first ∙ e)

module _ (header : Bytes) (now : ℕ) (w : WebsocketConnection) (c : Connection) where
  idle :
      ltb (w.last_io_time + idle_limit) now ≡ true
      → server_ping header now w c ≡ (true, touch now (ws_write header now ping [] c))
  unfolding server_ping
  idle t = rw t refl

  busy : ltb (w.last_io_time + idle_limit) now ≡ false → server_ping header now w c ≡ (false, c)
  unfolding server_ping
  busy t = rw t refl

-- A connection that has just been pinged is not pinged again before HPL_ENABLE_PING_PONG seconds have
-- passed without a frame: when `ServerPing` returns true, the record holds the time of the call,
-- and within the limit a second call returns false and does nothing.
pub server_ping-server_ping :
    (header header' : Bytes) (now later : ℕ) (w : WebsocketConnection) (c : Connection)
    → c.ws_conn ≡ some w
    → (server_ping header now w c).0 ≡ true
    → later ≤ now + idle_limit
    → let d = (server_ping header now w c).1 in
      let w' = record w { last_io_time = now } in
      (d.ws_conn ≡ some w') × (server_ping header' later w' d ≡ (false, d))
unfolding touch on_ws
server_ping-server_ping header header' now later w c e sent soon =
    elim (Bool-cases (ltb (w.last_io_time + idle_limit) now)) [
      | inr t ↦ cc (sym sent ∙ ap (λ r. r.0) (busy header now w c t))
      | inl t ↦
          let w' = record w { last_io_time = now } in
          let quiet : ltb (now + idle_limit) later ≡ false = ground arith in
          (
            ap (λ r. r.1.ws_conn) (idle header now w c t)
                ∙ ap (on_ws (λ v. record v { last_io_time = now }))
                    (ws_write-last_io_time header now ping [] c w e),
            busy header' later w' (server_ping header now w c).1 quiet,
          )
    ]
