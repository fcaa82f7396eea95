-- ===== src/Server/Handling/Handshake.antt =====
-- A WebSocket handshake, from its bytes to what the client reads.
mod Tests
use httpoll.Prelude.{
  ℤ, pos, ℕ, ◌+◌, ◌≤◌, ◌<◌, ◌≡◌, refl, sym, ap, ap₂, ◌∙◌, Bool, true, false, none, some, List, [],
  ◌∷◌, ◌++◌, ◌==◌, Bytes, codes, length, arith, All, All-map, IsByte,
}
use mathlib.Core.Path.{subst}
use httpoll.HeaderParser.Types.{HttpHeaderParser, done, equal}
use httpoll.Version.{HttpVersion}
use httpoll.Base64.Sextets.{IsText}
use httpoll.Base64.Decode.{decode}
use httpoll.Connection.{
  Connection, WebsocketConnection, pop_line, is_body, complete, state_ret, small_memory, write,
  is_empty, is_http_1, websocket_key, should_upgrade_websocket, process_data_in,
}
use httpoll.Connection.Reading.{reads_left}
use httpoll.Connection.Stream.{stream}
use httpoll.Connection.Head.{Head, flat}
use httpoll.Connection.Request.{IsData, process_data_in-lines}
use httpoll.Connection.Untouched.{link, process_data_in-link}
use httpoll.Connection.Upgrading.{new_ws}
use httpoll.Connection.Writing.{write-all}
use httpoll.WebsocketConnection.{set_ws, guid, get_ws_accept_by_key}
use httpoll.WebsocketConnection.Accept.{get_ws_accept_by_key-decode}
use httpoll.Response.{make_response}
use httpoll.Response.Fields.{IsNumeral, IsField}
use httpoll.Response.Reader.{Without, read_reply}
use httpoll.Response.RoundTrip.{reply, read_reply-make_response}
use httpoll.Response.Texts.{status_listed, message_of-switching_protocols}
use httpoll.Server.{find_request_handler}
use httpoll.Server.Handling.Answers.{dispatch-handshake}
use httpoll.Server.Handling.Requests.{readable-complete}
use httpoll.Server.Handling.SwitchingProtocols.{accept_fields, switching}
use httpoll.Server.Handling.{RequestHandler, Client, Env, kept, dispatch, readable}

-- What a parser says that asks for an upgrade, with a key.
pub record Asks (q : HttpHeaderParser) : Type 0 where
  pub upgrade_field : q.upgrade_websocket ≡ true
  pub connection_field : q.connection_flags.upgrade ≡ true
  pub http : is_http_1 q.version ≡ true
  pub key : is_empty (websocket_key q) ≡ false

Asks-upgrades :
    (c : Connection) → c.ws_conn ≡ none → Asks c.parser → should_upgrade_websocket c ≡ true
unfolding should_upgrade_websocket
Asks-upgrades c plain asks = rw (plain, asks.upgrade_field, asks.connection_field, asks.http) refl

module _ (env : Env) (numerals : (n : ℕ) → IsNumeral (env.format n) n) (more : Bytes) where
  -- What the upgrade leaves.
  record Switched (before after : Connection) (version : HttpVersion) (key : Bytes) : Type 0 where
    text : Bytes
    accept : Bytes
    record_of : after.ws_conn ≡ some (record (new_ws key env.now) { ws_accept = accept })
    digest : decode accept ≡ some (env.sha1 (key ++ guid))
    sends : after.socket.sent ≡ before.socket.sent ++ text
    reads :
        read_reply 5 (text ++ more)
        ≡ some (
          reply env.format numerals version 101
              (codes "Switching Protocols")
              (accept_fields accept)
              [],
          more,
        )

  abbrev client_of : RequestHandler → Connection → Client
  client_of h d = record {
    conn = d;
    on_data = h.ws_message_handler;
    will_close_hook = h.ws_will_close_hook;
  }

  dispatch-Switched :
      (handlers : List (Bytes × RequestHandler)) (c : Client) (fd : ℕ) (k : Bytes)
      (h : RequestHandler)
      → c.conn.ws_conn ≡ none
      → c.conn.fd ≡ some fd
      → c.conn.socket.outcomes ≡ []
      → Asks c.conn.parser
      → find_request_handler env.regex_match c.conn.parser.uri handlers ≡ some (k, h)
      → h.ws_connect_hook ≡ none
      → h.ws_ready_hook ≡ none
      → let digest = env.sha1 (websocket_key c.conn.parser ++ guid) in
        (length digest ≡ 20) × All IsByte digest
        → length env.hash ≡ 40
        → (after : Connection) × (dispatch env handlers true c ≡ some (kept (client_of h after)))
          × Switched c.conn after c.conn.parser.version (websocket_key c.conn.parser)
  dispatch-Switched handlers c fd k h plain connected free asks match no_connect no_ready
        (twenty, bytes) forty =
      let key = websocket_key c.conn.parser in
      let accept = get_ws_accept_by_key env.sha1 env.hash key in
      let w = record (new_ws key env.now) { ws_accept = accept } in
      let (digest, size, letters) =
        get_ws_accept_by_key-decode env.sha1 env.hash key twenty bytes forty in
      let (rsp, made, e) =
        dispatch-handshake env handlers true c k h match (Asks-upgrades c.conn plain asks) asks.key
          no_connect no_ready in
      let written = write-all (set_ws w c.conn) fd rsp connected free in
      (
        (write (set_ws w c.conn) rsp).1,
        e,
        record {
          text = rsp;
          accept = accept;
          record_of = ap (λ x. x.1.ws_conn) written;
          digest = digest;
          sends = ap (λ x. x.1.socket.sent) written;
          reads = switching env numerals more c.conn.parser.version accept rsp letters made;
        },
      )

  module _ (handlers : List (Bytes × RequestHandler)) (c : Client) (q : HttpHeaderParser)
      (lines : List Bytes) (rest : Bytes) where
    -- The handshake from the bytes: on a plain connection that takes what is written, whose stream holds the
    -- lines of a request in whatever segments, and what the parser makes of them asks for an upgrade with a
    -- key, under a pattern that matches and has no hooks; where fmt prints numbers in decimal and SHA1 gives
    -- 20 bytes: the connection is kept, with the pattern's handlers and a WebSocket record with the key; what
    -- is sent reads, whatever follows, as a 101 response of the request's version, with Connection and
    -- Upgrade fields and a Sec-WebSocket-Accept that decodes by RFC 4648 to the digest of the key with the
    -- GUID, which the record holds as well.
    pub readable-handshake :
        (fd : ℕ) (k : Bytes) (h : RequestHandler)
        → c.conn.ws_conn ≡ none
        → c.conn.fd ≡ some fd
        → c.conn.socket.outcomes ≡ []
        → Head env.fuel env.past c.conn.parser lines q
        → stream c.conn ≡ flat lines ++ rest
        → pop_line c.conn.buffer ≡ none
        → is_body c.conn.parser.state ≡ false
        → IsData c.conn.socket.incoming
        → length c.conn.buffer ≤ small_memory
        → small_memory + reads_left c.conn.socket.incoming < env.rounds
        → q.state ≡ done
        → Asks q
        → find_request_handler env.regex_match q.uri handlers ≡ some (k, h)
        → h.ws_connect_hook ≡ none
        → h.ws_ready_hook ≡ none
        → (length (env.sha1 (websocket_key q ++ guid)) ≡ 20)
          × All IsByte (env.sha1 (websocket_key q ++ guid))
        → length env.hash ≡ 40
        → let key = websocket_key q in
          (after : Connection) × (text : Bytes) × (accept : Bytes) × (readable env handlers c
            ≡ some (
                kept (record {
                  conn = after;
                  on_data = h.ws_message_handler;
                  will_close_hook = h.ws_will_close_hook;
                })))
          × (after.ws_conn ≡ some (record (new_ws key env.now) { ws_accept = accept }))
          × (decode accept ≡ some (env.sha1 (key ++ guid)))
          × (after.socket.sent ≡ c.conn.socket.sent ++ text)
          × (read_reply 5 (text ++ more)
              ≡ some (
                reply env.format numerals q.version 101
                    (codes "Switching Protocols")
                    (accept_fields accept)
                    [],
                more,
              ))
    unfolding state_ret
    readable-handshake fd k h plain connected free head text part no_body comes small rounds ends
          asks match no_connect no_ready digests forty =
        let (d, parsed, parser, left) =
          process_data_in-lines env.fuel env.past q rest env.rounds c.conn lines head text part
            no_body comes small rounds in
        let full : process_data_in env.rounds env.fuel env.past c.conn ≡ some (complete, d) =
          parsed ∙ ap (λ s. some (state_ret s, d)) ends in
        let same = process_data_in-link env.rounds env.fuel env.past c.conn d complete full in
        let back = sym parser in
        let (after, e, s) =
          dispatch-Switched handlers (record c { conn = d }) fd k h (ap (λ l. l.1) same ∙ plain)
            (ap (λ l. l.0) same ∙ connected) (ap (λ l. l.2) same ∙ free) (subst Asks back asks)
            (subst (λ p. find_request_handler env.regex_match p.uri handlers ≡ some (k, h)) back
              match)
            no_connect no_ready
            (subst
              (λ p.
                (length (env.sha1 (websocket_key p ++ guid)) ≡ 20)
                × All IsByte (env.sha1 (websocket_key p ++ guid)))
              back digests)
            forty in
        (
          after,
          s.text,
          s.accept,
          readable-complete env handlers c d plain full ∙ e,
          s.record_of
              ∙ ap (λ p. some (record (new_ws (websocket_key p) env.now) { ws_accept = s.accept }))
                  parser,
          s.digest ∙ ap (λ p. some (env.sha1 (websocket_key p ++ guid))) parser,
          s.sends ∙ ap (λ l. l.3 ++ s.text) same,
          s.reads
              ∙ ap
                  (λ p. some (
                    reply env.format numerals p.version 101 (codes "Switching Protocols")
                        (accept_fields s.accept) [],
                    more,
                  ))
                  parser,
        )
