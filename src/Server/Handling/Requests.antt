-- ===== src/Server/Handling/Requests.antt =====
-- A request on a connection, from its bytes to the user's handler.
mod Tests
use httpoll.Prelude.{
  ℤ, ℕ, ◌+◌, ◌≤◌, ◌<◌, ◌≡◌, refl, sym, ap, ◌∙◌, Bool, true, false, none, some, List, [], ◌∷◌, ◌++◌,
  Bytes, length, get_elem?, arith, Bool-cases, inl, inr,
}
use httpoll.HeaderParser.Types.{HttpHeaderParser, done}
use httpoll.Connection.{
  Connection, pop_line, pop_body, is_body, complete, failed, state_ret, small_memory,
  should_upgrade_websocket, process_data_in, has_ws,
}
use httpoll.Connection.Reading.{reads_left}
use httpoll.Connection.Untouched.{link, process_data_in-link}
use httpoll.Connection.Stream.{stream}
use httpoll.Connection.Head.{Head, flat}
use httpoll.Connection.Request.{IsData, process_data_in-lines}
use httpoll.Server.{find_request_handler}
use httpoll.Server.Handling.Answers.{dispatch-found}
use httpoll.Server.Handling.{
  Handler, RequestHandler, Client, Env, closes, outcome, method_index, readable, readable_as,
  processed, dispatch, found, call_handler,
}

no_upgrade :
    (c : Connection) → c.parser.upgrade_websocket ≡ false → should_upgrade_websocket c ≡ false
unfolding should_upgrade_websocket
no_upgrade c e = elim (Bool-cases (has_ws c.ws_conn)) [ inl t ↦ rw t refl | inr t ↦ rw (t, e) refl ]

-- A whole request on a plain connection.
pub readable-complete :
    (env : Env) (handlers : List (Bytes × RequestHandler)) (c : Client) (d : Connection)
    → c.conn.ws_conn ≡ none
    → process_data_in env.rounds env.fuel env.past c.conn ≡ some (complete, d)
    → readable env handlers c ≡ dispatch env handlers true (record c { conn = d })
unfolding readable readable_as processed
readable-complete env handlers c d plain full =
    ap (λ o. readable_as env handlers o c) plain ∙ rw (full, readable_as) refl

-- The end of the stream, or an error.
pub readable-failed :
    (env : Env) (handlers : List (Bytes × RequestHandler)) (c : Client) (d : Connection)
    → c.conn.ws_conn ≡ none
    → process_data_in env.rounds env.fuel env.past c.conn ≡ some (failed, d)
    → readable env handlers c ≡ some (closes (record c { conn = d }))
unfolding readable readable_as processed
readable-failed env handlers c d plain ended =
    ap (λ o. readable_as env handlers o c) plain ∙ rw (ended, readable_as) refl

module _ (env : Env) (handlers : List (Bytes × RequestHandler)) (c : Client) (q : HttpHeaderParser)
    (lines : List Bytes) (rest : Bytes) where
  -- From the bytes to the handler: on a plain connection whose stream holds the lines of a request
  -- without a body, in whatever segments, and what the parser makes of them has a method with a handler
  -- under a pattern that matches, and does not ask for an upgrade: `Poll` calls that handler once, with
  -- the target and `is_final`, on the connection with nothing written, and closes the connection exactly
  -- if it says -1.
  pub readable-request :
      (k : Bytes) (h : RequestHandler) (handler : Handler)
      → c.conn.ws_conn ≡ none
      → Head env.fuel env.past c.conn.parser lines q
      → stream c.conn ≡ flat lines ++ rest
      → pop_line c.conn.buffer ≡ none
      → is_body c.conn.parser.state ≡ false
      → IsData c.conn.socket.incoming
      → length c.conn.buffer ≤ small_memory
      → small_memory + reads_left c.conn.socket.incoming < env.rounds
      → q.state ≡ done
      → q.upgrade_websocket ≡ false
      → find_request_handler env.regex_match q.uri handlers ≡ some (k, h)
      → get_elem? h.http_handlers (method_index q.method) ≡ some (some handler)
      → (d : Connection) × (d.parser ≡ q)
        × (link d ≡ link c.conn)
        × (stream d ≡ rest)
        × (let (n, after) = handler d q.uri (pop_body d) true in
            readable env handlers c ≡ some (outcome n (record c { conn = after })))
  unfolding found call_handler state_ret
  readable-request k h handler plain head text part no_body comes small rounds ends flag match
        entry =
      let (d, parsed, parser, left) =
        process_data_in-lines env.fuel env.past q rest env.rounds c.conn lines head text part
          no_body comes small rounds in
      let full : process_data_in env.rounds env.fuel env.past c.conn ≡ some (complete, d) =
        parsed ∙ ap (λ s. some (state_ret s, d)) ends in
      let c' = record c { conn = d } in
      let match' : find_request_handler env.regex_match d.parser.uri handlers ≡ some (k, h) =
        ap (λ p. find_request_handler env.regex_match p.uri handlers) parser ∙ match in
      let entry' : get_elem? h.http_handlers (method_index d.parser.method) ≡ some (some handler) =
        ap (λ p. get_elem? h.http_handlers (method_index p.method)) parser ∙ entry in
      let plain' : should_upgrade_websocket d ≡ false =
        no_upgrade d (ap (λ p. p.upgrade_websocket) parser ∙ flag) in
      let called : found env h true c' ≡ call_handler (some (some handler)) true c' =
        rw (plain', found) (rw entry' refl) in
      (
        d,
        parser,
        process_data_in-link env.rounds env.fuel env.past c.conn d complete full,
        left,
        readable-complete env handlers c d plain full
            ∙ dispatch-found env handlers true c' k h match'
            ∙ called
            ∙ ap
                (λ p.
                  let (n, after) = handler d p.uri (pop_body d) true in
                  some (outcome n (record c { conn = after })))
                parser,
      )
