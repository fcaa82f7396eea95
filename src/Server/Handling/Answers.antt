-- ===== src/Server/Handling/Answers.antt =====
-- What a request that is looked up leads to.
use httpoll.Prelude.{
  ℤ, pos, ℕ, zero, suc, ◌≤◌, ◌≡◌, refl, ap, ◌∙◌, Bool, true, false, none, some, List, [], ◌∷◌,
  arith, Bytes, codes, length, get_elem?,
}
use httpoll.Method.{HttpMethod}
use httpoll.Version.{HttpVersion}
use httpoll.Connection.{
  Connection, is_empty, websocket_key, should_upgrade_websocket, upgrade_to_websocket, write,
}
use httpoll.Connection.Upgrading.{new_ws, upgrade_to_websocket-key, should_upgrade_websocket-plain}
use httpoll.WebsocketConnection.{set_ws, get_ws_accept, get_ws_accept_by_key}
use httpoll.Response.{make_response}
use httpoll.Response.Status.{make_response_lem}
use httpoll.Server.{find_request_handler}
use httpoll.Server.Handling.{
  RequestHandler, Client, Env, kept, closes, method_index, call_handler, not_found, found,
  upgrade_client, switch_protocol, dispatch,
}

-- There is always a response.
response :
    (format : ℕ → Bytes) (status : ℤ) (version : HttpVersion) (fields : List (Bytes × Bytes))
    → (rsp : Bytes) × (make_response format status version fields [] ≡ some rsp)
response format status version fields =
    let (code, message, known, chosen, e) = make_response_lem format status version fields [] in
    (_, e)

get_elem?-none : {A : Type 0} (xs : List A) (i : ℕ) → length xs ≤ i → get_elem? xs i ≡ none
get_elem?-none [] i h = refl
get_elem?-none (x ∷ xs) zero h = absurd (omega arith)
get_elem?-none (x ∷ xs) (suc i) h = get_elem?-none xs i (omega arith)

module _ (env : Env) (handlers : List (Bytes × RequestHandler)) (is_final : Bool) (c : Client) where
  pub dispatch-found :
      (k : Bytes) (h : RequestHandler)
      → find_request_handler env.regex_match c.conn.parser.uri handlers ≡ some (k, h)
      → dispatch env handlers is_final c ≡ found env h is_final c
  unfolding dispatch
  dispatch-found k h q = rw (q, dispatch) refl

  -- For a URI that no pattern matches there is a 404 response, never an exception: it is written to
  -- the connection, which is then closed.
  pub dispatch-not_found :
      find_request_handler env.regex_match c.conn.parser.uri handlers ≡ none
      → (rsp : Bytes) × (make_response env.format (pos 404) c.conn.parser.version [] [] ≡ some rsp)
        × (dispatch env handlers is_final c
            ≡ some (closes (record c { conn = (write c.conn rsp).1 })))
  unfolding dispatch not_found
  dispatch-not_found q =
      let (rsp, e) = response env.format (pos 404) c.conn.parser.version [] in
      (rsp, e, rw (q, dispatch) (rw (e, not_found) refl))

  -- A request whose method was not recognised, for a pattern that matches, and that is no upgrade: the
  -- table has an entry for each method but that one, so the code reads behind its end.
  pub dispatch-unknown_method :
      (k : Bytes) (h : RequestHandler)
      → find_request_handler env.regex_match c.conn.parser.uri handlers ≡ some (k, h)
      → should_upgrade_websocket c.conn ≡ false
      → c.conn.parser.method ≡ HttpMethod.unknown
      → length h.http_handlers ≡ 9
      → dispatch env handlers is_final c ≡ none
  unfolding found call_handler
  dispatch-unknown_method k h q no_upgrade unknown nine =
      let behind : get_elem? h.http_handlers (method_index c.conn.parser.method) ≡ none =
        ap (λ m. get_elem? h.http_handlers (method_index m)) unknown
        ∙ get_elem?-none h.http_handlers 9 (omega arith) in
      dispatch-found k h q ∙ rw (no_upgrade, found) (rw behind refl)

  module _ (k : Bytes) (h : RequestHandler)
      (matches : find_request_handler env.regex_match c.conn.parser.uri handlers ≡ some (k, h))
      (upgrades : should_upgrade_websocket c.conn ≡ true) where
    abbrev key : Bytes
    key = websocket_key c.conn.parser

    dispatch-upgrades :
        (ok : Bool) (c' : Connection)
        → upgrade_to_websocket env.now c.conn ≡ (ok, c')
        → dispatch env handlers is_final c
          ≡ upgrade_client env h c.conn.parser.uri c'.ws_conn (record c { conn = c' })
    unfolding found
    dispatch-upgrades ok c' e =
        dispatch-found k h matches
        ∙ rw (upgrades, found)
            (ap (λ r. upgrade_client env h c.conn.parser.uri r.1.ws_conn (record c { conn = r.1 }))
              e)

    -- The handshake: for a pattern that matches, with a key and no hooks, the connection is kept, as a
    -- WebSocket one with the message handler of the pattern; its record holds the key and the accept
    -- text made from it, and a 101 response with that text has been written, never an exception.
    pub dispatch-handshake :
        is_empty key ≡ false
        → h.ws_connect_hook ≡ none
        → h.ws_ready_hook ≡ none
        → let accept = get_ws_accept_by_key env.sha1 env.hash key in
          let w = record (new_ws key env.now) { ws_accept = accept } in
          (rsp : Bytes) × (make_response env.format
              (pos 101)
              c.conn.parser.version
              ((codes "Connection", codes "Upgrade")
                ∷ (codes "Sec-WebSocket-Accept", accept)
                ∷ (codes "Upgrade", codes "websocket")
                ∷ [])
              []
            ≡ some rsp)
          × (dispatch env handlers is_final c
              ≡ some (
                  kept (record {
                    conn = (write (set_ws w c.conn) rsp).1;
                    on_data = h.ws_message_handler;
                    will_close_hook = h.ws_will_close_hook;
                  })))
    unfolding upgrade_client switch_protocol get_ws_accept
    dispatch-handshake e no_connect no_ready =
        let plain = should_upgrade_websocket-plain c.conn upgrades in
        let accept = get_ws_accept_by_key env.sha1 env.hash key in
        let (rsp, r) = response env.format (pos 101) c.conn.parser.version (
          (codes "Connection", codes "Upgrade")
          ∷ (codes "Sec-WebSocket-Accept", accept)
          ∷ (codes "Upgrade", codes "websocket")
          ∷ []) in
        (
          rsp,
          r,
          dispatch-upgrades true _ (upgrade_to_websocket-key env.now c.conn plain e)
              ∙ rw (no_connect, upgrade_client) (rw (r, switch_protocol) (rw no_ready refl)),
        )
