-- ===== src/WebsocketConnection/Messages.antt =====
-- `WebsocketConnection::Read` over the frames of a message, and what the control frames do.
use httpoll.Prelude.{
  ℤ, pos, ℕ, ◌≡◌, refl, sym, ap, ◌∙◌, true, false, none, some, List, [], ◌∷◌, ◌++◌, ◌==◌, Bytes,
  append_assoc, All,
}
use httpoll.Connection.{WebsocketConnection, Connection}
use httpoll.WebsocketConnection.{WsFrame, set_ws, WsHandler, receive, deliver, clear_payload}

abbrev pub payloads : List WsFrame → Bytes
payloads [] = []
payloads (f ∷ fs) = f.payload ++ payloads fs

-- A frame of a message: neither a close, nor a ping, nor a pong.
abbrev pub IsData : WsFrame → Type 0
IsData f = ((f.opcode == 0x8) ≡ false) × ((f.opcode == 0x9) ≡ false) × ((f.opcode == 0xa) ≡ false)

-- A frame of a message that is not its last.
abbrev pub IsFragment : WsFrame → Type 0
IsFragment f = IsData f × (f.fin ≡ false)

-- The frames received one after another: the results, and the connection after them.
pub receive_all :
    Bytes → ℕ → WsHandler → List WsFrame → WebsocketConnection → Connection → List ℤ × Connection
unfolding receive
receive_all header now on_data [] w c = ([], c)
receive_all header now on_data (f ∷ fs) w c =
    let (ret, c') = receive header now on_data f w c in
    let w' : WebsocketConnection = elim c'.ws_conn [ none ↦ w | some w' ↦ w' ] in
    let (rets, c'') = receive_all header now on_data fs w' c' in (ret ∷ rets, c'')

-- The results of the fragments.
abbrev pub ones : List WsFrame → List ℤ
ones [] = []
ones (f ∷ fs) = pos 1 ∷ ones fs

-- The record with more payload collected.
abbrev pub collected : WebsocketConnection → Bytes → WebsocketConnection
collected w xs = record w { last_payload = w.last_payload ++ xs }

module _ (header : Bytes) (now : ℕ) where
  receive-fragment :
      (h : WsHandler) (f : WsFrame) (w : WebsocketConnection) (c : Connection)
      → IsFragment f
      → receive header now h f w c ≡ (pos 1, set_ws (collected w f.payload) c)
  unfolding receive
  receive-fragment h f w c ((a, b, d), e) = rw (a, b, d, e) refl

  receive-last :
      (on_data : ℕ → Bytes → Connection → ℤ × Connection) (g : WsFrame) (w : WebsocketConnection)
      (c : Connection)
      → IsData g
      → g.fin ≡ true
      → let (ret, c') =
          on_data g.opcode (w.last_payload ++ g.payload) (set_ws (collected w g.payload) c) in
        receive header now (some on_data) g w c ≡ (ret, clear_payload c')
  unfolding receive deliver
  receive-last on_data g w c (a, b, d) e = rw (a, b, d, e) refl

  -- The result on a handler that is given `text`, behind the fragments `fs` and one more.
  abbrev handled :
      (ℕ → Bytes → Connection → ℤ × Connection)
      → List WsFrame
      → WsFrame
      → WebsocketConnection
      → Connection
      → Bytes
      → List ℤ × Connection
  handled on_data fs g w c text =
      let (ret, c') = on_data g.opcode text (set_ws (record w { last_payload = text }) c) in
      (pos 1 ∷ (ones fs ++ ret ∷ []), clear_payload c')

  -- The frames of one message: any number of fragments, each answered with 1, and then the last one.
  -- The handler is called once, with the whole payload in order behind what was collected before,
  -- and with the opcode of the last frame; its result is the answer, and what is collected is
  -- cleared.
  pub receive_all-message :
      (on_data : ℕ → Bytes → Connection → ℤ × Connection) (fs : List WsFrame) (g : WsFrame)
      (w : WebsocketConnection) (c : Connection)
      → All IsFragment fs
      → IsData g
      → g.fin ≡ true
      → let payload = payloads fs ++ g.payload in
        let (ret, c') =
          on_data g.opcode (w.last_payload ++ payload) (set_ws (collected w payload) c) in
        receive_all header now (some on_data) (fs ++ g ∷ []) w c
        ≡ (ones fs ++ ret ∷ [], clear_payload c')
  unfolding receive_all
  receive_all-message on_data [] g w c v d e = rw (receive-last on_data g w c d e) refl
  receive_all-message on_data (f ∷ fs) g w c (v, vs) d e =
      let later =
        receive_all-message on_data fs g (collected w f.payload) (set_ws (collected w f.payload) c)
          vs d e in
      let text : (w.last_payload ++ f.payload) ++ (payloads fs ++ g.payload)
          ≡ w.last_payload ++ (payloads (f ∷ fs) ++ g.payload) =
        append_assoc w.last_payload f.payload (payloads fs ++ g.payload)
        ∙ ap (λ t. w.last_payload ++ t) (sym (append_assoc f.payload (payloads fs) g.payload)) in
      rw (receive-fragment (some on_data) f w c v)
        (ap (λ r. (pos 1 ∷ r.0, r.1)) later ∙ ap (handled on_data fs g w c) text)
