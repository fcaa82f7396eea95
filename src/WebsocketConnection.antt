-- ===== src/WebsocketConnection.antt =====
-- src/hpl_websocket_connection.h and src/hpl_websocket_connection.cc: `WebsocketConnection`, in the
-- build of src/Makefile (HPL_ENABLE_PING_PONG=10). `header` is the uninitialised array of
-- `MakeWebsocketHeader`, `now` what the steady clock shows, in nanoseconds.
mod Tests
pub mod Frames
pub mod Mask
pub mod Pinging
pub mod Control
pub mod Messages
pub mod Accept
use httpoll.Prelude.{
  ℤ, pos, negsuc, ℕ, zero, suc, ◌+◌, ◌-◌, ◌*◌, ◌/◌, ◌%◌, ◌^◌, Bool, true, false, Option, none, some,
  List, [], ◌∷◌, ◌++◌, leb, ltb, ◌==◌, if◌then◌else◌, Bytes, codes, length, take, slice, get_or,
  sub_size,
}
use Prim.Native.Nat.{bit_xor}
use httpoll.Base64.{base64_encode}
use httpoll.WebsocketUtils.{WsFrameType, ping, pong, header_bytes}
use httpoll.Connection.{
  WebsocketConnection, Connection, ReadRet, closed, drained, more, read, write, is_empty,
}

-- What the frame in the buffer says: bit fields of the first two bytes, and the payload, unmasked.
pub record WsFrame : Type 0 where
  pub opcode : ℕ
  pub fin : Bool
  pub payload : Bytes

-- Bytes in network order.
pub big_endian : ℕ → Bytes → ℕ
big_endian acc [] = acc
big_endian acc (x ∷ xs) = big_endian (acc * 256 + x) xs

-- `payload_len` and `offset`. The two loads of the 64-bit form are of eight bytes each, of which `ntohl`
-- keeps the first four.
pub payload_length : Bytes → ℕ → Option (ℕ × ℕ)
unfolding big_endian
payload_length buf payload_prefix =
    if payload_prefix == 126
    then if leb 4 (length buf) then some (big_endian 0 (slice 2 2 buf), 4) else none
    else if payload_prefix == 127
    then (if leb 14 (length buf)
        then (let l = big_endian 0 (slice 2 4 buf) in
            let h = big_endian 0 (slice 6 4 buf) in some (h * 2 ^ 32 + l, 10))
        else none)
    else some (payload_prefix, 2)

-- The loop over the payload, from index `i` on.
pub unmask : Bytes → ℕ → Bytes → Bytes
unmask mask i [] = []
unmask mask i (x ∷ xs) = bit_xor x (get_or mask (i % 4) 0) ∷ unmask mask (suc i) xs

-- The frame with first byte `x`, from the mask on.
pub frame_at : Bytes → ℕ → Bool → Option (ℕ × ℕ) → Option WsFrame
unfolding unmask
frame_at buf x masked none = none
frame_at buf x masked (some (payload_len, offset)) =
    let start = if masked then offset + 4 else offset in
    let taken = slice start payload_len buf in
    if leb (start + payload_len) (length buf)
    then some (record {
      opcode = x % 16;
      fin = x / 128 == 1;
      payload = if masked then unmask (slice offset 4 buf) 0 taken else taken;
    })
    else none

-- The frame at the front of the buffer; `none` where the code reads behind the end of it.
pub read_frame : Bytes → Option WsFrame
unfolding payload_length frame_at
read_frame [] = none
read_frame (x ∷ []) = none
read_frame (x ∷ y ∷ rest) =
    let buf = x ∷ y ∷ rest in frame_at buf x (y / 128 == 1) (payload_length buf (y % 128))

-- The members that the code writes.
abbrev pub set_ws : WebsocketConnection → Connection → Connection
set_ws w c = record c { ws_conn = some w }

on_ws :
    (WebsocketConnection → WebsocketConnection)
    → Option WebsocketConnection
    → Option WebsocketConnection
on_ws f none = none
on_ws f (some w) = some (f w)

touch : ℕ → Connection → Connection
unfolding on_ws
touch now c = record c { ws_conn = on_ws (λ w. record w { last_io_time = now }) c.ws_conn }

pub clear_payload : Connection → Connection
unfolding on_ws
clear_payload c = record c { ws_conn = on_ws (λ w. record w { last_payload = [] }) c.ws_conn }

-- `Write`; what the two writes return is dropped.
pub ws_write : Bytes → ℕ → WsFrameType → Bytes → Connection → Connection
unfolding touch
ws_write header now type payload c =
    let c' = (write c (header_bytes header (length payload) type)).1 in
    let c'' = (write c' payload).1 in touch now c''

-- `on_data_`: no handler, or one that is given the frame's opcode and the payload collected, and may do
-- what it likes with the connection.
abbrev pub WsHandler : Type 0
WsHandler = Option (ℕ → Bytes → Connection → ℤ × Connection)

-- The last lines of `Read`.
deliver : WsHandler → ℕ → Bytes → Connection → ℤ × Connection
unfolding clear_payload
deliver none opcode payload c = (pos 0, clear_payload c)
deliver (some on_data) opcode payload c =
    let (ret, c') = on_data opcode payload c in (ret, clear_payload c')

-- `Read` on the frame, from `last_payload_.append` on.
pub receive : Bytes → ℕ → WsHandler → WsFrame → WebsocketConnection → Connection → ℤ × Connection
unfolding ws_write clear_payload deliver
receive header now on_data f w c =
    let payload = w.last_payload ++ f.payload in
    let c' = set_ws (record w { last_payload = payload }) c in
    if f.opcode == 0x8
    then (negsuc 0, c')
    else if f.opcode == 0x9
    then (pos 0, clear_payload (ws_write header now pong f.payload c'))
    else if f.opcode == 0xa
    then (pos 0, clear_payload c')
    else if f.fin
    then deliver on_data f.opcode payload c'
    else (pos 1, c')

-- `Read` on the buffer, which it takes away from the connection.
pub read_buffer :
    Bytes → ℕ → WsHandler → Option WebsocketConnection → Connection → Option (ℤ × Connection)
unfolding receive
read_buffer header now on_data none c = none
read_buffer header now on_data (some w) c = elim (read_frame c.buffer) [
  | none ↦ none
  | some f ↦
      some
        (receive header now on_data f (record w { last_io_time = now }) (record c { buffer = [] }))
]

-- `Read`; `none` where the code goes behind a buffer or follows a null pointer.
pub ws_read : Bytes → ℕ → WsHandler → Connection → Option (ℤ × Connection)
unfolding read_buffer
ws_read header now on_data c =
    let (ret, c') = read c in
    elim ret [
      | closed ↦ some (negsuc 0, c')
      | drained ↦ read_buffer header now on_data c'.ws_conn c'
      | more ↦ read_buffer header now on_data c'.ws_conn c'
    ]

-- HPL_ENABLE_PING_PONG seconds.
abbrev idle_limit : ℕ
idle_limit = 10 * 10 ^ 9

-- `ServerPing` of the record that the connection holds.
pub server_ping : Bytes → ℕ → WebsocketConnection → Connection → Bool × Connection
unfolding ws_write touch
server_ping header now w c =
    if ltb (w.last_io_time + idle_limit) now
    then (true, touch now (ws_write header now ping [] c))
    else (false, c)

abbrev pub guid : Bytes
guid = codes "258EAFA5-E914-47DA-95CA-C5AB0DC85B11"

-- `std::string(hash, hash_len - 1)`, on what `base64_encode` left.
pub text_in : Bytes → Option ℕ → Bytes
text_in hash none = []
text_in hash (some hash_len) = take (sub_size hash_len 1) hash

-- `GetWsAcceptByKey`; `hash` is the array, before anything is written to it.
pub get_ws_accept_by_key : (Bytes → Bytes) → Bytes → Bytes → Bytes
unfolding text_in
get_ws_accept_by_key sha1 hash ws_sec_key =
    let (_, written, hash_len) = base64_encode (sha1 (ws_sec_key ++ guid)) hash (some 40) in
    text_in written hash_len

-- `GetWsAccept`: computed once.
unfoldable pub get_ws_accept :
    (Bytes → Bytes) → Bytes → WebsocketConnection → Bytes × WebsocketConnection
unfolding get_ws_accept_by_key
get_ws_accept sha1 hash w =
    let accept =
      if is_empty w.ws_accept then get_ws_accept_by_key sha1 hash w.ws_key else w.ws_accept in
    (accept, record w { ws_accept = accept })
