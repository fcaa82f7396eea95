-- ===== src/WebsocketUtils.antt =====
-- src/hpl_websocket_utils.cc: `MakeWebsocketHeader`, and the frame types of
-- src/hpl_request_handler.h.
pub mod Header
use httpoll.Prelude.{
  ℕ, ◌+◌, ◌/◌, ◌%◌, ◌^◌, List, [], ◌∷◌, ◌++◌, ltb, if◌then◌else◌, Bytes, drop, take,
}
use Prim.Native.Nat.{bit_or}

-- `enum WsFrameType`.
pub data WsFrameType : Type 0 where
  continuation text binary close ping pong : WsFrameType

pub frame_code : WsFrameType → ℕ
frame_code continuation = 0x0
frame_code text = 0x1
frame_code binary = 0x2
frame_code close = 0x8
frame_code ping = 0x9
frame_code pong = 0xa

-- `header` is an array of 16 uninitialised bytes; the result is the array and `header_size`.
pub make_websocket_header : Bytes → ℕ → WsFrameType → Bytes × ℕ
unfolding frame_code
make_websocket_header header message_length type =
    let first = bit_or 0x80 (frame_code type) in
    if ltb message_length 126
    then (first ∷ message_length ∷ drop 2 header, 2)
    else if ltb message_length 0xffff
    then (first ∷ 126 ∷ (message_length / 2 ^ 8 % 256) ∷ (message_length % 256) ∷ drop 4 header, 4)
    else (
      first
          ∷ 127
          ∷ (message_length / 2 ^ 56 % 256)
          ∷ (message_length / 2 ^ 48 % 256)
          ∷ (message_length / 2 ^ 40 % 256)
          ∷ drop 5 header,
      6,
    )

-- The bytes that the callers send.
unfoldable pub header_bytes : Bytes → ℕ → WsFrameType → Bytes
unfolding make_websocket_header
header_bytes header message_length type =
    let (bytes, size) = make_websocket_header header message_length type in take size bytes
