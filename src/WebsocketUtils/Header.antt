-- ===== src/WebsocketUtils/Header.antt =====
-- What `MakeWebsocketHeader` says of the length of the payload.
use httpoll.Prelude.{
  ℕ, ◌+◌, ◌/◌, ◌%◌, ◌^◌, ◌≤◌, ◌<◌, ◌≡◌, refl, sym, ◌∙◌, inl, inr, Bool, true, false, [], ◌∷◌, arith,
  ltb, ◌==◌, if◌then◌else◌, Bytes, take, drop, Bool-cases,
}
use Prim.Native.Nat.{bit_or}
use httpoll.WebsocketUtils.{
  WsFrameType, continuation, text, binary, close, ping, pong, frame_code, make_websocket_header,
  header_bytes,
}

-- The second byte and what follows it, in the forms of up to 16 bits.
abbrev pub length_bytes : Bool → ℕ → Bytes
length_bytes masked n =
    if ltb n 126
    then (if masked then 128 + n else n) ∷ []
    else (if masked then 254 else 126) ∷ n / 256 ∷ (n % 256 ∷ [])

pub header_bytes-length_bytes :
    (header : Bytes) (n : ℕ) (type : WsFrameType)
    → n < 0xffff
    → header_bytes header n type ≡ bit_or 0x80 (frame_code type) ∷ length_bytes false n
unfolding header_bytes make_websocket_header
header_bytes-length_bytes header n type h = elim (Bool-cases (ltb n 126)) [
  | inl t ↦ rw t refl
  | inr t ↦
      let s : ltb n 0xffff ≡ true = ground arith in
      let high : n / 2 ^ 8 % 256 ≡ n / 256 = omega arith in rw t (rw s (rw high refl))
]

pub first_byte :
    (type : WsFrameType)
    → let x = bit_or 0x80 (frame_code type) in (x % 16 ≡ frame_code type) × ((x / 128 == 1) ≡ true)
unfolding frame_code
first_byte continuation = (refl, refl)
first_byte text = (refl, refl)
first_byte binary = (refl, refl)
first_byte close = (refl, refl)
first_byte ping = (refl, refl)
first_byte pong = (refl, refl)

long_header :
    (header : Bytes) (n : ℕ) (type : WsFrameType)
    → 0xffff ≤ n
    → n < 2 ^ 40
    → header_bytes header n type
      ≡ bit_or 0x80 (frame_code type) ∷ 127 ∷ 0 ∷ 0 ∷ 0 ∷ take 1 (drop 5 header)
unfolding header_bytes make_websocket_header
long_header header n type h k =
    let s : ltb n 126 ≡ false = ground arith in
    let t : ltb n 0xffff ≡ false = ground arith in
    let a : n / 2 ^ 56 % 256 ≡ 0 = omega arith in
    let b : n / 2 ^ 48 % 256 ≡ 0 = omega arith in
    let c : n / 2 ^ 40 % 256 ≡ 0 = omega arith in rw s (rw t (rw (a, b, c) refl))

-- The header of a payload of 2^16 - 1 bytes or more holds only the top three bytes of its length, so up
-- to 2^40 all lengths have the same header: the reader cannot know how long the payload is.
pub header_bytes-same :
    (header : Bytes) (m n : ℕ) (type : WsFrameType)
    → 0xffff ≤ m
    → m < 2 ^ 40
    → 0xffff ≤ n
    → n < 2 ^ 40
    → header_bytes header m type ≡ header_bytes header n type
header_bytes-same header m n type a b c d =
    long_header header m type a b ∙ sym (long_header header n type c d)
