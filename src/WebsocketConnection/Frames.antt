-- ===== src/WebsocketConnection/Frames.antt =====
-- `WebsocketConnection::Read` decodes what `MakeWebsocketHeader` and a client's encoder write.
use httpoll.Prelude.{
  ℕ, suc, ◌+◌, ◌*◌, ◌/◌, ◌%◌, ◌^◌, ◌<◌, ◌≡◌, refl, ap, ap₂, ◌∙◌, inl, inr, Bool, true, false, some,
  [], ◌∷◌, ◌++◌, arith, leb, ltb, ◌==◌, if◌then◌else◌, Bytes, length, take, slice, length-append,
  Bool-cases, take-append_self, drop-append_self,
}
use Prim.Native.Nat.{bit_or}
use httpoll.WebsocketUtils.{WsFrameType, frame_code, header_bytes}
use httpoll.WebsocketUtils.Header.{length_bytes, header_bytes-length_bytes, first_byte}
use httpoll.WebsocketConnection.{big_endian, payload_length, frame_at, read_frame}

-- A buffer cut where the payload begins and ends.
module _ (buf front payload rest : Bytes) (split : buf ≡ front ++ (payload ++ rest)) where
  slice-payload : (off n : ℕ) → off ≡ length front → n ≡ length payload → slice off n buf ≡ payload
  slice-payload off n e f =
      rw (split, e, f)
        (ap (take (length payload)) (drop-append_self front (payload ++ rest))
          ∙ take-append_self payload rest)

  inside : (off n : ℕ) → off ≡ length front → n ≡ length payload → leb (off + n) (length buf) ≡ true
  inside off n e f =
      ground
        (arith, ap length split, length-append front (payload ++ rest), length-append payload rest)

frame_at-plain :
    (x n : ℕ) (front payload rest : Bytes)
    → n ≡ length payload
    → frame_at (front ++ (payload ++ rest)) x false (some (n, length front))
      ≡ some (record { opcode = x % 16; fin = x / 128 == 1; payload = payload })
unfolding frame_at
frame_at-plain x n front payload rest e =
    rw
      (
        inside (front ++ (payload ++ rest)) front payload rest refl (length front) n refl e,
        slice-payload (front ++ (payload ++ rest)) front payload rest refl (length front) n refl e,
      )
      refl

short_header :
    (masked : Bool) (x n : ℕ) (tail : Bytes)
    → n < 126
    → let buf = x ∷ (if masked then 128 + n else n) ∷ tail in
      read_frame buf ≡ frame_at buf x masked (some (n, 2))
unfolding read_frame payload_length
short_header true x n tail h =
    let a : (128 + n) % 128 ≡ n = omega arith in
    let b : ((128 + n) / 128 == 1) ≡ true = ground arith in
    let c : (n == 126) ≡ false = ground arith in
    let d : (n == 127) ≡ false = ground arith in rw (b, a, payload_length) (rw (c, d) refl)
short_header false x n tail h =
    let a : n % 128 ≡ n = omega arith in
    let b : (n / 128 == 1) ≡ false = ground arith in
    let c : (n == 126) ≡ false = ground arith in
    let d : (n == 127) ≡ false = ground arith in rw (b, a, payload_length) (rw (c, d) refl)

long_header :
    (masked : Bool) (x n : ℕ) (tail : Bytes)
    → n < 2 ^ 16
    → let buf = x ∷ (if masked then 254 else 126) ∷ n / 256 ∷ n % 256 ∷ tail in
      read_frame buf ≡ frame_at buf x masked (some (n, 4))
unfolding read_frame payload_length big_endian
long_header true x n tail h =
    let value : (0 * 256 + n / 256) * 256 + n % 256 ≡ n = omega arith in
    let room : leb 4 (suc (suc (suc (suc (length tail))))) ≡ true = ground arith in
    rw (room, payload_length)
      (ap (λ v. frame_at (x ∷ 254 ∷ n / 256 ∷ n % 256 ∷ tail) x true (some (v, 4))) value)
long_header false x n tail h =
    let value : (0 * 256 + n / 256) * 256 + n % 256 ≡ n = omega arith in
    let room : leb 4 (suc (suc (suc (suc (length tail))))) ≡ true = ground arith in
    rw (room, payload_length)
      (ap (λ v. frame_at (x ∷ 126 ∷ n / 256 ∷ n % 256 ∷ tail) x false (some (v, 4))) value)

-- The length is read back, in either form.
read_frame-header :
    (masked : Bool) (x n : ℕ) (tail : Bytes)
    → n < 2 ^ 16
    → let front = x ∷ length_bytes masked n in
      read_frame (front ++ tail) ≡ frame_at (front ++ tail) x masked (some (n, length front))
read_frame-header masked x n tail h = elim (Bool-cases (ltb n 126)) [
  | inl t ↦ rw t (short_header masked x n tail (ground arith))
  | inr t ↦ rw t (long_header masked x n tail h)
]

-- The two halves of the library agree: the header that `MakeWebsocketHeader` makes for a payload of
-- less than 2^16 - 1 bytes, and that payload, are read as one final frame of that type and payload,
-- whatever the array held before and whatever follows.
pub read_frame-header_bytes :
    (header : Bytes) (type : WsFrameType) (payload rest : Bytes)
    → length payload < 0xffff
    → read_frame (header_bytes header (length payload) type ++ (payload ++ rest))
      ≡ some (record { opcode = frame_code type; fin = true; payload = payload })
read_frame-header_bytes header type payload rest h =
    let x = bit_or 0x80 (frame_code type) in
    let n = length payload in
    let front = x ∷ length_bytes false n in
    let (code, final) = first_byte type in
    ap (λ t. read_frame (t ++ (payload ++ rest))) (header_bytes-length_bytes header n type h)
    ∙ read_frame-header false x n (payload ++ rest) (omega arith)
    ∙ frame_at-plain x n front payload rest refl
    ∙ ap₂ (λ o f. some (record { opcode = o; fin = f; payload = payload })) code final

-- The second byte and what follows it, in the form of 64 bits, for a length of less than 2^32.
abbrev pub long_bytes : Bool → ℕ → Bytes
long_bytes masked n =
    (if masked then 255 else 127)
    ∷ 0
    ∷ 0
    ∷ 0
    ∷ 0
    ∷ n / 2 ^ 24
    ∷ n / 2 ^ 16 % 256
    ∷ n / 2 ^ 8 % 256
    ∷ n % 256
    ∷ []
