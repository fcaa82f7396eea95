-- ===== src/WebsocketConnection/Accept.antt =====
-- The text that answers a handshake's key.
use httpoll.Prelude.{
  ℕ, ◌+◌, ◌^◌, ◌<◌, ◌≡◌, ap, sym, ◌∙◌, some, ◌++◌, Bytes, arith, All, IsByte, length,
  take-append_self, sub_size,
}
use mathlib.Core.Path.{subst}
use httpoll.Base64.Sextets.{IsText}
use httpoll.Base64.Decode.{decode}
use httpoll.Base64.RoundTrip.{base64_encode-decode}
use httpoll.WebsocketConnection.{guid, get_ws_accept_by_key, text_in}

text_in-append :
    (text rest : Bytes) (n : ℕ)
    → length text + 1 ≡ n
    → n < 2 ^ 62
    → text_in (text ++ rest) (some n) ≡ text
unfolding text_in
text_in-append text rest n e h =
    let k : sub_size n 1 ≡ length text = omega arith in rw k (take-append_self text rest)

-- As RFC 6455 has it: the text for a key is one of 28 characters between + and z, which decodes by RFC 4648 to the
-- SHA-1 digest of the key and the fixed GUID, where SHA1 gives 20 bytes and the array has its 40;
-- whatever stood in the array before.
pub get_ws_accept_by_key-decode :
    (sha1 : Bytes → Bytes) (hash key : Bytes)
    → length (sha1 (key ++ guid)) ≡ 20
    → All IsByte (sha1 (key ++ guid))
    → length hash ≡ 40
    → let accept = get_ws_accept_by_key sha1 hash key in
      (decode accept ≡ some (sha1 (key ++ guid))) × (length accept ≡ 28) × All IsText accept
unfolding get_ws_accept_by_key
get_ws_accept_by_key-decode sha1 hash key twenty bytes forty =
    let digest = sha1 (key ++ guid) in
    let (text, back, plain, size, _, e) =
      base64_encode-decode digest hash 40 (omega arith) bytes (omega arith) (omega arith) in
    let accept : get_ws_accept_by_key sha1 hash key ≡ text =
      ap (λ r. text_in r.1 r.2) e ∙ text_in-append text _ _ size (omega arith) in
    (ap decode accept ∙ back, ap length accept ∙ omega arith, subst (All IsText) (sym accept) plain)
