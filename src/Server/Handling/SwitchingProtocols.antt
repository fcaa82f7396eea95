-- ===== src/Server/Handling/SwitchingProtocols.antt =====
-- The 101 response, as the client reads it.
use httpoll.Prelude.{
  pos, ℕ, ◌≡◌, ap, ap₂, ◌∙◌, some, List, [], ◌∷◌, ◌++◌, Bytes, codes, arith, All, All-map,
}
use httpoll.HeaderParser.Types.{equal}
use httpoll.Version.{HttpVersion}
use httpoll.Base64.Sextets.{IsText}
use httpoll.Response.{make_response}
use httpoll.Response.Fields.{IsNumeral, IsField}
use httpoll.Response.Reader.{Without, read_reply}
use httpoll.Response.RoundTrip.{reply, read_reply-make_response}
use httpoll.Response.Texts.{status_listed, message_of-switching_protocols}
use httpoll.Server.Handling.{Env}

-- The fields of the 101 response.
abbrev pub accept_fields : Bytes → List (Bytes × Bytes)
accept_fields accept =
    (codes "Connection", codes "Upgrade")
    ∷ (codes "Sec-WebSocket-Accept", accept)
    ∷ (codes "Upgrade", codes "websocket")
    ∷ []

accept_fields-IsField : (accept : Bytes) → All IsText accept → All IsField (accept_fields accept)
unfolding equal
accept_fields-IsField accept plain =
    let no_cr : Without b'\r' accept = All-map accept (λ x h. ground arith) plain in ground arith

module _ (env : Env) (numerals : (n : ℕ) → IsNumeral (env.format n) n) (more : Bytes) where
  -- The response to a key.
  pub switching :
      (version : HttpVersion) (accept rsp : Bytes)
      → All IsText accept
      → make_response env.format (pos 101) version (accept_fields accept) [] ≡ some rsp
      → read_reply 5 (rsp ++ more)
        ≡ some (
          reply env.format numerals version 101
              (codes "Switching Protocols")
              (accept_fields accept)
              [],
          more,
        )
  switching version accept rsp plain made =
      let fields = accept_fields accept in
      let (text, status, reason, made', listed, which, reads) =
        read_reply-make_response env.format numerals (pos 101) version fields [] more 5
          (accept_fields-IsField accept plain) (omega arith) in
      let same : rsp ≡ text = cc in
      let (code, said) =
        status_listed 101 (codes "Switching Protocols") status reason (omega arith)
          message_of-switching_protocols listed which in
      ap (λ t. read_reply 5 (t ++ more)) same
      ∙ reads
      ∙ ap₂ (λ n s. some (reply env.format numerals version n s fields [], more)) code said
