-- ===== src/Examples/Basic/Page.antt =====
-- What a client gets from the site.
use httpoll.Prelude.{ℕ, ◌≡◌, some, [], ◌++◌, Bytes, codes}
use httpoll.Version.{HttpVersion}
use httpoll.Connection.{Connection}
use httpoll.Connection.Head.{Head}
use httpoll.Response.Fields.{IsNumeral}
use httpoll.Response.Reader.{read_reply}
use httpoll.Response.RoundTrip.{reply}
use httpoll.Server.Handling.{Env}
use httpoll.Examples.Basic.{get_template}

-- What the client is sent, and reads.
record Answered (env : Env) (numerals : (n : ℕ) → IsNumeral (env.format n) n)
    (version : HttpVersion) (more : Bytes) (before after : Connection) : Type 0 where
  text : Bytes
  sends : after.socket.sent ≡ before.socket.sent ++ text
  reads :
      read_reply 2 (text ++ more)
      ≡ some (reply env.format numerals version 200 (codes "OK") [] get_template, more)
