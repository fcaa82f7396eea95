-- ===== src/Response/Tests.antt =====
-- The theorem on `MakeResponse`, at a status that is not in the table.
use httpoll.Prelude.{pos, ℕ, ◌≡◌, refl, some, List, [], ◌∷◌, Bytes, codes}
use httpoll.Version.{HttpVersion, http_version_to_string}
use httpoll.Response.{
  in_range, with_message, effective_status, message_of, header_lines, body_part, status_line,
  make_response,
}

-- As fmt prints numbers of up to two digits and the status 101.
abbrev format : ℕ → Bytes
format n = codes "101"

switching :
    make_response format
      (pos 101)
      HttpVersion.http_1_1
      ((codes "Upgrade", codes "websocket") ∷ [])
      []
    ≡ some (codes "HTTP/1.1 101 Switching Protocols\r\nUpgrade: websocket\r\n\r\n")
unfolding make_response effective_status in_range with_message message_of header_lines body_part
    status_line http_version_to_string
switching = refl

abbrev fields : List (Bytes × Bytes)
fields = (codes "Server", codes "httpoll") ∷ []
