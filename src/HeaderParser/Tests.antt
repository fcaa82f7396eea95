-- ===== src/HeaderParser/Tests.antt =====
-- The request of src/http_header_parser_test.cc.
use httpoll.Prelude.{ℕ, ◌≡◌, refl, some, none, Option, List, [], ◌∷◌, Bytes, codes, true, false}
use httpoll.Method.{HttpMethod, parse_http_method}
use httpoll.Version.{HttpVersion, parse_http_version}
use httpoll.Str.{icase_cmp}
use httpoll.Scan.{find_pos, next_char, atoi}
use httpoll.HeaderParser.Types.{HttpHeaderParser, initial, done, emplace, equal}
use httpoll.HeaderParser.{
  push_line, parse_first_line, header_field, upgrade_loop, upgrade_round, connection_loop,
  connection_round, field_value, other_field,
}

abbrev zeros : ℕ → ℕ
zeros i = 0

-- The lines of src/http_header_parser_test.cc.
abbrev request : List Bytes
request =
    codes "GET / HTTP/1.1\r\n"
    ∷ codes "Host: myserver.com\r\n"
    ∷ codes "Connection: Upgrade, keep-alive\r\n"
    ∷ codes "Content-Length:13\r\n"
    ∷ codes "Upgrade: websocket\r\n"
    ∷ codes "User-Agent: Mozilla/5.0\r\n"
    ∷ codes "Extra-Header: some data\r\n"
    ∷ codes "\r\n"
    ∷ codes "ddddsome dataoverflowed\r\n"
    ∷ []

push_lines : HttpHeaderParser → List Bytes → Option HttpHeaderParser
push_lines p [] = some p
push_lines p (l ∷ ls) = elim (push_line 100 zeros p l) [ none ↦ none | some q ↦ push_lines q ls ]

push_lines-request :
    push_lines initial request
    ≡ some (record {
      method = HttpMethod.get;
      uri = codes "/";
      version = HttpVersion.http_1_1;
      header_map = (codes "Extra-Header", codes "some data") ∷ [];
      connection_flags = record { close = false; keep_alive = true; upgrade = true };
      upgrade_websocket = true;
      host = codes "myserver.com";
      user_agent = codes "Mozilla/5.0";
      content_length = some 13;
      body_length = 25;
      state = done;
    })
unfolding push_lines push_line parse_first_line header_field upgrade_loop upgrade_round
    connection_loop connection_round field_value other_field parse_http_method parse_http_version
    icase_cmp find_pos next_char atoi emplace equal
push_lines-request = refl
