-- ===== src/HeaderParser/UpgradeSamples.antt =====
-- A request to upgrade, line by line, for the tests of the parts that push lines.
use httpoll.Prelude.{◌≡◌, refl, some, true, List, [], ◌∷◌, Bytes, codes}
use httpoll.Method.{HttpMethod, parse_http_method}
use httpoll.Version.{HttpVersion, parse_http_version}
use httpoll.Str.{icase_cmp}
use httpoll.Scan.{find_pos, next_char}
use httpoll.HeaderParser.Samples.{no_bytes}
use httpoll.HeaderParser.Types.{HttpHeaderParser, initial, headers, done, no_flags, emplace, equal}
use httpoll.HeaderParser.{
  push_line, parse_first_line, header_field, upgrade_loop, upgrade_round, connection_loop,
  connection_round, field_value, other_field,
}

-- The key of RFC 6455, section 1.3.
abbrev pub sample_key : Bytes
sample_key = codes "dGhlIHNhbXBsZSBub25jZQ=="

abbrev pub upgrade_lines : List Bytes
upgrade_lines =
    codes "GET /a HTTP/1.1\r\n"
    ∷ codes "Connection: Upgrade\r\n"
    ∷ codes "Upgrade: websocket\r\n"
    ∷ codes "Sec-WebSocket-Key: dGhlIHNhbXBsZSBub25jZQ==\r\n"
    ∷ codes "\r\n"
    ∷ []

-- After each line.
abbrev pub got : HttpHeaderParser
got = record initial {
  method = HttpMethod.get;
  uri = codes "/a";
  version = HttpVersion.http_1_1;
  state = headers;
}

abbrev pub connected : HttpHeaderParser
connected = record got { connection_flags = record no_flags { upgrade = true } }

abbrev pub upgraded : HttpHeaderParser
upgraded = record connected { upgrade_websocket = true }

abbrev pub keyed : HttpHeaderParser
keyed = record upgraded { header_map = (codes "Sec-WebSocket-Key", sample_key) ∷ [] }

abbrev pub asking : HttpHeaderParser
asking = record keyed { state = done }

pub push_line-got : push_line 100 no_bytes initial (codes "GET /a HTTP/1.1\r\n") ≡ some got
unfolding push_line parse_first_line parse_http_method parse_http_version find_pos next_char equal
push_line-got = refl

pub push_line-connected :
    push_line 100 no_bytes got (codes "Connection: Upgrade\r\n") ≡ some connected
unfolding push_line header_field connection_loop connection_round icase_cmp find_pos next_char equal
push_line-connected = refl

pub push_line-upgraded :
    push_line 100 no_bytes connected (codes "Upgrade: websocket\r\n") ≡ some upgraded
unfolding push_line header_field upgrade_loop upgrade_round icase_cmp find_pos next_char equal
push_line-upgraded = refl

pub push_line-keyed :
    push_line 100 no_bytes upgraded (codes "Sec-WebSocket-Key: dGhlIHNhbXBsZSBub25jZQ==\r\n")
    ≡ some keyed
unfolding push_line header_field other_field field_value emplace icase_cmp find_pos next_char equal
push_line-keyed = refl

pub push_line-asking : push_line 100 no_bytes keyed (codes "\r\n") ≡ some asking
unfolding push_line equal
push_line-asking = refl
