-- ===== src/HeaderParser/Samples.antt =====
-- A short request, line by line, for the tests of the parts that push lines.
use httpoll.Prelude.{ℕ, ◌≡◌, refl, some, codes}
use httpoll.Method.{HttpMethod, parse_http_method}
use httpoll.Version.{HttpVersion, parse_http_version}
use httpoll.Str.{icase_cmp}
use httpoll.Scan.{find_pos, next_char, atoi}
use httpoll.HeaderParser.Types.{HttpHeaderParser, initial, headers, body, done, equal}
use httpoll.HeaderParser.{push_line, parse_first_line, header_field}

abbrev pub no_bytes : ℕ → ℕ
no_bytes i = 0

-- After the first line, after one that says how long the body is, and after the blank one.
abbrev pub asked : HttpHeaderParser
asked = record initial {
  method = HttpMethod.post;
  uri = codes "/a";
  version = HttpVersion.http_1_1;
  state = headers;
}

abbrev pub sized : HttpHeaderParser
sized = record asked { content_length = some 4 }

abbrev pub awaiting : HttpHeaderParser
awaiting = record sized { state = body }

pub push_line-asked : push_line 100 no_bytes initial (codes "POST /a HTTP/1.1\r\n") ≡ some asked
unfolding push_line parse_first_line parse_http_method parse_http_version find_pos next_char equal
push_line-asked = refl

pub push_line-sized : push_line 100 no_bytes asked (codes "Content-Length: 4\r\n") ≡ some sized
unfolding push_line header_field icase_cmp find_pos next_char atoi equal
push_line-sized = refl

pub push_line-awaiting : push_line 100 no_bytes sized (codes "\r\n") ≡ some awaiting
unfolding push_line equal
push_line-awaiting = refl

-- The blank line where nothing has said that there is a body.
abbrev pub finished : HttpHeaderParser
finished = record asked { state = done }

pub push_line-finished : push_line 100 no_bytes asked (codes "\r\n") ≡ some finished
unfolding push_line equal
push_line-finished = refl

-- A request for the root, without a body.
abbrev pub rooted : HttpHeaderParser
rooted = record initial {
  method = HttpMethod.get;
  uri = codes "/";
  version = HttpVersion.http_1_1;
  state = headers;
}

abbrev pub root_finished : HttpHeaderParser
root_finished = record rooted { state = done }

pub push_line-rooted : push_line 100 no_bytes initial (codes "GET / HTTP/1.1\r\n") ≡ some rooted
unfolding push_line parse_first_line parse_http_method parse_http_version find_pos next_char equal
push_line-rooted = refl

pub push_line-root_finished : push_line 100 no_bytes rooted (codes "\r\n") ≡ some root_finished
unfolding push_line equal
push_line-root_finished = refl
