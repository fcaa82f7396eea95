-- ===== src/Version.antt =====
-- src/hpl_version.h and src/hpl_version.cc: protocol versions, their parser and their names.
pub mod Names
use httpoll.Prelude.{
  ℕ, ◌+◌, ◌*◌, ◌%◌, ◌^◌, ◌&&◌, ◌==◌, ltb, if◌then◌else◌, Bytes, codes, length, drop, get_or,
  load_int,
}

pub data HttpVersion : Type 0 where
  http_1_0 http_1_1 http_2_0 ws unknown : HttpVersion

abbrev pub int_http : ℕ
int_http = b'H' + 256 * b'T' + 65536 * b'T' + 16777216 * b'P'

abbrev pub int_ws : ℕ
int_ws = b'W' + 256 * b'S' + 65536 * b'S' + 16777216 * b'/'

abbrev pub int_1_0 : ℕ
int_1_0 = b'1' + 256 * b'.' + 65536 * b'0'

abbrev pub int_1_1 : ℕ
int_1_1 = b'1' + 256 * b'.' + 65536 * b'1'

abbrev pub int_2_0 : ℕ
int_2_0 = b'2' + 256 * b'.' + 65536 * b'0'

-- The two helpers of the unnamed namespace, on the text behind the protocol's name.
http_version : (ℕ → ℕ) → Bytes → ℕ → HttpVersion × ℕ
http_version past version end_pos =
    let v = load_int past version 0 % 2 ^ 24 in
    if v == int_1_0
    then (HttpVersion.http_1_0, 3)
    else if v == int_1_1
    then (HttpVersion.http_1_1, 3)
    else if v == int_2_0
    then (HttpVersion.http_2_0, 3)
    else (HttpVersion.unknown, end_pos)

ws_version : ℕ → HttpVersion × ℕ
ws_version end_pos = (HttpVersion.ws, end_pos)

-- On a C string; `past` is the memory behind its terminator. `end_pos` is a reference argument.
unfoldable pub parse_http_version : (ℕ → ℕ) → Bytes → ℕ → HttpVersion × ℕ
unfolding http_version ws_version
parse_http_version past version end_pos =
    let v = load_int past version 0 in
    if v == int_http && (ltb 4 (length version) && get_or version 4 0 == b'/')
    then http_version past (drop 5 version) end_pos
    else if v == int_ws
    then ws_version end_pos
    else (HttpVersion.unknown, end_pos)

unfoldable pub http_version_to_string : HttpVersion → Bytes
http_version_to_string HttpVersion.http_1_0 = codes "HTTP/1.0"
http_version_to_string HttpVersion.http_1_1 = codes "HTTP/1.1"
http_version_to_string HttpVersion.http_2_0 = codes "HTTP/2.0"
http_version_to_string HttpVersion.ws = codes "WS"
http_version_to_string HttpVersion.unknown = codes "UNKNOWN"
