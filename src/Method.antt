-- ===== src/Method.antt =====
-- src/hpl_method.h and src/hpl_method.cc: the request methods and their parser.
pub mod Prefix
use httpoll.Prelude.{ℕ, ◌+◌, ◌*◌, ◌%◌, ◌^◌, ◌==◌, if◌then◌else◌, Bytes, load_int}

pub data HttpMethod : Type 0 where
  get post put delete head connect options trace patch unknown : HttpMethod

abbrev pub int_get : ℕ
int_get = b'G' + 256 * b'E' + 65536 * b'T'

abbrev pub int_put : ℕ
int_put = b'P' + 256 * b'U' + 65536 * b'T'

abbrev pub int_post : ℕ
int_post = b'P' + 256 * b'O' + 65536 * b'S' + 16777216 * b'T'

-- `end_pos` is a reference argument: the second result is what it holds afterwards.
unfoldable pub parse_http_method : (ℕ → ℕ) → Bytes → ℕ → ℕ → HttpMethod × ℕ
parse_http_method past method pos end_pos =
    let v = load_int past method pos in
    if v % 2 ^ 24 == int_get
    then (HttpMethod.get, pos + 3)
    else if v % 2 ^ 24 == int_put
    then (HttpMethod.put, pos + 3)
    else if v == int_post
    then (HttpMethod.post, pos + 4)
    else (HttpMethod.unknown, end_pos)
