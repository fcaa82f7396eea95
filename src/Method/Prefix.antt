-- ===== src/Method/Prefix.antt =====
-- `ParseHttpMethod` compares words; what it decides is a question of prefixes.
use httpoll.Prelude.{
  ℕ, ◌+◌, ◌≤◌, ◌≡◌, refl, arith, if◌then◌else◌, Bytes, All, IsByte, starts_with, load_int-three,
  load_int-four, drop, length, codes,
}
use httpoll.Method.{HttpMethod, parse_http_method}

-- For a text of bytes, a position inside it and bytes behind its terminator, whatever they are,
-- `ParseHttpMethod` recognises exactly the prefixes GET, PUT and POST of the rest of the text, and
-- sets the end position behind them; on any other text it returns UNKNOWN and leaves it alone.
pub parse_http_method_prefix :
    (past : ℕ → ℕ) (s : Bytes) (pos end_pos : ℕ)
    → ((k : ℕ) → IsByte (past k))
    → All IsByte s
    → pos ≤ length s
    → parse_http_method past s pos end_pos ≡ (
        if starts_with (codes "GET") (drop pos s)
        then (HttpMethod.get, pos + 3)
        else if starts_with (codes "PUT") (drop pos s)
        then (HttpMethod.put, pos + 3)
        else if starts_with (codes "POST") (drop pos s)
        then (HttpMethod.post, pos + 4)
        else (HttpMethod.unknown, end_pos))
unfolding parse_http_method
parse_http_method_prefix past s pos end_pos hp hs inside =
    rw
      (
        load_int-three past hp s pos hs inside b'G' b'E' b'T' (omega arith) (omega arith)
            (omega arith),
        load_int-three past hp s pos hs inside b'P' b'U' b'T' (omega arith) (omega arith)
            (omega arith),
        load_int-four past hp s pos hs inside b'P' b'O' b'S' b'T' (omega arith) (omega arith)
            (omega arith) (omega arith),
      )
      refl
