-- ===== src/Version/Names.antt =====
-- What `ParseHttpVersion` recognises, and how it reads the names that the code prints.
use httpoll.Prelude.{
  ℕ, ◌≡◌, ◌≢◌, refl, ◌&&◌, [], ◌∷◌, ◌++◌, arith, ◌==◌, ltb, if◌then◌else◌, Bytes, codes, length,
  drop, get_or, All, IsByte, starts_with, All-drop, All-append, load_int-three, load_int-four,
}
use httpoll.Version.{HttpVersion, http_version, parse_http_version, http_version_to_string}

-- The part behind `HTTP/`, as prefixes.
abbrev pub numbered : Bytes → ℕ → HttpVersion × ℕ
numbered s end_pos =
    if starts_with (codes "1.0") s
    then (HttpVersion.http_1_0, 3)
    else if starts_with (codes "1.1") s
    then (HttpVersion.http_1_1, 3)
    else if starts_with (codes "2.0") s
    then (HttpVersion.http_2_0, 3)
    else (HttpVersion.unknown, end_pos)

module _ (past : ℕ → ℕ) (end_pos : ℕ) (past_bytes : (k : ℕ) → IsByte (past k)) where
  http_version_prefix :
      (s : Bytes) → All IsByte s → http_version past s end_pos ≡ numbered s end_pos
  unfolding http_version
  http_version_prefix s h =
      rw
        (
          load_int-three past past_bytes s 0 h (omega arith) b'1' b'.' b'0' (omega arith)
              (omega arith) (omega arith),
          load_int-three past past_bytes s 0 h (omega arith) b'1' b'.' b'1' (omega arith)
              (omega arith) (omega arith),
          load_int-three past past_bytes s 0 h (omega arith) b'2' b'.' b'0' (omega arith)
              (omega arith) (omega arith),
        )
        refl

  -- The test of `HTTP` and of the slash behind it.
  slash_prefix :
      (s : Bytes)
      → (starts_with (codes "HTTP") s && (ltb 4 (length s) && get_or s 4 0 == b'/'))
        ≡ starts_with (codes "HTTP/") s
  slash_prefix [] = refl
  slash_prefix (a ∷ []) = ground arith
  slash_prefix (a ∷ b ∷ []) = ground arith
  slash_prefix (a ∷ b ∷ c ∷ []) = ground arith
  slash_prefix (a ∷ b ∷ c ∷ d ∷ []) = ground arith
  slash_prefix (a ∷ b ∷ c ∷ d ∷ e ∷ s) = ground arith

  -- For a text of bytes, and bytes behind its terminator, whatever they are, `ParseHttpVersion`
  -- recognises `HTTP/` followed by 1.0, 1.1 or 2.0, and `WSS/`; all else is UNKNOWN.
  pub parse_http_version_prefix :
      (s : Bytes)
      → All IsByte s
      → parse_http_version past s end_pos ≡ (
          if starts_with (codes "HTTP/") s
          then numbered (drop 5 s) end_pos
          else if starts_with (codes "WSS/") s
          then (HttpVersion.ws, end_pos)
          else (HttpVersion.unknown, end_pos))
  unfolding parse_http_version
  parse_http_version_prefix s h =
      rw
        (
          load_int-four past past_bytes s 0 h (omega arith) b'H' b'T' b'T' b'P' (omega arith)
              (omega arith) (omega arith) (omega arith),
          load_int-four past past_bytes s 0 h (omega arith) b'W' b'S' b'S' b'/' (omega arith)
              (omega arith) (omega arith) (omega arith),
          slash_prefix s,
          http_version_prefix (drop 5 s) (All-drop IsByte 5 s h),
        )
        refl

  -- Every printed name but `WS` is read back as its version, whatever bytes follow it.
  pub parse_http_version_to_string :
      (v : HttpVersion) (rest : Bytes)
      → All IsByte rest
      → v ≢ HttpVersion.ws
      → (parse_http_version past (http_version_to_string v ++ rest) end_pos).0 ≡ v
  unfolding http_version_to_string
  parse_http_version_to_string HttpVersion.http_1_0 rest h ne =
      rw
        (parse_http_version_prefix (codes "HTTP/1.0" ++ rest)
          (All-append IsByte (codes "HTTP/1.0") rest (omega arith) h))
        refl
  parse_http_version_to_string HttpVersion.http_1_1 rest h ne =
      rw
        (parse_http_version_prefix (codes "HTTP/1.1" ++ rest)
          (All-append IsByte (codes "HTTP/1.1") rest (omega arith) h))
        refl
  parse_http_version_to_string HttpVersion.http_2_0 rest h ne =
      rw
        (parse_http_version_prefix (codes "HTTP/2.0" ++ rest)
          (All-append IsByte (codes "HTTP/2.0") rest (omega arith) h))
        refl
  parse_http_version_to_string HttpVersion.ws rest h ne = absurd (ne refl)
  parse_http_version_to_string HttpVersion.unknown rest h ne =
      rw
        (parse_http_version_prefix (codes "UNKNOWN" ++ rest)
          (All-append IsByte (codes "UNKNOWN") rest (omega arith) h))
        refl
