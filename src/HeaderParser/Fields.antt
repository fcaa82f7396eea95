-- ===== src/HeaderParser/Fields.antt =====
-- The values of header lines: `Host:`, `User-Agent:` and `Content-Length:`.
use httpoll.Prelude.{
  ℕ, ◌+◌, ◌-◌, ◌%◌, ◌^◌, ◌<◌, ◌≡◌, refl, sym, ap, ◌∙◌, true, false, some, List, [], ◌∷◌, ◌++◌,
  append_assoc, arith, ◌==◌, Bytes, codes, All, length, drop, length-append, take-append_self,
  c_string,
}
use native.Mathlib.Nat.{add-zero}
use httpoll.Str.{icase_equal}
use httpoll.Str.Prefix.{length-icase_equal}
use httpoll.Scan.{find_pos, next_char, atoi}
use httpoll.Scan.Cursor.{
  next_char-split, drop-split, find_pos-append, find_pos-here, c_string-append,
}
use httpoll.Scan.Decimal.{
  decimal, digit_text, EndsDigits, atoi_lem, digit_text-no_nul, EndsDigits-c_string,
}
use httpoll.HeaderParser.Types.{HttpHeaderParser, headers, body, equal}
use httpoll.HeaderParser.{
  not_blank, line_end, view_from, field_value, push_line, push_in, after_headers,
}
use httpoll.HeaderParser.Names.{content_length, host, user_agent, push_line-name}

-- A value as it may stand in a line: blanks, the text, and an end-of-line byte.
pub record IsValue (blanks value : Bytes) (stop : ℕ) : Type 0 where
  pub are_blank : All (λ c. not_blank c ≡ false) blanks
  pub starts : find_pos not_blank (value ++ stop ∷ []) ≡ 0
  pub in_line : All (λ c. line_end c ≡ false) value
  pub stops : line_end stop ≡ true

abbrev pub value_text : Bytes → Bytes → ℕ → Bytes → Bytes
value_text blanks value stop rest = blanks ++ (value ++ (stop ∷ rest))

starts-append :
    (value : Bytes) (stop : ℕ) (rest : Bytes)
    → find_pos not_blank (value ++ stop ∷ []) ≡ 0
    → find_pos not_blank (value ++ (stop ∷ rest)) ≡ 0
unfolding find_pos
starts-append [] stop rest h = ground arith
starts-append (x ∷ value) stop rest h = ground arith

-- The value is cut out of the line as it stands there.
pub field_value_lem :
    (line pre blanks value : Bytes) (stop : ℕ) (rest : Bytes) (at : ℕ)
    → IsValue blanks value stop
    → line ≡ pre ++ value_text blanks value stop rest
    → at ≡ length pre
    → field_value line at ≡ value
unfolding field_value
field_value_lem line pre blanks value stop rest at v split here =
    let split' : line ≡ (pre ++ blanks) ++ (value ++ (stop ∷ rest)) =
      split ∙ sym (append_assoc pre blanks _) in
    let first : next_char line at not_blank ≡ at + length blanks =
      next_char-split line pre _ at split here not_blank
      ∙ ap (λ n. at + n)
          (find_pos-append not_blank blanks _ v.are_blank
            ∙ rw (starts-append value stop rest v.starts) (add-zero _)) in
    let here' : at + length blanks ≡ length (pre ++ blanks) =
      omega (arith, length-append pre blanks) in
    let last : next_char line (at + length blanks) line_end ≡ at + length blanks + length value =
      next_char-split line (pre ++ blanks) _ _ split' here' line_end
      ∙ ap (λ n. at + length blanks + n)
          (find_pos-append line_end value _ v.in_line
            ∙ rw (find_pos-here line_end stop rest v.stops) (add-zero _)) in
    let n : at + length blanks + length value - (at + length blanks) ≡ length value = omega arith in
    rw (first, last, n, drop-split line (pre ++ blanks) _ (at + length blanks) split' here')
      (take-append_self value (stop ∷ rest))

module _ (fuel : ℕ) (past : ℕ → ℕ) (p : HttpHeaderParser) (spelled blanks value : Bytes) (stop : ℕ)
    (rest : Bytes) (in_headers : p.state ≡ headers) (no_nul : All (λ c. (c == 0) ≡ false) spelled)
    (v : IsValue blanks value stop) where
  -- In the state `Headers`, `Host:` in any case, blanks, a value and an end-of-line byte leave
  -- exactly the value in `host_`, and nothing else changes.
  pub push_line-host :
      icase_equal spelled (codes "host:") ≡ true
      → push_line fuel past p (spelled ++ value_text blanks value stop rest)
        ≡ some (record p { host = value })
  push_line-host h =
      push_line-name spelled _ no_nul host fuel past p in_headers h
      ∙ ap (λ x. some (record p { host = x }))
          (field_value_lem _ spelled blanks value stop rest 5 v refl
            (sym (length-icase_equal spelled (codes "host:") h)))

  -- In the state `Headers`, `User-Agent:` in any case, blanks, a value and an end-of-line byte leave
  -- exactly the value in `user_agent_`, and nothing else changes.
  pub push_line-user_agent :
      icase_equal spelled (codes "user-agent:") ≡ true
      → push_line fuel past p (spelled ++ value_text blanks value stop rest)
        ≡ some (record p { user_agent = value })
  push_line-user_agent h =
      push_line-name spelled _ no_nul user_agent fuel past p in_headers h
      ∙ ap (λ x. some (record p { user_agent = x }))
          (field_value_lem _ spelled blanks value stop rest 11 v refl
            (sym (length-icase_equal spelled (codes "user-agent:") h)))

-- The C string that `atoi` is given.
numeral_view :
    (spelled blanks : Bytes) (d : ℕ) (ds : List ℕ) (rest : Bytes)
    → length spelled ≡ 15
    → All (λ c. not_blank c ≡ false) blanks
    → All (λ n. n < 10) (d ∷ ds)
    → let line = spelled ++ (blanks ++ (digit_text (d ∷ ds) ++ rest)) in
      view_from line (next_char line 15 not_blank) ≡ digit_text (d ∷ ds) ++ c_string rest
numeral_view spelled blanks d ds rest n b digits =
    let line = spelled ++ (blanks ++ (digit_text (d ∷ ds) ++ rest)) in
    let shown : not_blank (b'0' + d) ≡ true = ground (arith, digits.0) in
    let first : next_char line 15 not_blank ≡ 15 + length blanks =
      next_char-split line spelled _ 15 refl (sym n) not_blank
      ∙ ap (λ k. 15 + k)
          (find_pos-append not_blank blanks _ b
            ∙ rw (find_pos-here not_blank (b'0' + d) (digit_text ds ++ rest) shown) (add-zero _)) in
    let rest_of : drop (15 + length blanks) line ≡ digit_text (d ∷ ds) ++ rest =
      drop-split line (spelled ++ blanks) _ (15 + length blanks)
        (sym (append_assoc spelled blanks _)) (omega (arith, length-append spelled blanks)) in
    ap (view_from line) first
    ∙ ap c_string rest_of
    ∙ c_string-append (digit_text (d ∷ ds)) rest (digit_text-no_nul (d ∷ ds) digits)

pub push_line-content_length :
    (fuel : ℕ) (past : ℕ → ℕ) (p : HttpHeaderParser) (spelled blanks : Bytes) (d : ℕ) (ds : List ℕ)
    (rest : Bytes)
    → p.state ≡ headers
    → All (λ c. (c == 0) ≡ false) spelled
    → icase_equal spelled (codes "content-length:") ≡ true
    → All (λ c. not_blank c ≡ false) blanks
    → All (λ n. n < 10) (d ∷ ds)
    → EndsDigits rest
    → push_line fuel past p (spelled ++ (blanks ++ (digit_text (d ∷ ds) ++ rest)))
      ≡ some (record p { content_length = some (decimal (d ∷ ds) % 2 ^ 32) })
push_line-content_length fuel past p spelled blanks d ds rest s nul h b digits e =
    push_line-name spelled _ nul content_length fuel past p s h
    ∙ ap (λ n. some (record p { content_length = some n }))
        (ap atoi (
            numeral_view spelled blanks d ds rest
              (length-icase_equal spelled (codes "content-length:") h) b digits)
          ∙ atoi_lem d ds (c_string rest) digits (EndsDigits-c_string rest e))

-- The blank line, where a length was given, though it be 0.
pub push_line-blank_body :
    (fuel : ℕ) (past : ℕ → ℕ) (p : HttpHeaderParser) (l : ℕ)
    → p.state ≡ headers
    → p.content_length ≡ some l
    → push_line fuel past p (codes "\r\n") ≡ some (record p { state = body })
unfolding push_line push_in equal
push_line-blank_body fuel past p l s known =
    ap (λ t. push_in t fuel past p (codes "\r\n")) s
    ∙ ap (λ n. some (record p { state = after_headers n })) known
