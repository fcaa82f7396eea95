-- ===== src/HeaderParser/Names.antt =====
-- The ladder of `PushLine` over the names of the special headers.
use httpoll.Prelude.{
  ℕ, ◌≡◌, refl, ap, ◌∙◌, true, false, Option, some, [], ◌∷◌, ◌++◌, arith, ◌==◌, Bytes, codes, All,
}
use mathlib.Core.Option
use httpoll.Str.{to_lower, icase_equal}
use httpoll.Str.Prefix.{icase_prefix_self}
use httpoll.Scan.{find_pos, next_char, atoi}
use httpoll.Scan.Cursor.{next_char-append, c_string-append}
use httpoll.HeaderParser.Types.{HttpHeaderParser, headers, equal}
use httpoll.HeaderParser.Connection.{icase_cmp_spelled}
use httpoll.HeaderParser.{
  not_blank, view_from, header_field, push_in, push_line, upgrade_loop, connection_loop,
  field_value,
}

pub data FieldName : Type 0 where
  content_length upgrade host connection user_agent : FieldName

abbrev pub name_text : FieldName → Bytes
name_text content_length = codes "content-length:"
name_text upgrade = codes "upgrade:"
name_text host = codes "host:"
name_text connection = codes "connection:"
name_text user_agent = codes "user-agent:"

-- What the branch of a name does to a line that begins with it.
abbrev pub field_action : FieldName → ℕ → HttpHeaderParser → Bytes → Option HttpHeaderParser
field_action content_length fuel p line =
    some (record p { content_length = some (atoi (view_from line (next_char line 15 not_blank))) })
field_action upgrade fuel p line =
    Option.map (λ f. record p { upgrade_websocket = f })
      (upgrade_loop fuel line 8 p.upgrade_websocket)
field_action host fuel p line = some (record p { host = field_value line 5 })
field_action connection fuel p line =
    Option.map (λ f. record p { connection_flags = f })
      (connection_loop fuel line 12 p.connection_flags)
field_action user_agent fuel p line = some (record p { user_agent = field_value line 11 })

head :
    (n : FieldName) (spelled rest : Bytes)
    → icase_equal spelled (name_text n) ≡ true
    → (find_pos not_blank (spelled ++ rest) ≡ 0) × (equal (spelled ++ rest) (codes "\r\n") ≡ false)
unfolding find_pos equal icase_equal to_lower
head content_length [] rest h = cc
head content_length (x ∷ xs) rest h = ground arith
head upgrade [] rest h = cc
head upgrade (x ∷ xs) rest h = ground arith
head host [] rest h = cc
head host (x ∷ xs) rest h = ground arith
head connection [] rest h = cc
head connection (x ∷ xs) rest h = ground arith
head user_agent [] rest h = cc
head user_agent (x ∷ xs) rest h = ground arith

module _ (spelled rest : Bytes) (no_nul : All (λ c. (c == 0) ≡ false) spelled) where
  header_field-name :
      (n : FieldName) (fuel : ℕ) (p : HttpHeaderParser)
      → icase_equal spelled (name_text n) ≡ true
      → header_field fuel p (spelled ++ rest) 0 ≡ field_action n fuel p (spelled ++ rest)
  unfolding header_field to_lower
  header_field-name content_length fuel p h =
      let key = c_string-append spelled rest no_nul in
      rw
        (
          icase_cmp_spelled spelled (codes "content-length:") _ (codes "content-length:") h key,
          icase_prefix_self (codes "content-length:"),
        )
        refl
  header_field-name upgrade fuel p h =
      let key = c_string-append spelled rest no_nul in
      rw
        (
          icase_cmp_spelled spelled (codes "upgrade:") _ (codes "content-length:") h key,
          icase_cmp_spelled spelled (codes "upgrade:") _ (codes "upgrade:") h key,
          icase_prefix_self (codes "upgrade:"),
        )
        refl
  header_field-name host fuel p h =
      let key = c_string-append spelled rest no_nul in
      rw
        (
          icase_cmp_spelled spelled (codes "host:") _ (codes "content-length:") h key,
          icase_cmp_spelled spelled (codes "host:") _ (codes "upgrade:") h key,
          icase_cmp_spelled spelled (codes "host:") _ (codes "host:") h key,
          icase_prefix_self (codes "host:"),
        )
        refl
  header_field-name connection fuel p h =
      let key = c_string-append spelled rest no_nul in
      rw
        (
          icase_cmp_spelled spelled (codes "connection:") _ (codes "content-length:") h key,
          icase_cmp_spelled spelled (codes "connection:") _ (codes "upgrade:") h key,
          icase_cmp_spelled spelled (codes "connection:") _ (codes "host:") h key,
          icase_cmp_spelled spelled (codes "connection:") _ (codes "connection:") h key,
          icase_prefix_self (codes "connection:"),
        )
        refl
  header_field-name user_agent fuel p h =
      let key = c_string-append spelled rest no_nul in
      rw
        (
          icase_cmp_spelled spelled (codes "user-agent:") _ (codes "content-length:") h key,
          icase_cmp_spelled spelled (codes "user-agent:") _ (codes "upgrade:") h key,
          icase_cmp_spelled spelled (codes "user-agent:") _ (codes "host:") h key,
          icase_cmp_spelled spelled (codes "user-agent:") _ (codes "connection:") h key,
          icase_cmp_spelled spelled (codes "user-agent:") _ (codes "user-agent:") h key,
          icase_prefix_self (codes "user-agent:"),
        )
        refl

  -- A name begins with a letter, so neither blanks nor a line end stand before it.
  name_head :
      (n : FieldName)
      → icase_equal spelled (name_text n) ≡ true
      → (find_pos not_blank (spelled ++ rest) ≡ 0)
        × (equal (spelled ++ rest) (codes "\r\n") ≡ false)
  name_head n h = head n spelled rest h

  -- In the state `Headers` a line that begins with the name of a special header, in any case,
  -- takes the branch of that name.
  pub push_line-name :
      (n : FieldName) (fuel : ℕ) (past : ℕ → ℕ) (p : HttpHeaderParser)
      → p.state ≡ headers
      → icase_equal spelled (name_text n) ≡ true
      → push_line fuel past p (spelled ++ rest) ≡ field_action n fuel p (spelled ++ rest)
  unfolding push_line
  push_line-name n fuel past p s h =
      let e : next_char (spelled ++ rest) 0 not_blank ≡ 0 =
        next_char-append [] (spelled ++ rest) not_blank ∙ omega (arith, (name_head n h).0) in
      ap (λ t. push_in t fuel past p (spelled ++ rest)) s
      ∙ rw ((name_head n h).1, e) (header_field-name n fuel p h)
