-- ===== src/HeaderParser/OtherFields.antt =====
-- Headers with no special meaning, and `GetHeader`.
use httpoll.Prelude.{
  ℕ, ◌+◌, ◌≡◌, refl, sym, ap, ap₂, ◌∙◌, true, false, none, some, List, [], ◌∷◌, ◌++◌, append_assoc,
  arith, ◌==◌, Bytes, codes, All, length, length-append, c_string, take-append_self,
}
use httpoll.Str.{icase_cmp}
use httpoll.Scan.{find_pos, next_char}
use httpoll.Scan.Cursor.{next_char-append, find_pos-append, find_pos-here, c_string-append}
use httpoll.HeaderParser.Types.{HttpHeaderParser, headers, equal, lookup, emplace, get_header}
use httpoll.Str.Prefix.{icase_prefix, icase_cmp-icase_prefix}
use httpoll.HeaderParser.Names.{
  FieldName, content_length, upgrade, host, connection, user_agent, name_text,
}
use httpoll.HeaderParser.Fields.{IsValue, value_text, field_value_lem}
use httpoll.HeaderParser.{not_blank, view_from, other_field, header_field, push_in, push_line}

pub equal_self : (xs : Bytes) → equal xs xs ≡ true
unfolding equal
equal_self [] = refl
equal_self (x ∷ xs) = ground (arith, equal_self xs)

pub equal_eq : (xs ys : Bytes) → equal xs ys ≡ true → xs ≡ ys
unfolding equal
equal_eq [] [] e = refl
equal_eq [] (y ∷ ys) e = cc
equal_eq (x ∷ xs) [] e = cc
equal_eq (x ∷ xs) (y ∷ ys) e =
    let head : x ≡ y = ground (arith, e) in
    let tail : equal xs ys ≡ true = ground (arith, e) in
    ap₂ (λ a t. a ∷ t) head (equal_eq xs ys tail)

-- A stored value is found; a key that was there keeps its value.
pub lookup-emplace_self :
    (key value : Bytes) (m : List (Bytes × Bytes))
    → lookup key (emplace key value m)
      ≡ elim (lookup key m) [ none ↦ some value | some old ↦ some old ]
unfolding emplace lookup
lookup-emplace_self key value m = ground (arith, equal_self key)

-- A field's line: a name with no colon and no NUL in it that begins with no blank and, with the
-- colon, is none of the special names; a colon, and a value.
pub record IsField (key blanks value : Bytes) (stop : ℕ) : Type 0 where
  pub no_colon : All (λ c. (c == b':') ≡ false) key
  pub no_nul : All (λ c. (c == 0) ≡ false) key
  pub shown : find_pos not_blank (key ++ b':' ∷ []) ≡ 0
  pub not_special : (n : FieldName) → icase_prefix (key ++ b':' ∷ []) (name_text n) ≡ false
  pub is_value : IsValue blanks value stop

abbrev pub field_line : Bytes → Bytes → Bytes → ℕ → Bytes → Bytes
field_line key blanks value stop rest = key ++ (b':' ∷ value_text blanks value stop rest)

icase_prefix-append_false :
    (a rest s : Bytes) → icase_prefix a s ≡ false → icase_prefix (a ++ rest) s ≡ false
icase_prefix-append_false [] rest s h = cc
icase_prefix-append_false (x ∷ a) rest [] h = cc
icase_prefix-append_false (x ∷ a) rest (y ∷ s) h =
    ground (arith, icase_prefix-append_false a rest s)

equal-crlf : (key rest : Bytes) → equal (key ++ b':' ∷ rest) (codes "\r\n") ≡ false
unfolding equal
equal-crlf [] rest = refl
equal-crlf (a ∷ []) rest = ground arith
equal-crlf (a ∷ b ∷ []) rest = ground arith
equal-crlf (a ∷ b ∷ c ∷ key) rest = ground arith

find_pos-append_zero :
    (key rest : Bytes)
    → find_pos not_blank (key ++ b':' ∷ []) ≡ 0
    → find_pos not_blank (key ++ b':' ∷ rest) ≡ 0
unfolding find_pos
find_pos-append_zero [] rest h = refl
find_pos-append_zero (x ∷ key) rest h = ground arith

module _ (p : HttpHeaderParser) (key blanks value : Bytes) (stop : ℕ) (rest : Bytes)
    (v : IsField key blanks value stop) where
  other_field_lem :
      other_field p (field_line key blanks value stop rest) 0
      ≡ record p { header_map = emplace key value p.header_map }
  unfolding other_field
  other_field_lem =
      let line = field_line key blanks value stop rest in
      let colon : next_char line 0 (λ c. c == b':') ≡ length key =
        next_char-append [] line (λ c. c == b':')
        ∙ omega (
          arith,
          find_pos-append (λ c. c == b':') key (b':' ∷ value_text blanks value stop rest)
              v.no_colon,
          find_pos-here (λ c. c == b':') b':' (value_text blanks value stop rest) refl,
        ) in
      let inside : (length key == length line) ≡ false =
        ground (arith, length-append key (b':' ∷ value_text blanks value stop rest)) in
      rw (colon, inside, take-append_self key (b':' ∷ value_text blanks value stop rest))
        (ap (λ x. record p { header_map = emplace key x p.header_map })
          (field_value_lem line (key ++ b':' ∷ []) blanks value stop rest (length key + 1)
            v.is_value (sym (append_assoc key (b':' ∷ []) _))
            (omega (arith, length-append key (b':' ∷ [])))))

  not_name :
      (n : FieldName)
      → icase_cmp (view_from (field_line key blanks value stop rest) 0) (name_text n) ≡ false
  not_name n =
      let after = value_text blanks value stop rest in
      ap (λ s. icase_cmp s (name_text n)) (c_string-append key (b':' ∷ after) v.no_nul)
      ∙ icase_cmp-icase_prefix _ (name_text n)
      ∙ ap (λ s. icase_prefix s (name_text n)) (sym (append_assoc key (b':' ∷ []) (c_string after)))
      ∙ icase_prefix-append_false (key ++ b':' ∷ []) (c_string after) (name_text n)
          (v.not_special n)

  -- In the state `Headers` any other field is stored under its name as it stands in the line, with its value, unless
  -- the name is there already; nothing else changes.
  pub push_line-field :
      (fuel : ℕ) (past : ℕ → ℕ)
      → p.state ≡ headers
      → push_line fuel past p (field_line key blanks value stop rest)
        ≡ some (record p { header_map = emplace key value p.header_map })
  unfolding push_line
  push_line-field fuel past s =
      let line = field_line key blanks value stop rest in
      let first : next_char line 0 not_blank ≡ 0 =
        next_char-append [] line not_blank
        ∙ omega (arith, find_pos-append_zero key (value_text blanks value stop rest) v.shown) in
      ap (λ t. push_in t fuel past p line) s
      ∙ unfold push_in header_field in
        rw
          (
            equal-crlf key (value_text blanks value stop rest),
            first,
            not_name content_length,
            not_name upgrade,
            not_name host,
            not_name connection,
            not_name user_agent,
          )
          (ap some other_field_lem)

  -- Once any other field has been pushed in the state `Headers`, `GetHeader` on its name gives its
  -- value, or the value that was stored under the name first.
  pub get_header-field :
      (fuel : ℕ) (past : ℕ → ℕ)
      → p.state ≡ headers
      → (q : HttpHeaderParser) × (push_line fuel past p (field_line key blanks value stop rest)
          ≡ some q)
        × (get_header q key ≡ elim (lookup key p.header_map) [ none ↦ value | some old ↦ old ])
  unfolding get_header
  get_header-field fuel past s = (
    record p { header_map = emplace key value p.header_map },
    push_line-field fuel past s,
    ground (arith, lookup-emplace_self key value p.header_map),
  )
