-- ===== src/Response/Fields.antt =====
-- The fields of a response, line by line, as a client reads them.
use httpoll.Prelude.{
  ℕ, suc, ◌+◌, ◌<◌, ◌≤◌, All-map, All-append, sym, ◌≡◌, ◌∙◌, ap, refl, false, some, List, [], ◌∷◌,
  ◌++◌, ◌==◌, append_assoc, All, Bytes, codes, length, arith,
}
use httpoll.HeaderParser.Types.{equal}
use httpoll.Response.{header_lines}
use httpoll.Response.Reader.{Without, cut_line, cut_fields, cut-append, numeral, content_length}

-- What fmt makes of a number: its decimal digits.
abbrev pub IsNumeral : Bytes → ℕ → Type 0
IsNumeral s n = All (λ x. (48 ≤ x) × (x ≤ 57)) s × (numeral 0 s ≡ n)

-- A field that a client can tell apart from the framing.
abbrev pub IsField : Bytes × Bytes → Type 0
IsField (key, value) =
    Without b':' key
    × Without b'\r' key
    × Without b'\r' value
    × (equal key (codes "Content-Length") ≡ false)

pub cut_line-append :
    (s rest : Bytes) → Without b'\r' s → cut_line (s ++ (codes "\r\n" ++ rest)) ≡ some (s, rest)
cut_line-append s rest h = rw (cut_line, cut-append b'\r' s (10 ∷ rest) h) refl

pub cut_fields-blank :
    (n : ℕ) (rest : Bytes) → cut_fields (suc n) (codes "\r\n" ++ rest) ≡ some ([], rest)
unfolding cut_fields
cut_fields-blank n rest = refl

pub Without-digits : (b n : ℕ) (s : Bytes) → b < 48 → IsNumeral s n → Without b s
Without-digits b n s low h = All-map s (λ x (l, k). ground arith) h.0

field_line :
    (key value : Bytes)
    → Without b'\r' key
    → Without b'\r' value
    → Without b'\r' (key ++ (codes ": " ++ value))
field_line key value a b =
    All-append (λ x. (x == b'\r') ≡ false) key (codes ": " ++ value) a (refl, (refl, b))

-- What the reader does with a line that is a field.
on_line :
    (n : ℕ) (key value tail rest : Bytes) (more : List (Bytes × Bytes))
    → Without b':' key
    → Without b'\r' (key ++ (codes ": " ++ value))
    → cut_fields n tail ≡ some (more, rest)
    → cut_fields (suc n) ((key ++ (codes ": " ++ value)) ++ (codes "\r\n" ++ tail))
      ≡ some ((key, value) ∷ more, rest)
unfolding cut_fields
on_line n [] value tail rest more a b h = rw (cut_line-append (codes ": " ++ value) tail b, h) refl
on_line n (x ∷ key) value tail rest more a b h =
    rw
      (
        cut_fields,
        cut_line-append (x ∷ key ++ (codes ": " ++ value)) tail b,
        cut-append b':' (x ∷ key) (b' ' ∷ value) a,
        h,
      )
      refl

-- One field, and the rest.
pub cut_fields-field :
    (n : ℕ) (key value tail rest : Bytes) (more : List (Bytes × Bytes))
    → Without b':' key
    → Without b'\r' key
    → Without b'\r' value
    → cut_fields n tail ≡ some (more, rest)
    → cut_fields (suc n) (key ++ (codes ": " ++ (value ++ (codes "\r\n" ++ tail))))
      ≡ some ((key, value) ∷ more, rest)
cut_fields-field n key value tail rest more a b c h =
    ap (cut_fields (suc n)) (sym (append_assoc key (codes ": " ++ value) (codes "\r\n" ++ tail)))
    ∙ on_line n key value tail rest more a (field_line key value b c) h

pub cut_fields-header_lines :
    (n : ℕ) (fields extra : List (Bytes × Bytes)) (tail rest : Bytes)
    → All IsField fields
    → cut_fields n tail ≡ some (extra, rest)
    → cut_fields (length fields + n) (header_lines fields ++ tail) ≡ some (fields ++ extra, rest)
unfolding header_lines
cut_fields-header_lines n [] extra tail rest ok h = let e : 0 + n ≡ n = omega arith in rw e h
cut_fields-header_lines n ((key, value) ∷ fields) extra tail rest ((a, b, c, d), ok) h =
    let e : suc (length fields) + n ≡ suc (length fields + n) = omega arith in
    let later = cut_fields-header_lines n fields extra tail rest ok h in
    rw e (
      ap (cut_fields (suc (length fields + n))) (
        append_assoc key (codes ": " ++ (value ++ (codes "\r\n" ++ header_lines fields))) tail
        ∙ ap (λ s. key ++ (codes ": " ++ s))
            (append_assoc value (codes "\r\n" ++ header_lines fields) tail))
      ∙ cut_fields-field (length fields + n) key value (header_lines fields ++ tail) rest
          (fields ++ extra) a b c later)

pub content_length-append :
    (fields extra : List (Bytes × Bytes))
    → All IsField fields
    → content_length (fields ++ extra) ≡ content_length extra
unfolding content_length
content_length-append [] extra ok = refl
content_length-append ((key, value) ∷ fields) extra (a, ok) =
    rw a.3 (content_length-append fields extra ok)
