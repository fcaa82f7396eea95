-- ===== src/Response/Reader.antt =====
-- What a client reads from a stream of responses, by RFC 7230: a status line, fields up to a blank line,
-- and as many bytes as Content-Length says. src/hpl_response.h is compared with it.
use httpoll.Prelude.{
  ℕ, zero, suc, ◌+◌, ◌-◌, ◌*◌, ◌≡◌, refl, true, false, Option, none, some, List, [], ◌∷◌, ◌++◌,
  ◌==◌, if◌then◌else◌, arith, All, Bytes, codes, take, drop,
}
use httpoll.HeaderParser.Types.{equal}

pub record Reply : Type 0 where
  pub version : Bytes
  pub status : ℕ
  pub reason : Bytes
  pub fields : List (Bytes × Bytes)
  pub content : Bytes

-- The text up to a byte, and what follows that byte.
unfoldable pub cut : ℕ → Bytes → Option (Bytes × Bytes)
cut b [] = none
cut b (x ∷ xs) =
    let rest = cut b xs in
    if x == b
    then some ([], xs)
    else elim rest [ none ↦ none | some (s, left) ↦ some (x ∷ s, left) ]

-- A line ends in CR and one more byte.
abbrev pub cut_line : Bytes → Option (Bytes × Bytes)
cut_line s = elim (cut b'\r' s) [ none ↦ none | some (l, left) ↦ some (l, drop 1 left) ]

unfoldable pub numeral : ℕ → Bytes → ℕ
numeral acc [] = acc
numeral acc (x ∷ xs) = numeral (acc * 10 + (x - b'0')) xs

-- The fields up to the blank line, and what follows it; on the number of lines.
unfoldable pub cut_fields : ℕ → Bytes → Option (List (Bytes × Bytes) × Bytes)
unfolding cut
cut_fields zero s = none
cut_fields (suc n) s = elim (cut_line s) [
  | none ↦ none
  | some ([], left) ↦ some ([], left)
  | some (x ∷ l, left) ↦ elim (cut b':' (x ∷ l)) [
    | none ↦ none
    | some (key, value) ↦ elim (cut_fields n left) [
      | none ↦ none
      | some (more, rest) ↦ some ((key, drop 1 value) ∷ more, rest)
    ]
  ]
]

unfoldable pub content_length : List (Bytes × Bytes) → ℕ
unfolding numeral
content_length [] = 0
content_length ((key, value) ∷ fields) =
    let rest = content_length fields in
    if equal key (codes "Content-Length") then numeral 0 value else rest

-- The first response, and what follows it.
unfoldable pub read_reply : ℕ → Bytes → Option (Reply × Bytes)
unfolding cut cut_fields content_length
read_reply lines s = elim (cut b' ' s) [
  | none ↦ none
  | some (version, s₁) ↦ elim (cut b' ' s₁) [
    | none ↦ none
    | some (status, s₂) ↦ elim (cut_line s₂) [
      | none ↦ none
      | some (reason, s₃) ↦ elim (cut_fields lines s₃) [
        | none ↦ none
        | some (fields, s₄) ↦
            let n = content_length fields in
            some (
              record {
                version = version;
                status = numeral 0 status;
                reason = reason;
                fields = fields;
                content = take n s₄;
              },
              drop n s₄,
            )
      ]
    ]
  ]
]

-- A text without a byte.
abbrev pub Without : ℕ → Bytes → Type 0
Without b s = All (λ x. (x == b) ≡ false) s

pub cut-append : (b : ℕ) (s rest : Bytes) → Without b s → cut b (s ++ b ∷ rest) ≡ some (s, rest)
unfolding cut
cut-append b [] rest h = let same : (b == b) ≡ true = ground arith in rw same refl
cut-append b (x ∷ s) rest h = rw (h.0, cut-append b s rest h.1) refl
