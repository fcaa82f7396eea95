-- ===== src/Response/RoundTrip.antt =====
-- The responses of `MakeResponse`, read by a client.
use httpoll.Prelude.{
  ℤ, pos, ℕ, suc, ◌+◌, ◌-◌, ◌<◌, ◌≡◌, ◌⊎◌, ◌∙◌, ap, refl, some, List, [], ◌∷◌, ◌++◌, append_assoc,
  All, Bytes, codes, length, take-append_self, drop-append_self, arith,
}
use httpoll.HeaderParser.Types.{equal}
use httpoll.Version.{HttpVersion, http_version_to_string}
use httpoll.Response.{message_of, header_lines, body_part, status_line, make_response}
use httpoll.Response.Status.{Unlisted, make_response_lem}
use httpoll.Response.Reader.{Reply, cut_line, cut_fields, cut-append, content_length, read_reply}
use httpoll.Response.Fields.{
  IsNumeral, IsField, cut_line-append, cut_fields-blank, Without-digits, cut_fields-field,
  cut_fields-header_lines, content_length-append,
}
use httpoll.Response.Texts.{version-Without, message_of-Without}

module _ (format : ℕ → Bytes) (numerals : (n : ℕ) → IsNumeral (format n) n) where
  -- The field that MakeResponse adds for a body that is not empty.
  abbrev pub sized : Bytes → List (Bytes × Bytes)
  sized [] = []
  sized (x ∷ xs) = (codes "Content-Length", format (length (x ∷ xs))) ∷ []

  content_length-sized : (content : Bytes) → content_length (sized content) ≡ length content
  unfolding content_length equal
  content_length-sized [] = refl
  content_length-sized (x ∷ xs) = (numerals (length (x ∷ xs))).1

  cut_fields-body_part :
      (n : ℕ) (content more : Bytes)
      → cut_fields (suc (suc n)) (body_part format content ++ more)
        ≡ some (sized content, content ++ more)
  unfolding body_part
  cut_fields-body_part n [] more = cut_fields-blank (suc n) more
  cut_fields-body_part n (x ∷ xs) more =
      let size = format (length (x ∷ xs)) in
      ap (λ s. cut_fields (suc (suc n)) (codes "Content-Length: " ++ s))
        (append_assoc size (codes "\r\n\r\n" ++ x ∷ xs) more)
      ∙ cut_fields-field (suc n) (codes "Content-Length") size (codes "\r\n" ++ (x ∷ xs ++ more))
          (x ∷ xs ++ more) [] (ground arith) (ground arith)
          (Without-digits b'\r' _ size (omega arith) (numerals (length (x ∷ xs))))
          (cut_fields-blank n (x ∷ xs ++ more))

  reason_line :
      (reason rest : Bytes) (status : ℕ)
      → message_of status ≡ some reason
      → cut_line (reason ++ (codes "\r\n" ++ rest)) ≡ some (reason, rest)
  reason_line reason rest status listed =
      cut_line-append reason rest (message_of-Without status reason listed)

  -- What a client reads back.
  abbrev pub reply : HttpVersion → ℕ → Bytes → List (Bytes × Bytes) → Bytes → Reply
  reply version status reason fields content = record {
    version = http_version_to_string version;
    status = status;
    reason = reason;
    fields = fields ++ sized content;
    content = content;
  }

  -- The response, with what follows it, grouped as the client reads it.
  grouped :
      (version : HttpVersion) (status : ℕ) (reason : Bytes) (fields : List (Bytes × Bytes))
      (content more : Bytes)
      → (status_line format version status reason
            ++ (header_lines fields ++ body_part format content))
          ++ more
        ≡ http_version_to_string version
          ++ (codes " "
              ++ (format status
                  ++ (codes " "
                      ++ (reason
                          ++ (codes "\r\n"
                              ++ (header_lines fields ++ (body_part format content ++ more)))))))
  unfolding status_line
  grouped version status reason fields content more =
      let tail = header_lines fields ++ body_part format content in
      let v = http_version_to_string version in simp append_assoc refl

  replied :
      (version : HttpVersion) (status : ℕ) (reason : Bytes) (fields : List (Bytes × Bytes))
      (content more : Bytes) (n : ℕ)
      → message_of status ≡ some reason
      → All IsField fields
      → read_reply (length fields + suc (suc n)) (
          (status_line format version status reason
            ++ (header_lines fields ++ body_part format content))
          ++ more)
        ≡ some (reply version status reason fields content, more)
  unfolding read_reply
  replied version status reason fields content more n listed ok =
      let after_fields = body_part format content ++ more in
      let after_reason = header_lines fields ++ after_fields in
      let after_status = reason ++ (codes "\r\n" ++ after_reason) in
      let size : content_length (fields ++ sized content) ≡ length content =
        content_length-append fields (sized content) ok ∙ content_length-sized content in
      rw
        (
          grouped version status reason fields content more,
          read_reply,
          cut-append b' ' (http_version_to_string version)
              (format status ++ (codes " " ++ after_status)) (version-Without version),
          cut-append b' ' (format status) after_status
              (Without-digits b' ' status (format status) (omega arith) (numerals status)),
          reason_line reason after_reason status listed,
          cut_fields-header_lines (suc (suc n)) fields (sized content) after_fields
              (content ++ more) ok (cut_fields-body_part n content more),
          size,
          take-append_self content more,
          drop-append_self content more,
          (numerals status).1,
        )
        refl

  pub read_reply-make_response :
      (given : ℤ) (version : HttpVersion) (fields : List (Bytes × Bytes)) (content more : Bytes)
      (lines : ℕ)
      → All IsField fields
      → length fields + 1 < lines
      → (text : Bytes) × (status : ℕ) × (reason : Bytes) × (make_response format given version
            fields content
          ≡ some text)
        × (message_of status ≡ some reason)
        × ((given ≡ pos status) ⊎ (status ≡ 500) × Unlisted given)
        × (read_reply lines (text ++ more)
            ≡ some (reply version status reason fields content, more))
  read_reply-make_response given version fields content more lines ok enough =
      let (status, reason, listed, which, made) =
        make_response_lem format given version fields content in
      let e : lines ≡ length fields + suc (suc (lines - (length fields + 2))) = omega arith in
      (
        status_line format version status reason
            ++ (header_lines fields ++ body_part format content),
        status,
        reason,
        made,
        listed,
        which,
        ap
              (λ n. read_reply n (
                (status_line format version status reason
                  ++ (header_lines fields ++ body_part format content))
                ++ more))
              e
            ∙ replied version status reason fields content more (lines - (length fields + 2)) listed
                ok,
      )
