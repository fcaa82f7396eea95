-- ===== src/Connection/Request/Posted.antt =====
-- A request with a body, as a client prints it: the head, and the body in segments of its own.
mod Tests
use httpoll.Prelude.{
  ℕ, zero, suc, ◌+◌, ◌%◌, ◌^◌, ◌≤◌, ◌<◌, ◌≡◌, refl, sym, ap, ◌∙◌, true, false, none, some, List, [],
  ◌∷◌, ◌++◌, ◌==◌, arith, Bytes, codes, length, append-nil, All, All-append, IsByte,
}
use mathlib.Core.Path.{subst}
use httpoll.Version.{HttpVersion}
use httpoll.Str.{icase_equal, to_lower}
use httpoll.Scan.Decimal.{decimal, digit_text}
use httpoll.HeaderParser.Types.{HttpHeaderParser, initial, headers, body, done, equal, get_header}
use httpoll.HeaderParser.{push_line}
use httpoll.HeaderParser.FirstLine.{Verb, verb_method}
use httpoll.HeaderParser.Fields.{push_line-content_length, push_line-blank_body}
use httpoll.HeaderParser.StoredFields.{Field, stored, first_value, or_empty, get_header-stored}
use httpoll.HeaderParser.States.{total, push_line-blank}
use httpoll.Connection.{
  Connection, ProcessRet, pop_line, small_memory, returns_at, is_body, need_body, state_ret,
  process_data_in,
}
use httpoll.Connection.Reading.{reads_left}
use httpoll.Connection.Stream.{stream}
use httpoll.Connection.Head.{Head, next, last, flat}
use httpoll.Connection.Request.Printed.{
  NoCr, ended-IsLine, IsPrinted, IsPrintedLine, request_lines, parsed, request_lines-Head,
}
use httpoll.Connection.Request.Upload.{IsSegment, upload, parts, upload-parts}
use httpoll.Connection.Request.{IsData, process_data_in-lines}

-- The lines behind the other fields.
abbrev pub length_line : ℕ → List ℕ → Bytes
length_line d ds = codes "Content-Length: " ++ (digit_text (d ∷ ds) ++ codes "\r\n")

abbrev pub length_lines : ℕ → List ℕ → List Bytes
length_lines d ds = length_line d ds ∷ codes "\r\n" ∷ []

digit_text-bytes : (ds : List ℕ) → All (λ n. n < 10) ds → All IsByte (digit_text ds)
digit_text-bytes [] h = tt
digit_text-bytes (d ∷ ds) h = (omega (arith, h.0), digit_text-bytes ds h.1)

digit_text-NoCr : (ds : List ℕ) → All (λ n. n < 10) ds → NoCr (digit_text ds)
digit_text-NoCr [] h = tt
digit_text-NoCr (d ∷ ds) h = (ground (arith, h.0), digit_text-NoCr ds h.1)

spelled : icase_equal (codes "Content-Length:") (codes "content-length:") ≡ true
unfolding icase_equal to_lower
spelled = refl

module _ (fuel : ℕ) (past : ℕ → ℕ) (d : ℕ) (ds : List ℕ) (digits : All (λ n. n < 10) (d ∷ ds))
    (short : length (length_line d ds) ≤ small_memory) where
  -- The parser with the length, in the body.
  abbrev pub with_length : HttpHeaderParser → HttpHeaderParser
  with_length p = record p { content_length = some (decimal (d ∷ ds) % 2 ^ 32); state = body }

  length_lines-Head :
      (p : HttpHeaderParser)
      → p.state ≡ headers
      → Head fuel past p (length_lines d ds) (with_length p)
  length_lines-Head p in_headers =
      let r = record p { content_length = some (decimal (d ∷ ds) % 2 ^ 32) } in
      let text = codes "Content-Length: " ++ digit_text (d ∷ ds) in
      let is_line =
        ended-IsLine text
          (All-append IsByte (codes "Content-Length: ") (digit_text (d ∷ ds)) (omega arith)
            (digit_text-bytes (d ∷ ds) digits))
          (All-append (λ x. (x == b'\r') ≡ false) (codes "Content-Length: ") (digit_text (d ∷ ds))
            (ground arith) (digit_text-NoCr (d ∷ ds) digits)) in
      next p r (with_length p) (length_line d ds) (codes "\r\n" ∷ []) is_line short
        (push_line-content_length fuel past p (codes "Content-Length:") (codes " ") d ds
          (codes "\r\n") in_headers (ground arith) spelled (ground arith) digits refl)
        (ap returns_at in_headers)
        (last r (with_length p) (codes "\r\n") (ended-IsLine [] tt tt) (omega arith)
          (push_line-blank_body fuel past r (decimal (d ∷ ds) % 2 ^ 32) in_headers refl) refl)

  module _ (m : Verb) (blanks uri : Bytes) (v : HttpVersion) (fields : List Field) where
    -- The lines of the head.
    abbrev pub posted_lines : List Bytes
    posted_lines = request_lines fuel past m blanks uri v fields (length_lines d ds)

    posted_lines-Head :
        IsPrintedLine fuel past m blanks uri v
        → All IsPrinted fields
        → Head fuel past initial posted_lines (with_length (parsed fuel past m blanks uri v fields))
    posted_lines-Head h ok =
        let p = parsed fuel past m blanks uri v fields in
        request_lines-Head fuel past m blanks uri v fields (length_lines d ds) (with_length p) h ok
          (length_lines-Head p refl)

    -- A request with a body, from its bytes to the handler: on a new parser, where the stream holds a request
    -- line, fields with no special meaning, a Content-Length of at least 1 and less than 2^32, and a blank
    -- line, none longer than SMALL_MEMORY and with no CR but at their ends, in whatever segments they arrive:
    -- `ProcessDataIn` returns 0, nothing is left of the stream, and the parser has the method, the target and,
    -- by GetHeader, the first field of each name. When the body then comes in segments of up to
    -- SMALL_MEMORY bytes, none with CR LF in it, each after the last has been read, `ProcessDataIn` returns 0
    -- for each but the last and 1 for that, and what the handler can pop is each time that segment.
    pub process_data_in-posted :
        (rounds more : ℕ) (c : Connection) (key : Bytes) (segments : List Bytes)
        → IsPrintedLine fuel past m blanks uri v
        → All IsPrinted fields
        → decimal (d ∷ ds) < 2 ^ 32
        → 0 < decimal (d ∷ ds)
        → c.parser ≡ initial
        → stream c ≡ flat posted_lines
        → pop_line c.buffer ≡ none
        → IsData c.socket.incoming
        → length c.buffer ≤ small_memory
        → small_memory + reads_left c.socket.incoming < rounds
        → All IsSegment segments
        → total segments ≡ decimal (d ∷ ds)
        → (e : Connection) × (last : Connection) × (process_data_in rounds fuel past c
            ≡ some (need_body, e))
          × (e.parser.method ≡ verb_method m)
          × (e.parser.uri ≡ uri)
          × (get_header e.parser key ≡ or_empty (first_value key fields))
          × (stream e ≡ [])
          × (upload (suc more) fuel past e segments ≡ some (parts segments, last))
          × (last.parser.state ≡ done)
    unfolding state_ret
    process_data_in-posted rounds more c key segments h ok fits some_body new text part comes small
          enough are_segments sum =
        let q = with_length (parsed fuel past m blanks uri v fields) in
        let l = decimal (d ∷ ds) % 2 ^ 32 in
        let same : l ≡ decimal (d ∷ ds) = omega arith in
        let (e, full, parser, left) =
          process_data_in-lines fuel past q [] rounds c posted_lines
            (subst (λ p. Head fuel past p posted_lines q) (sym new) (posted_lines-Head h ok))
            (text ∙ sym (append-nil (flat posted_lines))) part (ap (λ p. is_body p.state) new) comes
            small enough in
        let none_read : e.parser.body_length ≡ 0 = ap (λ p. p.body_length) parser in
        let (last_one, answers, ends) =
          upload-parts more fuel past segments e l are_segments (ap (λ p. p.state) parser)
            (ap (λ p. p.content_length) parser) (omega arith) (omega arith) (omega arith) in
        (
          e,
          last_one,
          full,
          ap (λ p. p.method) parser,
          ap (λ p. p.uri) parser,
          get_header-stored e.parser key fields (ap (λ p. p.header_map) parser),
          left,
          answers,
          ends,
        )
