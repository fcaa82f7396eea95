-- ===== src/Connection/Request/Printed.antt =====
-- A request as a client prints it.
mod Tests
use httpoll.Prelude.{
  ℕ, suc, ◌+◌, ◌≤◌, ◌<◌, ◌≡◌, ◌≢◌, refl, sym, ap, ◌∙◌, false, true, none, some, List, [], ◌∷◌, ◌++◌,
  ◌==◌, arith, Bytes, codes, length, append_assoc, All, All-append_left, IsByte,
}
use mathlib.Core.Path.{subst}
use httpoll.Version.{HttpVersion, http_version_to_string}
use httpoll.Socket.{ReadEvent}
use httpoll.HeaderParser.Types.{HttpHeaderParser, initial, headers, done, emplace, get_header}
use httpoll.HeaderParser.{push_line}
use httpoll.HeaderParser.FirstLine.{
  Verb, verb_method, verb_text, request_line, IsRequest, push_line-request,
}
use httpoll.HeaderParser.OtherFields.{IsField, push_line-field}
use httpoll.HeaderParser.StoredFields.{
  Field, printed, stored, first_value, or_empty, get_header-stored,
}
use httpoll.HeaderParser.States.{push_line-blank}
use httpoll.Connection.{
  Connection, pop_line, small_memory, returns_at, is_body, complete, state_ret, process_data_in,
}
use httpoll.Connection.Lines.{NoCrlf, pop_line-append}
use httpoll.Connection.Reading.{reads_left}
use httpoll.Connection.Stream.{stream}
use httpoll.Connection.Whole.{IsLine}
use httpoll.Connection.Head.{Head, next, last, flat}
use httpoll.Connection.Request.{IsData, process_data_in-lines}

abbrev pub NoCr : Bytes → Type 0
NoCr s = All (λ x. (x == b'\r') ≡ false) s

NoCr-NoCrlf : (s : Bytes) → NoCr s → NoCrlf (s ++ b'\r' ∷ [])
NoCr-NoCrlf [] h = tt
NoCr-NoCrlf (x ∷ []) h = ((λ e. absurd (omega (arith, e.1))), tt)
NoCr-NoCrlf (x ∷ y ∷ s) h =
    let other : x ≢ b'\r' = ground (arith, h.0) in ((λ e. other e.0), NoCr-NoCrlf (y ∷ s) h.1)

-- A text without CR, and a CR LF.
pub ended-IsLine : (s : Bytes) → All IsByte s → NoCr s → IsLine (s ++ codes "\r\n")
ended-IsLine s bytes h = pop_line-append s [] bytes (NoCr-NoCrlf s h)

-- The text of a field without its CR LF, and a field that fits in a line.
abbrev pub content : Field → Bytes
content f = f.name ++ (b':' ∷ (f.blanks ++ f.value))

pub record IsPrinted (f : Field) : Type 0 where
  pub is_field : IsField f.name f.blanks f.value b'\r'
  pub bytes : All IsByte (content f)
  pub no_cr : NoCr (content f)
  pub small : length (printed f) ≤ small_memory

printed-content : (f : Field) → printed f ≡ content f ++ codes "\r\n"
printed-content f =
    ap (λ s. f.name ++ (b':' ∷ s)) (sym (append_assoc f.blanks f.value (codes "\r\n")))
    ∙ sym (append_assoc f.name (b':' ∷ (f.blanks ++ f.value)) (codes "\r\n"))

printed-IsLine : (f : Field) → IsPrinted f → IsLine (printed f)
printed-IsLine f h =
    subst IsLine (sym (printed-content f)) (ended-IsLine (content f) h.bytes h.no_cr)

-- The lines of the fields, and those behind them.
abbrev pub field_lines : List Field → List Bytes → List Bytes
field_lines [] behind = behind
field_lines (f ∷ fields) behind = printed f ∷ field_lines fields behind

module _ (fuel : ℕ) (past : ℕ → ℕ) where
  pub field_lines-Head :
      (fields : List Field) (behind : List Bytes) (p q : HttpHeaderParser)
      → All IsPrinted fields
      → p.state ≡ headers
      → Head fuel past (record p { header_map = stored fields p.header_map }) behind q
      → Head fuel past p (field_lines fields behind) q
  field_lines-Head [] behind p q ok in_headers later = later
  field_lines-Head (f ∷ fields) behind p q (h, ok) in_headers later =
      let r = record p { header_map = emplace f.name f.value p.header_map } in
      next p r q (printed f) (field_lines fields behind) (printed-IsLine f h) h.small
        (push_line-field p f.name f.blanks f.value b'\r' (codes "\n") h.is_field fuel past
          in_headers)
        (ap returns_at in_headers) (field_lines-Head fields behind r q ok in_headers later)

  module _ (m : Verb) (blanks uri : Bytes) (v : HttpVersion) where
    -- The request line without its CR LF.
    abbrev pub front : Bytes
    front = verb_text m ++ (blanks ++ (uri ++ (b' ' ∷ http_version_to_string v)))

    request_line-front : request_line m blanks uri v (codes "\r\n") ≡ front ++ codes "\r\n"
    request_line-front =
        let version = b' ' ∷ http_version_to_string v in
        ap (λ s. verb_text m ++ (blanks ++ s)) (sym (append_assoc uri version (codes "\r\n")))
        ∙ ap (λ s. verb_text m ++ s) (sym (append_assoc blanks (uri ++ version) (codes "\r\n")))
        ∙ sym (append_assoc (verb_text m) (blanks ++ (uri ++ version)) (codes "\r\n"))

    pub record IsPrintedLine : Type 0 where
      pub is_request : IsRequest past m blanks uri v (codes "\r\n")
      pub no_cr : NoCr front
      pub small : length (request_line m blanks uri v (codes "\r\n")) ≤ small_memory

    abbrev pub request_lines : List Field → List Bytes → List Bytes
    request_lines fields behind =
        request_line m blanks uri v (codes "\r\n") ∷ field_lines fields behind

    -- What the parser makes of them.
    abbrev pub parsed : List Field → HttpHeaderParser
    parsed fields = record initial {
      method = verb_method m;
      uri = uri;
      version = v;
      header_map = stored fields [];
      state = headers;
    }

    pub request_lines-Head :
        (fields : List Field) (behind : List Bytes) (q : HttpHeaderParser)
        → IsPrintedLine
        → All IsPrinted fields
        → Head fuel past (parsed fields) behind q
        → Head fuel past initial (request_lines fields behind) q
    request_lines-Head fields behind q h ok later =
        let line = request_line m blanks uri v (codes "\r\n") in
        let r = record initial {
          method = verb_method m;
          uri = uri;
          version = v;
          state = headers;
        } in
        let bytes : All IsByte front =
          All-append_left IsByte front (codes "\r\n")
            (subst (All IsByte) request_line-front h.is_request.bytes) in
        let is_line : IsLine line =
          subst IsLine (sym request_line-front) (ended-IsLine front bytes h.no_cr) in
        next initial r q line (field_lines fields behind) is_line h.small
          (push_line-request past m uri v (codes "\r\n") blanks h.is_request fuel initial refl) refl
          (field_lines-Head fields behind r q ok refl later)

    blank-Head :
        (fields : List Field)
        → Head fuel past
            (parsed fields)
            (codes "\r\n" ∷ [])
            (record (parsed fields) { state = done })
    blank-Head fields =
        last (parsed fields) (record (parsed fields) { state = done }) (codes "\r\n")
          (ended-IsLine [] tt tt) (omega arith)
          (push_line-blank fuel past (parsed fields) refl refl) refl

    -- Printing, sending and parsing: on a new parser, where the stream holds a request line (a method that is
    -- known, a target without blanks, a version other than WS), any number of fields with no special
    -- meaning, and a blank line, none longer than SMALL_MEMORY and with no CR but at their ends, in whatever
    -- segments they arrive, the first line not whole in the buffer yet: `ProcessDataIn` returns 1, the parser
    -- has the method, the target and the version, `GetHeader` gives for every name the value of its first
    -- field, or the empty view, and what stands behind the request is left.
    pub process_data_in-printed :
        (rounds : ℕ) (c : Connection) (fields : List Field) (rest key : Bytes)
        → IsPrintedLine
        → All IsPrinted fields
        → c.parser ≡ initial
        → stream c ≡ flat (request_lines fields (codes "\r\n" ∷ [])) ++ rest
        → pop_line c.buffer ≡ none
        → IsData c.socket.incoming
        → length c.buffer ≤ small_memory
        → small_memory + reads_left c.socket.incoming < rounds
        → (d : Connection) × (process_data_in rounds fuel past c ≡ some (complete, d))
          × (d.parser.method ≡ verb_method m)
          × (d.parser.uri ≡ uri)
          × (d.parser.version ≡ v)
          × (get_header d.parser key ≡ or_empty (first_value key fields))
          × (stream d ≡ rest)
    unfolding state_ret
    process_data_in-printed rounds c fields rest key h ok new text part comes small enough =
        let lines = request_lines fields (codes "\r\n" ∷ []) in
        let q = record (parsed fields) { state = done } in
        let head = request_lines-Head fields (codes "\r\n" ∷ []) q h ok (blank-Head fields) in
        let (d, full, parser, left) =
          process_data_in-lines fuel past q rest rounds c lines
            (subst (λ p. Head fuel past p lines q) (sym new) head) text part
            (ap (λ p. is_body p.state) new) comes small enough in
        (
          d,
          full,
          ap (λ p. p.method) parser,
          ap (λ p. p.uri) parser,
          ap (λ p. p.version) parser,
          get_header-stored d.parser key fields (ap (λ p. p.header_map) parser),
          left,
        )
