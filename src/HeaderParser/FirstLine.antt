-- ===== src/HeaderParser/FirstLine.antt =====
-- `ParseFirstLine` on a request line.
use httpoll.Prelude.{
  ℕ, suc, ◌+◌, ◌≡◌, ◌≢◌, refl, sym, ap, ap₂, ◌∙◌, false, some, [], ◌∷◌, ◌++◌, append_assoc, arith,
  leb, ◌==◌, Bytes, codes, All, All-drop, IsByte, length, drop, length-append, take-append_self,
  drop-append_self, c_string, byte_at-IsByte, Bool-cases, inl, inr,
}
use native.Mathlib.Nat.{add-zero}
use httpoll.Method.{HttpMethod, parse_http_method}
use httpoll.Method.Prefix.{parse_http_method_prefix}
use httpoll.Version.{HttpVersion, parse_http_version, http_version_to_string}
use httpoll.Version.Names.{parse_http_version_to_string}
use httpoll.Scan.{find_pos}
use httpoll.Scan.Cursor.{drop-split, find_pos-append, find_pos-here, c_string-append}
use httpoll.HeaderParser.Types.{HttpHeaderParser, first_line, headers}
use httpoll.HeaderParser.{
  is_unknown, not_blank, view_from, past_view, uri_and_version, parse_first_line, push_in,
  push_line,
}

-- The methods that the parser knows.
pub data Verb : Type 0 where
  get put post : Verb

abbrev pub verb_method : Verb → HttpMethod
verb_method get = HttpMethod.get
verb_method put = HttpMethod.put
verb_method post = HttpMethod.post

abbrev pub verb_text : Verb → Bytes
verb_text get = codes "GET"
verb_text put = codes "PUT"
verb_text post = codes "POST"

-- The request line: blanks may be repeated before the target, and anything may follow the version.
abbrev pub request_line : Verb → Bytes → Bytes → HttpVersion → Bytes → Bytes
request_line m blanks uri v rest =
    verb_text m ++ (blanks ++ (uri ++ (b' ' ∷ (http_version_to_string v ++ rest))))

pub record IsRequest (past : ℕ → ℕ) (m : Verb) (blanks uri : Bytes) (v : HttpVersion) (rest : Bytes)
    : Type 0 where
  pub past_bytes : (k : ℕ) → IsByte (past k)
  pub bytes : All IsByte (request_line m blanks uri v rest)
  pub are_blank : All (λ c. not_blank c ≡ false) blanks
  pub uri_some : uri ≢ []
  pub uri_whole : All (λ c. (c == b' ') ≡ false) uri
  pub known : v ≢ HttpVersion.ws

All-c_string : (s : Bytes) → All IsByte s → All IsByte (c_string s)
All-c_string [] h = tt
All-c_string (x ∷ s) h = elim (Bool-cases (x == 0)) [
  | inl nul ↦ rw nul tt
  | inr other ↦ rw other (h.0, All-c_string s h.1)
]

version_no_nul : (v : HttpVersion) → All (λ c. (c == 0) ≡ false) (http_version_to_string v)
unfolding http_version_to_string
version_no_nul HttpVersion.http_1_0 = ground arith
version_no_nul HttpVersion.http_1_1 = ground arith
version_no_nul HttpVersion.http_2_0 = ground arith
version_no_nul HttpVersion.ws = ground arith
version_no_nul HttpVersion.unknown = ground arith

verb_known : (m : Verb) → is_unknown (verb_method m) ≡ false
verb_known get = refl
verb_known put = refl
verb_known post = refl

uri_head :
    (uri tail : Bytes)
    → uri ≢ []
    → All (λ c. (c == b' ') ≡ false) uri
    → find_pos not_blank (uri ++ tail) ≡ 0
unfolding find_pos
uri_head [] tail ne h = absurd (ne refl)
uri_head (x ∷ uri) tail ne h = rw h.0 refl

parse_verb :
    (m : Verb) (past : ℕ → ℕ) (tail : Bytes)
    → ((k : ℕ) → IsByte (past k))
    → All IsByte (verb_text m ++ tail)
    → parse_http_method past (verb_text m ++ tail) 0 0 ≡ (verb_method m, length (verb_text m))
parse_verb get past tail hp h = parse_http_method_prefix past _ 0 0 hp h (omega arith) ∙ refl
parse_verb put past tail hp h = parse_http_method_prefix past _ 0 0 hp h (omega arith) ∙ refl
parse_verb post past tail hp h = parse_http_method_prefix past _ 0 0 hp h (omega arith) ∙ refl

module _ (past : ℕ → ℕ) (m : Verb) (uri : Bytes) (v : HttpVersion) (rest : Bytes) (blanks : Bytes)
    (valid : IsRequest past m blanks uri v rest) where
  abbrev line : Bytes
  line = request_line m blanks uri v rest

  abbrev start : ℕ
  start = length (verb_text m) + length blanks

  before_uri :
      line ≡ (verb_text m ++ blanks) ++ (uri ++ (b' ' ∷ (http_version_to_string v ++ rest)))
  before_uri = sym (append_assoc (verb_text m) blanks _)

  length-line : length line ≡ start + length uri + suc (length (http_version_to_string v ++ rest))
  length-line = omega (
    arith,
    length-append (verb_text m) (blanks ++ (uri ++ (b' ' ∷ (http_version_to_string v ++ rest)))),
    length-append blanks (uri ++ (b' ' ∷ (http_version_to_string v ++ rest))),
    length-append uri (b' ' ∷ (http_version_to_string v ++ rest)),
  )

  drop-start : drop start line ≡ uri ++ (b' ' ∷ (http_version_to_string v ++ rest))
  drop-start =
      drop-split line (verb_text m ++ blanks) _ start before_uri
        (omega (arith, length-append (verb_text m) blanks))

  uri_end :
      find_pos (λ c. c == b' ') (uri ++ (b' ' ∷ (http_version_to_string v ++ rest))) ≡ length uri
  uri_end =
      find_pos-append (λ c. c == b' ') uri _ valid.uri_whole
      ∙ rw (find_pos-here (λ c. c == b' ') b' ' (http_version_to_string v ++ rest) refl)
          (add-zero _)

  version_view : view_from line (start + length uri + 1) ≡ http_version_to_string v ++ c_string rest
  version_view =
      ap c_string (
        drop-split line (verb_text m ++ blanks ++ uri ++ (b' ' ∷ []))
          (http_version_to_string v ++ rest) (start + length uri + 1)
          (before_uri
            ∙ sym (append_assoc (verb_text m ++ blanks) uri _)
            ∙ sym (append_assoc (verb_text m ++ blanks ++ uri) (b' ' ∷ []) _))
          (omega (
            arith,
            length-append (verb_text m ++ blanks ++ uri) (b' ' ∷ []),
            length-append (verb_text m ++ blanks) uri,
            length-append (verb_text m) blanks,
          )))
      ∙ c_string-append (http_version_to_string v) rest (version_no_nul v)

  rest_bytes : All IsByte rest
  rest_bytes =
      rw
        (drop-split line (verb_text m ++ blanks ++ uri ++ (b' ' ∷ []) ++ http_version_to_string v)
          rest (length (verb_text m ++ blanks ++ uri ++ (b' ' ∷ []) ++ http_version_to_string v))
          (before_uri
            ∙ sym (append_assoc (verb_text m ++ blanks) uri _)
            ∙ sym (append_assoc (verb_text m ++ blanks ++ uri) (b' ' ∷ []) _)
            ∙ sym (
                append_assoc (verb_text m ++ blanks ++ uri ++ (b' ' ∷ []))
                  (http_version_to_string v) rest))
          refl)
        at
        (All-drop IsByte
          (length (verb_text m ++ blanks ++ uri ++ (b' ' ∷ []) ++ http_version_to_string v)) line
          valid.bytes)

  version_of :
      (pos : ℕ)
      → (parse_http_version
          (past_view past line (start + length uri + 1))
          (http_version_to_string v ++ c_string rest)
          pos).0
        ≡ v
  version_of pos =
      parse_http_version_to_string (past_view past line (start + length uri + 1)) pos
        (λ k. byte_at-IsByte past line _ valid.past_bytes valid.bytes) v (c_string rest)
        (All-c_string rest rest_bytes) valid.known

  target : uri_and_version past line start ≡ (uri, v)
  target =
      let more : leb (length line) (start + length uri) ≡ false = ground (arith, length-line) in
      rw (drop-start, uri_end, more, version_view)
        (ap₂ (λ a b. (a, b)) (take-append_self uri _) (version_of start))

  -- `ParseFirstLine` on a request line: any known method, any blanks before the target, a target
  -- that has no blank, and a version as it is printed, whatever follows it.
  parse_first_line_request : parse_first_line past line ≡ (verb_method m, uri, v)
  unfolding parse_first_line
  parse_first_line_request =
      let parsed = parse_verb m past _ valid.past_bytes valid.bytes in
      let skip : length (verb_text m) + find_pos not_blank (drop (length (verb_text m)) line)
          ≡ start =
        ap (λ n. length (verb_text m) + n)
          (rw (drop-append_self (verb_text m)) (
            find_pos-append not_blank blanks _ valid.are_blank
            ∙ rw (uri_head uri _ valid.uri_some valid.uri_whole) (add-zero _))) in
      rw (parsed, verb_known m, skip)
        (ap (λ (t : Bytes × HttpVersion). (verb_method m, t.0, t.1)) target)

  -- On a new parser the first pushed line, if it is a request line, sets the method, the target and
  -- the version that the line names, and leads to the state `Headers`; nothing else changes. A
  -- request line has a known method, any blanks, a target that is not empty and has no blank, one
  -- blank, a version other than WS as it is printed, and whatever bytes follow.
  pub push_line-request :
      (fuel : ℕ) (p : HttpHeaderParser)
      → p.state ≡ first_line
      → push_line fuel past p line
        ≡ some (record p { method = verb_method m; uri = uri; version = v; state = headers })
  unfolding push_line
  push_line-request fuel p s =
      ap (λ t. push_in t fuel past p line) s ∙ rw parse_first_line_request refl
