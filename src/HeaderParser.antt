-- ===== src/HeaderParser.antt =====
-- src/hpl_header_parser.h and src/hpl_header_parser.cc: `HttpHeaderParser`, fed line by line.
-- `past` is the memory behind the terminator of the line, which the word comparisons may read.
-- `fuel` bounds the rounds of each of the two `do` loops; `none` means that a loop is still running
-- after so many rounds.
mod Examples
pub mod Types
pub mod FirstLine
pub mod States
pub mod Connection
pub mod Names
pub mod ConnectionHeader
pub mod Upgrade
pub mod Fields
pub mod OtherFields
pub mod StoredFields
mod Tests
pub mod Samples
pub mod UpgradeSamples
pub mod FieldSamples
use httpoll.Prelude.{
  ℕ, zero, suc, ◌+◌, ◌-◌, Bool, true, false, ◌&&◌, ◌||◌, not, Option, none, some, [], ◌∷◌, leb,
  ◌==◌, if◌then◌else◌, Bytes, codes, length, take, drop, slice, c_string, byte_at, add_unsigned,
}
use httpoll.Method.{HttpMethod, parse_http_method}
use httpoll.Version.{HttpVersion, parse_http_version}
use httpoll.Str.{icase_cmp}
use httpoll.Scan.{find_pos, next_char, atoi}
use mathlib.Core.Option
use httpoll.HeaderParser.Types.{
  ParserState, first_line, headers, body, done, ConnectionFlags, HttpHeaderParser, equal, emplace,
}

abbrev pub not_blank : ℕ → Bool
not_blank c = not (c == b' ')

abbrev pub line_end : ℕ → Bool
line_end c = c == b'\r' || c == b'\n'

abbrev is_unknown : HttpMethod → Bool
is_unknown HttpMethod.unknown = true
is_unknown _ = false

-- The view behind the second blank, and the memory behind its terminator.
abbrev pub view_from : Bytes → ℕ → Bytes
view_from line start = c_string (drop start line)

abbrev pub past_view : (ℕ → ℕ) → Bytes → ℕ → ℕ → ℕ
past_view past line start i = byte_at past line (start + suc (length (view_from line start)) + i)

-- `line.find(' ', pos)` and what is made of it: `npos + 1` is 0.
abbrev uri_and_version : (ℕ → ℕ) → Bytes → ℕ → Bytes × HttpVersion
uri_and_version past line pos =
    let n = find_pos (λ c. c == b' ') (drop pos line) in
    let start = if leb (length line) (pos + n) then 0 else pos + n + 1 in
    (
      slice pos n line,
      (parse_http_version (past_view past line start) (view_from line start) pos).0,
    )

pub parse_first_line : (ℕ → ℕ) → Bytes → HttpMethod × Bytes × HttpVersion
parse_first_line past line =
    let (method, pos) = parse_http_method past line 0 0 in
    if is_unknown method
    then (HttpMethod.unknown, [], HttpVersion.unknown)
    else (let (uri, version) =
          uri_and_version past line (pos + find_pos not_blank (drop pos line)) in
        (method, uri, version))

-- One round of the `do` loop of `Upgrade:`, entered with the iterator at `iter`: the iterator
-- afterwards and the flag.
upgrade_round : Bytes → ℕ → Bool → ℕ × Bool
upgrade_round line iter flag =
    let at = next_char line (iter + 1) (λ c. not_blank c || not (c == b'\r') || not (c == b'\n')) in
    if at == length line
    then (at, flag)
    else if icase_cmp (view_from line at) (codes "websocket")
    then (next_char line (at + 1) (λ c. c == b','), true)
    else (at, flag)

pub upgrade_loop : ℕ → Bytes → ℕ → Bool → Option Bool
upgrade_loop zero line iter flag = none
upgrade_loop (suc fuel) line iter flag =
    let (at, flag') = upgrade_round line iter flag in
    let rest = upgrade_loop fuel line at flag' in if at == length line then some flag' else rest

-- Behind a token, and behind the comma that follows it; one past the end if none does.
abbrev pub behind_comma : Bytes → ℕ → ℕ
behind_comma line iter = next_char line iter (λ c. c == b',') + 1

-- One round of the `do` loop of `Connection:` at the token that stands at `at`.
pub connection_round : Bytes → ℕ → ConnectionFlags → ℕ × ConnectionFlags
connection_round line at flags =
    if icase_cmp (view_from line at) (codes "upgrade")
    then (behind_comma line (at + 7), record flags { upgrade = true })
    else if icase_cmp (view_from line at) (codes "keep-alive")
    then (behind_comma line (at + 10), record flags { keep_alive = true })
    else if icase_cmp (view_from line at) (codes "close")
    then (behind_comma line (at + 5), record flags { close = true })
    else (at, flags)

pub connection_loop : ℕ → Bytes → ℕ → ConnectionFlags → Option ConnectionFlags
connection_loop zero line iter flags = none
connection_loop (suc fuel) line iter flags =
    let at = next_char line iter not_blank in
    let (iter', flags') = connection_round line at flags in
    let rest = connection_loop fuel line iter' flags' in
    if at == length line then some flags else rest

-- The value behind a colon: from the first byte that is no blank up to the end of the line.
pub field_value : Bytes → ℕ → Bytes
field_value line iter =
    let first = next_char line iter not_blank in
    let last = next_char line first line_end in slice first (last - first) line

-- The last branch of the ladder, for a name with no meaning to the parser.
other_field : HttpHeaderParser → Bytes → ℕ → HttpHeaderParser
other_field p line iter =
    let colon = next_char line iter (λ c. c == b':') in
    if colon == length line then p else record p {
      header_map = emplace (take colon line) (field_value line (colon + 1)) p.header_map;
    }

-- A header line that is not blank; its first byte that is no blank stands at `iter`.
header_field : ℕ → HttpHeaderParser → Bytes → ℕ → Option HttpHeaderParser
header_field fuel p line iter =
    let key = view_from line iter in
    if icase_cmp key (codes "content-length:")
    then some (record p {
      content_length = some (atoi (view_from line (next_char line (iter + 15) not_blank)));
    })
    else if icase_cmp key (codes "upgrade:")
    then Option.map (λ f. record p { upgrade_websocket = f })
        (upgrade_loop fuel line (iter + 8) p.upgrade_websocket)
    else if icase_cmp key (codes "host:")
    then some (record p { host = field_value line (iter + 5) })
    else if icase_cmp key (codes "connection:")
    then Option.map (λ f. record p { connection_flags = f })
        (connection_loop fuel line (iter + 12) p.connection_flags)
    else if icase_cmp key (codes "user-agent:")
    then some (record p { user_agent = field_value line (iter + 11) })
    else some (other_field p line iter)

-- The state behind the blank line.
abbrev pub after_headers : Option ℕ → ParserState
after_headers none = done
after_headers (some _) = body

-- `content_length_ && body_length_ >= *content_length_`
abbrev pub is_complete : Option ℕ → ℕ → Bool
is_complete none n = false
is_complete (some l) n = leb l n

push_body : HttpHeaderParser → Bytes → HttpHeaderParser
push_body p line =
    let n = add_unsigned p.body_length (length line) in
    record p { body_length = n; state = if is_complete p.content_length n then done else body }

push_in : ParserState → ℕ → (ℕ → ℕ) → HttpHeaderParser → Bytes → Option HttpHeaderParser
unfolding push_body
push_in first_line fuel past p line =
    let (m, u, v) = parse_first_line past line in
    some (record p { method = m; uri = u; version = v; state = headers })
push_in headers fuel past p line =
    if equal line (codes "\r\n")
    then some (record p { state = after_headers p.content_length })
    else header_field fuel p line (next_char line 0 not_blank)
push_in body fuel past p line = some (push_body p line)
push_in done fuel past p line = some p

-- `PushLine`; the state that it returns is the field of the new parser.
pub push_line : ℕ → (ℕ → ℕ) → HttpHeaderParser → Bytes → Option HttpHeaderParser
unfolding push_in
push_line fuel past p line = push_in p.state fuel past p line
