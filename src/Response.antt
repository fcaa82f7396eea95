-- ===== src/Response.antt =====
-- src/hpl_response.h: `kStatusMessages` and `MakeResponse`.
mod Tests
pub mod Reader
pub mod Fields
pub mod Texts
pub mod Decimal
pub mod RoundTrip
pub mod Status
use httpoll.Prelude.{
  ℤ, pos, negsuc, ℕ, ◌+◌, ◌-◌, ◌/◌, ◌%◌, Bool, true, false, ◌||◌, Option, none, some, List, [], ◌∷◌,
  ◌++◌, leb, ltb, if◌then◌else◌, Bytes, codes, length, get_elem?,
}
use httpoll.Version.{HttpVersion, http_version_to_string}

abbrev informational : List Bytes
informational =
    codes "Continue" ∷ codes "Switching Protocols" ∷ codes "Processing" ∷ codes "Early Hints" ∷ []

abbrev successful : List Bytes
successful =
    codes "OK"
    ∷ codes "Created"
    ∷ codes "Accepted"
    ∷ codes "Non-Authoritative Information"
    ∷ codes "No Content"
    ∷ codes "Reset Content"
    ∷ codes "Partial Content"
    ∷ codes "Multi-Status"
    ∷ codes "Already Reported"
    ∷ []

abbrev redirection : List Bytes
redirection =
    codes "Multiple Choices"
    ∷ codes "Moved Permanently"
    ∷ codes "Found"
    ∷ codes "See Other"
    ∷ codes "Not Modified"
    ∷ codes "Use Proxy"
    ∷ codes "(Unused)"
    ∷ codes "Temporary Redirect"
    ∷ codes "Permanent Redirect"
    ∷ []

abbrev client_error : List Bytes
client_error =
    codes "Bad Request"
    ∷ codes "Unauthorized"
    ∷ codes "Payment Required"
    ∷ codes "Forbidden"
    ∷ codes "Not Found"
    ∷ codes "Method Not Allowed"
    ∷ codes "Not Acceptable"
    ∷ codes "Proxy Authentication Required"
    ∷ codes "Request Timeout"
    ∷ codes "Conflict"
    ∷ codes "Gone"
    ∷ codes "Length Required"
    ∷ codes "Precondition Failed"
    ∷ []

abbrev server_error : List Bytes
server_error =
    codes "Internal Server Error"
    ∷ codes "Not Implemented"
    ∷ codes "Bad Gateway"
    ∷ codes "Service Unavailable"
    ∷ codes "Gateway Timeout"
    ∷ codes "HTTP Version Not Supported"
    ∷ codes "Variant Also Neogtiates"
    ∷ codes "Insufficient Storage"
    ∷ codes "Loop Detected"
    ∷ codes "(Unused)"
    ∷ codes "Not Extended"
    ∷ codes "Network Authentication Required"
    ∷ []

abbrev status_messages : List (List Bytes)
status_messages = informational ∷ successful ∷ redirection ∷ client_error ∷ server_error ∷ []

-- The first test on the status code.
in_range : ℤ → ℕ
in_range (negsuc n) = 500
in_range (pos n) = if ltb n 100 || ltb 599 n then 500 else n

-- The second; `none` is the exception of `at`.
with_message : ℕ → Option ℕ
with_message status = elim (get_elem? status_messages (status / 100 - 1)) [
  | none ↦ none
  | some row ↦ some (if leb (length row) (status % 100) then 500 else status)
]

-- The message of the status line.
pub message_of : ℕ → Option Bytes
message_of status = elim (get_elem? status_messages (status / 100 - 1)) [
  | none ↦ none
  | some row ↦ get_elem? row (status % 100)
]

pub effective_status : ℤ → Option ℕ
unfolding in_range with_message
effective_status status = with_message (in_range status)

-- The fields, in the order of the `std::map`.
pub header_lines : List (Bytes × Bytes) → Bytes
header_lines [] = []
header_lines ((key, value) ∷ rest) =
    key ++ (codes ": " ++ (value ++ (codes "\r\n" ++ header_lines rest)))

-- What follows the fields. `format` is what fmt makes of a number.
pub body_part : (ℕ → Bytes) → Bytes → Bytes
body_part format [] = codes "\r\n"
body_part format (x ∷ xs) =
    codes "Content-Length: " ++ (format (length (x ∷ xs)) ++ (codes "\r\n\r\n" ++ x ∷ xs))

pub status_line : (ℕ → Bytes) → HttpVersion → ℕ → Bytes → Bytes
status_line format version status message =
    http_version_to_string version
    ++ (codes " " ++ (format status ++ (codes " " ++ (message ++ codes "\r\n"))))

-- `MakeResponse`; `none` is the exception of `at`.
pub make_response : (ℕ → Bytes) → ℤ → HttpVersion → List (Bytes × Bytes) → Bytes → Option Bytes
unfolding effective_status message_of header_lines body_part status_line
make_response format status_code version headers body = elim (effective_status status_code) [
  | none ↦ none
  | some status ↦ elim (message_of status) [
    | none ↦ none
    | some message ↦ some (
        status_line format version status message
        ++ (header_lines headers ++ body_part format body))
  ]
]
