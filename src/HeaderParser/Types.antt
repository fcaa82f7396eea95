-- ===== src/HeaderParser/Types.antt =====
-- The state of `HttpHeaderParser` (src/hpl_header_parser.h). The field `connection_`, which nothing
-- reads or writes, is left out.
use httpoll.Prelude.{
  ℕ, Bool, false, ◌&&◌, Option, none, some, List, [], ◌∷◌, ◌==◌, if◌then◌else◌, Bytes,
}
use httpoll.Method.{HttpMethod}
use httpoll.Version.{HttpVersion}

pub data ParserState : Type 0 where
  first_line headers body done : ParserState

-- `connection_flags_`, a Bool for each bit of `enum ConnectionFlags`.
pub record ConnectionFlags : Type 0 where
  pub close : Bool
  pub keep_alive : Bool
  pub upgrade : Bool

pub record HttpHeaderParser : Type 0 where
  pub method : HttpMethod
  pub uri : Bytes
  pub version : HttpVersion
  pub header_map : List (Bytes × Bytes)
  pub connection_flags : ConnectionFlags
  -- the one bit of `upgrade_flags_`, `UpgradeWebSocket`
  pub upgrade_websocket : Bool
  pub host : Bytes
  pub user_agent : Bytes
  pub content_length : Option ℕ
  pub body_length : ℕ
  pub state : ParserState

abbrev pub no_flags : ConnectionFlags
no_flags = record { close = false; keep_alive = false; upgrade = false }

-- A new parser.
abbrev pub initial : HttpHeaderParser
initial = record {
  method = HttpMethod.unknown;
  uri = [];
  version = HttpVersion.unknown;
  header_map = [];
  connection_flags = no_flags;
  upgrade_websocket = false;
  host = [];
  user_agent = [];
  content_length = none;
  body_length = 0;
  state = first_line;
}

-- Equality of keys.
unfoldable pub equal : Bytes → Bytes → Bool
equal [] [] = Bool.true
equal (x ∷ xs) (y ∷ ys) = x == y && equal xs ys
equal _ _ = false

unfoldable pub lookup : Bytes → List (Bytes × Bytes) → Option Bytes
unfolding equal
lookup key [] = none
lookup key ((k, v) ∷ rest) = if equal k key then some v else lookup key rest

-- `headers_.emplace`: a key that is there keeps its value. The map's order is not observed.
unfoldable pub emplace : Bytes → Bytes → List (Bytes × Bytes) → List (Bytes × Bytes)
unfolding lookup
emplace key value m = elim (lookup key m) [ none ↦ (key, value) ∷ m | some _ ↦ m ]

-- `GetHeader`: the empty view where the key is not there.
unfoldable pub get_header : HttpHeaderParser → Bytes → Bytes
unfolding lookup
get_header p key = elim (lookup key p.header_map) [ none ↦ [] | some v ↦ v ]
