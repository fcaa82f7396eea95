-- ===== src/Connection.antt =====
-- src/hpl_connection.h and src/hpl_connection.cc: `Connection`, in the build of src/Makefile
-- (SMALL_MEMORY=1024). `past` and `fuel` are those of the header parser.
mod Tests
pub mod Lines
pub mod Whole
pub mod Head
pub mod Request
pub mod Writing
pub mod Upgrading
pub mod Untouched
pub mod Reading
pub mod Processing
pub mod Stream
pub mod Outcome
pub mod Body
use httpoll.Prelude.{
  ℕ, zero, suc, ◌+◌, ◌-◌, ◌*◌, Bool, true, false, ◌&&◌, ◌||◌, not, Option, none, some, List, [],
  ◌∷◌, ◌++◌, leb, ltb, ◌==◌, if◌then◌else◌, Bytes, codes, length, take, drop, sub_size, min,
}
use httpoll.Socket.{
  Socket, ReadResult, bytes, eagain, eintr, error, sys_read, WriteResult, wrote, sys_write,
}
use mathlib.Core.Option
use httpoll.Version.{HttpVersion}
use httpoll.HeaderParser.Types.{
  ParserState, first_line, headers, body, done, HttpHeaderParser, initial, get_header,
}
use httpoll.HeaderParser.{push_line}

-- The fields of `WebsocketConnection` (src/hpl_websocket_connection.h); the handlers are arguments
-- of the functions that call them, and `conn_` is the connection that holds the record.
pub record WebsocketConnection : Type 0 where
  pub ws_key : Bytes
  pub ws_accept : Bytes
  pub last_payload : Bytes
  pub last_io_time : ℕ

-- `fd` is `none` for -1; `socket` is what the kernel holds for it.
pub record Connection : Type 0 where
  pub fd : Option ℕ
  pub buffer : Bytes
  pub ws_conn : Option WebsocketConnection
  pub partial_body : Bytes
  pub parser : HttpHeaderParser
  pub socket : Socket

abbrev pub small_memory : ℕ
small_memory = 1024

-- The constructor.
unfoldable pub connect : ℕ → Socket → Connection
connect fd socket = record {
  fd = some fd;
  buffer = [];
  ws_conn = none;
  partial_body = [];
  parser = initial;
  socket = socket;
}

-- The loop of `PopLine`: the first index at which the two bytes, as an `unsigned short`, are CR LF.
pub crlf_index : Bytes → Option ℕ
crlf_index [] = none
crlf_index (x ∷ []) = none
crlf_index (x ∷ y ∷ rest) =
    let later = Option.map suc (crlf_index (y ∷ rest)) in
    if x + 256 * y == b'\r' + 256 * b'\n' then some 0 else later

-- `PopLine`: the line and the buffer that is left, or `none` and the buffer as it was.
unfoldable pub pop_line : Bytes → Option (Bytes × Bytes)
unfolding crlf_index
pop_line buffer =
    if ltb (length buffer) 2
    then none
    else Option.map (λ idx. (take (idx + 2) buffer, drop (idx + 2) buffer)) (crlf_index buffer)

-- The results of `Read`: -1, 0 and 1.
pub data ReadRet : Type 0 where
  closed drained more : ReadRet

-- On what read(2) returned; nread = 0 is an empty list of bytes.
read_result : Connection → ReadResult → ReadRet × Connection
read_result c (bytes []) = (closed, c)
read_result c (bytes (x ∷ xs)) = (more, record c { buffer = c.buffer ++ x ∷ xs })
read_result c eagain = (drained, c)
read_result c eintr = (more, c)
read_result c error = (closed, c)

unfoldable pub read : Connection → ReadRet × Connection
unfolding read_result
read c =
    let (r, s) = sys_read c.socket (sub_size small_memory (length c.buffer)) in
    read_result (record c { socket = s }) r

-- The results of `ProcessDataIn`: -2, -1, 0 and 1.
pub data ProcessRet : Type 0 where
  failed need_headers need_body complete : ProcessRet

unfoldable pub state_ret : ParserState → ProcessRet
state_ret body = need_body
state_ret done = complete
state_ret _ = need_headers

abbrev pub is_empty : Bytes → Bool
is_empty [] = true
is_empty _ = false

abbrev pub is_body : ParserState → Bool
is_body body = true
is_body _ = false

-- `stat == Done || stat == Body`
abbrev returns_at : ParserState → Bool
returns_at body = true
returns_at done = true
returns_at _ = false

-- What the inner `do` loop pushes next, with the connection after it: a line, a piece of the body,
-- or nothing, which ends the loop.
pub next_piece : Connection → Option (Bytes × Connection)
unfolding pop_line
next_piece c = elim (pop_line c.buffer) [
  | some (line, rest) ↦ some (line, record c { buffer = rest })
  | none ↦
      if is_empty c.buffer
      then none
      else if not (is_body c.parser.state)
      then none
      else (let n = min (length c.buffer) 1024 in
          some (
            take n c.buffer,
            record c { partial_body = take n c.buffer; buffer = drop n c.buffer },
          ))
]

-- The inner loop: `some (none, c)` is a `break`, `none` that the rounds, or those of the parser's own
-- loops, did not suffice.
pub drain : ℕ → ℕ → (ℕ → ℕ) → Connection → Option (Option ProcessRet × Connection)
unfolding state_ret
drain zero fuel past c = none
drain (suc rounds) fuel past c = elim (next_piece c) [
  | none ↦ some (none, c)
  | some (piece, c') ↦ elim (push_line fuel past c'.parser piece) [
    | none ↦ none
    | some p ↦ elim (returns_at p.state) [
      | true ↦ some (some (state_ret p.state), record c' { parser = p })
      | false ↦ drain rounds fuel past (record c' { parser = p })
    ]
  ]
]

-- `rounds` bounds the rounds of both loops; `none` as in `drain`.
pub process_data_in : ℕ → ℕ → (ℕ → ℕ) → Connection → Option (ProcessRet × Connection)
unfolding read drain
process_data_in zero fuel past c = none
process_data_in (suc rounds) fuel past c =
    let (r, c') = read c in
    elim r [
      | closed ↦ some (failed, c')
      | drained ↦ some (state_ret c'.parser.state, c')
      | more ↦ elim (drain (suc rounds) fuel past c') [
        | none ↦ none
        | some (some ret, c'') ↦ some (ret, c'')
        | some (none, c'') ↦ process_data_in rounds fuel past c''
      ]
    ]

-- The results of `Write`: -1, 0 and 1.
pub data WriteRet : Type 0 where
  write_failed write_blocked write_done : WriteRet

write_result : WriteResult → WriteRet
write_result (wrote n) = write_done
write_result WriteResult.eagain = write_blocked
write_result WriteResult.eintr = write_done
write_result WriteResult.error = write_failed

write_fd : Option ℕ → Connection → Bytes → WriteRet × Connection
unfolding write_result
write_fd none c xs = (write_failed, c)
write_fd (some _) c xs =
    let (r, s) = sys_write c.socket xs in (write_result r, record c { socket = s })

pub write : Connection → Bytes → WriteRet × Connection
unfolding write_fd
write c xs = write_fd c.fd c xs

-- The rvalue reference that the handler is given; the string stays where it is until the handler
-- moves from it.
pub pop_body : Connection → Bytes
pop_body c = c.partial_body

abbrev pub is_http_1 : HttpVersion → Bool
is_http_1 HttpVersion.http_1_1 = true
is_http_1 HttpVersion.http_1_0 = true
is_http_1 _ = false

abbrev pub has_ws : Option WebsocketConnection → Bool
has_ws (some _) = true
has_ws none = false

unfoldable pub should_upgrade_websocket : Connection → Bool
should_upgrade_websocket c =
    if has_ws c.ws_conn
    then false
    else (c.parser.upgrade_websocket && c.parser.connection_flags.upgrade)
      && is_http_1 c.parser.version

-- The first of the three keys that is not empty, or the empty view.
unfoldable pub websocket_key : HttpHeaderParser → Bytes
websocket_key p =
    let key = get_header p (codes "Sec-WebSocket-Key") in
    let key1 = get_header p (codes "Sec-WebSocket-Key1") in
    if not (is_empty key)
    then key
    else if not (is_empty key1)
    then key1
    else get_header p (codes "Sec-WebSocket-Key2")

-- `UpgradeToWebsocket` at the time `now`: false for the null pointer.
upgrade_from : Option WebsocketConnection → ℕ → Connection → Bool × Connection
unfolding websocket_key
upgrade_from (some _) now c = (true, c)
upgrade_from none now c =
    let key = websocket_key c.parser in
    if is_empty key then (false, c) else (
      true,
      record c {
        ws_conn =
            some (record { ws_key = key; ws_accept = []; last_payload = []; last_io_time = now });
      },
    )

pub upgrade_to_websocket : ℕ → Connection → Bool × Connection
unfolding upgrade_from
upgrade_to_websocket now c = upgrade_from c.ws_conn now c
