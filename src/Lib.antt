-- ===== src/Lib.antt =====
-- httpoll: an HTTP and WebSocket server on epoll, one thread.
--
-- The parts, and where they are modelled:
--
-- Prelude: shared names, lists over the native numbers, machine arithmetic (size_t mod 2^64,
--   unsigned mod 2^32), texts as lists of byte codes, and 32-bit loads from a text.
-- CircularBuffer: src/hpl_circular_buffer.h. Storage, size and the two positions are a record;
--   `data_length` is Length, the other operations keep their names. CircularBuffer/Contents gives
--   the bytes that GetReadViews shows as one list, the queue that the operations act on.
-- Method, Version: src/hpl_method.cc and src/hpl_version.cc, by the 32-bit loads that the code
--   compares. The bytes behind a text's terminator are the parameter `past`.
-- Str: src/hpl_str.h.
-- Scan: next_char of src/hpl_header_parser.cc as an index, and atoi of the C library.
-- HeaderParser: src/hpl_header_parser.h and src/hpl_header_parser.cc. HeaderParser/Types is the
--   state, `push_line` is PushLine on a line: `push_in` by the state, `header_field` the ladder of
--   header names, one function for each branch. `upgrade_loop` and `connection_loop` are the two
--   do loops, on fuel; `none` says that it did not suffice. For the first the length of the line
--   and one more is enough, for the second two more than the tokens behind the first, where every
--   token is known.
-- Socket: what read(2) and write(2) will return, as lists of events that are part of the
--   connection's state: any data in any pieces, EAGAIN, EINTR and other errors.
-- Connection: src/hpl_connection.h and src/hpl_connection.cc, as built with SMALL_MEMORY=1024.
--   `process_data_in` is ProcessDataIn, whose inner loop is `drain`; both are on rounds, and
--   SMALL_MEMORY with one for each byte and event to come is enough. Connection/Stream says which
--   part of the stream the parser has been pushed, Connection/Head what the lines of a request are, and
--   Connection/Request what becomes of them in whatever segments they come; Connection/Request/Printed
--   and Connection/Request/Posted are requests as a client prints them.
-- WebsocketUtils: MakeWebsocketHeader of src/hpl_websocket_utils.cc.
-- WebsocketConnection: src/hpl_websocket_connection.h and src/hpl_websocket_connection.cc, as built
--   with HPL_ENABLE_PING_PONG. `read_frame` decodes the buffer, `receive` is what Read does with
--   the frame, `ws_read` the whole of Read; `none` is a read behind the buffer.
-- Response: src/hpl_response.h; `none` is the exception of `at`. Response/Reader is a client that
--   reads the stream by RFC 7230, on as many lines as the fields need.
-- Server: src/hpl_server.h and src/hpl_server.cc. The root has RegisterRequestHandler and
--   FindRequestHandler, Server/Handling what Poll does for a connection with data, Server/Polling
--   the loop over the events, AcceptNewConnection and CloseConn, Server/Starting Init as a chain of
--   steps of which each may return. An event carries what the system calls that it leads to will
--   return; `none` is an access that the code must not make.
-- Utils: src/hpl_utils.cc.
-- Examples: examples/basic/basic.cc, a site of one page on the server, and the transfers of
--   examples/proxy_like/proxy_like.cc. Examples/Basic/Page puts the parts together, from a request's
--   bytes to the page that the client reads.
-- Base64: base64_encode of src/external_helpers.h; Base64/Decode is the decoder of RFC 4648 that the
--   text is compared with. The padding is on four rounds, of which two are used at most.
-- BroadcastGroup: src/hpl_broadcast_group.h and src/hpl_broadcast_group.cc, as the system calls that
--   its members make. BroadcastGroup/Pipes is what these rely on in the kernel, with the laws that
--   BroadcastGroup/Broadcasts uses, BroadcastGroup/Descriptors the life of a group.
--
-- A Connection reads bytes into its buffer, cuts them into lines and pushes these into its
-- HeaderParser; the Server looks up the handler for the parsed URI, upgrades the Connection to a
-- WebsocketConnection on request, and answers by MakeResponse. The CircularBuffer stands alone.
--
-- Parameters: regex_match, the conversion of a number by fmt (its decimal digits, where that matters),
-- SHA1 (20 bytes, where that matters), inet_addr, pipes, the user's handlers and hooks, the clock, the
-- bytes that malloc'ed or foreign memory holds.
--
-- Not modelled: logging; a handler that closes its own connection; the main functions, the tests, the
-- broadcast example and the benchmark, which use the library; libcurl.
pub mod Prelude
pub mod CircularBuffer
pub mod Method
pub mod Version
pub mod WebsocketUtils
pub mod Base64
pub mod Str
pub mod Utils
pub mod Examples
pub mod Scan
pub mod HeaderParser
pub mod Socket
pub mod Connection
pub mod WebsocketConnection
pub mod Response
pub mod BroadcastGroup
pub mod Server
