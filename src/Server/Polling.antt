-- ===== src/Server/Polling.antt =====
-- src/hpl_server.h and src/hpl_server.cc: `Poll`, `AcceptNewConnection` and `CloseConn`.
mod Tests
pub mod Others
pub mod Dangling
pub mod Addresses
pub mod FreshRuns
use httpoll.Prelude.{
  ℤ, pos, negsuc, ℕ, Bool, true, false, Option, none, some, List, [], ◌∷◌, ◌++◌, ◌==◌,
  if◌then◌else◌, Bytes,
}
use httpoll.Socket.{Socket}
use httpoll.Connection.{WebsocketConnection, Connection, connect}
use httpoll.WebsocketConnection.{server_ping}
use httpoll.Server.Handling.{RequestHandler, Client, Env, Outcome, kept, closes, readable}

-- The list of connections, each under the number of its address, and the table of handlers.
pub record Server : Type 0 where
  pub pending_conns : List (ℕ × Client)
  pub request_handlers : List (Bytes × RequestHandler)

-- The map of addresses.
unfoldable pub find_client : ℕ → List (ℕ × Client) → Option Client
find_client id [] = none
find_client id ((k, c) ∷ rest) =
    let later = find_client id rest in if k == id then some c else later

pub update_client : ℕ → Client → List (ℕ × Client) → List (ℕ × Client)
update_client id c [] = []
update_client id c ((k, old) ∷ rest) =
    let later = update_client id c rest in if k == id then (k, c) ∷ later else (k, old) ∷ later

-- `remove_if`.
pub remove_client : ℕ → List (ℕ × Client) → List (ℕ × Client)
remove_client id [] = []
remove_client id ((k, c) ∷ rest) =
    let later = remove_client id rest in if k == id then later else (k, c) ∷ later

-- `CloseConn`; `removed` says whether epoll_ctl succeeded. The descriptor is closed with the
-- connection.
pub close_conn : Bool → ℕ → List (ℕ × Client) → ℤ × List (ℕ × Client)
unfolding remove_client
close_conn false id conns = (negsuc 0, conns)
close_conn true id conns = (pos 0, remove_client id conns)

-- `Connection::Close`, from outside of its handlers.
pub close_connection : Bool → ℕ → List (ℕ × Client) → List (ℕ × Client)
unfolding close_conn
close_connection removed id conns = (close_conn removed id conns).1

-- An event of epoll_wait with what the system calls that it leads to will return: a new connection,
-- if accept and setsockopt succeed, under its address and descriptor, and whether it is added; data
-- on a connection, and whether it is removed if it is closed; or anything else.
pub data Event : Type 0 where
  accepts : Option (ℕ × ℕ × Socket) → Bool → Event
  readable_event : ℕ → Bool → Event
  other_event : ℕ → Event

pub settle : Bool → ℕ → Outcome → List (ℕ × Client) → List (ℕ × Client)
unfolding update_client close_conn
settle removed id (kept c) conns = update_client id c conns
settle removed id (closes c) conns = (close_conn removed id (update_client id c conns)).1

-- `EPOLLIN` for the address of a connection; an address that is not in the list is a dangling pointer.
pub on_readable : Env → ℕ → Bool → Server → Option Server
unfolding settle find_client
on_readable env id removed s = elim (find_client id s.pending_conns) [
  | none ↦ none
  | some c ↦ elim (readable env s.request_handlers c) [
    | none ↦ none
    | some o ↦ some (record s { pending_conns = settle removed id o s.pending_conns })
  ]
]

abbrev new_client : ℕ → Socket → Client
new_client fd socket = record { conn = connect fd socket; on_data = none; will_close_hook = none }

-- The loop over the events, with the number of all of them; the result is that of `Poll`.
pub poll_events : Env → ℕ → List Event → Server → Option (ℤ × Server)
unfolding on_readable
poll_events env nfds [] s = some (pos nfds, s)
poll_events env nfds (accepts none added ∷ es) s = poll_events env nfds es s
poll_events env nfds (accepts (some (id, fd, socket)) false ∷ es) s = some (negsuc 3, s)
poll_events env nfds (accepts (some (id, fd, socket)) true ∷ es) s =
    poll_events env nfds es
      (record s { pending_conns = s.pending_conns ++ (id, new_client fd socket) ∷ [] })
poll_events env nfds (readable_event id removed ∷ es) s = elim (on_readable env id removed s) [
  | none ↦ none
  | some s' ↦ poll_events env nfds es s'
]
poll_events env nfds (other_event id ∷ es) s = poll_events env nfds es s

ping_client : Env → Option WebsocketConnection → Client → Client
ping_client env none c = c
ping_client env (some w) c = record c { conn = (server_ping env.header env.now w c.conn).1 }

ping_all : Env → List (ℕ × Client) → List (ℕ × Client)
unfolding ping_client
ping_all env [] = []
ping_all env ((k, c) ∷ rest) = (k, ping_client env c.conn.ws_conn c) ∷ ping_all env rest

-- `Poll`, on what epoll_wait returns: the events and their number, or an error.
pub poll : Env → Option (ℕ × List Event) → Server → Option (ℤ × Server)
unfolding ping_all poll_events
poll env none s = some (negsuc 0, record s { pending_conns = ping_all env s.pending_conns })
poll env (some (nfds, es)) s =
    poll_events env nfds es (record s { pending_conns = ping_all env s.pending_conns })
