-- ===== src/Server/Polling/Dangling.antt =====
-- The pointers that epoll_wait hands back.
mod Tests
use httpoll.Prelude.{ℤ, pos, ℕ, ◌≡◌, ◌≢◌, Bool, Option, none, some, List, [], ◌∷◌, ◌++◌, All}
use mathlib.Core.Path.{subst}
use httpoll.Server.Handling.{Client, Env, readable}
use httpoll.Server.Polling.{Server, Event, readable_event, find_client, poll_events}
use httpoll.Server.Polling.Others.{NotAbout}

abbrev pub Listed : ℕ → Server → Type 0
Listed k s = find_client k s.pending_conns ≢ none

-- The readable connections are in the list, and each is reported once: epoll watches the descriptors of
-- open connections, and epoll_wait has an event for each at most.
abbrev pub Watched : List Event → Server → Type 0
Watched [] s = Unit
Watched (readable_event id removed ∷ es) s = Listed id s × (All (NotAbout id) es × Watched es s)
Watched (_ ∷ es) s = Watched es s

-- A fault that a connection in the list brings on itself: the loop has gone through the events before the
-- one that tells of it, which leaves it in the list, and it is what the connection does that faults.
pub record OwnFault (env : Env) (nfds : ℕ) (es : List Event) (s : Server) : Type 0 where
  pub before : List Event
  pub after : List Event
  pub id : ℕ
  pub removed : Bool
  pub at_fault : Server
  pub client : Client
  pub split : es ≡ before ++ (readable_event id removed ∷ after)
  pub reached : poll_events env nfds before s ≡ some (pos nfds, at_fault)
  pub there : find_client id at_fault.pending_conns ≡ some client
  pub faults : readable env at_fault.request_handlers client ≡ none
