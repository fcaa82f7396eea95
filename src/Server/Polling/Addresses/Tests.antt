-- ===== src/Server/Polling/Addresses/Tests.antt =====
-- A connection whose client has closed it, beside another one, and a new one in between.
use httpoll.Prelude.{true, some, List, [], ◌∷◌, codes}
use httpoll.HeaderParser.Types.{equal}
use httpoll.Socket.{Socket, chunk}
use httpoll.Server.Handling.{Env}
use httpoll.Server.Polling.{Server, Event, accepts, readable_event, new_client}

abbrev env : Env
env = record {
  regex_match = equal;
  format = λ n. codes "0";
  sha1 = λ xs. xs;
  hash = [];
  past = λ i. 0;
  fuel = 100;
  rounds = 2000;
  now = 7;
  header = [];
}

abbrev quiet : Socket
quiet = record { incoming = []; outcomes = []; sent = [] }

abbrev at_end : Socket
at_end = record { incoming = chunk [] ∷ []; outcomes = []; sent = [] }

abbrev server : Server
server = record {
  pending_conns = (1, new_client 5 at_end) ∷ (2, new_client 6 quiet) ∷ [];
  request_handlers = [];
}

-- A new connection at an address that has just become free.
abbrev events : List Event
events = readable_event 1 true ∷ accepts (some (1, 7, quiet)) true ∷ []

abbrev after_close : Server
after_close = record { pending_conns = (2, new_client 6 quiet) ∷ []; request_handlers = [] }

abbrev after_both : Server
after_both = record {
  pending_conns = (2, new_client 6 quiet) ∷ (1, new_client 7 quiet) ∷ [];
  request_handlers = [];
}
