-- ===== src/Server/Polling/Tests.antt =====
-- The theorem on `Poll`: a new connection is taken in beside an old one.
use httpoll.Prelude.{true, some, List, [], ◌∷◌, codes}
use httpoll.HeaderParser.Types.{equal}
use httpoll.Socket.{Socket}
use httpoll.Server.Handling.{Env}
use httpoll.Server.Polling.{Server, Event, accepts, other_event, new_client}

abbrev env : Env
env = record {
  regex_match = equal;
  format = λ n. codes "0";
  sha1 = λ xs. xs;
  hash = [];
  past = λ i. 0;
  fuel = 100;
  rounds = 2000;
  now = 7;
  header = [];
}

abbrev quiet : Socket
quiet = record { incoming = []; outcomes = []; sent = [] }

abbrev one : Server
one = record { pending_conns = (1, new_client 5 quiet) ∷ []; request_handlers = [] }

abbrev two : Server
two = record {
  pending_conns = (1, new_client 5 quiet) ∷ (2, new_client 6 quiet) ∷ [];
  request_handlers = [];
}

abbrev events : List Event
events = accepts (some (2, 6, quiet)) true ∷ other_event 1 ∷ []
