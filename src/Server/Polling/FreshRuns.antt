-- ===== src/Server/Polling/FreshRuns.antt =====
-- `Poll` where each new connection has a new address.
use httpoll.Prelude.{◌≡◌, true, false, none, some, List, [], ◌∷◌, ◌++◌}
use httpoll.Server.Handling.{Env}
use httpoll.Server.Polling.{
  Server, Event, accepts, readable_event, other_event, find_client, on_readable, new_client,
}

-- Each new connection of the run has an address that no connection in the list has at that time.
unfoldable pub FreshRun : Env → List Event → Server → Type 0
FreshRun env [] s = Unit
FreshRun env (accepts none added ∷ es) s = FreshRun env es s
FreshRun env (accepts (some (id, fd, socket)) false ∷ es) s = Unit
FreshRun env (accepts (some (id, fd, socket)) true ∷ es) s =
    (find_client id s.pending_conns ≡ none)
    × FreshRun env es
        (record s { pending_conns = s.pending_conns ++ (id, new_client fd socket) ∷ [] })
FreshRun env (readable_event id removed ∷ es) s = elim (on_readable env id removed s) [
  | none ↦ Unit {0}
  | some t ↦ FreshRun env es t
]
FreshRun env (other_event id ∷ es) s = FreshRun env es s
