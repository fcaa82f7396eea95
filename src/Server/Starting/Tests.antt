-- ===== src/Server/Starting/Tests.antt =====
-- A server that starts, and one whose port is taken.
use httpoll.Prelude.{negsuc, ℕ, ◌≡◌, refl, true, false, none, some, List, [], ◌∷◌, Bytes}
use httpoll.Server.Starting.{
  SetupCall, ignore_sigpipe, epoll_create, open_socket, set_reuse_addr, set_reuse_port, bind_to,
  Outcomes, address_of, new_server, init,
}

abbrev port_taken : Outcomes
port_taken = record {
  epoll = some 3;
  socket = some 4;
  reuse_addr = true;
  reuse_port = true;
  bound = false;
  listening = true;
  added = true;
}

abbrev loopback : Bytes → ℕ
loopback addr = 0x0100007f

abbrev calls_made : List SetupCall
calls_made =
    ignore_sigpipe
    ∷ epoll_create
    ∷ open_socket
    ∷ set_reuse_addr 4
    ∷ set_reuse_port 4
    ∷ bind_to 4 0 2999
    ∷ []

taken :
    let (ret, s) = init port_taken loopback none 2999 5 new_server in
    (ret ≡ negsuc 2) × (s.calls ≡ calls_made)
unfolding init address_of
taken = (refl, refl)
