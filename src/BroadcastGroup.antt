-- ===== src/BroadcastGroup.antt =====
-- src/hpl_broadcast_group.h and src/hpl_broadcast_group.cc: `BroadcastGroup`. What the kernel does
-- with the bytes is not modelled: `Broadcast` and the others give the system calls that they make,
-- in order, on what pipe(2) and write(2) return.
mod Tests
pub mod Members
pub mod Descriptors
pub mod Pipes
pub mod Delivery
pub mod Sending
pub mod Broadcasts
use httpoll.Prelude.{
  ℤ, pos, negsuc, ℕ, ◌+◌, Bool, true, false, Option, none, some, List, [], ◌∷◌, ◌++◌, ◌==◌,
  if◌then◌else◌, Bytes, length,
}
use httpoll.WebsocketUtils.{WsFrameType, header_bytes}

-- The calls that move bytes or release a descriptor; the numbers behind the descriptors are lengths.
pub data Call : Type 0 where
  write_call : ℕ → Bytes → Call
  tee_call splice_call : ℕ → ℕ → ℕ → Call
  splice_socket_call : ℕ → Option ℕ → ℕ → Call
  close_call : ℕ → Call

-- An entry of `connections_`: the two ends of its pipe, and the address of the connection.
pub record Member : Type 0 where
  pub read_end : ℕ
  pub write_end : ℕ
  pub connection : ℕ

-- `pipefd_` is `none` for -1.
pub record BroadcastGroup : Type 0 where
  pub pipe_read : Option ℕ
  pub pipe_write : Option ℕ
  pub connections : List Member

-- The constructor, on what pipe(2) gave; the results of fcntl are not looked at.
pub construct : Option (ℕ × ℕ) → BroadcastGroup
construct none = record { pipe_read = none; pipe_write = none; connections = [] }
construct (some (r, w)) = record { pipe_read = some r; pipe_write = some w; connections = [] }

-- `if (fd != -1) close(fd)`.
close_if : Option ℕ → List Call
close_if none = []
close_if (some d) = close_call d ∷ []

close_members : List Member → List Call
close_members [] = []
close_members (m ∷ ms) = close_call m.read_end ∷ close_call m.write_end ∷ close_members ms

-- The destructor.
pub destroy : BroadcastGroup → List Call
unfolding close_if close_members
destroy g = close_if g.pipe_read ++ (close_if g.pipe_write ++ close_members g.connections)

-- `Join`, on what pipe(2) gave; the result of setsockopt is only logged.
pub join : Option ℕ → Option (ℕ × ℕ) → BroadcastGroup → ℤ × BroadcastGroup
join none pipes g = (negsuc 0, g)
join (some connection) none g = (negsuc 0, g)
join (some connection) (some (r, w)) g =
    let member : Member = record { read_end = r; write_end = w; connection = connection } in
    (pos 0, record g { connections = g.connections ++ member ∷ [] })

-- `std::find_if` and `erase`: the first entry of the connection, and the others.
pub take_out : ℕ → List Member → Option (Member × List Member)
take_out connection [] = none
take_out connection (m ∷ ms) =
    let later = take_out connection ms in
    if m.connection == connection
    then some (m, ms)
    else elim later [ none ↦ none | some (found, rest) ↦ some (found, m ∷ rest) ]

-- `Leave`.
pub leave : ℕ → BroadcastGroup → ℤ × List Call × BroadcastGroup
unfolding take_out
leave connection g = elim (take_out connection g.connections) [
  | none ↦ (negsuc 0, [], g)
  | some (m, rest) ↦
      (pos 0, close_call m.read_end ∷ close_call m.write_end ∷ [], record g { connections = rest })
]

-- From the shared pipe to the pipes of the members: tee for all but the last, splice for that.
pub spread : ℕ → ℕ → List Member → List Call
spread shared len [] = []
spread shared len (m ∷ []) = splice_call shared m.write_end len ∷ []
spread shared len (m ∷ n ∷ ms) = tee_call shared m.write_end len ∷ spread shared len (n ∷ ms)

-- From the pipes of the members to their sockets; `descriptor` is `GetDescriptor` of a connection.
pub send_out : (ℕ → Option ℕ) → ℕ → List Member → List Call
send_out descriptor len [] = []
send_out descriptor len (m ∷ ms) =
    splice_socket_call m.read_end (descriptor m.connection) len ∷ send_out descriptor len ms

-- Both writes and what follows them, with members.
broadcast_to : (ℕ → Option ℕ) → Bytes → Bytes → Bool → Bool → ℕ → ℕ → List Member → ℤ × List Call
unfolding spread send_out
broadcast_to descriptor front payload false second shared w ms = (negsuc 0, write_call w front ∷ [])
broadcast_to descriptor front payload true false shared w ms =
    (negsuc 0, write_call w front ∷ write_call w payload ∷ [])
broadcast_to descriptor front payload true true shared w ms =
    let len = length front + length payload in
    (
      pos 0,
      write_call w front
          ∷ write_call w payload
          ∷ (spread shared len ms ++ send_out descriptor len ms),
    )

broadcast_in :
    (ℕ → Option ℕ) → Bytes → Bytes → Bool → Bool → Option ℕ → Option ℕ → List Member → ℤ × List Call
unfolding broadcast_to
broadcast_in descriptor front payload first second none w ms = (negsuc 0, [])
broadcast_in descriptor front payload first second (some r) none ms = (negsuc 0, [])
broadcast_in descriptor front payload first second (some r) (some w) [] = (pos 0, [])
broadcast_in descriptor front payload first second (some r) (some w) (m ∷ ms) =
    broadcast_to descriptor front payload first second r w (m ∷ ms)

-- `Broadcast`; `first` and `second` say whether the two writes succeed, `header` is the array of
-- `MakeWebsocketHeader`.
pub broadcast :
    (ℕ → Option ℕ) → Bytes → Bool → Bool → Bytes → WsFrameType → BroadcastGroup → ℤ × List Call
unfolding broadcast_in
broadcast descriptor header first second payload type g =
    broadcast_in descriptor (header_bytes header (length payload) type) payload first second
      g.pipe_read g.pipe_write g.connections
