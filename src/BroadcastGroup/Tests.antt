-- ===== src/BroadcastGroup/Tests.antt =====
-- What a broadcast to a group of two comes to, and one whose second write fails.
use httpoll.Prelude.{
  pos, negsuc, ℕ, ◌+◌, ◌≡◌, refl, true, false, Option, some, List, [], ◌∷◌, codes,
}
use httpoll.WebsocketUtils.{text, header_bytes}
use httpoll.BroadcastGroup.{
  Call, write_call, tee_call, splice_call, splice_socket_call, Member, BroadcastGroup, broadcast,
}

abbrev first_member : Member
first_member = record { read_end = 5; write_end = 6; connection = 100 }

abbrev second_member : Member
second_member = record { read_end = 7; write_end = 8; connection = 101 }

abbrev group : BroadcastGroup
group = record {
  pipe_read = some 3;
  pipe_write = some 4;
  connections = first_member ∷ second_member ∷ [];
}

abbrev sockets : ℕ → Option ℕ
sockets connection = some (connection + 100)

abbrev calls : List Call
calls =
    write_call 4 (0x81 ∷ 2 ∷ [])
    ∷ write_call 4 (codes "hi")
    ∷ tee_call 3 6 4
    ∷ splice_call 3 8 4
    ∷ splice_socket_call 5 (some 200) 4
    ∷ splice_socket_call 7 (some 201) 4
    ∷ []

broadcast_calls :
    let (ret, made) = broadcast sockets [] true true (codes "hi") text group in
    (ret ≡ pos 0) × (made ≡ calls)
unfolding broadcast header_bytes
broadcast_calls = (refl, refl)

broadcast_half :
    let (ret, made) = broadcast sockets [] true false (codes "hi") text group in
    (ret ≡ negsuc 0) × (made ≡ write_call 4 (0x81 ∷ 2 ∷ []) ∷ write_call 4 (codes "hi") ∷ [])
unfolding broadcast header_bytes
broadcast_half = (refl, refl)
