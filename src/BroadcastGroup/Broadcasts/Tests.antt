-- ===== src/BroadcastGroup/Broadcasts/Tests.antt =====
-- Two broadcasts to a group of two, over pipes without a bound.
use httpoll.Prelude.{
  ℕ, ◌/◌, ◌≤◌, ◌+◌, refl, none, some, List, [], ◌∷◌, ◌++◌, ◌==◌, if◌then◌else◌, All, Bytes, codes,
  length, take, drop, arith,
}
use httpoll.WebsocketUtils.{WsFrameType, text, binary, header_bytes}
use httpoll.BroadcastGroup.{
  Call, write_call, tee_call, splice_call, splice_socket_call, close_call, Member,
}
use httpoll.BroadcastGroup.Pipes.{Pipes, IsLawful}
use httpoll.BroadcastGroup.Broadcasts.{
  frame_of, frames_of, IsGroup, Quiet, Delivered, send_all, send_all-delivers,
}

-- What is in each pipe, and what each socket has been sent.
abbrev Contents : Type 0
Contents = (ℕ → Bytes) × (ℕ → Bytes)

abbrev run : Call → Contents → Contents
run (write_call w xs) (f, g) = ((λ p. if p == w / 2 then f p ++ xs else f p), g)
run (tee_call r w n) (f, g) = ((λ p. if p == w / 2 then f p ++ take n (f (r / 2)) else f p), g)
run (splice_call r w n) (f, g) = (
  (λ p. if p == w / 2 then f p ++ take n (f (r / 2)) else if p == r / 2 then drop n (f p) else f p),
  g,
)
run (splice_socket_call r (some c) n) (f, g) = (
  (λ p. if p == r / 2 then drop n (f p) else f p),
  (λ d. if d == c then g d ++ take n (f (r / 2)) else g d),
)
run (splice_socket_call r none n) s = s
run (close_call d) s = s

abbrev kernel : Pipes
kernel = record {
  World = Contents;
  run = run;
  pipe_of = λ d. d / 2;
  content = λ s p. s.0 p;
  received = λ s c. s.1 c;
  capacity = 65536;
  Takes = λ c. Unit {0};
}

kernel-IsLawful : IsLawful kernel
kernel-IsLawful = record {
  content-write = λ s w xs p room. refl;
  received-write = λ s w xs c. refl;
  content-tee = λ s r w n p ne there room. refl;
  received-tee = λ s r w n c. refl;
  content-splice = λ s r w n p ne there room. refl;
  received-splice = λ s r w n c. refl;
  content-splice_socket = λ s r c n p takes there. refl;
  received-splice_socket = λ s r c n d takes there. refl;
}

abbrev members : List Member
members =
    record { read_end = 6; write_end = 7; connection = 1 }
    ∷ record { read_end = 8; write_end = 9; connection = 2 }
    ∷ []

abbrev socket : ℕ → ℕ
socket c = c + 100

abbrev messages : List (WsFrameType × Bytes)
messages = (text, codes "hi") ∷ (binary, codes "you") ∷ []

abbrev at_rest : Contents
at_rest = ((λ p. []), (λ c. []))

members-IsGroup : IsGroup kernel socket 4 5 members
members-IsGroup = record {
  shared = refl;
  apart = omega arith;
  joined = (refl, (refl, tt));
  distinct = omega arith;
  separate = omega arith;
  takes = (tt, (tt, tt));
}

messages-fit : All (λ message. length (frame_of [] message) ≤ 65536) messages
unfolding header_bytes
messages-fit = omega arith

send_all-delivers_example :
    let t = send_all kernel socket 4 5 members [] messages at_rest in
    Quiet kernel socket 4 5 members t
    × Delivered kernel socket 4 5 members at_rest t (frames_of [] messages)
send_all-delivers_example =
    send_all-delivers kernel kernel-IsLawful socket 4 5 members [] messages at_rest members-IsGroup
      messages-fit (refl, (refl, (refl, tt)))
