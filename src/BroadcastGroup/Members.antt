-- ===== src/BroadcastGroup/Members.antt =====
-- Who is a member, and what a broadcast does for each.
use httpoll.Prelude.{
  ℤ, pos, ℕ, ◌+◌, ◌≡◌, refl, sym, ap, ◌∙◌, true, false, Option, some, List, [], ◌∷◌, ◌++◌, ◌==◌,
  if◌then◌else◌, All, Bytes, length, arith, append-nil,
}
use mathlib.Core.List.{map}
use mathlib.Core.Path.{subst}
use httpoll.WebsocketUtils.{WsFrameType, header_bytes}
use httpoll.BroadcastGroup.{
  Call, write_call, tee_call, splice_call, close_call, Member, BroadcastGroup, join, take_out,
  leave, spread, send_out, broadcast, broadcast_in, broadcast_to,
}

take_out-append :
    (connection : ℕ) (ms : List Member) (m : Member)
    → All (λ n. (n.connection == connection) ≡ false) ms
    → (m.connection == connection) ≡ true
    → take_out connection (ms ++ m ∷ []) ≡ some (m, ms)
unfolding take_out
take_out-append connection [] m others same = rw same refl
take_out-append connection (n ∷ ms) m (other, others) same =
    rw (other, take_out) (rw (take_out-append connection ms m others same) refl)

-- `Leave` undoes `Join`: for a connection that is no member yet, and a pipe that was made, the group
-- afterwards is the one from before, and exactly the two ends of that pipe are closed.
pub leave-join :
    (connection r w : ℕ) (g : BroadcastGroup)
    → All (λ n. (n.connection == connection) ≡ false) g.connections
    → leave connection (join (some connection) (some (r, w)) g).1
      ≡ (pos 0, close_call r ∷ close_call w ∷ [], g)
unfolding leave join
leave-join connection r w g others =
    let m : Member = record { read_end = r; write_end = w; connection = connection } in
    let self : (connection == connection) ≡ true = ground arith in
    rw (take_out-append connection g.connections m others self, leave) refl

abbrev pub write_end_of : Member → ℕ
write_end_of m = m.write_end

-- The pipes that calls on the shared pipe fill, and how many of the calls take bytes out of it.
abbrev pub filled : ℕ → List Call → List ℕ
filled shared [] = []
filled shared (tee_call r w n ∷ cs) = if r == shared then w ∷ filled shared cs else filled shared cs
filled shared (splice_call r w n ∷ cs) =
    if r == shared then w ∷ filled shared cs else filled shared cs
filled shared (_ ∷ cs) = filled shared cs

abbrev pub taken_out : ℕ → List Call → ℕ
taken_out shared [] = 0
taken_out shared (splice_call r w n ∷ cs) =
    if r == shared then n + taken_out shared cs else taken_out shared cs
taken_out shared (_ ∷ cs) = taken_out shared cs

-- The bytes written to the shared pipe.
abbrev pub put_in : ℕ → List Call → ℕ
put_in w [] = 0
put_in w (write_call v xs ∷ cs) = if v == w then length xs + put_in w cs else put_in w cs
put_in w (_ ∷ cs) = put_in w cs

module _ (shared len : ℕ) (tail : List Call) where
  self : (shared == shared) ≡ true
  self = ground arith

  filled-spread :
      (ms : List Member)
      → filled shared (spread shared len ms ++ tail) ≡ map write_end_of ms ++ filled shared tail
  unfolding spread
  filled-spread [] = refl
  filled-spread (m ∷ []) = rw self refl
  filled-spread (m ∷ n ∷ ms) = rw self (ap (◌∷◌ m.write_end) (filled-spread (n ∷ ms)))

  taken_out-spread :
      (m : Member) (ms : List Member)
      → taken_out shared (spread shared len (m ∷ ms) ++ tail) ≡ len + taken_out shared tail
  unfolding spread
  taken_out-spread m [] = rw self refl
  taken_out-spread m (n ∷ ms) = taken_out-spread n ms

  put_in-spread :
      (w : ℕ) (ms : List Member) → put_in w (spread shared len ms ++ tail) ≡ put_in w tail
  unfolding spread
  put_in-spread w [] = refl
  put_in-spread w (m ∷ []) = refl
  put_in-spread w (m ∷ n ∷ ms) = put_in-spread w (n ∷ ms)

module _ (shared len : ℕ) (descriptor : ℕ → Option ℕ) where
  filled-send_out : (ms : List Member) → filled shared (send_out descriptor len ms) ≡ []
  unfolding send_out
  filled-send_out [] = refl
  filled-send_out (m ∷ ms) = filled-send_out ms

  taken_out-send_out : (ms : List Member) → taken_out shared (send_out descriptor len ms) ≡ 0
  unfolding send_out
  taken_out-send_out [] = refl
  taken_out-send_out (m ∷ ms) = taken_out-send_out ms

  put_in-send_out : (ms : List Member) → put_in shared (send_out descriptor len ms) ≡ 0
  unfolding send_out
  put_in-send_out [] = refl
  put_in-send_out (m ∷ ms) = put_in-send_out ms

-- What the calls of a broadcast come to.
abbrev Balanced : ℕ → ℕ → List Member → ℕ → ℤ × List Call → Type 0
Balanced r w ms len (ret, calls) =
    (ret ≡ pos 0)
    × (filled r calls ≡ map write_end_of ms)
    × (taken_out r calls ≡ put_in w calls)
    × (put_in w calls ≡ len)

-- A broadcast to members, of which both writes succeed, returns 0; it fills the pipe of every member,
-- in their order, from the shared pipe, and asks to take out of that, once, exactly as many bytes
-- as it has put in: a frame's header and the data.
pub broadcast-balanced :
    (descriptor : ℕ → Option ℕ) (header payload : Bytes) (type : WsFrameType) (g : BroadcastGroup)
    (r w : ℕ) (m : Member) (ms : List Member)
    → g.pipe_read ≡ some r
    → g.pipe_write ≡ some w
    → g.connections ≡ m ∷ ms
    → let (ret, calls) = broadcast descriptor header true true payload type g in
      (ret ≡ pos 0)
      × (filled r calls ≡ map write_end_of (m ∷ ms))
      × (taken_out r calls ≡ put_in w calls)
      × (put_in w calls ≡ length (header_bytes header (length payload) type) + length payload)
unfolding broadcast broadcast_in broadcast_to
broadcast-balanced descriptor header payload type g r w m ms a b e =
    let front = header_bytes header (length payload) type in
    let len = length front + length payload in
    let sent = send_out descriptor len (m ∷ ms) in
    let same : (w == w) ≡ true = ground arith in
    let put : put_in w (write_call w front ∷ write_call w payload ∷ (spread r len (m ∷ ms) ++ sent))
        ≡ len =
      rw (same, put_in-spread r len sent w (m ∷ ms), put_in-send_out w len descriptor (m ∷ ms))
        (omega arith) in
    let took : taken_out r (spread r len (m ∷ ms) ++ sent) ≡ len =
      taken_out-spread r len sent m ms
      ∙ omega (arith, taken_out-send_out r len descriptor (m ∷ ms)) in
    let fills : filled r (spread r len (m ∷ ms) ++ sent) ≡ map write_end_of (m ∷ ms) =
      filled-spread r len sent (m ∷ ms)
      ∙ ap (λ t. map write_end_of (m ∷ ms) ++ t) (filled-send_out r len descriptor (m ∷ ms))
      ∙ append-nil (map write_end_of (m ∷ ms)) in
    subst
      (λ o.
        Balanced r w (m ∷ ms) len
          (broadcast_in descriptor front payload true true o g.pipe_write g.connections))
      (sym a)
      (subst
        (λ o.
          Balanced r w (m ∷ ms) len
            (broadcast_in descriptor front payload true true (some r) o g.connections))
        (sym b)
        (subst
          (λ l.
            Balanced r w (m ∷ ms) len
              (broadcast_in descriptor front payload true true (some r) (some w) l))
          (sym e) (refl, fills, took ∙ sym put, put)))
