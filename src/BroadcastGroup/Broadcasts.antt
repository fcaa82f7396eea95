-- ===== src/BroadcastGroup/Broadcasts.antt =====
-- A run of broadcasts to a group whose members stay.
mod Tests
use httpoll.Prelude.{
  ℤ, pos, ℕ, ◌+◌, ◌≤◌, ◌≡◌, ◌≢◌, refl, sym, ap, ◌∙◌, true, some, List, [], ◌∷◌, ◌++◌, ◌==◌,
  if◌then◌else◌, All, All-map, All-zip, Bytes, length, arith, append_assoc, append-nil,
  length-append,
}
use mathlib.Core.Path.{subst}
use httpoll.WebsocketUtils.{WsFrameType, header_bytes}
use httpoll.BroadcastGroup.{
  Call, write_call, Member, BroadcastGroup, spread, send_out, broadcast, broadcast_in, broadcast_to,
}
use httpoll.BroadcastGroup.Pipes.{Pipes, IsLawful, run_all}
use httpoll.BroadcastGroup.Delivery.{
  pipe, Joined, Apart, Distinct, Holds, spread-Spread, run_all-append, same_pipe, other_pipe,
}
use httpoll.BroadcastGroup.Sending.{fd, NotOf, Separate, send_out-Sent}

abbrev pub group_of : ℕ → ℕ → List Member → BroadcastGroup
group_of r w ms = record { pipe_read = some r; pipe_write = some w; connections = ms }

-- A message with its type, and the bytes that stand for it.
abbrev pub frame_of : Bytes → WsFrameType × Bytes → Bytes
frame_of header (type, payload) = header_bytes header (length payload) type ++ payload

abbrev pub frames_of : Bytes → List (WsFrameType × Bytes) → Bytes
frames_of header [] = []
frames_of header (message ∷ messages) = frame_of header message ++ frames_of header messages

module _ (k : Pipes) (socket : ℕ → ℕ) (r w : ℕ) (ms : List Member) where
  -- The group's descriptors are the ends of as many pipes as there should be, and the sockets of its
  -- members are different ones, with room for all that is sent.
  pub record IsGroup : Type 0 where
    pub shared : k.pipe_of w ≡ k.pipe_of r
    pub apart : Apart k (k.pipe_of r) ms
    pub joined : Joined k ms
    pub distinct : Distinct k ms
    pub separate : Separate socket ms
    pub takes : All (λ m. k.Takes (fd socket m)) ms

  -- All the pipes are empty.
  abbrev pub Quiet : k.World → Type 0
  Quiet s = (k.content s (k.pipe_of r) ≡ []) × Holds k s [] ms

  -- Every member has been sent the text, and nobody else anything.
  abbrev pub Delivered : k.World → k.World → Bytes → Type 0
  Delivered s t text =
      All (λ m. k.received t (fd socket m) ≡ k.received s (fd socket m) ++ text) ms
      × ((c : ℕ) → NotOf socket c ms → k.received t c ≡ k.received s c)

  -- The calls of a message.
  abbrev pub calls_of : Bytes → WsFrameType × Bytes → List Call
  calls_of header (type, payload) =
      (broadcast (λ c. some (socket c)) header true true payload type (group_of r w ms)).1

  -- The messages one after the other.
  pub send_all : Bytes → List (WsFrameType × Bytes) → k.World → k.World
  send_all header [] s = s
  send_all header (message ∷ messages) s =
      send_all header messages (run_all k (calls_of header message) s)

module _ (k : Pipes) (laws : IsLawful k) (socket : ℕ → ℕ) (r w : ℕ) where
  -- After the two writes.
  written :
      (front payload : Bytes) (s : k.World)
      → k.pipe_of w ≡ k.pipe_of r
      → k.content s (k.pipe_of r) ≡ []
      → length front + length payload ≤ k.capacity
      → let t = k.run (write_call w payload) (k.run (write_call w front) s) in
        (k.content t (k.pipe_of r) ≡ front ++ payload)
        × ((p : ℕ) → p ≢ k.pipe_of r → k.content t p ≡ k.content s p)
        × ((c : ℕ) → k.received t c ≡ k.received s c)
  written front payload s shared empty room =
      let s1 = k.run (write_call w front) s in
      let free : length (k.content s (k.pipe_of w)) ≡ 0 =
        omega (arith, ap (λ p. length (k.content s p)) shared, ap length empty) in
      let first = λ (p : ℕ). (rw shared at (laws.content-write s w front p (omega arith))) in
      let front_in : k.content s1 (k.pipe_of r) ≡ front =
        first (k.pipe_of r) ∙ rw (same_pipe (k.pipe_of r), empty) refl in
      let used : length (k.content s1 (k.pipe_of w)) ≡ length front =
        omega (arith, ap (λ p. length (k.content s1 p)) shared, ap length front_in) in
      let second = λ (p : ℕ). (rw shared at (laws.content-write s1 w payload p (omega arith))) in
      (
        second (k.pipe_of r) ∙ rw (same_pipe (k.pipe_of r), front_in) refl,
        (λ p ne.
            second p
            ∙ rw (other_pipe p (k.pipe_of r) ne)
                (first p ∙ rw (other_pipe p (k.pipe_of r) ne) refl)),
        (λ c. laws.received-write s1 w payload c ∙ laws.received-write s w front c),
      )

  deliver :
      (m : Member) (ms : List Member) (header payload : Bytes) (type : WsFrameType) (s : k.World)
      → IsGroup k socket r w (m ∷ ms)
      → Quiet k socket r w (m ∷ ms) s
      → length (frame_of header (type, payload)) ≤ k.capacity
      → let t = run_all k (calls_of k socket r w (m ∷ ms) header (type, payload)) s in
        Quiet k socket r w (m ∷ ms) t
        × Delivered k socket r w (m ∷ ms) s t (frame_of header (type, payload))
  unfolding broadcast broadcast_in broadcast_to run_all
  deliver m ms header payload type s g quiet room =
      let front = header_bytes header (length payload) type in
      let frame = front ++ payload in
      let n = length-append front payload in
      let (full, same, unsent) = written front payload s g.shared quiet.0 (omega arith) in
      let t0 = k.run (write_call w payload) (k.run (write_call w front) s) in
      let free : Holds k t0 [] (m ∷ ms) =
        All-zip (m ∷ ms) (λ x away e. same (pipe k x) (λ q. away (sym q)) ∙ e) g.apart quiet.1 in
      let a = spread-Spread k laws r frame room t0 m ms g.apart g.joined g.distinct full free in
      let t1 = run_all k (spread r (length frame) (m ∷ ms)) t0 in
      let b =
        send_out-Sent k laws socket frame t1 (m ∷ ms) g.distinct g.separate g.takes a.filled in
      let unsent' = λ (c : ℕ). a.kept c ∙ unsent c in
      subst
        (λ l.
          let t =
            run_all k (spread r l (m ∷ ms) ++ send_out (λ c. some (socket c)) l (m ∷ ms)) t0 in
          Quiet k socket r w (m ∷ ms) t × Delivered k socket r w (m ∷ ms) s t frame)
        n
        (subst (λ t. Quiet k socket r w (m ∷ ms) t × Delivered k socket r w (m ∷ ms) s t frame)
          (sym (
            run_all-append k (spread r (length frame) (m ∷ ms))
              (send_out (λ c. some (socket c)) (length frame) (m ∷ ms)) t0))
          (
            (b.others (k.pipe_of r) g.apart ∙ a.emptied, b.drained),
            (
              All-map (m ∷ ms) (λ x e. e ∙ ap (λ xs. xs ++ frame) (unsent' (fd socket x))) b.got,
              (λ c away. b.kept c away ∙ unsent' c),
            ),
          ))

  delivers :
      (ms : List Member) (header payload : Bytes) (type : WsFrameType) (s : k.World)
      → IsGroup k socket r w ms
      → Quiet k socket r w ms s
      → length (frame_of header (type, payload)) ≤ k.capacity
      → let t = run_all k (calls_of k socket r w ms header (type, payload)) s in
        Quiet k socket r w ms t × Delivered k socket r w ms s t (frame_of header (type, payload))
  delivers [] header payload type s g quiet room =
      unfold broadcast broadcast_in run_all in (quiet, (tt, λ c away. refl))
  delivers (m ∷ ms) header payload type s g quiet room =
      deliver m ms header payload type s g quiet room

  -- With pipes as the manual pages describe them, on a group of separate pipes, all of them empty, and
  -- separate sockets that take what they are sent: whatever messages are broadcast one after the other,
  -- each with its header no larger than a pipe, every member's socket is sent all the frames, whole and
  -- in order, no other socket is sent anything, and the pipes are empty again.
  pub send_all-delivers :
      (ms : List Member) (header : Bytes) (messages : List (WsFrameType × Bytes)) (s : k.World)
      → IsGroup k socket r w ms
      → All (λ message. length (frame_of header message) ≤ k.capacity) messages
      → Quiet k socket r w ms s
      → let t = send_all k socket r w ms header messages s in
        Quiet k socket r w ms t × Delivered k socket r w ms s t (frames_of header messages)
  unfolding send_all
  send_all-delivers ms header [] s g room quiet =
      (quiet, (All-map ms (λ m h. sym (append-nil _)) g.takes, λ c away. refl))
  send_all-delivers ms header ((type, payload) ∷ messages) s g room quiet =
      let (quiet', (got, kept)) = delivers ms header payload type s g quiet room.0 in
      let s' = run_all k (calls_of k socket r w ms header (type, payload)) s in
      let (end, (got', kept')) = send_all-delivers ms header messages s' g room.1 quiet' in
      (
        end,
        (
          All-zip ms
              (λ m a b.
                b
                ∙ ap (λ xs. xs ++ frames_of header messages) a
                ∙ append_assoc (k.received s (fd socket m)) (frame_of header (type, payload))
                    (frames_of header messages))
              got got',
          λ c away. kept' c away ∙ kept c away,
        ),
      )
