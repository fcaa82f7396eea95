-- ===== src/BroadcastGroup/Sending.antt =====
-- From the pipes of the members to their sockets.
use httpoll.Prelude.{
  ℕ, ◌≤◌, ◌≡◌, ◌≢◌, refl, sym, ap, ◌∙◌, some, List, [], ◌∷◌, ◌++◌, All, All-zip, Bytes, length,
  arith, drop-all, take-all,
}
use httpoll.BroadcastGroup.{splice_socket_call, Member, send_out}
use httpoll.BroadcastGroup.Pipes.{Pipes, IsLawful, run_all}
use httpoll.BroadcastGroup.Delivery.{pipe, Apart, Distinct, Holds, same_pipe, other_pipe}

-- `socket` is the descriptor of a connection.
module _ (socket : ℕ → ℕ) where
  abbrev pub fd : Member → ℕ
  fd m = socket m.connection

  -- The socket is that of no member.
  abbrev pub NotOf : ℕ → List Member → Type 0
  NotOf c = All (λ m. c ≢ fd m)

  abbrev pub Separate : List Member → Type 0
  Separate [] = Unit
  Separate (m ∷ ms) = NotOf (fd m) ms × Separate ms

  -- The pipes of the members have been emptied into their sockets.
  pub record Sent (k : Pipes) (s t : k.World) (frame : Bytes) (ms : List Member) : Type 0 where
    pub drained : Holds k t [] ms
    pub got : All (λ m. k.received t (fd m) ≡ k.received s (fd m) ++ frame) ms
    pub others : (p : ℕ) → Apart k p ms → k.content t p ≡ k.content s p
    pub kept : (c : ℕ) → NotOf c ms → k.received t c ≡ k.received s c

module _ (k : Pipes) (laws : IsLawful k) (socket : ℕ → ℕ) (frame : Bytes) where
  abbrev len : ℕ
  len = length frame

  pub send_out-Sent :
      (s : k.World) (ms : List Member)
      → Distinct k ms
      → Separate socket ms
      → All (λ m. k.Takes (fd socket m)) ms
      → Holds k s frame ms
      → Sent socket k s (run_all k (send_out (λ c. some (socket c)) len ms) s) frame ms
  unfolding send_out run_all
  send_out-Sent s [] distinct separate takes full = record {
    drained = tt;
    got = tt;
    others = λ p h. refl;
    kept = λ c h. refl;
  }
  send_out-Sent s (m ∷ ms) distinct separate takes full =
      let there : len ≤ length (k.content s (pipe k m)) = omega (arith, ap length full.0) in
      let t = k.run (splice_socket_call m.read_end (some (fd socket m)) len) s in
      let content =
        λ (p : ℕ). laws.content-splice_socket s m.read_end (fd socket m) len p takes.0 there in
      let received =
        λ (c : ℕ). laws.received-splice_socket s m.read_end (fd socket m) len c takes.0 there in
      let full' : Holds k t frame ms =
        All-zip ms
          (λ x away e.
            content (pipe k x) ∙ rw (other_pipe (pipe k x) (pipe k m) (λ q. away (sym q))) e)
          distinct.0 full.1 in
      let d = send_out-Sent t ms distinct.1 separate.1 takes.1 full' in
      record {
        drained = (
          d.others (pipe k m) distinct.0
              ∙ content (pipe k m)
              ∙ rw (same_pipe (pipe k m), full.0) (drop-all len frame (omega arith)),
          d.drained,
        );
        got = (
          d.kept (fd socket m) separate.0
              ∙ received (fd socket m)
              ∙ rw (same_pipe (fd socket m), full.0)
                  (ap (λ xs. k.received s (fd socket m) ++ xs) (take-all len frame (omega arith))),
          All-zip ms
              (λ x away e.
                e
                ∙ ap (λ xs. xs ++ frame)
                    (received (fd socket x)
                      ∙ rw (other_pipe (fd socket x) (fd socket m) (λ q. away (sym q))) refl))
              separate.0 d.got,
        );
        others = λ p away. d.others p away.1 ∙ content p ∙ rw (other_pipe p (pipe k m) away.0) refl;
        kept = λ c away. d.kept c away.1 ∙ received c ∙ rw (other_pipe c (fd socket m) away.0) refl;
      }
