-- ===== src/Connection/Writing.antt =====
-- `Write`: what the peer is given.
use httpoll.Prelude.{
  ℕ, ◌<◌, ◌≡◌, refl, sym, ap, ◌∙◌, Option, none, some, List, [], ◌∷◌, ◌++◌, arith, Bytes, length,
  take, append-nil, take-all, length-take,
}
use mathlib.Core.Path.{subst}
use httpoll.Socket.{WriteEvent, takes, sys_write}
use httpoll.Connection.{Connection, WriteRet, write_done, write, write_fd, write_result}

abbrev with_outcomes : Connection → List WriteEvent → Connection
with_outcomes c es = record c { socket = record c.socket { outcomes = es } }

-- A prefix of `xs` was sent, and nothing but the socket is changed.
abbrev pub SentPart : Connection → Bytes → WriteRet × Connection → Type 0
SentPart c xs (ret, d) =
    ((k : ℕ) × (d.socket.sent ≡ c.socket.sent ++ take k xs))
    × (d.buffer ≡ c.buffer)
    × (d.parser ≡ c.parser)
    × (d.socket.incoming ≡ c.socket.incoming)
    × (d.ws_conn ≡ c.ws_conn)

write_fd-SentPart :
    (fd : Option ℕ) (es : List WriteEvent) (c : Connection) (xs : Bytes)
    → SentPart (with_outcomes c es) xs (write_fd fd (with_outcomes c es) xs)
unfolding write_fd sys_write write_result
write_fd-SentPart none es c xs = ((0, sym (append-nil c.socket.sent)), refl, refl, refl, refl)
write_fd-SentPart (some n) [] c xs = (
  (length xs, ap (λ t. c.socket.sent ++ t) (sym (take-all (length xs) xs (omega arith)))),
  refl,
  refl,
  refl,
  refl,
)
write_fd-SentPart (some n) (takes k ∷ es) c xs = ((k, refl), refl, refl, refl, refl)
write_fd-SentPart (some n) (WriteEvent.again ∷ es) c xs =
    ((0, sym (append-nil c.socket.sent)), refl, refl, refl, refl)
write_fd-SentPart (some n) (WriteEvent.interrupted ∷ es) c xs =
    ((0, sym (append-nil c.socket.sent)), refl, refl, refl, refl)
write_fd-SentPart (some n) (WriteEvent.broken ∷ es) c xs =
    ((0, sym (append-nil c.socket.sent)), refl, refl, refl, refl)

-- Whatever write(2) does, `Write` sends a prefix of the data, perhaps an empty one, and touches nothing
-- but the socket.
pub write-SentPart : (c : Connection) (xs : Bytes) → SentPart c xs (write c xs)
unfolding write
write-SentPart c xs = write_fd-SentPart c.fd c.socket.outcomes c xs

-- What a short write comes to.
abbrev Short : Connection → ℕ → Bytes → WriteRet × Connection → Type 0
Short c k xs (ret, d) =
    (ret ≡ write_done)
    × (d.socket.sent ≡ c.socket.sent ++ take k xs)
    × (length (take k xs) < length xs)
    × (d.buffer ≡ c.buffer)

Short-from :
    (c : Connection) (fd k : ℕ) (es : List WriteEvent) (xs : Bytes)
    → k < length xs
    → Short
        (with_outcomes c (takes k ∷ es))
        k
        xs
        (write_fd (some fd) (with_outcomes c (takes k ∷ es)) xs)
unfolding write_fd sys_write write_result
Short-from c fd k es xs h = (refl, refl, omega (arith, length-take k xs), refl)

-- When write(2) takes fewer bytes than it was given, `Write` returns 1, as for all of them, and the
-- rest is neither sent nor kept.
pub write-short :
    (c : Connection) (fd k : ℕ) (es : List WriteEvent) (xs : Bytes)
    → c.fd ≡ some fd
    → c.socket.outcomes ≡ takes k ∷ es
    → k < length xs
    → let (ret, d) = write c xs in
      (ret ≡ write_done)
      × (d.socket.sent ≡ c.socket.sent ++ take k xs)
      × (length (take k xs) < length xs)
      × (d.buffer ≡ c.buffer)
unfolding write
write-short c fd k es xs e o h =
    subst (λ f. Short c k xs (write_fd f c xs)) (sym e)
      (subst (λ d. Short d k xs (write_fd (some fd) d xs)) (ap (with_outcomes c) (sym o))
        (Short-from c fd k es xs h))

all_from :
    (c : Connection) (fd : ℕ) (xs : Bytes)
    → write_fd (some fd) (with_outcomes c []) xs ≡ (
      write_done,
      record (with_outcomes c []) {
        socket = record c.socket { outcomes = []; sent = c.socket.sent ++ xs };
      },
    )
unfolding write_fd sys_write write_result
all_from c fd xs = refl

-- A write that nothing hinders sends everything.
pub write-all :
    (c : Connection) (fd : ℕ) (xs : Bytes)
    → c.fd ≡ some fd
    → c.socket.outcomes ≡ []
    → write c xs
      ≡ (write_done, record c { socket = record c.socket { sent = c.socket.sent ++ xs } })
unfolding write
write-all c fd xs e o =
    ap (λ f. write_fd f c xs) e
    ∙ subst
        (λ d.
          write_fd (some fd) d xs
          ≡ (write_done, record d { socket = record d.socket { sent = d.socket.sent ++ xs } }))
        (ap (with_outcomes c) (sym o)) (all_from c fd xs)
