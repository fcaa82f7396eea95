-- ===== src/Connection/Request/OneSegment.antt =====
-- A request whose body comes in the same segment as its head.
use httpoll.Prelude.{
  ℕ, suc, ◌≤◌, ◌<◌, ◌≡◌, refl, sym, ap, ◌∙◌, true, false, some, List, [], ◌∷◌, ◌++◌, leb, arith,
  Bytes, length, take, take-all,
}
use mathlib.Core.Path.{subst}
use httpoll.Socket.{chunk, bytes, sys_read}
use httpoll.HeaderParser.Types.{HttpHeaderParser}
use httpoll.Connection.{
  Connection, more, drained, read, read_result, small_memory, is_body, state_ret, process_data_in,
}
use httpoll.Connection.Reading.{with_events}
use httpoll.Connection.Outcome.{round_drained}
use httpoll.Connection.Head.{Head, flat}

-- With one segment to come, and afterwards.
abbrev pub receives : Connection → Bytes → Connection
receives c text = record c { buffer = []; socket = record c.socket { incoming = chunk text ∷ [] } }

abbrev pub received : Connection → Bytes → Connection
received c text = record c { buffer = text; socket = record c.socket { incoming = [] } }

pub read-receives :
    (c : Connection) (text : Bytes)
    → 0 < length text
    → length text ≤ small_memory
    → read (receives c text) ≡ (more, received c text)
unfolding read sys_read read_result
read-receives c [] some_text fits = absurd (omega arith)
read-receives c (x ∷ xs) some_text fits =
    let t : leb (suc (length xs)) 1024 ≡ true = ground arith in
    let whole : take 1024 (x ∷ xs) ≡ x ∷ xs = take-all 1024 (x ∷ xs) fits in
    rw t (
      ap
        (λ ys.
          read_result (record c { buffer = []; socket = record c.socket { incoming = [] } })
            (bytes ys))
        whole)

read-nothing : (d : Connection) → d.socket.incoming ≡ [] → read d ≡ (drained, d)
unfolding read sys_read read_result
read-nothing d e =
    let at_end : read (with_events d []) ≡ (drained, with_events d []) = refl in
    subst (λ c. read c ≡ (drained, c)) (ap (with_events d) (sym e)) at_end

-- Nothing arrives: the state is all that `ProcessDataIn` looks at.
pub process_data_in-nothing :
    (n fuel : ℕ) (past : ℕ → ℕ) (d : Connection)
    → d.socket.incoming ≡ []
    → process_data_in (suc n) fuel past d ≡ some (state_ret d.parser.state, d)
process_data_in-nothing n fuel past d e =
    let r = read-nothing d e in
    round_drained n fuel past d (ap (λ x. x.0) r)
    ∙ ap (λ x. some (state_ret x.1.parser.state, x.1)) r

module _ (fuel : ℕ) (past : ℕ → ℕ) (c : Connection) (q : HttpHeaderParser) (lines : List Bytes)
    (rest : Bytes) (head : Head fuel past c.parser lines q) (plain : is_body c.parser.state ≡ false)
    (fits : length (flat lines ++ rest) ≤ small_memory) where
  abbrev text : Bytes
  text = flat lines ++ rest
