-- ===== src/Examples/Proxy.antt =====
-- examples/proxy_like/proxy_like.cc: each GET is sent on by libcurl, and what comes back is written to the
-- connection. An object is known by its address; libcurl calls the two functions with text that it received.
use httpoll.Prelude.{
  ℤ, pos, ℕ, Bool, Option, none, some, List, [], ◌∷◌, ◌++◌, ◌==◌, if◌then◌else◌, Bytes, length, ◌≡◌,
  refl, ap, ◌∙◌, Bool-cases, inl, inr, ==_iff, sym,
}
use httpoll.Connection.{write}
use httpoll.Server.Handling.{Client}
use httpoll.Server.Polling.{find_client, update_client, close_connection}

-- `request_pipe_t`, its address and its `conn_`.
pub record RequestPipe : Type 0 where
  pub address : ℕ
  pub conn : ℕ

-- `ServerContext`.
pub record ServerContext : Type 0 where
  pub req_pipes : List RequestPipe

-- `getter`, with the address of the pipe that it makes.
pub getter : ℕ → ℕ → ServerContext → ℤ × ServerContext
getter pipe conn ctx =
    (pos 0, record ctx { req_pipes = ctx.req_pipes ++ record { address = pipe; conn = conn } ∷ [] })

-- `find_if` on `req_pipes_`, and `erase` of what it found.
pub find_pipe : ℕ → List RequestPipe → Option RequestPipe
find_pipe pipe [] = none
find_pipe pipe (p ∷ pipes) =
    let later = find_pipe pipe pipes in if p.address == pipe then some p else later

pub erase_pipe : ℕ → List RequestPipe → List RequestPipe
erase_pipe pipe [] = []
erase_pipe pipe (p ∷ pipes) =
    let later = erase_pipe pipe pipes in if p.address == pipe then pipes else p ∷ later

-- `conn_->Write`; `none` follows a dangling pointer.
pub write_to : ℕ → Bytes → List (ℕ × Client) → Option (List (ℕ × Client))
write_to conn text conns = elim (find_client conn conns) [
  | none ↦ none
  | some c ↦ some (update_client conn (record c { conn = (write c.conn text).1 }) conns)
]

pub curl_pipe_to_conn_headers :
    ℕ → Bytes → ServerContext → List (ℕ × Client) → Option (ℕ × List (ℕ × Client))
unfolding find_pipe write_to
curl_pipe_to_conn_headers pipe text ctx conns = elim (find_pipe pipe ctx.req_pipes) [
  | none ↦ some (length text, conns)
  | some p ↦ elim (write_to p.conn text conns) [
    | none ↦ none
    | some conns' ↦ some (length text, conns')
  ]
]

-- With `Close`, of which `removed` says whether epoll_ctl succeeds.
pub curl_pipe_to_conn_body :
    Bool
    → ℕ
    → Bytes
    → ServerContext
    → List (ℕ × Client)
    → Option (ℕ × ServerContext × List (ℕ × Client))
unfolding find_pipe erase_pipe write_to
curl_pipe_to_conn_body removed pipe text ctx conns = elim (find_pipe pipe ctx.req_pipes) [
  | none ↦ some (length text, ctx, conns)
  | some p ↦ elim (write_to p.conn text conns) [
    | none ↦ none
    | some conns' ↦ some (
      length text,
      record ctx { req_pipes = erase_pipe pipe ctx.req_pipes },
      close_connection removed p.conn conns',
    )
  ]
]

-- No two pipes have the same address.
abbrev pub Unique : List RequestPipe → Type 0
Unique [] = Unit
Unique (p ∷ pipes) = (find_pipe p.address pipes ≡ none) × Unique pipes

find_pipe-erase_pipe :
    (pipe : ℕ) (pipes : List RequestPipe)
    → Unique pipes
    → find_pipe pipe (erase_pipe pipe pipes) ≡ none
unfolding find_pipe erase_pipe
find_pipe-erase_pipe pipe [] h = refl
find_pipe-erase_pipe pipe (p ∷ pipes) (alone, h) = elim (Bool-cases (p.address == pipe)) [
  | inl t ↦
      let same : p.address ≡ pipe = (==_iff _ _).0 t in
      rw t (ap (λ a. find_pipe a pipes) (sym same) ∙ alone)
  | inr t ↦ rw t (rw (t, find_pipe) (find_pipe-erase_pipe pipe pipes h))
]

-- The first piece of a body ends the transfer: where the pipes have different addresses, whatever libcurl
-- hands over for the same pipe after a piece that was written, more of the body, is reported as taken, and
-- neither written nor kept.
pub curl_pipe_to_conn_body-twice :
    (removed again : Bool) (pipe : ℕ) (text more : Bytes) (ctx : ServerContext) (p : RequestPipe)
    (conns conns' : List (ℕ × Client))
    → Unique ctx.req_pipes
    → find_pipe pipe ctx.req_pipes ≡ some p
    → write_to p.conn text conns ≡ some conns'
    → let ctx' = record ctx { req_pipes = erase_pipe pipe ctx.req_pipes } in
      let left = close_connection removed p.conn conns' in
      (curl_pipe_to_conn_body removed pipe text ctx conns ≡ some (length text, ctx', left))
      × (curl_pipe_to_conn_body again pipe more ctx' left ≡ some (length more, ctx', left))
unfolding curl_pipe_to_conn_body
curl_pipe_to_conn_body-twice removed again pipe text more ctx p conns conns' unique there written =
    let gone = find_pipe-erase_pipe pipe ctx.req_pipes unique in
    (rw (there, curl_pipe_to_conn_body) (rw written refl), rw (gone, curl_pipe_to_conn_body) refl)
