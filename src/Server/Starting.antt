-- ===== src/Server/Starting.antt =====
-- src/hpl_server.cc: the constructor of `Server` and `Init`, on what the system calls give. A descriptor is
-- `none` for -1; a port is a number, of which `htons` takes 16 bits.
mod Tests
use httpoll.Prelude.{
  ℤ, pos, negsuc, ℕ, ◌%◌, ◌^◌, refl, ap, ◌∙◌, Bool, true, false, ◌&&◌, Option, none, some, List, [],
  ◌∷◌, ◌++◌, if◌then◌else◌, Bytes,
}

pub data SetupCall : Type 0 where
  ignore_sigpipe epoll_create open_socket : SetupCall
  set_reuse_addr set_reuse_port : ℕ → SetupCall
  bind_to : ℕ → ℕ → ℕ → SetupCall
  listen_on add_to_epoll : ℕ → ℕ → SetupCall

-- What the calls give.
pub record Outcomes : Type 0 where
  pub epoll : Option ℕ
  pub socket : Option ℕ
  pub reuse_addr : Bool
  pub reuse_port : Bool
  pub bound : Bool
  pub listening : Bool
  pub added : Bool

-- The two members that `Init` sets, and the calls so far.
pub record Startup : Type 0 where
  pub poll_fd : Option ℕ
  pub server_conn : Option ℕ
  pub calls : List SetupCall

abbrev pub new_server : Startup
new_server = record { poll_fd = none; server_conn = none; calls = [] }

-- Going on with a value, or returning a number.
pub data Step (A : Type 0) : Type 0 where
  goes : A → Step A
  returns : ℤ → Step A

abbrev pub Setup : Type 0 → Type 0
Setup A = Startup → Step A × Startup

infixl 5 ◌>>=◌ ◌>>◌
abbrev pub ◌>>=◌ : {A B : Type 0} → Setup A → (A → Setup B) → Setup B
◌>>=◌ m f s = let (r, s') = m s in elim r [ goes a ↦ f a s' | returns n ↦ (returns n, s') ]

abbrev pub ◌>>◌ : {B : Type 0} → Setup (Unit {0}) → Setup B → Setup B
m >> k = m >>= λ _. k

abbrev called : SetupCall → Startup → Startup
called c s = record s { calls = s.calls ++ c ∷ [] }

-- A call whose result is not looked at.
issue : SetupCall → Setup (Unit {0})
issue c s = (goes tt, called c s)

-- `if (call == -1) return code`, for a call that gives a descriptor and for one that does not.
open_fd : SetupCall → Option ℕ → ℤ → Setup ℕ
open_fd c none code s = (returns code, called c s)
open_fd c (some fd) code s = (goes fd, called c s)

require : SetupCall → Bool → ℤ → Setup (Unit {0})
require c false code s = (returns code, called c s)
require c true code s = (goes tt, called c s)

set_poll_fd : Option ℕ → Setup (Unit {0})
set_poll_fd fd s = (goes tt, record s { poll_fd = fd })

set_server_conn : ℕ → Setup (Unit {0})
set_server_conn fd s = (goes tt, record s { server_conn = some fd })

-- `server_addr`; `inet_addr` is that of the C library, and 0 is INADDR_ANY.
pub address_of : (Bytes → ℕ) → Option Bytes → ℕ
address_of inet_addr none = 0
address_of inet_addr (some addr) = inet_addr addr

steps_of : Outcomes → (Bytes → ℕ) → Option Bytes → ℕ → ℕ → Setup (Unit {0})
unfolding issue open_fd require set_poll_fd set_server_conn
steps_of o inet_addr addr port backlog = do
  issue ignore_sigpipe
  set_poll_fd o.epoll
  ep ← open_fd epoll_create o.epoll (negsuc 0)
  server_fd ← open_fd open_socket o.socket (negsuc 1)
  require (set_reuse_addr server_fd) o.reuse_addr (negsuc 2)
  require (set_reuse_port server_fd) o.reuse_port (negsuc 2)
  require (bind_to server_fd (address_of inet_addr addr) (port % 2 ^ 16)) o.bound (negsuc 2)
  require (listen_on server_fd backlog) o.listening (negsuc 3)
  set_server_conn server_fd
  require (add_to_epoll ep server_fd) o.added (negsuc 3)

abbrev result_of : Step (Unit {0}) × Startup → ℤ × Startup
result_of (goes _, s) = (pos 0, s)
result_of (returns n, s) = (n, s)

-- `Init`.
pub init : Outcomes → (Bytes → ℕ) → Option Bytes → ℕ → ℕ → Startup → ℤ × Startup
unfolding steps_of
init o inet_addr addr port backlog s = result_of (steps_of o inet_addr addr port backlog s)

-- The plan: the calls in order, with what they give and the number that is returned where they fail.
abbrev pub Plan : Type 0
Plan = List (SetupCall × Bool × ℤ)

abbrev pub follow : Plan → ℤ × List SetupCall
follow [] = (pos 0, [])
follow ((c, ok, code) ∷ plan) =
    let (n, cs) = follow plan in (if ok then n else code, if ok then c ∷ cs else c ∷ [])

abbrev pub all_succeed : Plan → Bool
all_succeed [] = true
all_succeed ((c, ok, code) ∷ plan) = ok && all_succeed plan

abbrev is_some : Option ℕ → Bool
is_some none = false
is_some (some fd) = true

abbrev fd_of : Option ℕ → ℕ
fd_of none = 0
fd_of (some fd) = fd

abbrev pub plan : Outcomes → ℕ → ℕ → ℕ → Plan
plan o address port backlog =
    let fd = fd_of o.socket in
    (ignore_sigpipe, true, pos 0)
    ∷ (epoll_create, is_some o.epoll, negsuc 0)
    ∷ (open_socket, is_some o.socket, negsuc 1)
    ∷ (set_reuse_addr fd, o.reuse_addr, negsuc 2)
    ∷ (set_reuse_port fd, o.reuse_port, negsuc 2)
    ∷ (bind_to fd address port, o.bound, negsuc 2)
    ∷ (listen_on fd backlog, o.listening, negsuc 3)
    ∷ (add_to_epoll (fd_of o.epoll) fd, o.added, negsuc 3)
    ∷ []
