-- ===== src/Server/Polling/Addresses.antt =====
-- The addresses in the list of connections.
mod Tests
use httpoll.Prelude.{
  ℤ, ℕ, ◌≡◌, ◌≢◌, refl, sym, ap, ◌∙◌, inl, inr, Bool, true, false, Option, none, some, List, [],
  ◌∷◌, ◌++◌, arith, ◌==◌, ==_iff, Bool-cases, Option-cases,
}
use mathlib.Core.Path.{subst}
use httpoll.Server.Handling.{Client, Outcome, kept, closes}
use httpoll.Server.Polling.{
  Server, Event, accepts, readable_event, other_event, find_client, update_client, remove_client,
  close_conn, settle, poll_events, new_client,
}
use httpoll.Server.Polling.Others.{
  find_client-update_client, find_client-remove_client, find_client-append,
}

-- No address stands twice.
abbrev pub Distinct : List (ℕ × Client) → Type 0
Distinct [] = Unit
Distinct ((k, c) ∷ conns) = (find_client k conns ≡ none) × Distinct conns

abbrev replaced : Client → Option Client → Option Client
replaced c none = none
replaced c (some old) = some c

find_client-update_client_same :
    (id : ℕ) (c : Client) (conns : List (ℕ × Client))
    → find_client id (update_client id c conns) ≡ replaced c (find_client id conns)
unfolding find_client update_client
find_client-update_client_same id c [] = refl
find_client-update_client_same id c ((k, old) ∷ conns) = elim (Bool-cases (k == id)) [
  | inl t ↦ rw t (rw (t, find_client) refl)
  | inr t ↦ rw t (rw (t, find_client) (find_client-update_client_same id c conns))
]

find_client-remove_client_same :
    (id : ℕ) (conns : List (ℕ × Client)) → find_client id (remove_client id conns) ≡ none
unfolding find_client remove_client
find_client-remove_client_same id [] = refl
find_client-remove_client_same id ((k, old) ∷ conns) = elim (Bool-cases (k == id)) [
  | inl t ↦ rw t (find_client-remove_client_same id conns)
  | inr t ↦ rw t (rw (t, find_client) (find_client-remove_client_same id conns))
]

-- What is not there is still not there.
absent-update_client :
    (id k : ℕ) (c : Client) (conns : List (ℕ × Client))
    → find_client k conns ≡ none
    → find_client k (update_client id c conns) ≡ none
absent-update_client id k c conns h = elim (Bool-cases (id == k)) [
  | inl t ↦
      let same : id ≡ k = (==_iff _ _).0 t in
      subst (λ i. find_client k (update_client i c conns) ≡ none) (sym same)
        (find_client-update_client_same k c conns ∙ ap (replaced c) h)
  | inr t ↦ find_client-update_client id k c conns (ground arith) ∙ h
]

absent-remove_client :
    (id k : ℕ) (conns : List (ℕ × Client))
    → find_client k conns ≡ none
    → find_client k (remove_client id conns) ≡ none
absent-remove_client id k conns h = elim (Bool-cases (id == k)) [
  | inl t ↦
      let same : id ≡ k = (==_iff _ _).0 t in
      subst (λ i. find_client k (remove_client i conns) ≡ none) (sym same)
        (find_client-remove_client_same k conns)
  | inr t ↦ find_client-remove_client id k conns (ground arith) ∙ h
]

update_client-Distinct :
    (id : ℕ) (c : Client) (conns : List (ℕ × Client))
    → Distinct conns
    → Distinct (update_client id c conns)
unfolding update_client
update_client-Distinct id c [] h = tt
update_client-Distinct id c ((k, old) ∷ conns) (fresh, h) = elim (Bool-cases (k == id)) [
  | inl t ↦ rw t (absent-update_client id k c conns fresh, update_client-Distinct id c conns h)
  | inr t ↦ rw t (absent-update_client id k c conns fresh, update_client-Distinct id c conns h)
]

remove_client-Distinct :
    (id : ℕ) (conns : List (ℕ × Client)) → Distinct conns → Distinct (remove_client id conns)
unfolding remove_client
remove_client-Distinct id [] h = tt
remove_client-Distinct id ((k, old) ∷ conns) (fresh, h) = elim (Bool-cases (k == id)) [
  | inl t ↦ rw t (remove_client-Distinct id conns h)
  | inr t ↦ rw t (absent-remove_client id k conns fresh, remove_client-Distinct id conns h)
]

pub append-Distinct :
    (id : ℕ) (c : Client) (conns : List (ℕ × Client))
    → find_client id conns ≡ none
    → Distinct conns
    → Distinct (conns ++ (id, c) ∷ [])
unfolding find_client
append-Distinct id c [] fresh h = (refl, tt)
append-Distinct id c ((k, old) ∷ conns) fresh (none_later, h) = elim (Bool-cases (k == id)) [
  | inl t ↦ cc (rw t at fresh)
  | inr t ↦
      let later : find_client id conns ≡ none = rw t at fresh in
      (
        find_client-append id k c conns (ground arith) ∙ none_later,
        append-Distinct id c conns later h,
      )
]

pub settle-Distinct :
    (removed : Bool) (id : ℕ) (o : Outcome) (conns : List (ℕ × Client))
    → Distinct conns
    → Distinct (settle removed id o conns)
unfolding settle close_conn
settle-Distinct removed id (kept c) conns h = update_client-Distinct id c conns h
settle-Distinct false id (closes c) conns h = update_client-Distinct id c conns h
settle-Distinct true id (closes c) conns h =
    remove_client-Distinct id (update_client id c conns) (update_client-Distinct id c conns h)

-- What stands under the address of a connection after its event.
abbrev pub left_at : Bool → Outcome → Option Client
left_at removed (kept c) = some c
left_at true (closes c) = none
left_at false (closes c) = some c
