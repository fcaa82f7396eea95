-- ===== src/Server/Polling/Others.antt =====
-- What `Poll` does for one connection does not touch another.
use httpoll.Prelude.{
  ℕ, ◌≡◌, ◌≢◌, refl, sym, ap, ◌∙◌, inl, inr, Bool, true, false, none, some, List, [], ◌∷◌, ◌++◌,
  arith, ◌==◌, Bool-cases, Option-cases,
}
use httpoll.Server.Handling.{Client, Env, Outcome, kept, closes, readable}
use httpoll.Server.Polling.{
  Server, Event, accepts, readable_event, other_event, find_client, update_client, remove_client,
  close_conn, settle, on_readable,
}

pub find_client-update_client :
    (id k : ℕ) (c : Client) (conns : List (ℕ × Client))
    → id ≢ k
    → find_client k (update_client id c conns) ≡ find_client k conns
unfolding find_client update_client
find_client-update_client id k c [] ne = refl
find_client-update_client id k c ((j, old) ∷ conns) ne =
    let ih = find_client-update_client id k c conns ne in
    elim (Bool-cases (j == id)) [
      | inl t ↦ let other : (j == k) ≡ false = ground arith in rw t (rw (other, find_client) ih)
      | inr t ↦ rw t (rw (ih, find_client) refl)
    ]

pub find_client-remove_client :
    (id k : ℕ) (conns : List (ℕ × Client))
    → id ≢ k
    → find_client k (remove_client id conns) ≡ find_client k conns
unfolding find_client remove_client
find_client-remove_client id k [] ne = refl
find_client-remove_client id k ((j, old) ∷ conns) ne =
    let ih = find_client-remove_client id k conns ne in
    elim (Bool-cases (j == id)) [
      | inl t ↦ let other : (j == k) ≡ false = ground arith in rw t (rw (other, find_client) ih)
      | inr t ↦ rw t (rw (ih, find_client) refl)
    ]

pub find_client-settle :
    (removed : Bool) (id k : ℕ) (o : Outcome) (conns : List (ℕ × Client))
    → id ≢ k
    → find_client k (settle removed id o conns) ≡ find_client k conns
unfolding settle close_conn
find_client-settle removed id k (kept c) conns ne = find_client-update_client id k c conns ne
find_client-settle false id k (closes c) conns ne = find_client-update_client id k c conns ne
find_client-settle true id k (closes c) conns ne =
    find_client-remove_client id k (update_client id c conns) ne
    ∙ find_client-update_client id k c conns ne

pub find_client-append :
    (id k : ℕ) (c : Client) (conns : List (ℕ × Client))
    → id ≢ k
    → find_client k (conns ++ (id, c) ∷ []) ≡ find_client k conns
unfolding find_client
find_client-append id k c [] ne = let other : (id == k) ≡ false = ground arith in rw other refl
find_client-append id k c ((j, old) ∷ conns) ne = rw (find_client-append id k c conns ne) refl

-- The event is not about the connection with address `k`.
abbrev pub NotAbout : ℕ → Event → Type 0
NotAbout k (accepts none added) = Unit
NotAbout k (accepts (some (id, fd, socket)) added) = id ≢ k
NotAbout k (readable_event id removed) = id ≢ k
NotAbout k (other_event id) = Unit

pub on_readable-others :
    (env : Env) (id k : ℕ) (removed : Bool) (s s' : Server)
    → id ≢ k
    → on_readable env id removed s ≡ some s'
    → find_client k s'.pending_conns ≡ find_client k s.pending_conns
unfolding on_readable
on_readable-others env id k removed s s' ne e =
    elim (Option-cases (find_client id s.pending_conns)) [
      | inl q ↦
          let fails : on_readable env id removed s ≡ none = rw (q, on_readable) refl in
          cc (sym fails ∙ e)
      | inr (c, q) ↦ elim (Option-cases (readable env s.request_handlers c)) [
        | inl r ↦
            let fails : on_readable env id removed s ≡ none = rw (q, on_readable) (rw r refl) in
            cc (sym fails ∙ e)
        | inr (o, r) ↦
            let after = record s { pending_conns = settle removed id o s.pending_conns } in
            let goes : on_readable env id removed s ≡ some after =
              rw (q, on_readable) (rw r refl) in
            let same : after ≡ s' = cc (sym goes ∙ e) in
            ap (λ x. find_client k x.pending_conns) (sym same)
            ∙ find_client-settle removed id k o s.pending_conns ne
      ]
    ]
