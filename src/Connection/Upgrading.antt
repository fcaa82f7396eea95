-- ===== src/Connection/Upgrading.antt =====
-- `UpgradeToWebsocket` and `ShouldUpgradeWebsocket`.
use httpoll.Prelude.{
  ℕ, ◌≡◌, refl, ap, ◌∙◌, Bool, true, false, Option, none, some, [], if◌then◌else◌, Bytes,
  Bool-cases, inl, inr,
}
use httpoll.Connection.{
  WebsocketConnection, Connection, has_ws, is_empty, websocket_key, should_upgrade_websocket,
  upgrade_from, upgrade_to_websocket,
}

-- What an upgrade that may have happened means.
abbrev Upgraded : Connection → Bool × Connection → Type 0
Upgraded c (ok, d) =
    (ok ≡ has_ws d.ws_conn)
    × (should_upgrade_websocket d ≡ (if ok then false else should_upgrade_websocket c))
    × ((later : ℕ) → upgrade_to_websocket later d ≡ (ok, d))
    × (d.parser ≡ c.parser)

upgrade_from-Upgraded :
    (o : Option WebsocketConnection) (now : ℕ) (c : Connection)
    → let c' = record c { ws_conn = o } in Upgraded c' (upgrade_from o now c')
unfolding upgrade_from upgrade_to_websocket should_upgrade_websocket
upgrade_from-Upgraded (some w) now c = (refl, refl, (λ later. refl), refl)
upgrade_from-Upgraded none now c = elim (Bool-cases (is_empty (websocket_key c.parser))) [
  | inl t ↦ rw t (refl, refl, (λ later. rw t refl), refl)
  | inr t ↦ rw t (refl, refl, (λ later. refl), refl)
]

-- `UpgradeToWebsocket` succeeds exactly when the connection is then a WebSocket one, after which it
-- should not be upgraded again; if it fails, whether it should is unchanged. A second call, at any
-- time, gives the same result and changes nothing, and the parser is never touched.
pub upgrade_to_websocket_lem :
    (now later : ℕ) (c : Connection)
    → let (ok, d) = upgrade_to_websocket now c in
      (ok ≡ has_ws d.ws_conn)
      × (should_upgrade_websocket d ≡ (if ok then false else should_upgrade_websocket c))
      × (upgrade_to_websocket later d ≡ (ok, d))
      × (d.parser ≡ c.parser)
unfolding upgrade_to_websocket
upgrade_to_websocket_lem now later c =
    let (a, b, again, same) = upgrade_from-Upgraded c.ws_conn now c in (a, b, again later, same)

-- The record that an upgrade makes.
abbrev pub new_ws : Bytes → ℕ → WebsocketConnection
new_ws key now = record { ws_key = key; ws_accept = []; last_payload = []; last_io_time = now }

module _ (now : ℕ) (c : Connection) (plain : c.ws_conn ≡ none) where
  pub upgrade_to_websocket-no_key :
      is_empty (websocket_key c.parser) ≡ true → upgrade_to_websocket now c ≡ (false, c)
  unfolding upgrade_to_websocket upgrade_from
  upgrade_to_websocket-no_key e = ap (λ o. upgrade_from o now c) plain ∙ rw (e, upgrade_from) refl

  pub upgrade_to_websocket-key :
      is_empty (websocket_key c.parser) ≡ false
      → upgrade_to_websocket now c
        ≡ (true, record c { ws_conn = some (new_ws (websocket_key c.parser) now) })
  unfolding upgrade_to_websocket upgrade_from
  upgrade_to_websocket-key e = ap (λ o. upgrade_from o now c) plain ∙ rw (e, upgrade_from) refl

has_ws-none : (o : Option WebsocketConnection) → has_ws o ≡ false → o ≡ none
has_ws-none none h = refl
has_ws-none (some w) h = cc

pub should_upgrade_websocket-plain :
    (c : Connection) → should_upgrade_websocket c ≡ true → c.ws_conn ≡ none
unfolding should_upgrade_websocket
should_upgrade_websocket-plain c h = elim (Bool-cases (has_ws c.ws_conn)) [
  | inl t ↦ cc (rw t at h)
  | inr t ↦ has_ws-none c.ws_conn t
]
