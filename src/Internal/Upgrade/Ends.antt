-- ===== src/Internal/Upgrade/Ends.antt =====
-- All that can become of the task for a WebSocket that `upgrade_websocket` of src/proxy/internal.rs
-- spawns.
use hudsucker.Prelude.{
  ◌≡◌, refl, ◌⊎◌, inl, inr, true, false, List, [], ◌∷◌, Result, ok, err, Bool-cases, Result-cases,
}
use hudsucker.Http.{Request}
use hudsucker.Platform.{Platform}
use hudsucker.Handler.{HttpHandler, WebSocketHandler}
use hudsucker.Rewind.{Buffers}
use hudsucker.Internal.Runtime.{Runtime, InternalProxy}
use hudsucker.Internal.Upgrade.{
  SocketEvent, handle_failed, upgrade_failed, dial, dialled, handle_websocket, after_upgrade,
  after_handling, websocket_task,
}
use hudsucker.Internal.Upgrade.Laws.{Relays, websocket_task-Relays}

module _ {p : Platform} {k : Buffers} (r : Runtime p k) (h : HttpHandler p) (w : WebSocketHandler p)
    (self : InternalProxy r h w) (req : Request p.http (Unit {0})) where
  -- The outcome of dialling the server with a request: with the proxy's connector if a feature for
  -- TLS in the client is on, and else in the plain.
  abbrev pub Dialling : Result r.WsStream p.WsError → Type 0
  Dialling out =
      ((r.tls_client ≡ true) × (r.connect_tls req self.websocket_connector ≡ out))
      ⊎ ((r.tls_client ≡ false) × (r.connect_plain req ≡ out))

  -- The ways in which the task ends.
  pub data Ends (websocket : r.Websocket) (events : List (SocketEvent r h w)) : Type 0 where
    lost :
        (e : p.WsError)
        → r.accept_websocket websocket ≡ err e
        → events ≡ upgrade_failed e ∷ []
        → Ends websocket events
    unreached :
        (client : r.WsStream) (e : p.WsError)
        → r.accept_websocket websocket ≡ ok client
        → Dialling (err e)
        → events ≡ handle_failed e ∷ []
        → Ends websocket events
    relays :
        (client server : r.WsStream)
        → r.accept_websocket websocket ≡ ok client
        → Dialling (ok server)
        → Relays r h w self req.uri client server events
        → Ends websocket events

  dial-Dialling : (out : Result r.WsStream p.WsError) → dial r h w self req ≡ out → Dialling out
  dial-Dialling out e = elim (Bool-cases r.tls_client) [
    | inl on ↦ inl (on, rw on at e)
    | inr off ↦ inr (off, rw off at e)
  ]

  -- The task for a WebSocket awaits the connection of the client, and logs an error if that fails.
  -- It then dials the server with the request that the upgrade left, with TLS and the proxy's
  -- connector if a feature for that is on and in the plain if not, and logs an error if that fails,
  -- with nothing forwarded. Else two forwarders run and no more, one from the client's connection
  -- to the server's and one back, each with the proxy's handler, and nothing is logged.
  pub websocket_task-Ends :
      (websocket : r.Websocket) → Ends websocket (websocket_task r h w self websocket req)
  unfolding websocket_task handle_websocket after_handling
  websocket_task-Ends websocket = elim (Result-cases (r.accept_websocket websocket)) [
    | inr (e, fails) ↦ lost e fails (rw (fails, after_upgrade) refl)
    | inl (client, accepted) ↦ elim (Result-cases (dial r h w self req)) [
      | inr (e, fails) ↦
          unreached client e accepted (dial-Dialling (err e) fails)
            (rw (accepted, after_upgrade) (rw (fails, dialled) refl))
      | inl (server, reached) ↦
          relays client server accepted (dial-Dialling (ok server) reached)
            (websocket_task-Relays r h w self websocket req client server accepted reached)
    ]
  ]
