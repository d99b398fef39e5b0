-- ===== src/Internal/Upgrade/Session.antt =====
-- A WebSocket through the proxy of src/proxy/internal.rs, with both forwarders that its task spawns.
use hudsucker.Prelude.{◌≡◌, ◌∙◌, none, List, [], ◌∷◌, ◌++◌, Result, ok}
use hudsucker.Http.{Request}
use hudsucker.Platform.{Platform}
use hudsucker.Handler.{
  HttpHandler, WebSocketHandler, WebSocketContext, client_to_server, server_to_client, run_handler,
  run_handler-default,
}
use hudsucker.Handler.Messages.{
  received, failure, closing, send_all, PassesMessages, handle_websocket-passes,
}
use hudsucker.Rewind.{Buffers}
use hudsucker.Internal.Runtime.{Runtime, InternalProxy}
use hudsucker.Internal.Upgrade.{Forward, forwarding, dial, websocket_task}
use hudsucker.Internal.Upgrade.Laws.{websocket_task-Relays}

-- What each half of a connection yields before it ends, and sending on one.
module _ {p : Platform} {k : Buffers} (r : Runtime p k) (h : HttpHandler p) (w : WebSocketHandler p)
    (items : r.WsSource → List (Result p.Message p.WsError))
    (send : r.WsSink → p.Message → Result (Unit {0}) p.WsError × r.WsSink) where
  -- The future of `spawn_message_forwarder`, run to its end.
  abbrev pub message_forwarder : Forward r h w → r.WsSink
  message_forwarder f = run_handler p w send f.ctx f.handler (items f.source) f.sink

  -- The sink after it was sent what a stream yields before its first error, and a close message if
  -- there was one.
  abbrev pub sent_on : (ctx : WebSocketContext p) → r.WsSource → r.WsSink → r.WsSink
  sent_on ctx source sink =
      send_all p w ctx send sink
        (received (items source) ++ closing p w ctx (failure (items source)))

  forwarded :
      w.own_handle_websocket ≡ none
      → PassesMessages w
      → (f : Forward r h w) → message_forwarder f ≡ sent_on f.ctx f.source f.sink
  forwarded default passes f =
      run_handler-default p w send f.ctx default f.handler (items f.source) f.sink
      ∙ handle_websocket-passes p w f.ctx send passes (items f.source) _

  -- With a handler that has the default `handle_websocket` and passes every message on, when the
  -- client's WebSocket is accepted and the server's is reached, the task spawns two forwarders, and
  -- run to their ends these send to the server exactly the messages that the client's connection
  -- yields before its first error, and to the client exactly those that the server's yields,
  -- unchanged and in order, each with a close message at the end if there was an error. The handler
  -- of the forwarder to the server is told that the messages go from the server to the client, and
  -- that of the other the reverse.
  pub websocket_task-passes :
      w.own_handle_websocket ≡ none
      → PassesMessages w
      → (self : InternalProxy r h w) (websocket : r.Websocket) (req : Request p.http (Unit {0}))
        (client server : r.WsStream)
      → r.accept_websocket websocket ≡ ok client
      → dial r h w self req ≡ ok server
      → (to_server : Forward r h w) × (to_client : Forward r h w) × (websocket_task r h w self
            websocket req
          ≡ forwarding to_server ∷ forwarding to_client ∷ [])
        × (to_server.ctx ≡ server_to_client req.uri self.client_addr)
        × (to_client.ctx ≡ client_to_server self.client_addr req.uri)
        × (message_forwarder to_server
            ≡ sent_on to_server.ctx (r.split client).1 (r.split server).0)
        × (message_forwarder to_client
            ≡ sent_on to_client.ctx (r.split server).1 (r.split client).0)
  websocket_task-passes default passes self websocket req client server accepted reached =
      let relays = websocket_task-Relays r h w self websocket req client server accepted reached in
      (
        relays.to_server,
        relays.to_client,
        relays.both,
        relays.contexts.0,
        relays.contexts.1,
        rw (← relays.from_client, ← relays.into_server) (forwarded default passes relays.to_server),
        rw (← relays.from_server, ← relays.into_client) (forwarded default passes relays.to_client),
      )
