-- ===== src/Internal/Routing.antt =====
-- `InternalProxy::proxy` and the answer of `process_connect`, of src/proxy/internal.rs.
pub mod Answers
pub mod Noop
pub mod Transparent
use hudsucker.Prelude.{
  Bool, true, false, if◌then◌else◌, Option, none, some, List, [], ◌∷◌, map, Result, ok, err,
  Outcome, done, panic,
}
use hudsucker.Http.{Request, Response, map_body, map_request}
use hudsucker.Body.{Body, from_incoming}
use hudsucker.Platform.{Platform, BodyRequest, BodyResponse, empty_response}
use hudsucker.Handler.{HttpHandler, WebSocketHandler, RequestOrResponse, request, response}
use hudsucker.Rewind.{Buffers}
use hudsucker.Bstr.{Bstr}
use hudsucker.Internal.Runtime.{Runtime, InternalProxy, context}
use hudsucker.Internal.Effect.{Effect, Reply, requested, logged, spawned_connect, bad_request}
use hudsucker.Internal.Normalize.{normalize_request}
use hudsucker.Internal.Upgrade.{upgrade_websocket}

module _ {p : Platform} {k : Buffers} (b : Bstr) (r : Runtime p k) (h : HttpHandler p)
    (w : WebSocketHandler p) where
  connect_to : InternalProxy r h w → BodyRequest p → Option p.http.Authority → Reply r h w
  connect_to self req (some authority) =
      (spawned_connect self req authority ∷ [], empty_response p 200)
  connect_to self req none = ([], bad_request p)

  pub process_connect : InternalProxy r h w → BodyRequest p → Reply r h w
  unfolding connect_to
  process_connect self req = connect_to self req (p.http.into_parts req.uri).authority

  -- The handler is given what the client got from the server.
  respond :
      InternalProxy r h w
      → Result (Response p.http p.bodies.incoming.Carrier) p.ClientError
      → Reply r h w
  respond self (ok res) = (
    [],
    (h.handle_response self.http_handler (context self) (map_body (from_incoming p.bodies) res)).1,
  )
  respond self (err e) =
      let (_, lines, res) = h.handle_error self.http_handler (context self) e in
      (map logged lines, res)

  send : InternalProxy r h w → Outcome (BodyRequest p) → Outcome (Reply r h w)
  send self panic = panic
  send self (done req) =
      let (effects, res) = respond self (r.request self.client req) in
      done (requested req ∷ effects, res)

  route : InternalProxy r h w → BodyRequest p → Outcome (Reply r h w)
  route self req =
      if p.http.is_connect req.method
      then done (process_connect self req)
      else if r.is_upgrade_request req
      then done (upgrade_websocket r h w self req)
      else send self (normalize_request p.http b req)

  after_handler : InternalProxy r h w → h.State × RequestOrResponse p → Outcome (Reply r h w)
  after_handler self (handler', request req) = route (record self { http_handler = handler' }) req
  after_handler self (handler', response res) = done ([], res)

  pub proxy : InternalProxy r h w → Request p.http p.bodies.incoming.Carrier → Outcome (Reply r h w)
  unfolding after_handler route send respond
  proxy self req =
      after_handler self (
        h.handle_request self.http_handler (context self)
          (map_request (from_incoming p.bodies) req))
