-- ===== src/Internal/Routing/Transparent.antt =====
-- A handler that changes nothing cannot be told from the one that does nothing, by what
-- `InternalProxy::proxy` of src/proxy/internal.rs answers and does.
use hudsucker.Prelude.{◌≡◌, refl, inl, inr, Bool-cases, Option-cases, Result-cases, done}
use hudsucker.Http.{Request, map_request}
use hudsucker.Body.{from_incoming}
use hudsucker.Platform.{Platform, BodyRequest}
use hudsucker.Handler.{HttpHandler, WebSocketHandler, RequestOrResponse, request, noop_http}
use hudsucker.Rewind.{Buffers}
use hudsucker.Bstr.{Bstr}
use hudsucker.Internal.Runtime.{Runtime, InternalProxy, context}
use hudsucker.Internal.Normalize.{normalize_request}
use hudsucker.Internal.Normalize.Laws.{normalize_request-IsNormalized}
use hudsucker.Internal.Transparent.{IsTransparent, forget, forget_reply}
use hudsucker.Internal.Upgrade.Transparent.{upgrade_websocket-forget}
use hudsucker.Internal.Routing.{
  connect_to, process_connect, respond, send, route, after_handler, proxy,
}

module _ {p : Platform} {k : Buffers} (b : Bstr) (r : Runtime p k) (h : HttpHandler p)
    (w : WebSocketHandler p) where
  process_connect-forget :
      (self : InternalProxy r h w) (req : BodyRequest p)
      → done (process_connect b r (noop_http p) w (forget self) req)
        ≡ forget_reply (done (process_connect b r h w self req))
  unfolding process_connect connect_to
  process_connect-forget self req = elim (Option-cases (p.http.into_parts req.uri).authority) [
    | inl lacks ↦ rw lacks refl
    | inr (authority, has) ↦ rw has refl
  ]

  send-forget :
      IsTransparent h
      → (self : InternalProxy r h w) (req : BodyRequest p)
      → send b r (noop_http p) w (forget self) (normalize_request p.http b req)
        ≡ forget_reply (send b r h w self (normalize_request p.http b req))
  unfolding send respond
  send-forget t self req =
      let (sent, made, normal) = normalize_request-IsNormalized p.http b req in
      elim (Result-cases (r.request self.client sent)) [
        | inl (res, e) ↦ rw (made, e) (rw t.passes_response refl)
        | inr (error, e) ↦ rw (made, e) (rw (t.default_error, t.logs_error) refl)
      ]

  route-forget :
      IsTransparent h
      → (self : InternalProxy r h w) (req : BodyRequest p)
      → route b r (noop_http p) w (forget self) req ≡ forget_reply (route b r h w self req)
  unfolding route
  route-forget t self req = elim (Bool-cases (p.http.is_connect req.method)) [
    | inl c ↦ rw c (process_connect-forget self req)
    | inr c ↦ elim (Bool-cases (r.is_upgrade_request req)) [
      | inl u ↦ rw (c, u) (upgrade_websocket-forget r h w self req)
      | inr u ↦ rw (c, u) (send-forget t self req)
    ]
  ]

  after_handler-request :
      (self : InternalProxy r h w) (out : h.State × RequestOrResponse p) (req : BodyRequest p)
      → out.1 ≡ request req
      → after_handler b r h w self out ≡ route b r h w (record self { http_handler = out.0 }) req
  unfolding after_handler
  after_handler-request self (handler', passed) req e = rw e refl

  -- Of a handler that passes requests and responses on as they are, answers errors with the default
  -- response and intercepts every tunnel, neither a client nor a server can tell what it keeps in
  -- its state: for every request, the answer is the one that the proxy gives with the handler that
  -- does nothing, and what the proxy does beside that is the same: the requests that it sends, and
  -- the tasks that it spawns for tunnels and WebSockets, up to the state of the handler in them.
  pub proxy-forget :
      IsTransparent h
      → (self : InternalProxy r h w) (req : Request p.http p.bodies.incoming.Carrier)
      → proxy b r (noop_http p) w (forget self) req ≡ forget_reply (proxy b r h w self req)
  unfolding proxy after_handler
  proxy-forget t self req =
      let req' : BodyRequest p = map_request (from_incoming p.bodies) req in
      let out = h.handle_request self.http_handler (context self) req' in
      rw
        (after_handler-request self out req'
          (t.passes_request self.http_handler (context self) req'))
        (route-forget t (record self { http_handler = out.0 }) req')
