-- ===== src/Internal/Routing/Answers.antt =====
-- What `InternalProxy::proxy` answers, and what it does beside that.
use hudsucker.Prelude.{
  ◌≡◌, refl, inl, inr, true, false, none, some, [], ◌∷◌, map, ok, err, Result-cases, done,
  Bool-cases, Option-cases,
}
use hudsucker.Http.{Request, Response, map_body, map_request}
use hudsucker.Body.{from_incoming}
use hudsucker.Platform.{Platform, BodyRequest, BodyResponse, empty_response}
use hudsucker.Handler.{
  HttpHandler, WebSocketHandler, RequestOrResponse, request, response, noop_http,
}
use hudsucker.Rewind.{Buffers}
use hudsucker.Bstr.{Bstr}
use hudsucker.Internal.Runtime.{Runtime, InternalProxy, context}
use hudsucker.Internal.Effect.{Reply, requested, logged, spawned_connect, bad_request}
use hudsucker.Internal.Normalize.{normalize_request}
use hudsucker.Internal.Normalize.Laws.{IsNormalized, normalize_request-IsNormalized}
use hudsucker.Internal.Upgrade.{upgrade_websocket}
use hudsucker.Internal.Routing.{
  connect_to, process_connect, respond, send, route, after_handler, proxy,
}

module _ {p : Platform} {k : Buffers} (b : Bstr) (r : Runtime p k) (h : HttpHandler p)
    (w : WebSocketHandler p) where
  -- The replies to a request that the handler let through, from the state that it left.
  pub data Routes (self : InternalProxy r h w) (req : BodyRequest p) (reply : Reply r h w)
      : Type 0 where
    -- CONNECT without an authority
    bad_connect :
        p.http.is_connect req.method ≡ true
        → (p.http.into_parts req.uri).authority ≡ none
        → reply ≡ ([], bad_request p)
        → Routes self req reply
    -- CONNECT: the client is told to go on, and the tunnel is left to a task
    tunnels :
        (authority : p.http.Authority)
        → p.http.is_connect req.method ≡ true
        → (p.http.into_parts req.uri).authority ≡ some authority
        → reply ≡ (spawned_connect self req authority ∷ [], empty_response p 200)
        → Routes self req reply
    websocket :
        p.http.is_connect req.method ≡ false
        → r.is_upgrade_request req ≡ true
        → reply ≡ upgrade_websocket r h w self req
        → Routes self req reply
    -- one request, normalised, is sent, and the handler has the last word on what comes back
    forwarded :
        (sent : BodyRequest p) (res : Response p.http p.bodies.incoming.Carrier)
        → p.http.is_connect req.method ≡ false
        → r.is_upgrade_request req ≡ false
        → IsNormalized p.http b req sent
        → r.request self.client sent ≡ ok res
        → reply ≡ (
          requested sent ∷ [],
          (h.handle_response self.http_handler
              (context self)
              (map_body (from_incoming p.bodies) res)).1,
        )
        → Routes self req reply
    -- the request could not be sent: what the handler logs, and its answer to the error
    failed :
        (sent : BodyRequest p) (e : p.ClientError)
        → p.http.is_connect req.method ≡ false
        → r.is_upgrade_request req ≡ false
        → IsNormalized p.http b req sent
        → r.request self.client sent ≡ err e
        → reply ≡ (
          requested sent ∷ map logged (h.handle_error self.http_handler (context self) e).1,
          (h.handle_error self.http_handler (context self) e).2,
        )
        → Routes self req reply

  process_connect-Routes :
      (self : InternalProxy r h w) (req : BodyRequest p)
      → p.http.is_connect req.method ≡ true
      → Routes self req (process_connect b r h w self req)
  unfolding process_connect
  process_connect-Routes self req c = elim (Option-cases (p.http.into_parts req.uri).authority) [
    | inl lacks ↦ bad_connect c lacks (rw (lacks, connect_to))
    | inr (authority, has) ↦ tunnels authority c has (rw (has, connect_to))
  ]

  send-Routes :
      (self : InternalProxy r h w) (req : BodyRequest p)
      → p.http.is_connect req.method ≡ false
      → r.is_upgrade_request req ≡ false
      → (reply : Reply r h w) × (send b r h w self (normalize_request p.http b req) ≡ done reply)
        × Routes self req reply
  unfolding send respond
  send-Routes self req c u =
      let (sent, made, normal) = normalize_request-IsNormalized p.http b req in
      let reply : Reply r h w = (
        requested sent ∷ (respond b r h w self (r.request self.client sent)).0,
        (respond b r h w self (r.request self.client sent)).1,
      ) in
      elim (Result-cases (r.request self.client sent)) [
        | inl (res, e) ↦ (reply, rw made, forwarded sent res c u normal e (rw (e, respond)))
        | inr (error, e) ↦ (reply, rw made, failed sent error c u normal e (rw (e, respond)))
      ]

  route-Routes :
      (self : InternalProxy r h w) (req : BodyRequest p)
      → (reply : Reply r h w) × (route b r h w self req ≡ done reply) × Routes self req reply
  unfolding route
  route-Routes self req = elim (Bool-cases (p.http.is_connect req.method)) [
    | inl c ↦ (_, rw c, process_connect-Routes self req c)
    | inr c ↦ elim (Bool-cases (r.is_upgrade_request req)) [
      | inl u ↦ (_, rw (c, u), websocket c u refl)
      | inr u ↦
          let (reply, sent, routes) = send-Routes self req c u in (reply, rw (c, u) sent, routes)
    ]
  ]

  -- The replies to a request: the handler's own response, with no effect, or the reply to the
  -- request that it returns instead, from the state in which it is then.
  pub data Answers (self : InternalProxy r h w) (req : BodyRequest p) (reply : Reply r h w)
      : Type 0 where
    by_handler :
        (handler' : h.State) (res : BodyResponse p)
        → h.handle_request self.http_handler (context self) req ≡ (handler', response res)
        → reply ≡ ([], res)
        → Answers self req reply
    routed :
        (handler' : h.State) (req' : BodyRequest p)
        → h.handle_request self.http_handler (context self) req ≡ (handler', request req')
        → Routes (record self { http_handler = handler' }) req' reply
        → Answers self req reply

  after_handler-Answers :
      (self : InternalProxy r h w) (req : BodyRequest p) (out : h.State × RequestOrResponse p)
      → h.handle_request self.http_handler (context self) req ≡ out
      → (reply : Reply r h w) × (after_handler b r h w self out ≡ done reply)
        × Answers self req reply
  unfolding after_handler
  after_handler-Answers self req (handler', response res) e =
      (_, refl, by_handler handler' res e refl)
  after_handler-Answers self req (handler', request req') e =
      let (reply, made, routes) = route-Routes (record self { http_handler = handler' }) req' in
      (reply, made, routed handler' req' e routes)

  -- The proxy always answers, and does not panic. The handler's own response goes back with nothing
  -- done. Else, of the request that the handler returns: CONNECT without an authority is answered
  -- with 400; CONNECT with one with 200, and the tunnel is spawned; a WebSocket is upgraded; any
  -- other request is sent once, normalised, and the answer is the handler's to the server's
  -- response or to the error, for which it may also log lines. The handler is called in the state
  -- in which its last call left it.
  pub proxy-Answers :
      (self : InternalProxy r h w) (req : Request p.http p.bodies.incoming.Carrier)
      → (reply : Reply r h w) × (proxy b r h w self req ≡ done reply)
        × Answers self (map_request (from_incoming p.bodies) req) reply
  unfolding proxy
  proxy-Answers self req =
      after_handler-Answers self (map_request (from_incoming p.bodies) req) _ refl

-- With the handler that does nothing, a request that is neither CONNECT nor an upgrade reaches the
-- server normalised and not changed otherwise, and the answer is the server's response as it is, or
-- an empty response with the status 502 if the request could not be sent, which is logged.
pub proxy-noop :
    {p : Platform} {k : Buffers} (b : Bstr) (r : Runtime p k) (w : WebSocketHandler p)
    (self : InternalProxy r (noop_http p) w) (req : Request p.http p.bodies.incoming.Carrier)
    → p.http.is_connect req.method ≡ false
    → r.is_upgrade_request (map_request (from_incoming p.bodies) req) ≡ false
    → (sent : BodyRequest p) × IsNormalized p.http b (map_request (from_incoming p.bodies) req) sent
      × (proxy b r (noop_http p) w self req
          ≡ done (elim (r.request self.client sent) [
            | ok res ↦ (requested sent ∷ [], map_body (from_incoming p.bodies) res)
            | err e ↦ (requested sent ∷ logged e ∷ [], empty_response p 502)
          ]))
unfolding proxy
proxy-noop {p} b r w self req c u =
    let (sent, made, normal) =
      normalize_request-IsNormalized p.http b (map_request (from_incoming p.bodies) req) in
    (
      sent,
      normal,
      rw (c, u, made)
          (elim (Result-cases (r.request self.client sent)) [
            | inl (res, e) ↦ rw (e, respond)
            | inr (error, e) ↦ rw (e, respond)
          ]),
    )
