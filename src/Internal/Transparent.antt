-- ===== src/Internal/Transparent.antt =====
-- Handlers that change nothing, and what of the proxy of src/proxy/internal.rs does not depend on
-- the state of a handler.
use hudsucker.Prelude.{◌≡◌, true, [], ◌∷◌, map, Outcome, done, panic}
use hudsucker.Platform.{Platform, BodyRequest, BodyResponse, empty_response}
use hudsucker.Handler.{HttpHandler, WebSocketHandler, HttpContext, request, noop_http}
use hudsucker.Rewind.{Buffers}
use hudsucker.Internal.Runtime.{Runtime, InternalProxy}
use hudsucker.Internal.Effect.{Effect, Reply, requested, logged, spawned_connect, spawned_websocket}

-- A handler that passes everything on, whatever it keeps in its state: requests and responses as
-- they are, errors with the default response, and that intercepts every tunnel.
pub record IsTransparent {p : Platform} (h : HttpHandler p) : Type 0 where
  pub passes_request :
      (s : h.State) (ctx : HttpContext p) (req : BodyRequest p)
      → (h.handle_request s ctx req).1 ≡ request req
  pub passes_response :
      (s : h.State) (ctx : HttpContext p) (res : BodyResponse p)
      → (h.handle_response s ctx res).1 ≡ res
  pub default_error :
      (s : h.State) (ctx : HttpContext p) (e : p.ClientError)
      → (h.handle_error s ctx e).2 ≡ empty_response p 502
  pub logs_error :
      (s : h.State) (ctx : HttpContext p) (e : p.ClientError) → (h.handle_error s ctx e).1 ≡ e ∷ []
  pub intercepts :
      (s : h.State) (ctx : HttpContext p) (req : BodyRequest p)
      → (h.should_intercept s ctx req).1 ≡ true

module _ {p : Platform} {k : Buffers} {r : Runtime p k} {h : HttpHandler p}
    {w : WebSocketHandler p} where
  -- The proxy with the handler that does nothing in place of its own.
  abbrev pub forget : InternalProxy r h w → InternalProxy r (noop_http p) w
  forget self = record {
    ca = self.ca;
    client = self.client;
    server = self.server;
    http_handler = tt;
    websocket_handler = self.websocket_handler;
    websocket_connector = self.websocket_connector;
    client_addr = self.client_addr;
  }

  abbrev pub forget_effect : Effect r h w → Effect r (noop_http p) w
  forget_effect (requested req) = requested req
  forget_effect (logged e) = logged e
  forget_effect (spawned_connect self req authority) = spawned_connect (forget self) req authority
  forget_effect (spawned_websocket self websocket req) =
      spawned_websocket (forget self) websocket req

  abbrev pub forget_reply : Outcome (Reply r h w) → Outcome (Reply r (noop_http p) w)
  forget_reply panic = panic
  forget_reply (done (effects, res)) = done (map forget_effect effects, res)
