-- ===== src/Internal/Effect.antt =====
-- What the proxy of src/proxy/internal.rs does beside answering a request, and the answer.
use hudsucker.Prelude.{List}
use hudsucker.Http.{Request}
use hudsucker.Platform.{Platform, BodyRequest, BodyResponse, empty_response}
use hudsucker.Handler.{HttpHandler, WebSocketHandler}
use hudsucker.Rewind.{Buffers}
use hudsucker.Internal.Runtime.{Runtime, InternalProxy}

module _ {p : Platform} {k : Buffers} (r : Runtime p k) (h : HttpHandler p)
    (w : WebSocketHandler p) where
  pub data Effect : Type 0 where
    -- the client sends a request to a server
    requested : BodyRequest p → Effect
    -- the handler logs the error with which sending the request failed
    logged : p.ClientError → Effect
    -- the task for a tunnel is spawned, with what it captures
    spawned_connect : InternalProxy r h w → BodyRequest p → p.http.Authority → Effect
    -- the task for a WebSocket is spawned
    spawned_websocket : InternalProxy r h w → r.Websocket → Request p.http (Unit {0}) → Effect

  abbrev pub Reply : Type 0
  Reply = List Effect × BodyResponse p

-- `bad_request`.
unfoldable pub bad_request : (p : Platform) → BodyResponse p
bad_request p = empty_response p 400
