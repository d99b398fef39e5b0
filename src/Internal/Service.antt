-- ===== src/Internal/Service.antt =====
-- The service of `serve_stream`, in src/proxy/internal.rs: a request that arrives in an intercepted
-- tunnel is made absolute and goes to the proxy.
pub mod Tunnelled
use hudsucker.Prelude.{Outcome, and_then}
use hudsucker.Http.{Request, Scheme}
use hudsucker.Platform.{Platform}
use hudsucker.Handler.{HttpHandler, WebSocketHandler}
use hudsucker.Rewind.{Buffers}
use hudsucker.Bstr.{Bstr}
use hudsucker.Internal.Runtime.{Runtime, InternalProxy}
use hudsucker.Internal.Effect.{Reply}
use hudsucker.Internal.Serve.{make_absolute}
use hudsucker.Internal.Routing.{proxy}

module _ {p : Platform} {k : Buffers} (b : Bstr) (r : Runtime p k) (h : HttpHandler p)
    (w : WebSocketHandler p) where
  pub tunnel_service :
      InternalProxy r h w
      → Scheme
      → p.http.Authority
      → Request p.http p.bodies.incoming.Carrier
      → Outcome (Reply r h w)
  tunnel_service self scheme authority req =
      and_then (make_absolute p.http scheme authority req) (λ req'. proxy b r h w self req')
