-- ===== src/Tests/TunnelExamples.antt =====
-- Tests of the models of `process_connect` and `serve_stream`, in src/proxy/internal.rs, and the
-- theorems about them at concrete inputs.
use hudsucker.Prelude.{
  none, All, ◌≡◌, refl, ◌↔◌, ◌⊎◌, true, false, some, List, [], ◌∷◌, codes, ◌==◌, panic,
}
use hudsucker.Http.{Request, http_scheme, https_scheme}
use hudsucker.Handler.{noop_http, noop_websocket}
use hudsucker.Rewind.{new}
use hudsucker.Internal.Connect.{plain, served, connect_task}
use hudsucker.Internal.Connect.Laws.{intercepted}
use hudsucker.Internal.Connect.Intercept.{IsGet, IsTls, connect_task-intercepts}
use hudsucker.Internal.Upgrade.{ws_scheme}
use hudsucker.Internal.Connect.Upgrades.{Dials, EventDials, connect_task-EventDials}
use hudsucker.Internal.Connect.Requests.{EventForwards, connect_task-EventForwards}
use hudsucker.Internal.Service.{tunnel_service}
use hudsucker.Internal.Service.Tunnelled.{Serves, tunnel_service-panics, tunnel_service-Serves}
use hudsucker.Tests.HttpSample.{http}
use hudsucker.Tests.BstrSample.{bstr}
use hudsucker.Tests.IoSample.{Frame, platform, runtime}
use hudsucker.Tests.InternalExamples.{uri, get, self, connect_request}

connect_task-intercepts_example :
    (intercepted runtime (noop_http platform) (noop_websocket platform) (
        connect_task runtime
          (noop_http platform)
          (noop_websocket platform)
          self
          connect_request
          (codes "example.com"))
      ≡ true)
    ↔ ((true ≡ true) × (IsGet (codes "GET ") ⊎ IsTls (codes "GET ")))
connect_task-intercepts_example =
    connect_task-intercepts runtime (noop_http platform) (noop_websocket platform) self
      connect_request connect_request (codes "example.com") (codes "GET / HTTP/1.1")
      (codes "/ HTTP/1.1") (codes "GET ") refl refl

-- The connection is served over HTTP, with the bytes that were read put back.
serves_http :
    connect_task runtime
      (noop_http platform)
      (noop_websocket platform)
      self
      connect_request
      (codes "example.com")
    ≡ served self
        (plain (new (codes "/ HTTP/1.1") (codes "GET ")))
        http_scheme
        (codes "example.com")
      ∷ []
unfolding connect_task ◌==◌
serves_http = refl

-- A request in a tunnel to example.com that names another server.
abbrev astray : Request http (List Frame)
astray = get (uri (some http_scheme) (some (codes "elsewhere.org")) (some (codes "/"))) false

-- A request in a tunnel whose URI is an authority only, as that of CONNECT, makes the service panic.
abbrev pathless : Request http (List Frame)
pathless = record astray { uri = uri none (some (codes "elsewhere.org")) none }

pathless_in_tunnel :
    tunnel_service bstr runtime
      (noop_http platform)
      (noop_websocket platform)
      self
      https_scheme
      (codes "example.com")
      pathless
    ≡ panic
pathless_in_tunnel =
    tunnel_service-panics bstr runtime (noop_http platform) (noop_websocket platform) self
      https_scheme (codes "example.com") pathless refl refl

tunnel_service-Serves_example :
    Serves bstr runtime
      (noop_http platform)
      (noop_websocket platform)
      self
      https_scheme
      (codes "example.com")
      astray
      (tunnel_service bstr runtime
        (noop_http platform)
        (noop_websocket platform)
        self
        https_scheme
        (codes "example.com")
        astray)
tunnel_service-Serves_example =
    tunnel_service-Serves bstr runtime (noop_http platform) (noop_websocket platform) self
      https_scheme (codes "example.com") astray

connect_task-EventDials_example :
    All (EventDials bstr runtime (noop_websocket platform) (codes "example.com")) (
      connect_task runtime
        (noop_http platform)
        (noop_websocket platform)
        self
        connect_request
        (codes "example.com"))
connect_task-EventDials_example =
    connect_task-EventDials bstr runtime (noop_websocket platform) (codes "example.com") self
      connect_request

connect_task-EventForwards_example :
    All (EventForwards bstr runtime (noop_websocket platform) (codes "example.com")) (
      connect_task runtime
        (noop_http platform)
        (noop_websocket platform)
        self
        connect_request
        (codes "example.com"))
connect_task-EventForwards_example =
    connect_task-EventForwards bstr runtime (noop_websocket platform) (codes "example.com") self
      connect_request

-- A request in the tunnel that asks for a WebSocket of another server.
abbrev upgrading : Request http (List Frame)
upgrading = record astray { headers = (codes "upgrade", (codes "websocket", refl)) ∷ [] }

-- It asks for one of the tunnel's server.
upgrades_in_tunnel :
    Dials bstr runtime
      (noop_websocket platform)
      (codes "example.com")
      self
      http_scheme
      (codes "example.com")
      ws_scheme
      upgrading
      (codes "/")
unfolding connect_task ◌==◌
upgrades_in_tunnel =
    (connect_task-EventDials bstr runtime (noop_websocket platform) (codes "example.com") self
        connect_request).0
      upgrading (codes "/") refl refl refl (λ uri. refl)
