-- ===== src/Examples/Interception.antt =====
-- An HTTPS request through the program examples/noop.rs, from the CONNECT request on a connection of
-- src/proxy/mod.rs to the server, through src/proxy/internal.rs and
-- src/certificate_authority/rcgen_authority.rs.
use hudsucker.Prelude.{ℕ, ◌≡◌, true, List, [], ◌∷◌, Bool, All, done, ok, Bytes}
use hudsucker.Http.{map_request}
use hudsucker.Body.{from_incoming}
use hudsucker.Platform.{Platform, BodyRequest, empty_response}
use hudsucker.Handler.{noop_http, noop_websocket}
use hudsucker.Rewind.{Buffers, new}
use hudsucker.Bstr.{Bstr}
use hudsucker.Internal.Runtime.{Runtime, InternalProxy}
use hudsucker.Internal.Effect.{spawned_connect}
use hudsucker.Internal.Connect.{Event, connect_task}
use hudsucker.Internal.Connect.Protocols.{Goes}
use hudsucker.Internal.Connect.Requests.{EventForwards}
use hudsucker.Internal.Connect.Upgrades.{EventDials}
use hudsucker.Internal.Connect.Certified.{EventPresents}
use hudsucker.Authority.{Time, Serving}
use hudsucker.Authority.Rcgen.{Rcgen}
use hudsucker.Builder.{Parts}
use hudsucker.Start.{Listening, Incoming, service, internal_proxy}
use hudsucker.Start.Laws.{fresh_answer}
use hudsucker.Examples.Mains.{noop_main}

module _ {p : Platform} {buf : Buffers} {r : Runtime p buf} {k : Parts r} (s : Listening k)
    (b : Bstr) (localhost_3000 : p.SocketAddr) (ca : r.Ca) (shutdown : k.Shutdown) (v : Serving)
    (same_authority : p.http.Authority → v.Authority)
    (same_config : v.ServerConfig → r.ServerConfig) (http2 : Bool) where
  abbrev pub NoopProxy : Type 0
  NoopProxy = InternalProxy r (noop_http p) (noop_websocket p)

  -- The proxy that answers a request from a client.
  abbrev pub noop_for : p.SocketAddr → NoopProxy
  noop_for client =
      internal_proxy s (noop_main k localhost_3000 ca shutdown)
        (service s (noop_main k localhost_3000 ca shutdown) client)

  -- The task of a tunnel to an authority.
  abbrev pub noop_task :
      p.SocketAddr
      → BodyRequest p
      → p.http.Authority
      → List (Event r (noop_http p) (noop_websocket p))
  noop_task client req authority =
      connect_task r (noop_http p) (noop_websocket p) (noop_for client) req authority

  -- What becomes of a CONNECT request: the client is told to go on and one task is spawned, the
  -- requests that it serves go to the authority, and the certificates that it shows are for it.
  pub record Intercepts (delay : ℕ) (at : Time) (client : p.SocketAddr)
      (req : Incoming s (noop_main k localhost_3000 ca shutdown)) (authority : p.http.Authority)
      : Type 0 where
    pub tunnels :
        fresh_answer s
          (noop_main k localhost_3000 ca shutdown)
          b
          (service s (noop_main k localhost_3000 ca shutdown) client)
          req
        ≡ done (
          spawned_connect (noop_for client) (map_request (from_incoming p.bodies) req) authority
              ∷ [],
          empty_response p 200,
        )
    pub goes :
        (io io' : r.upgraded.Io) (req' : BodyRequest p) (bytes : Bytes)
        → r.upgrade_on (map_request (from_incoming p.bodies) req) ≡ (ok io, req')
        → r.read 4 io ≡ (ok bytes, io')
        → Goes r
            (noop_http p)
            (noop_websocket p)
            (noop_for client)
            authority
            (new io' bytes)
            true
            bytes
            (noop_task client (map_request (from_incoming p.bodies) req) authority)
    pub forwards :
        All
          (EventForwards b r (noop_websocket p) authority)
          (noop_task client (map_request (from_incoming p.bodies) req) authority)
    pub dials :
        All
          (EventDials b r (noop_websocket p) authority)
          (noop_task client (map_request (from_incoming p.bodies) req) authority)
    pub presents :
        All
          (EventPresents r
            (noop_http p)
            (noop_websocket p)
            v
            same_authority
            same_config
            http2
            delay
            at)
          (noop_task client (map_request (from_incoming p.bodies) req) authority)
