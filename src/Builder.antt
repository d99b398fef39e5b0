-- ===== src/Builder.antt =====
-- src/proxy/builder.rs and the state of src/proxy/mod.rs: a proxy is put together in an order that
-- the types of the builder's states prescribe.
pub mod Laws
pub mod Chains
use hudsucker.Prelude.{Option, none, some}
use hudsucker.Platform.{Platform}
use hudsucker.Rewind.{Buffers}
use hudsucker.Internal.Runtime.{Runtime}
use hudsucker.Handler.{HttpHandler, WebSocketHandler, noop_http, noop_websocket}

-- What the builder takes from `tokio`, `hyper-util`, `hyper-rustls` and `hyper-tls` beside what the
-- proxy takes, and the type of shutdown futures, with the future that is never ready.
pub record Parts {p : Platform} {buf : Buffers} (r : Runtime p buf) : Type 1 where
  pub TcpListener : Type 0
  -- `Client::builder` with both settings for the case of headers, on a connector of either kind
  pub rustls_client : r.Client
  pub native_tls_client : r.Client
  pub Shutdown : Type 0
  pub pending : Shutdown

-- `AddrOrListener`.
pub data AddrOrListener {p : Platform} {buf : Buffers} {r : Runtime p buf} (k : Parts r)
    : Type 0 where
  addr : p.SocketAddr → AddrOrListener k
  listener : k.TcpListener → AddrOrListener k

-- A handler and the state that it starts from.
pub record HttpWith (p : Platform) : Type 1 where
  pub handler : HttpHandler p
  pub state : handler.State

pub record WebSocketWith (p : Platform) : Type 1 where
  pub handler : WebSocketHandler p
  pub state : handler.State

module _ {p : Platform} {buf : Buffers} {r : Runtime p buf} (k : Parts r) where
  pub record WantsClient : Type 0 where
    pub al : AddrOrListener k

  pub record WantsCa : Type 0 where
    pub al : AddrOrListener k
    pub client : r.Client

  pub record WantsHandlers : Type 1 where
    pub al : AddrOrListener k
    pub client : r.Client
    pub ca : r.Ca
    pub http_handler : HttpWith p
    pub websocket_handler : WebSocketWith p
    pub websocket_connector : Option r.Connector
    pub server : Option r.Server
    pub graceful_shutdown : k.Shutdown

  -- `Proxy`, whose `Arc` about the authority is the authority itself.
  pub record Proxy : Type 1 where
    pub al : AddrOrListener k
    pub ca : r.Ca
    pub client : r.Client
    pub http_handler : HttpWith p
    pub websocket_handler : WebSocketWith p
    pub websocket_connector : Option r.Connector
    pub server : Option r.Server
    pub graceful_shutdown : k.Shutdown

  -- The builder's first state holds nothing.
  abbrev pub WantsAddr : Type 0
  WantsAddr = Unit

  abbrev pub with_addr : WantsAddr → p.SocketAddr → WantsClient
  with_addr _ a = record { al = addr a }

  abbrev pub with_listener : WantsAddr → k.TcpListener → WantsClient
  with_listener _ l = record { al = listener l }

  abbrev pub with_client : WantsClient → r.Client → WantsCa
  with_client b client = record { al = b.al; client = client }

  abbrev pub with_rustls_client : WantsClient → WantsCa
  with_rustls_client b = record { al = b.al; client = k.rustls_client }

  abbrev pub with_native_tls_client : WantsClient → WantsCa
  with_native_tls_client b = record { al = b.al; client = k.native_tls_client }

  abbrev pub with_ca : WantsCa → r.Ca → WantsHandlers
  with_ca b ca = record {
    al = b.al;
    client = b.client;
    ca = ca;
    http_handler = record { handler = noop_http p; state = tt };
    websocket_handler = record { handler = noop_websocket p; state = tt };
    websocket_connector = none;
    server = none;
    graceful_shutdown = k.pending;
  }

  abbrev pub with_http_handler : WantsHandlers → HttpWith p → WantsHandlers
  with_http_handler b handler = record b { http_handler = handler }

  abbrev pub with_websocket_handler : WantsHandlers → WebSocketWith p → WantsHandlers
  with_websocket_handler b handler = record b { websocket_handler = handler }

  abbrev pub with_websocket_connector : WantsHandlers → r.Connector → WantsHandlers
  with_websocket_connector b connector = record b { websocket_connector = some connector }

  abbrev pub with_server : WantsHandlers → r.Server → WantsHandlers
  with_server b server = record b { server = some server }

  abbrev pub with_graceful_shutdown : WantsHandlers → k.Shutdown → WantsHandlers
  with_graceful_shutdown b shutdown = record b { graceful_shutdown = shutdown }

  abbrev pub build : WantsHandlers → Proxy
  build b = record {
    al = b.al;
    ca = b.ca;
    client = b.client;
    http_handler = b.http_handler;
    websocket_handler = b.websocket_handler;
    websocket_connector = b.websocket_connector;
    server = b.server;
    graceful_shutdown = b.graceful_shutdown;
  }
