-- ===== src/Internal/Runtime.antt =====
-- What src/proxy/internal.rs takes from the crates that do its input and output (`hyper`,
-- `hyper-util`, `hyper-tungstenite`, `tokio`, `tokio-rustls`, `tokio-tungstenite`), and the proxy's
-- own state. What an operation of these finds in the world outside is its result: each stands for
-- one run, and the theorems hold for every choice of them.
use hudsucker.Prelude.{ℕ, Bool, Option, Bytes, Outcome, Result, ok, ◌≤◌, ◌≡◌, length}
use hudsucker.Http.{Request, Response}
use hudsucker.Platform.{Platform, BodyRequest}
use hudsucker.Handler.{HttpHandler, WebSocketHandler, HttpContext}
use hudsucker.Rewind.{Buffers, AsyncIo, Rewind}

pub record Runtime (p : Platform) (k : Buffers) : Type 1 where
  -- `Client::request`
  pub Client : Type 0
  pub request :
      Client → BodyRequest p → Result (Response p.http p.bodies.incoming.Carrier) p.ClientError
  -- `CertificateAuthority::gen_server_config`, which may panic
  pub Ca : Type 0
  pub ServerConfig : Type 0
  pub gen_server_config : Ca → p.http.Authority → Outcome ServerConfig
  -- `hyper::upgrade::on`, which takes the pending upgrade out of the request
  pub HyperError : Type 0
  pub upgraded : AsyncIo k
  pub upgrade_on : BodyRequest p → Result upgraded.Io HyperError × BodyRequest p
  -- `AsyncReadExt::read` into a buffer of the given size: the bytes that were read
  pub read : ℕ → upgraded.Io → Result Bytes upgraded.IoError × upgraded.Io
  pub read-le : (n : ℕ) (io : upgraded.Io) (b : Bytes) → (read n io).0 ≡ ok b → length b ≤ n
  -- `TlsAcceptor::from(config).accept(stream)`
  pub TlsStream : Type 0
  pub tls_accept : ServerConfig → Rewind upgraded.Io → Result TlsStream upgraded.IoError
  -- `TcpStream::connect` and `copy_bidirectional`
  pub TcpStream : Type 0
  pub connect : p.http.Authority → Result TcpStream upgraded.IoError
  pub copy_bidirectional : Rewind upgraded.Io → TcpStream → Result (Unit {0}) upgraded.IoError
  -- the server builder, how serving a connection ends, and the text of its error
  pub Server : Type 0
  pub ServeError : Type 0
  pub serve_plain : Server → Rewind upgraded.Io → Result (Unit {0}) ServeError
  pub serve_tls : Server → TlsStream → Result (Unit {0}) ServeError
  pub to_string : ServeError → Bytes
  -- `hyper_tungstenite::is_upgrade_request` and `upgrade`: the response, the pending connection,
  -- and the request as it leaves it
  pub is_upgrade_request : BodyRequest p → Bool
  pub Websocket : Type 0
  pub upgrade :
      Request p.http (Unit {0})
      → Result
          (Response p.http p.bodies.full.Carrier × Websocket × Request p.http (Unit {0}))
          p.WsError
  -- it does not change the URI
  pub upgrade-uri :
      (req left : Request p.http (Unit {0})) (res : Response p.http p.bodies.full.Carrier)
      (websocket : Websocket)
      → upgrade req ≡ ok (res, websocket, left)
      → left.uri ≡ req.uri
  -- awaiting the pending connection, and dialling the server with the proxy's connector
  pub WsStream : Type 0
  pub accept_websocket : Websocket → Result WsStream p.WsError
  pub Connector : Type 0
  -- whether a feature for TLS in the client is on; with one `connect_async_tls_with_config`, without
  -- one `connect_async`
  pub tls_client : Bool
  pub connect_tls : Request p.http (Unit {0}) → Option Connector → Result WsStream p.WsError
  pub connect_plain : Request p.http (Unit {0}) → Result WsStream p.WsError
  -- `StreamExt::split`
  pub WsSink : Type 0
  pub WsSource : Type 0
  pub split : WsStream → WsSink × WsSource

-- `InternalProxy`.
pub record InternalProxy {p : Platform} {k : Buffers} (r : Runtime p k) (h : HttpHandler p)
    (w : WebSocketHandler p) : Type 0 where
  pub ca : r.Ca
  pub client : r.Client
  pub server : r.Server
  pub http_handler : h.State
  pub websocket_handler : w.State
  pub websocket_connector : Option r.Connector
  pub client_addr : p.SocketAddr

-- `InternalProxy::context`.
abbrev pub context :
    {p : Platform} {k : Buffers} {r : Runtime p k} {h : HttpHandler p} {w : WebSocketHandler p}
    → InternalProxy r h w
    → HttpContext p
context self = record { client_addr = self.client_addr }
