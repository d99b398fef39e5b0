-- ===== src/Platform.antt =====
-- The crates below the proxy together: `http`, `http-body-util`, `hyper-util`'s client error, the
-- addresses of `std::net`, and the messages and errors of `tungstenite`.
use hudsucker.Prelude.{Bool}
use hudsucker.Http.{Http, Request, Response, StatusCode, http_11}
use hudsucker.Body.{Bodies, Body, from_empty}

pub record Platform : Type 1 where
  pub http : Http
  pub bodies : Bodies
  pub SocketAddr : Type 0
  -- `hyper_util::client::legacy::Error`
  pub ClientError : Type 0
  -- `tungstenite::Message`, `Message::Close(None)`
  pub Message : Type 0
  pub close : Message
  -- `tungstenite::Error`, and whether it is `ConnectionClosed`
  pub WsError : Type 0
  pub is_connection_closed : WsError → Bool

-- `Request<Body>` and `Response<Body>`.
abbrev pub BodyRequest : Platform → Type 0
BodyRequest p = Request p.http (Body p.bodies)

abbrev pub BodyResponse : Platform → Type 0
BodyResponse p = Response p.http (Body p.bodies)

-- `Response::builder().status(status).body(Empty::new().into())`: the builder starts from HTTP/1.1
-- and no headers. Its `expect` is for a bad status or header, and there is none.
abbrev pub empty_response : (p : Platform) → StatusCode → BodyResponse p
empty_response p status = record {
  status = status;
  version = http_11;
  headers = p.http.no_headers;
  extensions = p.http.no_extensions;
  body = from_empty p.bodies p.bodies.empty_new;
}
