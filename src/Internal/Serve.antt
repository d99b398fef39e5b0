-- ===== src/Internal/Serve.antt =====
-- `serve_stream` of src/proxy/internal.rs: the requests that arrive in an intercepted tunnel are
-- made absolute before they go to the proxy.
pub mod Absolute
use hudsucker.Prelude.{Bool, true, false, if◌then◌else◌, Option, none, some, Outcome, done, panic}
use hudsucker.Http.{Http, Request, Version, Scheme, http_09, http_10, http_11, http_2, http_3}

-- `req.version() == HTTP_10 || req.version() == HTTP_11`.
abbrev pub is_http_1 : Version → Bool
is_http_1 http_09 = false
is_http_1 http_10 = true
is_http_1 http_11 = true
is_http_1 http_2 = false
is_http_1 http_3 = false

module _ (h : Http) {B : Type 0} where
  open h use {Authority, Uri}

  -- `Uri::from_parts(parts).expect(..)`, put into the request.
  set_uri : Request h B → Option Uri → Outcome (Request h B)
  set_uri req none = panic
  set_uri req (some uri) = done (record req { uri = uri })

  -- The request that the service hands to the proxy.
  pub make_absolute : Scheme → Authority → Request h B → Outcome (Request h B)
  unfolding set_uri
  make_absolute scheme authority req =
      let parts = record (h.into_parts req.uri) {
        scheme = some scheme;
        authority = some authority;
      } in
      if is_http_1 req.version then set_uri req (h.from_parts parts) else done req
