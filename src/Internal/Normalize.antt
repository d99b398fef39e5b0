-- ===== src/Internal/Normalize.antt =====
-- `normalize_request` of src/proxy/internal.rs: a request is made ready for an HTTP/1.1 server.
pub mod Laws
use hudsucker.Prelude.{Option, none, some, List, [], ◌∷◌, map, Bytes, codes, Outcome, done, panic}
use hudsucker.Http.{Http, Request, http_11, host_header, cookie_header}
use hudsucker.Bstr.{Bstr}

module _ (h : Http) (s : Bstr) where
  open h use {HeaderMap, HeaderValue}

  abbrev pub separator : Bytes
  separator = codes "; "

  -- `cookies.insert(joined_cookies.try_into().expect(..))`
  insert_joined : HeaderMap → Option HeaderValue → Outcome HeaderMap
  insert_joined headers none = panic
  insert_joined headers (some joined) = done (h.insert headers cookie_header joined)

  -- The entry of the cookie header, given its values; it is occupied if there are any.
  join_cookies : HeaderMap → List HeaderValue → Outcome HeaderMap
  join_cookies headers [] = done headers
  join_cookies headers (cookie ∷ cookies) =
      insert_joined headers
        (h.from_bytes (s.join_bytes separator (map h.as_bytes (cookie ∷ cookies))))

  pub normalize_headers : HeaderMap → Outcome HeaderMap
  unfolding join_cookies insert_joined
  normalize_headers headers =
      let without_host = (h.remove headers host_header).1 in
      join_cookies without_host (h.get_all without_host cookie_header)

  pub with_headers : {B : Type 0} → Request h B → Outcome HeaderMap → Outcome (Request h B)
  with_headers req panic = panic
  with_headers req (done headers) = done (record req { headers = headers; version = http_11 })

  unfoldable pub normalize_request : {B : Type 0} → Request h B → Outcome (Request h B)
  unfolding normalize_headers with_headers
  normalize_request req = with_headers req (normalize_headers req.headers)
