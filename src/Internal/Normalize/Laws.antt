-- ===== src/Internal/Normalize/Laws.antt =====
-- What `normalize_request` promises.
use hudsucker.Prelude.{
  ◌≡◌, refl, ◌∙◌, ◌≢◌, inr, List, [], ◌∷◌, map, Bytes, join, All, All-append, ◌==◌, ==_of_ne,
  ==_refl, sym, done, arith,
}
use hudsucker.Http.{Http, Request, http_11, host_header, cookie_header, HeaderName, IsValueByte}
use hudsucker.Bstr.{Bstr}
use hudsucker.Internal.Normalize.{
  separator, join_cookies, insert_joined, with_headers, normalize_headers, normalize_request,
}

module _ (h : Http) (s : Bstr) where
  open h use {HeaderMap, HeaderValue}

  join-valid : (vs : List HeaderValue) → All IsValueByte (join (separator h s) (map h.as_bytes vs))
  join-valid [] = tt
  join-valid (v ∷ []) = h.as_bytes-All v
  join-valid (v ∷ w ∷ vs) =
      All-append IsValueByte (h.as_bytes v) _ (h.as_bytes-All v)
        (inr (omega arith), (inr (omega arith), join-valid (w ∷ vs)))

  -- The cookies of a request as one value holds them: separated by a semicolon and a space.
  abbrev pub joined : List HeaderValue → List Bytes
  joined [] = []
  joined (v ∷ vs) = join (separator h s) (map h.as_bytes (v ∷ vs)) ∷ []

  -- Headers made ready for a server: what became of each name.
  pub record IsNormal (before after : HeaderMap) : Type 0 where
    pub no_host : h.get_all after host_header ≡ []
    pub one_cookie :
        map h.as_bytes (h.get_all after cookie_header) ≡ joined (h.get_all before cookie_header)
    pub others :
        (k : HeaderName)
        → k ≢ host_header
        → k ≢ cookie_header
        → h.get_all after k ≡ h.get_all before k

  -- The entry of the cookie header: an empty one is left alone, the values of another are joined.
  join_cookies_lem :
      (headers : HeaderMap) (cookies : List HeaderValue)
      → h.get_all headers cookie_header ≡ cookies
      → (after : HeaderMap) × (join_cookies h s headers cookies ≡ done after)
        × (map h.as_bytes (h.get_all after cookie_header) ≡ joined cookies)
        × ((k : HeaderName) → k ≢ cookie_header → h.get_all after k ≡ h.get_all headers k)
  unfolding join_cookies insert_joined
  join_cookies_lem headers [] e = (headers, refl, rw e, λ k ne. refl)
  join_cookies_lem headers (v ∷ vs) e =
      let (value, made, bytes) = h.from_bytes-valid _ (join-valid (v ∷ vs)) in
      (
        h.insert headers cookie_header value,
        rw (s.join_bytes_lem, made),
        rw (h.get_all-insert, ==_refl cookie_header, bytes),
        λ k ne. rw (h.get_all-insert, ==_of_ne cookie_header k (λ p. ne (sym p))),
      )

  host_header-ne-cookie_header : host_header ≢ cookie_header
  host_header-ne-cookie_header p = cc

  -- Preparing the headers never panics.
  normalize_headers_lem :
      (headers : HeaderMap)
      → (after : HeaderMap) × (normalize_headers h s headers ≡ done after) × IsNormal headers after
  unfolding normalize_headers ◌==◌
  normalize_headers_lem headers =
      let without_host = (h.remove headers host_header).1 in
      let (after, made, cookie, others) =
        join_cookies_lem without_host (h.get_all headers cookie_header)
          (h.get_all-remove headers host_header cookie_header) in
      (
        after,
        rw (h.get_all-remove headers host_header cookie_header) made,
        record {
          no_host =
              others host_header host_header-ne-cookie_header
              ∙ h.get_all-remove headers host_header host_header;
          one_cookie = cookie;
          others = λ k host cookie.
              others k cookie ∙ rw (h.get_all-remove, ==_of_ne host_header k (λ p. host (sym p)));
        },
      )

  -- What `normalize_request` does to a request.
  pub record IsNormalized {B : Type 0} (before after : Request h B) : Type 0 where
    pub method : after.method ≡ before.method
    pub uri : after.uri ≡ before.uri
    pub version : after.version ≡ http_11
    pub headers : IsNormal before.headers after.headers
    pub extensions : after.extensions ≡ before.extensions
    pub body : after.body ≡ before.body

  -- Normalising a request never panics. It returns a request for HTTP/1.1 in which there is no Host
  -- header, the values of the Cookie headers are joined to one by "; " (if there are any), and all
  -- else is as before.
  pub normalize_request-IsNormalized :
      {B : Type 0} (req : Request h B)
      → (after : Request h B) × (normalize_request h s req ≡ done after) × IsNormalized req after
  unfolding normalize_request with_headers
  normalize_request-IsNormalized req =
      let (headers, made, normal) = normalize_headers_lem req.headers in
      (
        record req { headers = headers; version = http_11 },
        rw made,
        record {
          method = refl;
          uri = refl;
          version = refl;
          headers = normal;
          extensions = refl;
          body = refl;
        },
      )
