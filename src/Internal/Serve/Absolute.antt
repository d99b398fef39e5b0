-- ===== src/Internal/Serve/Absolute.antt =====
-- Which requests in an intercepted tunnel are made absolute, and which make the service panic.
use hudsucker.Prelude.{
  ◌≡◌, refl, ◌↔◌, inl, inr, true, false, none, some, done, panic, Option-cases, done-ne-panic,
  Bool-cases, sym, ◌∙◌,
}
use hudsucker.Http.{Http, Request, Scheme}
use hudsucker.Internal.Serve.{is_http_1, set_uri, make_absolute}

module _ (h : Http) {B : Type 0} (scheme : Scheme) (authority : h.Authority)
    (req : Request h B) where
  -- A request over HTTP/1 with a path is handed to the proxy with the scheme and the authority of
  -- the tunnel in its URI, whatever its URI said of these; its path and all else are as before.
  pub make_absolute-http_1 :
      (path : h.PathAndQuery)
      → is_http_1 req.version ≡ true
      → (h.into_parts req.uri).path_and_query ≡ some path
      → (uri : h.Uri) × (make_absolute h scheme authority req ≡ done (record req { uri = uri }))
        × (h.into_parts uri ≡ record {
          scheme = some scheme;
          authority = some authority;
          path_and_query = some path;
        })
  unfolding make_absolute set_uri
  make_absolute-http_1 path old has =
      let (uri, made, parts) = h.from_parts-absolute scheme authority path in
      (uri, rw (old, has, made), parts)

  -- A request over another version is handed to the proxy as it is.
  pub make_absolute-new :
      is_http_1 req.version ≡ false → make_absolute h scheme authority req ≡ done req
  unfolding make_absolute
  make_absolute-new new = rw new refl

  -- The service panics exactly on a request over HTTP/1 whose URI has no path, such as a CONNECT
  -- request inside of the tunnel.
  pub make_absolute-panic :
      (make_absolute h scheme authority req ≡ panic)
      ↔ ((is_http_1 req.version ≡ true) × ((h.into_parts req.uri).path_and_query ≡ none))
  unfolding make_absolute set_uri
  make_absolute-panic = (there, back)
    where
      there :
          make_absolute h scheme authority req ≡ panic
          → (is_http_1 req.version ≡ true) × ((h.into_parts req.uri).path_and_query ≡ none)
      there e = elim (Bool-cases (is_http_1 req.version)) [
        | inr new ↦ absurd (done-ne-panic {a = req} (rw new at e))
        | inl old ↦ elim (Option-cases (h.into_parts req.uri).path_and_query) [
          | inl lacks ↦ (old, lacks)
          | inr (path, has) ↦
              (let (uri, made, _) = make_absolute-http_1 path old has in
                absurd (done-ne-panic (sym made ∙ e)))
        ]
      ]

      back :
          (is_http_1 req.version ≡ true) × ((h.into_parts req.uri).path_and_query ≡ none)
          → make_absolute h scheme authority req ≡ panic
      back (old, lacks) = rw (old, lacks, h.from_parts-no_path)
