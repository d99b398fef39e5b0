-- ===== src/Decoder/Decoded.antt =====
-- What `decode_request` and `decode_response` of src/decoder.rs make of a message.
use hudsucker.Prelude.{
  ℕ, suc, ◌≡◌, ◌≢◌, refl, sym, ap, ◌∙◌, Bool, true, false, not, ◌&&◌, ◌||◌, if◌then◌else◌, List, [],
  map, map-reverse, reverse, Bytes, ==_of_ne, ==_refl, Result, ok, err, ◌>>=◌, All, arith, first,
  is_empty,
}
use hudsucker.Http.{Http, Request, Response, HeaderName, content_encoding, content_length}
use hudsucker.Error.{Error}
use hudsucker.Bstr.{Bstr}
use hudsucker.Body.{Bodies, Body}
use hudsucker.Decoder.{
  decode_body, extract_encodings, is_zero, decode_parts, decode_request, decode_response,
}
use hudsucker.Decoder.Readers.{Codecs}
use hudsucker.Decoder.Encodings.{
  HeaderList, elements, IsElement, value_text, words, extract_encodings_lem,
}
use hudsucker.Decoder.Roundtrip.{Coding, name, encode_all, Contains, decode_body-Contains}
use hudsucker.Decoder.Message.{
  SucceedsIff, all_supported, decode_body-SucceedsIff, is_encoded,
  content_length-ne-content_encoding, get_all-without_length, decode_parts_lem,
}

module _ (k : Bodies) (c : Codecs k) (fuel : ℕ) (h : Http) (s : Bstr) where
  open h use {HeaderMap, HeaderValue}

  -- A message is accepted if it is not to be decoded, or if all its encodings are supported.
  abbrev pub is_accepted : HeaderMap → Bool
  is_accepted headers =
      not (is_encoded k c fuel h s headers) || all_supported (extract_encodings h s headers)

  decode_parts-SucceedsIff :
      (headers : HeaderMap) (b : Body k)
      → SucceedsIff (is_accepted headers) (decode_parts k c fuel h s headers b)
  decode_parts-SucceedsIff headers b = rw (decode_parts_lem k c fuel h s headers b) (
      go (is_empty (h.get_all headers content_encoding))
        (is_zero k c fuel h s (first (h.get_all headers content_length)))
        (decode_body k c fuel (extract_encodings h s headers) b)
        (decode_body-SucceedsIff k c fuel (extract_encodings h s headers) b))
    where
      go :
          (none_coded zero : Bool) (r : Result (Body k) (Error k.errors))
          → SucceedsIff (all_supported (extract_encodings h s headers)) r
          → SucceedsIff {A = HeaderMap × Body k} {e = k.errors}
              (not (not none_coded && not zero) || all_supported (extract_encodings h s headers))
              (if none_coded
                then ok (headers, b)
                else if zero
                then ok ((h.remove headers content_length).1, b)
                else (r >>= λ b'.
                    ok ((h.remove (h.remove headers content_length).1 content_encoding).1, b')))
      go true zero r is = refl
      go false true r is = refl
      go false false (ok b') is = is
      go false false (err e) is = is

  through :
      {A B : Type 0} (test : Bool) (r : Result A (Error k.errors)) (f : A → B)
      → SucceedsIff test r
      → SucceedsIff test (r >>= λ a. ok (f a))
  through test (ok a) f is = is
  through test (err e) f is = is

  -- Decoding a request succeeds exactly if it has no Content-Encoding header, or its Content-Length
  -- is "0", or all its encodings are supported; if not, the error is `Decode`. No other value of
  -- Content-Length, a number or not, makes it fail.
  pub decode_request-SucceedsIff :
      (req : Request h (Body k))
      → SucceedsIff (is_accepted req.headers) (decode_request k c fuel h s req)
  unfolding decode_request
  decode_request-SucceedsIff req =
      through (is_accepted req.headers) (decode_parts k c fuel h s req.headers req.body)
        (λ parts. record req { headers = parts.0; body = parts.1 })
        (decode_parts-SucceedsIff req.headers req.body)

  -- Decoding a response succeeds exactly if it has no Content-Encoding header, or its
  -- Content-Length is "0", or all its encodings are supported; if not, the error is `Decode`. No
  -- other value of Content-Length, a number or not, makes it fail.
  pub decode_response-SucceedsIff :
      (res : Response h (Body k))
      → SucceedsIff (is_accepted res.headers) (decode_response k c fuel h s res)
  unfolding decode_response
  decode_response-SucceedsIff res =
      through (is_accepted res.headers) (decode_parts k c fuel h s res.headers res.body)
        (λ parts. record res { headers = parts.0; body = parts.1 })
        (decode_parts-SucceedsIff res.headers res.body)

  -- The headers of a message that was decoded: those that told of its coding and its coded length
  -- are gone, and the others are as before.
  pub record IsDecoded (before after : HeaderMap) : Type 0 where
    pub no_encoding : h.get_all after content_encoding ≡ []
    pub no_length : h.get_all after content_length ≡ []
    pub others :
        (key : HeaderName)
        → key ≢ content_encoding
        → key ≢ content_length
        → h.get_all after key ≡ h.get_all before key

  abbrev decoded_headers : HeaderMap → HeaderMap
  decoded_headers headers = (h.remove (h.remove headers content_length).1 content_encoding).1

  decoded_headers-IsDecoded : (headers : HeaderMap) → IsDecoded headers (decoded_headers headers)
  decoded_headers-IsDecoded headers = record {
    no_encoding = rw (h.get_all-remove, ==_refl content_encoding);
    no_length =
        rw
          (
            h.get_all-remove,
            ==_of_ne content_encoding content_length
                (λ e. content_length-ne-content_encoding k c fuel h s (sym e)),
          )
          (rw (h.get_all-remove, ==_refl content_length));
    others = λ key encoding length.
        rw (h.get_all-remove, ==_of_ne content_encoding key (λ e. encoding (sym e)))
          (get_all-without_length k c fuel h s headers key (λ e. length (sym e)));
  }

split_encoded :
    (none_coded zero : Bool)
    → (not none_coded && not zero) ≡ true
    → (none_coded ≡ false) × (zero ≡ false)
split_encoded none_coded zero e = ground arith

module _ (k : Bodies) (c : Codecs k) (fuel : ℕ) (h : Http) (s : Bstr) where
  -- A message whose body is that of `bytes` with `codings` applied, first one first, and whose
  -- Content-Encoding headers list them in that order; it is to be decoded.
  pub record IsCoded (headers : h.HeaderMap) (b : Body k) (codings : List Coding) (bytes : Bytes)
      : Type 0 where
    pub encoded : is_encoded k c (suc fuel) h s headers ≡ true
    pub lists : List HeaderList
    pub values : map h.as_bytes (h.get_all headers content_encoding) ≡ map value_text lists
    pub well_formed : All (λ l. All IsElement (elements l)) lists
    pub names : words lists ≡ map name codings
    pub contents : Contains k c fuel b (encode_all k c (reverse codings) bytes)

  decode_parts-decodes :
      (headers : h.HeaderMap) (b : Body k) (codings : List Coding) (bytes : Bytes)
      → IsCoded headers b codings bytes
      → (b' : Body k) × (decode_parts k c (suc fuel) h s headers b
          ≡ ok (decoded_headers k c (suc fuel) h s headers, b'))
        × Contains k c fuel b' bytes
  decode_parts-decodes headers b codings bytes coded =
      let encodings : extract_encodings h s headers ≡ map name (reverse codings) =
        extract_encodings_lem s h headers coded.lists coded.values coded.well_formed
        ∙ ap reverse coded.names
        ∙ sym (map-reverse name codings) in
      let (b', decoded, contains) =
        decode_body-Contains k c fuel (reverse codings) b bytes coded.contents in
      let (some_coded, not_zero) =
        split_encoded (is_empty (h.get_all headers content_encoding))
          (is_zero k c (suc fuel) h s (first (h.get_all headers content_length))) coded.encoded in
      (
        b',
        decode_parts_lem k c (suc fuel) h s headers b
            ∙ rw (some_coded, not_zero, encodings, decoded),
        contains,
      )

  -- A request whose body is some bytes with supported codings applied one after the other, whose
  -- Content-Encoding headers list these codings in that order, with blanks and commas between them,
  -- over one header or several, and whose Content-Length, if it has one, is not "0", is decoded
  -- successfully: it comes back with a body that, read to its end, holds the bytes, without its
  -- Content-Encoding and Content-Length headers, and with all else as it was.
  pub decode_request-decodes :
      (req : Request h (Body k)) (codings : List Coding) (bytes : Bytes)
      → IsCoded req.headers req.body codings bytes
      → (headers : h.HeaderMap) × (b : Body k) × (decode_request k c (suc fuel) h s req
          ≡ ok (record req { headers = headers; body = b }))
        × IsDecoded k c (suc fuel) h s req.headers headers
        × Contains k c fuel b bytes
  unfolding decode_request
  decode_request-decodes req codings bytes coded =
      let (b', made, contains) = decode_parts-decodes req.headers req.body codings bytes coded in
      (
        decoded_headers k c (suc fuel) h s req.headers,
        b',
        rw made,
        decoded_headers-IsDecoded k c (suc fuel) h s req.headers,
        contains,
      )

  -- A response whose body is some bytes with supported codings applied one after the other, whose
  -- Content-Encoding headers list these codings in that order, with blanks and commas between them,
  -- over one header or several, and whose Content-Length, if it has one, is not "0", is decoded
  -- successfully: it comes back with a body that, read to its end, holds the bytes, without its
  -- Content-Encoding and Content-Length headers, and with all else as it was.
  pub decode_response-decodes :
      (res : Response h (Body k)) (codings : List Coding) (bytes : Bytes)
      → IsCoded res.headers res.body codings bytes
      → (headers : h.HeaderMap) × (b : Body k) × (decode_response k c (suc fuel) h s res
          ≡ ok (record res { headers = headers; body = b }))
        × IsDecoded k c (suc fuel) h s res.headers headers
        × Contains k c fuel b bytes
  unfolding decode_response
  decode_response-decodes res codings bytes coded =
      let (b', made, contains) = decode_parts-decodes res.headers res.body codings bytes coded in
      (
        decoded_headers k c (suc fuel) h s res.headers,
        b',
        rw made,
        decoded_headers-IsDecoded k c (suc fuel) h s res.headers,
        contains,
      )
