-- ===== src/Decoder/Message.antt =====
-- `decode_request` and `decode_response` of src/decoder.rs: which messages are decoded, what
-- becomes of their headers, and when decoding fails.
use hudsucker.Prelude.{
  ℕ, ◌≡◌, ◌≢◌, refl, inl, inr, Bool, true, false, not, ◌&&◌, ◌||◌, if◌then◌else◌, List, [], ◌∷◌,
  Bytes, codes, ◌==◌, ==_of_ne, Result, ok, err, ◌>>=◌, Bool-cases, first, is_empty,
}
use hudsucker.Http.{Http, HeaderName, content_encoding, content_length}
use hudsucker.Error.{Errors, Error, decode}
use hudsucker.Bstr.{Bstr}
use hudsucker.Body.{Bodies, Body}
use hudsucker.Decoder.{
  Decoder, body, decoder, to_body, decode_reader, reader_of, decode_one, decode_all, decode_body,
  extract_encodings, is_zero, decode_parts,
}
use hudsucker.Decoder.Readers.{Codecs}

abbrev pub is_supported : Bytes → Bool
is_supported e =
    e == codes "identity"
    || e == codes "gzip"
    || e == codes "x-gzip"
    || e == codes "deflate"
    || e == codes "br"
    || e == codes "zstd"

abbrev pub all_supported : List Bytes → Bool
all_supported [] = true
all_supported (e ∷ es) = is_supported e && all_supported es

-- The result is a success if the test holds, and the error `Decode` if not.
abbrev pub SucceedsIff : {A : Type 0} {e : Errors} → Bool → Result A (Error e) → Type 0
SucceedsIff test (ok _) = test ≡ true
SucceedsIff test (err e) = (test ≡ false) × (e ≡ decode)

module _ (k : Bodies) (c : Codecs k) (fuel : ℕ) where
  decode_one-SucceedsIff :
      (d : Decoder k c) (e : Bytes) → SucceedsIff (is_supported e) (decode_one k c fuel d e)
  unfolding decode_one decode_reader
  decode_one-SucceedsIff d e =
      go (e == codes "identity") (e == codes "gzip") (e == codes "x-gzip") (e == codes "deflate")
        (e == codes "br") (e == codes "zstd")
    where
      go :
          (i g x f b z : Bool)
          → SucceedsIff {e = k.errors} (i || g || x || f || b || z) (
              if i
              then ok d
              else ((if g || x
                    then ok (c.gzip_decoder (reader_of k c fuel d))
                    else if f
                    then ok (c.zlib_decoder (reader_of k c fuel d))
                    else if b
                    then ok (c.brotli_decoder (reader_of k c fuel d))
                    else if z
                    then ok (c.zstd_decoder (reader_of k c fuel d))
                    else err decode)
                  >>= λ r. ok (decoder r)))
      go true g x f b z = refl
      go false true x f b z = refl
      go false false true f b z = refl
      go false false false true b z = refl
      go false false false false true z = refl
      go false false false false false true = refl
      go false false false false false false = (refl, refl)

  decode_all-SucceedsIff :
      (es : List Bytes) (d : Decoder k c)
      → SucceedsIff (all_supported es) (decode_all k c fuel es d)
  unfolding decode_all
  decode_all-SucceedsIff [] d = refl
  decode_all-SucceedsIff (e ∷ es) d =
      go (decode_one k c fuel d e) (decode_one-SucceedsIff d e) (decode_all-SucceedsIff es)
    where
      go :
          (r : Result (Decoder k c) (Error k.errors))
          → SucceedsIff (is_supported e) r
          → ((d' : Decoder k c) → SucceedsIff (all_supported es) (decode_all k c fuel es d'))
          → SucceedsIff (is_supported e && all_supported es) (r >>= decode_all k c fuel es)
      go (ok d') is ih = rw is (ih d')
      go (err x) is ih = (rw is.0, is.1)

  -- Decoding a body succeeds exactly if every encoding is one of the six that are supported; if not,
  -- the error is `Decode`.
  pub decode_body-SucceedsIff :
      (es : List Bytes) (b : Body k) → SucceedsIff (all_supported es) (decode_body k c fuel es b)
  unfolding decode_body
  decode_body-SucceedsIff es b =
      go (decode_all k c fuel es (body b)) (decode_all-SucceedsIff es (body b))
    where
      go :
          (r : Result (Decoder k c) (Error k.errors))
          → SucceedsIff (all_supported es) r
          → SucceedsIff (all_supported es) (r >>= λ d. ok (to_body k c fuel d))
      go (ok d) is = is
      go (err e) is = is

module _ (k : Bodies) (c : Codecs k) (fuel : ℕ) (h : Http) (s : Bstr) where
  open h use {HeaderMap, HeaderValue}

  -- A message is to be decoded: it has a Content-Encoding header, and its first Content-Length
  -- header, if there is one, is not "0".
  abbrev pub is_encoded : HeaderMap → Bool
  is_encoded headers =
      not (is_empty (h.get_all headers content_encoding))
      && not (is_zero k c fuel h s (first (h.get_all headers content_length)))

  pub content_length-ne-content_encoding : content_length ≢ content_encoding
  content_length-ne-content_encoding e = cc

  pub get_all-without_length :
      (headers : HeaderMap) (key : HeaderName)
      → content_length ≢ key
      → h.get_all (h.remove headers content_length).1 key ≡ h.get_all headers key
  get_all-without_length headers key ne = rw (h.get_all-remove, ==_of_ne content_length key ne)

  encodings-without_length :
      (headers : HeaderMap)
      → extract_encodings h s (h.remove headers content_length).1 ≡ extract_encodings h s headers
  unfolding extract_encodings
  encodings-without_length headers =
      rw (get_all-without_length headers content_encoding content_length-ne-content_encoding)

  -- `decode_parts` by the values of the headers.
  pub decode_parts_lem :
      (headers : HeaderMap) (b : Body k)
      → decode_parts k c fuel h s headers b ≡ (
          if is_empty (h.get_all headers content_encoding)
          then ok (headers, b)
          else if is_zero k c fuel h s (first (h.get_all headers content_length))
          then ok ((h.remove headers content_length).1, b)
          else (decode_body k c fuel (extract_encodings h s headers) b >>= λ b'.
              ok ((h.remove (h.remove headers content_length).1 content_encoding).1, b')))
  unfolding decode_parts
  decode_parts_lem headers b =
      rw
        (
          h.contains_key_lem headers content_encoding,
          h.remove-first headers content_length,
          encodings-without_length headers,
        )
        (elim (Bool-cases (is_empty (h.get_all headers content_encoding))) [
          | inl e ↦ rw e
          | inr e ↦ rw e
        ])
